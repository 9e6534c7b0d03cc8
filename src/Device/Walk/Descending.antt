-- ===== src/Device/Walk/Descending.antt =====
-- adbsyncdb/walk.go: runs of the steps, `recheckRoot` and `descend`.
use adb_broker.Prelude.{
  ℕ, ◌≡◌, refl, sym, ap, subst, ◌⊎◌, ==_iff, inl, inr, Bool, true, false, Option, none, some, List,
  [], ◌∷◌, ◌==◌, Bool-cases, All, Bytes, codes, Result, ok, err,
}
use adb_broker.Wire.Numbers.{pos}
use adb_broker.Wire.Socket.{WireError}
use adb_broker.Wire.Stat.{Stat}
use adb_broker.Wire.Session.{SyncConn, lstat, stat}
use adb_broker.DevicePath.{AuthorizedPath, volume_root}
use adb_broker.DevicePath.Volume.{Volume, contains_dev}
use adb_broker.Filekind.{parse_kind, is_dir}
use adb_broker.Device.Codes.{code_for_errno}
use adb_broker.Device.Walker.{
  FileRecord, WalkError, coded, by_caller, walk_out_of_fuel, Walk, refuse, Walked, and_then,
}
use adb_broker.Device.Walk.{recheck_answer, recheck_once, recheck_root, descend_answer, descend_all}
use adb_broker.Device.Walk.Steps.{
  Descends, looked, asked, turned_down, noticed, dropped, WalkSteps, further,
}

-- How a result goes with what the callback said.
abbrev pub Told : {E : Type 0} → Option E → Result (WalkError E) (Unit {0}) → Type 0
Told none (ok _) = Unit
Told none (err (coded c e)) = Unit
Told none (err walk_out_of_fuel) = Unit
Told none (err (by_caller x)) = ⊥
Told (some x) (err (by_caller y)) = x ≡ y
Told (some x) (err (coded c e)) = ⊥
Told (some x) (err walk_out_of_fuel) = ⊥
Told (some x) (ok _) = ⊥

pub Told-none :
    {E : Type 0} (x : Option E) (r : Result (WalkError E) (Unit {0}))
    → x ≡ none
    → Told none r
    → Told x r
Told-none x r q h = subst (λ y. Told y r) (sym q) h

Told-ok : {E : Type 0} (x : Option E) (u : Unit {0}) → Told x (ok u) → x ≡ none
Told-ok none u h = refl
Told-ok (some x) u h = absurd h

-- A walk from a state and a session is a run of the steps, and its result says whether the callback failed.
abbrev pub Refined :
    {S E : Type 0}
    → List Bytes
    → Volume
    → (S → FileRecord → S × Option E)
    → AuthorizedPath
    → Walk S E
    → SyncConn
    → Walked S E
    → Type 0
Refined roots vol fn root start first (w, c, r) =
    WalkSteps roots vol fn root start first w c × Told w.caller_err r

module _ {S E : Type 0} (roots : List Bytes) (to_lower : Bytes → Bytes) (vol : Volume)
    (max_depth : ℕ) (fn : S → FileRecord → S × Option E) (cancelled : Walk S E → SyncConn → Bool)
    (root : AuthorizedPath) (start : Walk S E) (first : SyncConn) where
  -- The walk has come here by the steps.
  abbrev pub Ran : Walk S E → SyncConn → Type 0
  Ran w c = WalkSteps roots vol fn root start first w c

  -- A part of a walk that may follow while the callback has not failed.
  abbrev pub GoesOn : (Walk S E → SyncConn → Walked S E) → Type 0
  GoesOn next =
      (w : Walk S E) (c : SyncConn)
      → Ran w c
      → w.caller_err ≡ none
      → Refined roots vol fn root start first (next w c)

  pub and_then-Refined :
      (r : Walked S E) (next : Walk S E → SyncConn → Walked S E)
      → Refined roots vol fn root start first r
      → GoesOn next
      → Refined roots vol fn root start first (and_then r next)
  and_then-Refined (w, c, err e) next h k = h
  and_then-Refined (w, c, ok u) next (g, t) k = k w c g (Told-ok w.caller_err u t)

  pub recheck-Refined : GoesOn (recheck_root roots to_lower vol max_depth fn cancelled)
  recheck-Refined w c g n = once w.root_rechecked refl
    where
      answer :
          (v : Walk S E) (x : SyncConn × Result WireError Stat)
          → Ran v x.0
          → v.caller_err ≡ none
          → Refined roots vol fn root start first
              (recheck_answer roots to_lower vol max_depth fn cancelled v x)
      answer v (c', err e) h q = (further h dropped, Told-none v.caller_err _ q tt)
      answer v (c', ok st) h q = elim (Bool-cases (st.errno == 0)) [
        | inr a ↦ rw (a, recheck_answer) (h, Told-none v.caller_err _ q tt)
        | inl a ↦ elim (Bool-cases (contains_dev vol (pos st.dev))) [
          | inr b ↦ rw (a, b, recheck_answer) (h, Told-none v.caller_err _ q tt)
          | inl b ↦ rw (a, b, recheck_answer) (h, Told-none v.caller_err _ q tt)
        ]
      ]

      once :
          (b : Bool)
          → w.root_rechecked ≡ b
          → Refined roots vol fn root start first
              (recheck_once roots to_lower vol max_depth fn cancelled b w c)
      once true q = (g, Told-none w.caller_err _ n tt)
      once false q =
          answer (record w { root_rechecked = true }) (stat volume_root c) (further g (asked q)) n

  -- `walkDir`, for a directory that was reached from the root.
  abbrev pub Descending : (AuthorizedPath → ℕ → Walk S E → SyncConn → Walked S E) → Type 0
  Descending next = (p : AuthorizedPath) (depth : ℕ) → Descends roots root p → GoesOn (next p depth)

  descend-Refined :
      (next : AuthorizedPath → ℕ → Walk S E → SyncConn → Walked S E) (p : AuthorizedPath)
      (depth : ℕ) (w : Walk S E) (b : SyncConn) (x : SyncConn × Result WireError Stat)
      → Descending next
      → Descends roots root p
      → Ran w b
      → w.caller_err ≡ none
      → lstat p.path b ≡ x
      → Refined roots vol fn root start first
          (descend_answer roots to_lower vol max_depth fn cancelled next p depth w x)
  descend-Refined next p depth w b (c, err e) k d g n q = (
    further (subst (λ y. Ran w y.0) q (further g (looked p d))) dropped,
    Told-none w.caller_err _ n tt,
  )
  descend-Refined next p depth w b (c, ok st) k d g n q = elim (Bool-cases (st.errno == 0)) [
    | inr a ↦
        rw (a, descend_answer)
          (
            further seen (
                noticed p
                  (code_for_errno st.errno (codes "path_not_found") (codes "transfer_failed")) d),
            Told-none w.caller_err _ n tt,
          )
    | inl a ↦ elim (Bool-cases (contains_dev vol (pos st.dev))) [
      | inr v ↦ rw (a, v, descend_answer) (recheck-Refined (refuse w) c (refused a (inl v)) n)
      | inl v ↦ elim (Bool-cases (is_dir (parse_kind st.mode))) [
        | inr f ↦ rw (a, v, f, descend_answer) (refused a (inr f), Told-none w.caller_err _ n tt)
        | inl f ↦ rw (a, v, f, descend_answer) (k p depth d w c seen n)
      ]
    ]
  ]
    where
      seen : Ran w c
      seen = subst (λ y. Ran w y.0) q (further g (looked p d))

      refused :
          (st.errno == 0) ≡ true
          → (contains_dev vol (pos st.dev) ≡ false) ⊎ (is_dir (parse_kind st.mode) ≡ false)
          → Ran (refuse w) c
      refused a off =
          subst (λ y. Ran (refuse w) y.0) q
            (further g (turned_down p st d (ap (λ y. y.1) q) ((==_iff st.errno 0).0 a) off))

  pub descend_all-Refined :
      (next : AuthorizedPath → ℕ → Walk S E → SyncConn → Walked S E) (depth : ℕ)
      (ps : List AuthorizedPath)
      → Descending next
      → All (Descends roots root) ps
      → GoesOn (descend_all roots to_lower vol max_depth fn cancelled next depth ps)
  descend_all-Refined next depth [] k h w c g n = (g, Told-none w.caller_err _ n tt)
  descend_all-Refined next depth (p ∷ ps) k (h, hs) w c g n =
      and_then-Refined
        (descend_answer roots to_lower vol max_depth fn cancelled next p depth w (lstat p.path c))
        (descend_all roots to_lower vol max_depth fn cancelled next depth ps)
        (descend-Refined next p depth w c (lstat p.path c) k h g n refl)
        (descend_all-Refined next depth ps k hs)
