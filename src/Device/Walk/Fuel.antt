-- ===== src/Device/Walk/Fuel.antt =====
-- adbsyncdb/walk.go: the depth of a walk, and its fuel.
use adb_broker.Prelude.{
  ℕ, zero, suc, ◌+◌, ◌≤◌, ◌≡◌, refl, inl, inr, Bool, true, false, Option, none, some, List, [], ◌∷◌,
  arith, ltb, ◌==◌, if◌then◌else◌, Bool-cases, Bytes, Result, ok, err,
}
use adb_broker.Wire.Numbers.{pos}
use adb_broker.Wire.Socket.{WireError}
use adb_broker.Wire.Stat.{Stat}
use adb_broker.Wire.Session.{SyncConn, lstat, stat}
use adb_broker.Wire.Listing.{list}
use adb_broker.DevicePath.{AuthorizedPath, volume_root}
use adb_broker.DevicePath.Volume.{Volume, contains_dev}
use adb_broker.Filekind.{parse_kind, is_dir}
use adb_broker.Device.Walker.{
  FileRecord, coded, by_caller, walk_out_of_fuel, Walk, Level, refuse, level_of, Walked, and_then,
}
use adb_broker.Device.Walk.{
  on_dirent, recheck_answer, recheck_once, recheck_root, descend_answer, descend_all,
  listing_failed, after_list, may_descend, in_dir, walk_dir, walk_fuel, root_answer, walk_root,
  max_walk_depth,
}

-- The result is one of the source's.
abbrev pub Returns : {S E : Type 0} → Walked S E → Type 0
Returns (w, c, ok _) = Unit
Returns (w, c, err (coded code e)) = Unit
Returns (w, c, err (by_caller x)) = Unit
Returns (w, c, err walk_out_of_fuel) = ⊥

module _ {S E : Type 0} (roots : List Bytes) (to_lower : Bytes → Bytes) (vol : Volume)
    (max_depth : ℕ) (fn : S → FileRecord → S × Option E)
    (cancelled : Walk S E → SyncConn → Bool) where
  abbrev Next : Type 0
  Next = AuthorizedPath → ℕ → Walk S E → SyncConn → Walked S E

  and_then-Returns :
      (r : Walked S E) (next : Walk S E → SyncConn → Walked S E)
      → Returns r
      → ((w : Walk S E) (c : SyncConn) → Returns (next w c))
      → Returns (and_then r next)
  and_then-Returns (w, c, err e) next h k = h
  and_then-Returns (w, c, ok u) next h k = k w c

  recheck-Returns :
      (w : Walk S E) (c : SyncConn)
      → Returns (recheck_root roots to_lower vol max_depth fn cancelled w c)
  recheck-Returns w c = once w.root_rechecked
    where
      answer :
          (v : Walk S E) (x : SyncConn × Result WireError Stat)
          → Returns (recheck_answer roots to_lower vol max_depth fn cancelled v x)
      answer v (c', err e) = tt
      answer v (c', ok st) = elim (Bool-cases (st.errno == 0)) [
        | inr a ↦ rw (a, recheck_answer) tt
        | inl a ↦ elim (Bool-cases (contains_dev vol (pos st.dev))) [
          | inr b ↦ rw (a, b, recheck_answer) tt
          | inl b ↦ rw (a, b, recheck_answer) tt
        ]
      ]

      once : (b : Bool) → Returns (recheck_once roots to_lower vol max_depth fn cancelled b w c)
      once true = tt
      once false = answer (record w { root_rechecked = true }) (stat volume_root c)

  descend-Returns :
      (next : Next) (p : AuthorizedPath) (depth : ℕ) (w : Walk S E)
      (x : SyncConn × Result WireError Stat)
      → ((c : SyncConn) → Returns (next p depth w c))
      → Returns (descend_answer roots to_lower vol max_depth fn cancelled next p depth w x)
  descend-Returns next p depth w (c, err e) k = tt
  descend-Returns next p depth w (c, ok st) k = elim (Bool-cases (st.errno == 0)) [
    | inr a ↦ rw (a, descend_answer) tt
    | inl a ↦ elim (Bool-cases (contains_dev vol (pos st.dev))) [
      | inr b ↦ rw (a, b, descend_answer) (recheck-Returns (refuse w) c)
      | inl b ↦ elim (Bool-cases (is_dir (parse_kind st.mode))) [
        | inr f ↦ rw (a, b, f, descend_answer) tt
        | inl f ↦ rw (a, b, f, descend_answer) (k c)
      ]
    ]
  ]

  descend_all-Returns :
      (next : Next) (depth : ℕ) (ps : List AuthorizedPath)
      → ((p : AuthorizedPath) (w : Walk S E) (c : SyncConn) → Returns (next p depth w c))
      → (w : Walk S E) (c : SyncConn)
      → Returns (descend_all roots to_lower vol max_depth fn cancelled next depth ps w c)
  descend_all-Returns next depth [] k w c = tt
  descend_all-Returns next depth (p ∷ ps) k w c =
      and_then-Returns
        (descend_answer roots to_lower vol max_depth fn cancelled next p depth w (lstat p.path c))
        (descend_all roots to_lower vol max_depth fn cancelled next depth ps)
        (descend-Returns next p depth w (lstat p.path c) (k p w))
        (descend_all-Returns next depth ps k)

  after_list-Returns :
      (next : Next) (depth : ℕ) (x : SyncConn × Level S E × Result WireError (Unit {0}))
      → ((p : AuthorizedPath) (w : Walk S E) (c : SyncConn) → Returns (next p (depth + 1) w c))
      → Returns (after_list roots to_lower vol max_depth fn cancelled next depth x)
  after_list-Returns next depth (c, l, err e) k = failed l.walk.caller_err
    where
      failed :
          (x : Option E)
          → Returns (listing_failed roots to_lower vol max_depth fn cancelled l.walk c e x)
      failed none = tt
      failed (some y) = tt
  after_list-Returns next depth (c, l, ok u) k =
      and_then-Returns
        (if l.saw_off_pin
          then recheck_root roots to_lower vol max_depth fn cancelled l.walk c
          else (l.walk, c, ok tt))
        (descend_all roots to_lower vol max_depth fn cancelled next (depth + 1) l.children)
        (elim (Bool-cases l.saw_off_pin) [
          | inl b ↦ rw b (recheck-Returns l.walk c)
          | inr b ↦ rw b tt
        ])
        (descend_all-Returns next (depth + 1) l.children k)

  in_dir-Returns :
      (next : Next) (stop deep : Bool) (dir : AuthorizedPath) (depth : ℕ) (w : Walk S E)
      (c : SyncConn)
      → (deep ≡ false
          → (p : AuthorizedPath) (v : Walk S E) (b : SyncConn) → Returns (next p (depth + 1) v b))
      → Returns (in_dir roots to_lower vol max_depth fn cancelled stop deep next dir depth w c)
  in_dir-Returns next true deep dir depth w c k = tt
  in_dir-Returns next false true dir depth w c k = tt
  in_dir-Returns next false false dir depth w c k =
      after_list-Returns next depth
        (list
          (on_dirent roots to_lower vol max_depth fn cancelled dir
            (may_descend roots to_lower vol max_depth fn cancelled depth))
          dir.path (level_of w) c)
        (k refl)

  -- One unit for every level that is left, and one to refuse the level below them.
  walk_dir-Returns :
      (fuel : ℕ) (dir : AuthorizedPath) (depth : ℕ) (w : Walk S E) (c : SyncConn)
      → max_walk_depth + 2 ≤ fuel + depth
      → depth ≤ max_walk_depth + 1
      → Returns (walk_dir roots to_lower vol max_depth fn cancelled fuel dir depth w c)
  unfolding walk_dir
  walk_dir-Returns zero dir depth w c h d = absurd (omega arith)
  walk_dir-Returns (suc fuel) dir depth w c h d =
      in_dir-Returns (walk_dir roots to_lower vol max_depth fn cancelled fuel) (cancelled w c)
        (ltb max_walk_depth depth) dir depth w c
        (λ e p v b.
          walk_dir-Returns fuel p (depth + 1) v b (omega arith)
            (let m : depth ≤ max_walk_depth = ground arith in omega arith))

  -- A walk returns, whatever tree the device makes up: it goes no deeper than 128 levels, so the fuel, one more,
  -- is never used up.
  pub walk_root-Returns :
      (root : AuthorizedPath) (w : Walk S E) (c : SyncConn)
      → Returns (walk_root roots to_lower vol max_depth fn cancelled root w c)
  unfolding walk_root
  walk_root-Returns root w c = answered (lstat root.path c)
    where
      answered :
          (x : SyncConn × Result WireError Stat)
          → Returns (root_answer roots to_lower vol max_depth fn cancelled root w x)
      answered (b, err e) = tt
      answered (b, ok st) = elim (Bool-cases (st.errno == 0)) [
        | inr a ↦ rw (a, root_answer) tt
        | inl a ↦ elim (Bool-cases (is_dir (parse_kind st.mode))) [
          | inr f ↦ rw (a, f, root_answer) tt
          | inl f ↦ elim (Bool-cases (contains_dev vol (pos st.dev))) [
            | inr g ↦ rw (a, f, g, root_answer) tt
            | inl g ↦
                rw (a, f, g, root_answer)
                  (walk_dir-Returns (walk_fuel roots to_lower vol max_depth fn cancelled) root 1 w b
                    (omega arith) (omega arith))
          ]
        ]
      ]
