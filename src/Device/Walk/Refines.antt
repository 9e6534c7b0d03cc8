-- ===== src/Device/Walk/Refines.antt =====
-- adbsyncdb/walk.go: a walk of a tree, by its steps.
use adb_broker.Prelude.{
  ℕ, zero, suc, ◌+◌, ◌≡◌, refl, sym, subst, inl, inr, Bool, true, false, Option, none, some, List,
  ltb, ◌==◌, if◌then◌else◌, Bool-cases, All, Bytes, codes, Result, ok, err,
}
use adb_broker.Wire.Numbers.{pos}
use adb_broker.Wire.Socket.{Socket, WireError}
use adb_broker.Wire.Stat.{Stat}
use adb_broker.Wire.Session.{SyncConn, lstat}
use adb_broker.Wire.Listing.{Dirent, list}
use adb_broker.DevicePath.{AuthorizedPath}
use adb_broker.DevicePath.Volume.{Volume, contains_dev}
use adb_broker.Filekind.{parse_kind, is_dir}
use adb_broker.Device.Walker.{FileRecord, by_caller, Walk, Level, level_of, is_some, Walked}
use adb_broker.Device.Walk.{
  on_dirent, recheck_root, descend_all, listing_failed, after_list, may_descend, in_dir, walk_dir,
  walk_fuel, root_answer, walk_root, max_walk_depth,
}
use adb_broker.Device.Walk.Callback.{Keeps, Left, list-Left}
use adb_broker.Device.Walk.Entry.{classify-Next}
use adb_broker.Device.Walk.Steps.{
  Descends, at_root, before_any, delivered, Entries, looked, listed, unlisted, noticed, dropped,
  stay, further,
}
use adb_broker.Device.Walk.Descending.{
  Told, Told-none, Refined, Ran, and_then-Refined, recheck-Refined, Descending, descend_all-Refined,
}

is_some-none : {E : Type 0} (x : Option E) → is_some x ≡ false → x ≡ none
is_some-none none h = refl
is_some-none (some e) h = absurd (cc)

module _ {S E : Type 0} (roots : List Bytes) (to_lower : Bytes → Bytes) (vol : Volume)
    (max_depth : ℕ) (fn : S → FileRecord → S × Option E) (cancelled : Walk S E → SyncConn → Bool)
    (root : AuthorizedPath) (start : Walk S E) (first : SyncConn) where
  -- A listing that began in a state: where it stands while it goes on, and where it ends.
  abbrev Ended : AuthorizedPath → Walk S E → Socket → Level S E → Socket → Type 0
  Ended dir w t l u = Entries roots vol fn root dir w t l.walk u

  abbrev Going : AuthorizedPath → Walk S E → Socket → Level S E → Socket → Type 0
  Going dir w t l u =
      Entries roots vol fn root dir w t l.walk u
      × All (Descends roots root) l.children
      × (l.walk.caller_err ≡ none)

  on_dirent-Keeps :
      (dir : AuthorizedPath) (may : Bool) (w : Walk S E)
      → Descends roots root dir
      → Keeps
          (on_dirent roots to_lower vol max_depth fn cancelled dir may)
          (Going dir w)
          (Ended dir w)
  on_dirent-Keeps dir may w h t l u v d q (g, cs, n) =
      let (step, cs') =
        classify-Next roots to_lower vol max_depth fn cancelled root dir d l may cs n h in
      let run = delivered d g q step in ((λ e. (run, cs', is_some-none _ e)), λ _. run)

  -- What the walk has of a listing.
  abbrev FromListing :
      AuthorizedPath
      → Walk S E
      → SyncConn
      → SyncConn × Level S E × Result WireError (Unit {0})
      → Type 0
  FromListing dir w c x =
      Left {S = Level S E} (λ l d. (l, true)) (Going dir w) (Ended dir w) dir.path c (level_of w) x

  listing-Ran :
      (dir : AuthorizedPath) (w : Walk S E) (c c' : SyncConn) (l : Level S E)
      (r : Result WireError (Unit {0}))
      → Descends roots root dir
      → Ran roots to_lower vol max_depth fn cancelled root start first w c
      → FromListing dir w c (c', l, r)
      → Ran roots to_lower vol max_depth fn cancelled root start first l.walk c'
  listing-Ran dir w c c' l r d g (inl (same, k, _)) =
      subst
        (λ (x : Level S E).
          Ran roots to_lower vol max_depth fn cancelled root start first x.walk c')
        (sym same) (further g (unlisted dir d k))
  listing-Ran dir w c c' l (ok z) d g (inr (s, t, u, a, p, (h, _, _), e)) =
      further g (listed dir (ok z) d a p h e)
  listing-Ran dir w c c' l (err z) d g (inr (s, t, u, a, p, h, e)) =
      further g (listed dir (err z) d a p h e)

  after_list-Refined :
      (next : AuthorizedPath → ℕ → Walk S E → SyncConn → Walked S E) (depth : ℕ)
      (dir : AuthorizedPath) (w : Walk S E) (first_c : SyncConn)
      (x : SyncConn × Level S E × Result WireError (Unit {0}))
      → Descending roots to_lower vol max_depth fn cancelled root start first next
      → Descends roots root dir
      → Ran roots to_lower vol max_depth fn cancelled root start first w first_c
      → FromListing dir w first_c x
      → Refined roots vol fn root start first
          (after_list roots to_lower vol max_depth fn cancelled next depth x)
  after_list-Refined next depth dir w b (c, l, err e) k d g h = failed l.walk.caller_err refl
    where
      failed :
          (x : Option E)
          → l.walk.caller_err ≡ x
          → Refined roots vol fn root start first
              (listing_failed roots to_lower vol max_depth fn cancelled l.walk c e x)
      failed none q = (
        further (listing-Ran dir w b c l (err e) d g h) dropped,
        Told-none l.walk.caller_err _ q tt,
      )
      failed (some y) q = (
        further (listing-Ran dir w b c l (err e) d g h) dropped,
        subst (λ z. Told z (err (by_caller y))) (sym q) refl,
      )
  after_list-Refined next depth dir w b (c, l, ok u) k d g (inl (_, _, (e, q))) = absurd (cc)
  after_list-Refined next depth dir w b (c, l, ok u) k d g (inr (s, t, v, a, p, (h, cs, n), z)) =
      and_then-Refined roots to_lower vol max_depth fn cancelled root start first
        (if l.saw_off_pin
          then recheck_root roots to_lower vol max_depth fn cancelled l.walk c
          else (l.walk, c, ok tt))
        (descend_all roots to_lower vol max_depth fn cancelled next (depth + 1) l.children) checked
        (descend_all-Refined roots to_lower vol max_depth fn cancelled root start first next
          (depth + 1) l.children k cs)
    where
      run : Ran roots to_lower vol max_depth fn cancelled root start first l.walk c
      run = further g (listed dir (ok u) d a p h z)

      checked : Refined roots vol fn root start first (
          if l.saw_off_pin
          then recheck_root roots to_lower vol max_depth fn cancelled l.walk c
          else (l.walk, c, ok tt))
      checked = elim (Bool-cases l.saw_off_pin) [
        | inl b ↦ rw b (
            recheck-Refined roots to_lower vol max_depth fn cancelled root start first l.walk c run
              n)
        | inr b ↦ rw b (run, Told-none l.walk.caller_err _ n tt)
      ]

  in_dir-Refined :
      (next : AuthorizedPath → ℕ → Walk S E → SyncConn → Walked S E) (stop deep : Bool)
      (dir : AuthorizedPath) (depth : ℕ) (w : Walk S E) (c : SyncConn)
      → Descending roots to_lower vol max_depth fn cancelled root start first next
      → Descends roots root dir
      → Ran roots to_lower vol max_depth fn cancelled root start first w c
      → w.caller_err ≡ none
      → Refined roots vol fn root start first
          (in_dir roots to_lower vol max_depth fn cancelled stop deep next dir depth w c)
  in_dir-Refined next true deep dir depth w c k d g n = (g, Told-none w.caller_err _ n tt)
  in_dir-Refined next false true dir depth w c k d g n =
      (further g (noticed dir (codes "path_denied") d), Told-none w.caller_err _ n tt)
  in_dir-Refined next false false dir depth w c k d g n =
      after_list-Refined next depth dir w c (list on_entry dir.path (level_of w) c) k d g (
        list-Left on_entry (Going dir w) (Ended dir w) dir.path (level_of w) c
          (on_dirent-Keeps dir (may_descend roots to_lower vol max_depth fn cancelled depth) w d)
          (λ t l u h. h.0) (λ t. (before_any, tt, n)))
    where
      on_entry : Level S E → Dirent → Level S E × Bool
      on_entry =
          on_dirent roots to_lower vol max_depth fn cancelled dir
            (may_descend roots to_lower vol max_depth fn cancelled depth)

  walk_dir-Refined :
      (fuel : ℕ)
      → Descending roots to_lower vol max_depth fn cancelled root start first
          (walk_dir roots to_lower vol max_depth fn cancelled fuel)
  unfolding walk_dir
  walk_dir-Refined zero dir depth d w c g n = (g, Told-none w.caller_err _ n tt)
  walk_dir-Refined (suc fuel) dir depth d w c g n =
      in_dir-Refined (walk_dir roots to_lower vol max_depth fn cancelled fuel) (cancelled w c)
        (ltb max_walk_depth depth) dir depth w c (walk_dir-Refined fuel) d g n

  root_answer-Refined :
      (w : Walk S E) (x : SyncConn × Result WireError Stat)
      → Ran roots to_lower vol max_depth fn cancelled root start first w x.0
      → w.caller_err ≡ none
      → Refined roots vol fn root start first
          (root_answer roots to_lower vol max_depth fn cancelled root w x)
  root_answer-Refined w (c, err e) g n = (further g dropped, Told-none w.caller_err _ n tt)
  root_answer-Refined w (c, ok st) g n = elim (Bool-cases (st.errno == 0)) [
    | inr a ↦ rw (a, root_answer) (g, Told-none w.caller_err _ n tt)
    | inl a ↦ elim (Bool-cases (is_dir (parse_kind st.mode))) [
      | inr b ↦ rw (a, b, root_answer) (g, Told-none w.caller_err _ n tt)
      | inl b ↦ elim (Bool-cases (contains_dev vol (pos st.dev))) [
        | inr f ↦ rw (a, b, f, root_answer) (g, Told-none w.caller_err _ n tt)
        | inl f ↦
            rw (a, b, f, root_answer)
              (walk_dir-Refined (walk_fuel roots to_lower vol max_depth fn cancelled) root 1 at_root
                w c g n)
      ]
    ]
  ]

  pub walk_root-Refined :
      start.caller_err ≡ none
      → Refined roots vol fn root start first
          (walk_root roots to_lower vol max_depth fn cancelled root start first)
  unfolding walk_root
  walk_root-Refined n =
      root_answer-Refined start (lstat root.path first) (further stay (looked root at_root)) n
