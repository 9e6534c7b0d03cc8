-- ===== src/Device/Walk/Entry.antt =====
-- adbsyncdb/walk.go: `classify` of one entry of a listing.
use adb_broker.Prelude.{
  ℕ, ◌≡◌, refl, inl, inr, Bool, true, false, ◌||◌, Option, none, some, List, [], ◌∷◌, ◌==◌, ==_iff,
  Bool-cases, All, All-append, Bytes, codes, bytes_eq, Result, ok, err,
}
use adb_broker.Wire.Numbers.{pos}
use adb_broker.Wire.Session.{SyncConn}
use adb_broker.Wire.Listing.{Dirent}
use adb_broker.DevicePath.{AuthorizedPath, Denial, child, dot, dot_dot}
use adb_broker.DevicePath.Volume.{Volume, contains_dev}
use adb_broker.Filekind.{
  Kind, kind_unknown, kind_regular, kind_dir, kind_symlink, kind_other, parse_kind,
}
use adb_broker.Errcode.{code_internal}
use adb_broker.Device.Codes.{code_for_errno}
use adb_broker.Device.Walker.{
  FileRecord, to_bus_file_record, Walk, Level, called, named_child, noted, kept_child,
}
use adb_broker.Device.Walk.{converted, emitted, emit, by_kind, classify}
use adb_broker.Device.Walk.Steps.{
  Descends, below, Served, IsPassed, passed, gave, stopped, left_out, reported, EntryStep,
}

module _ {S E : Type 0} (roots : List Bytes) (to_lower : Bytes → Bytes) (vol : Volume)
    (max_depth : ℕ) (fn : S → FileRecord → S × Option E) (cancelled : Walk S E → SyncConn → Bool)
    (root dir : AuthorizedPath) (d : Dirent) where
  abbrev pub Reached : AuthorizedPath → Type 0
  Reached = Descends roots root

  -- The entry is a step, and the directories that are still to be descended into are reached from the root.
  abbrev pub Next : Walk S E → Level S E → Type 0
  Next w l = EntryStep roots vol fn root dir d w l.walk × All Reached l.children

  named_child-Next :
      (l : Level S E) (r : Result Denial AuthorizedPath)
      → All Reached l.children
      → Reached dir
      → IsPassed vol d
      → child roots dir d.name ≡ r
      → Next l.walk (kept_child l (named_child l.walk dir r))
  named_child-Next l (err e) cs h k q = (reported dir (codes "path_denied") h, cs)
  named_child-Next l (ok p) cs h k q =
      (passed k, All-append Reached l.children (p ∷ []) cs (below d.name h q, tt))

  noted-Next :
      (l : Level S E) (r : Result Denial AuthorizedPath) (errno : ℕ)
      → All Reached l.children
      → Reached dir
      → child roots dir d.name ≡ r
      → Next l.walk (record l { walk = noted errno (named_child l.walk dir r) })
  noted-Next l (err e) errno cs h q = (reported dir (codes "path_denied") h, cs)
  noted-Next l (ok p) errno cs h q = (
    reported p (code_for_errno errno (codes "path_not_found") (codes "transfer_failed"))
        (below d.name h q),
    cs,
  )

  emit-Next :
      (l : Level S E)
      → All Reached l.children
      → l.walk.caller_err ≡ none
      → Reached dir
      → d.status.errno ≡ 0
      → contains_dev vol (pos d.status.dev) ≡ true
      → parse_kind d.status.mode ≡ kind_regular
      → Next l.walk
          (record l { walk = emit roots to_lower vol max_depth fn cancelled l.walk dir d })
  emit-Next l cs n h e v k = file_of (child roots dir d.name) refl
    where
      answered :
          (r : FileRecord) (x : S × Option E)
          → Served roots vol root dir d r
          → fn l.walk.user r ≡ x
          → Next l.walk (record l { walk = called l.walk x })
      answered r (s, none) sv q = (gave r s sv n q, cs)
      answered r (s, some x) sv q = (stopped r s x sv n q, cs)

      given :
          (p : AuthorizedPath) (x : Option FileRecord)
          → child roots dir d.name ≡ ok p
          → to_bus_file_record p d.status ≡ x
          → Next l.walk
              (record l { walk = converted roots to_lower vol max_depth fn cancelled l.walk p x })
      given p none q f = (reported p code_internal (below d.name h q), cs)
      given p (some r) q f =
          answered r (fn l.walk.user r)
            (record {
              file = p;
              dir_reached = h;
              named = q;
              readable = e;
              on_volume = v;
              regular = k;
              as_listed = f;
            })
            refl

      file_of :
          (r : Result Denial AuthorizedPath)
          → child roots dir d.name ≡ r
          → Next l.walk (record l {
            walk = emitted roots to_lower vol max_depth fn cancelled d (named_child l.walk dir r);
          })
      file_of (err x) q = (reported dir (codes "path_denied") h, cs)
      file_of (ok p) q = given p (to_bus_file_record p d.status) q refl

  by_kind-Next :
      (l : Level S E) (may : Bool) (k : Kind)
      → All Reached l.children
      → l.walk.caller_err ≡ none
      → Reached dir
      → d.status.errno ≡ 0
      → contains_dev vol (pos d.status.dev) ≡ true
      → parse_kind d.status.mode ≡ k
      → Next l.walk (by_kind roots to_lower vol max_depth fn cancelled dir d l may k)
  by_kind-Next l may kind_regular cs n h e v q = emit-Next l cs n h e v q
  by_kind-Next l true kind_dir cs n h e v q =
      named_child-Next l (child roots dir d.name) cs h (inr (v, q)) refl
  by_kind-Next l false kind_dir cs n h e v q = (passed (inr (v, q)), cs)
  by_kind-Next l may kind_symlink cs n h e v q =
      (left_out (e, inr ((λ z. absurd (cc)), λ z. absurd (cc))), cs)
  by_kind-Next l may kind_other cs n h e v q =
      (left_out (e, inr ((λ z. absurd (cc)), λ z. absurd (cc))), cs)
  by_kind-Next l may kind_unknown cs n h e v q =
      (left_out (e, inr ((λ z. absurd (cc)), λ z. absurd (cc))), cs)

  pub classify-Next :
      (l : Level S E) (may : Bool)
      → All Reached l.children
      → l.walk.caller_err ≡ none
      → Reached dir
      → Next l.walk (classify roots to_lower vol max_depth fn cancelled dir may l d)
  unfolding classify
  classify-Next l may cs n h = elim (Bool-cases (bytes_eq d.name dot || bytes_eq d.name dot_dot)) [
    | inl a ↦ rw a (passed (inl a), cs)
    | inr a ↦ elim (Bool-cases (d.status.errno == 0)) [
      | inr b ↦ rw (a, b) (noted-Next l (child roots dir d.name) d.status.errno cs h refl)
      | inl b ↦
          let e = (==_iff d.status.errno 0).0 b in
          elim (Bool-cases (contains_dev vol (pos d.status.dev))) [
            | inr v ↦ rw (a, b, v) (left_out (e, inl v), cs)
            | inl v ↦ rw (a, b, v) (by_kind-Next l may (parse_kind d.status.mode) cs n h e v refl)
          ]
    ]
  ]
