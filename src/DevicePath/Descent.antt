-- ===== src/DevicePath/Descent.antt =====
-- `Child`: descending by one directory entry name.
use adb_broker.Prelude.{
  List, [], ◌∷◌, ◌++◌, append_assoc, Bytes, bytes_eq_iff, ok, ◌≡◌, ◌≢◌, refl, ◌∙◌, ap, arith, All,
  All-append, Any-map,
}
use mathlib.Core.List.{append-ne-nil_of_right_ne-nil}
use adb_broker.DevicePath.{AuthorizedPath, slash, dot, dot_dot, split, parse_authorized_path, child}
use adb_broker.DevicePath.Segments.{Below, split-nil, split_at_slash}
use adb_broker.DevicePath.Form.{
  IsPlain, bytes_eq-false, IsWellFormed, contains-false, no_nul_of_contains,
}
use adb_broker.DevicePath.Parse.{IsAuthorized, parse_authorized_path_iff}

-- A name that one directory entry can have.
abbrev pub IsEntryName : Bytes → Type 0
IsEntryName name = All (λ c. c ≢ slash) name × All (λ c. c ≢ 0) name × IsPlain name

-- A name without a separator is one segment.
split-single : (name : Bytes) → All (λ c. c ≢ slash) name → split name ≡ name ∷ []
unfolding split
split-single [] h = refl
split-single (c ∷ name) (n, h) = ground (arith, split-single name h)

child_parts :
    (roots : List Bytes) (a : AuthorizedPath) (name : Bytes) (p : AuthorizedPath)
    → child roots a name ≡ ok p
    → (a.path ≢ [])
      × IsEntryName name
      × (parse_authorized_path roots (a.path ++ (slash ∷ name)) ≡ ok p)
unfolding child
child_parts roots a name p h = ground (
  arith,
  bytes_eq_iff a.path [],
  bytes_eq_iff name [],
  bytes_eq_iff name dot,
  bytes_eq_iff name dot_dot,
  no_nul_of_contains slash name,
  no_nul_of_contains 0 name,
)

child_taken :
    (roots : List Bytes) (a : AuthorizedPath) (name : Bytes)
    → a.path ≢ []
    → IsEntryName name
    → child roots a name ≡ parse_authorized_path roots (a.path ++ (slash ∷ name))
unfolding child
child_taken roots a name n (no_slash, no_zero, (ne, nd, ndd)) = rw (
  bytes_eq-false a.path [] n,
  bytes_eq-false name [] ne,
  contains-false slash name no_slash,
  contains-false 0 name no_zero,
  bytes_eq-false name dot nd,
  bytes_eq-false name dot_dot ndd,
)

split_entry :
    (s name : Bytes)
    → All (λ c. c ≢ slash) name
    → split (s ++ (slash ∷ name)) ≡ split s ++ (name ∷ [])
split_entry s name h = split_at_slash s name ∙ ap (λ l. split s ++ l) (split-single name h)

child_path-Below :
    (s name root : Bytes)
    → All (λ c. c ≢ slash) name
    → Below s root
    → Below (s ++ (slash ∷ name)) root
child_path-Below s name root h (rest, e) = (
  rest ++ (name ∷ []),
  split_entry s name h ∙ ap (λ l. l ++ (name ∷ [])) e ∙ append_assoc (split root) rest (name ∷ []),
)

child_path-IsWellFormed :
    (s name : Bytes) → IsWellFormed s → IsEntryName name → IsWellFormed (s ++ (slash ∷ name))
child_path-IsWellFormed s name w (no_slash, no_zero, plain) = record {
  no_nul = All-append _ s (slash ∷ name) w.no_nul (omega arith, no_zero);
  below = w.below ++ (name ∷ []);
  spelled = split_entry s name no_slash ∙ ap (λ l. l ++ (name ∷ [])) w.spelled;
  some_below = append-ne-nil_of_right_ne-nil w.below (λ q. cc);
  plain = All-append _ w.below (name ∷ []) w.plain (plain, tt);
}

-- Whatever `Child` returns lies in the same allowlist, is the parent's path with one more segment,
-- and `ParseAuthorizedPath` accepts its string too.
pub child_sound :
    (roots : List Bytes) (a : AuthorizedPath) (name : Bytes) (p : AuthorizedPath)
    → child roots a name ≡ ok p
    → IsAuthorized roots p.path
      × (split p.path ≡ split a.path ++ (name ∷ []))
      × (parse_authorized_path roots p.path ≡ ok p)
child_sound roots a name p h =
    let (_, entry, parsed) = child_parts roots a name p h in
    let (e, w, r) = (parse_authorized_path_iff roots (a.path ++ (slash ∷ name)) p).0 parsed in
    (
      rw e (w, r),
      rw e (split_entry a.path name entry.0),
      ap (parse_authorized_path roots) e ∙ parsed,
    )

-- From an authorized path `Child` refuses no name that a directory entry can have.
pub child_complete :
    (roots : List Bytes) (a : AuthorizedPath) (name : Bytes)
    → IsAuthorized roots a.path
    → IsEntryName name
    → child roots a name ≡ ok (record { path = a.path ++ (slash ∷ name) })
child_complete roots a name (w, r) e =
    child_taken roots a name (λ z. cc (w.spelled, ap split z, split-nil)) e
    ∙ (parse_authorized_path_iff roots (a.path ++ (slash ∷ name)) _).1 (
      refl,
      child_path-IsWellFormed a.path name w e,
      Any-map roots (λ root b. child_path-Below a.path name root e.0 b) r,
    )
