-- ===== src/DevicePath/Parse.antt =====
-- `ParseAuthorizedPath`: what it accepts, said of the segments.
use adb_broker.Prelude.{
  true, List, [], ◌∷◌, Bytes, ok, ◌≡◌, sym, ◌∙◌, ◌↔◌, inl, inr, Bool-cases, arith, Any,
}
use adb_broker.DevicePath.{AuthorizedPath, check_form, within, within_any, parse_authorized_path}
use adb_broker.DevicePath.Segments.{Below, within_iff}
use adb_broker.DevicePath.Form.{IsWellFormed, check_form_iff}

within_any_sound :
    (s : Bytes) (roots : List Bytes) → within_any s roots ≡ true → Any (Below s) roots
unfolding within_any
within_any_sound s [] h = cc
within_any_sound s (root ∷ roots) h = elim (Bool-cases (within s root)) [
  | inl e ↦ inl ((within_iff s root).0 e)
  | inr e ↦ inr (within_any_sound s roots (ground arith))
]

within_any_complete :
    (s : Bytes) (roots : List Bytes) → Any (Below s) roots → within_any s roots ≡ true
unfolding within_any
within_any_complete s [] h = absurd h
within_any_complete s (root ∷ roots) (inl b) = rw ((within_iff s root).1 b)
within_any_complete s (root ∷ roots) (inr h) = ground (arith, within_any_complete s roots h)

pub within_any_iff :
    (s : Bytes) (roots : List Bytes) → (within_any s roots ≡ true) ↔ Any (Below s) roots
within_any_iff s roots = (within_any_sound s roots, within_any_complete s roots)

-- The paths that a list of roots admits.
abbrev pub IsAuthorized : List Bytes → Bytes → Type 0
IsAuthorized roots s = IsWellFormed s × Any (Below s) roots

parse_parts :
    (roots : List Bytes) (s : Bytes) (p : AuthorizedPath)
    → parse_authorized_path roots s ≡ ok p
    → (check_form s ≡ ok tt) × (within_any s roots ≡ true) × (p.path ≡ s)
unfolding parse_authorized_path
parse_parts roots s p h = ground arith

pub parse_accepted :
    (roots : List Bytes) (s : Bytes)
    → check_form s ≡ ok tt
    → within_any s roots ≡ true
    → parse_authorized_path roots s ≡ ok (record { path = s })
unfolding parse_authorized_path
parse_accepted roots s f w = rw (f, w)

-- A path is parsed exactly if it is well formed and some root's segments begin its own; the parsed
-- value holds the very bytes that were given.
pub parse_authorized_path_iff :
    (roots : List Bytes) (s : Bytes) (p : AuthorizedPath)
    → (parse_authorized_path roots s ≡ ok p) ↔ ((p.path ≡ s) × IsWellFormed s × Any (Below s) roots)
parse_authorized_path_iff roots s p = (
  λ h.
      let (f, w, e) = parse_parts roots s p h in
      (e, (check_form_iff s).0 f, (within_any_iff s roots).0 w),
  λ (e, f, w).
      parse_accepted roots s ((check_form_iff s).1 f) ((within_any_iff s roots).1 w)
      ∙ (λ i. ok (record { path = sym e i })),
)
