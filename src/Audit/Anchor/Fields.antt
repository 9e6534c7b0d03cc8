-- ===== src/Audit/Anchor/Fields.antt =====
-- foundation/audit/anchor.go: the datagram, read line by line.
use adb_broker.Prelude.{
  ◌≤◌, ◌≡◌, refl, ap, ◌∙◌, subst, inl, inr, false, Option, none, some, List, [], ◌∷◌, ◌++◌, arith,
  ltb, Bool-cases, length, All, Bytes, contains_byte, Result, ok, err, split_on, cut_at,
  split_on_line, cut_at_line, contains_byte-append,
}
use adb_broker.Audit.Anchor.{
  Anchor, AnchorError, max_anchor_field_bytes, check_anchor_value, anchor_fields, with_field,
  anchor_payload,
}

-- The fields of a datagram, as the journal reads them: on each line a key, an equals sign and a value.
abbrev field_of : Option (Bytes × Bytes) → List (Bytes × Bytes) → List (Bytes × Bytes)
field_of none fields = fields
field_of (some f) fields = f ∷ fields

pub read_fields : List Bytes → List (Bytes × Bytes)
read_fields [] = []
read_fields (line ∷ lines) = field_of (cut_at 61 line) (read_fields lines)

-- A value that a field can hold.
abbrev pub IsAnchorValue : Bytes → Type 0
IsAnchorValue v =
    (length v ≤ max_anchor_field_bytes) × (contains_byte 10 v ≡ false) × (contains_byte 0 v ≡ false)

check_parts : (key value : Bytes) → check_anchor_value key value ≡ ok tt → IsAnchorValue value
unfolding check_anchor_value
check_parts key value h = elim (Bool-cases (ltb max_anchor_field_bytes (length value))) [
  | inl e ↦ absurd (ground arith)
  | inr e ↦ elim (Bool-cases (contains_byte 10 value)) [
    | inl f ↦ absurd (ground arith)
    | inr f ↦ elim (Bool-cases (contains_byte 0 value)) [
      | inl g ↦ absurd (ground arith)
      | inr g ↦ (ground arith, f, g)
    ]
  ]
]

-- A key with no equals sign and on one line.
abbrev IsKey : Bytes × Bytes → Type 0
IsKey f = (contains_byte 61 f.0 ≡ false) × (contains_byte 10 f.0 ≡ false)

-- The payload of some fields is read back as those fields, each with a value that fits.
abbrev IsPayload : List (Bytes × Bytes) → Bytes → Type 0
IsPayload fields p = (read_fields (split_on 10 p) ≡ fields) × All (λ f. IsAnchorValue f.1) fields

with_field-IsPayload :
    (key value : Bytes) (fields : List (Bytes × Bytes)) (c : Result AnchorError (Unit {0}))
    (r : Result AnchorError Bytes) (p : Bytes)
    → check_anchor_value key value ≡ c
    → IsKey (key, value)
    → ((q : Bytes) → r ≡ ok q → IsPayload fields q)
    → with_field key value c r ≡ ok p
    → IsPayload ((key, value) ∷ fields) p
unfolding read_fields
with_field-IsPayload key value fields (err e) r p c k ih h = absurd (cc)
with_field-IsPayload key value fields (ok _) (err e) p c k ih h = absurd (cc)
with_field-IsPayload key value fields (ok _) (ok rest) p c (no_equals, one_line) ih h =
    let (read, fits) = ih rest refl in
    let (short, no_line, no_nul) = check_parts key value c in
    let same : (key ++ (61 ∷ value)) ++ (10 ∷ rest) ≡ p = cc in
    subst (IsPayload ((key, value) ∷ fields)) same (
      ap read_fields (
            split_on_line 10 (key ++ (61 ∷ value)) rest
              (contains_byte-append 10 key (61 ∷ value) one_line no_line))
          ∙ ap (λ o. field_of o (read_fields (split_on 10 rest)))
              (cut_at_line 61 key value no_equals)
          ∙ ap (λ fs. (key, value) ∷ fs) read,
      ((short, no_line, no_nul), fits),
    )

anchor_payload-IsPayload :
    (fields : List (Bytes × Bytes)) (p : Bytes)
    → All IsKey fields
    → anchor_payload fields ≡ ok p
    → IsPayload fields p
unfolding anchor_payload read_fields split_on cut_at
anchor_payload-IsPayload [] p k h = let same : [] ≡ p = cc in subst (IsPayload []) same (refl, tt)
anchor_payload-IsPayload ((key, value) ∷ fields) p (k, ks) h =
    with_field-IsPayload key value fields (check_anchor_value key value) (anchor_payload fields) p
      refl k (λ q e. anchor_payload-IsPayload fields q ks e) h

anchor_fields-IsKey : (a : Anchor) → All IsKey (anchor_fields a)
unfolding anchor_fields
anchor_fields-IsKey a = (
  (refl, refl),
  (
    (refl, refl),
    ((refl, refl), ((refl, refl), ((refl, refl), ((refl, refl), ((refl, refl), tt))))),
  ),
)

-- What is sent to the journal for an anchor is read there as exactly the seven fields of that anchor, in
-- order: no value, whatever bytes the log's path has, adds a field or changes one. A value with a newline
-- or a NUL, or of more than 256 bytes, is never sent.
pub anchor_payload_lem :
    (a : Anchor) (p : Bytes)
    → anchor_payload (anchor_fields a) ≡ ok p
    → (read_fields (split_on 10 p) ≡ anchor_fields a)
      × All (λ f. IsAnchorValue f.1) (anchor_fields a)
anchor_payload_lem a p h = anchor_payload-IsPayload (anchor_fields a) p (anchor_fields-IsKey a) h
