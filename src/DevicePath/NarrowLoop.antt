-- ===== src/DevicePath/NarrowLoop.antt =====
-- The loop of `Narrow` over its entries.
use adb_broker.Prelude.{
  true, List, [], ◌∷◌, ◌++◌, Bytes, if◌then◌else◌, ok, ◌≡◌, refl, subst, ◌↔◌, ◌⊎◌, inl, inr,
  Bool-cases, arith, All, Any,
}
use adb_broker.DevicePath.{check_form, within_any, contains, narrow_loop}
use adb_broker.DevicePath.Form.{check_form_iff}
use adb_broker.DevicePath.Parse.{IsAuthorized, within_any_iff}
use adb_broker.DevicePath.Sorting.{IsDistinct, IsDistinct-snoc, contains-Any}

Any-append : (P : Bytes → Type 0) (xs ys : List Bytes) → Any P (xs ++ ys) ↔ (Any P xs ⊎ Any P ys)
Any-append P [] ys = (λ h. inr h, λ h. elim h [ inl k ↦ absurd k | inr k ↦ k ])
Any-append P (x ∷ xs) ys =
    let ih = Any-append P xs ys in
    (
      λ h. elim h [
        | inl p ↦ inl (inl p)
        | inr k ↦ elim (ih.0 k) [ inl a ↦ inl (inr a) | inr b ↦ inr b ]
      ],
      λ h. elim h [
        | inl k ↦ elim k [ inl p ↦ inl p | inr a ↦ inr (ih.1 (inl a)) ]
        | inr b ↦ inr (ih.1 (inr b))
      ],
    )

-- One round of the loop: the entry is authorized, and the loop goes on with the list it made.
abbrev taken : List Bytes → Bytes → List Bytes
taken narrowed s = if contains narrowed s then narrowed else narrowed ++ (s ∷ [])

narrow_loop_round :
    (current subset narrowed out : List Bytes) (s : Bytes)
    → narrow_loop current (s ∷ subset) narrowed ≡ ok out
    → (check_form s ≡ ok tt)
      × (within_any s current ≡ true)
      × (narrow_loop current subset (taken narrowed s) ≡ ok out)
unfolding narrow_loop
narrow_loop_round current subset narrowed out s h = ground arith

pub narrow_loop-IsAuthorized :
    (current subset narrowed out : List Bytes)
    → narrow_loop current subset narrowed ≡ ok out
    → All (IsAuthorized current) subset
narrow_loop-IsAuthorized current [] narrowed out h = tt
narrow_loop-IsAuthorized current (s ∷ subset) narrowed out h =
    let (f, w, rest) = narrow_loop_round current subset narrowed out s h in
    (
      ((check_form_iff s).0 f, (within_any_iff s current).0 w),
      narrow_loop-IsAuthorized current subset (taken narrowed s) out rest,
    )

narrow_loop_done :
    (current narrowed out : List Bytes) → narrow_loop current [] narrowed ≡ ok out → narrowed ≡ out
unfolding narrow_loop
narrow_loop_done current narrowed out h = cc

taken-IsDistinct :
    (narrowed : List Bytes) (s : Bytes) → IsDistinct narrowed → IsDistinct (taken narrowed s)
taken-IsDistinct narrowed s d = elim (Bool-cases (contains narrowed s)) [
  | inl e ↦ rw e d
  | inr e ↦ rw e (IsDistinct-snoc narrowed s e d)
]

taken-Any :
    (P : Bytes → Type 0) (narrowed : List Bytes) (s : Bytes)
    → Any P (taken narrowed s) ↔ (Any P narrowed ⊎ P s)
taken-Any P narrowed s = elim (Bool-cases (contains narrowed s)) [
  | inl e ↦ rw e (λ h. inl h, λ h. elim h [ inl k ↦ k | inr p ↦ contains-Any P narrowed s e p ])
  | inr e ↦
      let added = Any-append P narrowed (s ∷ []) in
      rw e (
        λ h. elim (added.0 h) [
          | inl k ↦ inl k
          | inr k ↦ inr (elim k [ inl p ↦ p | inr z ↦ absurd z ])
        ],
        λ h. added.1 (elim h [ inl k ↦ inl k | inr p ↦ inr (inl p) ]),
      )
]

pub narrow_loop-Any :
    (P : Bytes → Type 0) (current subset narrowed out : List Bytes)
    → narrow_loop current subset narrowed ≡ ok out
    → Any P out ↔ (Any P narrowed ⊎ Any P subset)
narrow_loop-Any P current [] narrowed out h =
    rw (← narrow_loop_done current narrowed out h)
      (λ k. inl k, λ k. elim k [ inl a ↦ a | inr z ↦ absurd z ])
narrow_loop-Any P current (s ∷ subset) narrowed out h =
    let (_, _, rest) = narrow_loop_round current subset narrowed out s h in
    let later = narrow_loop-Any P current subset (taken narrowed s) out rest in
    let now = taken-Any P narrowed s in
    (
      λ k. elim (later.0 k) [
        | inl a ↦ elim (now.0 a) [ inl b ↦ inl b | inr p ↦ inr (inl p) ]
        | inr b ↦ inr (inr b)
      ],
      λ k. later.1 (elim k [
        | inl a ↦ inl (now.1 (inl a))
        | inr b ↦ elim b [ inl p ↦ inl (now.1 (inr p)) | inr c ↦ inr c ]
      ]),
    )

pub narrow_loop-IsDistinct :
    (current subset narrowed out : List Bytes)
    → narrow_loop current subset narrowed ≡ ok out
    → IsDistinct narrowed
    → IsDistinct out
narrow_loop-IsDistinct current [] narrowed out h d =
    subst IsDistinct (narrow_loop_done current narrowed out h) d
narrow_loop-IsDistinct current (s ∷ subset) narrowed out h d =
    let (_, _, rest) = narrow_loop_round current subset narrowed out s h in
    narrow_loop-IsDistinct current subset (taken narrowed s) out rest
      (taken-IsDistinct narrowed s d)

pub narrow_loop_total :
    (current subset narrowed : List Bytes)
    → All (IsAuthorized current) subset
    → (out : List Bytes) × (narrow_loop current subset narrowed ≡ ok out)
unfolding narrow_loop
narrow_loop_total current [] narrowed h = (narrowed, refl)
narrow_loop_total current (s ∷ subset) narrowed ((f, w), h) =
    let (out, e) = narrow_loop_total current subset (taken narrowed s) h in
    (out, ground (arith, (check_form_iff s).1 f, (within_any_iff s current).1 w, e))
