-- ===== src/DevicePath/Sorting.antt =====
-- `slices.Sort` and `slices.Contains` as `Narrow` uses them.
use adb_broker.Prelude.{
  true, false, List, [], ◌∷◌, ◌++◌, Bytes, bytes_eq, bytes_eq_iff, bytes_lt, ◌≡◌, refl, ◌↔◌, ◌⊎◌,
  inl, inr, Bool-cases, arith, All, All-append, All-map, Any,
}
use adb_broker.DevicePath.{contains, insert_sorted, sort}

-- Each string is before all that follow it, so none stands twice.
abbrev pub IsAscending : List Bytes → Type 0
IsAscending [] = Unit
IsAscending (x ∷ xs) = All (λ y. bytes_lt x y ≡ true) xs × IsAscending xs

bytes_lt_trans : (x y z : Bytes) → bytes_lt x y ≡ true → bytes_lt y z ≡ true → bytes_lt x z ≡ true
bytes_lt_trans [] [] z h k = cc
bytes_lt_trans [] (b ∷ y) [] h k = cc
bytes_lt_trans [] (b ∷ y) (c ∷ z) h k = refl
bytes_lt_trans (a ∷ x) [] z h k = cc
bytes_lt_trans (a ∷ x) (b ∷ y) [] h k = cc
bytes_lt_trans (a ∷ x) (b ∷ y) (c ∷ z) h k = ground (arith, bytes_lt_trans x y z)

bytes_lt_total : (x y : Bytes) → bytes_lt y x ≡ false → bytes_eq x y ≡ false → bytes_lt x y ≡ true
bytes_lt_total [] [] h k = cc
bytes_lt_total [] (b ∷ y) h k = refl
bytes_lt_total (a ∷ x) [] h k = cc
bytes_lt_total (a ∷ x) (b ∷ y) h k = ground (arith, bytes_lt_total x y)

under_second : {A B C D : Type 0} → D ↔ (A ⊎ B) → (C ⊎ D) ↔ (A ⊎ (C ⊎ B))
under_second {A} {B} {C} {D} (there, back) = (onward, backward)
  where
    onward : C ⊎ D → A ⊎ (C ⊎ B)
    onward (inl c) = inr (inl c)
    onward (inr d) = elim (there d) [ inl a ↦ inl a | inr b ↦ inr (inr b) ]

    backward : A ⊎ (C ⊎ B) → C ⊎ D
    backward (inl a) = inr (back (inl a))
    backward (inr (inl c)) = inl c
    backward (inr (inr b)) = inr (back (inr b))

module _ (P : Bytes → Type 0) where
  insert_sorted-Any : (x : Bytes) (ys : List Bytes) → Any P (insert_sorted x ys) ↔ (P x ⊎ Any P ys)
  unfolding insert_sorted
  insert_sorted-Any x [] = (λ h. h, λ h. h)
  insert_sorted-Any x (y ∷ ys) = elim (Bool-cases (bytes_lt y x)) [
    | inl e ↦ rw e (under_second (insert_sorted-Any x ys))
    | inr e ↦ rw e (λ h. h, λ h. h)
  ]

  -- Sorting keeps the members.
  pub sort-Any : (xs : List Bytes) → Any P (sort xs) ↔ Any P xs
  unfolding sort
  sort-Any [] = (λ h. h, λ h. h)
  sort-Any (x ∷ xs) =
      let inserted = insert_sorted-Any x (sort xs) in
      let same = sort-Any xs in
      (
        λ h. elim (inserted.0 h) [ inl p ↦ inl p | inr k ↦ inr (same.0 k) ],
        λ h. inserted.1 (elim h [ inl p ↦ inl p | inr k ↦ inr (same.1 k) ]),
      )

  insert_sorted-All : (x : Bytes) (ys : List Bytes) → P x → All P ys → All P (insert_sorted x ys)
  unfolding insert_sorted
  insert_sorted-All x [] p h = (p, tt)
  insert_sorted-All x (y ∷ ys) p (q, h) = ground (arith, insert_sorted-All x ys p h)

  pub sort-All : (xs : List Bytes) → All P xs → All P (sort xs)
  unfolding sort
  sort-All [] h = tt
  sort-All (x ∷ xs) (p, h) = insert_sorted-All x (sort xs) p (sort-All xs h)

  pub contains-Any : (xs : List Bytes) (s : Bytes) → contains xs s ≡ true → P s → Any P xs
  unfolding contains
  contains-Any [] s h p = cc
  contains-Any (x ∷ xs) s h p = elim (Bool-cases (bytes_eq x s)) [
    | inl e ↦ inl (rw ((bytes_eq_iff x s).0 e) p)
    | inr e ↦ inr (contains-Any xs s (ground arith) p)
  ]

-- No string stands twice.
abbrev pub IsDistinct : List Bytes → Type 0
IsDistinct [] = Unit
IsDistinct (x ∷ xs) = All (λ y. bytes_eq x y ≡ false) xs × IsDistinct xs

insert_sorted-IsAscending :
    (x : Bytes) (ys : List Bytes)
    → All (λ y. bytes_eq x y ≡ false) ys
    → IsAscending ys
    → IsAscending (insert_sorted x ys)
unfolding insert_sorted
insert_sorted-IsAscending x [] h k = (tt, tt)
insert_sorted-IsAscending x (y ∷ ys) (n, h) (after, k) = elim (Bool-cases (bytes_lt y x)) [
  | inl e ↦ rw e (
    insert_sorted-All (λ z. bytes_lt y z ≡ true) x ys e after,
    insert_sorted-IsAscending x ys h k,
  )
  | inr e ↦
      let first : bytes_lt x y ≡ true = bytes_lt_total x y e n in
      rw e ((first, All-map ys (λ z l. bytes_lt_trans x y z first l) after), (after, k))
]

-- A list with no repetition sorts to an ascending one.
pub sort-IsAscending : (xs : List Bytes) → IsDistinct xs → IsAscending (sort xs)
unfolding sort
sort-IsAscending [] h = tt
sort-IsAscending (x ∷ xs) (n, h) =
    insert_sorted-IsAscending x (sort xs) (sort-All _ xs n) (sort-IsAscending xs h)

-- A string that `contains` does not find may be added behind.
pub IsDistinct-snoc :
    (xs : List Bytes) (s : Bytes)
    → contains xs s ≡ false
    → IsDistinct xs
    → IsDistinct (xs ++ (s ∷ []))
unfolding contains
IsDistinct-snoc [] s h d = (tt, tt)
IsDistinct-snoc (x ∷ xs) s h (n, d) =
    (All-append _ xs (s ∷ []) n (ground arith, tt), IsDistinct-snoc xs s (ground arith) d)
