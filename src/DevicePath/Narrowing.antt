-- ===== src/DevicePath/Narrowing.antt =====
-- `Narrow`: what it leaves in force, when it refuses, and what any number of calls can reach.
use adb_broker.Prelude.{
  ◌⊎◌, List, [], ◌∷◌, ◌++◌, append_assoc, Bytes, ok, err, Result-cases, ◌≡◌, ◌≢◌, refl, ◌∙◌, ap,
  subst, ◌↔◌, inl, inr, arith, All, All-Any, Any, Any-map,
}
use adb_broker.DevicePath.{
  Denial, AuthorizedPath, split, sort, narrow_loop, narrow, parse_authorized_path,
}
use adb_broker.DevicePath.Segments.{Below}
use adb_broker.DevicePath.Form.{IsWellFormed}
use adb_broker.DevicePath.Parse.{IsAuthorized, parse_authorized_path_iff}
use adb_broker.DevicePath.NarrowLoop.{
  narrow_loop-IsAuthorized, narrow_loop-Any, narrow_loop-IsDistinct, narrow_loop_total,
}
use adb_broker.DevicePath.Sorting.{IsAscending, sort-Any, sort-IsAscending}

-- A path below an authorized one is below one of the same roots.
Below-trans : (s t root : Bytes) → Below s t → Below t root → Below s root
Below-trans s t root (under, e) (rest, f) =
    (rest ++ under, e ∙ ap (λ l. l ++ under) f ∙ append_assoc (split root) rest under)

IsAuthorized-trans :
    (active subset : List Bytes) (s : Bytes)
    → All (IsAuthorized active) subset
    → Any (Below s) subset
    → Any (Below s) active
IsAuthorized-trans active subset s =
    All-Any subset (λ t a b. Any-map active (λ root c. Below-trans s t root b c) a.1)

narrow_loop_of_narrow :
    (active subset new : List Bytes)
    → narrow active subset ≡ (new, ok tt)
    → (subset ≢ [])
      × ((out : List Bytes) × (narrow_loop active subset [] ≡ ok out) × (sort out ≡ new))
unfolding narrow
narrow_loop_of_narrow active [] new h = cc
narrow_loop_of_narrow active (s ∷ subset) new h =
    elim (Result-cases (narrow_loop active (s ∷ subset) [])) [
      | inl (out, e) ↦ ((λ z. cc), (out, e, ground (arith, e)))
      | inr (d, e) ↦ ground (arith, e)
    ]

-- The list left in force has the members of the list given.
new-Any :
    (P : Bytes → Type 0) (active subset new : List Bytes)
    → narrow active subset ≡ (new, ok tt)
    → Any P new ↔ Any P subset
new-Any P active subset new h =
    let (_, (out, e, sorted)) = narrow_loop_of_narrow active subset new h in
    let made = narrow_loop-Any P active subset [] out e in
    let kept = sort-Any P out in
    rw (← sorted)
      (λ k. elim (made.0 (kept.0 k)) [ inl z ↦ absurd z | inr a ↦ a ], λ k. kept.1 (made.1 (inr k)))

new-IsAuthorized :
    (active subset new : List Bytes) (s : Bytes)
    → narrow active subset ≡ (new, ok tt)
    → IsAuthorized new s
    → IsAuthorized active s
new-IsAuthorized active subset new s h (w, k) =
    let (_, (out, e, _)) = narrow_loop_of_narrow active subset new h in
    (
      w,
      IsAuthorized-trans active subset s (narrow_loop-IsAuthorized active subset [] out e)
          ((new-Any (Below s) active subset new h).0 k),
    )

-- After a call of `Narrow` that succeeds, a path is authorized exactly if it is well formed and at or
-- below an entry that the call was given; and the new list is sorted with no repetition.
pub narrow_effect :
    (active subset new : List Bytes) (s : Bytes)
    → narrow active subset ≡ (new, ok tt)
    → (IsAuthorized new s ↔ (IsWellFormed s × Any (Below s) subset)) × IsAscending new
narrow_effect active subset new s h =
    let (_, (out, e, sorted)) = narrow_loop_of_narrow active subset new h in
    let same = new-Any (Below s) active subset new h in
    (
      (λ (w, k). (w, same.0 k), λ (w, k). (w, same.1 k)),
      subst IsAscending sorted
          (sort-IsAscending out (narrow_loop-IsDistinct active subset [] out e tt)),
    )

narrow_accepts :
    (active subset : List Bytes)
    → subset ≢ []
    → All (IsAuthorized active) subset
    → (narrow active subset).1 ≡ ok tt
unfolding narrow
narrow_accepts active [] n h = absurd (n refl)
narrow_accepts active (s ∷ subset) n h =
    let (out, e) = narrow_loop_total active (s ∷ subset) [] h in ground (arith, e)

narrow_settles :
    (active subset : List Bytes)
    → (narrow active subset).1 ≡ ok tt
    → narrow active subset ≡ ((narrow active subset).0, ok tt)
narrow_settles active subset h = λ i. ((narrow active subset).0, h i)

narrow_refused :
    (active subset : List Bytes) (d : Denial)
    → (narrow active subset).1 ≡ err d
    → (narrow active subset).0 ≡ active
unfolding narrow
narrow_refused active [] d h = refl
narrow_refused active (s ∷ subset) d h = elim (Result-cases (narrow_loop active (s ∷ subset) [])) [
  | inl (out, e) ↦ ground (arith, e)
  | inr (f, e) ↦ ground (arith, e)
]

-- `Narrow` succeeds exactly if it is given an entry and every entry is authorized; a call that does
-- not succeed leaves the list in force as it was.
pub narrow_iff :
    (active subset : List Bytes)
    → (((narrow active subset).1 ≡ ok tt) ↔ ((subset ≢ []) × All (IsAuthorized active) subset))
      × (((narrow active subset).1 ≡ ok tt) ⊎ ((narrow active subset).0 ≡ active))
narrow_iff active subset = (
  (
    λ h.
        let (n, (out, e, _)) =
          narrow_loop_of_narrow active subset _ (narrow_settles active subset h) in
        (n, narrow_loop-IsAuthorized active subset [] out e),
    λ (n, h). narrow_accepts active subset n h,
  ),
  kept (Result-cases (narrow active subset).1),
)
  where
    kept :
        ((x : Unit) × ((narrow active subset).1 ≡ ok x))
          ⊎ ((d : Denial) × ((narrow active subset).1 ≡ err d))
        → ((narrow active subset).1 ≡ ok tt) ⊎ ((narrow active subset).0 ≡ active)
    kept (inl (tt, e)) = inl e
    kept (inr (d, e)) = inr (narrow_refused active subset d e)

-- The list in force after a process has made some calls of `Narrow`, whatever each returned.
unfoldable pub after_calls : List Bytes → List (List Bytes) → List Bytes
after_calls active [] = active
after_calls active (subset ∷ calls) = after_calls (narrow active subset).0 calls

narrow-IsAuthorized :
    (active subset : List Bytes) (s : Bytes)
    → IsAuthorized (narrow active subset).0 s
    → IsAuthorized active s
narrow-IsAuthorized active subset s h = elim (Result-cases (narrow active subset).1) [
  | inl (tt, e) ↦ new-IsAuthorized active subset _ s (narrow_settles active subset e) h
  | inr (d, e) ↦ rw (narrow_refused active subset d e) at h
]

after_calls-IsAuthorized :
    (active : List Bytes) (calls : List (List Bytes)) (s : Bytes)
    → IsAuthorized (after_calls active calls) s
    → IsAuthorized active s
unfolding after_calls
after_calls-IsAuthorized active [] s h = h
after_calls-IsAuthorized active (subset ∷ calls) s h =
    narrow-IsAuthorized active subset s
      (after_calls-IsAuthorized (narrow active subset).0 calls s h)

-- No sequence of calls of `Narrow` adds authority: a path that is parsed after them is parsed, to the
-- same value, with the list that was in force before.
pub after_calls_monotone :
    (active : List Bytes) (calls : List (List Bytes)) (s : Bytes) (p : AuthorizedPath)
    → parse_authorized_path (after_calls active calls) s ≡ ok p
    → parse_authorized_path active s ≡ ok p
after_calls_monotone active calls s p h =
    let (e, w, r) = (parse_authorized_path_iff (after_calls active calls) s p).0 h in
    let (w', r') = after_calls-IsAuthorized active calls s (w, r) in
    (parse_authorized_path_iff active s p).1 (e, w', r')
