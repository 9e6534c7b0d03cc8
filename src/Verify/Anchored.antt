-- ===== src/Verify/Anchored.antt =====
-- app/broker/verify.go: a log and its anchors when the command answers ok.
use adb_broker.Prelude.{
  ℕ, ◌≤◌, ◌<◌, ◌≡◌, refl, sym, ap, ◌∙◌, subst, inl, inr, Bool, Option, List, [], ◌∷◌, arith, ltb,
  ◌==◌, ==_iff, Bool-cases, All, All-map, Any, bytes_eq_iff, false, true, Bytes, bytes_eq,
  eq_of_bytes_eq, Result, ok, err,
}
use adb_broker.Audit.Anchor.{Anchor}
use adb_broker.Audit.Lines.{Platform}
use adb_broker.Audit.Log.{Summary, ChainError, verify_chain}
use adb_broker.Verify.{
  Fields, AnchorFault, to_anchor, of_log, with_rest, read_anchors, newest, head_of, truncated,
  altered, status_ok, compared, with_anchors, with_chain, run_verify,
}

-- No anchor of a list is newer.
abbrev pub NoneNewer : ℕ → List Anchor → Type 0
NoneNewer seq anchors = All (λ (a : Anchor). a.seq ≤ seq) anchors

newest-NoneNewer :
    (a : Anchor) (anchors : List Anchor)
    → (a.seq ≤ (newest a anchors).seq) × NoneNewer (newest a anchors).seq anchors
unfolding newest
newest-NoneNewer a [] = (omega arith, tt)
newest-NoneNewer a (b ∷ bs) = elim (Bool-cases (ltb a.seq b.seq)) [
  | inl e ↦
      let (h, k) = newest-NoneNewer b bs in
      let lt : a.seq < b.seq = ground arith in moved (newest b bs) (rw e) (omega (arith, h, lt)) h k
  | inr e ↦
      let (h, k) = newest-NoneNewer a bs in
      let ge : b.seq ≤ a.seq = ground arith in moved (newest a bs) (rw e) h (omega (arith, h, ge)) k
]
  where
    moved :
        (m : Anchor)
        → newest a (b ∷ bs) ≡ m
        → a.seq ≤ m.seq
        → b.seq ≤ m.seq
        → NoneNewer m.seq bs
        → (a.seq ≤ (newest a (b ∷ bs)).seq) × NoneNewer (newest a (b ∷ bs)).seq (b ∷ bs)
    moved m q h k w =
        subst (λ (x : Anchor). (a.seq ≤ x.seq) × NoneNewer x.seq (b ∷ bs)) (sym q) (h, (k, w))

-- It is one of the list.
abbrev pub IsAmong : Anchor → List Anchor → Type 0
IsAmong a anchors = Any (λ (b : Anchor). a ≡ b) anchors

newest-IsAmong : (a : Anchor) (anchors : List Anchor) → IsAmong (newest a anchors) (a ∷ anchors)
unfolding newest
newest-IsAmong a [] = inl refl
newest-IsAmong a (b ∷ bs) = elim (Bool-cases (ltb a.seq b.seq)) [
  | inl e ↦
      let q : newest a (b ∷ bs) ≡ newest b bs = rw e in
      subst (λ x. IsAmong x (a ∷ (b ∷ bs))) (sym q) (inr (newest-IsAmong b bs))
  | inr e ↦
      let q : newest a (b ∷ bs) ≡ newest a bs = rw e in
      subst (λ x. IsAmong x (a ∷ (b ∷ bs))) (sym q) (under (newest-IsAmong a bs))
]
  where
    under : {x : Anchor} → IsAmong x (a ∷ bs) → IsAmong x (a ∷ (b ∷ bs))
    under (inl q) = inl q
    under (inr h) = inr (inr h)

-- The anchors are those of the entries that name this log, and no others. `entry` is what an entry is read as.
abbrev pub AreOf : (Fields → Result AnchorFault Anchor) → Bytes → List Fields → List Anchor → Type 0
AreOf entry path fields anchors =
    All (λ (a : Anchor). (a.log_path ≡ path) × Any (λ f. entry f ≡ ok a) fields) anchors
    × All (λ f. (a : Anchor) → entry f ≡ ok a → a.log_path ≡ path → IsAmong a anchors) fields

-- The log reaches as far as every anchor, the one reported is one of them and the newest, and if it is of the
-- last record it has the log's head.
abbrev pub IsAnchored : Summary → List Anchor → Anchor → Type 0
IsAnchored s anchors a =
    NoneNewer s.last_seq anchors
    × NoneNewer a.seq anchors
    × (a.seq ≡ s.last_seq → a.hash ≡ head_of s)
    × IsAmong a anchors

compared_ok :
    (s t : Summary) (a b : Anchor)
    → compared s a ≡ status_ok t b
    → (s ≡ t) × (a ≡ b) × (a.seq ≤ s.last_seq) × (a.seq ≡ s.last_seq → a.hash ≡ head_of s)
compared_ok s t a b h = elim (Bool-cases (ltb s.last_seq a.seq)) [
  | inl e ↦ absurd (let g : truncated s a ≡ status_ok t b = rw e at h in cc)
  | inr e ↦ elim (Bool-cases (a.seq == s.last_seq)) [
    | inr f ↦
        let g : status_ok s a ≡ status_ok t b = rw (e, f) at h in
        (cc, cc, ground arith, λ q. absurd (let k = (==_iff a.seq s.last_seq).1 q in cc))
    | inl f ↦ elim (Bool-cases (bytes_eq a.hash (head_of s))) [
      | inr k ↦ absurd (let g : altered s a ≡ status_ok t b = rw (e, f, k) at h in cc)
      | inl k ↦
          let g : status_ok s a ≡ status_ok t b = rw (e, f, k) at h in
          (cc, cc, ground arith, λ _. eq_of_bytes_eq a.hash (head_of s) k)
    ]
  ]
]

module _ (parse_uint : Bytes → Option ℕ) (path : Bytes) where
  abbrev Joined : Fields → List Fields → List Anchor → Type 0
  Joined f fs anchors = AreOf (to_anchor parse_uint) path (f ∷ fs) anchors

  -- An entry of another log adds nothing.
  skipped :
      (f : Fields) (fs : List Fields) (a : Anchor) (anchors : List Anchor)
      → to_anchor parse_uint f ≡ ok a
      → bytes_eq a.log_path path ≡ false
      → AreOf (to_anchor parse_uint) path fs anchors
      → Joined f fs anchors
  skipped f fs a anchors e n (from, whole) = (
    All-map anchors (λ b (q, k). (q, inr k)) from,
    (
      (λ b g q.
          let same : a ≡ b = cc in
          let eq : bytes_eq a.log_path path ≡ true =
            (bytes_eq_iff a.log_path path).1 (ap (λ (x : Anchor). x.log_path) same ∙ q) in
          absurd (cc)),
      whole,
    ),
  )

  -- An entry of this log adds its anchor.
  added :
      (f : Fields) (fs : List Fields) (a : Anchor) (anchors : List Anchor)
      → to_anchor parse_uint f ≡ ok a
      → bytes_eq a.log_path path ≡ true
      → AreOf (to_anchor parse_uint) path fs anchors
      → Joined f fs (a ∷ anchors)
  added f fs a anchors e n (from, whole) = (
    ((eq_of_bytes_eq a.log_path path n, inl e), All-map anchors (λ b (q, k). (q, inr k)) from),
    ((λ b g q. inl (cc)), All-map fs (λ g k b h q. inr (k b h q)) whole),
  )

  joined :
      (f : Fields) (fs : List Fields) (anchors : List Anchor) (x : Result AnchorFault Anchor)
      (rest : Result AnchorFault (List Anchor))
      → ((others : List Anchor) → rest ≡ ok others → AreOf (to_anchor parse_uint) path fs others)
      → to_anchor parse_uint f ≡ x
      → of_log parse_uint path x rest ≡ ok anchors
      → Joined f fs anchors
  joined f fs anchors (err e) rest ih q g = absurd (cc)
  joined f fs anchors (ok a) rest ih q g = elim (Bool-cases (bytes_eq a.log_path path)) [
    | inr n ↦ skipped f fs a anchors q n (ih anchors (rw n at g))
    | inl n ↦ kept n rest ih (rw n at g)
  ]
    where
      kept :
          bytes_eq a.log_path path ≡ true
          → (rest : Result AnchorFault (List Anchor))
          → ((others : List Anchor)
              → rest ≡ ok others
              → AreOf (to_anchor parse_uint) path fs others)
          → with_rest parse_uint a rest ≡ ok anchors
          → Joined f fs anchors
      kept n (err e) ih g = absurd (cc)
      kept n (ok others) ih g =
          subst (Joined f fs) {x = a ∷ others} (cc) (added f fs a others q n (ih others refl))

  read_anchors-AreOf :
      (fields : List Fields) (anchors : List Anchor)
      → read_anchors parse_uint path fields ≡ ok anchors
      → AreOf (to_anchor parse_uint) path fields anchors
  unfolding read_anchors
  read_anchors-AreOf [] anchors h =
      subst (AreOf (to_anchor parse_uint) path []) {x = []} (cc) (tt, tt)
  read_anchors-AreOf (f ∷ fs) anchors h =
      joined f fs anchors (to_anchor parse_uint f) (read_anchors parse_uint path fs)
        (read_anchors-AreOf fs) refl h

module _ {Time : Type 0} (p : Platform Time) (parse_uint : Bytes → Option ℕ) where
  -- If the command answers ok, the whole chain verifies to the summary it reports; the anchors that
  -- were compared are those of the entries that name this log; none of them claims a record past the end of the
  -- log; the reported one is one of them, and the newest; and if it is for the last record, the log's head is
  -- what was published.
  pub run_verify_lem :
      (path content : Bytes) (broken : Bool) (fields : List Fields) (s : Summary) (a : Anchor)
      → run_verify p parse_uint path broken content fields ≡ status_ok s a
      → (anchors : List Anchor) × (verify_chain p broken content ≡ (s, ok tt))
        × AreOf (to_anchor parse_uint) path fields anchors
        × IsAnchored s anchors a
  unfolding run_verify
  run_verify_lem path content broken fields s a h = chained (verify_chain p broken content) refl h
    where
      anchored :
          (t : Summary) (x : Result AnchorFault (List Anchor))
          → verify_chain p broken content ≡ (t, ok tt)
          → read_anchors parse_uint path fields ≡ x
          → with_anchors t x ≡ status_ok s a
          → (anchors : List Anchor) × (verify_chain p broken content ≡ (s, ok tt))
            × AreOf (to_anchor parse_uint) path fields anchors
            × IsAnchored s anchors a
      anchored t (err e) q r g = absurd (cc)
      anchored t (ok []) q r g = absurd (cc)
      anchored t (ok (b ∷ bs)) q r g =
          let (es, ea, le, same) = compared_ok t s (newest b bs) a g in
          let (first, others) = newest-NoneNewer b bs in
          (
            b ∷ bs,
            q ∙ ap (λ x. (x, ok tt)) es,
            read_anchors-AreOf parse_uint path fields (b ∷ bs) r,
            subst (λ x. IsAnchored x (b ∷ bs) a) es
                (subst (λ x. IsAnchored t (b ∷ bs) x) ea
                  (
                    (omega (arith, first, le), All-map bs (λ c k. omega (arith, k, le)) others),
                    (first, others),
                    same,
                    newest-IsAmong b bs,
                  )),
          )

      chained :
          (x : Summary × Result ChainError (Unit {0}))
          → verify_chain p broken content ≡ x
          → with_chain parse_uint path fields x ≡ status_ok s a
          → (anchors : List Anchor) × (verify_chain p broken content ≡ (s, ok tt))
            × AreOf (to_anchor parse_uint) path fields anchors
            × IsAnchored s anchors a
      chained (t, err e) q g = absurd (cc)
      chained (t, ok u) q g = anchored t (read_anchors parse_uint path fields) q refl g
