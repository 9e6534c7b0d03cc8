-- ===== src/Audit/Record/Linked.antt =====
-- foundation/audit/record.go: the hash of a record behind its predecessor.
use adb_broker.Prelude.{
  ◌≡◌, refl, sym, ap, ◌∙◌, ◌≢◌, ◌⊎◌, inl, inr, true, false, ◌++◌, Bool-cases, length, take, drop,
  take-length_append, drop-length_append, Bytes, bytes_eq, eq_of_bytes_eq, bytes_eq_iff, Result, ok,
  err,
}
use adb_broker.Audit.Record.{Record, RecordError, canonical, hashed, hash_record}

module _ {Time : Type 0} (format : Time → Bytes) (sum : Bytes → Bytes) where
  -- The inputs of these two hashes are a collision of the function.
  abbrev pub Collides : Bytes → Bytes → Record Time → Record Time → Type 0
  Collides p q r t =
      (c : Bytes) × (d : Bytes) × (canonical format r ≡ ok c)
      × (canonical format t ≡ ok d)
      × ((p ++ c) ≢ (q ++ d))
      × (sum (p ++ c) ≡ sum (q ++ d))

  -- A record that hashes has a canonical form, and its hash is that of the predecessor's and the form.
  pub hashed_parts :
      (prev h : Bytes) (c : Result RecordError Bytes)
      → hashed format sum prev c ≡ ok h
      → (b : Bytes) × (c ≡ ok b) × (sum (prev ++ b) ≡ h)
  hashed_parts prev h (err e) k = absurd (cc)
  hashed_parts prev h (ok b) k = (b, refl, cc)

  split_same :
      (p q c d : Bytes) → length p ≡ 32 → length q ≡ 32 → p ++ c ≡ q ++ d → (p ≡ q) × (c ≡ d)
  split_same p q c d hp hq e = (
    sym (take-length_append 32 p c hp) ∙ ap (take 32) e ∙ take-length_append 32 q d hq,
    sym (drop-length_append 32 p c hp) ∙ ap (drop 32) e ∙ drop-length_append 32 q d hq,
  )

  -- If two records, each behind a predecessor's hash of 32 bytes, have the same hash, then the predecessors
  -- are the same and the records have the same canonical form; or else what was hashed for the two is a
  -- collision of the hash function.
  pub hash_record_lem :
      (p q h : Bytes) (r t : Record Time)
      → length p ≡ 32
      → length q ≡ 32
      → hash_record format sum p r ≡ ok h
      → hash_record format sum q t ≡ ok h
      → ((p ≡ q) × (canonical format r ≡ canonical format t)) ⊎ Collides p q r t
  unfolding hash_record
  hash_record_lem p q h r t hp hq hr ht =
      let (c, e, f) = hashed_parts p h (canonical format r) hr in
      let (d, g, k) = hashed_parts q h (canonical format t) ht in
      elim (Bool-cases (bytes_eq (p ++ c) (q ++ d))) [
        | inl same ↦
            let (heads, forms) = split_same p q c d hp hq (eq_of_bytes_eq (p ++ c) (q ++ d) same) in
            inl (heads, e ∙ ap ok forms ∙ sym g)
        | inr other ↦ inr (c, d, e, g, (λ z. differ (p ++ c) (q ++ d) other z), f ∙ sym k)
      ]
    where
      differ : (x y : Bytes) → bytes_eq x y ≡ false → x ≢ y
      differ x y o z = let k : bytes_eq x y ≡ true = (bytes_eq_iff x y).1 z in cc
