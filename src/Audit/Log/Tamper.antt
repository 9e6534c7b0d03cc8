-- ===== src/Audit/Log/Tamper.antt =====
-- foundation/audit/log.go: two files that `VerifyChain` accepts.
use adb_broker.Prelude.{
  ℕ, ◌+◌, ◌%◌, ◌^◌, ◌<◌, ◌≡◌, refl, sym, ap, ◌∙◌, subst, ◌⊎◌, inl, inr, Bool, true, false, List, [],
  ◌∷◌, ◌++◌, arith, leb, ◌==◌, ==_iff, Bool-cases, length, Bytes, bytes_eq, eq_of_bytes_eq, Result,
  ok, err,
}
use adb_broker.Audit.Anchor.{hex_encode}
use adb_broker.Audit.Record.{Record, RecordError, canonical, hash_record}
use adb_broker.Audit.Record.Linked.{Collides, hashed_parts, hash_record_lem}
use adb_broker.Audit.Lines.{
  Platform, LineError, zero_head, decode_hash, check_sum, check_prev, decode_line, verify_record,
  is_blank,
}
use adb_broker.Audit.Log.{
  Summary, max_line_bytes, drop_cr, scan_lines, Verified, counted, linked, verify_line, on_line,
  verify_lines, no_summary, verify_chain,
}
use adb_broker.Audit.Log.Hex.{IsHash, zero_head-IsHash, hex_encode_inj}

module _ {Time : Type 0} (p : Platform Time) where
  abbrev pub record_of :
      Bool → Result LineError (Record Time) → List (Record Time) → List (Record Time)
  record_of true d rest = rest
  record_of false (err e) rest = []
  record_of false (ok r) rest = r ∷ rest

  -- The records of some lines, up to one that is none.
  unfoldable pub read_records : List Bytes → List (Record Time)
  read_records [] = []
  read_records (raw ∷ rest) =
      record_of (is_blank 0 (drop_cr raw)) (decode_line p (drop_cr raw)) (read_records rest)

  -- What the verification has established of some records: each is in its place, behind the head of the one
  -- before.
  abbrev pub Chained : Summary → Bytes → List (Record Time) → Summary → Bytes → Type 0
  Chained s h [] s' h' = (s ≡ s') × (h ≡ h')
  Chained s h (r ∷ rs) s' h' =
      (k : Bytes) × (r.seq ≡ (s.last_seq + 1) % 2 ^ 64)
      × (verify_record p h r ≡ ok k)
      × Chained (counted p s r) k rs s' h'

  abbrev Goes : Summary → Bytes → List (Record Time) → Summary → Type 0
  Goes s h rs s' = (h' : Bytes) × Chained s h rs s' h'

  on_line-Goes :
      (next : Summary → Bytes → Verified p) (line : ℕ) (s s' : Summary) (h text : Bytes)
      (rs : List (Record Time)) (long blank : Bool)
      → ((t : Summary) (k : Bytes) → next t k ≡ (s', ok tt) → Goes t k rs s')
      → on_line p next line s h text long blank ≡ (s', ok tt)
      → Goes s h (record_of blank (decode_line p text) rs) s'
  on_line-Goes next line s s' h text rs true blank ih e = absurd (cc)
  on_line-Goes next line s s' h text rs false true ih e = ih s h e
  on_line-Goes next line s s' h text rs false false ih e = read (decode_line p text) e
    where
      placed :
          (r : Record Time) (v : Result LineError Bytes)
          → verify_record p h r ≡ v
          → r.seq ≡ (s.last_seq + 1) % 2 ^ 64
          → linked p next line s r v ≡ (s', ok tt)
          → Goes s h (r ∷ rs) s'
      placed r (err x) f q g = absurd (cc)
      placed r (ok k) f q g = let (h', c) = ih (counted p s r) k g in (h', (k, q, f, c))

      read :
          (d : Result LineError (Record Time))
          → verify_line p next line s h d ≡ (s', ok tt)
          → Goes s h (record_of false d rs) s'
      read (err x) g = absurd (cc)
      read (ok r) g = elim (Bool-cases (r.seq == (s.last_seq + 1) % 2 ^ 64)) [
        | inl q ↦
            placed r (verify_record p h r) refl ((==_iff r.seq ((s.last_seq + 1) % 2 ^ 64)).0 q)
              (rw q at g)
        | inr q ↦ absurd (ground arith)
      ]

  pub verify_lines-Goes :
      (line : ℕ) (lines : List Bytes) (s s' : Summary) (h : Bytes)
      → verify_lines p false line lines s h ≡ (s', ok tt)
      → (h' : Bytes) × Chained s h (read_records lines) s' h'
  unfolding verify_lines read_records
  verify_lines-Goes line [] s s' h e = (h, (cc, refl))
  verify_lines-Goes line (raw ∷ rest) s s' h e =
      on_line-Goes (verify_lines p false (line + 1) rest) line s s' h (drop_cr raw)
        (read_records rest) (leb max_line_bytes (length raw)) (is_blank 0 (drop_cr raw))
        (λ t k f. verify_lines-Goes (line + 1) rest t s' k f) e

  verify_record_parts :
      (h : Bytes) (r : Record Time) (k : Bytes)
      → verify_record p h r ≡ ok k
      → (hash_record p.format p.sum h r ≡ ok k) × (hex_encode k ≡ r.hash)
  unfolding verify_record
  verify_record_parts h r k e = with_prev (decode_hash r.prev) e
    where
      with_sum :
          (c : Result RecordError Bytes)
          → check_sum p r c ≡ ok k
          → (c ≡ ok k) × (hex_encode k ≡ r.hash)
      with_sum (err x) g = absurd (cc)
      with_sum (ok sum) g = elim (Bool-cases (bytes_eq (hex_encode sum) r.hash)) [
        | inl q ↦
            let f : check_sum p r (ok sum) ≡ ok sum = rw (q, check_sum) in
            let same : sum ≡ k = cc in
            (ap ok same, ap hex_encode (sym same) ∙ eq_of_bytes_eq (hex_encode sum) r.hash q)
        | inr q ↦ absurd (ground arith)
      ]

      with_prev :
          (d : Result LineError Bytes)
          → check_prev p h r d ≡ ok k
          → (hash_record p.format p.sum h r ≡ ok k) × (hex_encode k ≡ r.hash)
      with_prev (err x) g = absurd (cc)
      with_prev (ok stated) g = elim (Bool-cases (bytes_eq stated h)) [
        | inl q ↦ with_sum (hash_record p.format p.sum h r) (rw q at g)
        | inr q ↦ absurd (ground arith)
      ]

  -- SHA-256 gives 32 bytes.
  abbrev pub IsSum : Type 0
  IsSum = (x : Bytes) → IsHash (p.sum x)

  hash_record-IsHash :
      (h k : Bytes) (r : Record Time) → IsSum → hash_record p.format p.sum h r ≡ ok k → IsHash k
  unfolding hash_record
  hash_record-IsHash h k r w e =
      let (b, _, q) = hashed_parts p.format p.sum h k (canonical p.format r) e in
      subst IsHash q (w (h ++ b))

  -- Position by position, the same bytes were hashed.
  abbrev pub SameForms : List (Record Time) → List (Record Time) → Type 0
  SameForms [] [] = Unit
  SameForms [] (t ∷ ts) = ⊥
  SameForms (r ∷ rs) [] = ⊥
  SameForms (r ∷ rs) (t ∷ ts) = (canonical p.format r ≡ canonical p.format t) × SameForms rs ts

  -- At some position the two logs, behind these heads, hash different bytes to the same hash.
  abbrev pub Broken : Bytes → Bytes → List (Record Time) → List (Record Time) → Type 0
  Broken h k [] ts = ⊥
  Broken h k (r ∷ rs) [] = ⊥
  Broken h k (r ∷ rs) (t ∷ ts) =
      Collides p.format p.sum h k r t
      ⊎ ((h' : Bytes) × (k' : Bytes) × (hash_record p.format p.sum h r ≡ ok h')
          × (hash_record p.format p.sum k t ≡ ok k')
          × Broken h' k' rs ts)

  forms_or_collision :
      (rs ts : List (Record Time)) (s t s' t' : Summary) (h k f : Bytes)
      → IsSum
      → IsHash h
      → IsHash k
      → length rs ≡ length ts
      → Chained s h rs s' f
      → Chained t k ts t' f
      → ((h ≡ k) × SameForms rs ts) ⊎ Broken h k rs ts
  forms_or_collision [] [] s t s' t' h k f w hh hk n (_, a) (_, b) = inl (a ∙ sym b, tt)
  forms_or_collision [] (x ∷ ts) s t s' t' h k f w hh hk n c d = absurd (omega arith)
  forms_or_collision (r ∷ rs) [] s t s' t' h k f w hh hk n c d = absurd (omega arith)
  forms_or_collision (r ∷ rs) (x ∷ ts) s t s' t' h k f w hh hk n (h', _, vr, c) (k', _, vx, d) =
      let (er, _) = verify_record_parts h r h' vr in
      let (ex, _) = verify_record_parts k x k' vx in
      elim (forms_or_collision rs ts (counted p s r) (counted p t x) s' t' h' k' f w
        (hash_record-IsHash h h' r w er) (hash_record-IsHash k k' x w ex) (omega arith) c d) [
          | inr b ↦ inr (inr (h', k', er, ex, b))
          | inl (e, forms) ↦
              elim (hash_record_lem p.format p.sum h k k' r x hh.0 hk.0 (er ∙ ap ok e) ex) [
                | inl (heads, form) ↦ inl (heads, (form, forms))
                | inr b ↦ inr (inl b)
              ]
        ]

  -- How a summary stands to the head behind its records.
  abbrev Ends : Summary → Bytes → Type 0
  Ends s h =
      ((s.records ≡ 0) × (h ≡ zero_head))
      ⊎ ((0 < s.records) × (s.last_hash ≡ hex_encode h) × IsHash h)

  Chained-Ends :
      (rs : List (Record Time)) (s s' : Summary) (h f : Bytes)
      → IsSum
      → Ends s h
      → Chained s h rs s' f
      → Ends s' f × (s'.records ≡ s.records + length rs)
  Chained-Ends [] s s' h f w e (a, b) = (
    subst (λ x. Ends x f) a (subst (Ends s) b e),
    ap (λ (x : Summary). x.records) (sym a) ∙ omega arith,
  )
  Chained-Ends (r ∷ rs) s s' h f w e (k, _, v, c) =
      let (hr, ht) = verify_record_parts h r k v in
      let (ends, n) =
        Chained-Ends rs (counted p s r) s' k f w
          (inr (omega arith, sym ht, hash_record-IsHash h k r w hr)) c in
      (ends, omega arith)

  Ends-same : (s : Summary) (f g : Bytes) → Ends s f → Ends s g → f ≡ g
  Ends-same s f g (inl (_, a)) (inl (_, b)) = a ∙ sym b
  Ends-same s f g (inl (n, a)) (inr (m, _, _)) = absurd (omega arith)
  Ends-same s f g (inr (m, _, _)) (inl (n, b)) = absurd (omega arith)
  Ends-same s f g (inr (_, a, wa)) (inr (_, b, wb)) = hex_encode_inj f g wa.1 wb.1 (sym a ∙ b)

  -- If two files verify to the same summary, the same number of records and the same last hash, then record
  -- by record they say the same; or at some position different bytes have the same SHA-256. So no record
  -- before an anchored one can be changed, dropped, added or moved.
  pub verify_chain_lem :
      (c d : Bytes) (s : Summary)
      → IsSum
      → verify_chain p false c ≡ (s, ok tt)
      → verify_chain p false d ≡ (s, ok tt)
      → SameForms (read_records (scan_lines c)) (read_records (scan_lines d))
        ⊎ Broken zero_head zero_head (read_records (scan_lines c)) (read_records (scan_lines d))
  unfolding verify_chain
  verify_chain_lem c d s w e g =
      let (f, x) = verify_lines-Goes 1 (scan_lines c) (no_summary p) s zero_head e in
      let (k, y) = verify_lines-Goes 1 (scan_lines d) (no_summary p) s zero_head g in
      let (ends, n) =
        Chained-Ends (read_records (scan_lines c)) (no_summary p) s zero_head f w (inl (refl, refl))
          x in
      let (ends', m) =
        Chained-Ends (read_records (scan_lines d)) (no_summary p) s zero_head k w (inl (refl, refl))
          y in
      let y' =
        subst (Chained (no_summary p) zero_head (read_records (scan_lines d)) s)
          (Ends-same s k f ends' ends) y in
      elim (forms_or_collision (read_records (scan_lines c)) (read_records (scan_lines d))
        (no_summary p) (no_summary p) s s zero_head zero_head f w zero_head-IsHash zero_head-IsHash
        (omega arith) x y') [ inl (_, forms) ↦ inl forms | inr b ↦ inr b ]
