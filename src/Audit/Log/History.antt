-- ===== src/Audit/Log/History.antt =====
-- foundation/audit/log.go: a log over any appends, and `VerifyChain` of it.
use adb_broker.Prelude.{
  ℕ, ◌+◌, ◌-◌, ◌%◌, ◌^◌, ◌≤◌, ◌<◌, ◌≡◌, refl, sym, ap, ap₂, ◌∙◌, subst, ◌⊎◌, inl, inr, Bool, true,
  false, Option, none, some, List, [], ◌∷◌, ◌++◌, append-nil, arith, length, take, length-append,
  take-length_append, All, All-append, Bytes, bytes_eq_refl, Result, ok, err, split_on,
}
use adb_broker.Audit.Anchor.{hex_encode}
use adb_broker.Audit.Record.{Record, RecordError, canonical, canonical_form, hash_record}
use adb_broker.Audit.Record.Linked.{hashed_parts}
use adb_broker.Audit.Lines.{
  Platform, LineError, zero_head, encode_line, decode_line, check_sum, check_prev, verify_record,
}
use adb_broker.Audit.Log.{
  Log, Outcome, Summary, max_line_bytes, drop_empty_last, scan_lines, placed, synced_line,
  write_line, encoded, summed, on_open, append, counted, verify_lines, no_summary, verify_chain,
}
use adb_broker.Audit.Log.Hex.{IsHash, zero_head-IsHash, decode_hash-hex_encode}
use adb_broker.Audit.Log.Tamper.{IsSum}
use adb_broker.Audit.Log.Writing.{
  unlines, unlines_snoc, drop_empty_last_split, IsLine, IsText, encode_line-IsText, Reads,
  read_next,
}

-- The handle of `Create`: the file is there, and empty.
abbrev pub new_log : Bytes → Log
new_log path = record { is_open = true; path = path; seq = 0; head = zero_head; file = [] }

module _ {Time : Type 0} (p : Platform Time) where
  -- What a successful append did.
  abbrev pub Appended : Log → Record Time → Log → Record Time → Type 0
  Appended l r l' stored =
      (sum : Bytes) × (line : Bytes) × (hash_record p.format p.sum l.head (placed p l r) ≡ ok sum)
      × (stored ≡ record (placed p l r) { hash = hex_encode sum })
      × (encode_line p (record (placed p l r) { hash = hex_encode sum }) ≡ ok line)
      × (l' ≡ record l { seq = (l.seq + 1) % 2 ^ 64; head = sum; file = l.file ++ line })

  pub append-Appended :
      (o : Outcome) (l l' : Log) (r stored : Record Time)
      → append p o l r ≡ (l', ok stored)
      → Appended l r l' stored
  unfolding append
  append-Appended o l l' r stored h = opened l.is_open h
    where
      next : Bytes → Record Time
      next sum = record (placed p l r) { hash = hex_encode sum }

      synced :
          (sum line : Bytes) (b : Bool)
          → hash_record p.format p.sum l.head (placed p l r) ≡ ok sum
          → encode_line p (next sum) ≡ ok line
          → synced_line p
              (record l { seq = (l.seq + 1) % 2 ^ 64; head = sum; file = l.file ++ line })
              (next sum)
              b
            ≡ (l', ok stored)
          → Appended l r l' stored
      synced sum line true e f g = (sum, line, e, cc, f, cc)
      synced sum line false e f g = absurd (cc)

      wrote :
          (sum line : Bytes) (w : Option ℕ)
          → hash_record p.format p.sum l.head (placed p l r) ≡ ok sum
          → encode_line p (next sum) ≡ ok line
          → write_line p o l (next sum) sum line w ≡ (l', ok stored)
          → Appended l r l' stored
      wrote sum line none e f g = synced sum line o.synced e f g
      wrote sum line (some n) e f g = absurd (cc)

      encodes :
          (sum : Bytes) (x : Result LineError Bytes)
          → hash_record p.format p.sum l.head (placed p l r) ≡ ok sum
          → encode_line p (next sum) ≡ x
          → encoded p o l (next sum) sum x ≡ (l', ok stored)
          → Appended l r l' stored
      encodes sum (err z) e f g = absurd (cc)
      encodes sum (ok line) e f g = wrote sum line o.written e f g

      sums :
          (x : Result RecordError Bytes)
          → hash_record p.format p.sum l.head (placed p l r) ≡ x
          → summed p o l (placed p l r) x ≡ (l', ok stored)
          → Appended l r l' stored
      sums (err z) e g = absurd (cc)
      sums (ok sum) e g = encodes sum (encode_line p (next sum)) e refl g

      opened : (b : Bool) → on_open p o l r b ≡ (l', ok stored) → Appended l r l' stored
      opened false g = absurd (cc)
      opened true g = sums (hash_record p.format p.sum l.head (placed p l r)) refl g

  -- The stored record is in its place behind the head, and its hash is its own.
  pub verify_record-placed :
      (l : Log) (r : Record Time) (sum : Bytes)
      → IsHash l.head
      → hash_record p.format p.sum l.head (placed p l r) ≡ ok sum
      → verify_record p l.head (record (placed p l r) { hash = hex_encode sum }) ≡ ok sum
  unfolding verify_record hash_record canonical canonical_form
  verify_record-placed l r sum w e =
      ap (check_prev p l.head (record (placed p l r) { hash = hex_encode sum }))
        (decode_hash-hex_encode l.head w)
      ∙ rw (bytes_eq_refl l.head, check_prev)
          (ap (check_sum p (record (placed p l r) { hash = hex_encode sum })) e
            ∙ rw (bytes_eq_refl (hex_encode sum), check_sum) refl)

  -- A stored record whose line the decoder reads back as that record, and which fits the scanner.
  pub record ReadsBack (r : Record Time) : Type 0 where
    pub line : Bytes
    pub line_of : encode_line p r ≡ ok line
    pub fits : length line ≤ max_line_bytes
    pub read : decode_line p (take (length line - 1) line) ≡ ok r

  -- A log with so many records: created, and appended to.
  pub data Written : Log → ℕ → Type 0 where
    created : (path : Bytes) → Written (new_log path) 0
    appended :
        {l : Log} {n : ℕ} (l' : Log) (o : Outcome) (r stored : Record Time)
        → Written l n
        → append p o l r ≡ (l', ok stored)
        → ReadsBack stored
        → Written l' (n + 1)

  -- The file of the handle is lines that the verification takes to the summary and the head it knows.
  pub record Kept (l : Log) (n : ℕ) : Type 0 where
    pub lines : List Bytes
    pub summary : Summary
    pub file_lines : l.file ≡ unlines lines
    pub all_lines : All IsLine lines
    pub reads : Reads p lines (no_summary p) zero_head summary l.head
    pub count : summary.records ≡ n
    pub last : summary.last_seq ≡ l.seq
    pub wide : IsHash l.head
    pub known : (n ≡ 0) ⊎ (summary.last_hash ≡ hex_encode l.head)

  created-Kept : (path : Bytes) → Kept (new_log path) 0
  unfolding unlines
  created-Kept path = record {
    lines = [];
    summary = no_summary p;
    file_lines = refl;
    all_lines = tt;
    reads = λ n rest. ap (λ m. verify_lines p false m rest (no_summary p) zero_head) (omega arith);
    count = refl;
    last = refl;
    wide = zero_head-IsHash;
    known = inl refl;
  }

  keep_append :
      (l l' : Log) (n : ℕ) (r stored : Record Time)
      → IsSum p
      → Kept l n
      → Appended l r l' stored
      → ReadsBack stored
      → Kept l' (n + 1)
  unfolding hash_record
  keep_append l l' n r stored w k (sum, line, e, es, f, el) b =
      texts (encode_line-IsText p next line f)
    where
      next : Record Time
      next = record (placed p l r) { hash = hex_encode sum }

      same : b.line ≡ line
      same = let q : ok b.line ≡ ok line = sym b.line_of ∙ ap (encode_line p) es ∙ f in cc

      hashed_next : hash_record p.format p.sum l.head (placed p l r) ≡ ok sum
      hashed_next = e

      texts : (text : Bytes) × IsText p line text → Kept l' (n + 1)
      texts (text, t) =
          subst (λ x. Kept x (n + 1)) (sym el)
            (record {
              lines = k.lines ++ (text ∷ []);
              summary = counted p k.summary next;
              file_lines =
                  ap₂ (λ x y. x ++ y) k.file_lines t.ended ∙ sym (unlines_snoc k.lines text);
              all_lines = All-append IsLine k.lines (text ∷ []) k.all_lines (t.one_line, tt);
              reads =
                  read_next p k.lines text next (no_summary p) k.summary zero_head l.head sum
                    k.reads short t.no_cr t.shown (ap (decode_line p) cut ∙ b.read ∙ ap ok es)
                    (ap (λ m. (m + 1) % 2 ^ 64) (sym k.last))
                    (verify_record-placed l r sum k.wide hashed_next);
              count = ap (λ m. m + 1) k.count;
              last = refl;
              wide =
                  let (c, _, q) =
                    hashed_parts p.format p.sum l.head sum (canonical p.format (placed p l r)) e in
                  subst IsHash q (w (l.head ++ c));
              known = inr refl;
            })
        where
          size : length line ≡ length text + 1
          size = ap length t.ended ∙ length-append text (10 ∷ [])

          short : length text < max_line_bytes
          short =
              let f : length line ≤ max_line_bytes =
                subst (λ x. length x ≤ max_line_bytes) same b.fits in
              omega (arith, size)

          cut : text ≡ take (length b.line - 1) b.line
          cut = sym (
              ap (λ x. take (length x - 1) x) (same ∙ t.ended)
              ∙ take-length_append (length (text ++ (10 ∷ [])) - 1) text (10 ∷ [])
                  (omega (arith, length-append text (10 ∷ []))))

  pub Written-Kept : (l : Log) (n : ℕ) → IsSum p → Written l n → Kept l n
  Written-Kept l n w (created path) = created-Kept path
  Written-Kept l n w (appended l' o r stored v e b) =
      keep_append _ l' _ r stored w (Written-Kept _ _ w v) (append-Appended o _ l' r stored e) b

  -- A log that was created and then appended to verifies: the whole file is accepted, with as many records as
  -- were appended, the last sequence number of the handle, and, if there are any, the hash that is the handle's
  -- head. The hypotheses: SHA-256 gives 32 bytes, each append succeeded, and the decoder of JSON reads each
  -- stored line back.
  pub verify_chain-append :
      (l : Log) (n : ℕ)
      → IsSum p
      → Written l n
      → (s : Summary) × (verify_chain p false l.file ≡ (s, ok tt))
        × (s.records ≡ n)
        × (s.last_seq ≡ l.seq)
        × ((n ≡ 0) ⊎ (s.last_hash ≡ hex_encode l.head))
  unfolding verify_chain scan_lines verify_lines
  verify_chain-append l n w v =
      let k = Written-Kept l n w v in (k.summary, verified k, k.count, k.last, k.known)
    where
      verified : (k : Kept l n) → verify_chain p false l.file ≡ (k.summary, ok tt)
      verified k =
          ap
            (λ c. verify_lines p false 1 (drop_empty_last (split_on 10 c)) (no_summary p) zero_head)
            k.file_lines
          ∙ ap (λ ls. verify_lines p false 1 ls (no_summary p) zero_head)
              (drop_empty_last_split k.lines k.all_lines ∙ sym (append-nil k.lines))
          ∙ k.reads 1 []
