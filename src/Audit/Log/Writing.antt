-- ===== src/Audit/Log/Writing.antt =====
-- foundation/audit/log.go: the line that `Append` writes, as `VerifyChain` reads it.
use adb_broker.Prelude.{
  ℕ, zero, suc, ◌+◌, ◌-◌, ◌%◌, ◌^◌, ◌<◌, ◌≡◌, refl, sym, ap, ◌∙◌, subst, inl, inr, true, false,
  List, [], ◌∷◌, ◌++◌, append_assoc, arith, leb, ◌==◌, ==_iff, Bool-cases, length, take, drop,
  length-append, All, All-append, Bytes, codes, bytes_eq, contains_byte, Result, ok, err, split_on,
  split_on_line,
}
use adb_broker.Audit.Record.{
  Record, RecordError, canonical, canonical_form, canonical_time, with_time, json_string,
}
use adb_broker.Audit.Record.OneLine.{
  IsSpaceOrAbove, canonical_lem, json_string-IsSpaceOrAbove, all_above-IsSpaceOrAbove,
}
use adb_broker.Audit.Lines.{
  Platform, with_hash, encode_line, decode_line, verify_record, space_tail, is_blank,
}
use adb_broker.Audit.Log.{Summary, max_line_bytes, drop_cr, drop_empty_last, counted, verify_lines}

-- Lines, each with its newline.
unfoldable pub unlines : List Bytes → Bytes
unlines [] = []
unlines (line ∷ lines) = line ++ (10 ∷ unlines lines)

abbrev pub IsLine : Bytes → Type 0
IsLine line = contains_byte 10 line ≡ false

pub drop_empty_last_split :
    (lines : List Bytes) → All IsLine lines → drop_empty_last (split_on 10 (unlines lines)) ≡ lines
unfolding unlines split_on
drop_empty_last_split [] h = refl
drop_empty_last_split (line ∷ []) (h, _) = ap drop_empty_last (split_on_line 10 line [] h)
drop_empty_last_split (line ∷ next ∷ lines) (h, hs) =
    ap drop_empty_last (split_on_line 10 line (unlines (next ∷ lines)) h)
    ∙ kept (split_on 10 (unlines (next ∷ lines))) (drop_empty_last_split (next ∷ lines) hs)
  where
    kept :
        (rest : List Bytes)
        → drop_empty_last rest ≡ next ∷ lines
        → drop_empty_last (line ∷ rest) ≡ line ∷ next ∷ lines
    kept [] e = absurd (cc)
    kept (x ∷ rest) e = ground (arith, e)

pub unlines_snoc :
    (lines : List Bytes) (line : Bytes)
    → unlines (lines ++ (line ∷ [])) ≡ unlines lines ++ (line ++ (10 ∷ []))
unfolding unlines
unlines_snoc [] line = refl
unlines_snoc (x ∷ lines) line =
    ap (λ t. x ++ (10 ∷ t)) (unlines_snoc lines line)
    ∙ sym (append_assoc x (10 ∷ unlines lines) (line ++ (10 ∷ [])))

drop_cr_brace : (s : Bytes) → drop_cr (s ++ (125 ∷ [])) ≡ s ++ (125 ∷ [])
unfolding drop_cr
drop_cr_brace [] = refl
drop_cr_brace (c ∷ []) = refl
drop_cr_brace (c ∷ d ∷ s) = ap (λ t. c ∷ t) (drop_cr_brace (d ∷ s))

IsSpaceOrAbove-IsLine : (s : Bytes) → All IsSpaceOrAbove s → IsLine s
IsSpaceOrAbove-IsLine [] h = refl
IsSpaceOrAbove-IsLine (c ∷ s) (h, hs) = ground (arith, IsSpaceOrAbove-IsLine s hs)

All-take : (n : ℕ) (s : Bytes) → All IsSpaceOrAbove s → All IsSpaceOrAbove (take n s)
All-take zero s h = tt
All-take (suc n) [] h = tt
All-take (suc n) (c ∷ s) (h, hs) = (h, All-take n s hs)

module _ {Time : Type 0} (p : Platform Time) where
  -- A line without its newline: what the scanner gives, as it stands, and it is not blank.
  pub record IsText (line text : Bytes) : Type 0 where
    pub ended : line ≡ text ++ (10 ∷ [])
    pub one_line : IsLine text
    pub no_cr : drop_cr text ≡ text
    pub shown : is_blank 0 text ≡ false

  -- The canonical form opens with a brace.
  abbrev Opens : Bytes → Type 0
  Opens c = (t : Bytes) × (c ≡ 123 ∷ 34 ∷ t)

  canonical-Opens : (r : Record Time) (c : Bytes) → canonical p.format r ≡ ok c → Opens c
  unfolding canonical canonical_form
  canonical-Opens r c h = taken (canonical_time p.format r.ts) h
    where
      taken : (t : Result RecordError Bytes) → with_time p.format r t ≡ ok c → Opens c
      taken (err e) k = absurd (cc)
      taken (ok ts) k = (drop 2 (canonical_form ts r), cc)

  abbrev text_of : Bytes → Record Time → Bytes
  text_of c r = take (length c - 1) c ++ (codes ",\"hash\":" ++ (json_string r.hash ++ (125 ∷ [])))

  shown_text : (c u : Bytes) → Opens c → is_blank 0 (take (length c - 1) c ++ u) ≡ false
  unfolding is_blank space_tail
  shown_text c u (t, e) =
      ap (λ x. is_blank 0 (take (length x - 1) x ++ u)) e
      ∙ ap (λ n. is_blank 0 (take n (123 ∷ 34 ∷ t) ++ u)) count
    where
      count : length (123 ∷ 34 ∷ t) - 1 ≡ suc (length t)
      count = omega arith

  text_of_brace :
      (c : Bytes) (r : Record Time)
      → text_of c r
        ≡ (take (length c - 1) c ++ (codes ",\"hash\":" ++ json_string r.hash)) ++ (125 ∷ [])
  text_of_brace c r =
      ap (λ t. take (length c - 1) c ++ t)
        (sym (append_assoc (codes ",\"hash\":") (json_string r.hash) (125 ∷ [])))
      ∙ sym (
          append_assoc (take (length c - 1) c) (codes ",\"hash\":" ++ json_string r.hash)
            (125 ∷ []))

  line_of_text :
      (c : Bytes) (r : Record Time)
      → take (length c - 1) c ++ (codes ",\"hash\":" ++ (json_string r.hash ++ (125 ∷ 10 ∷ [])))
        ≡ text_of c r ++ (10 ∷ [])
  line_of_text c r = sym (
      append_assoc (take (length c - 1) c)
        (codes ",\"hash\":" ++ (json_string r.hash ++ (125 ∷ []))) (10 ∷ [])
      ∙ ap (λ t. take (length c - 1) c ++ t)
          (append_assoc (codes ",\"hash\":") (json_string r.hash ++ (125 ∷ [])) (10 ∷ [])
            ∙ ap (λ t. codes ",\"hash\":" ++ t)
                (append_assoc (json_string r.hash) (125 ∷ []) (10 ∷ []))))

  text_of-IsSpaceOrAbove :
      (c : Bytes) (r : Record Time) → canonical p.format r ≡ ok c → All IsSpaceOrAbove (text_of c r)
  text_of-IsSpaceOrAbove c r h =
      All-append IsSpaceOrAbove (take (length c - 1) c) _
        (All-take (length c - 1) c (canonical_lem p.format r c h))
        (All-append IsSpaceOrAbove (codes ",\"hash\":") _
          (all_above-IsSpaceOrAbove (codes ",\"hash\":") refl)
          (All-append IsSpaceOrAbove (json_string r.hash) (125 ∷ [])
            (json_string-IsSpaceOrAbove r.hash) (omega arith, tt)))

  text_of-IsText :
      (c line : Bytes) (r : Record Time)
      → canonical p.format r ≡ ok c
      → with_hash p r (ok c) ≡ ok line
      → IsText line (text_of c r)
  text_of-IsText c line r h e = record {
    ended = sym written ∙ line_of_text c r;
    one_line = IsSpaceOrAbove-IsLine (text_of c r) (text_of-IsSpaceOrAbove c r h);
    no_cr = subst (λ t. drop_cr t ≡ t) (sym (text_of_brace c r)) (drop_cr_brace _);
    shown = shown_text c _ (canonical-Opens r c h);
  }
    where
      written :
          take (length c - 1) c ++ (codes ",\"hash\":" ++ (json_string r.hash ++ (125 ∷ 10 ∷ [])))
          ≡ line
      written = elim (Bool-cases (bytes_eq (drop (length c - 1) c) (codes "}"))) [
        | inl q ↦
            let f : with_hash p r (ok c)
                ≡ ok (
                    take (length c - 1) c
                    ++ (codes ",\"hash\":" ++ (json_string r.hash ++ (125 ∷ 10 ∷ [])))) =
              rw (q, with_hash) in
            cc
        | inr q ↦ absurd (ground arith)
      ]

  -- What `encode_line` gives is a line of its own.
  pub encode_line-IsText :
      (r : Record Time) (line : Bytes)
      → encode_line p r ≡ ok line
      → (text : Bytes) × IsText line text
  unfolding encode_line
  encode_line-IsText r line h = taken (canonical p.format r) refl h
    where
      taken :
          (c : Result RecordError Bytes)
          → canonical p.format r ≡ c
          → with_hash p r c ≡ ok line
          → (text : Bytes) × IsText line text
      taken (err e) q k = absurd (cc)
      taken (ok c) q k = (text_of c r, text_of-IsText c line r q k)

  -- Some lines take the verification from one summary and head to another, whatever lines follow.
  abbrev pub Reads : List Bytes → Summary → Bytes → Summary → Bytes → Type 0
  Reads lines s h s' h' =
      (n : ℕ) (rest : List Bytes)
      → verify_lines p false n (lines ++ rest) s h
        ≡ verify_lines p false (n + length lines) rest s' h'

  pub read_next :
      (lines : List Bytes) (text : Bytes) (r : Record Time) (s s' : Summary) (h h' k : Bytes)
      → Reads lines s h s' h'
      → length text < max_line_bytes
      → drop_cr text ≡ text
      → is_blank 0 text ≡ false
      → decode_line p text ≡ ok r
      → r.seq ≡ (s'.last_seq + 1) % 2 ^ 64
      → verify_record p h' r ≡ ok k
      → Reads (lines ++ (text ∷ [])) s h (counted p s' r) k
  unfolding verify_lines
  read_next lines text r s s' h h' k reads short cr shown read seq linked_on n rest =
      ap (λ t. verify_lines p false n t s h) (append_assoc lines (text ∷ []) rest)
      ∙ reads n (text ∷ rest)
      ∙ rw (long, cr, shown, read, in_order, linked_on) refl
      ∙ ap (λ m. verify_lines p false m rest (counted p s' r) k) count
    where
      long : leb max_line_bytes (length text) ≡ false
      long = ground arith

      in_order : (r.seq == (s'.last_seq + 1) % 2 ^ 64) ≡ true
      in_order = (==_iff r.seq ((s'.last_seq + 1) % 2 ^ 64)).1 seq

      count : (n + length lines) + 1 ≡ n + length (lines ++ (text ∷ []))
      count = omega (arith, length-append lines (text ∷ []))
