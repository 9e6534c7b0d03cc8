-- ===== src/Audit/Tail/LastLine.antt =====
-- foundation/audit/log.go: the last line of a file of lines.
use adb_broker.Prelude.{
  ℕ, zero, suc, ◌+◌, ◌-◌, ◌≤◌, ◌<◌, ◌≡◌, refl, sym, ap, ◌∙◌, subst, ◌⊎◌, inl, inr, true, false,
  none, some, List, [], ◌∷◌, ◌++◌, append_assoc, arith, ◌==◌, length, drop, length-append,
  drop-length_append, Bytes, bytes_eq, contains_byte,
}
use adb_broker.Audit.Lines.{Platform, decode_line}
use adb_broker.Audit.Log.{max_line_bytes}
use adb_broker.Audit.Log.Writing.{unlines}
use adb_broker.Audit.Tail.{
  trimmed_byte, trim_breaks, last_break, after_last, decoded_tail, tail_record,
}
use adb_broker.Audit.Tail.Window.{
  trim_breaks-append, after_last-append, last_line, tail_of, tail_of_file, tail_record_lem,
}

-- A line with a byte.
abbrev pub IsFull : Bytes → Type 0
IsFull text = (contains_byte 10 text ≡ false) × (0 < length text)

trim_breaks-line : (text : Bytes) → IsFull text → trim_breaks (text ++ (10 ∷ [])) ≡ text
unfolding trim_breaks
trim_breaks-line [] (h, n) = absurd (omega arith)
trim_breaks-line (c ∷ []) (h, n) = ground arith
trim_breaks-line (c ∷ d ∷ s) (h, n) =
    ap (trimmed_byte c) (trim_breaks-line (d ∷ s) (ground arith, omega arith))

after_last-line : (text : Bytes) → contains_byte 10 text ≡ false → after_last text ≡ none
unfolding after_last
after_last-line [] h = refl
after_last-line (c ∷ s) h = ap (last_break c s) (after_last-line s (ground arith)) ∙ ground arith

after_break : (text : Bytes) → contains_byte 10 text ≡ false → after_last (10 ∷ text) ≡ some text
unfolding after_last
after_break text h = ap (last_break 10 text) (after_last-line text h)

-- A file of lines is empty, or ends in a newline.
abbrev Ended : Bytes → Type 0
Ended pre = (pre ≡ []) ⊎ ((q : Bytes) × (pre ≡ q ++ (10 ∷ [])))

unlines-Ended : (lines : List Bytes) → Ended (unlines lines)
unfolding unlines
unlines-Ended [] = inl refl
unlines-Ended (line ∷ lines) = elim (unlines-Ended lines) [
  | inl e ↦ inr (line, ap (λ t. line ++ (10 ∷ t)) e)
  | inr (q, e) ↦
      inr (
        line ++ (10 ∷ q),
        ap (λ t. line ++ (10 ∷ t)) e ∙ sym (append_assoc line (10 ∷ q) (10 ∷ [])),
      )
]

drop-append : (k : ℕ) (q v : Bytes) → k ≤ length q → drop k (q ++ v) ≡ drop k q ++ v
drop-append zero q v h = refl
drop-append (suc k) [] v h = absurd (omega arith)
drop-append (suc k) (c ∷ q) v h = drop-append k q v (omega arith)

-- Behind a newline, the text is found in whatever window holds both.
after_last-window :
    (u text : Bytes)
    → IsFull text
    → after_last (trim_breaks (u ++ (10 ∷ (text ++ (10 ∷ []))))) ≡ some text
after_last-window u [] (h, n) = absurd (omega arith)
after_last-window u (c ∷ s) (h, n) =
    ap after_last (
      ap trim_breaks (sym (append_assoc u (10 ∷ []) ((c ∷ s) ++ (10 ∷ []))))
      ∙ trim_breaks-append (u ++ (10 ∷ [])) ((c ∷ s) ++ (10 ∷ [])) c s
          (trim_breaks-line (c ∷ s) (h, n))
      ∙ append_assoc u (10 ∷ []) (c ∷ s))
    ∙ after_last-append u (10 ∷ (c ∷ s)) (c ∷ s) (after_break (c ∷ s) h)

module _ {Time : Type 0} (p : Platform Time) where
  tail_of-line :
      (t line : Bytes)
      → 0 < length t
      → after_last t ≡ some line
      → tail_of p t ≡ decoded_tail p (decode_line p line)
  tail_of-line [] line n e = absurd (omega arith)
  tail_of-line (c ∷ s) line n e = ap (λ x. decoded_tail p (decode_line p (last_line (c ∷ s) x))) e

  tail_of-first :
      (text : Bytes)
      → IsFull text
      → tail_of p (trim_breaks (text ++ (10 ∷ []))) ≡ decoded_tail p (decode_line p text)
  tail_of-first text (h, n) = ap (tail_of p) (trim_breaks-line text (h, n)) ∙ first text h n
    where
      first :
          (text : Bytes)
          → contains_byte 10 text ≡ false
          → 0 < length text
          → tail_of p text ≡ decoded_tail p (decode_line p text)
      first [] h n = absurd (omega arith)
      first (c ∷ s) h n =
          ap (λ x. decoded_tail p (decode_line p (last_line (c ∷ s) x))) (after_last-line (c ∷ s) h)

  has_byte : (t line : Bytes) → after_last t ≡ some line → 0 < length t
  unfolding after_last
  has_byte [] line e = absurd (cc)
  has_byte (c ∷ s) line e = omega arith

  tail_of_file-ended :
      (content : Bytes)
      → bytes_eq (drop (length content - 1) content) (10 ∷ []) ≡ true
      → 0 < length content
      → tail_of_file p content ≡ tail_of p (trim_breaks content)
  tail_of_file-ended content e n = let q : (length content == 0) ≡ false = ground arith in rw (q, e)

  ends_in_break :
      (x : Bytes) → bytes_eq (drop (length (x ++ (10 ∷ [])) - 1) (x ++ (10 ∷ []))) (10 ∷ []) ≡ true
  ends_in_break x =
      ap (λ t. bytes_eq t (10 ∷ []))
        (drop-length_append (length (x ++ (10 ∷ [])) - 1) x (10 ∷ [])
          (omega (arith, length-append x (10 ∷ []))))

  -- The last line of a file of lines, with its newline shorter than the longest window, is the one decoded.
  pub tail_record-last :
      (lines : List Bytes) (text : Bytes)
      → IsFull text
      → length text + 1 < max_line_bytes
      → tail_record p (unlines lines ++ (text ++ (10 ∷ []))) ≡ decoded_tail p (decode_line p text)
  tail_record-last lines text w n = cases (unlines lines) (unlines-Ended lines)
    where
      first : tail_record p (text ++ (10 ∷ [])) ≡ decoded_tail p (decode_line p text)
      first = elim (tail_record_lem p (text ++ (10 ∷ []))) [
        | inl e ↦
            e
            ∙ tail_of_file-ended (text ++ (10 ∷ [])) (ends_in_break text)
                (omega (arith, length-append text (10 ∷ [])))
            ∙ tail_of-first text w
        | inr (e, (long, f)) ↦ absurd (omega (arith, length-append text (10 ∷ []), long))
      ]

      later :
          (q : Bytes)
          → tail_record p (q ++ (10 ∷ (text ++ (10 ∷ [])))) ≡ decoded_tail p (decode_line p text)
      later q = elim (tail_record_lem p (q ++ (10 ∷ (text ++ (10 ∷ []))))) [
        | inl e ↦
            e
            ∙ tail_of_file-ended (q ++ (10 ∷ (text ++ (10 ∷ []))))
                (subst (λ x. bytes_eq (drop (length x - 1) x) (10 ∷ []) ≡ true)
                  (append_assoc q (10 ∷ text) (10 ∷ [])) (ends_in_break (q ++ (10 ∷ text))))
                (omega (arith, size))
            ∙ tail_of-line (trim_breaks (q ++ (10 ∷ (text ++ (10 ∷ []))))) text
                (has_byte _ text (after_last-window q text w)) (after_last-window q text w)
        | inr (e, (long, f)) ↦ absurd (
            missed (length (q ++ (10 ∷ (text ++ (10 ∷ [])))) - max_line_bytes)
              (omega (arith, size, long)) f)
      ]
        where
          size : length (q ++ (10 ∷ (text ++ (10 ∷ [])))) ≡ length q + (length text + 2)
          size =
              length-append q (10 ∷ (text ++ (10 ∷ [])))
              ∙ omega (arith, length-append text (10 ∷ []))

          missed :
              (k : ℕ)
              → k ≤ length q
              → after_last (trim_breaks (drop k (q ++ (10 ∷ (text ++ (10 ∷ [])))))) ≡ none
              → ⊥
          missed k m f =
              let g =
                ap (λ x. after_last (trim_breaks x)) (drop-append k q (10 ∷ (text ++ (10 ∷ []))) m)
                ∙ after_last-window (drop k q) text w in
              absurd (cc)

      cases :
          (pre : Bytes)
          → Ended pre
          → tail_record p (pre ++ (text ++ (10 ∷ []))) ≡ decoded_tail p (decode_line p text)
      cases pre (inl e) =
          subst
            (λ x. tail_record p (x ++ (text ++ (10 ∷ []))) ≡ decoded_tail p (decode_line p text))
            (sym e) first
      cases pre (inr (q, e)) =
          ap (λ x. tail_record p (x ++ (text ++ (10 ∷ [])))) e
          ∙ ap (tail_record p) (append_assoc q (10 ∷ []) (text ++ (10 ∷ [])))
          ∙ later q
