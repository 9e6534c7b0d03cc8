-- ===== src/Audit/Open/Reopened.antt =====
-- foundation/audit/log.go: `Open` of a log that was written.
use adb_broker.Prelude.{
  ℕ, ◌+◌, ◌-◌, ◌%◌, ◌^◌, ◌<◌, ◌≡◌, refl, sym, ap, ap₂, ◌∙◌, subst, inl, inr, Bool, true, false,
  ◌&&◌, some, [], ◌∷◌, ◌++◌, arith, ◌==◌, Bool-cases, length, take, length-append,
  take-length_append, Bytes, bytes_eq, eq_of_bytes_eq, ok,
}
use adb_broker.Audit.Anchor.{hex_encode}
use adb_broker.Audit.Record.{Record, hash_record}
use adb_broker.Audit.Lines.{Platform, encode_line, decode_line, is_blank}
use adb_broker.Audit.Log.{Log, Outcome, max_line_bytes, placed, append}
use adb_broker.Audit.Log.Hex.{IsHash, decode_hash-hex_encode}
use adb_broker.Audit.Log.Tamper.{IsSum}
use adb_broker.Audit.Log.Writing.{IsText, encode_line-IsText}
use adb_broker.Audit.Log.History.{
  Appended, append-Appended, verify_record-placed, ReadsBack, Written, appended, Kept, Written-Kept,
}
use adb_broker.Audit.Tail.{decoded_tail, tail_record}
use adb_broker.Audit.Tail.LastLine.{tail_record-last}
use adb_broker.Audit.Open.{
  Descriptor, confirm_appendable, with_head, with_tail, confirmed, open_log,
}

-- A descriptor that `confirmAppendable` accepts.
abbrev pub IsAppendable : Descriptor → Type 0
IsAppendable d = confirm_appendable d ≡ ok tt

full_of_shown : (text : Bytes) → is_blank 0 text ≡ false → 0 < length text
unfolding is_blank
full_of_shown [] h = absurd (cc)
full_of_shown (c ∷ s) h = omega arith

shown_hash : (h : Bytes) → IsHash h → bytes_eq (hex_encode h) [] ≡ false
unfolding hex_encode
shown_hash [] (n, w) = absurd (omega arith)
shown_hash (c ∷ h) (n, w) = elim (Bool-cases (bytes_eq (hex_encode (c ∷ h)) [])) [
  | inl q ↦ absurd (let e = ap length (eq_of_bytes_eq (hex_encode (c ∷ h)) [] q) in omega arith)
  | inr q ↦ q
]

module _ {Time : Type 0} (p : Platform Time) where
  open_confirmed :
      (path content : Bytes) (d : Descriptor)
      → IsAppendable d
      → open_log p path (some d) content ≡ with_tail p path content (tail_record p content)
  unfolding open_log
  open_confirmed path content d h = ap (confirmed p path content) h

  last_record :
      (l l' : Log) (n : ℕ) (r stored : Record Time) (sum line : Bytes)
      → Kept p l n
      → encode_line p stored ≡ ok line
      → l'.file ≡ l.file ++ line
      → (b : ReadsBack p stored) → length b.line < max_line_bytes
      → tail_record p l'.file ≡ ok (some stored)
  last_record l l' n r stored sum line k e f b short = texts (encode_line-IsText p stored line e)
    where
      same : b.line ≡ line
      same = let q : ok b.line ≡ ok line = sym b.line_of ∙ e in cc

      texts : (text : Bytes) × IsText p line text → tail_record p l'.file ≡ ok (some stored)
      texts (text, t) =
          ap (tail_record p) (f ∙ ap₂ (λ x y. x ++ y) k.file_lines t.ended)
          ∙ tail_record-last p k.lines text (t.one_line, full_of_shown text t.shown)
              (omega (arith, size, bound))
          ∙ ap (decoded_tail p) (ap (decode_line p) cut ∙ b.read)
        where
          size : length line ≡ length text + 1
          size = ap length t.ended ∙ length-append text (10 ∷ [])

          bound : length line < max_line_bytes
          bound = subst (λ x. length x < max_line_bytes) same short

          cut : text ≡ take (length b.line - 1) b.line
          cut = sym (
              ap (λ x. take (length x - 1) x) (same ∙ t.ended)
              ∙ take-length_append (length (text ++ (10 ∷ [])) - 1) text (10 ∷ [])
                  (omega (arith, length-append text (10 ∷ []))))

  with_tail-stored :
      (path content : Bytes) (l : Log) (r : Record Time) (sum : Bytes)
      → IsHash l.head
      → IsHash sum
      → hash_record p.format p.sum l.head (placed p l r) ≡ ok sum
      → with_tail p path content (ok (some (record (placed p l r) { hash = hex_encode sum })))
        ≡ ok (record {
          is_open = true;
          path = path;
          seq = (l.seq + 1) % 2 ^ 64;
          head = sum;
          file = content;
        })
  with_tail-stored path content l r sum w ws e =
      rw
        (shown_hash sum ws, both_false ((l.seq + 1) % 2 ^ 64 == 0), decode_hash-hex_encode l.head w)
        (ap (with_head p path content (record (placed p l r) { hash = hex_encode sum }))
          (verify_record-placed p l r sum w e))
    where
      both_false : (b : Bool) → (b && false) ≡ false
      both_false true = refl
      both_false false = refl

  -- After an append to a log that was created and appended to, opening the file gives the handle that wrote it:
  -- open, on the same bytes, with its sequence number and its head. The hypotheses: SHA-256 gives 32 bytes, the
  -- append succeeded, the decoder of JSON reads the stored line back, the line with its newline is shorter than
  -- the longest window, and the descriptor is a regular file's, open for appending.
  pub open_log-append :
      (l l' : Log) (n : ℕ) (o : Outcome) (r stored : Record Time) (path : Bytes) (d : Descriptor)
      → IsSum p
      → Written p l n
      → append p o l r ≡ (l', ok stored)
      → (b : ReadsBack p stored) → length b.line < max_line_bytes
      → IsAppendable d
      → open_log p path (some d) l'.file
        ≡ ok (record { is_open = true; path = path; seq = l'.seq; head = l'.head; file = l'.file })
  open_log-append l l' n o r stored path d w v e b short a =
      written (append-Appended p o l l' r stored e)
    where
      k : Kept p l n
      k = Written-Kept p l n w v

      k' : Kept p l' (n + 1)
      k' = Written-Kept p l' (n + 1) w (appended l' o r stored v e b)

      written :
          Appended p l r l' stored
          → open_log p path (some d) l'.file
            ≡ ok (record {
              is_open = true;
              path = path;
              seq = l'.seq;
              head = l'.head;
              file = l'.file;
            })
      written (sum, line, es, st, f, el) =
          open_confirmed path l'.file d a
          ∙ ap (with_tail p path l'.file) (
              last_record l l' n r stored sum line k (ap (encode_line p) st ∙ f)
                (ap (λ (x : Log). x.file) el) b short
              ∙ ap (λ x. ok (some x)) st)
          ∙ with_tail-stored path l'.file l r sum k.wide
              (subst IsHash (ap (λ (x : Log). x.head) el) k'.wide) es
          ∙ ap₂
              (λ m h.
                ok (record { is_open = true; path = path; seq = m; head = h; file = l'.file }))
              (sym (ap (λ (x : Log). x.seq) el)) (sym (ap (λ (x : Log). x.head) el))
