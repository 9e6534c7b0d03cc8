-- ===== src/Audit/Tail/Window.antt =====
-- foundation/audit/log.go: the growing windows of `TailRecord`, and the whole file.
use adb_broker.Prelude.{
  ℕ, suc, ◌-◌, ◌*◌, ◌≤◌, ◌<◌, min, ◌≡◌, refl, sym, ap, ◌∙◌, subst, ◌⊎◌, inl, inr, Bool, true, false,
  Option, none, some, [], ◌∷◌, ◌++◌, arith, leb, ◌==◌, if◌then◌else◌, ==_refl, Bool-cases, length,
  take, drop, take-append-drop, Bytes, bytes_eq, ok, err,
}
use adb_broker.Audit.Lines.{Platform, decode_line}
use adb_broker.Audit.Log.{max_line_bytes}
use adb_broker.Audit.Tail.{
  final_line_too_long, trimmed_byte, trim_breaks, last_break, after_last, tail_window, Tail,
  decoded_tail, grow, behind_break, in_window, tail_at, on_last_byte, tail_record,
}

pub trim_breaks-append :
    (u v : Bytes) (c : ℕ) (s : Bytes) → trim_breaks v ≡ c ∷ s → trim_breaks (u ++ v) ≡ u ++ (c ∷ s)
unfolding trim_breaks
trim_breaks-append [] v c s e = e
trim_breaks-append (x ∷ u) v c s e = ap (trimmed_byte x) (trim_breaks-append u v c s e) ∙ kept u
  where
    kept : (u : Bytes) → trimmed_byte x (u ++ (c ∷ s)) ≡ x ∷ u ++ (c ∷ s)
    kept [] = refl
    kept (y ∷ u) = refl

pub after_last-append : (u v t : Bytes) → after_last v ≡ some t → after_last (u ++ v) ≡ some t
unfolding after_last
after_last-append [] v t e = e
after_last-append (x ∷ u) v t e = ap (last_break x (u ++ v)) (after_last-append u v t e)

-- The last line of some text without newlines at its end.
abbrev pub last_line : Bytes → Option Bytes → Bytes
last_line text none = text
last_line text (some line) = line

module _ {Time : Type 0} (p : Platform Time) where
  abbrev pub tail_of : Bytes → Tail p
  tail_of [] = ok none
  tail_of (c ∷ s) = decoded_tail p (decode_line p (last_line (c ∷ s) (after_last (c ∷ s))))

  -- The last record by the whole content.
  abbrev pub tail_of_file : Bytes → Tail p
  tail_of_file content =
      if length content == 0
      then ok none
      else on_last_byte p (bytes_eq (drop (length content - 1) content) (10 ∷ []))
          (tail_of (trim_breaks content))

  -- The longest window has no whole line, and there is more before it.
  abbrev pub NoLine : Bytes → Type 0
  NoLine content =
      (max_line_bytes < length content)
      × (after_last (trim_breaks (drop (length content - max_line_bytes) content)) ≡ none)

  abbrev Answers : Bytes → Tail p → Type 0
  Answers content t =
      (t ≡ tail_of (trim_breaks content)) ⊎ ((t ≡ err final_line_too_long) × NoLine content)

  -- A window that holds a newline before some text has the last line of the whole.
  in_part :
      (u v : Bytes) (c : ℕ) (s line : Bytes)
      → trim_breaks v ≡ c ∷ s
      → after_last (c ∷ s) ≡ some line
      → tail_of (trim_breaks (u ++ v)) ≡ decoded_tail p (decode_line p line)
  in_part u v c s line e f = ap tail_of (trim_breaks-append u v c s e) ∙ opened u
    where
      opened : (u : Bytes) → tail_of (u ++ (c ∷ s)) ≡ decoded_tail p (decode_line p line)
      opened [] = ap (λ x. decoded_tail p (decode_line p (last_line (c ∷ s) x))) f
      opened (x ∷ u) =
          ap (λ y. decoded_tail p (decode_line p (last_line (x ∷ u ++ (c ∷ s)) y)))
            (after_last-append (x ∷ u) (c ∷ s) line f)

  in_window-whole :
      (long : Bool) (next : Tail p) (t : Bytes) → in_window p true long next t ≡ tail_of t
  in_window-whole long next [] = refl
  in_window-whole long next (c ∷ s) = ended (after_last (c ∷ s)) refl
    where
      ended :
          (a : Option Bytes)
          → after_last (c ∷ s) ≡ a
          → behind_break p true long next (c ∷ s) a
            ≡ decoded_tail p (decode_line p (last_line (c ∷ s) a))
      ended none e = refl
      ended (some line) e = refl

  grow-Answers :
      (content : Bytes) (long : Bool) (next : Tail p)
      → (long ≡ true → NoLine content)
      → (long ≡ false → Answers content next)
      → Answers content (grow p false long next)
  grow-Answers content true next a b = inr (refl, a refl)
  grow-Answers content false next a b = b refl

  in_window-part :
      (content u v : Bytes) (long : Bool) (next : Tail p)
      → u ++ v ≡ content
      → (long ≡ true → after_last (trim_breaks v) ≡ none → NoLine content)
      → (long ≡ false → Answers content next)
      → Answers content (in_window p false long next (trim_breaks v))
  unfolding after_last
  in_window-part content u v long next whole a b = trimmed (trim_breaks v) refl
    where
      lined :
          (c : ℕ) (s : Bytes) (x : Option Bytes)
          → trim_breaks v ≡ c ∷ s
          → after_last (c ∷ s) ≡ x
          → Answers content (behind_break p false long next (c ∷ s) x)
      lined c s none e f = grow-Answers content long next (λ l. a l (ap after_last e ∙ f)) b
      lined c s (some line) e f =
          inl (sym (in_part u v c s line e f) ∙ ap (λ x. tail_of (trim_breaks x)) whole)

      trimmed : (t : Bytes) → trim_breaks v ≡ t → Answers content (in_window p false long next t)
      trimmed [] e = grow-Answers content long next (λ l. a l (ap after_last e)) b
      trimmed (c ∷ s) e = lined c s (after_last (c ∷ s)) e refl

  -- One round with a window that is no longer than the longest.
  tail_at-Answers :
      (content : Bytes) (fuel window : ℕ)
      → window ≤ max_line_bytes
      → (window < max_line_bytes → Answers content (tail_at p fuel content (window * 2)))
      → Answers content (tail_at p (suc fuel) content window)
  unfolding tail_at
  tail_at-Answers content fuel window small next = elim (Bool-cases (leb (length content) window)) [
    | inl q ↦
        let w : min window (length content) ≡ length content = ground arith in
        let same : (length content == length content) ≡ true = ==_refl (length content) in
        let n : length content - length content ≡ 0 = omega arith in
        inl (
          rw (w, same, n)
            (in_window-whole (leb max_line_bytes (length content))
              (tail_at p fuel content (length content * 2)) (trim_breaks content)))
    | inr q ↦
        let w : min window (length content) ≡ window = ground arith in
        let part : (window == length content) ≡ false = ground arith in
        rw (w, part)
          (in_window-part content (take (length content - window) content)
            (drop (length content - window) content) (leb max_line_bytes window)
            (tail_at p fuel content (window * 2))
            (take-append-drop (length content - window) content)
            (λ l f. (
              ground arith,
              subst (λ m. after_last (trim_breaks (drop (length content - m) content)) ≡ none)
                  (ground (arith, l, small)) f,
            ))
            (λ l. next (ground arith)))
  ]

  loop-Answers : (content : Bytes) → Answers content (tail_at p 5 content tail_window)
  loop-Answers content = tail_at-Answers content 4 65536 (omega arith) (λ _.
      tail_at-Answers content 3 131072 (omega arith) (λ _.
        tail_at-Answers content 2 262144 (omega arith) (λ _.
          tail_at-Answers content 1 524288 (omega arith) (λ _.
            tail_at-Answers content 0 1048576 (omega arith) (λ h. absurd (omega (arith, h)))))))

  pub tail_record_lem :
      (content : Bytes)
      → (tail_record p content ≡ tail_of_file content)
        ⊎ ((tail_record p content ≡ err final_line_too_long) × NoLine content)
  unfolding tail_record
  tail_record_lem content = elim (Bool-cases (length content == 0)) [
    | inl q ↦ inl (rw q refl)
    | inr q ↦ ended (bytes_eq (drop (length content - 1) content) (10 ∷ [])) refl q
  ]
    where
      ended :
          (b : Bool)
          → bytes_eq (drop (length content - 1) content) (10 ∷ []) ≡ b
          → (length content == 0) ≡ false
          → (tail_record p content ≡ tail_of_file content)
            ⊎ ((tail_record p content ≡ err final_line_too_long) × NoLine content)
      ended false e q = inl (rw (q, e) refl)
      ended true e q = elim (loop-Answers content) [
        | inl f ↦ inl (rw (q, e) f)
        | inr (f, n) ↦ inr (rw (q, e) f, n)
      ]
