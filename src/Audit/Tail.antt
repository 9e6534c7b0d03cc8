-- ===== src/Audit/Tail.antt =====
-- foundation/audit/log.go: the last record of a log, read from the end of its file.
pub mod Window
pub mod LastLine
use adb_broker.Prelude.{
  ℕ, zero, suc, ◌+◌, ◌-◌, ◌*◌, ◌/◌, ◌%◌, ◌^◌, ◌≤◌, ◌<◌, min, max, bit_and, ◌≡◌, refl, sym, ap, ap₂,
  ◌∙◌, subst, ◌≢◌, ◌↔◌, ◌⊎◌, inl, inr, Bool, true, false, ◌&&◌, ◌||◌, not, Option, none, some, List,
  [], ◌∷◌, ◌++◌, append_assoc, append-nil, arith, ltb, leb, ◌==◌, if◌then◌else◌, ==_iff, ==_refl,
  Bool-cases, Option-cases, and_true, length, take, drop, get_elem?, replicate, length-append,
  length-take, length-drop, length-replicate, take-append-drop, take-length_append, take_all,
  drop-length_append, drop_at, get_elem?-append_length, All, All-append, All-append_left,
  All-append_right, Any, Any-map, All-map, All-Any, Bytes, codes, bytes_eq, contains_byte,
  has_prefix, bytes_lt, bytes_eq_refl, eq_of_bytes_eq, bytes_eq_iff, Result, ok, err, ◌>>=◌, ◌>>◌,
  Result-cases, digits, decimal, split_on, cut_behind, cut_at, push, decimal_value,
  decimal_value-digits, split_on_line, cut_at_line, contains_byte-append,
}
use adb_broker.Audit.Record.{Record}
use adb_broker.Audit.Lines.{Platform, LineError, decode_line}
use adb_broker.Audit.Log.{max_line_bytes}

pub data TailError : Type 0 where
  no_complete_line final_line_too_long out_of_fuel : TailError
  bad_line : LineError → TailError

abbrev pub trimmed_byte : ℕ → Bytes → Bytes
trimmed_byte c [] = if c == 10 then [] else c ∷ []
trimmed_byte c (x ∷ s) = c ∷ x ∷ s

-- `bytes.TrimRight(s, "\n")`
unfoldable pub trim_breaks : Bytes → Bytes
trim_breaks [] = []
trim_breaks (c ∷ s) = trimmed_byte c (trim_breaks s)

abbrev pub last_break : ℕ → Bytes → Option Bytes → Option Bytes
last_break c s (some t) = some t
last_break c s none = if c == 10 then some s else none

-- What is behind the last newline, if there is one: `s[bytes.LastIndexByte(s, '\n')+1:]`.
unfoldable pub after_last : Bytes → Option Bytes
after_last [] = none
after_last (c ∷ s) = last_break c s (after_last s)

-- The first window.
abbrev pub tail_window : ℕ
tail_window = 64 * 2 ^ 10

module _ {Time : Type 0} (p : Platform Time) where
  -- The zero record of an empty log is `none`.
  abbrev pub Tail : Type 0
  Tail = Result TailError (Option (Record Time))

  abbrev pub decoded_tail : Result LineError (Record Time) → Tail
  decoded_tail (err e) = err (bad_line e)
  decoded_tail (ok r) = ok (some r)

  -- The end of one round of the loop, for a window that is the whole file, and one that is long enough.
  abbrev pub grow : Bool → Bool → Tail → Tail
  grow true long next = err no_complete_line
  grow false true next = err final_line_too_long
  grow false false next = next

  abbrev pub behind_break : Bool → Bool → Tail → Bytes → Option Bytes → Tail
  behind_break whole long next text (some line) = decoded_tail (decode_line p line)
  behind_break true long next text none = decoded_tail (decode_line p text)
  behind_break false long next text none = grow false long next

  -- One round: what is left of the window without the newlines at its end.
  abbrev pub in_window : Bool → Bool → Tail → Bytes → Tail
  in_window true long next [] = ok none
  in_window false long next [] = grow false long next
  in_window whole long next (c ∷ s) = behind_break whole long next (c ∷ s) (after_last (c ∷ s))

  unfoldable pub tail_at : ℕ → Bytes → ℕ → Tail
  tail_at zero content window = err out_of_fuel
  tail_at (suc fuel) content window =
      in_window (min window (length content) == length content)
        (leb max_line_bytes (min window (length content)))
        (tail_at fuel content (min window (length content) * 2))
        (trim_breaks (drop (length content - min window (length content)) content))

  abbrev pub on_last_byte : Bool → Tail → Tail
  on_last_byte false next = err no_complete_line
  on_last_byte true next = next

  unfoldable pub tail_record : Bytes → Tail
  tail_record content =
      if length content == 0
      then ok none
      else on_last_byte (bytes_eq (drop (length content - 1) content) (10 ∷ []))
          (tail_at 5 content tail_window)
