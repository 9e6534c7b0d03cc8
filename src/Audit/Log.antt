-- ===== src/Audit/Log.antt =====
-- foundation/audit/log.go: appending to the log, and the verification of a whole chain.
pub mod Hex
pub mod Tamper
pub mod Writing
pub mod History
use adb_broker.Prelude.{
  ℕ, zero, suc, ◌+◌, ◌-◌, ◌*◌, ◌/◌, ◌%◌, ◌^◌, ◌≤◌, ◌<◌, min, max, bit_and, ◌≡◌, refl, sym, ap, ap₂,
  ◌∙◌, subst, ◌≢◌, ◌↔◌, ◌⊎◌, inl, inr, Bool, true, false, ◌&&◌, ◌||◌, not, Option, none, some, List,
  [], ◌∷◌, ◌++◌, append_assoc, append-nil, arith, ltb, leb, ◌==◌, if◌then◌else◌, ==_iff, ==_refl,
  Bool-cases, Option-cases, and_true, length, take, drop, get_elem?, replicate, length-append,
  length-take, length-drop, length-replicate, take-append-drop, take-length_append, take_all,
  drop-length_append, drop_at, get_elem?-append_length, All, All-append, All-append_left,
  All-append_right, Any, Any-map, All-map, All-Any, Bytes, codes, bytes_eq, contains_byte,
  has_prefix, bytes_lt, bytes_eq_refl, eq_of_bytes_eq, bytes_eq_iff, Result, ok, err, Result-cases,
  digits, decimal, split_on, cut_behind, cut_at, push, decimal_value, decimal_value-digits,
  split_on_line, cut_at_line, contains_byte-append,
}
use adb_broker.Audit.Anchor.{hex_encode}
use adb_broker.Audit.Record.{Record, RecordError, hash_record}
use adb_broker.Audit.Lines.{
  Platform, LineError, not_canonical, zero_head, encode_line, decode_line, verify_record, is_blank,
}

abbrev pub max_line_bytes : ℕ
max_line_bytes = 2 ^ 20

-- The handle, and with it what the file holds.
pub record Log : Type 0 where
  pub is_open : Bool
  pub path : Bytes
  pub seq : ℕ
  pub head : Bytes
  pub file : Bytes

-- Each value wraps `ErrAuditUnavailable`.
pub data AppendError : Type 0 where
  log_is_closed write_failed sync_failed : AppendError
  hash_failed : RecordError → AppendError
  encode_failed : LineError → AppendError

-- What the file system does with one append: the write takes everything, or fails behind so many bytes;
-- and the sync succeeds or not.
pub record Outcome : Type 0 where
  pub written : Option ℕ
  pub synced : Bool

pub record Summary : Type 0 where
  pub records : ℕ
  pub last_seq : ℕ
  pub last_hash : Bytes

-- The divergence of a line, with its number and the sequence number that was read; or that the file could
-- not be read on.
pub data ChainError : Type 0 where
  undecodable : ℕ → LineError → ChainError
  out_of_order : ℕ → ℕ → ChainError
  diverges : ℕ → ℕ → LineError → ChainError
  line_too_long read_failed : ChainError

abbrev pub close : Log → Log
close l = record l { is_open = false }

-- `bufio.ScanLines` drops a carriage return at the end of a line.
unfoldable pub drop_cr : Bytes → Bytes
drop_cr [] = []
drop_cr (c ∷ []) = if c == 13 then [] else c ∷ []
drop_cr (c ∷ d ∷ s) = c ∷ drop_cr (d ∷ s)

-- An unterminated last line is a line, if it has a byte.
abbrev pub drop_empty_last : List Bytes → List Bytes
drop_empty_last [] = []
drop_empty_last ([] ∷ []) = []
drop_empty_last ((c ∷ s) ∷ []) = (c ∷ s) ∷ []
drop_empty_last (s ∷ t ∷ lines) = s ∷ drop_empty_last (t ∷ lines)

-- The lines of a file; the scanner gives up at one of `max_line_bytes` or more.
unfoldable pub scan_lines : Bytes → List Bytes
scan_lines content = drop_empty_last (split_on 10 content)

module _ {Time : Type 0} (p : Platform Time) where
  -- The record as it is about to be hashed.
  abbrev pub placed : Log → Record Time → Record Time
  placed l r = record r {
    ts = p.normal r.ts;
    seq = (l.seq + 1) % 2 ^ 64;
    prev = hex_encode l.head;
    hash = [];
  }

  abbrev pub synced_line : Log → Record Time → Bool → Log × Result AppendError (Record Time)
  synced_line l r true = (l, ok r)
  synced_line l r false = (l, err sync_failed)

  abbrev pub write_line :
      Outcome
      → Log
      → Record Time
      → Bytes
      → Bytes
      → Option ℕ
      → Log × Result AppendError (Record Time)
  write_line o l r sum line (some n) = (record l { file = l.file ++ take n line }, err write_failed)
  write_line o l r sum line none =
      synced_line (record l { seq = r.seq; head = sum; file = l.file ++ line }) r o.synced

  abbrev pub encoded :
      Outcome
      → Log
      → Record Time
      → Bytes
      → Result LineError Bytes
      → Log × Result AppendError (Record Time)
  encoded o l r sum (err e) = (l, err (encode_failed e))
  encoded o l r sum (ok line) = write_line o l r sum line o.written

  abbrev pub summed :
      Outcome
      → Log
      → Record Time
      → Result RecordError Bytes
      → Log × Result AppendError (Record Time)
  summed o l r (err e) = (l, err (hash_failed e))
  summed o l r (ok sum) =
      let stored = record r { hash = hex_encode sum } in
      encoded o l stored sum (encode_line p stored)

  abbrev pub on_open : Outcome → Log → Record Time → Bool → Log × Result AppendError (Record Time)
  on_open o l r false = (l, err log_is_closed)
  on_open o l r true = summed o l (placed l r) (hash_record p.format p.sum l.head (placed l r))

  unfoldable pub append : Outcome → Log → Record Time → Log × Result AppendError (Record Time)
  append o l r = on_open o l r l.is_open

  -- What the verification knows between two lines.
  abbrev pub Verified : Type 0
  Verified = Summary × Result ChainError (Unit {0})

  abbrev pub counted : Summary → Record Time → Summary
  counted s r = record { records = s.records + 1; last_seq = r.seq; last_hash = r.hash }

  -- A record in its place; `next` goes on behind it.
  abbrev pub linked :
      (Summary → Bytes → Verified) → ℕ → Summary → Record Time → Result LineError Bytes → Verified
  linked next line s r (err e) = (s, err (diverges line r.seq e))
  linked next line s r (ok head) = next (counted s r) head

  abbrev pub verify_line :
      (Summary → Bytes → Verified) → ℕ → Summary → Bytes → Result LineError (Record Time) → Verified
  verify_line next line s head (err e) = (s, err (undecodable line e))
  verify_line next line s head (ok r) =
      if not (r.seq == (s.last_seq + 1) % 2 ^ 64)
      then (s, err (out_of_order line r.seq))
      else linked next line s r (verify_record p head r)

  -- What is done with a line, which may be too long, or blank.
  abbrev pub on_line :
      (Summary → Bytes → Verified) → ℕ → Summary → Bytes → Bytes → Bool → Bool → Verified
  on_line next line s head text true blank = (s, err line_too_long)
  on_line next line s head text false true = next s head
  on_line next line s head text false false = verify_line next line s head (decode_line p text)

  abbrev pub at_end : Bool → Summary → Verified
  at_end true s = (s, err read_failed)
  at_end false s = (s, ok tt)

  -- The loop over the lines, each as the scanner gives it: without the newline and one carriage return
  -- before it.
  unfoldable pub verify_lines : Bool → ℕ → List Bytes → Summary → Bytes → Verified
  verify_lines broken line [] s head = at_end broken s
  verify_lines broken line (raw ∷ rest) s head =
      on_line (verify_lines broken (line + 1) rest) line s head (drop_cr raw)
        (leb max_line_bytes (length raw)) (is_blank 0 (drop_cr raw))

  abbrev pub no_summary : Summary
  no_summary = record { records = 0; last_seq = 0; last_hash = [] }

  -- `broken` is an error of the reader behind these bytes.
  unfoldable pub verify_chain : Bool → Bytes → Verified
  verify_chain broken content = verify_lines broken 1 (scan_lines content) no_summary zero_head
