-- ===== src/Audit/Open.antt =====
-- foundation/audit/log.go: opening a log, and creating one.
pub mod Reopened
use adb_broker.Prelude.{
  ℕ, zero, suc, ◌+◌, ◌-◌, ◌*◌, ◌/◌, ◌%◌, ◌^◌, ◌≤◌, ◌<◌, min, max, bit_and, ◌≡◌, refl, sym, ap, ap₂,
  ◌∙◌, subst, ◌≢◌, ◌↔◌, ◌⊎◌, inl, inr, Bool, true, false, ◌&&◌, ◌||◌, not, Option, none, some, List,
  [], ◌∷◌, ◌++◌, append_assoc, append-nil, arith, ltb, leb, ◌==◌, if◌then◌else◌, ==_iff, ==_refl,
  Bool-cases, Option-cases, and_true, length, take, drop, get_elem?, replicate, length-append,
  length-take, length-drop, length-replicate, take-append-drop, take-length_append, take_all,
  drop-length_append, drop_at, get_elem?-append_length, All, All-append, All-append_left,
  All-append_right, Any, Any-map, All-map, All-Any, Bytes, codes, bytes_eq, contains_byte,
  has_prefix, bytes_lt, bytes_eq_refl, eq_of_bytes_eq, bytes_eq_iff, Result, ok, err, ◌>>=◌, ◌>>◌,
  Result-cases, digits, decimal, split_on, cut_behind, cut_at, push, decimal_value,
  decimal_value-digits, split_on_line, cut_at_line, contains_byte-append,
}
use adb_broker.Audit.Record.{Record}
use adb_broker.Audit.Lines.{Platform, LineError, zero_head, decode_hash, verify_record}
use adb_broker.Audit.Log.{Log}
use adb_broker.Audit.Tail.{TailError, tail_record}

-- What the system says of an open file: whether it is a regular file, and its open flags, each if it can be
-- asked.
pub record Descriptor : Type 0 where
  pub regular : Option Bool
  pub flags : Option ℕ

-- Each value wraps `ErrAuditUnavailable`.
pub data OpenError : Type 0 where
  no_directory open_failed stat_failed not_regular flags_failed not_appending not_writing :
      OpenError
  no_tail : TailError → OpenError
  bad_prev : LineError → OpenError
  tail_diverges : LineError → OpenError

-- Linux: `O_APPEND`, `O_ACCMODE`, `O_WRONLY` and `O_RDWR`.
abbrev pub o_append : ℕ
o_append = 1024

abbrev pub o_accmode : ℕ
o_accmode = 3

abbrev pub o_wronly : ℕ
o_wronly = 1

abbrev pub o_rdwr : ℕ
o_rdwr = 2

abbrev pub confirm_flags : Option ℕ → Result OpenError (Unit {0})
confirm_flags none = err flags_failed
confirm_flags (some flags) =
    if bit_and flags o_append == 0
    then err not_appending
    else if bit_and flags o_accmode == o_wronly || bit_and flags o_accmode == o_rdwr
    then ok tt
    else err not_writing

abbrev pub confirm_regular : Option Bool → Option ℕ → Result OpenError (Unit {0})
confirm_regular none flags = err stat_failed
confirm_regular (some false) flags = err not_regular
confirm_regular (some true) flags = confirm_flags flags

unfoldable pub confirm_appendable : Descriptor → Result OpenError (Unit {0})
confirm_appendable d = confirm_regular d.regular d.flags

-- A log with an empty chain, on what the file holds.
abbrev pub empty_chain : Bytes → Bytes → Log
empty_chain path content = record {
  is_open = true;
  path = path;
  seq = 0;
  head = zero_head;
  file = content;
}

module _ {Time : Type 0} (p : Platform Time) where
  abbrev pub with_head : Bytes → Bytes → Record Time → Result LineError Bytes → Result OpenError Log
  with_head path content tail (err e) = err (tail_diverges e)
  with_head path content tail (ok head) =
      ok (record { is_open = true; path = path; seq = tail.seq; head = head; file = content })

  abbrev pub with_prev : Bytes → Bytes → Record Time → Result LineError Bytes → Result OpenError Log
  with_prev path content tail (err e) = err (bad_prev e)
  with_prev path content tail (ok prev) = with_head path content tail (verify_record p prev tail)

  abbrev pub with_tail :
      Bytes → Bytes → Result TailError (Option (Record Time)) → Result OpenError Log
  with_tail path content (err e) = err (no_tail e)
  with_tail path content (ok none) = ok (empty_chain path content)
  with_tail path content (ok (some tail)) =
      if tail.seq == 0 && bytes_eq tail.hash []
      then ok (empty_chain path content)
      else with_prev path content tail (decode_hash tail.prev)

  abbrev pub confirmed : Bytes → Bytes → Result OpenError (Unit {0}) → Result OpenError Log
  confirmed path content (err e) = err e
  confirmed path content (ok _) = with_tail path content (tail_record p content)

  -- The descriptor that opening the file for appending gave, if it did, and what the file holds.
  unfoldable pub open_log : Bytes → Option Descriptor → Bytes → Result OpenError Log
  open_log path none content = err open_failed
  open_log path (some d) content = confirmed path content (confirm_appendable d)

abbrev pub created_log : Bytes → Result OpenError (Unit {0}) → Result OpenError Log
created_log path (err e) = err e
created_log path (ok _) = ok (empty_chain path [])

-- Whether the directory could be made, and the descriptor of the new file, if there was none before.
unfoldable pub create_log : Bytes → Bool → Option Descriptor → Result OpenError Log
create_log path false d = err no_directory
create_log path true none = err open_failed
create_log path true (some d) = created_log path (confirm_appendable d)
