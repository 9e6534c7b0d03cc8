-- ===== src/Audit/Lines.antt =====
-- foundation/audit/log.go: the lines of the log, and the check of one record behind another.
use adb_broker.Prelude.{
  ℕ, zero, suc, ◌+◌, ◌-◌, ◌*◌, Bool, true, false, ◌&&◌, ◌||◌, not, Option, none, some, [], ◌∷◌,
  ◌++◌, leb, ◌==◌, if◌then◌else◌, length, take, drop, replicate, Bytes, codes, bytes_eq, Result, ok,
  err,
}
use adb_broker.Wire.Frames.{hex_value}
use adb_broker.Audit.Anchor.{hex_encode}
use adb_broker.Audit.Record.{Record, RecordError, in_ranges, json_string, canonical, hash_record}

-- What the log is built from that is not its own: the layout of a time, its truncation to milliseconds
-- in UTC, SHA-256, the decoder of JSON with unknown members refused (the values, with the time as it is
-- written, and whether nothing follows them), and the parser of a time in the layout.
pub record Platform (Time : Type 0) : Type 0 where
  pub format : Time → Bytes
  pub normal : Time → Time
  pub sum : Bytes → Bytes
  pub parse_json : Bytes → Option (Record Bytes × Bool)
  pub parse_time : Bytes → Option Time

-- Why a line or a record is refused.
pub data LineError : Type 0 where
  not_hex wrong_hash_length prev_mismatch hash_mismatch : LineError
  not_canonical : RecordError → LineError
  not_an_object bad_json trailing_data bad_time : LineError

abbrev pub hex_pair : Option ℕ → Option ℕ → Option Bytes → Option Bytes
hex_pair (some a) (some b) (some rest) = some ((16 * a + b) ∷ rest)
hex_pair (some a) (some b) none = none
hex_pair (some a) none rest = none
hex_pair none b rest = none

-- `hex.DecodeString`, which takes digits of both cases.
unfoldable pub hex_decode : Bytes → Option Bytes
hex_decode [] = some []
hex_decode (a ∷ []) = none
hex_decode (a ∷ b ∷ s) = hex_pair (hex_value a) (hex_value b) (hex_decode s)

abbrev pub sized_hash : Option Bytes → Result LineError Bytes
sized_hash none = err not_hex
sized_hash (some b) = if not (length b == 32) then err wrong_hash_length else ok b

unfoldable pub decode_hash : Bytes → Result LineError Bytes
decode_hash s = sized_hash (hex_decode s)

-- The head of a chain of length zero.
abbrev pub zero_head : Bytes
zero_head = replicate 32 0

module _ {Time : Type 0} (p : Platform Time) where
  abbrev pub with_hash : Record Time → Result RecordError Bytes → Result LineError Bytes
  with_hash r (err e) = err (not_canonical e)
  with_hash r (ok c) =
      if not (bytes_eq (drop (length c - 1) c) (codes "}"))
      then err not_an_object
      else ok
          (take (length c - 1) c ++ (codes ",\"hash\":" ++ (json_string r.hash ++ (125 ∷ 10 ∷ []))))

  unfoldable pub encode_line : Record Time → Result LineError Bytes
  encode_line r = with_hash r (canonical p.format r)

  abbrev pub with_parsed_time : Record Bytes → Option Time → Result LineError (Record Time)
  with_parsed_time d none = err bad_time
  with_parsed_time d (some t) = ok (record {
    seq = d.seq;
    ts = t;
    op = d.op;
    caller_uid = d.caller_uid;
    client_asserted = d.client_asserted;
    serial = d.serial;
    path_b64 = d.path_b64;
    decision = d.decision;
    result = d.result;
    bytes = d.bytes;
    sha256 = d.sha256;
    volume = d.volume;
    prev = d.prev;
    hash = d.hash;
  })

  abbrev pub decoded : Option (Record Bytes × Bool) → Result LineError (Record Time)
  decoded none = err bad_json
  decoded (some (d, false)) = err trailing_data
  decoded (some (d, true)) = with_parsed_time d (p.parse_time d.ts)

  unfoldable pub decode_line : Bytes → Result LineError (Record Time)
  decode_line line = decoded (p.parse_json line)

  abbrev pub check_sum : Record Time → Result RecordError Bytes → Result LineError Bytes
  check_sum r (err e) = err (not_canonical e)
  check_sum r (ok sum) =
      if not (bytes_eq (hex_encode sum) r.hash) then err hash_mismatch else ok sum

  abbrev pub check_prev : Bytes → Record Time → Result LineError Bytes → Result LineError Bytes
  check_prev prev r (err e) = err e
  check_prev prev r (ok stated) =
      if not (bytes_eq stated prev)
      then err prev_mismatch
      else check_sum r (hash_record p.format p.sum prev r)

  unfoldable pub verify_record : Bytes → Record Time → Result LineError Bytes
  verify_record prev r = check_prev prev r (decode_hash r.prev)

-- The runes of `unicode.IsSpace`, by how many bytes of one are behind its first; none for any other.
unfoldable pub space_tail : ℕ → Bytes → Option ℕ
space_tail c s =
    if (leb 9 c && leb c 13) || c == 32
    then some 0
    else if c == 194 && (in_ranges ((133, 133) ∷ []) s || in_ranges ((160, 160) ∷ []) s)
    then some 1
    else if (c == 225 && in_ranges ((154, 154) ∷ (128, 128) ∷ []) s)
        || (c == 226
            && (in_ranges ((128, 128) ∷ (128, 138) ∷ []) s
                || (in_ranges ((128, 128) ∷ (168, 169) ∷ []) s
                    || (in_ranges ((128, 128) ∷ (175, 175) ∷ []) s
                        || in_ranges ((129, 129) ∷ (159, 159) ∷ []) s))))
        || (c == 227 && in_ranges ((128, 128) ∷ (128, 128) ∷ []) s)
    then some 2
    else none

-- `len(bytes.TrimSpace(raw)) == 0`; the number counts the bytes of a rune that are still to be passed.
unfoldable pub is_blank : ℕ → Bytes → Bool
is_blank k [] = true
is_blank (suc k) (c ∷ s) = is_blank k s
is_blank zero (c ∷ s) = elim (space_tail c s) [ none ↦ false | some k ↦ is_blank k s ]
