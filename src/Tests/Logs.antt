-- ===== src/Tests/Logs.antt =====
-- foundation/audit/log.go at a log with one record.
use adb_broker.Prelude.{
  ℕ, zero, suc, ◌+◌, ◌%◌, ◌<◌, ◌≡◌, refl, ◌⊎◌, true, false, none, some, [], ◌∷◌, ◌++◌, arith,
  if◌then◌else◌, length, replicate, All, Bytes, codes, bytes_eq, ok, err, digits, decimal, split_on,
}
use adb_broker.Wire.Numbers.{pos}
use adb_broker.Wire.Frames.{hex_digit, hex_value}
use adb_broker.Audit.Anchor.{hex_encode}
use adb_broker.Audit.Record.{
  Record, behind, escape_byte, escape, json_string, int_decimal, canonical_form, canonical_time,
  canonical, hash_record,
}
use adb_broker.Audit.Lines.{
  Platform, zero_head, encode_line, decode_line, decode_hash, hex_decode, verify_record, is_blank,
  space_tail,
}
use adb_broker.Audit.Log.{
  Log, Outcome, Summary, log_is_closed, write_failed, sync_failed, drop_cr, scan_lines, close,
  append, verify_lines, verify_chain,
}
use adb_broker.Audit.Log.Hex.{IsByte}
use adb_broker.Audit.Log.Tamper.{IsSum, read_records, SameForms, Broken, verify_chain_lem}
use adb_broker.Audit.Log.History.{
  new_log, ReadsBack, Written, created, appended, verify_chain-append,
}
use adb_broker.Audit.Tail.{trim_breaks, after_last, no_complete_line, tail_at, tail_record}
use adb_broker.Audit.Open.{
  Descriptor, confirm_appendable, not_appending, not_writing, not_regular, open_log, create_log,
}
use adb_broker.Audit.Open.Reopened.{open_log-append}

-- Times are given in their form.
abbrev given : Bytes → Bytes
given t = t

-- A sum that knows how long its input is.
abbrev length_sum : Bytes → Bytes
length_sum s = replicate 32 (length s % 256)

-- The record as the caller gives it, and as it is stored.
abbrev fetched : Record Bytes
fetched = record {
  seq = 9;
  ts = codes "2026-07-30T16:52:03.114Z";
  op = codes "fetch";
  caller_uid = pos 1000;
  client_asserted = [];
  serial = codes "S";
  path_b64 = [];
  decision = codes "allow";
  result = codes "ok";
  bytes = pos 7;
  sha256 = [];
  volume = record { dev = pos 1; ino = pos 2 };
  prev = codes "x";
  hash = codes "y";
}

abbrev first_sum : Bytes
first_sum = replicate 32 52

abbrev pub stored : Record Bytes
stored = record fetched {
  seq = 1;
  prev = codes "0000000000000000000000000000000000000000000000000000000000000000";
  hash = codes "3434343434343434343434343434343434343434343434343434343434343434";
}

abbrev stored_text : Bytes
stored_text =
    codes
      "{\"seq\":1,\"ts\":\"2026-07-30T16:52:03.114Z\",\"op\":\"fetch\",\"caller_uid\":1000,\"client_asserted\":\"\",\"serial\":\"S\",\"path_b64\":\"\",\"decision\":\"allow\",\"result\":\"ok\",\"bytes\":7,\"sha256\":\"\",\"volume\":{\"dev\":1,\"ino\":2},\"prev\":\"0000000000000000000000000000000000000000000000000000000000000000\",\"hash\":\"3434343434343434343434343434343434343434343434343434343434343434\"}"

-- The decoder knows this line.
abbrev pub platform : Platform Bytes
platform = record {
  format = given;
  normal = given;
  sum = length_sum;
  parse_time = λ t. some t;
  parse_json = λ text. if bytes_eq text stored_text then some (stored, true) else none;
}

abbrev pub log_path : Bytes
log_path = codes "/var/log/a"

abbrev pub first_log : Log
first_log = record {
  is_open = true;
  path = log_path;
  seq = 1;
  head = first_sum;
  file = stored_text ++ (10 ∷ []);
}

abbrev pub good : Outcome
good = record { written = none; synced = true }

pub length_sum-IsSum : IsSum platform
length_sum-IsSum x = (refl, all 32 (length x % 256) (omega arith))
  where
    all : (n b : ℕ) → b < 256 → All IsByte (replicate n b)
    all zero b h = tt
    all (suc n) b h = (h, all n b h)

append-fetched : append platform good (new_log log_path) fetched ≡ (first_log, ok stored)
unfolding append hash_record encode_line canonical canonical_time canonical_form json_string escape
    escape_byte behind hex_digit int_decimal decimal digits hex_encode
append-fetched = refl

pub encode_line-stored : encode_line platform stored ≡ ok (stored_text ++ (10 ∷ []))
unfolding encode_line canonical canonical_time canonical_form json_string escape escape_byte behind
    hex_digit int_decimal decimal digits
encode_line-stored = refl

pub decode_line-stored : decode_line platform stored_text ≡ ok stored
unfolding decode_line
decode_line-stored = refl

abbrev pub stored_back : ReadsBack platform stored
stored_back = record {
  line = stored_text ++ (10 ∷ []);
  line_of = encode_line-stored;
  fits = omega arith;
  read = decode_line-stored;
}

first_log-Written : Written platform first_log 1
first_log-Written =
    appended first_log good fetched stored (created log_path) append-fetched stored_back

-- What an append does when something is wrong: to a closed log, when the write or the sync fails.
append_tests :
    (append platform good (close (new_log log_path)) fetched
      ≡ (close (new_log log_path), err log_is_closed))
    × (append platform (record { written = some 3; synced = true }) (new_log log_path) fetched
        ≡ (record (new_log log_path) { file = codes "{\"s" }, err write_failed))
    × (append platform (record { written = none; synced = false }) (new_log log_path) fetched
        ≡ (first_log, err sync_failed))
unfolding append hash_record encode_line canonical canonical_time canonical_form json_string escape
    escape_byte behind hex_digit int_decimal decimal digits hex_encode
append_tests = (refl, refl, refl)

verify_chain-append_example :
    (s : Summary) × (verify_chain platform false first_log.file ≡ (s, ok tt))
    × (s.records ≡ 1)
    × (s.last_seq ≡ 1)
    × ((◌≡◌ {A = ℕ} 1 0) ⊎ (s.last_hash ≡ hex_encode first_sum))
verify_chain-append_example =
    verify_chain-append platform first_log 1 length_sum-IsSum first_log-Written

abbrev one_record : Summary
one_record = record { records = 1; last_seq = 1; last_hash = stored.hash }

-- The log, and the log with a blank line behind it.
abbrev spaced : Bytes
spaced = first_log.file ++ (32 ∷ 13 ∷ 10 ∷ [])

verify_chain-logs :
    (verify_chain platform false first_log.file ≡ (one_record, ok tt))
    × (verify_chain platform false spaced ≡ (one_record, ok tt))
unfolding verify_chain scan_lines split_on verify_lines verify_record decode_line decode_hash
    hex_decode hex_value drop_cr is_blank space_tail hash_record canonical canonical_time
    canonical_form json_string escape escape_byte behind hex_digit int_decimal decimal digits
    hex_encode
verify_chain-logs = (refl, refl)

verify_chain_lem_example :
    SameForms platform
      (read_records platform (scan_lines first_log.file))
      (read_records platform (scan_lines spaced))
    ⊎ Broken platform zero_head zero_head
        (read_records platform (scan_lines first_log.file))
        (read_records platform (scan_lines spaced))
verify_chain_lem_example =
    verify_chain_lem platform first_log.file spaced one_record length_sum-IsSum verify_chain-logs.0
      verify_chain-logs.1

-- A file that does not end in a newline is refused, one of newlines is empty, and blank lines are passed.
tail_tests :
    (tail_record platform stored_text ≡ err no_complete_line)
    × (tail_record platform (10 ∷ 10 ∷ []) ≡ ok none)
    × (tail_record platform (first_log.file ++ (10 ∷ [])) ≡ ok (some stored))
unfolding tail_record tail_at trim_breaks after_last decode_line
tail_tests = (refl, refl, refl)

-- The flags of a descriptor that is open for writing behind the end, for reading, or for writing anywhere.
abbrev appending : Descriptor
appending = record { regular = some true; flags = some (1 + 1024 + 32768) }

descriptor_tests :
    (confirm_appendable appending ≡ ok tt)
    × (confirm_appendable (record appending { flags = some 1024 }) ≡ err not_writing)
    × (confirm_appendable (record appending { flags = some 2 }) ≡ err not_appending)
    × (confirm_appendable (record appending { regular = some false }) ≡ err not_regular)
    × (create_log log_path true (some appending) ≡ ok (new_log log_path))
unfolding confirm_appendable create_log
descriptor_tests = (refl, refl, refl, refl, refl)

open_log-append_example : open_log platform log_path (some appending) first_log.file ≡ ok first_log
open_log-append_example =
    open_log-append platform (new_log log_path) first_log 0 good fetched stored log_path appending
      length_sum-IsSum (created log_path) append-fetched stored_back (omega arith)
      descriptor_tests.0
