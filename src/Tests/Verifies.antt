-- ===== src/Tests/Verifies.antt =====
-- app/broker/verify.go at a log with one record.
use adb_broker.Prelude.{
  ℕ, ◌≡◌, refl, false, Option, none, some, List, [], ◌∷◌, if◌then◌else◌, Bytes, codes, bytes_eq, ok,
  digits, decimal, split_on,
}
use adb_broker.Wire.Frames.{hex_digit, hex_value}
use adb_broker.Audit.Anchor.{Anchor, hex_encode}
use adb_broker.Audit.Record.{
  behind, escape_byte, escape, json_string, int_decimal, canonical_form, canonical_time, canonical,
  hash_record,
}
use adb_broker.Audit.Lines.{
  decode_line, decode_hash, hex_decode, verify_record, is_blank, space_tail,
}
use adb_broker.Audit.Log.{Summary, drop_cr, scan_lines, verify_lines, verify_chain}
use adb_broker.Verify.{
  Fields, anchor_seq_field, anchor_hash_field, anchor_log_field, all_lower_hex, is_chain_hash,
  to_anchor, read_anchors, newest, truncated, status_partial, status_ok, run_verify,
}
use adb_broker.Verify.Anchored.{AreOf, IsAnchored, run_verify_lem}
use adb_broker.Tests.Logs.{platform, log_path, first_log, stored}

-- Two numbers are known.
abbrev small_uint : Bytes → Option ℕ
small_uint s =
    if bytes_eq s (codes "1") then some 1 else if bytes_eq s (codes "2") then some 2 else none

abbrev entry_at : Bytes → Fields
entry_at seq name =
    if bytes_eq name anchor_seq_field
    then some seq
    else if bytes_eq name anchor_hash_field
    then some stored.hash
    else if bytes_eq name anchor_log_field
    then some log_path
    else none

abbrev known : Summary
known = record { records = 1; last_seq = 1; last_hash = stored.hash }

abbrev first_anchor : Anchor
first_anchor = record { seq = 1; hash = stored.hash; log_path = log_path }

-- An anchor of the last record, none, and one of a record that is gone.
verify_tests :
    (run_verify platform small_uint log_path false first_log.file (entry_at (codes "1") ∷ [])
      ≡ status_ok known first_anchor)
    × (run_verify platform small_uint log_path false first_log.file [] ≡ status_partial known)
    × (run_verify platform small_uint log_path false first_log.file
          (entry_at (codes "1") ∷ entry_at (codes "2") ∷ [])
        ≡ truncated known (record first_anchor { seq = 2 }))
unfolding run_verify read_anchors to_anchor is_chain_hash all_lower_hex newest verify_chain
    scan_lines split_on verify_lines verify_record decode_line decode_hash hex_decode hex_value
    drop_cr is_blank space_tail hash_record canonical canonical_time canonical_form json_string
    escape escape_byte behind hex_digit int_decimal decimal digits hex_encode
verify_tests = (refl, refl, refl)

run_verify_lem_example :
    (anchors : List Anchor) × (verify_chain platform false first_log.file ≡ (known, ok tt))
    × AreOf (to_anchor small_uint) log_path (entry_at (codes "1") ∷ []) anchors
    × IsAnchored known anchors first_anchor
run_verify_lem_example =
    run_verify_lem platform small_uint log_path first_log.file false (entry_at (codes "1") ∷ [])
      known first_anchor verify_tests.0
