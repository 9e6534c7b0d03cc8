-- ===== src/Tests/Buses.antt =====
-- devicebus and deviceaudit at a fetch of seven bytes.
use adb_broker.Prelude.{
  ℕ, ◌+◌, ◌≤◌, ◌≡◌, refl, true, false, Option, none, some, List, [], ◌∷◌, length, Bytes, codes, ok,
  digits, decimal,
}
use adb_broker.Wire.Numbers.{pos}
use adb_broker.Wire.Frames.{hex_digit}
use adb_broker.DevicePath.{AuthorizedPath}
use adb_broker.DevicePath.Volume.{Volume}
use adb_broker.Serial.{Serial}
use adb_broker.Errcode.{Code, from}
use adb_broker.Audit.Anchor.{hex_encode}
use adb_broker.Audit.Record.{
  behind, escape_byte, escape, json_string, int_decimal, canonical_form, canonical_time, canonical,
  hash_record,
}
use adb_broker.Audit.Lines.{encode_line}
use adb_broker.Audit.Log.{Summary, append, verify_chain}
use adb_broker.Device.Bus.{
  ListInput, zero_device, zero_listing, Storer, new_business, resolve_once, probe, list, fetch,
}
use adb_broker.Device.Bus.Pinning.{
  BusCall, probe_call, list_call, fetch_call, run_calls, Follows, run_calls-Follows,
}
use adb_broker.Device.Audited.{
  Audited, Moment, decision, result_code, anchor, append_entry, audited_fetch,
}
use adb_broker.Device.Audited.History.{
  new_audited, audited_step, run_audited, audited_answers, bus_answers, run_audited-bus, Recorded,
  started, called, Recorded-verifies,
}
use adb_broker.Tests.Logs.{
  platform, log_path, first_log, good, stored, stored_back, length_sum-IsSum,
}

abbrev pinned_volume : Volume
pinned_volume = record { dev = pos 1; ino = pos 2; resolved = true }

-- A store that counts its calls; the listing fails.
abbrev counting_store : Storer ℕ Bytes (Unit {0}) (Unit {0})
counting_store = record {
  probe = λ s t. (t + 1, zero_device, none);
  resolve_volume = λ t. (t + 1, pinned_volume, none);
  list = λ i v fn t. (t + 1, zero_listing, some (codes "path_denied"));
  fetch = λ p v out t. (
    t + 1,
    record { bytes = 7; sha256 = []; volume = v; serial = record { value = codes "S" } },
    none,
  );
}

abbrev one_path : AuthorizedPath
one_path = record { path = codes "/sdcard/DCIM/a.jpg" }

abbrev serial_S : Serial
serial_S = record { value = codes "S" }

abbrev some_listing : ListInput
some_listing = record { root = one_path; serial = serial_S; max_depth = 0 }

-- The volume is resolved by the first call only: four calls of the bus are five of the store.
pinning_tests :
    run_calls counting_store
      (fetch_call one_path tt
        ∷ probe_call serial_S
        ∷ list_call some_listing tt
        ∷ fetch_call one_path tt
        ∷ [])
      (new_business 0)
    ≡ record { state = 5; volume = pinned_volume; resolved = true }
unfolding run_calls resolve_once probe list fetch
pinning_tests = refl

run_calls-Follows_example :
    Follows counting_store (run_calls counting_store (probe_call serial_S ∷ []) (new_business 0)) (
      run_calls counting_store
        (fetch_call one_path tt ∷ [])
        (run_calls counting_store (probe_call serial_S ∷ []) (new_business 0)))
run_calls-Follows_example =
    run_calls-Follows counting_store (probe_call serial_S ∷ []) (fetch_call one_path tt ∷ []) 0

abbrev no_base64 : Bytes → Bytes
no_base64 s = []

abbrev named_code : Bytes → Option Code
named_code e = some e

abbrev fresh : Audited ℕ Bytes
fresh = new_audited 0 log_path (pos 1000) []

-- The anchor cannot be sent.
abbrev moment : Moment Bytes Bytes
moment = record {
  now = codes "2026-07-30T16:52:03.114Z";
  outcome = good;
  anchor_failure = some (codes "no journal");
}

abbrev two_calls : List (Moment Bytes Bytes × BusCall (Unit {0}) (Unit {0}))
two_calls = (moment, list_call some_listing tt) ∷ (moment, fetch_call one_path tt) ∷ []

run_audited-bus_example :
    (audited_answers platform no_base64 named_code counting_store two_calls fresh
      ≡ bus_answers counting_store
          (list_call some_listing tt ∷ fetch_call one_path tt ∷ [])
          fresh.bus)
    × ((run_audited platform no_base64 named_code counting_store two_calls fresh).bus
        ≡ run_calls counting_store
            (list_call some_listing tt ∷ fetch_call one_path tt ∷ [])
            fresh.bus)
run_audited-bus_example =
    run_audited-bus platform no_base64 named_code counting_store two_calls fresh

abbrev after_fetch : Audited ℕ Bytes
after_fetch =
    audited_step platform no_base64 named_code counting_store moment (fetch_call one_path tt) fresh

-- A fetch is recorded as it was, and the anchor's failure is reported once, for two fetches too.
fetch_recorded :
    (after_fetch.log ≡ first_log)
    × (after_fetch.stderr ≡ codes "no journal" ∷ [])
    × ((audited_step platform no_base64 named_code counting_store moment
          (fetch_call one_path tt)
          after_fetch).stderr
        ≡ codes "no journal" ∷ [])
    × (decision (some (codes "path_denied")) ≡ codes "deny")
    × (result_code named_code (some (codes "path_denied")) ≡ codes "path_denied")
unfolding append hash_record encode_line canonical canonical_time canonical_form json_string escape
    escape_byte behind hex_digit int_decimal decimal digits hex_encode audited_fetch append_entry
    anchor fetch resolve_once decision result_code from
fetch_recorded = (refl, refl, refl, refl, refl)

after_fetch-Recorded : Recorded platform no_base64 named_code counting_store after_fetch 1
unfolding append hash_record encode_line canonical canonical_time canonical_form json_string escape
    escape_byte behind hex_digit int_decimal decimal digits hex_encode fetch resolve_once decision
    result_code
after_fetch-Recorded =
    called moment (fetch_call one_path tt) first_log stored (started 0 log_path (pos 1000) []) refl
      stored_back

Recorded-verifies_example :
    (s : Summary) × (verify_chain platform false after_fetch.log.file ≡ (s, ok tt))
    × (s.records ≡ 1)
    × (length after_fetch.stderr ≤ 1)
Recorded-verifies_example =
    Recorded-verifies platform no_base64 named_code counting_store after_fetch 1 length_sum-IsSum
      after_fetch-Recorded
