-- ===== src/Tests/Failures.antt =====
-- foundation/adbwire/errors.go at concrete messages.
use adb_broker.Prelude.{◌≡◌, refl, ◌⊎◌, some, Bytes, codes}
use adb_broker.Wire.Failures.{
  Sentinel, sync_session_dead, protocol, unauthorized, contains_text, first_row, fail_table,
  map_fail_message, NoRow, FirstRow, Told, unwrap_lem,
}

-- Messages that are in lower case.
abbrev as_it_is : Bytes → Bytes
as_it_is s = s

map_unauthorized : map_fail_message as_it_is (codes "device unauthorized.") ≡ some unauthorized
unfolding map_fail_message first_row contains_text
map_unauthorized = refl

unwrap_lem_example :
    ((s : Sentinel) × FirstRow (codes "device unauthorized.") fail_table s
      × Told as_it_is (codes "RECV") (codes "device unauthorized.") s s s)
    ⊎ (NoRow (codes "device unauthorized.") fail_table
        × Told as_it_is
            (codes "RECV")
            (codes "device unauthorized.")
            protocol
            sync_session_dead
            protocol)
unwrap_lem_example = unwrap_lem as_it_is (codes "RECV") (codes "device unauthorized.")
