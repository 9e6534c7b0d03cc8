-- ===== src/Wire/Session/Fuel.antt =====
-- foundation/adbwire/sync.go: the parts that every command shares, and fuel.
use adb_broker.Prelude.{ℕ, ap, ◌≢◌, arith, ltb, length, Bytes, contains_byte, Result, ok, err}
use adb_broker.Wire.Socket.{
  WireError, path_has_nul, path_too_long, fail_message_too_long, device_fail, out_of_fuel, pure,
  fail, read_full,
}
use adb_broker.Wire.Stat.{decode_stat, decode_stat-ne-out_of_fuel}
use adb_broker.Wire.Cost.{
  Costs, >>=-Costs, fail-Costs, if-Costs, pure-Costs, read_full-Costs, Costs-zero, write_all-Costs,
}
use adb_broker.Wire.Session.{
  header_of, sync_max_path, sync_max_fail_message, send_path, read_sync_header, read_fail_message,
  lift, fail_reply,
}

pub read_sync_header-Costs : Costs 8 read_sync_header
unfolding read_sync_header
read_sync_header-Costs =
    >>=-Costs 8 (read_full 8) (λ hdr. pure (header_of hdr)) (read_full-Costs 8)
      (λ hdr. pure-Costs (header_of hdr))

pub read-Costs : (n : ℕ) → Costs 0 (read_full n)
read-Costs n = Costs-zero n (read_full n) (read_full-Costs n)

pub fail_reply-Costs :
    (A : Type 0) (service : Bytes) (n : ℕ) → Costs 0 (fail_reply {A = A} service n)
unfolding fail_reply read_fail_message
fail_reply-Costs A service n =
    >>=-Costs 0 (read_fail_message n) (λ msg. fail (device_fail service msg))
      (if-Costs 0 (ltb sync_max_fail_message n) (fail fail_message_too_long) (read_full n)
        (fail-Costs Bytes 0 fail_message_too_long (λ e. cc)) (read-Costs n))
      (λ msg. fail-Costs A 0 (device_fail service msg) (λ e. cc))

lift-Costs : {A : Type 0} (r : Result WireError A) → r ≢ err out_of_fuel → Costs 0 (lift r)
lift-Costs (ok a) h s = omega arith
lift-Costs (err e) h s = λ p. h (ap err p)

pub decode-Costs : (e r : Bytes) → Costs 0 (lift (decode_stat e r))
decode-Costs e r = lift-Costs (decode_stat e r) (decode_stat-ne-out_of_fuel e r)

pub send_path-Costs : (id path : Bytes) → Costs 0 (send_path id path)
unfolding send_path
send_path-Costs id path =
    if-Costs 0 (contains_byte 0 path) (fail path_has_nul) _
      (fail-Costs (Unit {0}) 0 path_has_nul (λ e. cc))
      (if-Costs 0 (ltb sync_max_path (length path)) (fail path_too_long) _
        (fail-Costs (Unit {0}) 0 path_too_long (λ e. cc)) (write_all-Costs _))
