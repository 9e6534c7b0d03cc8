-- ===== src/Tests/Types.antt =====
-- business/types at concrete values.
use adb_broker.Prelude.{ℕ, ◌≡◌, refl, ◌↔◌, true, none, some, [], Bytes, codes, ok}
use adb_broker.Wire.Numbers.{ℤ, pos}
use adb_broker.Wire.Frames.{encode_host_request}
use adb_broker.Wire.Conn.{check_serial, svc_transport, svc_features}
use adb_broker.Wire.Conn.Exchange.{host_request}
use adb_broker.Errcode.{from}
use adb_broker.Filekind.{kind_regular, kind_dir, kind_symlink, kind_other, parse_kind}
use adb_broker.Serial.{is_valid_serial_rune, all_valid, parse_serial, parse_serial_lem}
use adb_broker.DevicePath.{volume_root}
use adb_broker.DevicePath.Volume.{
  Volume, StatFunc, resolve_volume, contains_dev, resolve_volume_lem,
}

-- 0o100660, 0o42770, 0o120644 and 0o20666.
kind_tests :
    (parse_kind 33200 ≡ kind_regular)
    × (parse_kind 17912 ≡ kind_dir)
    × (parse_kind 41380 ≡ kind_symlink)
    × (parse_kind 8630 ≡ kind_other)
unfolding parse_kind
kind_tests = (refl, refl, refl, refl)

from_tests :
    (from none ≡ [])
    × (from (some none) ≡ codes "internal")
    × (from (some (some (codes "offline"))) ≡ codes "offline")
unfolding from
from_tests = (refl, refl, refl)

abbrev phone : Bytes
phone = codes "10.0.0.1:5555"

phone_parsed : parse_serial phone ≡ ok (record { value = phone })
unfolding parse_serial all_valid is_valid_serial_rune
phone_parsed = refl

parse_serial_lem_example :
    (phone ≡ phone)
    × (check_serial phone ≡ ok tt)
    × (encode_host_request (svc_transport phone) ≡ ok (host_request (svc_transport phone)))
    × (encode_host_request (svc_features phone) ≡ ok (host_request (svc_features phone)))
parse_serial_lem_example = parse_serial_lem phone (record { value = phone }) phone_parsed

-- A device whose every path is a directory on one file system.
abbrev one_volume : StatFunc Bytes
one_volume path = ok (pos 190, pos 7, 17912)

abbrev pin : Volume
pin = record { dev = pos 190; ino = pos 7; resolved = true }

one_volume_resolved : resolve_volume (some one_volume) ≡ ok pin
unfolding resolve_volume
one_volume_resolved = refl

resolve_volume_lem_example : (contains_dev pin (pos 190) ≡ true) ↔ (
    (ino : ℤ) × (mode : ℕ) × (one_volume volume_root ≡ ok (pos 190, ino, mode))
    × (parse_kind mode ≡ kind_dir))
resolve_volume_lem_example = resolve_volume_lem one_volume pin (pos 190) one_volume_resolved
