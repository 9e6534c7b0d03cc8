-- ===== src/Device/Codes.antt =====
-- business/domain/device/stores/adbsyncdb/adbsyncdb.go: the codes that failures are reported with, the choice of a device,
-- and the features that it must have.
use adb_broker.Prelude.{
  ℕ, not, Option, none, some, List, [], ◌∷◌, ◌==◌, if◌then◌else◌, Bytes, codes, bytes_eq, Result,
  ok, err,
}
use adb_broker.Wire.Socket.{WireError, device_fail, host_fail, no_server}
use adb_broker.Wire.Services.{DeviceEntry}
use adb_broker.Wire.Failures.{
  Sentinel, no_devices, unauthorized, device_not_found, offline, unknown_service, protocol,
  sync_session_dead, new_host_fail_error, new_sync_fail_error, unwrap,
}
use adb_broker.Errcode.{Code, one_of}
use adb_broker.Serial.{Serial}

abbrev pub code_of_sentinel : Sentinel → Code → Code
code_of_sentinel unauthorized fallback = codes "unauthorized"
code_of_sentinel offline fallback = codes "offline"
code_of_sentinel no_devices fallback = codes "no_device"
code_of_sentinel device_not_found fallback = codes "no_device"
code_of_sentinel unknown_service fallback = fallback
code_of_sentinel protocol fallback = fallback
code_of_sentinel sync_session_dead fallback = fallback

-- The sentinel that `errors.Is` finds is the one that the error of a FAIL unwraps to; of the other errors only
-- the refused dial has one with a code of its own. `to_lower` stands for strings.ToLower.
unfoldable pub code_for_wire : (Bytes → Bytes) → WireError → Code → Code
code_for_wire to_lower no_server fallback = codes "no_adb_server"
code_for_wire to_lower (device_fail service msg) fallback =
    code_of_sentinel (unwrap to_lower (new_sync_fail_error to_lower service msg)) fallback
code_for_wire to_lower (host_fail service msg) fallback =
    code_of_sentinel (unwrap to_lower (new_host_fail_error to_lower service msg)) fallback
code_for_wire to_lower e fallback = fallback

abbrev pub errno_enoent : ℕ
errno_enoent = 2

abbrev pub errno_eacces : ℕ
errno_eacces = 13

unfoldable pub code_for_errno : ℕ → Code → Code → Code
code_for_errno errno not_found unmeasured =
    if errno == errno_enoent
    then not_found
    else if errno == errno_eacces
    then codes "permission_denied"
    else unmeasured

abbrev pub required_features : List Bytes
required_features = codes "stat_v2" ∷ codes "ls_v2" ∷ codes "sendrecv_v2" ∷ []

-- The features of a list that the device does not report.
unfoldable pub missing_of : List Bytes → List Bytes → List Bytes
missing_of features [] = []
missing_of features (want ∷ rest) =
    let others = missing_of features rest in
    if not (one_of want features) then want ∷ others else others

abbrev pub none_missing : List Bytes → Result (List Bytes) (Unit {0})
none_missing [] = ok tt
none_missing (m ∷ ms) = err (m ∷ ms)

unfoldable pub require_v2 : List Bytes → Result (List Bytes) (Unit {0})
require_v2 features = none_missing (missing_of features required_features)

-- The entry with a serial: `slices.IndexFunc`.
unfoldable pub entry_with : Bytes → List DeviceEntry → Option DeviceEntry
entry_with serial [] = none
entry_with serial (e ∷ es) =
    let rest = entry_with serial es in if bytes_eq e.serial serial then some e else rest

abbrev pub found_entry : Option DeviceEntry → Result Code DeviceEntry
found_entry none = err (codes "no_device")
found_entry (some e) = ok e

abbrev pub only_entry : List DeviceEntry → Result Code DeviceEntry
only_entry [] = err (codes "no_device")
only_entry (e ∷ []) = ok e
only_entry (e ∷ f ∷ es) = err (codes "multiple_devices")

unfoldable pub select_device : List DeviceEntry → Serial → Result Code DeviceEntry
select_device [] want = err (codes "no_device")
select_device (e ∷ es) want =
    if not (bytes_eq want.value [])
    then found_entry (entry_with want.value (e ∷ es))
    else only_entry (e ∷ es)
