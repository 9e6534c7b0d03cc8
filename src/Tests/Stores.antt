-- ===== src/Tests/Stores.antt =====
-- adbsyncdb: a fetch of three bytes on the store's session, and a session that is made.
use adb_broker.Prelude.{
  ℕ, ◌≡◌, refl, Bool, true, false, Option, none, some, [], ◌∷◌, ◌++◌, length, Bytes, codes, Result,
  ok, err, split_on, cut_at,
}
use adb_broker.Wire.Numbers.{pos, le_bytes, uint32_at, uint64_at, to_int64, of_int64}
use adb_broker.Wire.Socket.{closed, no_server, Socket, WireError, read_full, write_all}
use adb_broker.Wire.Conn.{
  dial_server, dial, query, query_exchange, prepare, prepare_at, spend, check_serial,
  transport_serial, switch_service, switch_exchange, sync,
}
use adb_broker.Wire.Services.{server_version, devices, device_features, parse_lines, non_empty}
use adb_broker.Wire.Stat.{Stat, stat_rest, stat_of, decode_stat}
use adb_broker.Wire.Session.{
  SyncConn, new_sync_conn, sync_lstat, alive, kill, send_path, read_sync_header, stat_answer,
  stat_exchange, stat_command, lstat,
}
use adb_broker.Wire.Transfer.{read_chunk, recv_answer, recv_round, recv_loop, recv}
use adb_broker.DevicePath.{AuthorizedPath}
use adb_broker.DevicePath.Volume.{Volume, contains_dev, is_zero_volume}
use adb_broker.Filekind.{parse_kind, is_regular}
use adb_broker.Serial.{is_valid_serial_rune, all_valid, parse_serial}
use adb_broker.Audit.Anchor.{hex_encode}
use adb_broker.Wire.Frames.{
  hex_value, hex_digit, hex_prefix, encode_host_request, read_host_status, read_host_payload,
  parse_hex, hex_fold,
}
use adb_broker.Device.Codes.{
  missing_of, require_v2, entry_with, select_device, code_for_errno, code_for_wire,
}
use adb_broker.Device.Walker.{WalkError, coded, is_some}
use adb_broker.Device.Bus.{FetchResult, zero_volume}
use adb_broker.Device.Store.{DeviceRow, Session, Store, zero_serial, session_locked, connect}
use adb_broker.Device.Store.Serials.{IsHeld, Gives, session_locked_lem}
use adb_broker.Device.Store.Operations.{store_fetch}
use adb_broker.Device.Store.Operations.Fetched.{IsFetched, store_fetch_lem}

abbrev lower : Bytes → Bytes
lower s = s

abbrev volume : Volume
volume = record { dev = pos 190; ino = pos 3252; resolved = true }

abbrev file_stat : Stat
file_stat = record {
  errno = 0;
  dev = 190;
  ino = 8;
  mode = 33200;
  nlink = 1;
  uid = 1;
  gid = 1;
  size = 3;
  atime = pos 1;
  mtime = pos 1;
  ctime = pos 1;
}

abbrev with_incoming : Bytes → SyncConn
with_incoming bytes =
    new_sync_conn (record { incoming = bytes; ending = closed; room = 1000; sent = [] })

abbrev file_reply : Bytes
file_reply = sync_lstat ++ (le_bytes 4 0 ++ stat_rest file_stat)

abbrev pub row : DeviceRow
row = record {
  serial = codes "S1";
  state = codes "device";
  version = codes "1.0.41";
  broker_version = codes "v1";
  features = codes "stat_v2" ∷ codes "ls_v2" ∷ codes "sendrecv_v2" ∷ [];
  attached_devices = 1;
}

abbrev file_session : Session
file_session = record {
  sc = with_incoming (
      file_reply
      ++ (codes "DATA" ++ (le_bytes 4 3 ++ (codes "abc" ++ (codes "DONE" ++ le_bytes 4 0)))));
  row = row;
}

abbrev store : Store
store = record {
  broker_version = codes "v1";
  session = some file_session;
  pinned_serial = codes "S1";
  reconnects = 0;
  dials = [];
}

abbrev file_path : AuthorizedPath
file_path = record { path = codes "/sdcard/DCIM/a" }

abbrev keep_chunks : Bytes → Bytes → Bytes × ℕ × Bool
keep_chunks held chunk = (held ++ chunk, length chunk, false)

abbrev no_refusal : ℕ → Bytes → Bytes × Option Bytes
no_refusal n w = (w, none)

abbrev size_sum : Bytes → Bytes
size_sum s = length s ∷ []

abbrev fetched_file : FetchResult
fetched_file = record {
  bytes = 3;
  sha256 = codes "03";
  volume = zero_volume;
  serial = record { value = codes "S1" };
}

abbrev fetch_run : Store × Bytes × FetchResult × Option (WalkError Bytes)
fetch_run = store_fetch Bytes lower keep_chunks no_refusal size_sum store file_path volume []

store_fetch-file : fetch_run ≡ (fetch_run.0, codes "abc", fetched_file, none)
unfolding store_fetch session_locked is_zero_volume lstat stat_command stat_exchange stat_answer
    alive send_path write_all read_sync_header read_full kill decode_stat stat_of stat_rest le_bytes
    uint32_at uint64_at to_int64 of_int64 contains_dev parse_kind is_regular recv recv_loop
    recv_round recv_answer read_chunk parse_serial all_valid is_valid_serial_rune hex_encode
    hex_digit
store_fetch-file = refl

store_fetch_lem_example :
    (sess : Session) × ((session_locked Bytes lower store zero_serial).1 ≡ ok sess)
    × IsFetched Bytes keep_chunks no_refusal size_sum file_path volume sess []
        (codes "abc")
        fetched_file
store_fetch_lem_example =
    store_fetch_lem Bytes lower keep_chunks no_refusal size_sum store fetch_run.0 file_path volume
      [] (codes "abc") fetched_file store_fetch-file

row-gated : require_v2 row.features ≡ ok tt
unfolding require_v2 missing_of
row-gated = refl

store-IsHeld : IsHeld store
store-IsHeld = (refl, row-gated)

abbrev answer_of : Bytes → Result WireError Socket
answer_of bytes = ok (record { incoming = bytes; ending = closed; room = 1000; sent = [] })

-- A server with one device: its version, its devices, the features, and the switch to the device and to sync.
abbrev unconnected : Store
unconnected = record {
  broker_version = codes "v1";
  session = none;
  pinned_serial = codes "b";
  reconnects = 0;
  dials =
      answer_of (codes "OKAY00040029")
      ∷ answer_of (codes "OKAY0009b" ++ (9 ∷ (codes "device" ++ (10 ∷ []))))
      ∷ answer_of (codes "OKAY001fstat_v2,ls_v2,sendrecv_v2,shell")
      ∷ answer_of (codes "OKAYOKAY")
      ∷ [];
}

-- There is a session, and every socket was taken.
connected_run :
    (is_some (session_locked Bytes lower unconnected zero_serial).0.session ≡ true)
    × ((session_locked Bytes lower unconnected zero_serial).0.dials ≡ [])
unfolding session_locked connect dial dial_server server_version devices device_features parse_lines
    query query_exchange prepare prepare_at spend select_device split_on read_full write_all
    hex_value hex_digit hex_prefix encode_host_request read_host_status read_host_payload parse_hex
    hex_fold cut_at entry_with parse_serial all_valid is_valid_serial_rune check_serial non_empty
    require_v2 missing_of transport_serial switch_service switch_exchange sync
connected_run = (refl, refl)

session_locked_lem_example :
    Gives unconnected zero_serial (session_locked Bytes lower unconnected zero_serial)
session_locked_lem_example = session_locked_lem Bytes lower unconnected zero_serial tt

-- Another serial closes the session, and without a server there is no other.
gate_tests :
    (session_locked Bytes lower store (record { value = codes "S2" })
      ≡ (record store { session = none }, err (coded (codes "no_adb_server") (some no_server))))
    × (require_v2 (codes "ls_v2" ∷ []) ≡ err (codes "stat_v2" ∷ codes "sendrecv_v2" ∷ []))
    × (select_device
          (record { serial = codes "a"; state = codes "device" }
            ∷ record { serial = codes "b"; state = codes "device" }
            ∷ [])
          (record { value = codes "b" })
        ≡ ok (record { serial = codes "b"; state = codes "device" }))
    × (select_device
          (record { serial = codes "a"; state = codes "device" }
            ∷ record { serial = codes "b"; state = codes "device" }
            ∷ [])
          zero_serial
        ≡ err (codes "multiple_devices"))
    × (code_for_errno 13 (codes "path_not_found") (codes "transfer_failed")
        ≡ codes "permission_denied")
unfolding session_locked connect dial dial_server code_for_wire require_v2 missing_of select_device
    entry_with code_for_errno
gate_tests = (refl, refl, refl, refl, refl)
