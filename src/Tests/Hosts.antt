-- ===== src/Tests/Hosts.antt =====
-- foundation/adbwire/adbwire.go at concrete connections.
use adb_broker.Prelude.{
  ◌+◌, ◌<◌, ◌≡◌, refl, ◌⊎◌, none, some, List, [], ◌∷◌, ◌++◌, arith, length, All, Bytes, codes, ok,
  err, decimal, digits, decimal_value,
}
use adb_broker.Wire.Numbers.{pos, le_bytes}
use adb_broker.Wire.Socket.{closed, Socket, service_too_long, host_fail}
use adb_broker.Wire.Stat.{Stat, IsStat, stat_rest}
use adb_broker.Wire.Session.{SyncConn, new_sync_conn, sync_lstat, lstat}
use adb_broker.Wire.Session.Framing.{feed, wrote, request}
use adb_broker.Wire.Frames.{
  hex_prefix, hex_digit, hex_value, hex_fold, parse_hex, host_request_max, status_okay, status_fail,
  encode_host_request, read_host_payload,
}
use adb_broker.Wire.Frames.RoundTrip.{payload_wire, encode_host_request_iff}
use adb_broker.Wire.Conn.{
  Conn, state_spent, svc_version, svc_devices, dial, dial_server, query, transport_any, sync,
}
use adb_broker.Wire.Conn.Sound.{
  IsSound, Reached, reached_dial, reached_step, step_query, step_transport_any, Reached-IsSound,
}
use adb_broker.Wire.Conn.Exchange.{fresh, host_request, gone, opening, query_lem, open_session_lem}
use adb_broker.Wire.Services.{DeviceEntry, server_version, devices}
use adb_broker.Wire.Services.Listings.{IsEntry, devices_wire, devices_lem}
use adb_broker.Wire.Services.Version.{server_version_lem}

-- A server whose transport takes two hundred bytes.
abbrev server : Socket
server = record { incoming = []; ending = closed; room = 200; sent = [] }

encode_version : encode_host_request svc_version ≡ ok (codes "000chost:version")
unfolding encode_host_request hex_prefix hex_digit
encode_version = refl

encode_host_request_iff_example :
    ((encode_host_request svc_version ≡ err service_too_long)
      × (host_request_max < length svc_version))
    ⊎ ((req : Bytes) × (encode_host_request svc_version ≡ ok req)
        × (length req ≡ 4 + length svc_version)
        × (read_host_payload (feed server (req ++ codes "x"))
            ≡ (feed server (codes "x"), ok svc_version)))
encode_host_request_iff_example = encode_host_request_iff svc_version (codes "x") server

query_lem_example :
    (query svc_devices (fresh (feed server (status_okay ++ payload_wire [] [])) [] []) ≡ (
      record {
        nc = none;
        state = state_spent;
        dials = [];
        retired = feed (wrote server (host_request svc_devices)) [] ∷ [];
      },
      ok [],
    ))
    × (query svc_devices (fresh (feed server (status_fail ++ payload_wire [] [])) [] []) ≡ (
      record {
        nc = none;
        state = state_spent;
        dials = [];
        retired = feed (wrote server (host_request svc_devices)) [] ∷ [];
      },
      err (host_fail svc_devices []),
    ))
unfolding host_request hex_prefix
query_lem_example =
    query_lem svc_devices [] [] server [] [] (omega arith) (omega arith) (omega arith)

abbrev camera_stat : Stat
camera_stat = record {
  errno = 0;
  dev = 190;
  ino = 7;
  mode = 16888;
  nlink = 2;
  uid = 1023;
  gid = 1023;
  size = 4096;
  atime = pos 1;
  mtime = pos 2;
  ctime = pos 3;
}

camera_stat-IsStat : IsStat camera_stat
camera_stat-IsStat = record {
  errno_fits = omega arith;
  dev_fits = omega arith;
  ino_fits = omega arith;
  mode_fits = omega arith;
  nlink_fits = omega arith;
  uid_fits = omega arith;
  gid_fits = omega arith;
  size_fits = omega arith;
  atime_fits = omega arith;
  mtime_fits = omega arith;
  ctime_fits = omega arith;
}

abbrev camera : Bytes
camera = codes "/sdcard/DCIM/Camera"

open_session_lem_example :
    (c : Conn) × (d : Conn) × (session : SyncConn) × (transport_any (
        fresh
          (feed server (
            status_okay
            ++ (status_okay
                ++ (sync_lstat ++ (le_bytes 4 0 ++ (stat_rest camera_stat ++ codes "x"))))))
          []
          [])
      ≡ (c, ok tt))
    × (sync c ≡ (d, ok session))
    × (lstat camera session ≡ (
      new_sync_conn (feed (wrote (opening server) (request sync_lstat camera)) (codes "x")),
      ok camera_stat,
    ))
    × (d ≡ gone [] [])
unfolding host_request hex_prefix request le_bytes
open_session_lem_example =
    open_session_lem camera (codes "x") server camera_stat [] [] (refl, omega arith)
      camera_stat-IsStat (omega arith)

abbrev spent : Conn
spent = record { nc = none; state = state_spent; dials = ok server ∷ []; retired = server ∷ [] }

dial-server_up : dial (ok server ∷ []) ≡ ok (fresh server [] [])
unfolding dial dial_server
dial-server_up = refl

-- A query on a connection, and then a selection.
abbrev used : Conn
used = (transport_any (query svc_version (fresh server [] [])).0).0

used-Reached : Reached used
used-Reached =
    reached_step _ _
      (reached_step _ _ (reached_dial (ok server ∷ []) _ dial-server_up) (step_query svc_version))
      step_transport_any

Reached-IsSound_example : IsSound used
Reached-IsSound_example = Reached-IsSound used used-Reached

abbrev phones : List DeviceEntry
phones =
    record { serial = codes "EXAMPLE1"; state = codes "device" }
    ∷ record { serial = codes "10.0.0.1:5555"; state = codes "offline" }
    ∷ []

phones-IsEntry : All IsEntry phones
phones-IsEntry = (
  record {
    no_tab = refl;
    serial_line = refl;
    state_line = refl;
    serial_some = λ e. cc;
    state_some = λ e. cc;
  },
  (
    record {
      no_tab = refl;
      serial_line = refl;
      state_line = refl;
      serial_some = λ e. cc;
      state_some = λ e. cc;
    },
    tt,
  ),
)

devices_lem_example :
    devices (fresh (feed server (status_okay ++ payload_wire (devices_wire phones) [])) [] []) ≡ (
      record {
        nc = none;
        state = state_spent;
        dials = [];
        retired = feed (wrote server (host_request svc_devices)) [] ∷ [];
      },
      ok phones,
    )
unfolding host_request hex_prefix devices_wire
devices_lem_example = devices_lem phones [] server [] [] phones-IsEntry (omega arith) (omega arith)

server_version_lem_example :
    (server_version (fresh (feed server (status_okay ++ payload_wire (hex_prefix 41) [])) [] []) ≡ (
      record {
        nc = none;
        state = state_spent;
        dials = [];
        retired = feed (wrote server (host_request svc_version)) [] ∷ [];
      },
      ok (codes "1.0." ++ decimal 41),
    ))
    × (decimal_value 0 (decimal 41) ≡ 41)
unfolding host_request hex_prefix
server_version_lem_example = server_version_lem 41 [] server [] [] (omega arith) (omega arith)

decimal_version : codes "1.0." ++ decimal 41 ≡ codes "1.0.41"
unfolding decimal digits
decimal_version = refl

-- Digits of both cases, and what no number is.
hex_tests :
    (parse_hex (codes "00fF") ≡ some 255)
    × (parse_hex (codes "0x29") ≡ none)
    × (parse_hex (codes "100000000") ≡ none)
unfolding parse_hex hex_fold hex_value
hex_tests = (refl, refl, refl)
