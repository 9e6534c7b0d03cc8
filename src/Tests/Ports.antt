-- ===== src/Tests/Ports.antt =====
-- The bus on the store: a listing of a directory with one file to give, and one with a device that is named.
use adb_broker.Prelude.{
  ◌≡◌, refl, sym, subst, Bool, false, true, Option, none, some, List, [], ◌∷◌, ◌++◌, length, Bytes,
  codes, Result, ok, split_on, cut_at,
}
use adb_broker.Wire.Socket.{closed, Socket, WireError, read_full, write_all}
use adb_broker.Wire.Frames.{
  hex_value, hex_digit, hex_prefix, encode_host_request, hex_fold, parse_hex, read_host_status,
  read_host_payload,
}
use adb_broker.Wire.Session.{
  SyncConn, alive, kill, send_path, read_sync_header, stat_answer, stat_exchange, stat_command,
  lstat, stat,
}
use adb_broker.Wire.Conn.{dial_server, dial, prepare, prepare_at, spend, query, query_exchange}
use adb_broker.Wire.Services.{server_version, devices, parse_lines}
use adb_broker.DevicePath.{
  compiled_allowlist, child, within, within_any, check_form, parse_authorized_path,
}
use adb_broker.DevicePath.Volume.{contains_dev, is_zero_volume}
use adb_broker.Device.Codes.{select_device}
use adb_broker.Device.Walker.{FileRecord, WalkError, coded, Walk, to_bus_file_record}
use adb_broker.Device.Walk.Effects.{Survives}
use adb_broker.Device.Bus.{ListInput, Storer, Business, new_business, resolve_once, list}
use adb_broker.Device.Store.{Session, Store, connect, session_locked}
use adb_broker.Device.Store.Operations.{store_list, store_resolve}
use adb_broker.Device.Port.{Destination, store_port}
use adb_broker.Device.Port.Confined.{OnSession, bus_list_confined}
use adb_broker.Tests.Stores.{row}
use adb_broker.Tests.Walks.{
  same_text, media, dcim, conversation, keep_records, at_start, never, AllConfined,
  keep_records-Survives,
}
use adb_broker.Wire.Numbers.{le_bytes, uint32_at, uint64_at, to_int64, of_int64}
use adb_broker.Wire.Stat.{stat_rest, stat_of, decode_stat}
use adb_broker.Wire.Listing.{
  list as wire_list, read_name, read_dirent, list_answer, list_round, list_loop,
}
use adb_broker.Filekind.{parse_kind, is_dir}
use adb_broker.Device.Walk.{classify, walk_dir, walk_root}

abbrev as_is : Bytes → Bytes
as_is s = s

abbrev keep_all : List FileRecord → FileRecord → List FileRecord × Option Bytes
keep_all held r = (held ++ (r ∷ []), none)

abbrev uncancelled : Walk (List FileRecord) Bytes → SyncConn → Bool
uncancelled w c = false

abbrev one_port :
    Storer
      (Store × List FileRecord)
      (WalkError Bytes)
      (List FileRecord → FileRecord → List FileRecord × Option Bytes)
      (Destination (List FileRecord) Bytes)
one_port = store_port compiled_allowlist as_is as_is uncancelled

abbrev camera : ListInput
camera = record {
  root = record { path = codes "/sdcard/DCIM" };
  serial = record { value = codes "b" };
  max_depth = 0;
}

abbrev answering : Bytes → Result WireError Socket
answering bytes = ok (record { incoming = bytes; ending = closed; room = 1000; sent = [] })

-- The version, then two devices.
abbrev two_phones : Store
two_phones = record {
  broker_version = codes "v1";
  session = none;
  pinned_serial = [];
  reconnects = 0;
  dials =
      answering (codes "OKAY00040029")
      ∷ answering (
          codes "OKAY0012a"
          ++ (9 ∷ (codes "device" ++ (10 ∷ (codes "b" ++ (9 ∷ (codes "device" ++ (10 ∷ []))))))))
      ∷ [];
}

abbrev phones : Business (Store × List FileRecord)
phones = new_business (two_phones, [])

-- With two devices, a listing that names one of them fails, since the volume is resolved first, without a serial.
named_device_refused :
    (list one_port camera keep_all phones).2 ≡ some (coded (codes "multiple_devices") none)
unfolding list resolve_once store_port store_resolve session_locked connect dial dial_server
    server_version devices parse_lines query query_exchange prepare prepare_at spend select_device
    split_on read_full write_all hex_value hex_digit hex_prefix encode_host_request read_host_status
    read_host_payload parse_hex hex_fold cut_at
named_device_refused = refl

-- The store with a live session, which delivers a photo, a link and a file of another volume.
abbrev media_session : Session
media_session = record { sc = conversation; row = row }

abbrev media_store : Store
media_store = record {
  broker_version = codes "v1";
  session = some media_session;
  pinned_serial = codes "S1";
  reconnects = 0;
  dials = [];
}

abbrev media_bus : Business (Store × List FileRecord)
media_bus = record { state = (media_store, []); volume = media; resolved = true }

abbrev media_port :
    Storer
      (Store × List FileRecord)
      (WalkError Bytes)
      (List FileRecord → FileRecord → List FileRecord × Option Bytes)
      (Destination (List FileRecord) Bytes)
media_port = store_port compiled_allowlist same_text same_text never

abbrev album : ListInput
album = record { root = dcim; serial = record { value = codes "S1" }; max_depth = 0 }

-- The photo is listed, on the volume that was pinned.
media_listed :
    (length (list media_port album keep_records media_bus).0.state.1 ≡ 1)
    × ((list media_port album keep_records media_bus).0.volume ≡ media)
unfolding list resolve_once store_port store_list is_zero_volume session_locked walk_root walk_dir
    classify is_dir to_bus_file_record contains_dev parse_kind child parse_authorized_path
    check_form within within_any lstat stat stat_command stat_exchange stat_answer alive send_path
    write_all read_sync_header read_full kill wire_list list_loop list_round list_answer read_dirent
    read_name decode_stat stat_of stat_rest le_bytes uint32_at uint64_at to_int64 of_int64
media_listed = (refl, refl)

media_bus-OnSession :
    OnSession compiled_allowlist same_text same_text never AllConfined
      (list media_port album keep_records media_bus).0.volume
      album
      keep_records
      (resolve_once media_port media_bus).0.state.0
      []
unfolding resolve_once session_locked
media_bus-OnSession sess q =
    let same : media_session ≡ sess = cc in
    subst (λ v. Survives compiled_allowlist v keep_records dcim at_start sess.sc AllConfined)
      (sym media_listed.1)
      (subst
        (λ (x : Session).
          Survives compiled_allowlist media keep_records dcim at_start x.sc AllConfined)
        same keep_records-Survives)

bus_list_confined_example : AllConfined (list media_port album keep_records media_bus).0.state.1
bus_list_confined_example =
    bus_list_confined compiled_allowlist same_text same_text never AllConfined album keep_records
      media_bus media_bus-OnSession tt
