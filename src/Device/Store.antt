-- ===== src/Device/Store.antt =====
-- business/domain/device/stores/adbsyncdb: the store's session with a device, and how it is made again
-- (reconnect.go), its probe and its volume (adbsyncdb.go).
pub mod Connecting
pub mod Serials
pub mod Operations
use adb_broker.Prelude.{
  ℕ, zero, suc, ◌+◌, ◌-◌, ◌*◌, ◌/◌, ◌%◌, ◌^◌, ◌≤◌, ◌<◌, min, max, bit_and, ◌≡◌, refl, sym, ap, ap₂,
  ◌∙◌, subst, ◌≢◌, ◌↔◌, ◌⊎◌, inl, inr, Bool, true, false, ◌&&◌, ◌||◌, not, Option, none, some, List,
  [], ◌∷◌, ◌++◌, append_assoc, append-nil, arith, ltb, leb, ◌==◌, if◌then◌else◌, ==_iff, ==_refl,
  Bool-cases, Option-cases, and_true, length, take, drop, get_elem?, replicate, length-append,
  length-take, length-drop, length-replicate, take-append-drop, take-length_append, take_all,
  drop-length_append, drop_at, get_elem?-append_length, All, All-append, All-append_left,
  All-append_right, Any, Any-map, All-map, All-Any, Bytes, codes, bytes_eq, contains_byte,
  has_prefix, bytes_lt, bytes_eq_refl, eq_of_bytes_eq, bytes_eq_iff, Result, ok, err, ◌>>=◌, ◌>>◌,
  Result-cases, digits, decimal, split_on, cut_behind, cut_at, push, decimal_value,
  decimal_value-digits, split_on_line, cut_at_line, contains_byte-append,
}
use adb_broker.Wire.Numbers.{ℤ, pos}
use adb_broker.Wire.Socket.{Socket, WireError}
use adb_broker.Wire.Stat.{Stat}
use adb_broker.Wire.Session.{SyncConn}
use adb_broker.Wire.Conn.{Conn, dial, transport_serial, sync}
use adb_broker.Wire.Services.{DeviceEntry, server_version, devices, device_features}
use adb_broker.Errcode.{Code, code_internal}
use adb_broker.Serial.{Serial, SerialError, parse_serial}
use adb_broker.Device.Codes.{code_for_wire, require_v2, select_device}
use adb_broker.Device.Walker.{WalkError, coded}

pub record DeviceRow : Type 0 where
  pub serial : Bytes
  pub state : Bytes
  pub version : Bytes
  pub broker_version : Bytes
  pub features : List Bytes
  pub attached_devices : ℕ

pub record Session : Type 0 where
  pub sc : SyncConn
  pub row : DeviceRow

-- The store, with what dialling the server will give, in order.
pub record Store : Type 0 where
  pub broker_version : Bytes
  pub session : Option Session
  pub pinned_serial : Bytes
  pub reconnects : ℕ
  pub dials : List (Result WireError Socket)

abbrev pub close_session : Store → Store
close_session s = record s { session = none }

abbrev pub zero_serial : Serial
zero_serial = record { value = [] }

abbrev pub row_of : Bytes → Bytes → ℕ → DeviceEntry → List Bytes → DeviceRow
row_of broker version n e features = record {
  serial = e.serial;
  state = e.state;
  version = version;
  broker_version = broker;
  features = features;
  attached_devices = n;
}

-- `E` is what a caller's callback may fail with; `to_lower` stands for strings.ToLower.
module _ (E : Type 0) (to_lower : Bytes → Bytes) where
  -- What is left of the dials, and the session or why there is none.
  abbrev pub Connected : Type 0
  Connected = List (Result WireError Socket) × Result (WalkError E) Session

  abbrev pub wire_failure : WireError → WalkError E
  wire_failure e = coded (code_for_wire to_lower e code_internal) (some e)

  abbrev pub with_sync : DeviceRow → Conn × Result WireError SyncConn → Connected
  with_sync row (c, err e) = (c.dials, err (wire_failure e))
  with_sync row (c, ok sc) = (c.dials, ok (record { sc = sc; row = row }))

  abbrev pub with_transport : DeviceRow → Conn × Result WireError (Unit {0}) → Connected
  with_transport row (c, err e) = (c.dials, err (wire_failure e))
  with_transport row (c, ok _) = with_sync row (sync c)

  abbrev pub with_gate : DeviceRow → Conn → Result (List Bytes) (Unit {0}) → Connected
  with_gate row c (err missing) = (c.dials, err (coded (codes "unsupported") none))
  with_gate row c (ok _) = with_transport row (transport_serial row.serial c)

  abbrev pub with_features :
      Bytes → Bytes → ℕ → DeviceEntry → Conn × Result WireError (List Bytes) → Connected
  with_features broker version n e (c, err x) = (c.dials, err (wire_failure x))
  with_features broker version n e (c, ok features) =
      with_gate (row_of broker version n e features) c (require_v2 features)

  abbrev pub with_choice : Bytes → Bytes → ℕ → Conn → Result Code DeviceEntry → Connected
  with_choice broker version n c (err code) = (c.dials, err (coded code none))
  with_choice broker version n c (ok e) =
      with_features broker version n e (device_features e.serial c)

  abbrev pub with_devices :
      Bytes → Serial → Bytes → Conn × Result WireError (List DeviceEntry) → Connected
  with_devices broker want version (c, err x) = (c.dials, err (wire_failure x))
  with_devices broker want version (c, ok es) =
      with_choice broker version (length es) c (select_device es want)

  abbrev pub with_version : Bytes → Serial → Conn × Result WireError Bytes → Connected
  with_version broker want (c, err x) = (c.dials, err (wire_failure x))
  with_version broker want (c, ok version) = with_devices broker want version (devices c)

  abbrev pub with_conn :
      Bytes → Serial → List (Result WireError Socket) → Result WireError Conn → Connected
  with_conn broker want rest (err x) = (rest, err (wire_failure x))
  with_conn broker want rest (ok c) = with_version broker want (server_version c)

  unfoldable pub connect : Bytes → List (Result WireError Socket) → Serial → Connected
  connect broker dials want = with_conn broker want (drop 1 dials) (dial dials)

  abbrev pub connected : Store → Connected → Store × Result (WalkError E) Session
  connected s (dials, err e) = (record s { dials = dials }, err e)
  connected s (dials, ok sess) =
      (record s { dials = dials; session = some sess; pinned_serial = sess.row.serial }, ok sess)

  -- The serial to connect to, when there is no session: the pinned one if none is asked for.
  abbrev pub with_pin : Store → Result SerialError Serial → Store × Result (WalkError E) Session
  with_pin s (err e) = (s, err (coded code_internal none))
  with_pin s (ok want) = connected s (connect s.broker_version s.dials want)

  abbrev pub wanted : Store → Serial → Result SerialError Serial
  wanted s want =
      if bytes_eq want.value [] && not (bytes_eq s.pinned_serial [])
      then parse_serial s.pinned_serial
      else ok want

  abbrev pub live_or : Store → Serial → Option Session → Store × Result (WalkError E) Session
  live_or s want (some sess) = (s, ok sess)
  live_or s want none = with_pin s (wanted s want)

  -- A session with another device than the one asked for is closed.
  abbrev pub unless_other : Store → Serial → Option Session → Store
  unless_other s want none = s
  unless_other s want (some sess) =
      if not (bytes_eq want.value []) && not (bytes_eq want.value sess.row.serial)
      then close_session s
      else s

  abbrev pub live : Store → Serial → Store × Result (WalkError E) Session
  live s want = live_or s want s.session

  unfoldable pub session_locked : Store → Serial → Store × Result (WalkError E) Session
  session_locked s want = live (unless_other s want s.session) want

  unfoldable pub reconnect : Store → Store × Result (WalkError E) Session
  reconnect s =
      session_locked (record (close_session s) { reconnects = s.reconnects + 1 }) zero_serial
