-- ===== src/Wire/Conn.antt =====
-- foundation/adbwire/adbwire.go: a connection to the adb server, which is dialled again when the server
-- has closed it, and which becomes a sync session.
pub mod Sound
pub mod Exchange
use adb_broker.Prelude.{
  ℕ, zero, suc, ◌+◌, ◌-◌, ◌*◌, ◌/◌, ◌%◌, ◌^◌, ◌≤◌, ◌<◌, min, max, bit_and, ◌≡◌, refl, sym, ap, ap₂,
  ◌∙◌, subst, ◌≢◌, ◌↔◌, ◌⊎◌, inl, inr, Bool, true, false, ◌&&◌, ◌||◌, not, Option, none, some, List,
  [], ◌∷◌, ◌++◌, append_assoc, append-nil, arith, ltb, leb, ◌==◌, if◌then◌else◌, ==_iff, ==_refl,
  Bool-cases, Option-cases, and_true, length, take, drop, get_elem?, replicate, length-append,
  length-take, length-drop, length-replicate, take-append-drop, take-length_append, take_all,
  drop-length_append, drop_at, get_elem?-append_length, All, All-append, All-append_left,
  All-append_right, Any, Any-map, All-map, All-Any, Bytes, codes, bytes_eq, contains_byte,
  has_prefix, bytes_lt, bytes_eq_refl, eq_of_bytes_eq, bytes_eq_iff, Result, ok, err, Result-cases,
}
use adb_broker.Wire.Socket.{
  Socket, WireError, no_server, conn_closed, conn_handed_off, conn_not_dialled, transport_selected,
  nil_socket, host_fail, empty_serial, bad_serial, Io, ◌>>=◌, ◌>>◌, pure, fail, write_all,
}
use adb_broker.Wire.Session.{SyncConn, new_sync_conn}
use adb_broker.Wire.Frames.{encode_host_request, status_fail, read_host_status, read_host_payload}

abbrev pub svc_version : Bytes
svc_version = codes "host:version"

abbrev pub svc_devices : Bytes
svc_devices = codes "host:devices"

abbrev pub svc_transport_any : Bytes
svc_transport_any = codes "host:transport-any"

abbrev pub svc_sync : Bytes
svc_sync = codes "sync:"

-- `svcTransportTmpl` and `svcFeaturesTmpl` with a serial filled in.
abbrev pub svc_transport : Bytes → Bytes
svc_transport serial = codes "host:transport:" ++ serial

abbrev pub svc_features : Bytes → Bytes
svc_features serial = codes "host-serial:" ++ (serial ++ codes ":features")

pub data ConnState : Type 0 where
  state_fresh state_spent state_transport state_handed_off state_closed : ConnState

-- The connection, and around it: what the dials to come give, and the sockets that it has closed, the
-- last one first.
pub record Conn : Type 0 where
  pub nc : Option Socket
  pub state : ConnState
  pub dials : List (Result WireError Socket)
  pub retired : List Socket

-- Every dial that is not foreseen finds no server.
unfoldable pub dial_server :
    List (Result WireError Socket) → Result WireError Socket × List (Result WireError Socket)
dial_server [] = (err no_server, [])
dial_server (d ∷ dials) = (d, dials)

-- `Dial`.
abbrev pub dialled :
    Result WireError Socket × List (Result WireError Socket) → Result WireError Conn
dialled (err e, rest) = err e
dialled (ok s, rest) = ok (record { nc = some s; state = state_fresh; dials = rest; retired = [] })

unfoldable pub dial : List (Result WireError Socket) → Result WireError Conn
dial dials = dialled (dial_server dials)

-- Closing a socket that may be nil.
abbrev pub retire : Option Socket → List Socket → List Socket
retire none retired = retired
retire (some s) retired = s ∷ retired

unfoldable pub close : Conn → Conn
close c = record c { nc = none; state = state_closed; retired = retire c.nc c.retired }

unfoldable pub spend : Conn → Conn
spend c = record c { nc = none; state = state_spent; retired = retire c.nc c.retired }

-- The socket that the caller of `prepare` goes on with; a nil one is a panic.
abbrev pub socket_of : Option Socket → Result WireError Socket
socket_of none = err nil_socket
socket_of (some s) = ok s

abbrev pub redialled :
    Conn → Result WireError Socket × List (Result WireError Socket) → Conn × Result WireError Socket
redialled c (err e, rest) = (record c { dials = rest }, err e)
redialled c (ok s, rest) = (record c { nc = some s; state = state_fresh; dials = rest }, ok s)

-- The switch of `prepare` on the connection's state.
unfoldable pub prepare_at : Bool → Conn → ConnState → Option Socket → Conn × Result WireError Socket
prepare_at allow_transport c state_closed nc = (c, err conn_closed)
prepare_at allow_transport c state_handed_off nc = (c, err conn_handed_off)
prepare_at allow_transport c state_fresh none = (c, err conn_not_dialled)
prepare_at allow_transport c state_fresh (some s) = (c, ok s)
prepare_at allow_transport c state_transport nc =
    if not allow_transport then (c, err transport_selected) else (c, socket_of nc)
prepare_at allow_transport c state_spent nc = redialled c (dial_server c.dials)

unfoldable pub prepare : Bool → Conn → Conn × Result WireError Socket
prepare allow_transport c = prepare_at allow_transport c c.state c.nc

-- A FAIL status turns its payload into an error.
abbrev pub verdict : Bytes → Bytes → Bytes → Io Bytes
verdict service status payload =
    if bytes_eq status status_fail then fail (host_fail service payload) else pure payload

-- What `query` does on the socket.
unfoldable pub query_exchange : Bytes → Bytes → Io Bytes
query_exchange service req = do
  write_all req
  status ← read_host_status
  payload ← read_host_payload
  verdict service status payload

-- However the exchange went, the socket is closed after it.
abbrev pub queried : Conn → Socket × Result WireError Bytes → Conn × Result WireError Bytes
queried c (s, r) = (spend (record c { nc = some s }), r)

abbrev pub query_request :
    Bytes → Conn → Socket → Result WireError Bytes → Conn × Result WireError Bytes
query_request service c s (err e) = (c, err e)
query_request service c s (ok req) = queried c (query_exchange service req s)

abbrev pub query_prepared : Bytes → Conn × Result WireError Socket → Conn × Result WireError Bytes
query_prepared service (c, err e) = (c, err e)
query_prepared service (c, ok s) = query_request service c s (encode_host_request service)

unfoldable pub query : Bytes → Conn → Conn × Result WireError Bytes
query service c = query_prepared service (prepare false c)

-- The status of a service that turns the socket into a stream: OKAY has no payload.
abbrev pub switch_answer : Bytes → Bytes → Io (Unit {0})
switch_answer service status =
    if bytes_eq status status_fail
    then (read_host_payload >>= λ payload. fail (host_fail service payload))
    else pure tt

unfoldable pub switch_exchange : Bytes → Bytes → Io (Unit {0})
switch_exchange service req = do
  write_all req
  status ← read_host_status
  switch_answer service status

-- The socket is closed on an error and kept on a success.
abbrev pub switched :
    Conn → Socket × Result WireError (Unit {0}) → Conn × Result WireError (Unit {0})
switched c (s, err e) = (spend (record c { nc = some s }), err e)
switched c (s, ok _) = (record c { nc = some s }, ok tt)

abbrev pub switch_request :
    Bytes → Conn → Socket → Result WireError Bytes → Conn × Result WireError (Unit {0})
switch_request service c s (err e) = (c, err e)
switch_request service c s (ok req) = switched c (switch_exchange service req s)

abbrev pub switch_prepared :
    Bytes → Conn × Result WireError Socket → Conn × Result WireError (Unit {0})
switch_prepared service (c, err e) = (c, err e)
switch_prepared service (c, ok s) = switch_request service c s (encode_host_request service)

unfoldable pub switch_service : Bytes → Conn → Conn × Result WireError (Unit {0})
switch_service service c = switch_prepared service (prepare (bytes_eq service svc_sync) c)

abbrev pub selected : Conn × Result WireError (Unit {0}) → Conn × Result WireError (Unit {0})
selected (c, err e) = (c, err e)
selected (c, ok _) = (record c { state = state_transport }, ok tt)

unfoldable pub transport_any : Conn → Conn × Result WireError (Unit {0})
transport_any c = selected (switch_service svc_transport_any c)

unfoldable pub check_serial : Bytes → Result WireError (Unit {0})
check_serial serial =
    if bytes_eq serial []
    then err empty_serial
    else if contains_byte 0 serial || contains_byte 10 serial || contains_byte 9 serial
    then err bad_serial
    else ok tt

abbrev pub serial_checked :
    Bytes → Conn → Result WireError (Unit {0}) → Conn × Result WireError (Unit {0})
serial_checked serial c (err e) = (c, err e)
serial_checked serial c (ok _) = selected (switch_service (svc_transport serial) c)

unfoldable pub transport_serial : Bytes → Conn → Conn × Result WireError (Unit {0})
transport_serial serial c = serial_checked serial c (check_serial serial)

-- A nil socket would be handed over as it is.
abbrev pub session_of : Option Socket → SyncConn
session_of none = record { nc = none; dead = none }
session_of (some s) = new_sync_conn s

abbrev pub handed_off : Conn × Result WireError (Unit {0}) → Conn × Result WireError SyncConn
handed_off (c, err e) = (c, err e)
handed_off (c, ok _) = (record c { nc = none; state = state_handed_off }, ok (session_of c.nc))

unfoldable pub sync : Conn → Conn × Result WireError SyncConn
sync c = handed_off (switch_service svc_sync c)
