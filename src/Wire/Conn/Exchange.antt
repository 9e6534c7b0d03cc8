-- ===== src/Wire/Conn/Exchange.antt =====
-- foundation/adbwire/adbwire.go: the exchanges of a connection with a server that answers.
use adb_broker.Prelude.{
  ◌+◌, ◌≤◌, ◌≡◌, refl, ap, ◌∙◌, true, false, none, some, List, ◌∷◌, ◌++◌, arith, ltb, length, Bytes,
  Result, ok, err,
}
use adb_broker.Wire.Numbers.{le_bytes}
use adb_broker.Wire.Socket.{
  Socket, WireError, conn_handed_off, transport_selected, host_fail, >>=_ok, ◌>>=◌, write_all,
}
use adb_broker.Wire.Stat.{Stat, IsStat, stat_rest}
use adb_broker.Wire.Session.{SyncConn, new_sync_conn, sync_lstat, lstat}
use adb_broker.Wire.Session.Framing.{
  feed, wrote, write_all_lem, request, IsWirePath, stat_command_lem,
}
use adb_broker.Wire.Frames.{
  host_request_max, hex_prefix, status_okay, status_fail, encode_host_request, read_host_status,
  read_host_payload,
}
use adb_broker.Wire.Frames.RoundTrip.{
  payload_wire, read_host_payload_lem, status_okay_lem, status_fail_lem,
}
use adb_broker.Wire.Conn.{
  Conn, state_fresh, state_spent, state_transport, state_handed_off, svc_sync, svc_transport_any,
  spend, dial_server, redialled, prepare_at, prepare, verdict, queried, query_exchange,
  query_request, query_prepared, query, switch_answer, switch_exchange, switched, switch_request,
  switch_prepared, switch_service, selected, transport_any, handed_off, sync,
}

-- A connection in its first state, on a socket.
abbrev pub fresh : Socket → List (Result WireError Socket) → List Socket → Conn
fresh s dials retired = record {
  nc = some s;
  state = state_fresh;
  dials = dials;
  retired = retired;
}

-- The request of a service on the wire.
unfoldable pub host_request : Bytes → Bytes
host_request service = hex_prefix (length service) ++ service

pub encode_short :
    (service : Bytes)
    → length service ≤ host_request_max
    → encode_host_request service ≡ ok (host_request service)
unfolding encode_host_request host_request
encode_short service h = rw short
  where
    short : ltb host_request_max (length service) ≡ false
    short = ground arith

query_exchange_okay :
    (service req payload rest : Bytes) (s : Socket)
    → length payload ≤ host_request_max
    → length req ≤ s.room
    → query_exchange service req (feed s (status_okay ++ payload_wire payload rest))
      ≡ (feed (wrote s req) rest, ok payload)
unfolding query_exchange
query_exchange_okay service req payload rest s h w =
    >>=_ok (write_all req)
      (λ _. read_host_status >>= λ status. read_host_payload >>= verdict service status)
      (write_all_lem req (feed s (status_okay ++ payload_wire payload rest)) w)
    ∙ >>=_ok read_host_status (λ status. read_host_payload >>= verdict service status)
        (status_okay_lem (payload_wire payload rest) (wrote s req))
    ∙ >>=_ok read_host_payload (verdict service status_okay)
        (read_host_payload_lem payload rest (wrote s req) h)

query_exchange_fail :
    (service req payload rest : Bytes) (s : Socket)
    → length payload ≤ host_request_max
    → length req ≤ s.room
    → query_exchange service req (feed s (status_fail ++ payload_wire payload rest))
      ≡ (feed (wrote s req) rest, err (host_fail service payload))
unfolding query_exchange
query_exchange_fail service req payload rest s h w =
    >>=_ok (write_all req)
      (λ _. read_host_status >>= λ status. read_host_payload >>= verdict service status)
      (write_all_lem req (feed s (status_fail ++ payload_wire payload rest)) w)
    ∙ >>=_ok read_host_status (λ status. read_host_payload >>= verdict service status)
        (status_fail_lem (payload_wire payload rest) (wrote s req))
    ∙ >>=_ok read_host_payload (verdict service status_fail)
        (read_host_payload_lem payload rest (wrote s req) h)

-- On a fresh connection a query writes the service behind its length and gives the payload of an OKAY,
-- an empty one included, or an error with the message of a FAIL; either way the socket is closed and the
-- connection is spent.
pub query_lem :
    (service payload rest : Bytes) (s : Socket) (dials : List (Result WireError Socket))
    (retired : List Socket)
    → length service ≤ host_request_max
    → length payload ≤ host_request_max
    → length (host_request service) ≤ s.room
    → (query service (fresh (feed s (status_okay ++ payload_wire payload rest)) dials retired) ≡ (
      record {
        nc = none;
        state = state_spent;
        dials = dials;
        retired = feed (wrote s (host_request service)) rest ∷ retired;
      },
      ok payload,
    ))
      × (query service (fresh (feed s (status_fail ++ payload_wire payload rest)) dials retired) ≡ (
        record {
          nc = none;
          state = state_spent;
          dials = dials;
          retired = feed (wrote s (host_request service)) rest ∷ retired;
        },
        err (host_fail service payload),
      ))
unfolding query prepare prepare_at spend
query_lem service payload rest s dials retired hs hp w = (
  ap (query_request service (fresh okay dials retired) okay) (encode_short service hs)
      ∙ ap (queried (fresh okay dials retired))
          (query_exchange_okay service (host_request service) payload rest s hp w),
  ap (query_request service (fresh refusal dials retired) refusal) (encode_short service hs)
      ∙ ap (queried (fresh refusal dials retired))
          (query_exchange_fail service (host_request service) payload rest s hp w),
)
  where
    okay : Socket
    okay = feed s (status_okay ++ payload_wire payload rest)

    refusal : Socket
    refusal = feed s (status_fail ++ payload_wire payload rest)

switch_exchange_lem :
    (service req rest : Bytes) (s : Socket)
    → length req ≤ s.room
    → switch_exchange service req (feed s (status_okay ++ rest)) ≡ (feed (wrote s req) rest, ok tt)
unfolding switch_exchange
switch_exchange_lem service req rest s w =
    >>=_ok (write_all req) (λ _. read_host_status >>= switch_answer service)
      (write_all_lem req (feed s (status_okay ++ rest)) w)
    ∙ >>=_ok read_host_status (switch_answer service) (status_okay_lem rest (wrote s req))

switch_lem :
    (service rest : Bytes) (s : Socket) (c : Conn)
    → length service ≤ host_request_max
    → length (host_request service) ≤ s.room
    → switch_request service c (feed s (status_okay ++ rest)) (encode_host_request service)
      ≡ (record c { nc = some (feed (wrote s (host_request service)) rest) }, ok tt)
switch_lem service rest s c h w =
    ap (switch_request service c (feed s (status_okay ++ rest))) (encode_short service h)
    ∙ ap (switched c) (switch_exchange_lem service (host_request service) rest s w)

-- The connection with a transport selected, on a socket.
abbrev pub with_transport : Socket → List (Result WireError Socket) → List Socket → Conn
with_transport s dials retired = record {
  nc = some s;
  state = state_transport;
  dials = dials;
  retired = retired;
}

-- The connection that was handed over.
abbrev pub gone : List (Result WireError Socket) → List Socket → Conn
gone dials retired = record {
  nc = none;
  state = state_handed_off;
  dials = dials;
  retired = retired;
}

transport_any_lem :
    (rest : Bytes) (s : Socket) (dials : List (Result WireError Socket)) (retired : List Socket)
    → length (host_request svc_transport_any) ≤ s.room
    → transport_any (fresh (feed s (status_okay ++ rest)) dials retired)
      ≡ (with_transport (feed (wrote s (host_request svc_transport_any)) rest) dials retired, ok tt)
unfolding transport_any switch_service prepare prepare_at
transport_any_lem rest s dials retired w = ap selected (
    switch_lem svc_transport_any rest s (fresh (feed s (status_okay ++ rest)) dials retired)
      (omega arith) w)

sync_lem :
    (rest : Bytes) (s : Socket) (dials : List (Result WireError Socket)) (retired : List Socket)
    → length (host_request svc_sync) ≤ s.room
    → sync (with_transport (feed s (status_okay ++ rest)) dials retired)
      ≡ (gone dials retired, ok (new_sync_conn (feed (wrote s (host_request svc_sync)) rest)))
unfolding sync switch_service prepare prepare_at
sync_lem rest s dials retired w = ap handed_off (
    switch_lem svc_sync rest s (with_transport (feed s (status_okay ++ rest)) dials retired)
      (omega arith) w)

-- The requests that bring a session up and stat a path, in order.
abbrev pub opening : Socket → Socket
opening s = wrote (wrote s (host_request svc_transport_any)) (host_request svc_sync)

-- A transport is selected, the connection becomes a session, and a path is statted on it: with a server
-- that answers OKAY, OKAY and a stat, the three calls succeed one after the other on the same socket, each
-- reads its own answer and no byte of the next, and the caller gets the stat. The connection has handed
-- its socket over and holds none.
pub open_session_lem :
    (path rest : Bytes) (s : Socket) (st : Stat) (dials : List (Result WireError Socket))
    (retired : List Socket)
    → IsWirePath path
    → IsStat st
    → length (host_request svc_transport_any)
        + length (host_request svc_sync)
        + length (request sync_lstat path)
      ≤ s.room
    → (c : Conn) × (d : Conn) × (session : SyncConn) × (transport_any (
          fresh
            (feed s (
              status_okay
              ++ (status_okay ++ (sync_lstat ++ (le_bytes 4 st.errno ++ (stat_rest st ++ rest))))))
            dials
            retired)
        ≡ (c, ok tt))
      × (sync c ≡ (d, ok session))
      × (lstat path session
          ≡ (new_sync_conn (feed (wrote (opening s) (request sync_lstat path)) rest), ok st))
      × (d ≡ gone dials retired)
unfolding lstat
open_session_lem path rest s st dials retired p fits room =
    let answer = sync_lstat ++ (le_bytes 4 st.errno ++ (stat_rest st ++ rest)) in
    let chosen = wrote s (host_request svc_transport_any) in
    (
      with_transport (feed chosen (status_okay ++ answer)) dials retired,
      gone dials retired,
      new_sync_conn (feed (opening s) answer),
      transport_any_lem (status_okay ++ answer) s dials retired (omega arith),
      sync_lem answer chosen dials retired (omega arith),
      stat_command_lem sync_lstat path (opening s) st rest p refl (omega arith) fits,
      refl,
    )

-- Once a transport is selected only `Sync` may follow: a query and a second selection are refused, and
-- leave the connection and its socket as they were.
pub transport_exclusive :
    (service : Bytes) (c : Conn)
    → c.state ≡ state_transport
    → (query service c ≡ (c, err transport_selected))
      × (transport_any c ≡ (c, err transport_selected))
unfolding query transport_any switch_service prepare prepare_at
transport_exclusive service c h = (
  ap (λ t. query_prepared service (prepare_at false c t c.nc)) h,
  ap (λ t. selected (switch_prepared svc_transport_any (prepare_at false c t c.nc))) h,
)

-- A connection that became a session cannot be used again: every request on it is refused and nothing of
-- it changes, so the session's socket is never written to from here.
pub handed_off_lem :
    (service : Bytes) (c : Conn)
    → c.state ≡ state_handed_off
    → (query service c ≡ (c, err conn_handed_off))
      × (transport_any c ≡ (c, err conn_handed_off))
      × (sync c ≡ (c, err conn_handed_off))
unfolding query transport_any sync switch_service prepare prepare_at
handed_off_lem service c h = (
  ap (λ t. query_prepared service (prepare_at false c t c.nc)) h,
  ap (λ t. selected (switch_prepared svc_transport_any (prepare_at false c t c.nc))) h,
  ap (λ t. handed_off (switch_prepared svc_sync (prepare_at true c t c.nc))) h,
)

-- A spent connection is dialled again before its next query, which then runs as on a fresh one.
pub query_spent :
    (service : Bytes) (c : Conn) (s : Socket) (dials : List (Result WireError Socket))
    → c.state ≡ state_spent
    → c.dials ≡ ok s ∷ dials
    → query service c ≡ query service (fresh s dials c.retired)
unfolding query prepare prepare_at dial_server
query_spent service c s dials h e =
    ap (λ t. query_prepared service (prepare_at false c t c.nc)) h
    ∙ ap (λ t. query_prepared service (redialled c (dial_server t))) e
