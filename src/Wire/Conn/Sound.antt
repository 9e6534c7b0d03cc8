-- ===== src/Wire/Conn/Sound.antt =====
-- foundation/adbwire/adbwire.go: the state of a connection and its socket, over any calls.
use adb_broker.Prelude.{
  ◌≡◌, refl, subst, Bool, true, false, Option, none, some, List, [], Bytes, bytes_eq, Result, ok,
  err,
}
use adb_broker.Wire.Socket.{Socket, WireError}
use adb_broker.Wire.Frames.{encode_host_request}
use adb_broker.Wire.Conn.{
  Conn, ConnState, state_fresh, state_spent, state_transport, state_handed_off, state_closed,
  svc_sync, svc_transport, svc_transport_any, dial_server, dialled, dial, close, spend, redialled,
  prepare_at, prepare, query_request, query_prepared, query, switch_exchange, switched,
  switch_request, switch_prepared, switch_service, selected, transport_any, check_serial,
  serial_checked, transport_serial, handed_off, sync,
}

-- A connection that is fresh or has a transport holds a socket, any other one holds none.
abbrev pub HoldsSocket : ConnState → Option Socket → Type 0
HoldsSocket state_fresh nc = (s : Socket) × (nc ≡ some s)
HoldsSocket state_transport nc = (s : Socket) × (nc ≡ some s)
HoldsSocket state_spent nc = nc ≡ none
HoldsSocket state_handed_off nc = nc ≡ none
HoldsSocket state_closed nc = nc ≡ none

abbrev pub IsSound : Conn → Type 0
IsSound c = HoldsSocket c.state c.nc

-- A connection that can be sent a request: it keeps its socket in a state that holds one.
abbrev IsReady : Conn → Type 0
IsReady c = (s : Socket) → HoldsSocket c.state (some s)

IsReady-fresh : (c : Conn) → c.state ≡ state_fresh → IsReady c
IsReady-fresh c e s = rw e (s, refl)

IsReady-transport : (c : Conn) → c.state ≡ state_transport → IsReady c
IsReady-transport c e s = rw e (s, refl)

-- One call on a connection, whatever it returns.
pub data Step (c : Conn) : Conn → Type 0 where
  step_query : (service : Bytes) → Step c (query service c).0
  step_transport_any : Step c (transport_any c).0
  step_transport_serial : (serial : Bytes) → Step c (transport_serial serial c).0
  step_sync : Step c (sync c).0
  step_close : Step c (close c)

-- What a caller can have: a connection from `Dial`, after any calls.
pub data Reached : Conn → Type 0 where
  reached_dial : (dials : List (Result WireError Socket)) (c : Conn) → dial dials ≡ ok c → Reached c
  reached_step : (c d : Conn) → Reached c → Step c d → Reached d

-- What `prepare` gives: an error, and a sound connection; or a socket, and a connection that may be sent
-- a request.
abbrev Prepared : Conn × Result WireError Socket → Type 0
Prepared (c, err e) = IsSound c
Prepared (c, ok s) = IsSound c × IsReady c

redialled-Prepared :
    (c : Conn) (d : Result WireError Socket × List (Result WireError Socket))
    → IsSound c
    → Prepared (redialled c d)
redialled-Prepared c (err e, rest) h = h
redialled-Prepared c (ok s, rest) h = ((s, refl), λ t. (t, refl))

prepare_at-Prepared :
    (allow : Bool) (c : Conn) (state : ConnState) (nc : Option Socket)
    → c.state ≡ state
    → IsSound c
    → HoldsSocket state nc
    → Prepared (prepare_at allow c state nc)
unfolding prepare_at
prepare_at-Prepared allow c state_closed nc e h k = h
prepare_at-Prepared allow c state_handed_off nc e h k = h
prepare_at-Prepared allow c state_fresh none e h k = h
prepare_at-Prepared allow c state_fresh (some s) e h k = (h, IsReady-fresh c e)
prepare_at-Prepared false c state_transport nc e h k = h
prepare_at-Prepared true c state_transport none e h k = h
prepare_at-Prepared true c state_transport (some s) e h k = (h, IsReady-transport c e)
prepare_at-Prepared allow c state_spent nc e h k = redialled-Prepared c (dial_server c.dials) h

prepare-Prepared : (allow : Bool) (c : Conn) → IsSound c → Prepared (prepare allow c)
unfolding prepare
prepare-Prepared allow c h = prepare_at-Prepared allow c c.state c.nc refl h h

query-IsSound : (service : Bytes) (c : Conn) → IsSound c → IsSound (query service c).0
unfolding query
query-IsSound service c h = after (prepare false c) (prepare-Prepared false c h)
  where
    asked :
        (d : Conn) (s : Socket) (r : Result WireError Bytes)
        → IsSound d
        → IsSound (query_request service d s r).0
    asked d s (err e) k = k
    asked d s (ok req) k = unfold spend in refl

    after : (p : Conn × Result WireError Socket) → Prepared p → IsSound (query_prepared service p).0
    after (d, err e) k = k
    after (d, ok s) (k, _) = asked d s (encode_host_request service) k

-- What a switch leaves: a sound connection, and after a success one that holds a socket.
abbrev Switched : Conn × Result WireError (Unit {0}) → Type 0
Switched (c, err e) = IsSound c
Switched (c, ok _) = IsSound c × ((s : Socket) × (c.nc ≡ some s))

switch-Switched : (service : Bytes) (c : Conn) → IsSound c → Switched (switch_service service c)
unfolding switch_service spend
switch-Switched service c h =
    after (prepare (bytes_eq service svc_sync) c) (prepare-Prepared (bytes_eq service svc_sync) c h)
  where
    left :
        (d : Conn) (r : Socket × Result WireError (Unit {0})) → IsReady d → Switched (switched d r)
    left d (s, err e) k = refl
    left d (s, ok _) k = (k s, (s, refl))

    asked :
        (d : Conn) (s : Socket) (r : Result WireError Bytes)
        → IsSound d
        → IsReady d
        → Switched (switch_request service d s r)
    asked d s (err e) k m = k
    asked d s (ok req) k m = left d (switch_exchange service req s) m

    after : (p : Conn × Result WireError Socket) → Prepared p → Switched (switch_prepared service p)
    after (d, err e) k = k
    after (d, ok s) (k, m) = asked d s (encode_host_request service) k m

selected-IsSound : (p : Conn × Result WireError (Unit {0})) → Switched p → IsSound (selected p).0
selected-IsSound (c, err e) h = h
selected-IsSound (c, ok _) (_, h) = h

handed_off-IsSound :
    (p : Conn × Result WireError (Unit {0})) → Switched p → IsSound (handed_off p).0
handed_off-IsSound (c, err e) h = h
handed_off-IsSound (c, ok _) h = refl

transport_serial-IsSound :
    (serial : Bytes) (c : Conn) → IsSound c → IsSound (transport_serial serial c).0
unfolding transport_serial
transport_serial-IsSound serial c h = after (check_serial serial)
  where
    after : (r : Result WireError (Unit {0})) → IsSound (serial_checked serial c r).0
    after (err e) = h
    after (ok _) =
        selected-IsSound (switch_service (svc_transport serial) c)
          (switch-Switched (svc_transport serial) c h)

Step-IsSound : (c d : Conn) → Step c d → IsSound c → IsSound d
unfolding transport_any sync close
Step-IsSound c _ (step_query service) h = query-IsSound service c h
Step-IsSound c _ step_transport_any h =
    selected-IsSound (switch_service svc_transport_any c) (switch-Switched svc_transport_any c h)
Step-IsSound c _ (step_transport_serial serial) h = transport_serial-IsSound serial c h
Step-IsSound c _ step_sync h =
    handed_off-IsSound (switch_service svc_sync c) (switch-Switched svc_sync c h)
Step-IsSound c _ step_close h = refl

dialled-IsSound :
    (d : Result WireError Socket × List (Result WireError Socket)) (c : Conn)
    → dialled d ≡ ok c
    → IsSound c
dialled-IsSound (err e, rest) c h = absurd (cc)
dialled-IsSound (ok s, rest) c h =
    let e : record { nc = some s; state = state_fresh; dials = rest; retired = [] } ≡ c = cc in
    subst IsSound e (s, refl)

-- Whatever calls are made on a connection that `Dial` gave, in any order and with any outcome, it holds a
-- socket exactly while it is fresh or has a transport selected: a spent, handed-over or closed connection
-- has let go of it.
pub Reached-IsSound : (c : Conn) → Reached c → IsSound c
unfolding dial
Reached-IsSound c (reached_dial dials _ e) = dialled-IsSound (dial_server dials) c e
Reached-IsSound c (reached_step b _ r s) = Step-IsSound b c s (Reached-IsSound b r)
