-- ===== src/Wire/Session.antt =====
-- foundation/adbwire/sync.go: a sync session, its requests, and the two stat commands.
pub mod Framing
pub mod Fuel
pub mod Alive
use adb_broker.Prelude.{
  ℕ, zero, suc, ◌+◌, ◌-◌, ◌*◌, ◌/◌, ◌%◌, ◌^◌, ◌≤◌, ◌<◌, min, max, bit_and, ◌≡◌, refl, sym, ap, ap₂,
  ◌∙◌, subst, ◌≢◌, ◌↔◌, ◌⊎◌, inl, inr, Bool, true, false, ◌&&◌, ◌||◌, not, Option, none, some, List,
  [], ◌∷◌, ◌++◌, append_assoc, append-nil, arith, ltb, leb, ◌==◌, if◌then◌else◌, ==_iff, ==_refl,
  Bool-cases, Option-cases, and_true, length, take, drop, get_elem?, replicate, length-append,
  length-take, length-drop, length-replicate, take-append-drop, take-length_append,
  drop-length_append, drop_at, get_elem?-append_length, All, All-append, All-append_left,
  All-append_right, Any, Any-map, All-map, All-Any, Bytes, codes, bytes_eq, contains_byte,
  has_prefix, bytes_lt, bytes_eq_refl, eq_of_bytes_eq, bytes_eq_iff, Result, ok, err, Result-cases,
}
use adb_broker.Wire.Numbers.{le_value, uint32_at, le_bytes}
use adb_broker.Wire.Socket.{
  Socket, WireError, path_has_nul, path_too_long, unknown_reply, fail_message_too_long, device_fail,
  closed_by_caller, session_dead, Io, ◌>>=◌, ◌>>◌, pure, fail, read_full, write_all,
}
use adb_broker.Wire.Stat.{Stat, stat_rest_len, decode_stat}

abbrev pub sync_lstat : Bytes
sync_lstat = codes "LST2"

abbrev pub sync_stat : Bytes
sync_stat = codes "STA2"

abbrev pub sync_fail : Bytes
sync_fail = codes "FAIL"

abbrev pub sync_max_path : ℕ
sync_max_path = 4096

abbrev pub sync_max_fail_message : ℕ
sync_max_fail_message = 4096

-- `nc` is none once the socket is closed; `dead` holds why the session is unusable.
pub record SyncConn : Type 0 where
  pub nc : Option Socket
  pub dead : Option WireError

abbrev pub new_sync_conn : Socket → SyncConn
new_sync_conn s = record { nc = some s; dead = none }

-- The first reason is kept.
abbrev pub first_reason : Option WireError → WireError → WireError
first_reason none e = e
first_reason (some d) e = d

unfoldable pub close : SyncConn → SyncConn
close c = record { nc = none; dead = some (first_reason c.dead closed_by_caller) }

-- `alive`, with the socket that the caller goes on with.
unfoldable pub alive : SyncConn → Result WireError Socket
alive c = elim c.dead [
  | some d ↦ err session_dead
  | none ↦ elim c.nc [ none ↦ err session_dead | some s ↦ ok s ]
]

unfoldable pub kill : SyncConn → WireError → SyncConn
kill c e = record { nc = none; dead = some (first_reason c.dead e) }

unfoldable pub send_path : Bytes → Bytes → Io (Unit {0})
send_path id path =
    if contains_byte 0 path
    then fail path_has_nul
    else if ltb sync_max_path (length path)
    then fail path_too_long
    else write_all (id ++ (le_bytes 4 (length path % 2 ^ 32) ++ path))

-- A reply's four-byte ID, its argument, and the bytes of the argument.
pub record SyncHeader : Type 0 where
  pub id : Bytes
  pub arg : ℕ
  pub arg_bytes : Bytes

abbrev pub header_of : Bytes → SyncHeader
header_of hdr = record { id = take 4 hdr; arg = uint32_at hdr 4; arg_bytes = drop 4 hdr }

unfoldable pub read_sync_header : Io SyncHeader
read_sync_header = do hdr ← read_full 8; pure (header_of hdr)

unfoldable pub read_fail_message : ℕ → Io Bytes
read_fail_message n =
    if ltb sync_max_fail_message n then fail fail_message_too_long else read_full n

-- A pure result as an action.
abbrev pub lift : {A : Type 0} → Result WireError A → Io A
lift (ok a) s = (s, ok a)
lift (err e) s = (s, err e)

-- The FAIL branch of every command: the message is read and the command fails with it.
unfoldable pub fail_reply : {A : Type 0} → Bytes → ℕ → Io A
fail_reply service n = do msg ← read_fail_message n; fail (device_fail service msg)

-- The switch of `statCommand` on the reply's ID.
unfoldable pub stat_answer : Bytes → SyncHeader → Io Stat
stat_answer id h =
    if bytes_eq h.id id
    then (read_full stat_rest_len >>= λ rest. lift (decode_stat h.arg_bytes rest))
    else if bytes_eq h.id sync_fail
    then fail_reply id h.arg
    else fail unknown_reply

-- What `statCommand` does between `alive` and its return.
unfoldable pub stat_exchange : Bytes → Bytes → Io Stat
stat_exchange id path = do send_path id path; h ← read_sync_header; stat_answer id h

-- What an exchange leaves of the session: every error of it goes through `kill`.
abbrev pub finish :
    {A : Type 0} → SyncConn → Socket × Result WireError A → SyncConn × Result WireError A
finish c (s, ok a) = (record c { nc = some s }, ok a)
finish c (s, err e) = (kill c e, err e)

-- A command runs its exchange on a live session only.
abbrev pub run_alive :
    {A : Type 0} → Io A → SyncConn → Result WireError Socket → SyncConn × Result WireError A
run_alive m c (err e) = (c, err e)
run_alive m c (ok s) = finish c (m s)

abbrev pub run : {A : Type 0} → Io A → SyncConn → SyncConn × Result WireError A
run m c = run_alive m c (alive c)

unfoldable pub stat_command : Bytes → Bytes → SyncConn → SyncConn × Result WireError Stat
stat_command id path = run (stat_exchange id path)

unfoldable pub lstat : Bytes → SyncConn → SyncConn × Result WireError Stat
lstat = stat_command sync_lstat

unfoldable pub stat : Bytes → SyncConn → SyncConn × Result WireError Stat
stat = stat_command sync_stat
