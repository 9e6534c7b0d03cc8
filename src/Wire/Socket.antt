-- ===== src/Wire/Socket.antt =====
-- foundation/adbwire/framing.go: reads and writes on one socket, each under a deadline.
--
-- A socket holds what its peer is going to deliver, in order, how that stream ends, how many bytes
-- the transport still takes, and what was written. A context ends when a read wants more than is to
-- come, or a write more than there is room for. No error of this model tells which operation it is of,
-- and what `kill` attaches to an error, `ErrSyncSessionDead`, is in the session and not in the error.
use adb_broker.Prelude.{
  ℕ, ◌≡◌, ap, [], ◌∷◌, ◌++◌, leb, if◌then◌else◌, length, take, drop, Bytes, Result, ok, err, ◌-◌,
}

pub data Ending : Type 0 where
  closed expired broken : Ending

pub record Socket : Type 0 where
  pub incoming : Bytes
  pub ending : Ending
  pub room : ℕ
  pub sent : Bytes

-- What an error of the package says, the sentinels that it wraps included.
pub data WireError : Type 0 where
  no_reply cut_reply deadline_passed transport_failed : WireError
  path_has_nul path_too_long unknown_reply : WireError
  fail_message_too_long chunk_too_long name_too_long short_stat : WireError
  dev_overflow ino_overflow size_overflow : WireError
  device_fail : Bytes → Bytes → WireError
  callback_stopped destination_failed : WireError
  closed_by_caller session_dead : WireError
  service_too_long bad_status bad_length : WireError
  no_server dial_expired : WireError
  conn_closed conn_handed_off conn_not_dialled transport_selected nil_socket : WireError
  host_fail : Bytes → Bytes → WireError
  empty_serial bad_serial bad_version bad_device_line : WireError
  out_of_fuel : WireError

-- An action on the socket: the socket left behind, and a value or an error.
abbrev pub Io : Type 0 → Type 0
Io A = Socket → Socket × Result WireError A

-- How an action goes on from what another one gave.
abbrev pub go_on :
    {A B : Type 0} → (A → Io B) → Socket × Result WireError A → Socket × Result WireError B
go_on f (s, ok a) = f a s
go_on f (s, err e) = (s, err e)

infixl 5 ◌>>=◌ ◌>>◌
abbrev pub ◌>>=◌ : {A B : Type 0} → Io A → (A → Io B) → Io B
◌>>=◌ m f s = go_on f (m s)

abbrev pub ◌>>◌ : {B : Type 0} → Io (Unit {0}) → Io B → Io B
m >> k = m >>= λ _. k

-- A bind whose first action is known.
pub >>=_ok :
    {A B : Type 0} (m : Io A) (f : A → Io B) {s s' : Socket} {a : A}
    → m s ≡ (s', ok a)
    → (m >>= f) s ≡ f a s'
>>=_ok m f e = ap (go_on f) e

pub >>=_err :
    {A B : Type 0} (m : Io A) (f : A → Io B) {s s' : Socket} {x : WireError}
    → m s ≡ (s', err x)
    → (m >>= f) s ≡ (s', err x)
>>=_err m f e = ap (go_on f) e

abbrev pub pure : {A : Type 0} → A → Io A
pure a s = (s, ok a)

abbrev pub fail : {A : Type 0} → WireError → Io A
fail e s = (s, err e)

-- `wireErr` on what a read reports: `io.ReadFull` gives EOF if no byte came.
unfoldable pub wire_err : Ending → Bytes → WireError
wire_err closed [] = no_reply
wire_err closed (b ∷ bs) = cut_reply
wire_err expired bs = deadline_passed
wire_err broken bs = transport_failed

-- `readFull` into a buffer of `n` bytes.
unfoldable pub read_full : ℕ → Io Bytes
read_full n s =
    if leb n (length s.incoming)
    then (record s { incoming = drop n s.incoming }, ok (take n s.incoming))
    else (record s { incoming = [] }, err (wire_err s.ending s.incoming))

-- `wireErr` on what a write reports.
unfoldable pub write_err : Ending → WireError
write_err expired = deadline_passed
write_err closed = transport_failed
write_err broken = transport_failed

-- `nc.Write` takes what the transport has room for, and reports an error if that is not all.
unfoldable pub write_all : Bytes → Io (Unit {0})
write_all p s =
    if leb (length p) s.room
    then (record s { room = s.room - length p; sent = s.sent ++ p }, ok tt)
    else (record s { room = 0; sent = s.sent ++ take s.room p }, err (write_err s.ending))
