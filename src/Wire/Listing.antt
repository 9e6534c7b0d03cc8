-- ===== src/Wire/Listing.antt =====
-- foundation/adbwire/sync.go: `List`, one directory level streamed to a callback.
pub mod Framing
pub mod Fuel
use adb_broker.Prelude.{
  ℕ, zero, suc, ◌+◌, ◌-◌, ◌*◌, ◌/◌, ◌%◌, ◌^◌, ◌≤◌, ◌<◌, min, max, bit_and, ◌≡◌, refl, sym, ap, ap₂,
  ◌∙◌, subst, ◌≢◌, ◌↔◌, ◌⊎◌, inl, inr, Bool, true, false, ◌&&◌, ◌||◌, not, Option, none, some, List,
  [], ◌∷◌, ◌++◌, append_assoc, append-nil, arith, ltb, leb, ◌==◌, if◌then◌else◌, ==_iff, ==_refl,
  Bool-cases, Option-cases, and_true, length, take, drop, get_elem?, replicate, length-append,
  length-take, length-drop, length-replicate, take-append-drop, take-length_append,
  drop-length_append, drop_at, get_elem?-append_length, All, All-append, All-append_left,
  All-append_right, Any, Any-map, All-map, All-Any, Bytes, codes, bytes_eq, contains_byte,
  has_prefix, bytes_lt, bytes_eq_refl, eq_of_bytes_eq, bytes_eq_iff, Result, ok, err, Result-cases,
}
use adb_broker.Wire.Numbers.{uint32_at}
use adb_broker.Wire.Socket.{
  Socket, WireError, unknown_reply, name_too_long, callback_stopped, out_of_fuel, Io, ◌>>=◌, pure,
  fail, read_full,
}
use adb_broker.Wire.Stat.{Stat, decode_stat}
use adb_broker.Wire.Session.{
  SyncConn, SyncHeader, sync_fail, alive, kill, send_path, read_sync_header, lift, fail_reply,
}

abbrev pub sync_list : Bytes
sync_list = codes "LIS2"

abbrev pub sync_dent : Bytes
sync_dent = codes "DNT2"

abbrev pub sync_done : Bytes
sync_done = codes "DONE"

-- What follows the header of a DNT2 or a DONE: 64 bytes of stat and the length of the name.
abbrev pub dent_body_len : ℕ
dent_body_len = 68

abbrev pub sync_max_name : ℕ
sync_max_name = 4096

pub record Dirent : Type 0 where
  pub status : Stat
  pub name : Bytes

-- The name of an entry, once the rest of it is read.
unfoldable pub read_name : Stat → ℕ → Io Dirent
read_name st name_len =
    if ltb sync_max_name name_len
    then fail name_too_long
    else (read_full name_len >>= λ name. pure (record { status = st; name = name }))

-- The DNT2 branch up to the call of the callback.
abbrev pub dirent_of_body : Bytes → Bytes → Io Dirent
dirent_of_body errno_field body = do
  st ← lift (decode_stat errno_field (take 64 body))
  read_name st (uint32_at body 64)

unfoldable pub read_dirent : Bytes → Io Dirent
read_dirent errno_field = do body ← read_full dent_body_len; dirent_of_body errno_field body

-- The switch of `List` on the reply's ID; no entry means that the listing has ended.
unfoldable pub list_answer : SyncHeader → Io (Option Dirent)
list_answer h =
    if bytes_eq h.id sync_done
    then (read_full dent_body_len >>= λ _. pure none)
    else if bytes_eq h.id sync_dent
    then (read_dirent h.arg_bytes >>= λ d. pure (some d))
    else if bytes_eq h.id sync_fail
    then fail_reply sync_list h.arg
    else fail unknown_reply

-- One round of the loop up to the callback.
unfoldable pub list_round : Io (Option Dirent)
list_round = do h ← read_sync_header; list_answer h

-- The callback is a function of the caller's state; `true` is an error that it returns.
module _ {S : Type 0} (fn : S → Dirent → S × Bool) where
  -- What one round does with what it read; `next` is the round after it.
  abbrev pub list_turn :
      (S → Socket → Socket × S × Result WireError (Unit {0}))
      → S
      → Socket × Result WireError (Option Dirent)
      → Socket × S × Result WireError (Unit {0})
  list_turn next a (s, err e) = (s, a, err e)
  list_turn next a (s, ok none) = (s, a, ok tt)
  list_turn next a (s, ok (some d)) =
      let (a', stop) = fn a d in
      elim stop [ true ↦ (s, a', err callback_stopped) | false ↦ next a' s ]

  unfoldable pub list_loop : ℕ → S → Socket → Socket × S × Result WireError (Unit {0})
  list_loop zero a s = (s, a, err out_of_fuel)
  list_loop (suc fuel) a s = list_turn (list_loop fuel) a (list_round s)

  -- What the loop leaves: the session is killed on an error.
  abbrev pub settle :
      SyncConn
      → Socket × S × Result WireError (Unit {0})
      → SyncConn × S × Result WireError (Unit {0})
  settle c (s, a, ok t) = (record c { nc = some s }, a, ok t)
  settle c (s, a, err e) = (kill c e, a, err e)

  -- Each round takes at least the eight bytes of a header, so the bytes to come are fuel enough.
  abbrev pub list_sent :
      SyncConn
      → S
      → Socket × Result WireError (Unit {0})
      → SyncConn × S × Result WireError (Unit {0})
  list_sent c a (s, err e) = (kill c e, a, err e)
  list_sent c a (s, ok _) = settle c (list_loop (suc (length s.incoming)) a s)

  abbrev pub list_alive :
      Bytes → S → SyncConn → Result WireError Socket → SyncConn × S × Result WireError (Unit {0})
  list_alive path a c (err e) = (c, a, err e)
  list_alive path a c (ok s) = list_sent c a (send_path sync_list path s)

  unfoldable pub list : Bytes → S → SyncConn → SyncConn × S × Result WireError (Unit {0})
  list path a c = list_alive path a c (alive c)
