-- ===== src/Wire/Session/Framing.antt =====
-- Reading what a peer has written, and nothing behind it.
use adb_broker.Prelude.{
  ℕ, ◌%◌, ◌^◌, ◌≤◌, ◌≡◌, sym, ap, ◌∙◌, true, false, ◌++◌, append_assoc, arith, ltb, leb, length,
  take, length-append, take-length_append, drop-length_append, take_all, Bytes, contains_byte,
  bytes_eq_refl, Result, ok, err, ◌<◌, ◌-◌,
}
use adb_broker.Wire.Numbers.{le_value, uint32_at, le_bytes, length-le_bytes}
use adb_broker.Wire.Socket.{Socket, WireError, ◌>>=◌, >>=_ok, pure, read_full, write_all, write_err}
use adb_broker.Wire.Stat.{
  Stat, IsStat, stat_rest, length-stat_rest, decode_stat, decode_stat-stat_rest,
}
use adb_broker.Wire.Session.{
  finish, new_sync_conn, alive, stat_answer, header_of, sync_max_path, send_path, read_sync_header,
  lift, stat_exchange, stat_command,
}

-- The socket with these bytes still to come.
abbrev pub feed : Socket → Bytes → Socket
feed s bytes = record s { incoming = bytes }

pub read_full_lem :
    (n : ℕ) (s : Socket) (xs ys : Bytes)
    → length xs ≡ n
    → read_full n (feed s (xs ++ ys)) ≡ (feed s ys, ok xs)
unfolding read_full
read_full_lem n s xs ys e = rw (fits, take-length_append n xs ys e, drop-length_append n xs ys e)
  where
    fits : leb n (length (xs ++ ys)) ≡ true
    fits = ground (arith, length-append xs ys)

pub read_sync_header_lem :
    (s : Socket) (id arg rest : Bytes)
    → length id ≡ 4
    → length arg ≡ 4
    → read_sync_header (feed s (id ++ (arg ++ rest)))
      ≡ (feed s rest, ok (record { id = id; arg = le_value arg; arg_bytes = arg }))
unfolding read_sync_header uint32_at
read_sync_header_lem s id arg rest hi ha =
    ap (λ t. read_sync_header (feed s t)) (sym (append_assoc id arg rest))
    ∙ >>=_ok (read_full 8) (λ hdr. pure (header_of hdr))
        (read_full_lem 8 s (id ++ arg) rest (omega (arith, length-append id arg)))
    ∙ (λ i. (
      feed s rest,
      ok (record {
        id = take-length_append 4 id arg hi i;
        arg = argument i;
        arg_bytes = drop-length_append 4 id arg hi i;
      }),
    ))
  where
    argument : uint32_at (id ++ arg) 4 ≡ le_value arg
    argument =
        ap (λ t. le_value (take 4 t)) (drop-length_append 4 id arg hi)
        ∙ ap le_value (take_all 4 arg ha)

-- A path that a request can carry: no NUL byte, and short enough.
abbrev pub IsWirePath : Bytes → Type 0
IsWirePath path = (contains_byte 0 path ≡ false) × (length path ≤ sync_max_path)

-- The request on the wire.
unfoldable pub request : Bytes → Bytes → Bytes
request id path = id ++ (le_bytes 4 (length path) ++ path)

-- The socket after one more write.
abbrev pub wrote : Socket → Bytes → Socket
wrote s p = record s { room = s.room - length p; sent = s.sent ++ p }

-- The socket after a write that did not fit.
abbrev pub cut : Socket → Bytes → Socket
cut s p = record s { room = 0; sent = s.sent ++ take s.room p }

pub write_all_lem :
    (p : Bytes) (s : Socket) → length p ≤ s.room → write_all p s ≡ (wrote s p, ok tt)
unfolding write_all
write_all_lem p s h = rw fits
  where
    fits : leb (length p) s.room ≡ true
    fits = ground arith

write_all-cut :
    (p : Bytes) (s : Socket)
    → s.room < length p
    → write_all p s ≡ (cut s p, err (write_err s.ending))
unfolding write_all
write_all-cut p s h = rw fits
  where
    fits : leb (length p) s.room ≡ false
    fits = ground arith

send_path-request :
    (id path : Bytes) (s : Socket)
    → IsWirePath path
    → send_path id path s ≡ write_all (request id path) s
unfolding send_path request
send_path-request id path s (no_zero, short) = rw (no_zero, long, whole)
  where
    long : ltb sync_max_path (length path) ≡ false
    long = ground arith

    whole : length path % 2 ^ 32 ≡ length path
    whole = omega arith

pub send_path_lem :
    (id path : Bytes) (s : Socket)
    → IsWirePath path
    → length (request id path) ≤ s.room
    → send_path id path s ≡ (wrote s (request id path), ok tt)
send_path_lem id path s p h = send_path-request id path s p ∙ write_all_lem (request id path) s h

pub send_path-cut :
    (id path : Bytes) (s : Socket)
    → IsWirePath path
    → s.room < length (request id path)
    → send_path id path s ≡ (cut s (request id path), err (write_err s.ending))
send_path-cut id path s p h = send_path-request id path s p ∙ write_all-cut (request id path) s h

-- A stat reply is read to its end and no further.
stat_answer_lem :
    (id : Bytes) (s : Socket) (st : Stat) (rest : Bytes)
    → IsStat st
    → stat_answer id
        (record { id = id; arg = le_value (le_bytes 4 st.errno); arg_bytes = le_bytes 4 st.errno })
        (feed s (stat_rest st ++ rest))
      ≡ (feed s rest, ok st)
unfolding stat_answer
stat_answer_lem id s st rest fits = rw (bytes_eq_refl id) (
    >>=_ok (read_full 64) (λ body. lift (decode_stat (le_bytes 4 st.errno) body))
      (read_full_lem 64 s (stat_rest st) rest (length-stat_rest st))
    ∙ ap (λ (r : Result WireError Stat). lift r (feed s rest)) (decode_stat-stat_rest st fits))

stat_exchange_lem :
    (id path : Bytes) (s : Socket) (st : Stat) (rest : Bytes)
    → IsWirePath path
    → length id ≡ 4
    → length (request id path) ≤ s.room
    → IsStat st
    → stat_exchange id path (feed s (id ++ (le_bytes 4 st.errno ++ (stat_rest st ++ rest))))
      ≡ (feed (wrote s (request id path)) rest, ok st)
unfolding stat_exchange
stat_exchange_lem id path s st rest p e w fits =
    >>=_ok (send_path id path) (λ _. read_sync_header >>= stat_answer id)
      (send_path_lem id path _ p w)
    ∙ >>=_ok read_sync_header (stat_answer id) (
        read_sync_header_lem (wrote s (request id path)) id (le_bytes 4 st.errno)
          (stat_rest st ++ rest) e (length-le_bytes 4 st.errno))
    ∙ stat_answer_lem id (wrote s (request id path)) st rest fits

-- On a live session whose peer answers a stat request with a stat, the command returns that stat;
-- it has written the request, its length prefix that of the path, and read the reply to its end, so
-- what the peer sends next is still there for the next command.
pub stat_command_lem :
    (id path : Bytes) (s : Socket) (st : Stat) (rest : Bytes)
    → IsWirePath path
    → length id ≡ 4
    → length (request id path) ≤ s.room
    → IsStat st
    → stat_command id path
        (new_sync_conn (feed s (id ++ (le_bytes 4 st.errno ++ (stat_rest st ++ rest)))))
      ≡ (new_sync_conn (feed (wrote s (request id path)) rest), ok st)
unfolding stat_command alive
stat_command_lem id path s st rest p e w fits =
    ap (finish (new_sync_conn (feed s (id ++ (le_bytes 4 st.errno ++ (stat_rest st ++ rest))))))
      (stat_exchange_lem id path s st rest p e w fits)
