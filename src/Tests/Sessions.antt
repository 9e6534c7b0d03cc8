-- ===== src/Tests/Sessions.antt =====
-- foundation/adbwire/sync.go at concrete sessions.
use adb_broker.Prelude.{
  ℕ, ◌+◌, ◌≡◌, refl, Bool, false, none, some, List, [], ◌∷◌, ◌++◌, arith, ltb, length, replicate,
  Bytes, codes, ok, err,
}
use adb_broker.Wire.Numbers.{pos, negsuc, le_bytes, uint32_at}
use adb_broker.Wire.Socket.{
  closed, Socket, session_dead, no_reply, chunk_too_long, closed_by_caller, read_full, wire_err,
  write_all,
}
use adb_broker.Wire.Stat.{Stat, IsStat, stat_rest, decode_stat, decode_stat-stat_rest}
use adb_broker.Wire.Session.{
  SyncConn, new_sync_conn, sync_stat, alive, kill, send_path, read_sync_header, stat_exchange,
  stat_command,
}
use adb_broker.Wire.Session.Framing.{feed, wrote, request, IsWirePath, stat_command_lem}
use adb_broker.Wire.Session.Alive.{IsSettled}
use adb_broker.Wire.Listing.{Dirent, sync_list, list}
use adb_broker.Wire.Listing.Framing.{listing_wire, deliver, list_lem}
use adb_broker.Wire.Listing.Fuel.{list-IsSettled}
use adb_broker.Wire.Transfer.{sync_recv, recv, recv_loop, recv_round, recv_answer, read_chunk}
use adb_broker.Wire.Transfer.Framing.{transfer_wire, store, size_of, recv_lem}
use adb_broker.Wire.Transfer.Fuel.{recv-IsSettled}

abbrev photo : Bytes
photo = codes "/sdcard/DCIM/a.jpg"

-- A regular file of 70000 bytes, last read before 1970.
abbrev photo_stat : Stat
photo_stat = record {
  errno = 0;
  dev = 65;
  ino = 4660;
  mode = 33200;
  nlink = 1;
  uid = 1023;
  gid = 1023;
  size = 70000;
  atime = negsuc 4;
  mtime = pos 1700000000;
  ctime = pos 1700000001;
}

photo_stat-IsStat : IsStat photo_stat
photo_stat-IsStat = record {
  errno_fits = omega arith;
  dev_fits = omega arith;
  ino_fits = omega arith;
  mode_fits = omega arith;
  nlink_fits = omega arith;
  uid_fits = omega arith;
  gid_fits = omega arith;
  size_fits = omega arith;
  atime_fits = omega arith;
  mtime_fits = omega arith;
  ctime_fits = omega arith;
}

decode_stat-stat_rest_example : decode_stat (le_bytes 4 0) (stat_rest photo_stat) ≡ ok photo_stat
decode_stat-stat_rest_example = decode_stat-stat_rest photo_stat photo_stat-IsStat

-- A device whose transport takes a hundred bytes more.
abbrev idle : Socket
idle = record { incoming = []; ending = closed; room = 100; sent = [] }

photo-IsWirePath : IsWirePath photo
photo-IsWirePath = (refl, omega arith)

abbrev later : Bytes
later = codes "later"

stat_command_lem_example :
    stat_command sync_stat photo
      (new_sync_conn (feed idle (sync_stat ++ (le_bytes 4 0 ++ (stat_rest photo_stat ++ later)))))
    ≡ (new_sync_conn (feed (wrote idle (request sync_stat photo)) later), ok photo_stat)
unfolding request le_bytes
stat_command_lem_example =
    stat_command_lem sync_stat photo idle photo_stat later photo-IsWirePath refl (omega arith)
      photo_stat-IsStat

abbrev photo_entry : Dirent
photo_entry = record { status = photo_stat; name = codes "a.jpg" }

-- A callback that keeps the names and stops at the third.
abbrev keep_names : List Bytes → Dirent → List Bytes × Bool
keep_names names d = (names ++ (d.name ∷ []), ltb 2 (length names + 1))

list_lem_example :
    list keep_names photo [] (
      new_sync_conn (
        feed idle
          (listing_wire (photo_entry ∷ photo_entry ∷ []) (le_bytes 4 0) (replicate 68 0) later)))
    ≡ (
      new_sync_conn (feed (wrote idle (request sync_list photo)) later),
      deliver keep_names [] (photo_entry ∷ photo_entry ∷ []),
      ok tt,
    )
unfolding request le_bytes
list_lem_example =
    list_lem keep_names photo [] (photo_entry ∷ photo_entry ∷ []) (le_bytes 4 0) (replicate 68 0)
      later idle photo-IsWirePath (omega arith)
      (
        record { status_fits = photo_stat-IsStat; name_fits = omega arith },
        (record { status_fits = photo_stat-IsStat; name_fits = omega arith }, tt),
      )
      (refl, (refl, tt)) refl refl

-- A writer that keeps every byte.
abbrev keep_bytes : Bytes → Bytes → Bytes × ℕ × Bool
keep_bytes held chunk = (held ++ chunk, length chunk, false)

recv_lem_example :
    recv keep_bytes photo []
      (new_sync_conn (feed idle (transfer_wire (codes "ab" ∷ codes "c" ∷ []) (le_bytes 4 0) later)))
    ≡ (
      new_sync_conn (feed (wrote idle (request sync_recv photo)) later),
      store keep_bytes [] (codes "ab" ∷ codes "c" ∷ []),
      size_of (codes "ab" ∷ codes "c" ∷ []),
      ok tt,
    )
unfolding request le_bytes
recv_lem_example =
    recv_lem keep_bytes photo [] (codes "ab" ∷ codes "c" ∷ []) (le_bytes 4 0) later idle
      photo-IsWirePath (omega arith) (omega arith, (omega arith, tt)) (refl, refl, (refl, refl, tt))
      refl

recv_stored : store keep_bytes [] (codes "ab" ∷ codes "c" ∷ []) ≡ codes "abc"
unfolding store
recv_stored = refl

-- A chunk that announces more than 64 KiB is refused before its buffer is made.
recv_hostile_chunk :
    recv keep_bytes photo [] (new_sync_conn (feed idle (codes "DATA" ++ le_bytes 4 65537)))
    ≡ (record { nc = none; dead = some chunk_too_long }, [], 0, err chunk_too_long)
unfolding recv alive send_path write_all recv_loop recv_round recv_answer read_chunk
    read_sync_header read_full kill le_bytes uint32_at
recv_hostile_chunk = refl

-- A device that hangs up after the request.
abbrev hung_up : SyncConn
hung_up = new_sync_conn idle

stat_hung_up :
    stat_command sync_stat photo hung_up
    ≡ (record { nc = none; dead = some no_reply }, err no_reply)
unfolding stat_command alive stat_exchange send_path write_all read_sync_header read_full wire_err
    kill le_bytes
stat_hung_up = refl

abbrev closed_session : SyncConn
closed_session = record { nc = none; dead = some closed_by_caller }

closed-alive : alive closed_session ≡ err session_dead
unfolding alive
closed-alive = refl

list-IsSettled_example :
    IsSettled (list keep_names photo [] hung_up).0 (list keep_names photo [] hung_up).2
list-IsSettled_example = list-IsSettled keep_names photo [] hung_up

recv-IsSettled_example :
    IsSettled (recv keep_bytes photo [] hung_up).0 (recv keep_bytes photo [] hung_up).3
recv-IsSettled_example = recv-IsSettled keep_bytes photo [] hung_up
