-- ===== src/Wire/Listing/Framing.antt =====
-- foundation/adbwire/sync.go: `List` of a listing that a device sends.
use adb_broker.Prelude.{
  ℕ, zero, suc, ◌≤◌, ◌<◌, ◌≡◌, refl, sym, ap, ◌∙◌, Bool, false, none, some, List, [], ◌∷◌, ◌++◌,
  append_assoc, arith, ltb, length, take, length-append, take-length_append, take_all,
  drop-length_append, All, Bytes, Result, ok,
}
use adb_broker.Wire.Numbers.{le_value, uint32_at, le_bytes, length-le_bytes, le_value-le_bytes}
use adb_broker.Wire.Socket.{Socket, WireError, >>=_ok, pure, read_full}
use adb_broker.Wire.Stat.{
  Stat, IsStat, stat_rest, length-stat_rest, decode_stat, decode_stat-stat_rest,
}
use adb_broker.Wire.Session.{new_sync_conn, alive, read_sync_header, lift}
use adb_broker.Wire.Session.Framing.{
  feed, read_full_lem, read_sync_header_lem, IsWirePath, request, wrote, send_path_lem,
}
use adb_broker.Wire.Listing.{
  Dirent, sync_list, sync_dent, sync_done, sync_max_name, read_name, dirent_of_body, read_dirent,
  list_answer, list_round, list_turn, list_loop, settle, list_sent, list,
}

-- One entry on the wire, with what the device sends behind it.
pub dirent_wire : Dirent → Bytes → Bytes
dirent_wire d rest =
    sync_dent
    ++ (le_bytes 4 d.status.errno
        ++ (stat_rest d.status ++ (le_bytes 4 (length d.name) ++ (d.name ++ rest))))

-- The entries, then DONE with its argument and its dirent body, then what follows.
pub listing_wire : List Dirent → Bytes → Bytes → Bytes → Bytes
listing_wire [] arg body rest = sync_done ++ (arg ++ (body ++ rest))
listing_wire (d ∷ ds) arg body rest = dirent_wire d (listing_wire ds arg body rest)

pub record IsDirent (d : Dirent) : Type 0 where
  pub status_fits : IsStat d.status
  pub name_fits : length d.name ≤ sync_max_name

read_name_lem :
    (st : Stat) (name rest : Bytes) (s : Socket)
    → length name ≤ sync_max_name
    → read_name st (length name) (feed s (name ++ rest))
      ≡ (feed s rest, ok (record { status = st; name = name }))
unfolding read_name
read_name_lem st name rest s h = rw short (
    >>=_ok (read_full (length name)) (λ n. pure (record { status = st; name = n }))
      (read_full_lem (length name) s name rest refl))
  where
    short : ltb sync_max_name (length name) ≡ false
    short = ground arith

read_dirent_lem :
    (d : Dirent) (rest : Bytes) (s : Socket)
    → IsDirent d
    → read_dirent
        (le_bytes 4 d.status.errno)
        (feed s (stat_rest d.status ++ (le_bytes 4 (length d.name) ++ (d.name ++ rest))))
      ≡ (feed s rest, ok d)
unfolding read_dirent uint32_at
read_dirent_lem d rest s h =
    ap (λ t. read_dirent (le_bytes 4 d.status.errno) (feed s t))
      (sym (append_assoc (stat_rest d.status) len (d.name ++ rest)))
    ∙ >>=_ok (read_full 68) (dirent_of_body (le_bytes 4 d.status.errno))
        (read_full_lem 68 s body (d.name ++ rest) sized)
    ∙ >>=_ok (lift (decode_stat errno_field (take 64 body)))
        (λ st. read_name st (uint32_at body 64))
        (ap (λ t. lift (decode_stat errno_field t) (feed s (d.name ++ rest)))
            (take-length_append 64 (stat_rest d.status) len (length-stat_rest d.status))
          ∙ ap (λ (r : Result WireError Stat). lift r (feed s (d.name ++ rest)))
              (decode_stat-stat_rest d.status h.status_fits))
    ∙ ap (λ n. read_name d.status n (feed s (d.name ++ rest))) name_len
    ∙ read_name_lem d.status d.name rest s h.name_fits
  where
    errno_field : Bytes
    errno_field = le_bytes 4 d.status.errno

    len : Bytes
    len = le_bytes 4 (length d.name)

    body : Bytes
    body = stat_rest d.status ++ len

    sized : length body ≡ 68
    sized = omega (
      arith,
      length-append (stat_rest d.status) len,
      length-stat_rest d.status,
      length-le_bytes 4 (length d.name),
    )

    name_len : uint32_at body 64 ≡ length d.name
    name_len =
        ap (λ t. le_value (take 4 t))
          (drop-length_append 64 (stat_rest d.status) len (length-stat_rest d.status))
        ∙ ap le_value (take_all 4 len (length-le_bytes 4 (length d.name)))
        ∙ le_value-le_bytes 4 (length d.name) (omega arith)

round_dirent :
    (d : Dirent) (rest : Bytes) (s : Socket)
    → IsDirent d
    → list_round (feed s (dirent_wire d rest)) ≡ (feed s rest, ok (some d))
unfolding list_round list_answer dirent_wire
round_dirent d rest s h =
    >>=_ok read_sync_header list_answer (
      read_sync_header_lem s sync_dent (le_bytes 4 d.status.errno) _ refl
        (length-le_bytes 4 d.status.errno))
    ∙ >>=_ok (read_dirent (le_bytes 4 d.status.errno)) (λ e. pure (some e))
        (read_dirent_lem d rest s h)

round_done :
    (arg body rest : Bytes) (s : Socket)
    → length arg ≡ 4
    → length body ≡ 68
    → list_round (feed s (sync_done ++ (arg ++ (body ++ rest)))) ≡ (feed s rest, ok none)
unfolding list_round list_answer
round_done arg body rest s ha hb =
    >>=_ok read_sync_header list_answer
      (read_sync_header_lem s sync_done arg (body ++ rest) refl ha)
    ∙ >>=_ok (read_full 68) (λ _. pure none) (read_full_lem 68 s body rest hb)

module _ {S : Type 0} (fn : S → Dirent → S × Bool) where
  -- The callback at each entry in turn, as long as it returns no error.
  pub deliver : S → List Dirent → S
  deliver a [] = a
  deliver a (d ∷ ds) = deliver (fn a d).0 ds

  abbrev pub Accepts : S → List Dirent → Type 0
  Accepts a [] = Unit
  Accepts a (d ∷ ds) = ((fn a d).1 ≡ false) × Accepts (fn a d).0 ds

  list_loop_lem :
      (fuel : ℕ) (a : S) (ds : List Dirent) (arg body rest : Bytes) (s : Socket)
      → length ds < fuel
      → All IsDirent ds
      → Accepts a ds
      → length arg ≡ 4
      → length body ≡ 68
      → list_loop fn fuel a (feed s (listing_wire ds arg body rest))
        ≡ (feed s rest, deliver a ds, ok tt)
  unfolding list_loop listing_wire deliver
  list_loop_lem zero a ds arg body rest s f h k ha hb = absurd (omega arith)
  list_loop_lem (suc fuel) a [] arg body rest s f h k ha hb =
      ap (list_turn fn (list_loop fn fuel) a) (round_done arg body rest s ha hb)
  list_loop_lem (suc fuel) a (d ∷ ds) arg body rest s f (hd, h) (kd, k) ha hb =
      ap (list_turn fn (list_loop fn fuel) a) (round_dirent d (listing_wire ds arg body rest) s hd)
      ∙ rw (kd, list_turn)
          (list_loop_lem fuel (fn a d).0 ds arg body rest s (omega arith) h k ha hb)

length-listing_wire :
    (ds : List Dirent) (arg body rest : Bytes) → length ds ≤ length (listing_wire ds arg body rest)
unfolding listing_wire dirent_wire
length-listing_wire [] arg body rest = omega arith
length-listing_wire (d ∷ ds) arg body rest =
    let tail = listing_wire ds arg body rest in
    let named = d.name ++ tail in
    let sized = le_bytes 4 (length d.name) ++ named in
    omega (
      arith,
      length-listing_wire ds arg body rest,
      length-append d.name tail,
      length-append (le_bytes 4 (length d.name)) named,
      length-append (stat_rest d.status) sized,
      length-append (le_bytes 4 d.status.errno) (stat_rest d.status ++ sized),
    )

module _ {S : Type 0} (fn : S → Dirent → S × Bool) where
  -- On a live session whose peer answers with entries, and a DONE with its whole dirent body, and
  -- with a callback that takes them, `List` hands over every entry once, in order, and reads the
  -- listing to its end: the session stays usable and what the peer sends next is still there.
  pub list_lem :
      (path : Bytes) (a : S) (ds : List Dirent) (arg body rest : Bytes) (s : Socket)
      → IsWirePath path
      → length (request sync_list path) ≤ s.room
      → All IsDirent ds
      → Accepts fn a ds
      → length arg ≡ 4
      → length body ≡ 68
      → list fn path a (new_sync_conn (feed s (listing_wire ds arg body rest)))
        ≡ (new_sync_conn (feed (wrote s (request sync_list path)) rest), deliver fn a ds, ok tt)
  unfolding list alive
  list_lem path a ds arg body rest s p w h acc ha hb =
      let replies = listing_wire ds arg body rest in
      let enough : length ds < suc (length replies) =
        omega (arith, length-listing_wire ds arg body rest) in
      ap (list_sent fn (new_sync_conn (feed s replies)) a)
        (send_path_lem sync_list path (feed s replies) p w)
      ∙ ap (settle fn (new_sync_conn (feed s replies))) (
          list_loop_lem fn (suc (length replies)) a ds arg body rest
            (wrote s (request sync_list path)) enough h acc ha hb)
