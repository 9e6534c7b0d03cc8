-- ===== src/Wire/Transfer.antt =====
-- foundation/adbwire/sync.go: `Recv`, a file's contents streamed to a writer.
pub mod Framing
pub mod Fuel
use adb_broker.Prelude.{
  ℕ, zero, suc, ◌+◌, ◌-◌, ◌*◌, ◌/◌, ◌%◌, ◌^◌, ◌≤◌, ◌<◌, min, max, bit_and, ◌≡◌, refl, sym, ap, ap₂,
  ◌∙◌, subst, ◌≢◌, ◌↔◌, ◌⊎◌, inl, inr, Bool, true, false, ◌&&◌, ◌||◌, not, Option, none, some, List,
  [], ◌∷◌, ◌++◌, append_assoc, append-nil, arith, ltb, leb, ◌==◌, if◌then◌else◌, ==_iff, ==_refl,
  Bool-cases, Option-cases, and_true, length, take, drop, get_elem?, replicate, length-append,
  length-take, length-drop, length-replicate, take-append-drop, take-length_append,
  drop-length_append, drop_at, get_elem?-append_length, All, All-append, All-append_left,
  All-append_right, Any, Any-map, All-map, All-Any, Bytes, codes, bytes_eq, contains_byte,
  has_prefix, bytes_lt, bytes_eq_refl, eq_of_bytes_eq, bytes_eq_iff, Result, ok, err, Result-cases,
}
use adb_broker.Wire.Socket.{
  Socket, WireError, unknown_reply, chunk_too_long, destination_failed, out_of_fuel, Io, ◌>>=◌,
  pure, fail, read_full,
}
use adb_broker.Wire.Session.{
  SyncConn, SyncHeader, sync_fail, alive, kill, send_path, read_sync_header, fail_reply,
}
use adb_broker.Wire.Listing.{sync_done}

abbrev pub sync_recv : Bytes
sync_recv = codes "RECV"

abbrev pub sync_data : Bytes
sync_data = codes "DATA"

abbrev pub sync_max_chunk : ℕ
sync_max_chunk = 65536

-- The DATA branch up to the write.
unfoldable pub read_chunk : ℕ → Io (Option Bytes)
read_chunk n =
    if ltb sync_max_chunk n
    then fail chunk_too_long
    else (read_full n >>= λ chunk. pure (some chunk))

-- The switch of `Recv` on the reply's ID; no chunk means that the transfer has ended.
unfoldable pub recv_answer : SyncHeader → Io (Option Bytes)
recv_answer h =
    if bytes_eq h.id sync_done
    then pure none
    else if bytes_eq h.id sync_data
    then read_chunk h.arg
    else if bytes_eq h.id sync_fail
    then fail_reply sync_recv h.arg
    else fail unknown_reply

-- One round of the loop up to the write.
unfoldable pub recv_round : Io (Option Bytes)
recv_round = do h ← read_sync_header; recv_answer h

-- The writer is a function of its own state: `io.Writer`'s count of the bytes taken, and whether it
-- returns an error.
module _ {W : Type 0} (write : W → Bytes → W × ℕ × Bool) where
  -- What one round does with what it read; `next` is the round after it.
  abbrev pub recv_turn :
      (W → ℕ → Socket → Socket × W × ℕ × Result WireError (Unit {0}))
      → W
      → ℕ
      → Socket × Result WireError (Option Bytes)
      → Socket × W × ℕ × Result WireError (Unit {0})
  recv_turn next w total (s, err e) = (s, w, total, err e)
  recv_turn next w total (s, ok none) = (s, w, total, ok tt)
  recv_turn next w total (s, ok (some chunk)) =
      let (w', n, failed) = write w chunk in
      elim failed [
        | true ↦ (s, w', total + n, err destination_failed)
        | false ↦ next w' (total + n) s
      ]

  unfoldable pub recv_loop : ℕ → W → ℕ → Socket → Socket × W × ℕ × Result WireError (Unit {0})
  recv_loop zero w total s = (s, w, total, err out_of_fuel)
  recv_loop (suc fuel) w total s = recv_turn (recv_loop fuel) w total (recv_round s)

  abbrev pub settle :
      SyncConn
      → Socket × W × ℕ × Result WireError (Unit {0})
      → SyncConn × W × ℕ × Result WireError (Unit {0})
  settle c (s, w, total, ok t) = (record c { nc = some s }, w, total, ok t)
  settle c (s, w, total, err e) = (kill c e, w, total, err e)

  abbrev pub recv_sent :
      SyncConn
      → W
      → Socket × Result WireError (Unit {0})
      → SyncConn × W × ℕ × Result WireError (Unit {0})
  recv_sent c w (s, err e) = (kill c e, w, 0, err e)
  recv_sent c w (s, ok _) = settle c (recv_loop (suc (length s.incoming)) w 0 s)

  abbrev pub recv_alive :
      Bytes
      → W
      → SyncConn
      → Result WireError Socket
      → SyncConn × W × ℕ × Result WireError (Unit {0})
  recv_alive path w c (err e) = (c, w, 0, err e)
  recv_alive path w c (ok s) = recv_sent c w (send_path sync_recv path s)

  unfoldable pub recv : Bytes → W → SyncConn → SyncConn × W × ℕ × Result WireError (Unit {0})
  recv path w c = recv_alive path w c (alive c)
