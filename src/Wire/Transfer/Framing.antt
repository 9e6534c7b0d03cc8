-- ===== src/Wire/Transfer/Framing.antt =====
-- foundation/adbwire/sync.go: `Recv` of a file that a device sends.
use adb_broker.Prelude.{
  ℕ, zero, suc, ◌+◌, ◌≤◌, ◌<◌, ◌≡◌, refl, ap, ◌∙◌, Bool, false, none, some, List, [], ◌∷◌, ◌++◌,
  arith, ltb, length, length-append, All, Bytes, ok,
}
use adb_broker.Wire.Numbers.{le_bytes, length-le_bytes, le_value-le_bytes}
use adb_broker.Wire.Socket.{Socket, >>=_ok, pure, read_full}
use adb_broker.Wire.Session.{new_sync_conn, alive, read_sync_header}
use adb_broker.Wire.Session.Framing.{
  feed, read_full_lem, read_sync_header_lem, IsWirePath, request, wrote, send_path_lem,
}
use adb_broker.Wire.Listing.{sync_done}
use adb_broker.Wire.Transfer.{
  sync_recv, sync_data, sync_max_chunk, read_chunk, recv_answer, recv_round, recv_turn, recv_loop,
  settle, recv_sent, recv,
}

-- The chunks, each behind DATA and its length, then DONE with its argument, then what follows.
pub transfer_wire : List Bytes → Bytes → Bytes → Bytes
transfer_wire [] arg rest = sync_done ++ (arg ++ rest)
transfer_wire (c ∷ cs) arg rest =
    sync_data ++ (le_bytes 4 (length c) ++ (c ++ transfer_wire cs arg rest))

abbrev pub IsChunk : Bytes → Type 0
IsChunk c = length c ≤ sync_max_chunk

read_chunk_lem :
    (c rest : Bytes) (s : Socket)
    → IsChunk c
    → read_chunk (length c) (feed s (c ++ rest)) ≡ (feed s rest, ok (some c))
unfolding read_chunk
read_chunk_lem c rest s h =
    rw short
      (>>=_ok (read_full (length c)) (λ b. pure (some b)) (read_full_lem (length c) s c rest refl))
  where
    short : ltb sync_max_chunk (length c) ≡ false
    short = ground arith

round_data :
    (c rest : Bytes) (s : Socket)
    → IsChunk c
    → recv_round (feed s (sync_data ++ (le_bytes 4 (length c) ++ (c ++ rest))))
      ≡ (feed s rest, ok (some c))
unfolding recv_round recv_answer
round_data c rest s h =
    >>=_ok read_sync_header recv_answer (
      read_sync_header_lem s sync_data (le_bytes 4 (length c)) (c ++ rest) refl
        (length-le_bytes 4 (length c)))
    ∙ ap (λ n. read_chunk n (feed s (c ++ rest))) (le_value-le_bytes 4 (length c) (omega arith))
    ∙ read_chunk_lem c rest s h

round_done :
    (arg rest : Bytes) (s : Socket)
    → length arg ≡ 4
    → recv_round (feed s (sync_done ++ (arg ++ rest))) ≡ (feed s rest, ok none)
unfolding recv_round recv_answer
round_done arg rest s ha =
    >>=_ok read_sync_header recv_answer (read_sync_header_lem s sync_done arg rest refl ha)

length-transfer_wire :
    (cs : List Bytes) (arg rest : Bytes) → length cs ≤ length (transfer_wire cs arg rest)
unfolding transfer_wire
length-transfer_wire [] arg rest = omega arith
length-transfer_wire (c ∷ cs) arg rest =
    let tail = transfer_wire cs arg rest in
    omega (
      arith,
      length-transfer_wire cs arg rest,
      length-append c tail,
      length-append (le_bytes 4 (length c)) (c ++ tail),
    )

-- The bytes of a file.
pub size_of : List Bytes → ℕ
size_of [] = 0
size_of (c ∷ cs) = length c + size_of cs

module _ {W : Type 0} (write : W → Bytes → W × ℕ × Bool) where
  -- The writer after each chunk in turn.
  unfoldable pub store : W → List Bytes → W
  store w [] = w
  store w (c ∷ cs) = store (write w c).0 cs

  -- The writer takes each chunk whole, as `io.Writer` asks of a write that reports no error.
  abbrev pub Takes : W → List Bytes → Type 0
  Takes w [] = Unit
  Takes w (c ∷ cs) = ((write w c).1 ≡ length c) × ((write w c).2 ≡ false) × Takes (write w c).0 cs

  recv_loop_lem :
      (fuel : ℕ) (w : W) (total : ℕ) (cs : List Bytes) (arg rest : Bytes) (s : Socket)
      → length cs < fuel
      → All IsChunk cs
      → Takes w cs
      → length arg ≡ 4
      → recv_loop write fuel w total (feed s (transfer_wire cs arg rest))
        ≡ (feed s rest, store w cs, total + size_of cs, ok tt)
  unfolding recv_loop transfer_wire store size_of
  recv_loop_lem zero w total cs arg rest s f h t ha = absurd (omega arith)
  recv_loop_lem (suc fuel) w total [] arg rest s f h t ha =
      ap (recv_turn write (recv_loop write fuel) w total) (round_done arg rest s ha)
      ∙ (λ i. (feed s rest, w, plus_zero i, ok tt))
    where
      plus_zero : total ≡ total + 0
      plus_zero = omega arith
  recv_loop_lem (suc fuel) w total (c ∷ cs) arg rest s f (hc, h) (took, fine, t) ha =
      ap (recv_turn write (recv_loop write fuel) w total)
        (round_data c (transfer_wire cs arg rest) s hc)
      ∙ rw (fine, recv_turn)
          (rw took (
            recv_loop_lem fuel (write w c).0 (total + length c) cs arg rest s (omega arith) h t ha
            ∙ (λ i. (feed s rest, store (write w c).0 cs, regrouped i, ok tt))))
    where
      regrouped : total + length c + size_of cs ≡ total + (length c + size_of cs)
      regrouped = omega arith

  -- On a live session whose peer answers with chunks of at most 64 KiB and a DONE, and with a writer
  -- that takes them, `Recv` writes every chunk once, in order, returns the count of their bytes, and
  -- leaves the session usable with what the peer sends next still there. No chunk at all is a success.
  pub recv_lem :
      (path : Bytes) (w : W) (cs : List Bytes) (arg rest : Bytes) (s : Socket)
      → IsWirePath path
      → length (request sync_recv path) ≤ s.room
      → All IsChunk cs
      → Takes w cs
      → length arg ≡ 4
      → recv write path w (new_sync_conn (feed s (transfer_wire cs arg rest))) ≡ (
        new_sync_conn (feed (wrote s (request sync_recv path)) rest),
        store w cs,
        size_of cs,
        ok tt,
      )
  unfolding recv alive
  recv_lem path w cs arg rest s p e h t ha =
      let replies = transfer_wire cs arg rest in
      let enough : length cs < suc (length replies) =
        omega (arith, length-transfer_wire cs arg rest) in
      ap (recv_sent write (new_sync_conn (feed s replies)) w)
        (send_path_lem sync_recv path (feed s replies) p e)
      ∙ ap (settle write (new_sync_conn (feed s replies))) (
          recv_loop_lem (suc (length replies)) w 0 cs arg rest (wrote s (request sync_recv path))
            enough h t ha)
      ∙ (λ i. (
        new_sync_conn (feed (wrote s (request sync_recv path)) rest),
        store w cs,
        from_zero i,
        ok tt,
      ))
    where
      from_zero : 0 + size_of cs ≡ size_of cs
      from_zero = omega arith
