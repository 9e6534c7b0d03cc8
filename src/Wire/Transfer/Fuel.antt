-- ===== src/Wire/Transfer/Fuel.antt =====
-- foundation/adbwire/sync.go: the loop of `Recv`, and its fuel.
use adb_broker.Prelude.{
  ℕ, zero, suc, ◌+◌, ◌<◌, ◌≡◌, sym, ap, subst, ◌≢◌, inl, inr, Bool, Option, none, some, arith, ltb,
  Bool-cases, length, Bytes, bytes_eq, Result, ok, err,
}
use adb_broker.Wire.Socket.{
  Socket, WireError, unknown_reply, chunk_too_long, out_of_fuel, pure, fail, read_full,
}
use adb_broker.Wire.Cost.{Within, Costs, >>=-Costs, fail-Costs, if-Costs, pure-Costs}
use adb_broker.Wire.Session.{SyncConn, SyncHeader, sync_fail, send_path, read_sync_header}
use adb_broker.Wire.Session.Fuel.{
  read_sync_header-Costs, read-Costs, fail_reply-Costs, send_path-Costs,
}
use adb_broker.Wire.Session.Alive.{IsSettled, alive-kill, alive_running, alive-cases}
use adb_broker.Wire.Listing.{sync_done}
use adb_broker.Wire.Transfer.{
  sync_recv, sync_data, sync_max_chunk, read_chunk, recv_answer, recv_round, recv_turn, recv_loop,
  settle, recv_sent, recv_alive, recv,
}

read_chunk-Costs : (n : ℕ) → Costs 0 (read_chunk n)
unfolding read_chunk
read_chunk-Costs n =
    if-Costs 0 (ltb sync_max_chunk n) (fail chunk_too_long) _
      (fail-Costs (Option Bytes) 0 chunk_too_long (λ e. cc))
      (>>=-Costs 0 (read_full n) (λ chunk. pure (some chunk)) (read-Costs n)
        (λ chunk. pure-Costs {A = Option Bytes} (some chunk)))

recv_answer-Costs : (h : SyncHeader) → Costs 0 (recv_answer h)
unfolding recv_answer
recv_answer-Costs h =
    if-Costs 0 (bytes_eq h.id sync_done) _ _ (pure-Costs {A = Option Bytes} none) (
      if-Costs 0 (bytes_eq h.id sync_data) _ _ (read_chunk-Costs h.arg) (
        if-Costs 0 (bytes_eq h.id sync_fail) _ _ (fail_reply-Costs (Option Bytes) sync_recv h.arg)
          (fail-Costs (Option Bytes) 0 unknown_reply (λ e. cc))))

recv_round-Costs : Costs 8 recv_round
unfolding recv_round
recv_round-Costs = >>=-Costs 8 read_sync_header recv_answer read_sync_header-Costs recv_answer-Costs

module _ {W : Type 0} (write : W → Bytes → W × ℕ × Bool) where
  recv_turn-ne-out_of_fuel :
      (fuel : ℕ) (next : W → ℕ → Socket → Socket × W × ℕ × Result WireError (Unit {0})) (w : W)
      (total : ℕ) (r : Socket × Result WireError (Option Bytes)) (s : Socket)
      → ((v : W) (n : ℕ) (t : Socket) → length t.incoming < fuel → (next v n t).3 ≢ err out_of_fuel)
      → length s.incoming < suc fuel
      → Within 8 s r
      → (recv_turn write next w total r).3 ≢ err out_of_fuel
  recv_turn-ne-out_of_fuel fuel next w total (t, err e) s ih h k = λ p. k (cc)
  recv_turn-ne-out_of_fuel fuel next w total (t, ok none) s ih h k = λ p. cc
  recv_turn-ne-out_of_fuel fuel next w total (t, ok (some c)) s ih h k =
      elim (Bool-cases (write w c).2) [
        | inl e ↦ rw (e, recv_turn) (λ p. cc)
        | inr e ↦ rw (e, recv_turn) (ih (write w c).0 (total + (write w c).1) t (omega arith))
      ]

  recv_loop-ne-out_of_fuel :
      (fuel : ℕ) (w : W) (total : ℕ) (s : Socket)
      → length s.incoming < fuel
      → (recv_loop write fuel w total s).3 ≢ err out_of_fuel
  unfolding recv_loop
  recv_loop-ne-out_of_fuel zero w total s h = absurd (omega arith)
  recv_loop-ne-out_of_fuel (suc fuel) w total s h =
      recv_turn-ne-out_of_fuel fuel (recv_loop write fuel) w total (recv_round s) s
        (λ v n t. recv_loop-ne-out_of_fuel fuel v n t) h (recv_round-Costs s)

  recv_loop-IsSettled :
      (c : SyncConn) (w : W) (s : Socket)
      → c.dead ≡ none
      → IsSettled
          (settle write c (recv_loop write (suc (length s.incoming)) w 0 s)).0
          (settle write c (recv_loop write (suc (length s.incoming)) w 0 s)).3
  recv_loop-IsSettled c w s live =
      settled (recv_loop write (suc (length s.incoming)) w 0 s)
        (recv_loop-ne-out_of_fuel (suc (length s.incoming)) w 0 s (omega arith))
    where
      settled :
          (r : Socket × W × ℕ × Result WireError (Unit {0}))
          → r.3 ≢ err out_of_fuel
          → IsSettled (settle write c r).0 (settle write c r).3
      settled (t, v, total, ok z) n = (t, alive_running c t live)
      settled (t, v, total, err e) n = (alive-kill c e, λ p. n (ap err p))

  -- Whatever the session was and whatever the device sends, `Recv` ends: with success on a session
  -- that is alive, or with an error on a session that is dead for every later command.
  pub recv-IsSettled :
      (path : Bytes) (w : W) (c : SyncConn)
      → IsSettled (recv write path w c).0 (recv write path w c).3
  unfolding recv
  recv-IsSettled path w c = elim (alive-cases c) [
    | inl (s, (e, live)) ↦
        subst settled (sym e)
          (sent live s (send_path sync_recv path s) (send_path-Costs sync_recv path s))
    | inr e ↦ subst settled (sym e) (e, λ p. cc)
  ]
    where
      settled : Result WireError Socket → Type 0
      settled r = IsSettled (recv_alive write path w c r).0 (recv_alive write path w c r).3

      sent :
          c.dead ≡ none
          → (s : Socket) (r : Socket × Result WireError (Unit {0})) → Within 0 s r
          → IsSettled (recv_sent write c w r).0 (recv_sent write c w r).3
      sent live s (t, ok z) k = recv_loop-IsSettled c w t live
      sent live s (t, err x) k = (alive-kill c x, k)
