-- ===== src/Device/Store/Operations/Chunks.antt =====
-- foundation/adbwire/sync.go: the chunks that `Recv` writes, for `Fetch`.
use adb_broker.Prelude.{
  ℕ, zero, suc, ◌+◌, ◌≡◌, refl, inl, inr, Bool, false, Option, none, some, [], ◌++◌, Bool-cases,
  length, Bytes, Result, ok, err,
}
use adb_broker.Wire.Socket.{Socket, WireError}
use adb_broker.Wire.Session.{SyncConn, alive, send_path}
use adb_broker.Wire.Transfer.{
  sync_recv, recv_round, recv_turn, recv_loop, settle, recv_sent, recv_alive, recv,
}

-- A property of the writer's state, the count and the sockets, behind the request and behind the last chunk, that
-- every chunk keeps holds at the end of a transfer.
module _ {W : Type 0} (write : W → Bytes → W × ℕ × Bool)
    (P : Socket → W → ℕ → Socket → Type 0) where
  abbrev pub Chunks : Type 0
  Chunks =
      (t : Socket) (w : W) (total : ℕ) (u v : Socket) (chunk : Bytes)
      → recv_round u ≡ (v, ok (some chunk))
      → P t w total u
      → (write w chunk).2 ≡ false
      → P t (write w chunk).0 (total + (write w chunk).1) v

  abbrev Looped : Socket → Socket × W × ℕ × Result WireError (Unit {0}) → Type 0
  Looped t (s, w, n, ok _) = (u : Socket) × P t w n u × (recv_round u ≡ (s, ok none))
  Looped t (s, w, n, err e) = Unit

  recv_turn-Looped :
      (next : W → ℕ → Socket → Socket × W × ℕ × Result WireError (Unit {0})) (t : Socket) (w : W)
      (total : ℕ) (u : Socket) (r : Socket × Result WireError (Option Bytes))
      → recv_round u ≡ r
      → Chunks
      → ((v : W) (n : ℕ) (s : Socket) → P t v n s → Looped t (next v n s))
      → P t w total u
      → Looped t (recv_turn write next w total r)
  recv_turn-Looped next t w total u (s, err e) q k ih h = tt
  recv_turn-Looped next t w total u (s, ok none) q k ih h = (u, h, q)
  recv_turn-Looped next t w total u (s, ok (some chunk)) q k ih h =
      elim (Bool-cases (write w chunk).2) [
        | inl e ↦ rw (e, recv_turn) tt
        | inr e ↦
            rw (e, recv_turn)
              (ih (write w chunk).0 (total + (write w chunk).1) s (k t w total u s chunk q h e))
      ]

  recv_loop-Looped :
      (fuel : ℕ) (t : Socket) (w : W) (total : ℕ) (u : Socket)
      → Chunks
      → P t w total u
      → Looped t (recv_loop write fuel w total u)
  unfolding recv_loop
  recv_loop-Looped zero t w total u k h = tt
  recv_loop-Looped (suc fuel) t w total u k h =
      recv_turn-Looped (recv_loop write fuel) t w total u (recv_round u) refl k
        (λ v n s q. recv_loop-Looped fuel t v n s k q) h

  -- A transfer that ended has written its request, and read the reply that ends it.
  abbrev pub Stored : Bytes → SyncConn → SyncConn × W × ℕ × Result WireError (Unit {0}) → Type 0
  Stored path c (c', w, n, err e) = Unit
  Stored path c (c', w, n, ok _) =
      (s : Socket) × (t : Socket) × (u : Socket) × (v : Socket) × (alive c ≡ ok s)
      × (send_path sync_recv path s ≡ (t, ok tt))
      × P t w n u
      × (recv_round u ≡ (v, ok none))

  pub recv-Stored :
      (path : Bytes) (w : W) (c : SyncConn)
      → Chunks
      → ((t : Socket) → P t w 0 t)
      → Stored path c (recv write path w c)
  unfolding recv
  recv-Stored path w c k h = running (alive c) refl
    where
      settled :
          (s t : Socket) (r : Socket × W × ℕ × Result WireError (Unit {0}))
          → alive c ≡ ok s
          → send_path sync_recv path s ≡ (t, ok tt)
          → Looped t r
          → Stored path c (settle write c r)
      settled s t (x, v, n, ok _) a p (u, g, e) = (s, t, u, x, a, p, g, e)
      settled s t (x, v, n, err e) a p g = tt

      sent :
          (s : Socket) (r : Socket × Result WireError (Unit {0}))
          → alive c ≡ ok s
          → send_path sync_recv path s ≡ r
          → Stored path c (recv_sent write c w r)
      sent s (t, err e) a p = tt
      sent s (t, ok _) a p =
          settled s t (recv_loop write (suc (length t.incoming)) w 0 t) a p
            (recv_loop-Looped (suc (length t.incoming)) t w 0 t k (h t))

      running :
          (x : Result WireError Socket) → alive c ≡ x → Stored path c (recv_alive write path w c x)
      running (err e) a = tt
      running (ok s) a = sent s (send_path sync_recv path s) a refl

-- The chunks that a socket delivered, each written whole to the destination, and all their bytes in order.
pub data Transfers {W : Type 0} (write : W → Bytes → W × ℕ × Bool) (w : W) (t : Socket)
    : Bytes → W → Socket → Type 0 where
  no_chunk : Transfers write w t [] w t
  chunk :
      {bytes : Bytes} {v x : W} {u s : Socket} (data_bytes : Bytes)
      → Transfers write w t bytes v u
      → recv_round u ≡ (s, ok (some data_bytes))
      → write v data_bytes ≡ (x, length data_bytes, false)
      → Transfers write w t (bytes ++ data_bytes) x s
