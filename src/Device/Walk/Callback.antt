-- ===== src/Device/Walk/Callback.antt =====
-- foundation/adbwire/sync.go: what holds of a callback's state after `List`.
use adb_broker.Prelude.{
  ℕ, zero, suc, ◌≡◌, refl, ◌⊎◌, inl, inr, Bool, true, false, Option, none, some, Bool-cases, length,
  Bytes, Result, ok, err,
}
use adb_broker.Wire.Socket.{Socket, WireError}
use adb_broker.Wire.Session.{SyncConn, alive, kill, send_path}
use adb_broker.Wire.Listing.{
  Dirent, sync_list, list_round, list_turn, list_loop, settle, list_sent, list_alive, list,
}

-- How a listing leaves the session, when the last entry has left the socket as it is here.
abbrev pub Closes : SyncConn → Socket → SyncConn → Result WireError (Unit {0}) → Type 0
Closes c u c' (ok _) =
    (t : Socket) × (list_round u ≡ (t, ok none)) × (c' ≡ record c { nc = some t })
Closes c u c' (err e) = c' ≡ kill c e

-- A listing that asked for nothing, or could not ask.
abbrev pub Unasked : Bytes → SyncConn → SyncConn → Type 0
Unasked path c c' =
    (c' ≡ c)
    ⊎ ((s : Socket) × (t : Socket) × (e : WireError) × (alive c ≡ ok s)
        × (send_path sync_list path s ≡ (t, err e))
        × (c' ≡ kill c e))

-- The callback keeps `P` while it goes on, and leaves `Q` when it stops. Both are of the socket behind the
-- request, the caller's state, and the socket behind the last entry.
module _ {S : Type 0} (fn : S → Dirent → S × Bool) (P Q : Socket → S → Socket → Type 0) where
  abbrev pub Keeps : Type 0
  Keeps =
      (t : Socket) (a : S) (u v : Socket) (d : Dirent)
      → list_round u ≡ (v, ok (some d))
      → P t a u
      → ((fn a d).1 ≡ false → P t (fn a d).0 v) × ((fn a d).1 ≡ true → Q t (fn a d).0 v)

  abbrev pub Weakens : Type 0
  Weakens = (t : Socket) (a : S) (u : Socket) → P t a u → Q t a u

  -- After a listing that ended `P` holds, after one that failed `Q`.
  abbrev pub Holds : Result WireError (Unit {0}) → Socket → S → Socket → Type 0
  Holds (ok _) t a u = P t a u
  Holds (err e) t a u = Q t a u

  abbrev Looped : Socket → Socket × S × Result WireError (Unit {0}) → Type 0
  Looped t (s, a, ok _) = (u : Socket) × P t a u × (list_round u ≡ (s, ok none))
  Looped t (s, a, err e) = (u : Socket) × Q t a u

  list_turn-Looped :
      (next : S → Socket → Socket × S × Result WireError (Unit {0})) (t : Socket) (a : S)
      (u : Socket) (r : Socket × Result WireError (Option Dirent))
      → list_round u ≡ r
      → Keeps
      → Weakens
      → ((b : S) (v : Socket) → P t b v → Looped t (next b v))
      → P t a u
      → Looped t (list_turn fn next a r)
  list_turn-Looped next t a u (s, err e) q k w ih h = (u, w t a u h)
  list_turn-Looped next t a u (s, ok none) q k w ih h = (u, h, q)
  list_turn-Looped next t a u (s, ok (some d)) q k w ih h = elim (Bool-cases (fn a d).1) [
    | inl e ↦ rw (e, list_turn) (s, (k t a u s d q h).1 e)
    | inr e ↦ rw (e, list_turn) (ih (fn a d).0 s ((k t a u s d q h).0 e))
  ]

  list_loop-Looped :
      (fuel : ℕ) (t : Socket) (a : S) (u : Socket)
      → Keeps
      → Weakens
      → P t a u
      → Looped t (list_loop fn fuel a u)
  unfolding list_loop
  list_loop-Looped zero t a u k w h = (u, w t a u h)
  list_loop-Looped (suc fuel) t a u k w h =
      list_turn-Looped (list_loop fn fuel) t a u (list_round u) refl k w
        (λ b v q. list_loop-Looped fuel t b v k w q) h

  -- The listing was not asked for and has called nothing; or its request was written, and what holds then of
  -- the state holds of the socket behind the last entry too.
  abbrev pub Left : Bytes → SyncConn → S → SyncConn × S × Result WireError (Unit {0}) → Type 0
  Left path c a (c', b, r) =
      ((b ≡ a) × (Unasked path c c') × ((e : WireError) × (r ≡ err e)))
      ⊎ ((s : Socket) × (t : Socket) × (u : Socket) × (alive c ≡ ok s)
          × (send_path sync_list path s ≡ (t, ok tt))
          × Holds r t b u
          × Closes c u c' r)

  pub list-Left :
      (path : Bytes) (a : S) (c : SyncConn)
      → Keeps
      → Weakens
      → ((t : Socket) → P t a t)
      → Left path c a (list fn path a c)
  unfolding list
  list-Left path a c k w h = running (alive c) refl
    where
      settled :
          (s t : Socket) (x : Socket × S × Result WireError (Unit {0}))
          → alive c ≡ ok s
          → send_path sync_list path s ≡ (t, ok tt)
          → Looped t x
          → Left path c a (settle fn c x)
      settled s t (v, b, ok _) q p (u, g, e) = inr (s, t, u, q, p, g, (v, e, refl))
      settled s t (v, b, err e) q p (u, g) = inr (s, t, u, q, p, g, refl)

      sent :
          (s : Socket) (r : Socket × Result WireError (Unit {0}))
          → alive c ≡ ok s
          → send_path sync_list path s ≡ r
          → Left path c a (list_sent fn c a r)
      sent s (t, err e) q p = inl (refl, inr (s, t, e, q, p, refl), (e, refl))
      sent s (t, ok _) q p =
          settled s t (list_loop fn (suc (length t.incoming)) a t) q p
            (list_loop-Looped (suc (length t.incoming)) t a t k w (h t))

      running :
          (x : Result WireError Socket) → alive c ≡ x → Left path c a (list_alive fn path a c x)
      running (err e) q = inl (refl, inl refl, (e, refl))
      running (ok s) q = sent s (send_path sync_list path s) q refl
