-- ===== src/Wire/Session/Alive.antt =====
-- foundation/adbwire/sync.go: when a session can be used.
use adb_broker.Prelude.{
  ◌≡◌, refl, sym, subst, ◌≢◌, ◌⊎◌, inl, inr, none, some, Option-cases, subst, sym, Bytes, bytes_eq,
  Result, ok, err,
}
use adb_broker.Wire.Socket.{
  Socket, WireError, session_dead, out_of_fuel, Io, unknown_reply, ◌>>=◌, read_full,
}
use adb_broker.Wire.Stat.{Stat, decode_stat}
use adb_broker.Wire.Cost.{Within, Costs, >>=-Costs, if-Costs, fail-Costs, Costs-zero}
use adb_broker.Wire.Session.Fuel.{
  read_sync_header-Costs, read-Costs, fail_reply-Costs, decode-Costs, send_path-Costs,
}
use adb_broker.Wire.Session.{
  SyncConn, SyncHeader, sync_fail, alive, close, kill, finish, lift, run_alive, run, send_path,
  read_sync_header, stat_answer, stat_exchange, stat_command,
}

-- A success leaves the session alive; an error leaves it dead, and the fuel of a loop was enough.
abbrev pub IsSettled : {A : Type 0} → SyncConn → Result WireError A → Type 0
IsSettled c (ok a) = (s : Socket) × (alive c ≡ ok s)
IsSettled c (err e) = (alive c ≡ err session_dead) × (e ≢ out_of_fuel)

pub alive-kill : (c : SyncConn) (e : WireError) → alive (kill c e) ≡ err session_dead
unfolding alive kill
alive-kill c e = refl

pub alive_running :
    (c : SyncConn) (s : Socket) → c.dead ≡ none → alive (record c { nc = some s }) ≡ ok s
unfolding alive
alive_running c s e = rw e

pub alive-cases :
    (c : SyncConn)
    → ((s : Socket) × ((alive c ≡ ok s) × (c.dead ≡ none))) ⊎ (alive c ≡ err session_dead)
unfolding alive
alive-cases c = elim (Option-cases c.dead) [
  | inr (d, e) ↦ inr (rw e)
  | inl e ↦ elim (Option-cases c.nc) [
    | inl n ↦ inr (rw (e, n))
    | inr (s, n) ↦ inl (s, (rw (e, n), e))
  ]
]

run-IsSettled :
    {A : Type 0} (m : Io A) (c : SyncConn) → Costs 0 m → IsSettled (run m c).0 (run m c).1
run-IsSettled {A} m c h = elim (alive-cases c) [
  | inl (s, (e, live)) ↦ subst settled (sym e) (ended live s (m s) (h s))
  | inr e ↦ subst settled (sym e) (e, λ p. cc)
]
  where
    settled : Result WireError Socket → Type 0
    settled r = IsSettled (run_alive m c r).0 (run_alive m c r).1

    ended :
        c.dead ≡ none
        → (s : Socket) (r : Socket × Result WireError A) → Within 0 s r
        → IsSettled (finish c r).0 (finish c r).1
    ended live s (t, ok a) w = (t, alive_running c t live)
    ended live s (t, err e) w = (alive-kill c e, w)

stat_answer-Costs : (id : Bytes) (h : SyncHeader) → Costs 0 (stat_answer id h)
unfolding stat_answer
stat_answer-Costs id h =
    if-Costs 0 (bytes_eq h.id id) _ _
      (>>=-Costs 0 (read_full 64) (λ rest. lift (decode_stat h.arg_bytes rest)) (read-Costs 64)
        (λ rest. decode-Costs h.arg_bytes rest))
      (if-Costs 0 (bytes_eq h.id sync_fail) _ _ (fail_reply-Costs Stat id h.arg)
        (fail-Costs Stat 0 unknown_reply (λ e. cc)))

-- Whatever the session was and whatever the device sends, a stat command ends: with a stat on a
-- session that is alive, or with an error on a session that is dead for every later command.
pub stat_command-IsSettled :
    (id path : Bytes) (c : SyncConn)
    → IsSettled (stat_command id path c).0 (stat_command id path c).1
unfolding stat_command stat_exchange
stat_command-IsSettled id path c = run-IsSettled (stat_exchange id path) c (
    >>=-Costs 0 (send_path id path) (λ _. read_sync_header >>= stat_answer id)
      (send_path-Costs id path)
      (λ _.
        >>=-Costs 0 read_sync_header (stat_answer id)
          (Costs-zero 8 read_sync_header read_sync_header-Costs) (stat_answer-Costs id)))

-- `Close` leaves the session dead, and may be called again.
pub close_lem : (c : SyncConn) → (alive (close c) ≡ err session_dead) × (close (close c) ≡ close c)
unfolding close alive
close_lem c = (refl, refl)
