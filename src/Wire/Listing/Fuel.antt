-- ===== src/Wire/Listing/Fuel.antt =====
-- foundation/adbwire/sync.go: the loop of `List`, and its fuel.
use adb_broker.Prelude.{
  ℕ, zero, suc, ◌<◌, ◌≡◌, sym, ap, subst, ◌≢◌, inl, inr, Bool, Option, none, some, arith, ltb,
  Bool-cases, length, take, Bytes, bytes_eq, Result, ok, err,
}
use adb_broker.Wire.Numbers.{uint32_at}
use adb_broker.Wire.Socket.{
  Socket, WireError, unknown_reply, name_too_long, out_of_fuel, pure, fail, read_full,
}
use adb_broker.Wire.Stat.{Stat, decode_stat}
use adb_broker.Wire.Cost.{Within, Costs, >>=-Costs, fail-Costs, if-Costs, pure-Costs}
use adb_broker.Wire.Session.{SyncConn, SyncHeader, sync_fail, send_path, read_sync_header, lift}
use adb_broker.Wire.Session.Fuel.{
  read_sync_header-Costs, read-Costs, fail_reply-Costs, decode-Costs, send_path-Costs,
}
use adb_broker.Wire.Session.Alive.{IsSettled, alive-kill, alive_running, alive-cases}
use adb_broker.Wire.Listing.{
  Dirent, sync_list, sync_dent, sync_done, sync_max_name, read_name, dirent_of_body, read_dirent,
  list_answer, list_round, list_turn, list_loop, settle, list_sent, list_alive, list,
}

read_name-Costs : (st : Stat) (n : ℕ) → Costs 0 (read_name st n)
unfolding read_name
read_name-Costs st n =
    if-Costs 0 (ltb sync_max_name n) (fail name_too_long) _
      (fail-Costs Dirent 0 name_too_long (λ e. cc))
      (>>=-Costs 0 (read_full n) (λ name. pure (record { status = st; name = name })) (read-Costs n)
        (λ name. pure-Costs {A = Dirent} (record { status = st; name = name })))

read_dirent-Costs : (e : Bytes) → Costs 0 (read_dirent e)
unfolding read_dirent
read_dirent-Costs e = >>=-Costs 0 (read_full 68) (dirent_of_body e) (read-Costs 68) (λ body.
    >>=-Costs 0 (lift (decode_stat e (take 64 body))) (λ st. read_name st (uint32_at body 64))
      (decode-Costs e (take 64 body)) (λ st. read_name-Costs st (uint32_at body 64)))

list_answer-Costs : (h : SyncHeader) → Costs 0 (list_answer h)
unfolding list_answer
list_answer-Costs h =
    if-Costs 0 (bytes_eq h.id sync_done) _ _
      (>>=-Costs 0 (read_full 68) (λ _. pure none) (read-Costs 68)
        (λ _. pure-Costs {A = Option Dirent} none))
      (if-Costs 0 (bytes_eq h.id sync_dent) _ _
        (>>=-Costs 0 (read_dirent h.arg_bytes) (λ d. pure (some d)) (read_dirent-Costs h.arg_bytes)
          (λ d. pure-Costs (some d)))
        (if-Costs 0 (bytes_eq h.id sync_fail) _ _ (fail_reply-Costs (Option Dirent) sync_list h.arg)
          (fail-Costs (Option Dirent) 0 unknown_reply (λ e. cc))))

list_round-Costs : Costs 8 list_round
unfolding list_round
list_round-Costs = >>=-Costs 8 read_sync_header list_answer read_sync_header-Costs list_answer-Costs

module _ {S : Type 0} (fn : S → Dirent → S × Bool) where
  list_turn-ne-out_of_fuel :
      (fuel : ℕ) (next : S → Socket → Socket × S × Result WireError (Unit {0})) (a : S)
      (r : Socket × Result WireError (Option Dirent)) (s : Socket)
      → ((b : S) (t : Socket) → length t.incoming < fuel → (next b t).2 ≢ err out_of_fuel)
      → length s.incoming < suc fuel
      → Within 8 s r
      → (list_turn fn next a r).2 ≢ err out_of_fuel
  list_turn-ne-out_of_fuel fuel next a (t, err e) s ih h w = λ p. w (cc)
  list_turn-ne-out_of_fuel fuel next a (t, ok none) s ih h w = λ p. cc
  list_turn-ne-out_of_fuel fuel next a (t, ok (some d)) s ih h w = elim (Bool-cases (fn a d).1) [
    | inl e ↦ rw (e, list_turn) (λ p. cc)
    | inr e ↦ rw (e, list_turn) (ih (fn a d).0 t (omega arith))
  ]

  pub list_loop-ne-out_of_fuel :
      (fuel : ℕ) (a : S) (s : Socket)
      → length s.incoming < fuel
      → (list_loop fn fuel a s).2 ≢ err out_of_fuel
  unfolding list_loop
  list_loop-ne-out_of_fuel zero a s h = absurd (omega arith)
  list_loop-ne-out_of_fuel (suc fuel) a s h =
      list_turn-ne-out_of_fuel fuel (list_loop fn fuel) a (list_round s) s
        (λ b t. list_loop-ne-out_of_fuel fuel b t) h (list_round-Costs s)

  list_loop-IsSettled :
      (c : SyncConn) (a : S) (s : Socket)
      → c.dead ≡ none
      → IsSettled
          (settle fn c (list_loop fn (suc (length s.incoming)) a s)).0
          (settle fn c (list_loop fn (suc (length s.incoming)) a s)).2
  list_loop-IsSettled c a s live =
      settled (list_loop fn (suc (length s.incoming)) a s)
        (list_loop-ne-out_of_fuel (suc (length s.incoming)) a s (omega arith))
    where
      settled :
          (r : Socket × S × Result WireError (Unit {0}))
          → r.2 ≢ err out_of_fuel
          → IsSettled (settle fn c r).0 (settle fn c r).2
      settled (t, b, ok z) n = (t, alive_running c t live)
      settled (t, b, err e) n = (alive-kill c e, λ p. n (ap err p))

  -- Whatever the session was and whatever the device sends, `List` ends: with success on a session
  -- that is alive, or with an error on a session that is dead for every later command.
  pub list-IsSettled :
      (path : Bytes) (a : S) (c : SyncConn) → IsSettled (list fn path a c).0 (list fn path a c).2
  unfolding list
  list-IsSettled path a c = elim (alive-cases c) [
    | inl (s, (e, live)) ↦
        subst settled (sym e)
          (sent live s (send_path sync_list path s) (send_path-Costs sync_list path s))
    | inr e ↦ subst settled (sym e) (e, λ p. cc)
  ]
    where
      settled : Result WireError Socket → Type 0
      settled r = IsSettled (list_alive fn path a c r).0 (list_alive fn path a c r).2

      sent :
          c.dead ≡ none
          → (s : Socket) (r : Socket × Result WireError (Unit {0})) → Within 0 s r
          → IsSettled (list_sent fn c a r).0 (list_sent fn c a r).2
      sent live s (t, ok z) w = list_loop-IsSettled c a t live
      sent live s (t, err x) w = (alive-kill c x, w)
