-- ===== src/Wire/Dead.antt =====
-- foundation/adbwire/sync.go: commands on a dead session, and the bytes of a request.
use adb_broker.Prelude.{
  leb, ℕ, ◌≡◌, ap, ◌⊎◌, inl, inr, Bool, arith, ltb, Bool-cases, length, Bytes, contains_byte, ok,
  err,
}
use adb_broker.Wire.Socket.{Socket, WireError, session_dead, path_has_nul, path_too_long, write_err}
use adb_broker.Wire.Session.{
  SyncConn, sync_max_path, alive, run_alive, send_path, stat_exchange, stat_command,
}
use adb_broker.Wire.Session.Framing.{IsWirePath, request, wrote, cut, send_path_lem, send_path-cut}
use adb_broker.Wire.Listing.{Dirent, list, list_alive}
use adb_broker.Wire.Transfer.{recv, recv_alive}

-- A command on a session that is dead fails at once with `session_dead`: it leaves the session, the
-- caller's state and the writer as they were, and calls nothing.
pub dead_session :
    {S W : Type 0} (fn : S → Dirent → S × Bool) (write : W → Bytes → W × ℕ × Bool) (id path : Bytes)
    (a : S) (w : W) (c : SyncConn)
    → alive c ≡ err session_dead
    → (stat_command id path c ≡ (c, err session_dead))
      × (list fn path a c ≡ (c, a, err session_dead))
      × (recv write path w c ≡ (c, w, 0, err session_dead))
unfolding stat_command list recv
dead_session fn write id path a w c h = (
  ap (run_alive (stat_exchange id path) c) h,
  ap (list_alive fn path a c) h,
  ap (recv_alive write path w c) h,
)

-- A request is sent with success only if its path has no NUL byte and at most 4096 bytes, so that its
-- length field is the path's true length, and then it is written whole. If it fails, a path that is
-- refused has had nothing written, and otherwise what was written is a beginning of the request.
pub send_path_effect :
    (id path : Bytes) (s : Socket)
    → (IsWirePath path × (send_path id path s ≡ (wrote s (request id path), ok tt)))
      ⊎ ((¬ IsWirePath path) × (e : WireError) × (send_path id path s ≡ (s, err e)))
      ⊎ (IsWirePath path
          × (e : WireError) × (send_path id path s ≡ (cut s (request id path), err e)))
unfolding send_path
send_path_effect id path s = elim (Bool-cases (contains_byte 0 path)) [
  | inl e ↦ inr (inl (λ (z, _). cc, path_has_nul, rw e))
  | inr e ↦ elim (Bool-cases (ltb sync_max_path (length path))) [
    | inl f ↦ inr (inl (λ (_, z). ground arith, path_too_long, rw (e, f)))
    | inr f ↦
        let good : IsWirePath path = (e, ground arith) in
        elim (Bool-cases (leb (length (request id path)) s.room)) [
          | inl g ↦ inl (good, send_path_lem id path s good (ground arith))
          | inr g ↦
              inr (inr (good, write_err s.ending, send_path-cut id path s good (ground arith)))
        ]
  ]
]
