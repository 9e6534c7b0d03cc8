-- ===== src/Device/Store/Operations/Fetched.antt =====
-- adbsyncdb/adbsyncdb.go: `Fetch`, what it forwards and reports.
use adb_broker.Prelude.{
  ℕ, ◌+◌, ◌≡◌, refl, ap, ◌∙◌, subst, inl, inr, Bool, true, false, Option, none, some, [], arith,
  ◌==◌, ==_iff, Bool-cases, length, length-append, Bytes, Result, ok, err,
}
use adb_broker.Wire.Numbers.{pos}
use adb_broker.Wire.Socket.{Socket, WireError}
use adb_broker.Wire.Stat.{Stat}
use adb_broker.Wire.Session.{SyncConn, alive, send_path, lstat}
use adb_broker.Wire.Transfer.{sync_recv, recv_round, recv}
use adb_broker.DevicePath.{AuthorizedPath, is_zero}
use adb_broker.DevicePath.Volume.{Volume, contains_dev, is_zero_volume}
use adb_broker.Filekind.{parse_kind, is_regular}
use adb_broker.Serial.{parse_serial}
use adb_broker.Audit.Anchor.{hex_encode}
use adb_broker.Device.Walker.{WalkError}
use adb_broker.Device.Bus.{FetchResult}
use adb_broker.Device.Store.{Session, Store, zero_serial, session_locked, reconnect}
use adb_broker.Device.Store.Operations.{
  set_sync, or_zero_serial, both_written, multi_write, rebuilt, received, announced, preflight,
  fetch_with, store_fetch,
}
use adb_broker.Device.Store.Operations.Chunks.{
  Chunks, Stored, recv-Stored, Transfers, no_chunk, chunk,
}

-- The file was a regular one on the volume when it was asked for, on the store's session; the caller was told its
-- size, and let it be fetched; the device delivered the bytes that were forwarded, until it said that it was done;
-- and the result says how many they are, and their hash.
pub record IsFetched (E : Type 0) {W : Type 0} (write : W → Bytes → W × ℕ × Bool)
    (before : ℕ → W → W × Option E) (sum : Bytes → Bytes) (p : AuthorizedPath) (vol : Volume)
    (sess : Session) (w w' : W) (r : FetchResult) : Type 0 where
  pub status : Stat
  pub told : W
  pub opened : Socket
  pub sent : Socket
  pub behind : Socket
  pub ended : Socket
  pub forwarded : Bytes
  pub asked : (lstat p.path sess.sc).1 ≡ ok status
  pub readable : status.errno ≡ 0
  pub regular : is_regular (parse_kind status.mode) ≡ true
  pub on_volume : contains_dev vol (pos status.dev) ≡ true
  pub allowed : before status.size w ≡ (told, none)
  pub is_open : alive (lstat p.path sess.sc).0 ≡ ok opened
  pub requested : send_path sync_recv p.path opened ≡ (sent, ok tt)
  pub transferred : Transfers write told sent forwarded w' behind
  pub finished : recv_round behind ≡ (ended, ok none)
  pub counted : r.bytes ≡ length forwarded
  pub digest : r.sha256 ≡ hex_encode (sum forwarded)
  pub from_device : r.serial ≡ or_zero_serial (parse_serial sess.row.serial)

module _ (E : Type 0) (to_lower : Bytes → Bytes) {W : Type 0} (write : W → Bytes → W × ℕ × Bool)
    (before : ℕ → W → W × Option E) (sum : Bytes → Bytes) where
  -- What the digest has seen is what the destination was given.
  abbrev Forwards : W → Socket → W × Bytes → ℕ → Socket → Type 0
  Forwards told t (v, seen) n u = Transfers write told t seen v u × (n ≡ length seen)

  multi_write-Chunks : (told : W) → Chunks (multi_write E to_lower write before sum) (Forwards told)
  multi_write-Chunks told t (w, seen) total u v data_bytes q (run, count) e =
      wrote (write w data_bytes) refl e
    where
      wrote :
          (x : W × ℕ × Bool)
          → write w data_bytes ≡ x
          → (both_written E to_lower write before sum seen data_bytes x).2 ≡ false
          → Forwards told t
              (both_written E to_lower write before sum seen data_bytes x).0
              (total + (both_written E to_lower write before sum seen data_bytes x).1)
              v
      wrote (z, n, true) f g = absurd (cc)
      wrote (z, n, false) f g = elim (Bool-cases (n == length data_bytes)) [
        | inl k ↦
            let same = (==_iff n (length data_bytes)).0 k in
            rw (k, both_written)
              (
                chunk data_bytes run q (f ∙ ap (λ m. (z, m, false)) same),
                omega (arith, count, same, length-append seen data_bytes),
              )
        | inr k ↦ absurd (ground arith)
      ]

  abbrev Fetches :
      AuthorizedPath
      → Volume
      → Session
      → W
      → Store × W × FetchResult × Option (WalkError E)
      → Type 0
  Fetches p vol sess w (s, w', r, some e) = Unit
  Fetches p vol sess w (s, w', r, none) = IsFetched E write before sum p vol sess w w' r

  preflight-Fetches :
      (p : AuthorizedPath) (vol : Volume) (w : W) (s : Store) (sess : Session)
      (x : SyncConn × Result WireError Stat)
      → lstat p.path sess.sc ≡ x
      → Fetches p vol sess w (preflight E to_lower write before sum p vol w s sess x)
  preflight-Fetches p vol w s sess (c, err e) q = tt
  preflight-Fetches p vol w s sess (c, ok st) q = elim (Bool-cases (st.errno == 0)) [
    | inr a ↦ rw (a, preflight) tt
    | inl a ↦ elim (Bool-cases (is_regular (parse_kind st.mode))) [
      | inr b ↦ rw (a, b, preflight) tt
      | inl b ↦ elim (Bool-cases (contains_dev vol (pos st.dev))) [
        | inr f ↦ rw (a, b, f, preflight) tt
        | inl f ↦ rw (a, b, f, preflight) (told a b f (before st.size w) refl)
      ]
    ]
  ]
    where
      again :
          (v : W) (e : WireError) (x : Store × Result (WalkError E) Session)
          → Fetches p vol sess w (rebuilt E to_lower write before sum v e x)
      again v e (t, ok u) = tt
      again v e (t, err u) = tt

      got :
          (told : W)
          → (st.errno == 0) ≡ true
          → is_regular (parse_kind st.mode) ≡ true
          → contains_dev vol (pos st.dev) ≡ true
          → before st.size w ≡ (told, none)
          → (x : SyncConn × (W × Bytes) × ℕ × Result WireError (Unit {0}))
          → Stored (multi_write E to_lower write before sum) (Forwards told) p.path c x
          → Fetches p vol sess w (received E to_lower write before sum (set_sync s sess c) sess x)
      got told a b f g (d, (v, seen), n, err e) k =
          again v e (reconnect E to_lower (set_sync s sess c))
      got told a b f g (d, (v, seen), n, ok z) (o, t, u, x, live, request, (run, count), done) =
          record {
            status = st;
            told = told;
            opened = o;
            sent = t;
            behind = u;
            ended = x;
            forwarded = seen;
            asked = ap (λ y. y.1) q;
            readable = (==_iff st.errno 0).0 a;
            regular = b;
            on_volume = f;
            allowed = g;
            is_open = ap (λ y. alive y.0) q ∙ live;
            requested = request;
            transferred = run;
            finished = done;
            counted = count;
            digest = refl;
            from_device = refl;
          }

      told :
          (st.errno == 0) ≡ true
          → is_regular (parse_kind st.mode) ≡ true
          → contains_dev vol (pos st.dev) ≡ true
          → (x : W × Option E) → before st.size w ≡ x
          → Fetches p vol sess w
              (announced E to_lower write before sum p (set_sync s sess c) sess c x)
      told a b f (v, some e) g = tt
      told a b f (v, none) g =
          got v a b f g (recv (multi_write E to_lower write before sum) p.path (v, []) c) (
            recv-Stored (multi_write E to_lower write before sum) (Forwards v) p.path (v, []) c
              (multi_write-Chunks v) (λ t. (no_chunk, refl)))

  -- A fetch that reports no error was of a file that the device's own stat, taken on the same session just before and
  -- not following links, called regular and on the pinned volume; the caller was told its size; the destination
  -- ends where writing the chunks that the device then sent, each whole and in order until the device said that
  -- it was done, leaves it; the count is that of those bytes, the hash is theirs, and the serial is the session's.
  pub store_fetch_lem :
      (s s' : Store) (p : AuthorizedPath) (vol : Volume) (w w' : W) (r : FetchResult)
      → store_fetch E to_lower write before sum s p vol w ≡ (s', w', r, none)
      → (sess : Session) × ((session_locked E to_lower s zero_serial).1 ≡ ok sess)
        × IsFetched E write before sum p vol sess w w' r
  unfolding store_fetch
  store_fetch_lem s s' p vol w w' r h = elim (Bool-cases (is_zero_volume vol)) [
    | inl a ↦ absurd (let g = rw a at h in cc)
    | inr a ↦ elim (Bool-cases (is_zero p)) [
      | inl b ↦ absurd (let g = rw (a, b) at h in cc)
      | inr b ↦ with_session (session_locked E to_lower s zero_serial) refl (rw (a, b) at h)
    ]
  ]
    where
      with_session :
          (x : Store × Result (WalkError E) Session)
          → session_locked E to_lower s zero_serial ≡ x
          → fetch_with E to_lower write before sum p vol w x ≡ (s', w', r, none)
          → (sess : Session) × ((session_locked E to_lower s zero_serial).1 ≡ ok sess)
            × IsFetched E write before sum p vol sess w w' r
      with_session (t, err e) q g = absurd (cc)
      with_session (t, ok sess) q g = (
        sess,
        ap (λ y. y.1) q,
        subst (Fetches p vol sess w) g
            (preflight-Fetches p vol w t sess (lstat p.path sess.sc) refl),
      )
