-- ===== src/Device/Store/Serials.antt =====
-- adbsyncdb/reconnect.go: the session that the store gives.
use adb_broker.Prelude.{
  ◌≡◌, refl, sym, ap, ◌∙◌, subst, ◌≢◌, ◌⊎◌, inl, inr, true, false, Option, none, some, [],
  Bool-cases, Bytes, bytes_eq, eq_of_bytes_eq, Result, ok, err,
}
use adb_broker.Serial.{Serial, SerialError, parse_serial, parse_serial_lem}
use adb_broker.Device.Codes.{require_v2}
use adb_broker.Device.Walker.{WalkError}
use adb_broker.Device.Store.{
  Session, Store, close_session, Connected, connect, connected, with_pin, wanted, live_or,
  unless_other, live, session_locked,
}
use adb_broker.Device.Store.Connecting.{IsGated, IsMade, Gates, connect-Gates}

-- What the store keeps: a session is with the device whose serial is pinned, and that device has the features.
abbrev pub Keeps : Bytes → Option Session → Type 0
Keeps serial none = Unit
Keeps serial (some sess) = (sess.row.serial ≡ serial) × (require_v2 sess.row.features ≡ ok tt)

abbrev pub IsHeld : Store → Type 0
IsHeld s = Keeps s.pinned_serial s.session

-- What a session that was just made is: the store's, with the device that was asked for, or with the pinned one if
-- none was.
abbrev Fresh : {E : Type 0} → Store → Serial → Store × Result (WalkError E) Session → Type 0
Fresh s want (s', err e) = IsHeld s' × (s'.session ≡ none)
Fresh s want (s', ok sess) =
    IsHeld s'
    × (s'.session ≡ some sess)
    × IsGated want sess
    × (want.value ≡ [] → s.pinned_serial ≢ [] → sess.row.serial ≡ s.pinned_serial)
    × IsMade s.dials sess

-- What asking for a session gives: the store's own, or one that was just made, with the device that is asked for, or
-- with the pinned one if none is; or no session.
abbrev pub Gives : {E : Type 0} → Store → Serial → Store × Result (WalkError E) Session → Type 0
Gives s want (s', err e) = IsHeld s' × (s'.session ≡ none)
Gives s want (s', ok sess) =
    IsHeld s'
    × (s'.session ≡ some sess)
    × IsGated want sess
    × (want.value ≡ [] → s.pinned_serial ≢ [] → sess.row.serial ≡ s.pinned_serial)
    × ((s.session ≡ some sess) ⊎ IsMade s.dials sess)

Fresh-Gives :
    {E : Type 0} (s : Store) (want : Serial) (x : Store × Result (WalkError E) Session)
    → Fresh s want x
    → Gives s want x
Fresh-Gives s want (s', err e) h = h
Fresh-Gives s want (s', ok sess) (a, b, c, d, e) = (a, b, c, d, inr e)

module _ (E : Type 0) (to_lower : Bytes → Bytes) where
  connected-Fresh :
      (s : Store) (pin want : Serial) (x : Connected E to_lower)
      → s.session ≡ none
      → Gates E to_lower s.dials pin x
      → (want.value ≢ [] → pin ≡ want)
      → (want.value ≡ [] → s.pinned_serial ≢ [] → pin.value ≡ s.pinned_serial)
      → Fresh s want (connected E to_lower s x)
  connected-Fresh s pin want (dials, err e) n g a b = (subst (Keeps s.pinned_serial) (sym n) tt, n)
  connected-Fresh s pin want (dials, ok sess) n ((w, v), made) a b = (
    (refl, v),
    refl,
    (
      (λ h.
          let q = a h in
          w (subst (λ (y : Serial). y.value ≢ []) (sym q) h) ∙ ap (λ (y : Serial). y.value) q),
      v,
    ),
    λ z f. w (λ e. f (sym (b z f) ∙ e)) ∙ b z f,
    made,
  )

  with_pin-Fresh :
      (s : Store) (want : Serial)
      → s.session ≡ none
      → Fresh s want (with_pin E to_lower s (wanted E to_lower s want))
  with_pin-Fresh s want n = elim (Bool-cases (bytes_eq want.value [])) [
    | inr q ↦ rw q (
        connected-Fresh s want want (connect E to_lower s.broker_version s.dials want) n
          (connect-Gates E to_lower s.broker_version s.dials want) (λ _. refl)
          (λ z f. absurd (not_empty q z)))
    | inl q ↦ elim (Bool-cases (bytes_eq s.pinned_serial [])) [
      | inl r ↦
          rw (q, r)
            (connected-Fresh s want want (connect E to_lower s.broker_version s.dials want) n
              (connect-Gates E to_lower s.broker_version s.dials want) (λ _. refl)
              (λ z f. absurd (f (eq_of_bytes_eq s.pinned_serial [] r))))
      | inr r ↦ rw (q, r) (parsed q (parse_serial s.pinned_serial) refl)
    ]
  ]
    where
      not_empty : bytes_eq want.value [] ≡ false → want.value ≡ [] → ⊥
      not_empty q z = let f = subst (λ y. bytes_eq y [] ≡ false) z q in absurd (cc)

      parsed :
          bytes_eq want.value [] ≡ true
          → (x : Result SerialError Serial) → parse_serial s.pinned_serial ≡ x
          → Fresh s want (with_pin E to_lower s x)
      parsed q (err e) f = (subst (Keeps s.pinned_serial) (sym n) tt, n)
      parsed q (ok pin) f =
          connected-Fresh s pin want (connect E to_lower s.broker_version s.dials pin) n
            (connect-Gates E to_lower s.broker_version s.dials pin)
            (λ h. absurd (h (eq_of_bytes_eq want.value [] q)))
            (λ z g. (parse_serial_lem s.pinned_serial pin f).0)

  -- A session is the store's own, or was made on a connection that was dialled now and switched to the device with
  -- the serial of the session's row, whose features, read on it, are those of the row and have the protocol's V2.
  -- That serial is the one asked for, and if none is asked for, the one that was pinned before, also when the
  -- session has to be made again. If there is an error, no session is kept. The condition: the store is one that
  -- these calls leave.
  pub session_locked_lem :
      (s : Store) (want : Serial) → IsHeld s → Gives s want (session_locked E to_lower s want)
  unfolding session_locked
  session_locked_lem s want h = now s.session refl h
    where
      keep :
          (sess : Session)
          → s.session ≡ some sess
          → (want.value ≢ [] → sess.row.serial ≡ want.value)
          → Keeps s.pinned_serial (some sess)
          → Gives s want (live_or E to_lower s want (some sess))
      keep sess q w (a, b) =
          (subst (Keeps s.pinned_serial) (sym q) (a, b), q, (w, b), (λ _ _. a), inl q)

      now :
          (x : Option Session)
          → s.session ≡ x
          → Keeps s.pinned_serial x
          → Gives s want (live E to_lower (unless_other E to_lower s want x) want)
      now none q k =
          subst (λ y. Gives s want (live_or E to_lower s want y)) (sym q)
            (Fresh-Gives s want (live_or E to_lower s want none) (with_pin-Fresh s want q))
      now (some sess) q k = elim (Bool-cases (bytes_eq want.value [])) [
        | inl z ↦ rw z (
            subst (λ y. Gives s want (live_or E to_lower s want y)) (sym q)
              (keep sess q (λ f. absurd (f (eq_of_bytes_eq want.value [] z))) k))
        | inr z ↦ elim (Bool-cases (bytes_eq want.value sess.row.serial)) [
          | inl e ↦
              rw (z, e)
                (subst (λ y. Gives s want (live_or E to_lower s want y)) (sym q)
                  (keep sess q (λ _. sym (eq_of_bytes_eq want.value sess.row.serial e)) k))
          | inr e ↦
              rw (z, e)
                (Fresh-Gives s want (live_or E to_lower (close_session s) want none)
                  (with_pin-Fresh (close_session s) want refl))
        ]
      ]
