-- ===== src/Device/Store/Connecting.antt =====
-- adbsyncdb/reconnect.go: the session that `connectLocked` makes.
use adb_broker.Prelude.{
  ◌≡◌, refl, ap, ◌∙◌, subst, ◌≢◌, inl, inr, Option, none, some, List, [], ◌∷◌, Bool-cases, length,
  drop, Bytes, bytes_eq, eq_of_bytes_eq, Result, ok, err,
}
use adb_broker.Wire.Socket.{Socket, WireError}
use adb_broker.Wire.Session.{SyncConn}
use adb_broker.Wire.Conn.{Conn, dial, transport_serial, sync}
use adb_broker.Wire.Services.{DeviceEntry, server_version, devices, device_features}
use adb_broker.Errcode.{Code}
use adb_broker.Serial.{Serial}
use adb_broker.Device.Codes.{require_v2, entry_with, found_entry, select_device}
use adb_broker.Device.Store.{
  DeviceRow, Session, Connected, with_sync, with_transport, with_gate, row_of, with_features,
  with_choice, with_devices, with_version, with_conn, connect,
}

-- A serial that is asked for is the serial of the entry.
abbrev pub IsWanted : Serial → Bytes → Type 0
IsWanted want serial = want.value ≢ [] → serial ≡ want.value

entry_with-serial :
    (serial : Bytes) (es : List DeviceEntry) (e : DeviceEntry)
    → entry_with serial es ≡ some e
    → e.serial ≡ serial
unfolding entry_with
entry_with-serial serial [] e h = absurd (cc)
entry_with-serial serial (x ∷ es) e h = elim (Bool-cases (bytes_eq x.serial serial)) [
  | inl q ↦
      let f : entry_with serial (x ∷ es) ≡ some x = rw q in
      let same : x ≡ e = cc in
      subst (λ (y : DeviceEntry). y.serial ≡ serial) same (eq_of_bytes_eq x.serial serial q)
  | inr q ↦ entry_with-serial serial es e (rw q at h)
]

select_device-IsWanted :
    (es : List DeviceEntry) (want : Serial) (e : DeviceEntry)
    → select_device es want ≡ ok e
    → IsWanted want e.serial
unfolding select_device
select_device-IsWanted [] want e h n = absurd (cc)
select_device-IsWanted (x ∷ es) want e h n = elim (Bool-cases (bytes_eq want.value [])) [
  | inl q ↦ absurd (n (eq_of_bytes_eq want.value [] q))
  | inr q ↦ found (entry_with want.value (x ∷ es)) refl (rw q at h)
]
  where
    found :
        (r : Option DeviceEntry)
        → entry_with want.value (x ∷ es) ≡ r
        → found_entry r ≡ ok e
        → e.serial ≡ want.value
    found none f g = absurd (cc)
    found (some y) f g = entry_with-serial want.value (x ∷ es) e (f ∙ cc)

-- A session is with the device that was asked for, and that device has the features of the protocol's V2.
abbrev pub IsGated : Serial → Session → Type 0
IsGated want sess = IsWanted want sess.row.serial × (require_v2 sess.row.features ≡ ok tt)

-- The session was made on a connection that was dialled now: the server's version and its devices were asked for on
-- it, one device was selected, its features were read, and the connection was switched to the device of that
-- serial before it was handed to the session.
pub record IsMade (dials : List (Result WireError Socket)) (sess : Session) : Type 0 where
  pub pin : Serial
  pub entries : List DeviceEntry
  pub entry : DeviceEntry
  pub dialled : Conn
  pub versioned : Conn
  pub asked : Conn
  pub featured : Conn
  pub switched : Conn
  pub dialling : dial dials ≡ ok dialled
  pub versioning : server_version dialled ≡ (versioned, ok sess.row.version)
  pub asking : devices versioned ≡ (asked, ok entries)
  pub selecting : select_device entries pin ≡ ok entry
  pub same_serial : sess.row.serial ≡ entry.serial
  pub same_count : sess.row.attached_devices ≡ length entries
  pub featuring : device_features sess.row.serial asked ≡ (featured, ok sess.row.features)
  pub switching : transport_serial sess.row.serial featured ≡ (switched, ok tt)
  pub handing : (sync switched).1 ≡ ok sess.sc

module _ (E : Type 0) (to_lower : Bytes → Bytes) where
  abbrev pub Gates : List (Result WireError Socket) → Serial → Connected E to_lower → Type 0
  Gates dials want (rest, err e) = Unit
  Gates dials want (rest, ok sess) = IsGated want sess × IsMade dials sess

  -- What is known once a device is selected.
  abbrev Selected :
      List (Result WireError Socket)
      → Serial
      → Bytes
      → List DeviceEntry
      → DeviceEntry
      → Conn
      → Type 0
  Selected dials want version es e c =
      (c0 : Conn) × (c1 : Conn) × (dial dials ≡ ok c0)
      × (server_version c0 ≡ (c1, ok version))
      × (devices c1 ≡ (c, ok es))
      × (select_device es want ≡ ok e)

  module _ (broker : Bytes) (dials : List (Result WireError Socket)) (want : Serial)
      (version : Bytes) (es : List DeviceEntry) (e : DeviceEntry) (c : Conn)
      (known : Selected dials want version es e c) where
    abbrev row_with : List Bytes → DeviceRow
    row_with fs = row_of broker version (length es) e fs

    sync-Gates :
        (fs : List Bytes) (f t : Conn) (x : Conn × Result WireError SyncConn)
        → device_features e.serial c ≡ (f, ok fs)
        → require_v2 fs ≡ ok tt
        → transport_serial e.serial f ≡ (t, ok tt)
        → sync t ≡ x
        → Gates dials want (with_sync E to_lower (row_with fs) x)
    sync-Gates fs f t (d, err z) h g k q = tt
    sync-Gates fs f t (d, ok sc) h g k q =
        let (c0, c1, q0, q1, q2, q3) = known in
        (
          (select_device-IsWanted es want e q3, g),
          record {
            pin = want;
            entries = es;
            entry = e;
            dialled = c0;
            versioned = c1;
            asked = c;
            featured = f;
            switched = t;
            dialling = q0;
            versioning = q1;
            asking = q2;
            selecting = q3;
            same_serial = refl;
            same_count = refl;
            featuring = h;
            switching = k;
            handing = ap (λ y. y.1) q;
          },
        )

    transport-Gates :
        (fs : List Bytes) (f : Conn) (x : Conn × Result WireError (Unit {0}))
        → device_features e.serial c ≡ (f, ok fs)
        → require_v2 fs ≡ ok tt
        → transport_serial e.serial f ≡ x
        → Gates dials want (with_transport E to_lower (row_with fs) x)
    transport-Gates fs f (t, err z) h g k = tt
    transport-Gates fs f (t, ok u) h g k = sync-Gates fs f t (sync t) h g k refl

    features-Gates :
        (x : Conn × Result WireError (List Bytes))
        → device_features e.serial c ≡ x
        → Gates dials want (with_features E to_lower broker version (length es) e x)
    features-Gates (f, err z) h = tt
    features-Gates (f, ok fs) h = gated (require_v2 fs) refl
      where
        gated :
            (x : Result (List Bytes) (Unit {0}))
            → require_v2 fs ≡ x
            → Gates dials want (with_gate E to_lower (row_with fs) f x)
        gated (err m) g = tt
        gated (ok u) g = transport-Gates fs f (transport_serial e.serial f) h g refl

  pub connect-Gates :
      (broker : Bytes) (dials : List (Result WireError Socket)) (want : Serial)
      → Gates dials want (connect E to_lower broker dials want)
  unfolding connect
  connect-Gates broker dials want = dialled (dial dials) refl
    where
      chosen :
          (c0 c1 c : Conn) (version : Bytes) (es : List DeviceEntry) (x : Result Code DeviceEntry)
          → dial dials ≡ ok c0
          → server_version c0 ≡ (c1, ok version)
          → devices c1 ≡ (c, ok es)
          → select_device es want ≡ x
          → Gates dials want (with_choice E to_lower broker version (length es) c x)
      chosen c0 c1 c version es (err code) q r k z = tt
      chosen c0 c1 c version es (ok e) q r k z =
          features-Gates broker dials want version es e c (c0, c1, q, r, k, z)
            (device_features e.serial c) refl

      listed :
          (c0 c1 : Conn) (version : Bytes) (x : Conn × Result WireError (List DeviceEntry))
          → dial dials ≡ ok c0
          → server_version c0 ≡ (c1, ok version)
          → devices c1 ≡ x
          → Gates dials want (with_devices E to_lower broker want version x)
      listed c0 c1 version (c, err x) q r k = tt
      listed c0 c1 version (c, ok es) q r k =
          chosen c0 c1 c version es (select_device es want) q r k refl

      versioned :
          (c0 : Conn) (x : Conn × Result WireError Bytes)
          → dial dials ≡ ok c0
          → server_version c0 ≡ x
          → Gates dials want (with_version E to_lower broker want x)
      versioned c0 (c, err x) q r = tt
      versioned c0 (c, ok version) q r = listed c0 c version (devices c) q r refl

      dialled :
          (x : Result WireError Conn)
          → dial dials ≡ x
          → Gates dials want (with_conn E to_lower broker want (drop 1 dials) x)
      dialled (err x) q = tt
      dialled (ok c) q = versioned c (server_version c) q refl
