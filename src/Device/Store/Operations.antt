-- ===== src/Device/Store/Operations.antt =====
-- business/domain/device/stores/adbsyncdb/adbsyncdb.go: the operations of the store.
pub mod Chunks
pub mod Fetched
use adb_broker.Prelude.{
  ℕ, zero, suc, ◌+◌, ◌-◌, ◌*◌, ◌/◌, ◌%◌, ◌^◌, ◌≤◌, ◌<◌, min, max, bit_and, ◌≡◌, refl, sym, ap, ap₂,
  ◌∙◌, subst, ◌≢◌, ◌↔◌, ◌⊎◌, inl, inr, Bool, true, false, ◌&&◌, ◌||◌, not, Option, none, some, List,
  [], ◌∷◌, ◌++◌, append_assoc, append-nil, arith, ltb, leb, ◌==◌, if◌then◌else◌, ==_iff, ==_refl,
  Bool-cases, Option-cases, and_true, length, take, drop, get_elem?, replicate, length-append,
  length-take, length-drop, length-replicate, take-append-drop, take-length_append, take_all,
  drop-length_append, drop_at, get_elem?-append_length, All, All-append, All-append_left,
  All-append_right, Any, Any-map, All-map, All-Any, Bytes, codes, bytes_eq, contains_byte,
  has_prefix, bytes_lt, bytes_eq_refl, eq_of_bytes_eq, bytes_eq_iff, Result, ok, err, ◌>>=◌, ◌>>◌,
  Result-cases, digits, decimal, split_on, cut_behind, cut_at, push, decimal_value,
  decimal_value-digits, split_on_line, cut_at_line, contains_byte-append,
}
use adb_broker.Wire.Numbers.{ℤ, pos}
use adb_broker.Wire.Socket.{WireError}
use adb_broker.Wire.Stat.{Stat}
use adb_broker.Wire.Session.{SyncConn, lstat, stat}
use adb_broker.Wire.Transfer.{recv}
use adb_broker.DevicePath.{AuthorizedPath, is_zero, volume_root}
use adb_broker.DevicePath.Volume.{Volume, VolumeError, resolve_volume, contains_dev, is_zero_volume}
use adb_broker.Filekind.{parse_kind, is_regular}
use adb_broker.Errcode.{Code, code_internal, from}
use adb_broker.Serial.{Serial, SerialError, parse_serial}
use adb_broker.Audit.Anchor.{hex_encode}
use adb_broker.Device.Codes.{code_for_wire, code_for_errno}
use adb_broker.Device.Walker.{
  FileRecord, ListSummary, WalkError, coded, by_caller, walk_out_of_fuel, Walk, Walked,
}
use adb_broker.Device.Walk.{walk_root}
use adb_broker.Device.Bus.{Device, FetchResult, zero_volume, zero_device, zero_fetch}
use adb_broker.Device.Store.{
  DeviceRow, Session, Store, close_session, zero_serial, session_locked, reconnect,
}

-- The session after a command.
abbrev pub set_sync : Store → Session → SyncConn → Store
set_sync s sess c = record s { session = some (record sess { sc = c }) }

abbrev pub device_of : DeviceRow → Result SerialError Serial → Option Device
device_of row (err e) = none
device_of row (ok serial) = some (record {
  serial = serial;
  state = row.state;
  broker_version = row.broker_version;
  server_version = row.version;
  features = row.features;
  attached_devices = row.attached_devices;
  volume = zero_volume;
})

unfoldable pub to_bus_device : DeviceRow → Option Device
to_bus_device row = device_of row (parse_serial row.serial)

-- What the stat function of the resolver returns for a stat.
abbrev pub stat_values : Result WireError Stat → Result (Option WireError) (ℤ × ℤ × ℕ)
stat_values (err e) = err (some e)
stat_values (ok st) = if not (st.errno == 0) then err none else ok (pos st.dev, pos st.ino, st.mode)

abbrev pub or_zero_serial : Result SerialError Serial → Serial
or_zero_serial (err e) = zero_serial
or_zero_serial (ok s) = s

module _ (E : Type 0) (to_lower : Bytes → Bytes) where
  abbrev pub named_device : Store → Option Device → Store × Device × Option (WalkError E)
  named_device s none = (s, zero_device, some (coded code_internal none))
  named_device s (some d) = (s, d, none)

  abbrev pub probe_on : Store × Result (WalkError E) Session → Store × Device × Option (WalkError E)
  probe_on (s, err e) = (s, zero_device, some e)
  probe_on (s, ok sess) = named_device s (to_bus_device sess.row)

  unfoldable pub store_probe : Store → Serial → Store × Device × Option (WalkError E)
  store_probe s want = probe_on (session_locked E to_lower s want)

  abbrev pub volume_answer :
      Store → Result (VolumeError (Option WireError)) Volume → Store × Volume × Option (WalkError E)
  volume_answer s (err e) = (s, zero_volume, some (coded (codes "volume_unresolved") none))
  volume_answer s (ok v) = (s, v, none)

  -- The resolver asks for one path, the volume root, whose stat this is.
  abbrev pub volume_stat :
      Store → Session → SyncConn × Result WireError Stat → Store × Volume × Option (WalkError E)
  volume_stat s sess (c, err e) =
      volume_answer (close_session s) (resolve_volume (some (λ path. stat_values (err e))))
  volume_stat s sess (c, ok st) =
      volume_answer (set_sync s sess c) (resolve_volume (some (λ path. stat_values (ok st))))

  abbrev pub volume_on :
      Store × Result (WalkError E) Session → Store × Volume × Option (WalkError E)
  volume_on (s, err e) = (s, zero_volume, some e)
  volume_on (s, ok sess) = volume_stat s sess (stat volume_root sess.sc)

  unfoldable pub store_resolve : Store → Store × Volume × Option (WalkError E)
  store_resolve s = volume_on (session_locked E to_lower s zero_serial)

  abbrev pub walk_code : WalkError E → Option Code
  walk_code (coded code e) = some code
  walk_code (by_caller x) = none
  walk_code walk_out_of_fuel = none

  abbrev pub failure_of : Result (WalkError E) (Unit {0}) → Option (WalkError E)
  failure_of (ok _) = none
  failure_of (err e) = some e

  abbrev pub no_listing : ListSummary
  no_listing = record { files = 0; refused_entries = 0; errors = [] }

  -- The rest as for a walk; the state is that of the callback.
  module _ {S : Type 0} (roots : List Bytes) (vol : Volume) (max_depth : ℕ)
      (fn : S → FileRecord → S × Option E) (cancelled : Walk S E → SyncConn → Bool) where
    abbrev pub after_walk :
        Store → Session → Walked S E → Store × S × ListSummary × Option (WalkError E)
    after_walk s sess (w, c, r) = (
      if w.is_dropped then close_session s else set_sync s sess c,
      w.user,
      w.summary,
      failure_of r,
    )

    abbrev pub walk_on :
        AuthorizedPath
        → S
        → Store × Result (WalkError E) Session
        → Store × S × ListSummary × Option (WalkError E)
    walk_on root user (s, err e) = (s, user, no_listing, some e)
    walk_on root user (s, ok sess) = after_walk s sess (
        walk_root roots to_lower vol max_depth fn cancelled root
          (record {
            user = user;
            caller_err = none;
            summary = no_listing;
            root_rechecked = false;
            is_dropped = false;
          })
          sess.sc)

    -- A callback that is nil and a negative depth have no counterpart here.
    unfoldable pub store_list :
        Store → AuthorizedPath → Serial → S → Store × S × ListSummary × Option (WalkError E)
    store_list s root want user =
        if is_zero_volume vol
        then (s, user, no_listing, some (coded (codes "volume_unresolved") none))
        else if is_zero root
        then (s, user, no_listing, some (coded (codes "path_denied") none))
        else walk_on root user (session_locked E to_lower s want)

  -- `write` is the destination, `before` is called with the size, and `sum` is SHA-256.
  module _ {W : Type 0} (write : W → Bytes → W × ℕ × Bool) (before : ℕ → W → W × Option E)
      (sum : Bytes → Bytes) where
    abbrev pub both_written : Bytes → Bytes → W × ℕ × Bool → (W × Bytes) × ℕ × Bool
    both_written seen chunk (w, n, true) = ((w, seen), n, true)
    both_written seen chunk (w, n, false) =
        if n == length chunk then ((w, seen ++ chunk), n, false) else ((w, seen), n, true)

    -- `io.MultiWriter(w, digest)`, with the bytes that the digest has seen; a short write is an error.
    abbrev pub multi_write : W × Bytes → Bytes → (W × Bytes) × ℕ × Bool
    multi_write (w, seen) chunk = both_written seen chunk (write w chunk)

    abbrev pub rebuilt :
        W
        → WireError
        → Store × Result (WalkError E) Session
        → Store × W × FetchResult × Option (WalkError E)
    rebuilt w e (s, ok sess) = (
      s,
      w,
      zero_fetch,
      some (coded (code_for_wire to_lower e (codes "transfer_failed")) (some e)),
    )
    rebuilt w e (s, err x) = (s, w, zero_fetch, some (coded (from (some (walk_code x))) (some e)))

    abbrev pub received :
        Store
        → Session
        → SyncConn × (W × Bytes) × ℕ × Result WireError (Unit {0})
        → Store × W × FetchResult × Option (WalkError E)
    received s sess (c, (w, seen), n, err e) = rebuilt w e (reconnect E to_lower s)
    received s sess (c, (w, seen), n, ok _) = (
      set_sync s sess c,
      w,
      record {
        bytes = n;
        sha256 = hex_encode (sum seen);
        volume = zero_volume;
        serial = or_zero_serial (parse_serial sess.row.serial);
      },
      none,
    )

    abbrev pub announced :
        AuthorizedPath
        → Store
        → Session
        → SyncConn
        → W × Option E
        → Store × W × FetchResult × Option (WalkError E)
    announced p s sess c (w, some x) = (s, w, zero_fetch, some (by_caller x))
    announced p s sess c (w, none) = received s sess (recv multi_write p.path (w, []) c)

    abbrev pub preflight :
        AuthorizedPath
        → Volume
        → W
        → Store
        → Session
        → SyncConn × Result WireError Stat
        → Store × W × FetchResult × Option (WalkError E)
    preflight p vol w s sess (c, err e) = (
      close_session s,
      w,
      zero_fetch,
      some (coded (code_for_wire to_lower e (codes "transfer_failed")) (some e)),
    )
    preflight p vol w s sess (c, ok st) =
        if not (st.errno == 0)
        then (
          set_sync s sess c,
          w,
          zero_fetch,
          some (
              coded (code_for_errno st.errno (codes "path_not_found") (codes "transfer_failed"))
                none),
        )
        else if not (is_regular (parse_kind st.mode))
        then (set_sync s sess c, w, zero_fetch, some (coded (codes "not_a_regular_file") none))
        else if not (contains_dev vol (pos st.dev))
        then (set_sync s sess c, w, zero_fetch, some (coded (codes "path_denied") none))
        else announced p (set_sync s sess c) sess c (before st.size w)

    abbrev pub fetch_with :
        AuthorizedPath
        → Volume
        → W
        → Store × Result (WalkError E) Session
        → Store × W × FetchResult × Option (WalkError E)
    fetch_with p vol w (s, err e) = (s, w, zero_fetch, some e)
    fetch_with p vol w (s, ok sess) = preflight p vol w s sess (lstat p.path sess.sc)

    unfoldable pub store_fetch :
        Store → AuthorizedPath → Volume → W → Store × W × FetchResult × Option (WalkError E)
    store_fetch s p vol w =
        if is_zero_volume vol
        then (s, w, zero_fetch, some (coded (codes "volume_unresolved") none))
        else if is_zero p
        then (s, w, zero_fetch, some (coded (codes "path_denied") none))
        else fetch_with p vol w (session_locked E to_lower s zero_serial)
