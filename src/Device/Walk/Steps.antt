-- ===== src/Device/Walk/Steps.antt =====
-- adbsyncdb/walk.go: the steps of a walk, on its state and its session.
use adb_broker.Prelude.{
  ◌+◌, ◌≡◌, ◌≢◌, ◌⊎◌, true, false, ◌||◌, Option, none, some, List, Bytes, bytes_eq, Result, ok,
}
use adb_broker.Wire.Numbers.{pos}
use adb_broker.Wire.Socket.{Socket, WireError}
use adb_broker.Wire.Stat.{Stat}
use adb_broker.Wire.Session.{SyncConn, alive, send_path, lstat, stat}
use adb_broker.Wire.Listing.{Dirent, sync_list, list_round}
use adb_broker.DevicePath.{AuthorizedPath, child, volume_root, dot, dot_dot}
use adb_broker.DevicePath.Volume.{Volume, contains_dev}
use adb_broker.Filekind.{kind_regular, kind_dir, parse_kind, is_dir}
use adb_broker.Errcode.{Code}
use adb_broker.Device.Walker.{FileRecord, to_bus_file_record, Walk, drop_session, add_error, refuse}
use adb_broker.Device.Walk.Callback.{Closes, Unasked}

-- A path that is reached from the root of a listing by names that `Child` accepted.
pub data Descends (roots : List Bytes) (root : AuthorizedPath) : AuthorizedPath → Type 0 where
  at_root : Descends roots root root
  below :
      {p q : AuthorizedPath} (name : Bytes)
      → Descends roots root p
      → child roots p name ≡ ok q
      → Descends roots root q

-- The record that an entry of a directory is served as: the entry is a regular file on the volume, by the stat that
-- it was listed with.
pub record Served (roots : List Bytes) (vol : Volume) (root dir : AuthorizedPath) (entry : Dirent)
    (r : FileRecord) : Type 0 where
  pub file : AuthorizedPath
  pub dir_reached : Descends roots root dir
  pub named : child roots dir entry.name ≡ ok file
  pub readable : entry.status.errno ≡ 0
  pub on_volume : contains_dev vol (pos entry.status.dev) ≡ true
  pub regular : parse_kind entry.status.mode ≡ kind_regular
  pub as_listed : to_bus_file_record file entry.status ≡ some r

-- An entry with nothing to report: one of the two dots, or a directory on the volume.
abbrev pub IsPassed : Volume → Dirent → Type 0
IsPassed vol d =
    ((bytes_eq d.name dot || bytes_eq d.name dot_dot) ≡ true)
    ⊎ ((contains_dev vol (pos d.status.dev) ≡ true) × (parse_kind d.status.mode ≡ kind_dir))

-- An entry that is refused: of another volume, or neither a file nor a directory.
abbrev pub IsRefused : Volume → Dirent → Type 0
IsRefused vol d =
    (d.status.errno ≡ 0)
    × ((contains_dev vol (pos d.status.dev) ≡ false)
        ⊎ ((parse_kind d.status.mode ≢ kind_regular) × (parse_kind d.status.mode ≢ kind_dir)))

module _ {S E : Type 0} (roots : List Bytes) (vol : Volume) (fn : S → FileRecord → S × Option E)
    (root : AuthorizedPath) where
  -- What one entry of a directory does: the callback is called with the record that this entry is served as, if
  -- it has not failed.
  pub data EntryStep (dir : AuthorizedPath) (d : Dirent) : Walk S E → Walk S E → Type 0 where
    passed : {w : Walk S E} → IsPassed vol d → EntryStep dir d w w
    gave :
        {w : Walk S E} (r : FileRecord) (s : S)
        → Served roots vol root dir d r
        → w.caller_err ≡ none
        → fn w.user r ≡ (s, none)
        → EntryStep dir d w
            (record w { user = s; summary = record w.summary { files = w.summary.files + 1 } })
    stopped :
        {w : Walk S E} (r : FileRecord) (s : S) (e : E)
        → Served roots vol root dir d r
        → w.caller_err ≡ none
        → fn w.user r ≡ (s, some e)
        → EntryStep dir d w (record w { user = s; caller_err = some e })
    left_out : {w : Walk S E} → IsRefused vol d → EntryStep dir d w (refuse w)
    reported :
        {w : Walk S E} (p : AuthorizedPath) (code : Code)
        → Descends roots root p
        → EntryStep dir d w (add_error w p code)

  -- A part of a listing: the socket delivers entries, and each is a step of the walker.
  pub data Entries (dir : AuthorizedPath) : Walk S E → Socket → Walk S E → Socket → Type 0 where
    before_any : {w : Walk S E} {t : Socket} → Entries dir w t w t
    delivered :
        {w v x : Walk S E} {t u s : Socket} (d : Dirent)
        → Entries dir w t v u
        → list_round u ≡ (s, ok (some d))
        → EntryStep dir d v x
        → Entries dir w t x s

  -- What a walk does with its session and its state. Only `asked` asks for the volume root, and never again after
  -- it.
  pub data WalkStep : Walk S E → SyncConn → Walk S E → SyncConn → Type 0 where
    looked :
        {w : Walk S E} {c : SyncConn} (p : AuthorizedPath)
        → Descends roots root p
        → WalkStep w c w (lstat p.path c).0
    asked :
        {w : Walk S E} {c : SyncConn}
        → w.root_rechecked ≡ false
        → WalkStep w c (record w { root_rechecked = true }) (stat volume_root c).0
    listed :
        {w v : Walk S E} {c c' : SyncConn} {s t u : Socket} (dir : AuthorizedPath)
        (r : Result WireError (Unit {0}))
        → Descends roots root dir
        → alive c ≡ ok s
        → send_path sync_list dir.path s ≡ (t, ok tt)
        → Entries dir w t v u
        → Closes c u c' r
        → WalkStep w c v c'
    unlisted :
        {w : Walk S E} {c c' : SyncConn} (dir : AuthorizedPath)
        → Descends roots root dir
        → Unasked dir.path c c'
        → WalkStep w c w c'
    turned_down :
        {w : Walk S E} {c : SyncConn} (p : AuthorizedPath) (st : Stat)
        → Descends roots root p
        → (lstat p.path c).1 ≡ ok st
        → st.errno ≡ 0
        → (contains_dev vol (pos st.dev) ≡ false) ⊎ (is_dir (parse_kind st.mode) ≡ false)
        → WalkStep w c (refuse w) (lstat p.path c).0
    noticed :
        {w : Walk S E} {c : SyncConn} (p : AuthorizedPath) (code : Code)
        → Descends roots root p
        → WalkStep w c (add_error w p code) c
    dropped : {w : Walk S E} {c : SyncConn} → WalkStep w c (drop_session w) c

  pub data WalkSteps : Walk S E → SyncConn → Walk S E → SyncConn → Type 0 where
    stay : {w : Walk S E} {c : SyncConn} → WalkSteps w c w c
    further :
        {u v w : Walk S E} {b c d : SyncConn}
        → WalkSteps u b v c
        → WalkStep v c w d
        → WalkSteps u b w d
