-- ===== src/Tests/Walks.antt =====
-- adbsyncdb/walk.go at a directory with a photo, a link and a file of another volume.
use adb_broker.Prelude.{
  ℕ, ◌+◌, ◌≡◌, refl, sym, ap, Bool, true, false, Option, none, some, List, [], ◌∷◌, ◌++◌, ltb,
  if◌then◌else◌, length, replicate, All, All-append, Bytes, codes, Result, ok,
}
use adb_broker.Wire.Numbers.{pos, le_bytes, uint32_at, uint64_at, to_int64, of_int64}
use adb_broker.Wire.Socket.{closed, read_full, write_all}
use adb_broker.Wire.Stat.{Stat, stat_rest, stat_of, decode_stat}
use adb_broker.Wire.Session.{
  SyncConn, new_sync_conn, sync_lstat, sync_stat, alive, kill, send_path, read_sync_header,
  stat_answer, stat_exchange, stat_command, lstat, stat,
}
use adb_broker.Wire.Session.Framing.{feed}
use adb_broker.Wire.Listing.{
  Dirent, read_name, read_dirent, list_answer, list_round, list_loop, list,
}
use adb_broker.DevicePath.{
  AuthorizedPath, compiled_allowlist, child, within, within_any, check_form, parse_authorized_path,
}
use adb_broker.DevicePath.Volume.{Volume, contains_dev}
use adb_broker.Filekind.{kind_regular, parse_kind, is_dir}
use adb_broker.Mtime.{parse_mtime}
use adb_broker.Device.Walker.{FileRecord, WalkError, to_bus_file_record, Walk}
use adb_broker.Device.Walk.{classify, walk_dir, walk_root}
use adb_broker.Device.Walk.Delivery.{IsConfined}
use adb_broker.Device.Walk.Effects.{Survives, Counts, walk_root_confined, walk_root_files}
use adb_broker.Device.Walk.Fuel.{Returns, walk_root-Returns}

abbrev pub same_text : Bytes → Bytes
same_text s = s

abbrev pub media : Volume
media = record { dev = pos 190; ino = pos 3252; resolved = true }

abbrev dir_stat : Stat
dir_stat = record {
  errno = 0;
  dev = 190;
  ino = 8;
  mode = 16877;
  nlink = 2;
  uid = 1;
  gid = 1;
  size = 4096;
  atime = pos 1;
  mtime = pos 1;
  ctime = pos 1;
}

abbrev pub photo_stat : Stat
photo_stat = record dir_stat { mode = 33200; size = 70000 }

abbrev pub dcim : AuthorizedPath
dcim = record { path = codes "/sdcard/DCIM" }

abbrev photo : Dirent
photo = record { status = photo_stat; name = codes "a.jpg" }

abbrev link : Dirent
link = record { status = record dir_stat { mode = 41471 }; name = codes "l" }

abbrev foreign : Dirent
foreign = record { status = record photo_stat { dev = 65088 }; name = codes "m" }

abbrev reply : Bytes → Stat → Bytes
reply id st = id ++ (le_bytes 4 0 ++ stat_rest st)

abbrev entry_bytes : Dirent → Bytes
entry_bytes d = reply (codes "DNT2") d.status ++ (le_bytes 4 (length d.name) ++ d.name)

-- The root's stat, its listing, and the volume root's stat, which the foreign file makes the walk ask for.
abbrev pub conversation : SyncConn
conversation = new_sync_conn (
    feed (record { incoming = []; ending = closed; room = 1000; sent = [] })
      (reply sync_lstat dir_stat
        ++ (entry_bytes photo
            ++ (entry_bytes link
                ++ (entry_bytes foreign
                    ++ (codes "DONE" ++ (replicate 72 0 ++ reply sync_stat dir_stat)))))))

-- A callback that keeps the records and refuses the third.
abbrev pub keep_records : List FileRecord → FileRecord → List FileRecord × Option Bytes
keep_records held r =
    (held ++ (r ∷ []), if ltb 2 (length held + 1) then some (codes "full") else none)

abbrev pub at_start : Walk (List FileRecord) Bytes
at_start = record {
  user = [];
  caller_err = none;
  summary = record { files = 0; refused_entries = 0; errors = [] };
  root_rechecked = false;
  is_dropped = false;
}

abbrev pub never : Walk (List FileRecord) Bytes → SyncConn → Bool
never w c = false

abbrev walked : Walk (List FileRecord) Bytes × SyncConn × Result (WalkError Bytes) (Unit {0})
walked =
    walk_root compiled_allowlist same_text media 0 keep_records never dcim at_start conversation

-- One record, two refused entries, and the volume root asked for.
walked_run :
    (walked.0.user
      ≡ record {
        file = record { path = codes "/sdcard/DCIM/a.jpg" };
        size = 70000;
        modified = parse_mtime (pos 1);
        kind = kind_regular;
      }
        ∷ [])
    × (walked.0.summary ≡ record { files = 1; refused_entries = 2; errors = [] })
    × (walked.0.root_rechecked ≡ true)
    × (walked.2 ≡ ok tt)
unfolding walk_root walk_dir classify is_dir to_bus_file_record contains_dev parse_kind child
    parse_authorized_path check_form within within_any lstat stat stat_command stat_exchange
    stat_answer alive send_path write_all read_sync_header read_full kill list list_loop list_round
    list_answer read_dirent read_name decode_stat stat_of stat_rest le_bytes uint32_at uint64_at
    to_int64 of_int64
walked_run = (refl, refl, refl, refl)

-- Every record that is held is confined.
abbrev pub AllConfined : List FileRecord → Type 0
AllConfined = All (IsConfined compiled_allowlist media keep_records dcim at_start conversation)

pub keep_records-Survives :
    Survives compiled_allowlist media keep_records dcim at_start conversation AllConfined
keep_records-Survives held r h k =
    All-append (IsConfined compiled_allowlist media keep_records dcim at_start conversation) held
      (r ∷ []) k (h, tt)

walk_root_confined_example : AllConfined walked.0.user
walk_root_confined_example =
    walk_root_confined compiled_allowlist same_text media 0 keep_records never AllConfined dcim
      at_start conversation refl keep_records-Survives tt

-- A callback that only counts.
abbrev tick : ℕ → FileRecord → ℕ × Option Bytes
tick n r = (n + 1, none)

abbrev counting : Walk ℕ Bytes
counting = record {
  user = 0;
  caller_err = none;
  summary = record { files = 0; refused_entries = 0; errors = [] };
  root_rechecked = false;
  is_dropped = false;
}

tick-Counts : Counts compiled_allowlist media tick dcim (λ n. n)
tick-Counts = ((λ s s' r h. sym (ap (λ x. x.0) h)), λ s s' r e h. absurd (cc))

abbrev counted_walk : Walk ℕ Bytes × SyncConn × Result (WalkError Bytes) (Unit {0})
counted_walk =
    walk_root compiled_allowlist same_text media 0 tick (λ w c. false) dcim counting conversation

walk_root_files_example : counted_walk.0.user + 0 ≡ 0 + counted_walk.0.summary.files
walk_root_files_example =
    walk_root_files compiled_allowlist same_text media 0 tick (λ w c. false) (λ n. n) dcim counting
      conversation refl tick-Counts

walk_root-Returns_example : Returns walked
walk_root-Returns_example =
    walk_root-Returns compiled_allowlist same_text media 0 keep_records never dcim at_start
      conversation
