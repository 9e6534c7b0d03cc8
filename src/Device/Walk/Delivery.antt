-- ===== src/Device/Walk/Delivery.antt =====
-- adbsyncdb/walk.go: the entries that a device delivers to a walk, and what is served of them.
use adb_broker.Prelude.{
  ◌≡◌, sym, ap, ◌∙◌, subst, inl, inr, true, Option, some, List, [], ◌∷◌, ◌++◌, append_assoc,
  append-nil, arith, Bool-cases, Bytes, ok,
}
use adb_broker.Wire.Numbers.{pos}
use adb_broker.Wire.Socket.{Socket}
use adb_broker.Wire.Stat.{Stat}
use adb_broker.Wire.Session.{SyncConn, alive, send_path}
use adb_broker.Wire.Listing.{Dirent, sync_list, list_round}
use adb_broker.DevicePath.{split, AuthorizedPath, is_zero, child}
use adb_broker.DevicePath.Parse.{IsAuthorized}
use adb_broker.DevicePath.Descent.{child_sound}
use adb_broker.DevicePath.Volume.{Volume, contains_dev}
use adb_broker.Filekind.{kind_regular, parse_kind}
use adb_broker.Mtime.{parse_mtime}
use adb_broker.Device.Walker.{FileRecord, to_bus_file_record, Walk}
use adb_broker.Device.Walk.Steps.{Descends, at_root, below, Served, Entries, WalkSteps}

-- The path is that of the root with more segments.
abbrev pub IsInside : AuthorizedPath → AuthorizedPath → Type 0
IsInside root p = (names : List Bytes) × (split p.path ≡ split root.path ++ names)

-- The device delivered the entry in a listing of the directory, which the walk from this state and session made.
pub record Delivered {S E : Type 0} (roots : List Bytes) (vol : Volume)
    (fn : S → FileRecord → S × Option E) (root : AuthorizedPath) (start : Walk S E)
    (first : SyncConn) (dir : AuthorizedPath) (entry : Dirent) : Type 0 where
  pub before : Walk S E
  pub held : SyncConn
  pub opened : Socket
  pub sent : Socket
  pub so_far : Walk S E
  pub behind : Socket
  pub ahead : Socket
  pub came : WalkSteps roots vol fn root start first before held
  pub is_open : alive held ≡ ok opened
  pub requested : send_path sync_list dir.path opened ≡ (sent, ok tt)
  pub earlier : Entries roots vol fn root dir before sent so_far behind
  pub read : list_round behind ≡ (ahead, ok (some entry))

-- A record of a regular file on the volume, by the stat of an entry that the device delivered, at a path of the
-- allowlist inside the root that joins the listed directory with the entry's name.
pub record IsConfined {S E : Type 0} (roots : List Bytes) (vol : Volume)
    (fn : S → FileRecord → S × Option E) (root : AuthorizedPath) (start : Walk S E)
    (first : SyncConn) (r : FileRecord) : Type 0 where
  pub dir : AuthorizedPath
  pub entry : Dirent
  pub from_device : Delivered roots vol fn root start first dir entry
  pub named : child roots dir entry.name ≡ ok r.file
  pub readable : entry.status.errno ≡ 0
  pub on_volume : contains_dev vol (pos entry.status.dev) ≡ true
  pub is_file : parse_kind entry.status.mode ≡ kind_regular
  pub same_kind : r.kind ≡ kind_regular
  pub same_size : r.size ≡ entry.status.size
  pub same_time : r.modified ≡ parse_mtime entry.status.mtime
  pub authorized : IsAuthorized roots r.file.path
  pub inside : IsInside root r.file

Descends-IsInside :
    (roots : List Bytes) (root p : AuthorizedPath) → Descends roots root p → IsInside root p
Descends-IsInside roots root p at_root = ([], sym (append-nil (split root.path)))
Descends-IsInside roots root p (below {p = q} name d e) =
    let (names, f) = Descends-IsInside roots root q d in
    let (_, g, _) = child_sound roots q name p e in
    (
      names ++ (name ∷ []),
      g ∙ ap (λ l. l ++ (name ∷ [])) f ∙ append_assoc (split root.path) names (name ∷ []),
    )

record_parts :
    (p : AuthorizedPath) (st : Stat) (r : FileRecord)
    → to_bus_file_record p st ≡ some r
    → (r.kind ≡ parse_kind st.mode)
      × (r.file ≡ p)
      × (r.size ≡ st.size)
      × (r.modified ≡ parse_mtime st.mtime)
unfolding to_bus_file_record
record_parts p st r h = elim (Bool-cases (is_zero p)) [
  | inl e ↦ absurd (ground arith)
  | inr e ↦
      let f : to_bus_file_record p st
          ≡ some (record {
            file = p;
            size = st.size;
            modified = parse_mtime st.mtime;
            kind = parse_kind st.mode;
          }) =
        rw e in
      (cc, cc, cc, cc)
]

pub Served-IsConfined :
    {S E : Type 0} (roots : List Bytes) (vol : Volume) (fn : S → FileRecord → S × Option E)
    (root : AuthorizedPath) (start : Walk S E) (first : SyncConn) (dir : AuthorizedPath)
    (d : Dirent) (r : FileRecord)
    → Served roots vol root dir d r
    → Delivered roots vol fn root start first dir d
    → IsConfined roots vol fn root start first r
Served-IsConfined roots vol fn root start first dir d r s from =
    let (k, f, n, m) = record_parts s.file d.status r s.as_listed in
    record {
      dir = dir;
      entry = d;
      from_device = from;
      named = s.named ∙ ap ok (sym f);
      readable = s.readable;
      on_volume = s.on_volume;
      is_file = s.regular;
      same_kind = k ∙ s.regular;
      same_size = n;
      same_time = m;
      authorized =
          subst (λ q. IsAuthorized roots q.path) (sym f)
            (child_sound roots dir d.name s.file s.named).0;
      inside =
          subst (IsInside root) (sym f)
            (Descends-IsInside roots root s.file (below d.name s.dir_reached s.named));
    }
