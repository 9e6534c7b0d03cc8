-- ===== src/Device/Walk.antt =====
-- business/domain/device/stores/adbsyncdb/walk.go: the walk of a device's tree.
pub mod Callback
pub mod Steps
pub mod Entry
pub mod Descending
pub mod Refines
pub mod Delivery
pub mod Effects
pub mod Fuel
use adb_broker.Prelude.{
  ℕ, zero, suc, ◌+◌, ◌-◌, ◌*◌, ◌/◌, ◌%◌, ◌^◌, ◌≤◌, ◌<◌, min, max, bit_and, ◌≡◌, refl, sym, ap, ap₂,
  ◌∙◌, subst, ◌≢◌, ◌↔◌, ◌⊎◌, inl, inr, Bool, true, false, ◌&&◌, ◌||◌, not, Option, none, some, List,
  [], ◌∷◌, ◌++◌, append_assoc, append-nil, arith, ltb, leb, ◌==◌, if◌then◌else◌, ==_iff, ==_refl,
  Bool-cases, Option-cases, and_true, length, take, drop, get_elem?, replicate, length-append,
  length-take, length-drop, length-replicate, take-append-drop, take-length_append, take_all,
  drop-length_append, drop_at, get_elem?-append_length, All, All-append, All-append_left,
  All-append_right, Any, Any-map, All-map, All-Any, Bytes, codes, bytes_eq, contains_byte,
  has_prefix, bytes_lt, bytes_eq_refl, eq_of_bytes_eq, bytes_eq_iff, Result, ok, err, ◌>>=◌, ◌>>◌,
  Result-cases, digits, decimal, split_on, cut_behind, cut_at, push, decimal_value,
  decimal_value-digits, split_on_line, cut_at_line, contains_byte-append,
}
use adb_broker.Wire.Numbers.{pos}
use adb_broker.Wire.Socket.{WireError}
use adb_broker.Wire.Stat.{Stat}
use adb_broker.Wire.Session.{SyncConn, lstat, stat}
use adb_broker.Wire.Listing.{Dirent, list}
use adb_broker.DevicePath.{AuthorizedPath, Denial, is_zero, child, volume_root, dot, dot_dot}
use adb_broker.DevicePath.Volume.{Volume, contains_dev}
use adb_broker.Filekind.{
  Kind, kind_unknown, kind_regular, kind_dir, kind_symlink, kind_other, parse_kind, is_dir,
}
use adb_broker.Mtime.{Mtime, parse_mtime}
use adb_broker.Errcode.{Code, code_internal}
use adb_broker.Device.Codes.{code_for_wire, code_for_errno}
use adb_broker.Device.Walker.{
  FileRecord, PathError, ListSummary, WalkError, coded, by_caller, walk_out_of_fuel,
  to_bus_file_record, Walk, Level, drop_session, add_error, refuse, level_of, called, named_child,
  noted, kept_child, is_some, Walked, and_then,
}

abbrev pub max_walk_depth : ℕ
max_walk_depth = 128

-- The allowlist in force, strings.ToLower, the pinned volume, the requested depth, the callback, and whether the
-- context has been cancelled by now.
module _ {S E : Type 0} (roots : List Bytes) (to_lower : Bytes → Bytes) (vol : Volume)
    (max_depth : ℕ) (fn : S → FileRecord → S × Option E)
    (cancelled : Walk S E → SyncConn → Bool) where
  abbrev pub child_of : Walk S E → AuthorizedPath → Dirent → Walk S E × Option AuthorizedPath
  child_of w dir d = named_child w dir (child roots dir d.name)

  abbrev pub converted : Walk S E → AuthorizedPath → Option FileRecord → Walk S E
  converted w c none = add_error w c code_internal
  converted w c (some r) = called w (fn w.user r)

  abbrev pub emitted : Dirent → Walk S E × Option AuthorizedPath → Walk S E
  emitted d (w, none) = w
  emitted d (w, some c) = converted w c (to_bus_file_record c d.status)

  abbrev pub emit : Walk S E → AuthorizedPath → Dirent → Walk S E
  emit w dir d = emitted d (child_of w dir d)

  -- The switch on the kind of an entry on the volume; the flag is whether directories are descended into.
  abbrev pub by_kind : AuthorizedPath → Dirent → Level S E → Bool → Kind → Level S E
  by_kind dir d l may kind_regular = record l { walk = emit l.walk dir d }
  by_kind dir d l true kind_dir = kept_child l (child_of l.walk dir d)
  by_kind dir d l false kind_dir = l
  by_kind dir d l may kind_symlink = record l { walk = refuse l.walk }
  by_kind dir d l may kind_other = record l { walk = refuse l.walk }
  by_kind dir d l may kind_unknown = record l { walk = refuse l.walk }

  unfoldable pub classify : AuthorizedPath → Bool → Level S E → Dirent → Level S E
  classify dir may l d =
      if bytes_eq d.name dot || bytes_eq d.name dot_dot
      then l
      else if not (d.status.errno == 0)
      then record l { walk = noted d.status.errno (child_of l.walk dir d) }
      else if not (contains_dev vol (pos d.status.dev))
      then record l { walk = refuse l.walk; saw_off_pin = true }
      else by_kind dir d l may (parse_kind d.status.mode)

  -- The callback of the listing returns `callerErr`.
  abbrev pub on_dirent : AuthorizedPath → Bool → Level S E → Dirent → Level S E × Bool
  on_dirent dir may l d = let l' = classify dir may l d in (l', is_some l'.walk.caller_err)

  abbrev pub recheck_answer : Walk S E → SyncConn × Result WireError Stat → Walked S E
  recheck_answer w (c, err e) =
      (drop_session w, c, err (coded (codes "volume_unresolved") (some e)))
  recheck_answer w (c, ok st) =
      if not (st.errno == 0)
      then (w, c, err (coded (codes "volume_unresolved") none))
      else if not (contains_dev vol (pos st.dev))
      then (w, c, err (coded (codes "volume_unresolved") none))
      else (w, c, ok tt)

  abbrev pub recheck_once : Bool → Walk S E → SyncConn → Walked S E
  recheck_once true w c = (w, c, ok tt)
  recheck_once false w c = recheck_answer (record w { root_rechecked = true }) (stat volume_root c)

  abbrev pub recheck_root : Walk S E → SyncConn → Walked S E
  recheck_root w c = recheck_once w.root_rechecked w c

  -- `next` is `walkDir`.
  abbrev pub descend_answer :
      (AuthorizedPath → ℕ → Walk S E → SyncConn → Walked S E)
      → AuthorizedPath
      → ℕ
      → Walk S E
      → SyncConn × Result WireError Stat
      → Walked S E
  descend_answer next p depth w (c, err e) = (
    drop_session w,
    c,
    err (coded (code_for_wire to_lower e (codes "device_disconnected")) (some e)),
  )
  descend_answer next p depth w (c, ok st) =
      if not (st.errno == 0)
      then (
        add_error w p (code_for_errno st.errno (codes "path_not_found") (codes "transfer_failed")),
        c,
        ok tt,
      )
      else if not (contains_dev vol (pos st.dev))
      then recheck_root (refuse w) c
      else if not (is_dir (parse_kind st.mode))
      then (refuse w, c, ok tt)
      else next p depth w c

  abbrev pub descend_all :
      (AuthorizedPath → ℕ → Walk S E → SyncConn → Walked S E)
      → ℕ
      → List AuthorizedPath
      → Walk S E
      → SyncConn
      → Walked S E
  descend_all next depth [] w c = (w, c, ok tt)
  descend_all next depth (p ∷ ps) w c =
      and_then (descend_answer next p depth w (lstat p.path c)) (descend_all next depth ps)

  -- A listing that failed: by the caller, or by the device.
  abbrev pub listing_failed : Walk S E → SyncConn → WireError → Option E → Walked S E
  listing_failed w c e (some x) = (drop_session w, c, err (by_caller x))
  listing_failed w c e none = (
    drop_session w,
    c,
    err (coded (code_for_wire to_lower e (codes "device_disconnected")) (some e)),
  )

  abbrev pub after_list :
      (AuthorizedPath → ℕ → Walk S E → SyncConn → Walked S E)
      → ℕ
      → SyncConn × Level S E × Result WireError (Unit {0})
      → Walked S E
  after_list next depth (c, l, err e) = listing_failed l.walk c e l.walk.caller_err
  after_list next depth (c, l, ok _) =
      and_then (if l.saw_off_pin then recheck_root l.walk c else (l.walk, c, ok tt))
        (descend_all next (depth + 1) l.children)

  abbrev pub may_descend : ℕ → Bool
  may_descend depth = max_depth == 0 || ltb depth max_depth

  -- Whether the context is cancelled, and whether the directory is too deep.
  abbrev pub in_dir :
      Bool
      → Bool
      → (AuthorizedPath → ℕ → Walk S E → SyncConn → Walked S E)
      → AuthorizedPath
      → ℕ
      → Walk S E
      → SyncConn
      → Walked S E
  in_dir true deep next dir depth w c = (w, c, err (coded code_internal none))
  in_dir false true next dir depth w c = (add_error w dir (codes "path_denied"), c, ok tt)
  in_dir false false next dir depth w c =
      after_list next depth (list (on_dirent dir (may_descend depth)) dir.path (level_of w) c)

  unfoldable pub walk_dir : ℕ → AuthorizedPath → ℕ → Walk S E → SyncConn → Walked S E
  walk_dir zero dir depth w c = (w, c, err walk_out_of_fuel)
  walk_dir (suc fuel) dir depth w c =
      in_dir (cancelled w c) (ltb max_walk_depth depth) (walk_dir fuel) dir depth w c

  -- The recursion is one level deeper each time, so this many levels are enough.
  abbrev pub walk_fuel : ℕ
  walk_fuel = max_walk_depth + 1

  abbrev pub root_answer : AuthorizedPath → Walk S E → SyncConn × Result WireError Stat → Walked S E
  root_answer root w (c, err e) = (
    drop_session w,
    c,
    err (coded (code_for_wire to_lower e (codes "device_disconnected")) (some e)),
  )
  root_answer root w (c, ok st) =
      if not (st.errno == 0)
      then (
        w,
        c,
        err (
            coded (code_for_errno st.errno (codes "root_not_found") (codes "root_not_found")) none),
      )
      else if not (is_dir (parse_kind st.mode))
      then (w, c, err (coded (codes "not_a_directory") none))
      else if not (contains_dev vol (pos st.dev))
      then (w, c, err (coded (codes "volume_unresolved") none))
      else walk_dir walk_fuel root 1 w c

  unfoldable pub walk_root : AuthorizedPath → Walk S E → SyncConn → Walked S E
  walk_root root w c = root_answer root w (lstat root.path c)
