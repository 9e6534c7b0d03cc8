-- ===== src/Device/Walker.antt =====
-- business/domain/device/stores/adbsyncdb/walk.go and convert.go: a walker's state, and what it counts.
use adb_broker.Prelude.{
  ℕ, ◌+◌, Bool, true, false, Option, none, some, List, [], ◌∷◌, ◌++◌, if◌then◌else◌, codes, Result,
  ok, err,
}
use adb_broker.Wire.Socket.{WireError}
use adb_broker.Wire.Stat.{Stat}
use adb_broker.Wire.Session.{SyncConn}
use adb_broker.DevicePath.{AuthorizedPath, Denial, is_zero}
use adb_broker.Filekind.{Kind, parse_kind}
use adb_broker.Mtime.{Mtime, parse_mtime}
use adb_broker.Errcode.{Code}
use adb_broker.Device.Codes.{code_for_errno}

pub record FileRecord : Type 0 where
  pub file : AuthorizedPath
  pub size : ℕ
  pub modified : Mtime
  pub kind : Kind

pub record PathError : Type 0 where
  pub at : AuthorizedPath
  pub code : Code

-- `Files`, `RefusedEntries` and `Errors` of `ListSummary`; the volume is set by the caller of the store.
pub record ListSummary : Type 0 where
  pub files : ℕ
  pub refused_entries : ℕ
  pub errors : List PathError

-- What a walk fails with: a code, with the error of the session that it was made from; or what the
-- caller's callback returned. `walk_out_of_fuel` is the model's.
pub data WalkError (E : Type 0) : Type 0 where
  coded : Code → Option WireError → WalkError E
  by_caller : E → WalkError E
  walk_out_of_fuel : WalkError E

-- `toBusFileRecord`: a stat of the wire has no negative size.
unfoldable pub to_bus_file_record : AuthorizedPath → Stat → Option FileRecord
to_bus_file_record p st =
    if is_zero p
    then none
    else some (record {
      file = p;
      size = st.size;
      modified = parse_mtime st.mtime;
      kind = parse_kind st.mode;
    })

-- The walker, less what does not change and the session; with the state of the caller's callback. `is_dropped`
-- is that the store has forgotten the session, which every error of a command means.
pub record Walk (S E : Type 0) : Type 0 where
  pub user : S
  pub caller_err : Option E
  pub summary : ListSummary
  pub root_rechecked : Bool
  pub is_dropped : Bool

-- One level: the walker, and what `walkDir` collects of a listing.
pub record Level (S E : Type 0) : Type 0 where
  pub walk : Walk S E
  pub children : List AuthorizedPath
  pub saw_off_pin : Bool

module _ {S E : Type 0} where
  abbrev pub drop_session : Walk S E → Walk S E
  drop_session w = record w { is_dropped = true }

  abbrev pub add_error : Walk S E → AuthorizedPath → Code → Walk S E
  add_error w p code = record w {
    summary = record w.summary {
      errors = w.summary.errors ++ (record { at = p; code = code } ∷ []);
    };
  }

  abbrev pub refuse : Walk S E → Walk S E
  refuse w = record w {
    summary = record w.summary { refused_entries = w.summary.refused_entries + 1 };
  }

  abbrev pub level_of : Walk S E → Level S E
  level_of w = record { walk = w; children = []; saw_off_pin = false }

  -- What the callback made of a record.
  abbrev pub called : Walk S E → S × Option E → Walk S E
  called w (s, some e) = record w { user = s; caller_err = some e }
  called w (s, none) = record w {
    user = s;
    summary = record w.summary { files = w.summary.files + 1 };
  }

  abbrev pub named_child :
      Walk S E → AuthorizedPath → Result Denial AuthorizedPath → Walk S E × Option AuthorizedPath
  named_child w dir (err e) = (add_error w dir (codes "path_denied"), none)
  named_child w dir (ok c) = (w, some c)

  abbrev pub noted : ℕ → Walk S E × Option AuthorizedPath → Walk S E
  noted errno (w, none) = w
  noted errno (w, some c) =
      add_error w c (code_for_errno errno (codes "path_not_found") (codes "transfer_failed"))

  abbrev pub kept_child : Level S E → Walk S E × Option AuthorizedPath → Level S E
  kept_child l (w, none) = record l { walk = w }
  kept_child l (w, some c) = record l { walk = w; children = l.children ++ (c ∷ []) }

abbrev pub is_some : {E : Type 0} → Option E → Bool
is_some none = false
is_some (some e) = true

-- What a walk leaves: the walker, the session and the result.
abbrev pub Walked : Type 0 → Type 0 → Type 0
Walked S E = Walk S E × SyncConn × Result (WalkError E) (Unit {0})

abbrev pub and_then : {S E : Type 0} → Walked S E → (Walk S E → SyncConn → Walked S E) → Walked S E
and_then (w, c, err e) next = (w, c, err e)
and_then (w, c, ok _) next = next w c
