-- ===== src/Wire/Services.antt =====
-- foundation/adbwire/adbwire.go: what a caller asks of the server, and how the payloads are read.
pub mod Listings
pub mod Version
use adb_broker.Prelude.{
  ℕ, zero, suc, ◌+◌, ◌-◌, ◌*◌, ◌/◌, ◌%◌, ◌^◌, ◌≤◌, ◌<◌, min, max, bit_and, ◌≡◌, refl, sym, ap, ap₂,
  ◌∙◌, subst, ◌≢◌, ◌↔◌, ◌⊎◌, inl, inr, Bool, true, false, ◌&&◌, ◌||◌, not, Option, none, some, List,
  [], ◌∷◌, ◌++◌, append_assoc, append-nil, arith, ltb, leb, ◌==◌, if◌then◌else◌, ==_iff, ==_refl,
  Bool-cases, Option-cases, and_true, length, take, drop, get_elem?, replicate, length-append,
  length-take, length-drop, length-replicate, take-append-drop, take-length_append, take_all,
  drop-length_append, drop_at, get_elem?-append_length, All, All-append, All-append_left,
  All-append_right, Any, Any-map, All-map, All-Any, Bytes, codes, bytes_eq, contains_byte,
  has_prefix, bytes_lt, bytes_eq_refl, eq_of_bytes_eq, bytes_eq_iff, Result, ok, err, Result-cases,
  cut_at, split_on, decimal,
}
use adb_broker.Wire.Socket.{WireError, bad_version, bad_device_line}
use adb_broker.Wire.Frames.{parse_hex}
use adb_broker.Wire.Conn.{Conn, svc_version, svc_devices, svc_features, check_serial, query}

pub record DeviceEntry : Type 0 where
  pub serial : Bytes
  pub state : Bytes

abbrev pub version_of : Option ℕ → Result WireError Bytes
version_of none = err bad_version
version_of (some n) = ok (codes "1.0." ++ decimal n)

-- What a command makes of the payload of its query.
abbrev pub reading :
    {A : Type 0}
    → (Bytes → Result WireError A)
    → Conn × Result WireError Bytes
    → Conn × Result WireError A
reading f (c, err e) = (c, err e)
reading f (c, ok payload) = (c, f payload)

unfoldable pub server_version : Conn → Conn × Result WireError Bytes
server_version c = reading (λ payload. version_of (parse_hex payload)) (query svc_version c)

-- The entry that a line spells.
abbrev pub entry_of : Option (Bytes × Bytes) → Option DeviceEntry
entry_of none = none
entry_of (some (serial, state)) =
    if bytes_eq serial [] || bytes_eq state []
    then none
    else some (record { serial = serial; state = state })

abbrev pub with_entry :
    Option DeviceEntry → Result WireError (List DeviceEntry) → Result WireError (List DeviceEntry)
with_entry none rest = err bad_device_line
with_entry (some e) (err x) = err x
with_entry (some e) (ok es) = ok (e ∷ es)

-- The loop of `Devices`.
unfoldable pub parse_lines : List Bytes → Result WireError (List DeviceEntry)
parse_lines [] = ok []
parse_lines (line ∷ lines) =
    let rest = parse_lines lines in
    if bytes_eq line [] then rest else with_entry (entry_of (cut_at 9 line)) rest

unfoldable pub devices : Conn → Conn × Result WireError (List DeviceEntry)
devices c = reading (λ payload. parse_lines (split_on 10 payload)) (query svc_devices c)

-- The loop of `DeviceFeatures`.
unfoldable pub non_empty : List Bytes → List Bytes
non_empty [] = []
non_empty (f ∷ fs) = let rest = non_empty fs in if bytes_eq f [] then rest else f ∷ rest

abbrev pub features_checked :
    Bytes → Conn → Result WireError (Unit {0}) → Conn × Result WireError (List Bytes)
features_checked serial c (err e) = (c, err e)
features_checked serial c (ok _) =
    reading (λ payload. ok (non_empty (split_on 44 payload))) (query (svc_features serial) c)

unfoldable pub device_features : Bytes → Conn → Conn × Result WireError (List Bytes)
device_features serial c = features_checked serial c (check_serial serial)
