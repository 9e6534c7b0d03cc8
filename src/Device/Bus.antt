-- ===== src/Device/Bus.antt =====
-- business/domain/device/devicebus: the operations on a device, which pin its volume first.
pub mod Pinning
use adb_broker.Prelude.{
  ℕ, zero, suc, ◌+◌, ◌-◌, ◌*◌, ◌/◌, ◌%◌, ◌^◌, ◌≤◌, ◌<◌, min, max, bit_and, ◌≡◌, refl, sym, ap, ap₂,
  ◌∙◌, subst, ◌≢◌, ◌↔◌, ◌⊎◌, inl, inr, Bool, true, false, ◌&&◌, ◌||◌, not, Option, none, some, List,
  [], ◌∷◌, ◌++◌, append_assoc, append-nil, arith, ltb, leb, ◌==◌, if◌then◌else◌, ==_iff, ==_refl,
  Bool-cases, Option-cases, and_true, length, take, drop, get_elem?, replicate, length-append,
  length-take, length-drop, length-replicate, take-append-drop, take-length_append, take_all,
  drop-length_append, drop_at, get_elem?-append_length, All, All-append, All-append_left,
  All-append_right, Any, Any-map, All-map, All-Any, Bytes, codes, bytes_eq, contains_byte,
  has_prefix, bytes_lt, bytes_eq_refl, eq_of_bytes_eq, bytes_eq_iff, Result, ok, err, ◌>>=◌, ◌>>◌,
  Result-cases, digits, decimal, split_on, cut_behind, cut_at, push, decimal_value,
  decimal_value-digits, split_on_line, cut_at_line, contains_byte-append,
}
use adb_broker.Wire.Numbers.{pos}
use adb_broker.DevicePath.{AuthorizedPath}
use adb_broker.DevicePath.Volume.{Volume}
use adb_broker.Serial.{Serial}
use adb_broker.Device.Walker.{ListSummary}

pub record Device : Type 0 where
  pub serial : Serial
  pub state : Bytes
  pub broker_version : Bytes
  pub server_version : Bytes
  pub features : List Bytes
  pub attached_devices : ℕ
  pub volume : Volume

pub record ListInput : Type 0 where
  pub root : AuthorizedPath
  pub serial : Serial
  pub max_depth : ℕ

-- A listing's summary, with the volume that it was made on.
pub record Listing : Type 0 where
  pub summary : ListSummary
  pub volume : Volume

pub record FetchResult : Type 0 where
  pub bytes : ℕ
  pub sha256 : Bytes
  pub volume : Volume
  pub serial : Serial

abbrev pub zero_volume : Volume
zero_volume = record { dev = pos 0; ino = pos 0; resolved = false }

abbrev pub zero_device : Device
zero_device = record {
  serial = record { value = [] };
  state = [];
  broker_version = [];
  server_version = [];
  features = [];
  attached_devices = 0;
  volume = zero_volume;
}

abbrev pub zero_listing : Listing
zero_listing = record {
  summary = record { files = 0; refused_entries = 0; errors = [] };
  volume = zero_volume;
}

abbrev pub zero_fetch : FetchResult
zero_fetch = record { bytes = 0; sha256 = []; volume = zero_volume; serial = record { value = [] } }

-- The port `Storer`, on a state `T` of the store and of what the callers' callbacks keep. A call returns a value
-- and an error, as in Go. `Fn` is the callback of a listing, `Out` the writer and the callback of a fetch.
pub record Storer (T E Fn Out : Type 0) : Type 0 where
  pub probe : Serial → T → T × Device × Option E
  pub resolve_volume : T → T × Volume × Option E
  pub list : ListInput → Volume → Fn → T → T × Listing × Option E
  pub fetch : AuthorizedPath → Volume → Out → T → T × FetchResult × Option E

pub record Business (T : Type 0) : Type 0 where
  pub state : T
  pub volume : Volume
  pub resolved : Bool

abbrev pub new_business : {T : Type 0} → T → Business T
new_business t = record { state = t; volume = zero_volume; resolved = false }

module _ {T E Fn Out : Type 0} (store : Storer T E Fn Out) where
  abbrev pub newly_resolved : Business T → T × Volume × Option E → Business T × Volume × Option E
  newly_resolved b (t, v, some e) = (record b { state = t }, zero_volume, some e)
  newly_resolved b (t, v, none) = (record { state = t; volume = v; resolved = true }, v, none)

  abbrev pub resolved_or : Bool → Business T → Business T × Volume × Option E
  resolved_or true b = (b, b.volume, none)
  resolved_or false b = newly_resolved b (store.resolve_volume b.state)

  unfoldable pub resolve_once : Business T → Business T × Volume × Option E
  resolve_once b = resolved_or b.resolved b

  abbrev pub with_volume : Device → Business T × Volume × Option E → Business T × Device × Option E
  with_volume d (b, v, some e) = (b, zero_device, some e)
  with_volume d (b, v, none) = (b, record d { volume = v }, none)

  abbrev pub probed : Business T → T × Device × Option E → Business T × Device × Option E
  probed b (t, d, some e) = (record b { state = t }, zero_device, some e)
  probed b (t, d, none) = with_volume d (resolve_once (record b { state = t }))

  unfoldable pub probe : Serial → Business T → Business T × Device × Option E
  probe s b = probed b (store.probe s b.state)

  abbrev pub listed : Business T → Volume → T × Listing × Option E → Business T × Listing × Option E
  listed b v (t, l, some e) = (record b { state = t }, l, some e)
  listed b v (t, l, none) = (record b { state = t }, record l { volume = v }, none)

  abbrev pub list_on :
      ListInput → Fn → Business T × Volume × Option E → Business T × Listing × Option E
  list_on i fn (b, v, some e) = (b, zero_listing, some e)
  list_on i fn (b, v, none) = listed b v (store.list i v fn b.state)

  unfoldable pub list : ListInput → Fn → Business T → Business T × Listing × Option E
  list i fn b = list_on i fn (resolve_once b)

  abbrev pub fetched :
      Business T → Volume → T × FetchResult × Option E → Business T × FetchResult × Option E
  fetched b v (t, r, some e) = (record b { state = t }, r, some e)
  fetched b v (t, r, none) = (record b { state = t }, record r { volume = v }, none)

  abbrev pub fetch_on :
      AuthorizedPath → Out → Business T × Volume × Option E → Business T × FetchResult × Option E
  fetch_on p out (b, v, some e) = (b, zero_fetch, some e)
  fetch_on p out (b, v, none) = fetched b v (store.fetch p v out b.state)

  unfoldable pub fetch : AuthorizedPath → Out → Business T → Business T × FetchResult × Option E
  fetch p out b = fetch_on p out (resolve_once b)
