-- ===== src/Device/Port.antt =====
-- adbsyncdb as the store of devicebus: `*Store` satisfies `Storer`.
pub mod Confined
use adb_broker.Prelude.{
  ℕ, zero, suc, ◌+◌, ◌-◌, ◌*◌, ◌/◌, ◌%◌, ◌^◌, ◌≤◌, ◌<◌, min, max, bit_and, ◌≡◌, refl, sym, ap, ap₂,
  ◌∙◌, subst, ◌≢◌, ◌↔◌, ◌⊎◌, inl, inr, Bool, true, false, ◌&&◌, ◌||◌, not, Option, none, some, List,
  [], ◌∷◌, ◌++◌, append_assoc, append-nil, arith, ltb, leb, ◌==◌, if◌then◌else◌, ==_iff, ==_refl,
  Bool-cases, Option-cases, and_true, length, take, drop, get_elem?, replicate, length-append,
  length-take, length-drop, length-replicate, take-append-drop, take-length_append, take_all,
  drop-length_append, drop_at, get_elem?-append_length, All, All-append, All-append_left,
  All-append_right, Any, Any-map, All-map, All-Any, Bytes, codes, bytes_eq, contains_byte,
  has_prefix, bytes_lt, bytes_eq_refl, eq_of_bytes_eq, bytes_eq_iff, Result, ok, err, ◌>>=◌, ◌>>◌,
  Result-cases, digits, decimal, split_on, cut_behind, cut_at, push, decimal_value,
  decimal_value-digits, split_on_line, cut_at_line, contains_byte-append,
}
use adb_broker.DevicePath.{AuthorizedPath}
use adb_broker.DevicePath.Volume.{Volume}
use adb_broker.Serial.{Serial}
use adb_broker.Wire.Session.{SyncConn}
use adb_broker.Device.Walker.{FileRecord, ListSummary, WalkError, Walk}
use adb_broker.Device.Bus.{Device, ListInput, Listing, FetchResult, zero_volume, Storer}
use adb_broker.Device.Store.{Store}
use adb_broker.Device.Store.Operations.{store_probe, store_resolve, store_list, store_fetch}

-- The destination of a fetch, on the caller's state.
pub record Destination (U E : Type 0) : Type 0 where
  pub write : U → Bytes → U × ℕ × Bool
  pub before : ℕ → U → U × Option E

-- The state is the store and what the caller's callbacks keep; the store's summary has no volume.
unfoldable pub store_port :
    {U E : Type 0}
    → List Bytes
    → (Bytes → Bytes)
    → (Bytes → Bytes)
    → (Walk U E → SyncConn → Bool)
    → Storer (Store × U) (WalkError E) (U → FileRecord → U × Option E) (Destination U E)
store_port {U} {E} roots to_lower sum cancelled = record {
  probe = λ want t. let (s, d, e) = store_probe E to_lower t.0 want in ((s, t.1), d, e);
  resolve_volume = λ t. let (s, v, e) = store_resolve E to_lower t.0 in ((s, t.1), v, e);
  list = λ i v fn t.
      let (s, u, l, e) =
        store_list E to_lower roots v i.max_depth fn cancelled t.0 i.root i.serial t.1 in
      ((s, u), record { summary = l; volume = zero_volume }, e);
  fetch = λ p v out t.
      let (s, u, r, e) = store_fetch E to_lower out.write out.before sum t.0 p v t.1 in
      ((s, u), r, e);
}
