-- ===== src/Device/Port/Confined.antt =====
-- devicebus on adbsyncdb: what a listing does to the caller's state.
use adb_broker.Prelude.{
  ◌≡◌, refl, sym, ap, ◌∙◌, subst, inl, inr, Bool, true, false, Option, none, some, List, [],
  Bool-cases, Bytes, Result, ok, err,
}
use adb_broker.DevicePath.{is_zero}
use adb_broker.DevicePath.Volume.{Volume, is_zero_volume}
use adb_broker.Wire.Session.{SyncConn}
use adb_broker.Device.Walker.{FileRecord, WalkError, Walk}
use adb_broker.Device.Walk.Effects.{Survives, walk_root_confined}
use adb_broker.Device.Bus.{
  ListInput, Listing, Storer, Business, newly_resolved, resolved_or, resolve_once, listed, list_on,
  list,
}
use adb_broker.Device.Store.{Session, Store, session_locked}
use adb_broker.Device.Store.Operations.{walk_on, store_list}
use adb_broker.Device.Port.{Destination, store_port}

-- The walker of a listing at its start.
abbrev pub new_walk : {U E : Type 0} → U → Walk U E
new_walk user = record {
  user = user;
  caller_err = none;
  summary = record { files = 0; refused_entries = 0; errors = [] };
  root_rechecked = false;
  is_dropped = false;
}

module _ {U E : Type 0} (roots : List Bytes) (to_lower sum : Bytes → Bytes)
    (cancelled : Walk U E → SyncConn → Bool) (P : U → Type 0) where
  abbrev port : Storer (Store × U) (WalkError E) (U → FileRecord → U × Option E) (Destination U E)
  port = store_port roots to_lower sum cancelled

  -- On the session that the store gives for the listing, every call on a confined record keeps the property.
  abbrev pub OnSession : Volume → ListInput → (U → FileRecord → U × Option E) → Store → U → Type 0
  OnSession vol i fn s user =
      (sess : Session)
      → (session_locked E to_lower s i.serial).1 ≡ ok sess
      → Survives roots vol fn i.root (new_walk user) sess.sc P

  store_list_confined :
      (vol : Volume) (i : ListInput) (fn : U → FileRecord → U × Option E) (s : Store) (user : U)
      → OnSession vol i fn s user
      → P user
      → P (store_list E to_lower roots vol i.max_depth fn cancelled s i.root i.serial user).1
  unfolding store_list
  store_list_confined vol i fn s user k h = elim (Bool-cases (is_zero_volume vol)) [
    | inl a ↦ rw a h
    | inr a ↦ elim (Bool-cases (is_zero i.root)) [
      | inl b ↦ rw (a, b) h
      | inr b ↦ rw (a, b) (walked (session_locked E to_lower s i.serial) refl)
    ]
  ]
    where
      walked :
          (x : Store × Result (WalkError E) Session)
          → session_locked E to_lower s i.serial ≡ x
          → P (walk_on E to_lower roots vol i.max_depth fn cancelled i.root user x).1
      walked (t, err e) q = h
      walked (t, ok sess) q =
          walk_root_confined roots to_lower vol i.max_depth fn cancelled P i.root (new_walk user)
            sess.sc refl (k sess (ap (λ y. y.1) q)) h

  -- Resolving the volume leaves the caller's state, and what it gives is what the bus has pinned.
  abbrev Resolves :
      Business (Store × U) → Business (Store × U) × Volume × Option (WalkError E) → Type 0
  Resolves b (c, v, some e) = c.state.1 ≡ b.state.1
  Resolves b (c, v, none) = (c.state.1 ≡ b.state.1) × (c.volume ≡ v)

  resolve_once-Resolves : (b : Business (Store × U)) → Resolves b (resolve_once port b)
  unfolding resolve_once store_port
  resolve_once-Resolves b = chosen b.resolved
    where
      answered :
          (x : (Store × U) × Volume × Option (WalkError E))
          → x.0.1 ≡ b.state.1
          → Resolves b (newly_resolved port b x)
      answered (t, v, some e) q = q
      answered (t, v, none) q = (q, refl)

      chosen : (r : Bool) → Resolves b (resolved_or port r b)
      chosen true = (refl, refl)
      chosen false = answered (port.resolve_volume b.state) refl

  -- A listing of the bus, whatever the device answers: a property of the caller's state is kept by the listing,
  -- if every call of the callback keeps it on the record of an entry that the device delivered on the store's
  -- session, in a listing of this walk, with a stat that has no error and is of a regular file on the volume
  -- that the bus has pinned after the listing, at a path of the allowlist inside the listed root.
  pub bus_list_confined :
      (i : ListInput) (fn : U → FileRecord → U × Option E) (b : Business (Store × U))
      → OnSession
          (list (store_port roots to_lower sum cancelled) i fn b).0.volume
          i
          fn
          (resolve_once (store_port roots to_lower sum cancelled) b).0.state.0
          b.state.1
      → P b.state.1
      → P (list (store_port roots to_lower sum cancelled) i fn b).0.state.1
  unfolding list store_port
  bus_list_confined i fn b k h = resolved_to (resolve_once port b) (resolve_once-Resolves b) k
    where
      done :
          (c : Business (Store × U)) (v : Volume) (x : (Store × U) × Listing × Option (WalkError E))
          → ((listed port c v x).0.state ≡ x.0) × ((listed port c v x).0.volume ≡ c.volume)
      done c v (t, l, some e) = (refl, refl)
      done c v (t, l, none) = (refl, refl)

      resolved_to :
          (x : Business (Store × U) × Volume × Option (WalkError E))
          → Resolves b x
          → OnSession (list_on port i fn x).0.volume i fn x.0.state.0 b.state.1
          → P (list_on port i fn x).0.state.1
      resolved_to (c, v, some e) q w = subst P (sym q) h
      resolved_to (c, v, none) (q, pin) w =
          let (st, vol) = done c v (port.list i v fn c.state) in
          subst (λ t. P t.1) (sym st)
            (store_list_confined v i fn c.state.0 c.state.1
              (subst (λ y. OnSession y i fn c.state.0 c.state.1) (vol ∙ pin)
                (subst (λ u. OnSession (list_on port i fn (c, v, none)).0.volume i fn c.state.0 u)
                  (sym q) w))
              (subst P (sym q) h))
