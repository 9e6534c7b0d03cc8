-- ===== src/Device/Bus/Pinning.antt =====
-- business/domain/device/devicebus: the pinned volume of a `Business` over any calls.
use adb_broker.Prelude.{
  ◌≡◌, refl, sym, ap, ◌∙◌, ◌⊎◌, inl, inr, Bool, true, false, Option, none, some, List, [], ◌∷◌,
}
use adb_broker.DevicePath.{AuthorizedPath}
use adb_broker.DevicePath.Volume.{Volume}
use adb_broker.Serial.{Serial}
use adb_broker.Device.Bus.{
  Device, ListInput, Listing, FetchResult, Storer, Business, new_business, newly_resolved,
  resolved_or, resolve_once, with_volume, probed, probe, listed, list_on, list, fetched, fetch_on,
  fetch,
}

-- The calls that one can make of a `Business`.
pub data BusCall (Fn Out : Type 0) : Type 0 where
  probe_call : Serial → BusCall Fn Out
  list_call : ListInput → Fn → BusCall Fn Out
  fetch_call : AuthorizedPath → Out → BusCall Fn Out

module _ {T E Fn Out : Type 0} (store : Storer T E Fn Out) where
  abbrev pub step : BusCall Fn Out → Business T → Business T
  step (probe_call s) b = (probe store s b).0
  step (list_call i fn) b = (list store i fn b).0
  step (fetch_call p out) b = (fetch store p out b).0

  unfoldable pub run_calls : List (BusCall Fn Out) → Business T → Business T
  run_calls [] b = b
  run_calls (c ∷ cs) b = run_calls cs (step c b)

  -- The pinned volume is what the store has resolved at some time, and what a later call finds.
  abbrev pub Came : Business T → Type 0
  Came b =
      (b.resolved ≡ true)
      × ((t : T) × ((store.resolve_volume t).1 ≡ b.volume) × ((store.resolve_volume t).2 ≡ none))

  -- From a state that has pinned no volume or one of the store's, a call leaves such a state, and keeps a pin.
  abbrev pub Follows : Business T → Business T → Type 0
  Follows b b' =
      (((b'.resolved ≡ false) ⊎ Came b'))
      × (b.resolved ≡ true → (b'.resolved ≡ true) × (b'.volume ≡ b.volume))

  abbrev IsPinnable : Business T → Type 0
  IsPinnable b = (b.resolved ≡ false) ⊎ Came b

  same_pin :
      (b b' : Business T)
      → IsPinnable b
      → b'.resolved ≡ b.resolved
      → b'.volume ≡ b.volume
      → Follows b b'
  same_pin b b' (inl n) e f = (inl (e ∙ n), λ h. (e ∙ h, f))
  same_pin b b' (inr (r, (t, g, h))) e f = (inr (e ∙ r, (t, g ∙ sym f, h)), λ q. (e ∙ q, f))

  resolve_once-Follows : (b : Business T) → IsPinnable b → Follows b (resolve_once store b).0
  unfolding resolve_once
  resolve_once-Follows b w = chosen b.resolved refl
    where
      answered :
          (x : T × Volume × Option E)
          → store.resolve_volume b.state ≡ x
          → b.resolved ≡ false
          → Follows b (newly_resolved store b x).0
      answered (t, v, some e) q n = (inl n, λ h. absurd (cc))
      answered (t, v, none) q n =
          (inr (refl, (b.state, ap (λ y. y.1) q, ap (λ y. y.2) q)), λ h. absurd (cc))

      chosen : (r : Bool) → b.resolved ≡ r → Follows b (resolved_or store r b).0
      chosen true q = same_pin b b w refl refl
      chosen false q = answered (store.resolve_volume b.state) refl q

  Follows-next :
      (b c d : Business T)
      → Follows b c
      → d.resolved ≡ c.resolved
      → d.volume ≡ c.volume
      → Follows b d
  Follows-next b c d (w, k) e f = ((same_pin c d w e f).0, λ h. (e ∙ (k h).0, f ∙ (k h).1))

  step-Follows : (call : BusCall Fn Out) (b : Business T) → IsPinnable b → Follows b (step call b)
  unfolding probe list fetch
  step-Follows (probe_call s) b w = probed_by (store.probe s b.state)
    where
      pinned :
          (c : Business T) (d : Device) (x : Business T × Volume × Option E)
          → Follows c x.0
          → Follows c (with_volume store d x).0
      pinned c d (b', v, some e) h = h
      pinned c d (b', v, none) h = h

      probed_by : (x : T × Device × Option E) → Follows b (probed store b x).0
      probed_by (t, d, some e) = same_pin b (record b { state = t }) w refl refl
      probed_by (t, d, none) =
          pinned (record b { state = t }) d (resolve_once store (record b { state = t }))
            (resolve_once-Follows (record b { state = t }) w)
  step-Follows (list_call i fn) b w = on (resolve_once store b) (resolve_once-Follows b w)
    where
      kept :
          (c : Business T) (v : Volume) (x : T × Listing × Option E)
          → Follows b c
          → Follows b (listed store c v x).0
      kept c v (t, l, some e) h = Follows-next b c (record c { state = t }) h refl refl
      kept c v (t, l, none) h = Follows-next b c (record c { state = t }) h refl refl

      on : (x : Business T × Volume × Option E) → Follows b x.0 → Follows b (list_on store i fn x).0
      on (c, v, some e) h = h
      on (c, v, none) h = kept c v (store.list i v fn c.state) h
  step-Follows (fetch_call p out) b w = on (resolve_once store b) (resolve_once-Follows b w)
    where
      kept :
          (c : Business T) (v : Volume) (x : T × FetchResult × Option E)
          → Follows b c
          → Follows b (fetched store c v x).0
      kept c v (t, r, some e) h = Follows-next b c (record c { state = t }) h refl refl
      kept c v (t, r, none) h = Follows-next b c (record c { state = t }) h refl refl

      on :
          (x : Business T × Volume × Option E)
          → Follows b x.0
          → Follows b (fetch_on store p out x).0
      on (c, v, some e) h = h
      on (c, v, none) h = kept c v (store.fetch p v out c.state) h

  run-Follows :
      (calls : List (BusCall Fn Out)) (b : Business T)
      → IsPinnable b
      → Follows b (run_calls calls b)
  unfolding run_calls
  run-Follows [] b w = same_pin b b w refl refl
  run-Follows (c ∷ cs) b w =
      let (w', k) = step-Follows c b w in
      let (w'', k') = run-Follows cs (step c b) w' in
      (w'', λ h. let (r, v) = k h in let (r', v') = k' r in (r', v' ∙ v))

  -- After any calls of a new `Business`, its volume is none, or one that the store resolved without an error; and
  -- whatever is called after that, a volume once pinned stays pinned, the same.
  pub run_calls-Follows :
      (first later : List (BusCall Fn Out)) (t : T)
      → Follows
          (run_calls first (new_business t))
          (run_calls later (run_calls first (new_business t)))
  run_calls-Follows first later t =
      run-Follows later (run_calls first (new_business t))
        (run-Follows first (new_business t) (inl refl)).0
