-- ===== src/Device/Audited/History.antt =====
-- business/domain/device/devicebus/extensions/deviceaudit: the extension over any calls.
use adb_broker.Prelude.{
  ℕ, ◌+◌, ◌≤◌, ◌≡◌, refl, sym, ap, ap₂, ◌∙◌, subst, ◌⊎◌, inl, inr, Bool, true, false, Option, none,
  some, List, [], ◌∷◌, ◌++◌, arith, length, Bytes, Result, ok, err,
}
use adb_broker.Wire.Numbers.{ℤ}
use adb_broker.Errcode.{Code}
use adb_broker.Audit.Record.{Record}
use adb_broker.Audit.Lines.{Platform}
use adb_broker.Audit.Log.{Log, AppendError, Summary, append, verify_chain}
use adb_broker.Audit.Log.Tamper.{IsSum}
use adb_broker.Audit.Log.History.{
  new_log, ReadsBack, Written, created, appended, verify_chain-append,
}
use adb_broker.Device.Bus.{
  Device, Listing, FetchResult, Storer, Business, new_business, probe, list, fetch,
}
use adb_broker.Device.Bus.Pinning.{BusCall, probe_call, list_call, fetch_call, step, run_calls}
use adb_broker.Device.Audited.{
  Entry, Audited, Moment, report_once, anchor, after_append, audit_record, append_entry,
  probe_entry, list_entry, fetch_entry, audited_probe, audited_list, audited_fetch,
}

-- The extension on a log that was just created.
abbrev pub new_audited : {T A : Type 0} → T → Bytes → ℤ → Bytes → Audited T A
new_audited t path uid asserted = record {
  bus = new_business t;
  log = new_log path;
  caller_uid = uid;
  client_asserted = asserted;
  is_reported = false;
  stderr = [];
}

module _ {T A : Type 0} where
  -- At most one failure of an anchor is written, and none is reported without being written.
  abbrev pub Quiet : Audited T A → Type 0
  Quiet ext =
      ((ext.is_reported ≡ false) × (ext.stderr ≡ []))
      ⊎ ((ext.is_reported ≡ true) × (length ext.stderr ≡ 1))

  anchor-same :
      (ext : Audited T A) (a : Option A)
      → ((anchor ext a).bus ≡ ext.bus) × ((anchor ext a).log ≡ ext.log)
  unfolding anchor
  anchor-same ext none = (refl, refl)
  anchor-same ext (some a) = reported ext.is_reported
    where
      reported :
          (b : Bool) → ((report_once ext a b).bus ≡ ext.bus) × ((report_once ext a b).log ≡ ext.log)
      reported true = (refl, refl)
      reported false = (refl, refl)

  anchor-Quiet : (ext : Audited T A) (a : Option A) → Quiet ext → Quiet (anchor ext a)
  unfolding anchor
  anchor-Quiet ext none q = q
  anchor-Quiet ext (some a) (inl (n, e)) =
      subst (λ b. Quiet (report_once ext a b)) (sym n)
        (inr (refl, ap (λ l. length (l ++ (a ∷ []))) e))
  anchor-Quiet ext (some a) (inr (r, e)) =
      subst (λ b. Quiet (report_once ext a b)) (sym r) (inr (r, e))

module _ {T E Fn Out : Type 0} (store : Storer T E Fn Out) where
  -- The entry of a call.
  abbrev pub call_entry : (Bytes → Bytes) → BusCall Fn Out → Business T → Entry E
  call_entry base64 (probe_call s) b = let (b', d, e) = probe store s b in probe_entry s d e
  call_entry base64 (list_call i fn) b =
      let (b', l, e) = list store i fn b in list_entry base64 i l e
  call_entry base64 (fetch_call path out) b =
      let (b', r, e) = fetch store path out b in fetch_entry base64 path r e

-- What a call answers: its value and its error.
pub data Answer (E : Type 0) : Type 0 where
  device_answer : Device → Option E → Answer E
  listing_answer : Listing → Option E → Answer E
  fetch_answer : FetchResult → Option E → Answer E

abbrev as_device : {X E : Type 0} → X × Device × Option E → Answer E
as_device (x, d, e) = device_answer d e

abbrev as_listing : {X E : Type 0} → X × Listing × Option E → Answer E
as_listing (x, l, e) = listing_answer l e

abbrev as_fetch : {X E : Type 0} → X × FetchResult × Option E → Answer E
as_fetch (x, r, e) = fetch_answer r e

module _ {T E Fn Out : Type 0} (store : Storer T E Fn Out) where
  abbrev pub bus_answer : BusCall Fn Out → Business T → Answer E
  bus_answer (probe_call s) b = as_device (probe store s b)
  bus_answer (list_call i fn) b = as_listing (list store i fn b)
  bus_answer (fetch_call path out) b = as_fetch (fetch store path out b)

  -- What the calls answer, in order.
  abbrev pub bus_answers : List (BusCall Fn Out) → Business T → List (Answer E)
  bus_answers [] b = []
  bus_answers (c ∷ cs) b = bus_answer c b ∷ bus_answers cs (step store c b)

module _ {Time T E Fn Out A : Type 0} (p : Platform Time) (base64 : Bytes → Bytes)
    (code_of : E → Option Code) (store : Storer T E Fn Out) where
  abbrev pub audited_step : Moment Time A → BusCall Fn Out → Audited T A → Audited T A
  audited_step m (probe_call s) ext = (audited_probe p base64 code_of store m s ext).0
  audited_step m (list_call i fn) ext = (audited_list p base64 code_of store m i fn ext).0
  audited_step m (fetch_call path out) ext = (audited_fetch p base64 code_of store m path out ext).0

  abbrev pub run_audited : List (Moment Time A × BusCall Fn Out) → Audited T A → Audited T A
  run_audited [] ext = ext
  run_audited ((m, c) ∷ cs) ext = run_audited cs (audited_step m c ext)

  abbrev pub calls_of : List (Moment Time A × BusCall Fn Out) → List (BusCall Fn Out)
  calls_of [] = []
  calls_of ((m, c) ∷ cs) = c ∷ calls_of cs

  audited_step_lem :
      (m : Moment Time A) (c : BusCall Fn Out) (ext : Audited T A)
      → audited_step m c ext
        ≡ append_entry p base64 code_of store m
            (record ext { bus = step store c ext.bus })
            (call_entry store base64 c ext.bus)
  unfolding audited_probe audited_list audited_fetch
  audited_step_lem m (probe_call s) ext = refl
  audited_step_lem m (list_call i fn) ext = refl
  audited_step_lem m (fetch_call path out) ext = refl

  append_entry-bus :
      (m : Moment Time A) (ext : Audited T A) (e : Entry E)
      → (append_entry p base64 code_of store m ext e).bus ≡ ext.bus
  unfolding append_entry
  append_entry-bus m ext e =
      logged (append p m.outcome ext.log (audit_record p base64 code_of store m ext e))
    where
      logged :
          (x : Log × Result AppendError (Record Time))
          → (after_append ext m.anchor_failure x).bus ≡ ext.bus
      logged (l, err z) = refl
      logged (l, ok r) = (anchor-same (record ext { log = l }) m.anchor_failure).0

  step-bus :
      (m : Moment Time A) (c : BusCall Fn Out) (ext : Audited T A)
      → (audited_step m c ext).bus ≡ step store c ext.bus
  step-bus m c ext =
      ap (λ (x : Audited T A). x.bus) (audited_step_lem m c ext)
      ∙ append_entry-bus m (record ext { bus = step store c ext.bus })
          (call_entry store base64 c ext.bus)

  abbrev pub audited_answer : Moment Time A → BusCall Fn Out → Audited T A → Answer E
  audited_answer m (probe_call s) ext = as_device (audited_probe p base64 code_of store m s ext)
  audited_answer m (list_call i fn) ext =
      as_listing (audited_list p base64 code_of store m i fn ext)
  audited_answer m (fetch_call path out) ext =
      as_fetch (audited_fetch p base64 code_of store m path out ext)

  abbrev pub audited_answers : List (Moment Time A × BusCall Fn Out) → Audited T A → List (Answer E)
  audited_answers [] ext = []
  audited_answers ((m, c) ∷ cs) ext =
      audited_answer m c ext ∷ audited_answers cs (audited_step m c ext)

  answer-bus :
      (m : Moment Time A) (c : BusCall Fn Out) (ext : Audited T A)
      → audited_answer m c ext ≡ bus_answer store c ext.bus
  unfolding audited_probe audited_list audited_fetch
  answer-bus m (probe_call s) ext = refl
  answer-bus m (list_call i fn) ext = refl
  answer-bus m (fetch_call path out) ext = refl

  -- The audit changes nothing of the device's side: for any calls, whatever becomes of their records and
  -- anchors, each call answers with the value and the error that the bare bus answers with, and the decorated
  -- bus ends where the bare one does.
  pub run_audited-bus :
      (calls : List (Moment Time A × BusCall Fn Out)) (ext : Audited T A)
      → (audited_answers calls ext ≡ bus_answers store (calls_of calls) ext.bus)
        × ((run_audited calls ext).bus ≡ run_calls store (calls_of calls) ext.bus)
  unfolding run_calls
  run_audited-bus [] ext = (refl, refl)
  run_audited-bus ((m, c) ∷ cs) ext =
      let (answers, bus) = run_audited-bus cs (audited_step m c ext) in
      let after = step-bus m c ext in
      (
        ap₂ (λ a l. a ∷ l) (answer-bus m c ext)
            (answers ∙ ap (bus_answers store (calls_of cs)) after),
        bus ∙ ap (run_calls store (calls_of cs)) after,
      )

  -- So many calls on a new log, each of them recorded.
  pub data Recorded : Audited T A → ℕ → Type 0 where
    started :
        (t : T) (path : Bytes) (uid : ℤ) (asserted : Bytes)
        → Recorded (new_audited t path uid asserted) 0
    called :
        {ext : Audited T A} {n : ℕ} (m : Moment Time A) (c : BusCall Fn Out) (l : Log)
        (stored : Record Time)
        → Recorded ext n
        → append p m.outcome ext.log (
            audit_record p base64 code_of store m
              (record ext { bus = step store c ext.bus })
              (call_entry store base64 c ext.bus))
          ≡ (l, ok stored)
        → ReadsBack p stored
        → Recorded (audited_step m c ext) (n + 1)

  append_entry-ok :
      (m : Moment Time A) (ext : Audited T A) (e : Entry E) (l : Log) (stored : Record Time)
      → append p m.outcome ext.log (audit_record p base64 code_of store m ext e) ≡ (l, ok stored)
      → append_entry p base64 code_of store m ext e
        ≡ anchor (record ext { log = l }) m.anchor_failure
  unfolding append_entry
  append_entry-ok m ext e l stored h = ap (after_append ext m.anchor_failure) h

  Recorded-Written : (ext : Audited T A) (n : ℕ) → Recorded ext n → Written p ext.log n × Quiet ext
  Recorded-Written ext n (started t path uid asserted) = (created path, inl (refl, refl))
  Recorded-Written ext n (called {ext = old} {n = k} m c l stored v h b) =
      let (w, q) = Recorded-Written old k v in
      let same =
        audited_step_lem m c old
        ∙ append_entry-ok m (record old { bus = step store c old.bus })
            (call_entry store base64 c old.bus) l stored h in
      let logged = record old { bus = step store c old.bus; log = l } in
      (
        subst (λ x. Written p x (k + 1))
            (sym (ap (λ (x : Audited T A). x.log) same ∙ (anchor-same logged m.anchor_failure).1))
            (appended l m.outcome _ stored w h b),
        subst Quiet (sym same) (anchor-Quiet logged m.anchor_failure q),
      )

  -- Calls on a new log, each recorded: the file verifies, with exactly as many records as there were calls,
  -- allowed and denied ones alike, and at most one failure of an anchor was reported. The conditions:
  -- SHA-256 gives 32 bytes, each append succeeded, and the decoder of JSON reads each stored line back.
  pub Recorded-verifies :
      (ext : Audited T A) (n : ℕ)
      → IsSum p
      → Recorded ext n
      → (s : Summary) × (verify_chain p false ext.log.file ≡ (s, ok tt))
        × (s.records ≡ n)
        × (length ext.stderr ≤ 1)
  Recorded-verifies ext n w v =
      let (written, q) = Recorded-Written ext n v in
      let (s, e, count, _, _) = verify_chain-append p ext.log n w written in (s, e, count, few q)
    where
      few : Quiet ext → length ext.stderr ≤ 1
      few (inl (_, e)) = subst (λ l. length l ≤ 1) (sym e) (omega arith)
      few (inr (_, e)) = omega (arith, e)
