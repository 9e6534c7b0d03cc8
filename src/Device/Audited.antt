-- ===== src/Device/Audited.antt =====
-- business/domain/device/devicebus/extensions/deviceaudit: one record in the log for every call.
pub mod History
use adb_broker.Prelude.{
  ℕ, zero, suc, ◌+◌, ◌-◌, ◌*◌, ◌/◌, ◌%◌, ◌^◌, ◌≤◌, ◌<◌, min, max, bit_and, ◌≡◌, refl, sym, ap, ap₂,
  ◌∙◌, subst, ◌≢◌, ◌↔◌, ◌⊎◌, inl, inr, Bool, true, false, ◌&&◌, ◌||◌, not, Option, none, some, List,
  [], ◌∷◌, ◌++◌, append_assoc, append-nil, arith, ltb, leb, ◌==◌, if◌then◌else◌, ==_iff, ==_refl,
  Bool-cases, Option-cases, and_true, length, take, drop, get_elem?, replicate, length-append,
  length-take, length-drop, length-replicate, take-append-drop, take-length_append, take_all,
  drop-length_append, drop_at, get_elem?-append_length, All, All-append, All-append_left,
  All-append_right, Any, Any-map, All-map, All-Any, Bytes, codes, bytes_eq, contains_byte,
  has_prefix, bytes_lt, bytes_eq_refl, eq_of_bytes_eq, bytes_eq_iff, Result, ok, err, ◌>>=◌, ◌>>◌,
  Result-cases, digits, decimal, split_on, cut_behind, cut_at, push, decimal_value,
  decimal_value-digits, split_on_line, cut_at_line, contains_byte-append,
}
use adb_broker.Wire.Numbers.{ℤ, pos}
use adb_broker.DevicePath.{AuthorizedPath}
use adb_broker.DevicePath.Volume.{Volume}
use adb_broker.Serial.{Serial}
use adb_broker.Errcode.{Code, code_internal, from}
use adb_broker.Audit.Record.{Record}
use adb_broker.Audit.Lines.{Platform}
use adb_broker.Audit.Log.{Log, Outcome, AppendError, append}
use adb_broker.Device.Bus.{
  Device, ListInput, Listing, FetchResult, Storer, Business, probe, list, fetch,
}

-- What is recorded of a call.
pub record Entry (E : Type 0) : Type 0 where
  pub op : Bytes
  pub serial : Bytes
  pub path_b64 : Bytes
  pub volume : Volume
  pub bytes : ℕ
  pub sha256 : Bytes
  pub failure : Option E

-- The extension: the bus that it decorates, the log, who the caller is, whether an anchor's failure has been
-- reported, and the failures that were written to stderr.
pub record Audited (T A : Type 0) : Type 0 where
  pub bus : Business T
  pub log : Log
  pub caller_uid : ℤ
  pub client_asserted : Bytes
  pub is_reported : Bool
  pub stderr : List A

-- What the system does during a call: the time, the write of the record, and the failure of the anchor, if it
-- fails.
pub record Moment (Time A : Type 0) : Type 0 where
  pub now : Time
  pub outcome : Outcome
  pub anchor_failure : Option A

unfoldable pub decision : {E : Type 0} → Option E → Bytes
decision none = codes "allow"
decision (some e) = codes "deny"

-- `code_of` is what `errcode.From` finds in an error.
module _ {E : Type 0} (code_of : E → Option Code) where
  abbrev pub known_code : Code → Bytes
  known_code code = if bytes_eq code [] then code_internal else code

  unfoldable pub result_code : Option E → Bytes
  result_code none = codes "ok"
  result_code (some e) = known_code (from (some (code_of e)))

module _ {T A : Type 0} where
  abbrev pub report_once : Audited T A → A → Bool → Audited T A
  report_once ext a true = ext
  report_once ext a false = record ext { is_reported = true; stderr = ext.stderr ++ (a ∷ []) }

  unfoldable pub anchor : Audited T A → Option A → Audited T A
  anchor ext none = ext
  anchor ext (some a) = report_once ext a ext.is_reported

  -- An append that fails is dropped without a word, and without an anchor.
  abbrev pub after_append :
      {Time : Type 0}
      → Audited T A
      → Option A
      → Log × Result AppendError (Record Time)
      → Audited T A
  after_append ext a (l, err e) = record ext { log = l }
  after_append ext a (l, ok r) = anchor (record ext { log = l }) a

abbrev pub probe_entry : {E : Type 0} → Serial → Device → Option E → Entry E
probe_entry s d e = record {
  op = codes "probe";
  serial = s.value;
  path_b64 = [];
  volume = d.volume;
  bytes = 0;
  sha256 = [];
  failure = e;
}

abbrev pub list_entry : {E : Type 0} → (Bytes → Bytes) → ListInput → Listing → Option E → Entry E
list_entry base64 i l e = record {
  op = codes "list";
  serial = i.serial.value;
  path_b64 = base64 i.root.path;
  volume = l.volume;
  bytes = 0;
  sha256 = [];
  failure = e;
}

abbrev pub fetch_entry :
    {E : Type 0} → (Bytes → Bytes) → AuthorizedPath → FetchResult → Option E → Entry E
fetch_entry base64 path r e = record {
  op = codes "fetch";
  serial = r.serial.value;
  path_b64 = base64 path.path;
  volume = r.volume;
  bytes = r.bytes;
  sha256 = r.sha256;
  failure = e;
}

-- The system's part of the log, base64, what errors say of a code, and the device.
module _ {Time T E Fn Out A : Type 0} (p : Platform Time) (base64 : Bytes → Bytes)
    (code_of : E → Option Code) (store : Storer T E Fn Out) where
  abbrev pub audit_record : Moment Time A → Audited T A → Entry E → Record Time
  audit_record m ext e = record {
    seq = 0;
    ts = m.now;
    op = e.op;
    caller_uid = ext.caller_uid;
    client_asserted = ext.client_asserted;
    serial = e.serial;
    path_b64 = e.path_b64;
    decision = decision e.failure;
    result = result_code code_of e.failure;
    bytes = pos e.bytes;
    sha256 = e.sha256;
    volume = record { dev = e.volume.dev; ino = e.volume.ino };
    prev = [];
    hash = [];
  }

  unfoldable pub append_entry : Moment Time A → Audited T A → Entry E → Audited T A
  append_entry m ext e =
      after_append ext m.anchor_failure (append p m.outcome ext.log (audit_record m ext e))

  abbrev pub recorded :
      {R : Type 0}
      → Moment Time A
      → Audited T A
      → (R → Option E → Entry E)
      → Business T × R × Option E
      → Audited T A × R × Option E
  recorded m ext entry (b, r, e) = (append_entry m (record ext { bus = b }) (entry r e), r, e)

  unfoldable pub audited_probe :
      Moment Time A → Serial → Audited T A → Audited T A × Device × Option E
  audited_probe m s ext = recorded m ext (probe_entry s) (probe store s ext.bus)

  unfoldable pub audited_list :
      Moment Time A → ListInput → Fn → Audited T A → Audited T A × Listing × Option E
  audited_list m i fn ext = recorded m ext (list_entry base64 i) (list store i fn ext.bus)

  unfoldable pub audited_fetch :
      Moment Time A → AuthorizedPath → Out → Audited T A → Audited T A × FetchResult × Option E
  audited_fetch m path out ext =
      recorded m ext (fetch_entry base64 path) (fetch store path out ext.bus)
