-- ===== src/Audit/Anchor.antt =====
-- foundation/audit/anchor.go: the head of the log, published to the journal as one datagram.
pub mod Fields
use adb_broker.Prelude.{
  ℕ, zero, suc, ◌+◌, ◌-◌, ◌*◌, ◌/◌, ◌%◌, ◌^◌, ◌≤◌, ◌<◌, min, max, bit_and, ◌≡◌, refl, sym, ap, ap₂,
  ◌∙◌, subst, ◌≢◌, ◌↔◌, ◌⊎◌, inl, inr, Bool, true, false, ◌&&◌, ◌||◌, not, Option, none, some, List,
  [], ◌∷◌, ◌++◌, append_assoc, append-nil, arith, ltb, leb, ◌==◌, if◌then◌else◌, ==_iff, ==_refl,
  Bool-cases, Option-cases, and_true, length, take, drop, get_elem?, replicate, length-append,
  length-take, length-drop, length-replicate, take-append-drop, take-length_append, take_all,
  drop-length_append, drop_at, get_elem?-append_length, All, All-append, All-append_left,
  All-append_right, Any, Any-map, All-map, All-Any, Bytes, codes, bytes_eq, contains_byte,
  has_prefix, bytes_lt, bytes_eq_refl, eq_of_bytes_eq, bytes_eq_iff, Result, ok, err, Result-cases,
  digits, decimal, split_on, cut_behind, cut_at, push, decimal_value, decimal_value-digits,
  split_on_line, cut_at_line, contains_byte-append,
}
use adb_broker.Wire.Frames.{hex_digit}

abbrev pub max_anchor_field_bytes : ℕ
max_anchor_field_bytes = 256

-- `hex.EncodeToString`.
unfoldable pub hex_encode : Bytes → Bytes
hex_encode [] = []
hex_encode (b ∷ bs) = hex_digit (b / 16) ∷ hex_digit (b % 16) ∷ hex_encode bs

-- What a rejected field is, with its key.
pub data AnchorError : Type 0 where
  field_too_long field_bad_byte : Bytes → AnchorError

-- The sending of a datagram fails with an `E`, whichever of its steps fails.
pub data WriteError (E : Type 0) : Type 0 where
  anchor_field : AnchorError → WriteError E
  audit_unavailable : E → WriteError E

-- `hash` is hex, and `log_path` is bytes of the caller's choice.
pub record Anchor : Type 0 where
  pub seq : ℕ
  pub hash : Bytes
  pub log_path : Bytes

unfoldable pub check_anchor_value : Bytes → Bytes → Result AnchorError (Unit {0})
check_anchor_value key value =
    if ltb max_anchor_field_bytes (length value)
    then err (field_too_long key)
    else if contains_byte 10 value || contains_byte 0 value
    then err (field_bad_byte key)
    else ok tt

unfoldable pub anchor_fields : Anchor → List (Bytes × Bytes)
anchor_fields a =
    (codes "MESSAGE_ID", codes "8f3c1d7a5e4b42c9b1d06a2f7c93e5a4")
    ∷ (codes "MESSAGE", codes "adb-broker audit anchor seq=" ++ decimal a.seq)
    ∷ (codes "PRIORITY", codes "5")
    ∷ (codes "SYSLOG_IDENTIFIER", codes "adb-broker")
    ∷ (codes "ADB_BROKER_SEQ", decimal a.seq)
    ∷ (codes "ADB_BROKER_HASH", a.hash)
    ∷ (codes "ADB_BROKER_LOG", a.log_path)
    ∷ []

-- A field behind a check that passed, in front of the rest of the payload.
abbrev pub with_field :
    Bytes
    → Bytes
    → Result AnchorError (Unit {0})
    → Result AnchorError Bytes
    → Result AnchorError Bytes
with_field key value (err e) rest = err e
with_field key value (ok _) (err e) = err e
with_field key value (ok _) (ok rest) = ok ((key ++ (61 ∷ value)) ++ (10 ∷ rest))

-- The loop of `WriteAnchor`: the first field that is rejected ends it.
unfoldable pub anchor_payload : List (Bytes × Bytes) → Result AnchorError Bytes
anchor_payload [] = ok []
anchor_payload ((key, value) ∷ fields) =
    with_field key value (check_anchor_value key value) (anchor_payload fields)

module _ {W E : Type 0} (send : W → Bytes → W × Result E (Unit {0})) where
  abbrev pub sent : W × Result E (Unit {0}) → W × Result (WriteError E) (Unit {0})
  sent (w, err e) = (w, err (audit_unavailable e))
  sent (w, ok _) = (w, ok tt)

  abbrev pub send_payload : W → Result AnchorError Bytes → W × Result (WriteError E) (Unit {0})
  send_payload w (err e) = (w, err (anchor_field e))
  send_payload w (ok payload) = sent (send w payload)

  -- `send` is the datagram socket of the journal: dialled, given a deadline and written to once.
  unfoldable pub write_anchor : Anchor → W → W × Result (WriteError E) (Unit {0})
  write_anchor a w = send_payload w (anchor_payload (anchor_fields a))

  -- `AnchorTail` of a log that is open, given its sequence number, its head and its path.
  unfoldable pub anchor_tail : ℕ → Bytes → Bytes → W → W × Result (WriteError E) (Unit {0})
  anchor_tail seq head path =
      write_anchor (record { seq = seq; hash = hex_encode head; log_path = path })
