-- ===== src/Verify.antt =====
-- app/broker/verify.go: the log held against the anchors that were published of it.
pub mod Anchored
use adb_broker.Prelude.{
  ℕ, zero, suc, ◌+◌, ◌-◌, ◌*◌, ◌/◌, ◌%◌, ◌^◌, ◌≤◌, ◌<◌, min, max, bit_and, ◌≡◌, refl, sym, ap, ap₂,
  ◌∙◌, subst, ◌≢◌, ◌↔◌, ◌⊎◌, inl, inr, Bool, true, false, ◌&&◌, ◌||◌, not, Option, none, some, List,
  [], ◌∷◌, ◌++◌, append_assoc, append-nil, arith, ltb, leb, ◌==◌, if◌then◌else◌, ==_iff, ==_refl,
  Bool-cases, Option-cases, and_true, length, take, drop, get_elem?, replicate, length-append,
  length-take, length-drop, length-replicate, take-append-drop, take-length_append, take_all,
  drop-length_append, drop_at, get_elem?-append_length, All, All-append, All-append_left,
  All-append_right, Any, Any-map, All-map, All-Any, Bytes, codes, bytes_eq, contains_byte,
  has_prefix, bytes_lt, bytes_eq_refl, eq_of_bytes_eq, bytes_eq_iff, Result, ok, err, ◌>>=◌, ◌>>◌,
  Result-cases, digits, decimal, split_on, cut_behind, cut_at, push, decimal_value,
  decimal_value-digits, split_on_line, cut_at_line, contains_byte-append,
}
use adb_broker.Audit.Anchor.{Anchor}
use adb_broker.Audit.Lines.{Platform}
use adb_broker.Audit.Log.{Summary, ChainError, verify_chain}

abbrev pub anchor_seq_field : Bytes
anchor_seq_field = codes "ADB_BROKER_SEQ"

abbrev pub anchor_hash_field : Bytes
anchor_hash_field = codes "ADB_BROKER_HASH"

abbrev pub anchor_log_field : Bytes
anchor_log_field = codes "ADB_BROKER_LOG"

abbrev pub hash_hex_len : ℕ
hash_hex_len = 64

abbrev pub empty_chain_head : Bytes
empty_chain_head = replicate hash_hex_len 48

-- The fields of a journal entry.
abbrev pub Fields : Type 0
Fields = Bytes → Option Bytes

pub data AnchorFault : Type 0 where
  no_seq bad_seq bad_hash : AnchorFault

abbrev pub is_lower_hex : ℕ → Bool
is_lower_hex c = (leb 48 c && leb c 57) || (leb 97 c && leb c 102)

unfoldable pub all_lower_hex : Bytes → Bool
all_lower_hex [] = true
all_lower_hex (c ∷ s) = is_lower_hex c && all_lower_hex s

unfoldable pub is_chain_hash : Bytes → Bool
is_chain_hash s = length s == hash_hex_len && all_lower_hex s

-- A missing field of a Go map is the empty string.
abbrev pub or_empty : Option Bytes → Bytes
or_empty none = []
or_empty (some s) = s

abbrev pub with_seq : Fields → Option ℕ → Result AnchorFault Anchor
with_seq fields none = err bad_seq
with_seq fields (some seq) =
    if not (is_chain_hash (or_empty (fields anchor_hash_field)))
    then err bad_hash
    else ok (record {
      seq = seq;
      hash = or_empty (fields anchor_hash_field);
      log_path = or_empty (fields anchor_log_field);
    })

-- `parse_uint` stands for strconv.ParseUint in base ten, of 64 bits.
module _ (parse_uint : Bytes → Option ℕ) where
  abbrev pub with_raw_seq : Fields → Option Bytes → Result AnchorFault Anchor
  with_raw_seq fields none = err no_seq
  with_raw_seq fields (some raw) = with_seq fields (parse_uint raw)

  unfoldable pub to_anchor : Fields → Result AnchorFault Anchor
  to_anchor fields = with_raw_seq fields (fields anchor_seq_field)

  abbrev pub with_rest :
      Anchor → Result AnchorFault (List Anchor) → Result AnchorFault (List Anchor)
  with_rest a (err e) = err e
  with_rest a (ok rest) = ok (a ∷ rest)

  abbrev pub of_log :
      Bytes
      → Result AnchorFault Anchor
      → Result AnchorFault (List Anchor)
      → Result AnchorFault (List Anchor)
  of_log path (err e) rest = err e
  of_log path (ok a) rest = if not (bytes_eq a.log_path path) then rest else with_rest a rest

  -- The loop of `readAnchors`: the anchors of this log.
  unfoldable pub read_anchors : Bytes → List Fields → Result AnchorFault (List Anchor)
  read_anchors path [] = ok []
  read_anchors path (f ∷ fs) = of_log path (to_anchor f) (read_anchors path fs)

-- `slices.MaxFunc` by the sequence number: the first of the greatest.
unfoldable pub newest : Anchor → List Anchor → Anchor
newest a [] = a
newest a (b ∷ bs) = if ltb a.seq b.seq then newest b bs else newest a bs

abbrev pub head_of : Summary → Bytes
head_of s = if s.records == 0 then empty_chain_head else s.last_hash

-- How the command ends: with a failure, or with a response of status partial or ok.
pub data Verdict : Type 0 where
  chain_failed : ChainError → Verdict
  anchors_failed : AnchorFault → Verdict
  truncated altered : Summary → Anchor → Verdict
  status_partial : Summary → Verdict
  status_ok : Summary → Anchor → Verdict

abbrev pub compared : Summary → Anchor → Verdict
compared s a =
    if ltb s.last_seq a.seq
    then truncated s a
    else if a.seq == s.last_seq && not (bytes_eq a.hash (head_of s))
    then altered s a
    else status_ok s a

abbrev pub with_anchors : Summary → Result AnchorFault (List Anchor) → Verdict
with_anchors s (err e) = anchors_failed e
with_anchors s (ok []) = status_partial s
with_anchors s (ok (a ∷ others)) = compared s (newest a others)

abbrev pub with_chain :
    (Bytes → Option ℕ) → Bytes → List Fields → Summary × Result ChainError (Unit {0}) → Verdict
with_chain parse_uint path fields (s, err e) = chain_failed e
with_chain parse_uint path fields (s, ok _) = with_anchors s (read_anchors parse_uint path fields)

-- `runVerify` behind its flags, on what the log holds and on the journal's entries.
unfoldable pub run_verify :
    {Time : Type 0}
    → Platform Time
    → (Bytes → Option ℕ)
    → Bytes
    → Bool
    → Bytes
    → List Fields
    → Verdict
run_verify p parse_uint path broken content fields =
    with_chain parse_uint path fields (verify_chain p broken content)
