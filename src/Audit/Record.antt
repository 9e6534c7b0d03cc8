-- ===== src/Audit/Record.antt =====
-- foundation/audit/record.go: a record, the bytes that the chain covers, and its hash.
pub mod OneLine
pub mod Linked
use adb_broker.Prelude.{
  ℕ, zero, suc, ◌+◌, ◌-◌, ◌*◌, ◌/◌, ◌%◌, ◌^◌, ◌≤◌, ◌<◌, min, max, bit_and, ◌≡◌, refl, sym, ap, ap₂,
  ◌∙◌, subst, ◌≢◌, ◌↔◌, ◌⊎◌, inl, inr, Bool, true, false, ◌&&◌, ◌||◌, not, Option, none, some, List,
  [], ◌∷◌, ◌++◌, append_assoc, append-nil, arith, ltb, leb, ◌==◌, if◌then◌else◌, ==_iff, ==_refl,
  Bool-cases, Option-cases, and_true, length, take, drop, get_elem?, replicate, length-append,
  length-take, length-drop, length-replicate, take-append-drop, take-length_append, take_all,
  drop-length_append, drop_at, get_elem?-append_length, All, All-append, All-append_left,
  All-append_right, Any, Any-map, All-map, All-Any, Bytes, codes, bytes_eq, contains_byte,
  has_prefix, bytes_lt, bytes_eq_refl, eq_of_bytes_eq, bytes_eq_iff, Result, ok, err, Result-cases,
  digits, decimal, split_on, cut_behind, cut_at, push, decimal_value, decimal_value-digits,
  split_on_line, cut_at_line, contains_byte-append,
}
use adb_broker.Wire.Numbers.{ℤ, pos, negsuc}
use adb_broker.Wire.Frames.{hex_digit}

pub record VolumeRef : Type 0 where
  pub dev : ℤ
  pub ino : ℤ

-- `Time` stands for time.Time.
pub record Record (Time : Type 0) : Type 0 where
  pub seq : ℕ
  pub ts : Time
  pub op : Bytes
  pub caller_uid : ℤ
  pub client_asserted : Bytes
  pub serial : Bytes
  pub path_b64 : Bytes
  pub decision : Bytes
  pub result : Bytes
  pub bytes : ℤ
  pub sha256 : Bytes
  pub volume : VolumeRef
  pub prev : Bytes
  pub hash : Bytes

pub data RecordError : Type 0 where
  bad_timestamp : RecordError

abbrev pub in_range : ℕ → ℕ → ℕ → Bool
in_range lo hi b = leb lo b && leb b hi

-- Whether the bytes begin with some in these ranges, which are those of the bytes behind a lead byte.
abbrev pub in_ranges : List (ℕ × ℕ) → Bytes → Bool
in_ranges [] s = true
in_ranges (r ∷ rs) [] = false
in_ranges (r ∷ rs) (b ∷ s) = in_range r.0 r.1 b && in_ranges rs s

abbrev pub tail : ℕ × ℕ
tail = (128, 191)

-- The ranges of the bytes behind a lead byte of UTF-8; none behind a byte that leads nothing.
unfoldable pub behind : ℕ → Option (List (ℕ × ℕ))
behind c =
    if in_range 194 223 c
    then some (tail ∷ [])
    else if c == 224
    then some ((160, 191) ∷ tail ∷ [])
    else if c == 237
    then some ((128, 159) ∷ tail ∷ [])
    else if in_range 225 239 c
    then some (tail ∷ tail ∷ [])
    else if c == 240
    then some ((144, 191) ∷ tail ∷ tail ∷ [])
    else if in_range 241 243 c
    then some (tail ∷ tail ∷ tail ∷ [])
    else if c == 244
    then some ((128, 143) ∷ tail ∷ tail ∷ [])
    else none

-- `utf8.DecodeRuneInString` at a byte that is not ASCII: how many bytes of the rune are behind it, or
-- none if the byte is invalid there.
abbrev pub rune_tail : Option (List (ℕ × ℕ)) → Bytes → Option ℕ
rune_tail none s = none
rune_tail (some rs) s = if in_ranges rs s then some (length rs) else none

-- What is written for one ASCII byte.
unfoldable pub escape_byte : ℕ → Bytes
escape_byte c =
    if c == 34
    then 92 ∷ 34 ∷ []
    else if c == 92
    then 92 ∷ 92 ∷ []
    else if c == 8
    then 92 ∷ 98 ∷ []
    else if c == 12
    then 92 ∷ 102 ∷ []
    else if c == 10
    then 92 ∷ 110 ∷ []
    else if c == 13
    then 92 ∷ 114 ∷ []
    else if c == 9
    then 92 ∷ 116 ∷ []
    else if ltb c 32
    then codes "\\u00" ++ (hex_digit (c / 16) ∷ hex_digit (c % 16) ∷ [])
    else c ∷ []

-- The loop of `appendJSONString`; `copied` bytes of a rune that was decoded are still to be copied. An
-- invalid byte is written as U+FFFD.
unfoldable pub escape : ℕ → Bytes → Bytes
escape copied [] = []
escape (suc copied) (c ∷ s) = c ∷ escape copied s
escape zero (c ∷ s) = elim (ltb c 128) [
  | true ↦ escape_byte c ++ escape zero s
  | false ↦ elim (rune_tail (behind c) s) [
    | none ↦ 239 ∷ 191 ∷ 189 ∷ escape zero s
    | some k ↦ c ∷ escape k s
  ]
]

unfoldable pub json_string : Bytes → Bytes
json_string s = 34 ∷ (escape 0 s ++ (34 ∷ []))

-- `strconv.AppendInt` in base ten.
unfoldable pub int_decimal : ℤ → Bytes
int_decimal (pos n) = decimal n
int_decimal (negsuc n) = 45 ∷ decimal (n + 1)

abbrev pub ts_len : ℕ
ts_len = 24

-- The record in the order of its fields, around a timestamp that is fit for it.
unfoldable pub canonical_form : {Time : Type 0} → Bytes → Record Time → Bytes
canonical_form ts r =
    codes "{\"seq\":"
    ++ (decimal r.seq
        ++ (codes ",\"ts\":"
            ++ (json_string ts
                ++ (codes ",\"op\":"
                    ++ (json_string r.op
                        ++ (codes ",\"caller_uid\":"
                            ++ (int_decimal r.caller_uid
                                ++ (codes ",\"client_asserted\":"
                                    ++ (json_string r.client_asserted
                                        ++ (codes ",\"serial\":"
                                            ++ (json_string r.serial
                                                ++ (codes ",\"path_b64\":"
                                                    ++ (json_string r.path_b64
                                                        ++ (codes ",\"decision\":"
                                                            ++ (json_string r.decision
                                                            ++ (codes ",\"result\":"
                                                            ++ (json_string r.result
                                                            ++ (codes ",\"bytes\":"
                                                            ++ (int_decimal r.bytes
                                                            ++ (codes ",\"sha256\":"
                                                            ++ (json_string r.sha256
                                                            ++ (codes ",\"volume\":{\"dev\":"
                                                            ++ (int_decimal r.volume.dev
                                                            ++ (codes ",\"ino\":"
                                                            ++ (int_decimal r.volume.ino
                                                            ++ (codes "},\"prev\":"
                                                            ++ (json_string r.prev
                                                            ++ codes "}")))))))))))))))))))))))))))

-- `format` stands for the time in UTC, truncated to milliseconds, in the layout of the package; `sum`
-- stands for SHA-256.
module _ {Time : Type 0} (format : Time → Bytes) where
  unfoldable pub canonical_time : Time → Result RecordError Bytes
  canonical_time t =
      let s = format t in
      if not (length s == ts_len) || not (bytes_eq (drop (ts_len - 1) s) (codes "Z"))
      then err bad_timestamp
      else ok s

  abbrev pub with_time : Record Time → Result RecordError Bytes → Result RecordError Bytes
  with_time r (err e) = err e
  with_time r (ok ts) = ok (canonical_form ts r)

  unfoldable pub canonical : Record Time → Result RecordError Bytes
  canonical r = with_time r (canonical_time r.ts)

  abbrev pub hashed : (Bytes → Bytes) → Bytes → Result RecordError Bytes → Result RecordError Bytes
  hashed sum prev (err e) = err e
  hashed sum prev (ok c) = ok (sum (prev ++ c))

  unfoldable pub hash_record : (Bytes → Bytes) → Bytes → Record Time → Result RecordError Bytes
  hash_record sum prev r = hashed sum prev (canonical r)
