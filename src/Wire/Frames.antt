-- ===== src/Wire/Frames.antt =====
-- foundation/adbwire/framing.go: the frames of the host protocol, each behind four hex digits.
pub mod RoundTrip
use adb_broker.Prelude.{
  ℕ, zero, suc, ◌+◌, ◌-◌, ◌*◌, ◌/◌, ◌%◌, ◌^◌, ◌≤◌, ◌<◌, min, max, bit_and, ◌≡◌, refl, sym, ap, ap₂,
  ◌∙◌, subst, ◌≢◌, ◌↔◌, ◌⊎◌, inl, inr, Bool, true, false, ◌&&◌, ◌||◌, not, Option, none, some, List,
  [], ◌∷◌, ◌++◌, append_assoc, append-nil, arith, ltb, leb, ◌==◌, if◌then◌else◌, ==_iff, ==_refl,
  Bool-cases, Option-cases, and_true, length, take, drop, get_elem?, replicate, length-append,
  length-take, length-drop, length-replicate, take-append-drop, take-length_append, take_all,
  drop-length_append, drop_at, get_elem?-append_length, All, All-append, All-append_left,
  All-append_right, Any, Any-map, All-map, All-Any, Bytes, codes, bytes_eq, contains_byte,
  has_prefix, bytes_lt, bytes_eq_refl, eq_of_bytes_eq, bytes_eq_iff, Result, ok, err, Result-cases,
}
use adb_broker.Wire.Socket.{
  WireError, service_too_long, bad_status, bad_length, Io, ◌>>=◌, ◌>>◌, pure, fail, read_full,
}

abbrev pub status_okay : Bytes
status_okay = codes "OKAY"

abbrev pub status_fail : Bytes
status_fail = codes "FAIL"

abbrev pub host_request_max : ℕ
host_request_max = 65535

-- The code of a digit below 16, in lower case.
unfoldable pub hex_digit : ℕ → ℕ
hex_digit d = if ltb d 10 then 48 + d else 87 + d

-- `%04x` of a number of at most four digits.
unfoldable pub hex_prefix : ℕ → Bytes
hex_prefix n =
    hex_digit (n / 4096 % 16)
    ∷ hex_digit (n / 256 % 16)
    ∷ hex_digit (n / 16 % 16)
    ∷ hex_digit (n % 16)
    ∷ []

unfoldable pub encode_host_request : Bytes → Result WireError Bytes
encode_host_request service =
    if ltb host_request_max (length service)
    then err service_too_long
    else ok (hex_prefix (length service) ++ service)

-- A digit in either case.
unfoldable pub hex_value : ℕ → Option ℕ
hex_value c =
    if leb 48 c && leb c 57
    then some (c - 48)
    else if leb 97 c && leb c 102
    then some (c - 87)
    else if leb 65 c && leb c 70
    then some (c - 55)
    else none

unfoldable pub hex_fold : ℕ → Bytes → Option ℕ
hex_fold acc [] = some acc
hex_fold acc (c ∷ cs) = elim (hex_value c) [ none ↦ none | some d ↦ hex_fold (16 * acc + d) cs ]

-- The limit of 32 bits.
abbrev pub bounded : Option ℕ → Option ℕ
bounded none = none
bounded (some n) = if leb n (2 ^ 32 - 1) then some n else none

-- `strconv.ParseUint(s, 16, 32)`.
unfoldable pub parse_hex : Bytes → Option ℕ
parse_hex [] = none
parse_hex (c ∷ cs) = bounded (hex_fold 0 (c ∷ cs))

-- The switch of `readHostStatus`.
abbrev pub checked : Bytes → Io Bytes
checked status =
    if bytes_eq status status_okay || bytes_eq status status_fail
    then pure status
    else fail bad_status

unfoldable pub read_host_status : Io Bytes
read_host_status = do status ← read_full 4; checked status

-- The payload whose length was read.
abbrev pub payload_of : Option ℕ → Io Bytes
payload_of none = fail bad_length
payload_of (some n) = read_full n

unfoldable pub read_host_payload : Io Bytes
read_host_payload = do len ← read_full 4; payload_of (parse_hex len)
