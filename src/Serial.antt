-- ===== src/Serial.antt =====
-- business/types/serial/serial.go: the serial of a device.
use adb_broker.Prelude.{
  ℕ, ◌≤◌, ◌≡◌, refl, subst, ◌≢◌, inl, inr, Bool, true, false, ◌&&◌, ◌||◌, [], ◌∷◌, ◌++◌, arith, ltb,
  leb, ◌==◌, if◌then◌else◌, ==_iff, Bool-cases, and_true, length, length-append, Bytes, codes,
  contains_byte, Result, ok, err, bytes_eq,
}
use adb_broker.Wire.Frames.{encode_host_request}
use adb_broker.Wire.Conn.{check_serial, svc_transport, svc_features}
use adb_broker.Wire.Conn.Exchange.{host_request, encode_short}

pub data SerialError : Type 0 where
  invalid_serial : SerialError

pub record Serial : Type 0 where
  pub value : Bytes

-- A byte of a rune above 127 is in none of the ranges, as its rune is not.
unfoldable pub is_valid_serial_rune : ℕ → Bool
is_valid_serial_rune r =
    (leb 65 r && leb r 90)
    || (leb 97 r && leb r 122)
    || (leb 48 r && leb r 57)
    || r == 58
    || r == 46
    || r == 95
    || r == 45

unfoldable pub all_valid : Bytes → Bool
all_valid [] = true
all_valid (r ∷ rs) = is_valid_serial_rune r && all_valid rs

unfoldable pub parse_serial : Bytes → Result SerialError Serial
parse_serial s =
    if ltb (length s) 1 || ltb 64 (length s)
    then err invalid_serial
    else if all_valid s
    then ok (record { value = s })
    else err invalid_serial

parse_parts :
    (s : Bytes) (v : Serial)
    → parse_serial s ≡ ok v
    → (s ≢ []) × (length s ≤ 64) × (all_valid s ≡ true) × (v.value ≡ s)
unfolding parse_serial
parse_parts s v h = elim (Bool-cases (ltb (length s) 1)) [
  | inl e ↦ absurd (ground arith)
  | inr e ↦ elim (Bool-cases (ltb 64 (length s))) [
    | inl f ↦ absurd (ground arith)
    | inr f ↦ elim (Bool-cases (all_valid s)) [
      | inl g ↦ ((λ z. not_empty e z), ground arith, g, ground arith)
      | inr g ↦ absurd (ground arith)
    ]
  ]
]
  where
    not_empty : ltb (length s) 1 ≡ false → s ≢ []
    not_empty e z = let k : ltb 0 1 ≡ false = subst (λ t. ltb (length t) 1 ≡ false) z e in cc

contains_byte-all_valid :
    (b : ℕ) (s : Bytes)
    → is_valid_serial_rune b ≡ false
    → all_valid s ≡ true
    → contains_byte b s ≡ false
unfolding all_valid
contains_byte-all_valid b [] n h = refl
contains_byte-all_valid b (r ∷ rs) n h =
    let (valid, others) = (and_true (is_valid_serial_rune r) (all_valid rs)).0 h in
    elim (Bool-cases (r == b)) [
      | inl e ↦
          let k : is_valid_serial_rune b ≡ true =
            subst (λ t. is_valid_serial_rune t ≡ true) ((==_iff r b).0 e) valid in
          absurd (cc)
      | inr e ↦ rw e (contains_byte-all_valid b rs n others)
    ]

check_serial-all_valid : (s : Bytes) → s ≢ [] → all_valid s ≡ true → check_serial s ≡ ok tt
unfolding check_serial is_valid_serial_rune
check_serial-all_valid [] n h = absurd (n refl)
check_serial-all_valid (r ∷ rs) n h = rw (
  contains_byte-all_valid 0 (r ∷ rs) refl h,
  contains_byte-all_valid 10 (r ∷ rs) refl h,
  contains_byte-all_valid 9 (r ∷ rs) refl h,
)

-- A serial that the broker accepts holds the given bytes, and the connection to the adb server refuses it
-- nowhere: its own check passes, and both services that name a device fit their frame.
pub parse_serial_lem :
    (s : Bytes) (v : Serial)
    → parse_serial s ≡ ok v
    → (v.value ≡ s)
      × (check_serial s ≡ ok tt)
      × (encode_host_request (svc_transport s) ≡ ok (host_request (svc_transport s)))
      × (encode_host_request (svc_features s) ≡ ok (host_request (svc_features s)))
parse_serial_lem s v h =
    let (some_byte, short, valid, e) = parse_parts s v h in
    (
      e,
      check_serial-all_valid s some_byte valid,
      encode_short (svc_transport s) (omega (arith, length-append (codes "host:transport:") s)),
      encode_short (svc_features s) (
          omega (
            arith,
            length-append (codes "host-serial:") (s ++ codes ":features"),
            length-append s (codes ":features"),
          )),
    )

pub serial_string : Serial → Bytes
serial_string s = s.value

pub is_zero_serial : Serial → Bool
is_zero_serial s = bytes_eq s.value []
