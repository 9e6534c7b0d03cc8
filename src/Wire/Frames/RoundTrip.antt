-- ===== src/Wire/Frames/RoundTrip.antt =====
-- foundation/adbwire/framing.go: a frame of the host protocol, written and read.
use adb_broker.Prelude.{
  ℕ, ◌+◌, ◌-◌, ◌*◌, ◌/◌, ◌%◌, ◌^◌, ◌≤◌, ◌<◌, ◌≡◌, refl, ap, ◌∙◌, ◌⊎◌, inl, inr, true, some, [], ◌∷◌,
  ◌++◌, append_assoc, arith, ltb, leb, Bool-cases, length, length-append, Bytes, ok, err,
}
use adb_broker.Wire.Socket.{Socket, service_too_long, >>=_ok, read_full}
use adb_broker.Wire.Session.Framing.{feed, read_full_lem}
use adb_broker.Wire.Frames.{
  hex_digit, hex_prefix, hex_value, hex_fold, bounded, parse_hex, host_request_max,
  encode_host_request, status_okay, status_fail, read_host_status, checked, payload_of,
  read_host_payload,
}

pub hex_value-hex_digit : (d : ℕ) → d < 16 → hex_value (hex_digit d) ≡ some d
unfolding hex_value hex_digit
hex_value-hex_digit d h = ground arith

hex_fold_step :
    (acc d : ℕ) (cs : Bytes) → d < 16 → hex_fold acc (hex_digit d ∷ cs) ≡ hex_fold (16 * acc + d) cs
unfolding hex_fold
hex_fold_step acc d cs h = rw (hex_value-hex_digit d h, hex_fold)

hex_fold-hex_prefix : (n : ℕ) → n ≤ host_request_max → hex_fold 0 (hex_prefix n) ≡ some n
unfolding hex_prefix hex_fold
hex_fold-hex_prefix n h =
    hex_fold_step 0 (n / 4096 % 16)
      (hex_digit (n / 256 % 16) ∷ hex_digit (n / 16 % 16) ∷ hex_digit (n % 16) ∷ []) (omega arith)
    ∙ hex_fold_step a (n / 256 % 16) (hex_digit (n / 16 % 16) ∷ hex_digit (n % 16) ∷ [])
        (omega arith)
    ∙ hex_fold_step b (n / 16 % 16) (hex_digit (n % 16) ∷ []) (omega arith)
    ∙ hex_fold_step c (n % 16) [] (omega arith)
    ∙ ap some whole
  where
    a : ℕ
    a = 16 * 0 + n / 4096 % 16

    b : ℕ
    b = 16 * a + n / 256 % 16

    c : ℕ
    c = 16 * b + n / 16 % 16

    whole : 16 * c + n % 16 ≡ n
    whole = omega arith

pub parse_hex-hex_prefix : (n : ℕ) → n ≤ host_request_max → parse_hex (hex_prefix n) ≡ some n
unfolding parse_hex hex_prefix
parse_hex-hex_prefix n h = ap bounded (hex_fold-hex_prefix n h) ∙ rw small
  where
    small : leb n (2 ^ 32 - 1) ≡ true
    small = ground arith

pub length-hex_prefix : (n : ℕ) → length (hex_prefix n) ≡ 4
unfolding hex_prefix
length-hex_prefix n = refl

-- A payload behind its length, as the server writes it.
unfoldable pub payload_wire : Bytes → Bytes → Bytes
payload_wire payload rest = hex_prefix (length payload) ++ (payload ++ rest)

pub read_host_payload_lem :
    (payload rest : Bytes) (s : Socket)
    → length payload ≤ host_request_max
    → read_host_payload (feed s (payload_wire payload rest)) ≡ (feed s rest, ok payload)
unfolding read_host_payload payload_wire
read_host_payload_lem payload rest s h =
    >>=_ok (read_full 4) (λ len. payload_of (parse_hex len))
      (read_full_lem 4 s (hex_prefix (length payload)) (payload ++ rest)
        (length-hex_prefix (length payload)))
    ∙ ap (λ n. payload_of n (feed s (payload ++ rest))) (parse_hex-hex_prefix (length payload) h)
    ∙ read_full_lem (length payload) s payload rest refl

pub status_okay_lem :
    (rest : Bytes) (s : Socket)
    → read_host_status (feed s (status_okay ++ rest)) ≡ (feed s rest, ok status_okay)
unfolding read_host_status
status_okay_lem rest s = >>=_ok (read_full 4) checked (read_full_lem 4 s status_okay rest refl)

pub status_fail_lem :
    (rest : Bytes) (s : Socket)
    → read_host_status (feed s (status_fail ++ rest)) ≡ (feed s rest, ok status_fail)
unfolding read_host_status
status_fail_lem rest s = >>=_ok (read_full 4) checked (read_full_lem 4 s status_fail rest refl)

-- A service is encoded exactly if its length fits the prefix; a server that reads the encoded request
-- as a payload gets the service back, with what follows it untouched.
pub encode_host_request_iff :
    (service rest : Bytes) (s : Socket)
    → (encode_host_request service ≡ err service_too_long × (host_request_max < length service))
      ⊎ ((req : Bytes) × (encode_host_request service ≡ ok req)
          × (length req ≡ 4 + length service)
          × (read_host_payload (feed s (req ++ rest)) ≡ (feed s rest, ok service)))
unfolding encode_host_request
encode_host_request_iff service rest s = elim (Bool-cases (ltb host_request_max (length service))) [
  | inl e ↦ inl (rw e, ground arith)
  | inr e ↦ inr (
    hex_prefix (length service) ++ service,
    rw e,
    omega (
      arith,
      length-append (hex_prefix (length service)) service,
      length-hex_prefix (length service),
    ),
    ap (λ t. read_host_payload (feed s t)) (append_assoc (hex_prefix (length service)) service rest)
        ∙ unfold payload_wire in read_host_payload_lem service rest s (ground arith),
  )
]
