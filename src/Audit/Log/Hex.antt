-- ===== src/Audit/Log/Hex.antt =====
-- foundation/audit/log.go: hashes in hex, written and read.
use adb_broker.Prelude.{
  ℕ, zero, suc, ◌+◌, ◌*◌, ◌/◌, ◌%◌, ◌<◌, ◌≡◌, refl, sym, ap, ◌∙◌, some, [], ◌∷◌, arith, length,
  replicate, All, Bytes, ok,
}
use adb_broker.Wire.Frames.RoundTrip.{hex_value-hex_digit}
use adb_broker.Audit.Anchor.{hex_encode}
use adb_broker.Audit.Lines.{hex_decode, sized_hash, decode_hash, zero_head}

abbrev pub IsByte : ℕ → Type 0
IsByte b = b < 256

-- A hash: 32 bytes.
abbrev pub IsHash : Bytes → Type 0
IsHash h = (length h ≡ 32) × All IsByte h

pub zero_head-IsHash : IsHash zero_head
zero_head-IsHash = (refl, all 32)
  where
    all : (n : ℕ) → All IsByte (replicate n 0)
    all zero = tt
    all (suc n) = (omega arith, all n)

pub hex_decode-hex_encode : (b : Bytes) → All IsByte b → hex_decode (hex_encode b) ≡ some b
unfolding hex_decode hex_encode
hex_decode-hex_encode [] h = refl
hex_decode-hex_encode (b ∷ bs) (h, hs) =
    rw
      (
        hex_value-hex_digit (b / 16) (omega arith),
        hex_value-hex_digit (b % 16) (omega arith),
        hex_decode-hex_encode bs hs,
      )
      (ap (λ v. some (v ∷ bs)) whole)
  where
    whole : 16 * (b / 16) + b % 16 ≡ b
    whole = omega arith

pub decode_hash-hex_encode : (h : Bytes) → IsHash h → decode_hash (hex_encode h) ≡ ok h
unfolding decode_hash
decode_hash-hex_encode h (n, w) = ap sized_hash (hex_decode-hex_encode h w) ∙ rw (n, sized_hash)

pub hex_encode_inj :
    (a b : Bytes) → All IsByte a → All IsByte b → hex_encode a ≡ hex_encode b → a ≡ b
hex_encode_inj a b ha hb e =
    let q : some a ≡ some b =
      sym (hex_decode-hex_encode a ha) ∙ ap hex_decode e ∙ hex_decode-hex_encode b hb in
    cc
