-- ===== src/Wire/Numbers.antt =====
-- encoding/binary's little-endian numbers, and the conversion of a uint64 to an int64.
use adb_broker.Prelude.{
  ℕ, zero, suc, ◌+◌, ◌-◌, ◌*◌, ◌/◌, ◌%◌, ◌^◌, ◌≤◌, ◌<◌, ◌≡◌, refl, [], ◌∷◌, arith, leb,
  if◌then◌else◌, length, take, drop, Bytes,
}

-- The number that bytes spell, lowest first: `binary.LittleEndian.Uint32` of four of them, `Uint64`
-- of eight.
abbrev pub le_value : Bytes → ℕ
le_value [] = 0
le_value (b ∷ bs) = b + 256 * le_value bs

-- `binary.LittleEndian.Uint32(p[i:])` and `Uint64(p[i:])`, for a `p` long enough.
unfoldable pub uint32_at : Bytes → ℕ → ℕ
uint32_at p i = le_value (take 4 (drop i p))

unfoldable pub uint64_at : Bytes → ℕ → ℕ
uint64_at p i = le_value (take 8 (drop i p))

-- The `width` lowest bytes of a number, lowest first: `AppendUint32` for a width of four.
unfoldable pub le_bytes : ℕ → ℕ → Bytes
le_bytes zero v = []
le_bytes (suc width) v = v % 256 ∷ le_bytes width (v / 256)

-- `negsuc n` is -(n + 1).
pub data ℤ : Type 0 where
  pos : ℕ → ℤ
  negsuc : ℕ → ℤ

abbrev pub max_int64 : ℕ
max_int64 = 2 ^ 63 - 1

-- `int64(v)` of a uint64.
unfoldable pub to_int64 : ℕ → ℤ
to_int64 v = if leb v max_int64 then pos v else negsuc (2 ^ 64 - 1 - v)

-- `uint64(z)` of an int64.
unfoldable pub of_int64 : ℤ → ℕ
of_int64 (pos n) = n
of_int64 (negsuc n) = 2 ^ 64 - 1 - n

abbrev pub IsInt64 : ℤ → Type 0
IsInt64 (pos n) = n ≤ max_int64
IsInt64 (negsuc n) = n ≤ max_int64

pub length-le_bytes : (width v : ℕ) → length (le_bytes width v) ≡ width
unfolding le_bytes
length-le_bytes zero v = refl
length-le_bytes (suc width) v = omega (arith, length-le_bytes width (v / 256))

pub le_value-le_bytes : (width v : ℕ) → v < 256 ^ width → le_value (le_bytes width v) ≡ v
unfolding le_bytes
le_value-le_bytes zero v h = omega arith
le_value-le_bytes (suc width) v h = omega (arith, le_value-le_bytes width (v / 256) (omega arith))

pub to_int64-of_int64 : (z : ℤ) → IsInt64 z → to_int64 (of_int64 z) ≡ z
unfolding to_int64 of_int64
to_int64-of_int64 (pos n) h = ground arith
to_int64-of_int64 (negsuc n) h = ground arith

pub of_int64-lt : (z : ℤ) → IsInt64 z → of_int64 z < 2 ^ 64
unfolding of_int64
of_int64-lt (pos n) h = omega arith
of_int64-lt (negsuc n) h = omega arith
