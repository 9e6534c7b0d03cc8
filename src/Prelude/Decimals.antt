-- ===== src/Prelude/Decimals.antt =====
-- Numbers in base ten.
use Prim.Native.Nat.{ℕ, zero, suc, ◌+◌, ◌-◌, ◌*◌, ◌/◌, ◌%◌, ◌<◌}
use mathlib.Core.Path.{◌≡◌, ap, ◌∙◌}
use mathlib.Core.Logic.{inl, inr}
use mathlib.Core.List.{[], ◌∷◌}
use native.Mathlib.Omega.{arith}
use adb_broker.Prelude.Tests.{ltb, if◌then◌else◌, Bool-cases}
use adb_broker.Prelude.ByteStrings.{Bytes}

-- The digits of a number in base ten; a number has at most as many as it counts.
unfoldable pub digits : ℕ → ℕ → Bytes → Bytes
digits zero n acc = acc
digits (suc fuel) n acc =
    let rest = digits fuel (n / 10) ((48 + n % 10) ∷ acc) in
    if ltb n 10 then (48 + n) ∷ acc else rest

-- `%d`.
unfoldable pub decimal : ℕ → Bytes
decimal n = digits (suc n) n []

-- The number that decimal digits spell behind those already read.
abbrev pub decimal_value : ℕ → Bytes → ℕ
decimal_value a [] = a
decimal_value a (c ∷ cs) = decimal_value (10 * a + (c - 48)) cs

pub decimal_value-digits :
    (fuel n : ℕ) (acc : Bytes)
    → n < fuel
    → decimal_value 0 (digits fuel n acc) ≡ decimal_value n acc
unfolding digits
decimal_value-digits zero n acc h = absurd (omega arith)
decimal_value-digits (suc fuel) n acc h = elim (Bool-cases (ltb n 10)) [
  | inl e ↦ rw e (ap (λ a. decimal_value a acc) (omega arith))
  | inr e ↦ rw e (
      decimal_value-digits fuel (n / 10) ((48 + n % 10) ∷ acc) (ground arith)
      ∙ ap (λ a. decimal_value a acc) (omega arith))
]
