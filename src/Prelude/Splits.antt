-- ===== src/Prelude/Splits.antt =====
-- strings.SplitSeq and strings.Cut with a separator of one byte.
use Prim.Native.Nat.{ℕ}
use mathlib.Core.Path.{◌≡◌}
use mathlib.Core.Bool.{false}
use mathlib.Core.Option.{Option, none, some}
use mathlib.Core.List.{List, [], ◌∷◌, ◌++◌}
use native.Mathlib.Omega.{arith}
use adb_broker.Prelude.Tests.{◌==◌, if◌then◌else◌, ==_refl}
use adb_broker.Prelude.ByteStrings.{Bytes, contains_byte}

abbrev pub push : ℕ → List Bytes → List Bytes
push c [] = (c ∷ []) ∷ []
push c (x ∷ xs) = (c ∷ x) ∷ xs

-- `strings.SplitSeq(s, sep)` for a separator of one byte.
unfoldable pub split_on : ℕ → Bytes → List Bytes
split_on sep [] = [] ∷ []
split_on sep (c ∷ cs) = let rest = split_on sep cs in if c == sep then [] ∷ rest else push c rest

abbrev pub cut_behind : ℕ → Option (Bytes × Bytes) → Option (Bytes × Bytes)
cut_behind c none = none
cut_behind c (some (a, b)) = some (c ∷ a, b)

-- `strings.Cut(s, sep)` for a separator of one byte; none if the separator is not there.
unfoldable pub cut_at : ℕ → Bytes → Option (Bytes × Bytes)
cut_at sep [] = none
cut_at sep (c ∷ cs) =
    let rest = cut_at sep cs in if c == sep then some ([], cs) else cut_behind c rest

pub split_on_line :
    (sep : ℕ) (a t : Bytes)
    → contains_byte sep a ≡ false
    → split_on sep (a ++ (sep ∷ t)) ≡ a ∷ split_on sep t
unfolding split_on
split_on_line sep [] t h = rw (==_refl sep)
split_on_line sep (c ∷ a) t h = ground (arith, split_on_line sep a t)

pub cut_at_line :
    (sep : ℕ) (a b : Bytes)
    → contains_byte sep a ≡ false
    → cut_at sep (a ++ (sep ∷ b)) ≡ some (a, b)
unfolding cut_at
cut_at_line sep [] b h = rw (==_refl sep)
cut_at_line sep (c ∷ a) b h = ground (arith, cut_at_line sep a b)

pub contains_byte-append :
    (b : ℕ) (xs ys : Bytes)
    → contains_byte b xs ≡ false
    → contains_byte b ys ≡ false
    → contains_byte b (xs ++ ys) ≡ false
contains_byte-append b [] ys h k = k
contains_byte-append b (x ∷ xs) ys h k = ground (arith, contains_byte-append b xs ys)
