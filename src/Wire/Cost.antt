-- ===== src/Wire/Cost.antt =====
-- foundation/adbwire: how many bytes an action takes, and fuel.
use adb_broker.Prelude.{
  ℕ, ◌+◌, ◌≤◌, ◌≢◌, inl, inr, Bool, true, false, [], ◌∷◌, arith, leb, if◌then◌else◌, Bool-cases,
  length, length-drop, Bytes, Result, ok, err,
}
use adb_broker.Wire.Socket.{
  Socket, Ending, closed, expired, broken, WireError, out_of_fuel, Io, go_on, ◌>>=◌, pure, fail,
  wire_err, write_err, read_full, write_all,
}

abbrev pub Within : {A : Type 0} → ℕ → Socket → Socket × Result WireError A → Type 0
Within n s (s', ok a) = length s'.incoming + n ≤ length s.incoming
Within n s (s', err e) = e ≢ out_of_fuel

abbrev pub Costs : {A : Type 0} → ℕ → Io A → Type 0
Costs n m = (s : Socket) → Within n s (m s)

module _ {A B : Type 0} where
  go_on-Within :
      (n : ℕ) (f : A → Io B) (s : Socket) (r : Socket × Result WireError A)
      → ((a : A) → Costs 0 (f a))
      → Within n s r
      → Within n s (go_on f r)
  go_on-Within n f s (s', err e) h w = w
  go_on-Within n f s (s', ok a) h w = weaken (f a s') (h a s')
    where
      weaken : (r : Socket × Result WireError B) → Within 0 s' r → Within n s r
      weaken (t, ok b) k = omega arith
      weaken (t, err e) k = k

  pub >>=-Costs :
      (n : ℕ) (m : Io A) (f : A → Io B) → Costs n m → ((a : A) → Costs 0 (f a)) → Costs n (m >>= f)
  >>=-Costs n m f hm hf s = go_on-Within n f s (m s) hf (hm s)

pub fail-Costs : (A : Type 0) (n : ℕ) (e : WireError) → e ≢ out_of_fuel → Costs n (fail {A = A} e)
fail-Costs A n e h s = h

pub if-Costs :
    {A : Type 0} (n : ℕ) (b : Bool) (m k : Io A)
    → Costs n m
    → Costs n k
    → Costs n (if b then m else k)
if-Costs n true m k hm hk = hm
if-Costs n false m k hm hk = hk

pub pure-Costs : {A : Type 0} (a : A) → Costs 0 (pure a)
pure-Costs a s = omega arith

wire_err-ne-out_of_fuel : (e : Ending) (b : Bytes) → wire_err e b ≢ out_of_fuel
unfolding wire_err
wire_err-ne-out_of_fuel closed [] = λ p. cc
wire_err-ne-out_of_fuel closed (x ∷ b) = λ p. cc
wire_err-ne-out_of_fuel expired b = λ p. cc
wire_err-ne-out_of_fuel broken b = λ p. cc

pub read_full-Costs : (n : ℕ) → Costs n (read_full n)
unfolding read_full
read_full-Costs n s = elim (Bool-cases (leb n (length s.incoming))) [
  | inl e ↦ rw e (ground (arith, length-drop n s.incoming, e))
  | inr e ↦ rw e (wire_err-ne-out_of_fuel s.ending s.incoming)
]

write_err-ne-out_of_fuel : (e : Ending) → write_err e ≢ out_of_fuel
unfolding write_err
write_err-ne-out_of_fuel closed = λ p. cc
write_err-ne-out_of_fuel expired = λ p. cc
write_err-ne-out_of_fuel broken = λ p. cc

pub write_all-Costs : (p : Bytes) → Costs 0 (write_all p)
unfolding write_all
write_all-Costs p s = elim (Bool-cases (leb (length p) s.room)) [
  | inl e ↦ rw e (omega arith)
  | inr e ↦ rw e (write_err-ne-out_of_fuel s.ending)
]

pub Costs-zero : {A : Type 0} (n : ℕ) (m : Io A) → Costs n m → Costs 0 m
Costs-zero {A} n m h s = lower (m s) (h s)
  where
    lower : (r : Socket × Result WireError A) → Within n s r → Within 0 s r
    lower (t, ok a) k = omega arith
    lower (t, err e) k = k
