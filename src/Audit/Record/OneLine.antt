-- ===== src/Audit/Record/OneLine.antt =====
-- foundation/audit/record.go: the bytes of a canonical form, one by one.
use adb_broker.Prelude.{
  ℕ, zero, suc, ◌+◌, ◌/◌, ◌%◌, ◌≤◌, ◌≡◌, refl, subst, inl, inr, Bool, true, false, ◌&&◌, Option,
  none, some, List, [], ◌∷◌, ◌++◌, arith, ltb, leb, ◌==◌, if◌then◌else◌, Bool-cases, Option-cases,
  and_true, length, All, All-append, Bytes, codes, Result, ok, err, digits, decimal,
}
use adb_broker.Wire.Numbers.{ℤ, pos, negsuc}
use adb_broker.Wire.Frames.{hex_digit}
use adb_broker.Audit.Record.{
  Record, RecordError, in_range, in_ranges, behind, rune_tail, escape_byte, escape, json_string,
  int_decimal, canonical_form, canonical_time, with_time, canonical,
}

-- At or above the space, so no newline.
abbrev pub IsSpaceOrAbove : ℕ → Type 0
IsSpaceOrAbove b = 32 ≤ b

-- At least so many bytes stand there, and none of them is ASCII.
abbrev Behind : ℕ → Bytes → Type 0
Behind zero s = Unit
Behind (suc k) [] = ⊥
Behind (suc k) (b ∷ s) = (128 ≤ b) × Behind k s

-- Ranges with no ASCII in them.
abbrev IsTail : ℕ × ℕ → Type 0
IsTail r = 128 ≤ r.0

in_ranges-Behind :
    (rs : List (ℕ × ℕ)) (s : Bytes) → All IsTail rs → in_ranges rs s ≡ true → Behind (length rs) s
in_ranges-Behind [] s h k = tt
in_ranges-Behind (r ∷ rs) [] h k = absurd (cc)
in_ranges-Behind (r ∷ rs) (b ∷ s) (h, hs) k =
    let (low, rest) = (and_true (in_range r.0 r.1 b) (in_ranges rs s)).0 k in
    (ground arith, in_ranges-Behind rs s hs rest)

digits-IsSpaceOrAbove :
    (fuel n : ℕ) (acc : Bytes) → All IsSpaceOrAbove acc → All IsSpaceOrAbove (digits fuel n acc)
unfolding digits
digits-IsSpaceOrAbove zero n acc h = h
digits-IsSpaceOrAbove (suc fuel) n acc h = elim (Bool-cases (ltb n 10)) [
  | inl e ↦ rw e (omega arith, h)
  | inr e ↦ rw e (digits-IsSpaceOrAbove fuel (n / 10) ((48 + n % 10) ∷ acc) (omega arith, h))
]

decimal-IsSpaceOrAbove : (n : ℕ) → All IsSpaceOrAbove (decimal n)
unfolding decimal
decimal-IsSpaceOrAbove n = digits-IsSpaceOrAbove (suc n) n [] tt

int_decimal-IsSpaceOrAbove : (z : ℤ) → All IsSpaceOrAbove (int_decimal z)
unfolding int_decimal
int_decimal-IsSpaceOrAbove (pos n) = decimal-IsSpaceOrAbove n
int_decimal-IsSpaceOrAbove (negsuc n) = (omega arith, decimal-IsSpaceOrAbove (n + 1))

escape_byte-IsSpaceOrAbove : (c : ℕ) → All IsSpaceOrAbove (escape_byte c)
unfolding escape_byte hex_digit
escape_byte-IsSpaceOrAbove c = ground arith

abbrev Tails : Option (List (ℕ × ℕ)) → Type 0
Tails none = Unit
Tails (some rs) = All IsTail rs

if-Tails : (t : Bool) (x y : Option (List (ℕ × ℕ))) → Tails x → Tails y → Tails (if t then x else y)
if-Tails true x y h k = h
if-Tails false x y h k = k

behind-Tails : (c : ℕ) → Tails (behind c)
unfolding behind
behind-Tails c =
    if-Tails (in_range 194 223 c) _ _ (omega arith, tt)
      (if-Tails (c == 224) _ _ (omega arith, (omega arith, tt))
        (if-Tails (c == 237) _ _ (omega arith, (omega arith, tt))
          (if-Tails (in_range 225 239 c) _ _ (omega arith, (omega arith, tt))
            (if-Tails (c == 240) _ _ (omega arith, (omega arith, (omega arith, tt)))
              (if-Tails (in_range 241 243 c) _ _ (omega arith, (omega arith, (omega arith, tt)))
                (if-Tails (c == 244) _ _ (omega arith, (omega arith, (omega arith, tt))) tt))))))

-- What `rune_tail` counts is there, and not ASCII.
rune_tail-Behind :
    (rs : Option (List (ℕ × ℕ))) (s : Bytes) (k : ℕ)
    → Tails rs
    → rune_tail rs s ≡ some k
    → Behind k s
rune_tail-Behind none s k h e = absurd (cc)
rune_tail-Behind (some rs) s k h e = elim (Bool-cases (in_ranges rs s)) [
  | inl f ↦
      let q : rune_tail (some rs) s ≡ some (length rs) = rw (f, rune_tail) in
      let same : length rs ≡ k = cc in subst (λ n. Behind n s) same (in_ranges-Behind rs s h f)
  | inr f ↦ let q : rune_tail (some rs) s ≡ none = rw (f, rune_tail) in absurd (cc)
]

escape-IsSpaceOrAbove :
    (copied : ℕ) (s : Bytes) → Behind copied s → All IsSpaceOrAbove (escape copied s)
unfolding escape
escape-IsSpaceOrAbove zero [] h = tt
escape-IsSpaceOrAbove (suc copied) [] h = absurd h
escape-IsSpaceOrAbove (suc copied) (c ∷ s) (high, h) =
    (omega arith, escape-IsSpaceOrAbove copied s h)
escape-IsSpaceOrAbove zero (c ∷ s) h = elim (Bool-cases (ltb c 128)) [
  | inl e ↦
      rw (e, escape)
        (All-append IsSpaceOrAbove (escape_byte c) (escape zero s) (escape_byte-IsSpaceOrAbove c)
          (escape-IsSpaceOrAbove zero s tt))
  | inr e ↦ elim (Option-cases (rune_tail (behind c) s)) [
    | inl f ↦
        rw (e, f, escape)
          (omega arith, (omega arith, (omega arith, escape-IsSpaceOrAbove zero s tt)))
    | inr (k, f) ↦
        rw (e, f, escape)
          (
            ground arith,
            escape-IsSpaceOrAbove k s (rune_tail-Behind (behind c) s k (behind-Tails c) f),
          )
  ]
]

pub json_string-IsSpaceOrAbove : (s : Bytes) → All IsSpaceOrAbove (json_string s)
unfolding json_string
json_string-IsSpaceOrAbove s = (
  omega arith,
  All-append IsSpaceOrAbove (escape 0 s) (34 ∷ []) (escape-IsSpaceOrAbove 0 s tt) (omega arith, tt),
)

-- Whether every byte of a literal is at or above the space.
abbrev all_above : Bytes → Bool
all_above [] = true
all_above (c ∷ s) = leb 32 c && all_above s

pub all_above-IsSpaceOrAbove : (s : Bytes) → all_above s ≡ true → All IsSpaceOrAbove s
all_above-IsSpaceOrAbove [] h = tt
all_above-IsSpaceOrAbove (c ∷ s) h =
    let (low, rest) = (and_true (leb 32 c) (all_above s)).0 h in
    (ground arith, all_above-IsSpaceOrAbove s rest)

-- A key of the form, its value, and what follows.
key :
    (k v rest : Bytes)
    → all_above k ≡ true
    → All IsSpaceOrAbove v
    → All IsSpaceOrAbove rest
    → All IsSpaceOrAbove (k ++ (v ++ rest))
key k v rest h hv hr =
    All-append IsSpaceOrAbove k (v ++ rest) (all_above-IsSpaceOrAbove k h)
      (All-append IsSpaceOrAbove v rest hv hr)

canonical_form-IsSpaceOrAbove :
    {Time : Type 0} (ts : Bytes) (r : Record Time) → All IsSpaceOrAbove (canonical_form ts r)
unfolding canonical_form
canonical_form-IsSpaceOrAbove ts r =
    key (codes "{\"seq\":") _ _ refl (decimal-IsSpaceOrAbove r.seq) (
      key (codes ",\"ts\":") _ _ refl (json_string-IsSpaceOrAbove ts) (
        key (codes ",\"op\":") _ _ refl (json_string-IsSpaceOrAbove r.op) (
          key (codes ",\"caller_uid\":") _ _ refl (int_decimal-IsSpaceOrAbove r.caller_uid) (
            key (codes ",\"client_asserted\":") _ _ refl
              (json_string-IsSpaceOrAbove r.client_asserted)
              (key (codes ",\"serial\":") _ _ refl (json_string-IsSpaceOrAbove r.serial) (
                key (codes ",\"path_b64\":") _ _ refl (json_string-IsSpaceOrAbove r.path_b64) (
                  key (codes ",\"decision\":") _ _ refl (json_string-IsSpaceOrAbove r.decision) (
                    key (codes ",\"result\":") _ _ refl (json_string-IsSpaceOrAbove r.result) (
                      key (codes ",\"bytes\":") _ _ refl (int_decimal-IsSpaceOrAbove r.bytes) (
                        key (codes ",\"sha256\":") _ _ refl (json_string-IsSpaceOrAbove r.sha256) (
                          key (codes ",\"volume\":{\"dev\":") _ _ refl
                            (int_decimal-IsSpaceOrAbove r.volume.dev)
                            (key (codes ",\"ino\":") _ _ refl
                              (int_decimal-IsSpaceOrAbove r.volume.ino)
                              (key (codes "},\"prev\":") _ _ refl
                                (json_string-IsSpaceOrAbove r.prev)
                                (all_above-IsSpaceOrAbove (codes "}") refl))))))))))))))

-- Whatever bytes a record's strings hold, no byte of its canonical form is below 32, the space: there is no
-- newline among them.
pub canonical_lem :
    {Time : Type 0} (format : Time → Bytes) (r : Record Time) (c : Bytes)
    → canonical format r ≡ ok c
    → All IsSpaceOrAbove c
unfolding canonical
canonical_lem {Time} format r c h = taken (canonical_time format r.ts) h
  where
    taken : (t : Result RecordError Bytes) → with_time format r t ≡ ok c → All IsSpaceOrAbove c
    taken (err e) k = absurd (cc)
    taken (ok ts) k =
        let same : canonical_form ts r ≡ c = cc in
        subst (All IsSpaceOrAbove) same (canonical_form-IsSpaceOrAbove ts r)
