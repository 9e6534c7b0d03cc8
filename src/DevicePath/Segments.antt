-- ===== src/DevicePath/Segments.antt =====
-- A path as its segments: what `split` computes, and what `within` decides.
use adb_broker.Prelude.{
  ℕ, suc, true, false, List, [], ◌∷◌, ◌++◌, append_assoc, append-nil, some, Bytes, bytes_eq,
  bytes_eq_refl, eq_of_bytes_eq, length, take, drop, get_elem?, take-append-drop, length-append,
  take-length_append, ◌≡◌, ◌≢◌, refl, sym, ap, ap₂, drop_at, get_elem?-append_length, ◌∙◌, ◌↔◌, inl,
  inr, Bool-cases, arith,
}
use adb_broker.DevicePath.{slash, push, split, byte_at, within}

-- The path that segments spell.
unfoldable pub join : List Bytes → Bytes
join [] = []
join (p ∷ []) = p
join (p ∷ (q ∷ qs)) = p ++ (slash ∷ join (q ∷ qs))

-- The segments of `root` come first among those of `s`.
abbrev pub Below : Bytes → Bytes → Type 0
Below s root = (rest : List Bytes) × (split s ≡ split root ++ rest)

pub split-nil : split [] ≡ [] ∷ []
unfolding split
split-nil = refl

push-ne-nil : (c : ℕ) (xs : List Bytes) → push c xs ≢ []
push-ne-nil c [] = λ e. cc
push-ne-nil c (x ∷ xs) = λ e. cc

pub split-ne-nil : (s : Bytes) → split s ≢ []
unfolding split
split-ne-nil [] = λ e. cc
split-ne-nil (c ∷ s) = λ e. ground (arith, push-ne-nil c (split s))

push-append : (c : ℕ) (xs ys : List Bytes) → xs ≢ [] → push c (xs ++ ys) ≡ push c xs ++ ys
push-append c [] ys h = absurd (h refl)
push-append c (x ∷ xs) ys h = refl

pub split_at_slash : (a t : Bytes) → split (a ++ (slash ∷ t)) ≡ split a ++ split t
unfolding split
split_at_slash [] t = refl
split_at_slash (c ∷ a) t =
    ground (arith, split_at_slash a t, push-append c (split a) (split t) (split-ne-nil a))

join-push : (c : ℕ) (xs : List Bytes) → xs ≢ [] → join (push c xs) ≡ c ∷ join xs
unfolding join
join-push c [] h = absurd (h refl)
join-push c (x ∷ []) h = refl
join-push c (x ∷ (y ∷ ys)) h = refl

join-cons : (p : Bytes) (xs : List Bytes) → xs ≢ [] → join (p ∷ xs) ≡ p ++ (slash ∷ join xs)
unfolding join
join-cons p [] h = absurd (h refl)
join-cons p (x ∷ xs) h = refl

pub join-split : (s : Bytes) → join (split s) ≡ s
unfolding split
join-split [] = unfold join in refl
join-split (c ∷ s) = ground (
  arith,
  join-split s,
  join-push c (split s) (split-ne-nil s),
  join-cons [] (split s) (split-ne-nil s),
)

join-append :
    (xs ys : List Bytes) → xs ≢ [] → ys ≢ [] → join (xs ++ ys) ≡ join xs ++ (slash ∷ join ys)
unfolding join
join-append [] ys h k = absurd (h refl)
join-append (x ∷ []) ys h k = join-cons x ys k
join-append (x ∷ (z ∷ zs)) ys h k =
    ap (λ t. x ++ (slash ∷ t)) (join-append (z ∷ zs) ys (λ e. cc) k)
    ∙ sym (append_assoc x (slash ∷ join (z ∷ zs)) (slash ∷ join ys))

-- The three tests of `within` after the equality.
boundary :
    (root s : Bytes) (c : ℕ)
    → get_elem? s (length root) ≡ some c
    → take (length root) s ≡ root
    → s ≡ root ++ (c ∷ drop (suc (length root)) s)
boundary root s c e t =
    sym (take-append-drop (length root) s) ∙ ap₂ ◌++◌ t (drop_at (length root) s c e)

byte_at-eq_some : (s : Bytes) (i b : ℕ) → byte_at s i b ≡ true → get_elem? s i ≡ some b
byte_at-eq_some s i b h = ground arith

within_parts :
    (s root : Bytes)
    → within s root ≡ true
    → bytes_eq s root ≡ false
    → (byte_at s (length root) slash ≡ true) × (bytes_eq (take (length root) s) root ≡ true)
unfolding within
within_parts s root h other = ground arith

within-Below : (s root : Bytes) → within s root ≡ true → Below s root
within-Below s root h = elim (Bool-cases (bytes_eq s root)) [
  | inl same ↦ ([], rw (eq_of_bytes_eq s root same) (sym (append-nil (split root))))
  | inr other ↦
      let (slash_there, front) = within_parts s root h other in
      let tail = drop (suc (length root)) s in
      let spelled : s ≡ root ++ (slash ∷ tail) =
        boundary root s slash (byte_at-eq_some s (length root) slash slash_there)
          (eq_of_bytes_eq (take (length root) s) root front) in
      (split tail, ap split spelled ∙ split_at_slash root tail)
]

within_self : (s : Bytes) → within s s ≡ true
unfolding within
within_self s = rw (bytes_eq_refl s)

within_spelled : (root t : Bytes) → within (root ++ (slash ∷ t)) root ≡ true
unfolding within
within_spelled root t = ground (
  arith,
  length-append root (slash ∷ t),
  get_elem?-append_length root t slash,
  take-length_append (length root) root (slash ∷ t) refl,
  bytes_eq_refl root,
)

Below-within : (s root : Bytes) → Below s root → within s root ≡ true
Below-within s root ([], e) =
    let same : s ≡ root =
      sym (join-split s) ∙ ap join (e ∙ append-nil (split root)) ∙ join-split root in
    rw same (within_self root)
Below-within s root (x ∷ rest, e) =
    let spelled : s ≡ root ++ (slash ∷ join (x ∷ rest)) =
      sym (join-split s)
      ∙ ap join e
      ∙ join-append (split root) (x ∷ rest) (split-ne-nil root) (λ p. cc)
      ∙ ap (λ r. r ++ (slash ∷ join (x ∷ rest))) (join-split root) in
    rw spelled (within_spelled root (join (x ∷ rest)))

-- `within` is the comparison of whole segments, whatever the two strings are.
pub within_iff : (s root : Bytes) → (within s root ≡ true) ↔ Below s root
within_iff s root = (within-Below s root, Below-within s root)
