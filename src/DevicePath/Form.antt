-- ===== src/DevicePath/Form.antt =====
-- What `check_form` accepts, said of the segments.
use adb_broker.Prelude.{
  ℕ, true, false, List, [], ◌∷◌, ◌++◌, Bytes, codes, bytes_eq, bytes_eq_iff, eq_of_bytes_eq,
  contains_byte, has_prefix, length, drop, ok, ◌≡◌, ◌≢◌, refl, sym, ap, ◌∙◌, ◌↔◌, inl, inr,
  Bool-cases, arith, All, subst, All-append_right,
}
use adb_broker.DevicePath.Segments.{join, join-split, split-ne-nil}
use adb_broker.DevicePath.{dot, dot_dot, split, trim_slash, check_segments, check_form}

-- A segment that names a directory entry and nothing else.
abbrev pub IsPlain : Bytes → Type 0
IsPlain seg = (seg ≢ []) × (seg ≢ dot) × (seg ≢ dot_dot)

-- An absolute path under `/sdcard` with no NUL, whose segments are all plain.
pub record IsWellFormed (s : Bytes) : Type 0 where
  pub no_nul : All (λ c. c ≢ 0) s
  pub below : List Bytes
  pub spelled : split s ≡ [] ∷ (codes "sdcard" ∷ below)
  pub some_below : below ≢ []
  pub plain : All IsPlain below

ne_of_bytes_eq : (s t : Bytes) → bytes_eq s t ≡ false → s ≢ t
ne_of_bytes_eq s t h e = cc (h, (bytes_eq_iff s t).1 e)

pub bytes_eq-false : (s t : Bytes) → s ≢ t → bytes_eq s t ≡ false
bytes_eq-false s t n = elim (Bool-cases (bytes_eq s t)) [
  | inl e ↦ absurd (n (eq_of_bytes_eq s t e))
  | inr e ↦ e
]

pub check_segments_sound : (segs : List Bytes) → check_segments segs ≡ ok tt → All IsPlain segs
unfolding check_segments
check_segments_sound [] h = tt
check_segments_sound (seg ∷ segs) h = ground (
  arith,
  check_segments_sound segs,
  bytes_eq_iff seg [],
  bytes_eq_iff seg dot,
  bytes_eq_iff seg dot_dot,
)

pub check_segments_complete : (segs : List Bytes) → All IsPlain segs → check_segments segs ≡ ok tt
unfolding check_segments
check_segments_complete [] h = refl
check_segments_complete (seg ∷ segs) ((ne, nd, ndd), rest) =
    rw (bytes_eq-false seg [] ne, bytes_eq-false seg dot nd, bytes_eq-false seg dot_dot ndd)
      (check_segments_complete segs rest)

pub no_nul_of_contains : (b : ℕ) (s : Bytes) → contains_byte b s ≡ false → All (λ c. c ≢ b) s
no_nul_of_contains b [] h = tt
no_nul_of_contains b (c ∷ s) h = (ground arith, no_nul_of_contains b s (ground arith))

pub contains-false : (b : ℕ) (s : Bytes) → All (λ c. c ≢ b) s → contains_byte b s ≡ false
contains-false b [] h = refl
contains-false b (c ∷ s) (n, h) = ground (arith, contains-false b s h)

has_prefix-append : (p t : Bytes) → has_prefix p (p ++ t) ≡ true
has_prefix-append [] t = refl
has_prefix-append (c ∷ p) t = ground (arith, has_prefix-append p t)

prefix_spelled : (p s : Bytes) → has_prefix p s ≡ true → s ≡ p ++ drop (length p) s
prefix_spelled [] s h = refl
prefix_spelled (c ∷ p) [] h = cc
prefix_spelled (c ∷ p) (x ∷ s) h = ground (arith, prefix_spelled p s)

check_form_parts :
    (s : Bytes)
    → check_form s ≡ ok tt
    → (contains_byte 0 s ≡ false)
      × (has_prefix (codes "/sdcard/") s ≡ true)
      × (check_segments (split (trim_slash s)) ≡ ok tt)
unfolding check_form
check_form_parts s h = ground arith

split_under : (t : Bytes) → split (codes "/sdcard/" ++ t) ≡ [] ∷ (codes "sdcard" ∷ split t)
unfolding split
split_under t = refl

check_under :
    (t : Bytes)
    → check_segments (split (trim_slash (codes "/sdcard/" ++ t))) ≡ check_segments (split t)
unfolding split check_segments
check_under t = refl

check_form_sound : (s : Bytes) → check_form s ≡ ok tt → IsWellFormed s
check_form_sound s h =
    let (no_zero, front, segments) = check_form_parts s h in
    let t = drop 8 s in
    let spelled : s ≡ codes "/sdcard/" ++ t = prefix_spelled (codes "/sdcard/") s front in
    let accepted : check_segments (split t) ≡ ok tt =
      sym (check_under t)
      ∙ ap (λ r. check_segments (split (trim_slash r))) (sym spelled)
      ∙ segments in
    record {
      no_nul = no_nul_of_contains 0 s no_zero;
      below = split t;
      spelled = ap split spelled ∙ split_under t;
      some_below = split-ne-nil t;
      plain = check_segments_sound (split t) accepted;
    }

check_form_under :
    (t : Bytes)
    → contains_byte 0 t ≡ false
    → check_form (codes "/sdcard/" ++ t) ≡ check_segments (split t)
unfolding check_form
check_form_under t h = rw h

join_under :
    (below : List Bytes)
    → below ≢ []
    → join ([] ∷ (codes "sdcard" ∷ below)) ≡ codes "/sdcard/" ++ join below
unfolding join
join_under [] n = absurd (n refl)
join_under (seg ∷ segs) n = refl

check_form_complete : (s : Bytes) → IsWellFormed s → check_form s ≡ ok tt
check_form_complete s w =
    let t = join w.below in
    let spelled : s ≡ codes "/sdcard/" ++ t =
      sym (join-split s) ∙ ap join w.spelled ∙ join_under w.below w.some_below in
    let same : split t ≡ w.below = cc (split_under t, ap split spelled, w.spelled) in
    let no_zero : All (λ c. c ≢ 0) t =
      All-append_right _ (codes "/sdcard/") t (subst (All (λ c. c ≢ 0)) spelled w.no_nul) in
    rw spelled (
      check_form_under t (contains-false 0 t no_zero)
      ∙ check_segments_complete (split t) (rw same w.plain))

-- `check_form` accepts exactly the well-formed paths.
pub check_form_iff : (s : Bytes) → (check_form s ≡ ok tt) ↔ IsWellFormed s
check_form_iff s = (check_form_sound s, check_form_complete s)
