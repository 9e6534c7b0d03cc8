-- ===== src/DevicePath/Volume.antt =====
-- business/types/devicepath/volume.go: the pin on the file system of the shared storage.
use adb_broker.Prelude.{
  ℕ, bit_and, ◌≡◌, refl, ap, ◌∙◌, subst, ◌↔◌, inl, inr, Bool, true, false, ◌&&◌, not, Option, none,
  some, arith, ◌==◌, if◌then◌else◌, ==_iff, Bool-cases, and_true, Bytes, Result, ok, err,
}
use adb_broker.Wire.Numbers.{ℤ, pos, negsuc}
use adb_broker.Filekind.{kind_dir, mode_type_mask, mode_dir, parse_kind}
use adb_broker.DevicePath.{volume_root}

pub record Volume : Type 0 where
  pub dev : ℤ
  pub ino : ℤ
  pub resolved : Bool

-- Each value wraps `ErrVolumeUnresolved`.
pub data VolumeError (E : Type 0) : Type 0 where
  no_stat_function : VolumeError E
  stat_failed : E → VolumeError E
  not_a_directory : ℕ → VolumeError E

-- What `StatFunc` returns: dev, ino and mode, or an error.
abbrev pub StatFunc : Type 0 → Type 0
StatFunc E = Bytes → Result E (ℤ × ℤ × ℕ)

abbrev pub pinned : {E : Type 0} → Result E (ℤ × ℤ × ℕ) → Result (VolumeError E) Volume
pinned (err e) = err (stat_failed e)
pinned (ok (dev, ino, mode)) =
    if not (bit_and mode mode_type_mask == mode_dir)
    then err (not_a_directory mode)
    else ok (record { dev = dev; ino = ino; resolved = true })

unfoldable pub resolve_volume : {E : Type 0} → Option (StatFunc E) → Result (VolumeError E) Volume
resolve_volume none = err no_stat_function
resolve_volume (some stat) = pinned (stat volume_root)

-- `==` on int64.
abbrev pub int_eq : ℤ → ℤ → Bool
int_eq (pos a) (pos b) = a == b
int_eq (pos a) (negsuc b) = false
int_eq (negsuc a) (pos b) = false
int_eq (negsuc a) (negsuc b) = a == b

unfoldable pub contains_dev : Volume → ℤ → Bool
contains_dev v dev = v.resolved && int_eq v.dev dev

int_eq_iff : (a b : ℤ) → (int_eq a b ≡ true) ↔ (a ≡ b)
int_eq_iff (pos a) (pos b) = (λ h. ap pos ((==_iff a b).0 h), λ e. (==_iff a b).1 (cc))
int_eq_iff (pos a) (negsuc b) = (λ h. absurd (cc), λ e. absurd (cc))
int_eq_iff (negsuc a) (pos b) = (λ h. absurd (cc), λ e. absurd (cc))
int_eq_iff (negsuc a) (negsuc b) = (λ h. ap negsuc ((==_iff a b).0 h), λ e. (==_iff a b).1 (cc))

-- The stat that a pin came from.
abbrev Source : {E : Type 0} → Result E (ℤ × ℤ × ℕ) → Volume → Type 0
Source r v =
    (ino : ℤ) × (mode : ℕ) × (r ≡ ok (v.dev, ino, mode))
    × (v.resolved ≡ true)
    × (parse_kind mode ≡ kind_dir)

parse_kind_dir : (mode : ℕ) → bit_and mode mode_type_mask ≡ mode_dir → parse_kind mode ≡ kind_dir
unfolding parse_kind
parse_kind_dir mode e = rw e

pinned-Source : {E : Type 0} (r : Result E (ℤ × ℤ × ℕ)) (v : Volume) → pinned r ≡ ok v → Source r v
pinned-Source {E} (err e) v h = absurd (cc)
pinned-Source {E} (ok (dev, ino, mode)) v h =
    elim (Bool-cases (bit_and mode mode_type_mask == mode_dir)) [
      | inl e ↦
          let q : pinned {E = E} (ok (dev, ino, mode))
              ≡ ok (record { dev = dev; ino = ino; resolved = true }) =
            rw (e, pinned) in
          let same : record { dev = dev; ino = ino; resolved = true } ≡ v = cc in
          subst (Source (ok (dev, ino, mode))) same (
            ino,
            mode,
            refl,
            refl,
            parse_kind_dir mode ((==_iff (bit_and mode mode_type_mask) mode_dir).0 e),
          )
      | inr e ↦ absurd (ground arith)
    ]

-- A volume that was resolved contains a device number exactly if the stat of the volume root, the one call
-- that the resolver makes, gave a directory on that device.
pub resolve_volume_lem :
    {E : Type 0} (stat : StatFunc E) (v : Volume) (dev : ℤ)
    → resolve_volume (some stat) ≡ ok v
    → (contains_dev v dev ≡ true) ↔ (
        (ino : ℤ) × (mode : ℕ) × (stat volume_root ≡ ok (dev, ino, mode))
        × (parse_kind mode ≡ kind_dir))
unfolding resolve_volume contains_dev
resolve_volume_lem stat v dev h =
    let (ino, mode, e, r, k) = pinned-Source (stat volume_root) v h in
    (
      λ c.
          let q : int_eq v.dev dev ≡ true = ((and_true v.resolved (int_eq v.dev dev)).0 c).1 in
          (ino, mode, e ∙ ap (λ d. ok (d, ino, mode)) ((int_eq_iff v.dev dev).0 q), k),
      λ (i, m, f, _).
          let same : v.dev ≡ dev = cc in
          (and_true v.resolved (int_eq v.dev dev)).1 (r, (int_eq_iff v.dev dev).1 same),
    )

unfoldable pub is_zero_volume : Volume → Bool
is_zero_volume v = not v.resolved
