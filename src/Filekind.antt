-- ===== src/Filekind.antt =====
-- business/types/filekind/filekind.go: what a file is, by the type bits of its mode.
use adb_broker.Prelude.{ℕ, bit_and, Bool, true, false, ◌==◌, if◌then◌else◌, Bytes, codes}

-- `kind_unknown` is the zero value.
pub data Kind : Type 0 where
  kind_unknown kind_regular kind_dir kind_symlink kind_other : Kind

-- 0o170000, 0o100000, 0o040000 and 0o120000.
abbrev pub mode_type_mask : ℕ
mode_type_mask = 61440

abbrev pub mode_regular : ℕ
mode_regular = 32768

abbrev pub mode_dir : ℕ
mode_dir = 16384

abbrev pub mode_symlink : ℕ
mode_symlink = 40960

unfoldable pub parse_kind : ℕ → Kind
parse_kind mode =
    if bit_and mode mode_type_mask == mode_regular
    then kind_regular
    else if bit_and mode mode_type_mask == mode_dir
    then kind_dir
    else if bit_and mode mode_type_mask == mode_symlink
    then kind_symlink
    else kind_other

pub kind_string : Kind → Bytes
kind_string kind_regular = codes "regular"
kind_string kind_dir = codes "dir"
kind_string kind_symlink = codes "symlink"
kind_string kind_other = codes "other"
kind_string kind_unknown = codes "unknown"

unfoldable pub is_regular : Kind → Bool
is_regular kind_regular = true
is_regular kind_dir = false
is_regular kind_symlink = false
is_regular kind_other = false
is_regular kind_unknown = false

unfoldable pub is_dir : Kind → Bool
is_dir kind_dir = true
is_dir kind_regular = false
is_dir kind_symlink = false
is_dir kind_other = false
is_dir kind_unknown = false
