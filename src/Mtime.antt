-- ===== src/Mtime.antt =====
-- business/types/mtime/mtime.go: a modification time, as the device sent it.
use adb_broker.Prelude.{Bool, false, ◌==◌, Bytes}
use adb_broker.Wire.Numbers.{ℤ, pos, negsuc}
use adb_broker.Audit.Record.{int_decimal}

pub record Mtime : Type 0 where
  pub sec : ℤ

pub parse_mtime : ℤ → Mtime
parse_mtime sec = record { sec = sec }

pub seconds : Mtime → ℤ
seconds m = m.sec

-- `strconv.FormatInt` in base ten.
pub mtime_string : Mtime → Bytes
mtime_string m = int_decimal m.sec

abbrev is_zero_int : ℤ → Bool
is_zero_int (pos n) = n == 0
is_zero_int (negsuc n) = false

pub is_zero_mtime : Mtime → Bool
is_zero_mtime m = is_zero_int m.sec
