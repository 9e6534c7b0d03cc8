-- ===== src/Wire/Stat.antt =====
-- foundation/adbwire/sync.go: the stat_v2 body.
use adb_broker.Prelude.{
  ℕ, ◌^◌, ◌≤◌, ◌<◌, ◌≡◌, refl, ap, ◌∙◌, ◌≢◌, ◌||◌, not, ◌++◌, arith, ltb, ◌==◌, if◌then◌else◌,
  length, Bytes, Result, ok, err,
}
use adb_broker.Wire.Numbers.{
  le_value, uint32_at, uint64_at, le_bytes, ℤ, to_int64, of_int64, max_int64, IsInt64,
  length-le_bytes, le_value-le_bytes, to_int64-of_int64, of_int64-lt,
}
use adb_broker.Wire.Socket.{
  WireError, short_stat, dev_overflow, ino_overflow, out_of_fuel, size_overflow,
}

-- `dev`, `ino` and `size` are int64s that the decoder has checked to be no negative numbers.
pub record Stat : Type 0 where
  pub errno : ℕ
  pub dev : ℕ
  pub ino : ℕ
  pub mode : ℕ
  pub nlink : ℕ
  pub uid : ℕ
  pub gid : ℕ
  pub size : ℕ
  pub atime : ℤ
  pub mtime : ℤ
  pub ctime : ℤ

abbrev pub stat_rest_len : ℕ
stat_rest_len = 64

-- The literal that `decodeStat` returns.
unfoldable pub stat_of : Bytes → Bytes → Stat
unfolding uint32_at uint64_at
stat_of errno_field rest = record {
  errno = uint32_at errno_field 0;
  dev = uint64_at rest 0;
  ino = uint64_at rest 8;
  mode = uint32_at rest 16;
  nlink = uint32_at rest 20;
  uid = uint32_at rest 24;
  gid = uint32_at rest 28;
  size = uint64_at rest 32;
  atime = to_int64 (uint64_at rest 40);
  mtime = to_int64 (uint64_at rest 48);
  ctime = to_int64 (uint64_at rest 56);
}

unfoldable pub decode_stat : Bytes → Bytes → Result WireError Stat
decode_stat errno_field rest =
    if ltb (length errno_field) 4 || not (length rest == stat_rest_len)
    then err short_stat
    else if ltb max_int64 (uint64_at rest 0)
    then err dev_overflow
    else if ltb max_int64 (uint64_at rest 8)
    then err ino_overflow
    else if ltb max_int64 (uint64_at rest 32)
    then err size_overflow
    else ok (stat_of errno_field rest)

-- The 64 bytes that follow the errno, as the device writes them.
unfoldable pub stat_rest : Stat → Bytes
stat_rest st =
    le_bytes 8 st.dev
    ++ (le_bytes 8 st.ino
        ++ (le_bytes 4 st.mode
            ++ (le_bytes 4 st.nlink
                ++ (le_bytes 4 st.uid
                    ++ (le_bytes 4 st.gid
                        ++ (le_bytes 8 st.size
                            ++ (le_bytes 8 (of_int64 st.atime)
                                ++ (le_bytes 8 (of_int64 st.mtime)
                                    ++ le_bytes 8 (of_int64 st.ctime)))))))))

-- What the fields of a stat reply can hold.
pub record IsStat (st : Stat) : Type 0 where
  pub errno_fits : st.errno < 2 ^ 32
  pub dev_fits : st.dev ≤ max_int64
  pub ino_fits : st.ino ≤ max_int64
  pub mode_fits : st.mode < 2 ^ 32
  pub nlink_fits : st.nlink < 2 ^ 32
  pub uid_fits : st.uid < 2 ^ 32
  pub gid_fits : st.gid < 2 ^ 32
  pub size_fits : st.size ≤ max_int64
  pub atime_fits : IsInt64 st.atime
  pub mtime_fits : IsInt64 st.mtime
  pub ctime_fits : IsInt64 st.ctime

uint32_lem : (v : ℕ) → v < 2 ^ 32 → le_value (le_bytes 4 v) ≡ v
uint32_lem v h = le_value-le_bytes 4 v h

uint64_lem : (v : ℕ) → v < 2 ^ 64 → le_value (le_bytes 8 v) ≡ v
uint64_lem v h = le_value-le_bytes 8 v h

pub length-stat_rest : (st : Stat) → length (stat_rest st) ≡ 64
unfolding stat_rest le_bytes
length-stat_rest st = refl

-- Every field is read from where the device put it.
stat_of-stat_rest : (st : Stat) → IsStat st → stat_of (le_bytes 4 st.errno) (stat_rest st) ≡ st
unfolding stat_of stat_rest le_bytes
stat_of-stat_rest st w = λ i. record {
  errno = uint32_lem st.errno w.errno_fits i;
  dev = uint64_lem st.dev (omega arith) i;
  ino = uint64_lem st.ino (omega arith) i;
  mode = uint32_lem st.mode w.mode_fits i;
  nlink = uint32_lem st.nlink w.nlink_fits i;
  uid = uint32_lem st.uid w.uid_fits i;
  gid = uint32_lem st.gid w.gid_fits i;
  size = uint64_lem st.size (omega arith) i;
  atime = int64_lem st.atime w.atime_fits i;
  mtime = int64_lem st.mtime w.mtime_fits i;
  ctime = int64_lem st.ctime w.ctime_fits i;
}
  where
    int64_lem : (z : ℤ) → IsInt64 z → to_int64 (le_value (le_bytes 8 (of_int64 z))) ≡ z
    int64_lem z h = ap to_int64 (uint64_lem (of_int64 z) (of_int64-lt z h)) ∙ to_int64-of_int64 z h

-- The bounds that the decoder tests hold of a stat reply.
decode_within :
    (e r : Bytes)
    → (length e ≡ 4)
    → (length r ≡ 64)
    → (uint64_at r 0 ≤ max_int64)
    → (uint64_at r 8 ≤ max_int64)
    → (uint64_at r 32 ≤ max_int64)
    → decode_stat e r ≡ ok (stat_of e r)
unfolding decode_stat
decode_within e r he hr hd hi hs = ground arith

-- The body that a device sends for a stat is decoded to that stat, field for field.
pub decode_stat-stat_rest :
    (st : Stat) → IsStat st → decode_stat (le_bytes 4 st.errno) (stat_rest st) ≡ ok st
unfolding stat_of
decode_stat-stat_rest st w =
    decode_within (le_bytes 4 st.errno) (stat_rest st) (length-le_bytes 4 st.errno)
      (length-stat_rest st) (omega (arith, dev_back)) (omega (arith, ino_back))
      (omega (arith, size_back))
    ∙ ap ok same
  where
    same : stat_of (le_bytes 4 st.errno) (stat_rest st) ≡ st
    same = stat_of-stat_rest st w

    dev_back : uint64_at (stat_rest st) 0 ≡ st.dev
    dev_back = λ i. (same i).dev

    ino_back : uint64_at (stat_rest st) 8 ≡ st.ino
    ino_back = λ i. (same i).ino

    size_back : uint64_at (stat_rest st) 32 ≡ st.size
    size_back = λ i. (same i).size

pub decode_stat-ne-out_of_fuel : (e r : Bytes) → decode_stat e r ≢ err out_of_fuel
unfolding decode_stat
decode_stat-ne-out_of_fuel e r h = ground arith
