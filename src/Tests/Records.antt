-- ===== src/Tests/Records.antt =====
-- foundation/audit/record.go at a concrete record.
use adb_broker.Prelude.{
  ◌≡◌, refl, ◌⊎◌, [], ◌∷◌, ◌++◌, replicate, All, Bytes, codes, ok, digits, decimal,
}
use adb_broker.Wire.Numbers.{pos}
use adb_broker.Wire.Frames.{hex_digit}
use adb_broker.Audit.Record.{
  Record, behind, escape_byte, escape, json_string, int_decimal, canonical_form, canonical_time,
  canonical, hash_record,
}
use adb_broker.Audit.Record.OneLine.{IsSpaceOrAbove, canonical_lem}
use adb_broker.Audit.Record.Linked.{Collides, hash_record_lem}

-- A quote, a newline, an escape character, a letter of two bytes and an invalid byte.
escape_tests :
    (json_string (34 ∷ 10 ∷ 27 ∷ []) ≡ codes "\"\\\"\\n\\u001b\"")
    × (json_string (195 ∷ 169 ∷ 255 ∷ []) ≡ 34 ∷ 195 ∷ 169 ∷ 239 ∷ 191 ∷ 189 ∷ 34 ∷ [])
unfolding json_string escape escape_byte behind hex_digit
escape_tests = (refl, refl)

-- Times are given in their form.
abbrev as_given : Bytes → Bytes
as_given t = t

abbrev listed : Record Bytes
listed = record {
  seq = 1;
  ts = codes "2026-07-30T16:52:03.114Z";
  op = codes "list";
  caller_uid = pos 1000;
  client_asserted = codes "backup";
  serial = codes "EXAMPLE1";
  path_b64 = codes "L3NkY2FyZA==";
  decision = codes "allow";
  result = codes "ok";
  bytes = pos 0;
  sha256 = [];
  volume = record { dev = pos 190; ino = pos 3252 };
  prev = codes "00";
  hash = [];
}

abbrev listed_form : Bytes
listed_form =
    codes
      "{\"seq\":1,\"ts\":\"2026-07-30T16:52:03.114Z\",\"op\":\"list\",\"caller_uid\":1000,\"client_asserted\":\"backup\",\"serial\":\"EXAMPLE1\",\"path_b64\":\"L3NkY2FyZA==\",\"decision\":\"allow\",\"result\":\"ok\",\"bytes\":0,\"sha256\":\"\",\"volume\":{\"dev\":190,\"ino\":3252},\"prev\":\"00\"}"

canonical-listed : canonical as_given listed ≡ ok listed_form
unfolding canonical canonical_time canonical_form json_string escape escape_byte behind hex_digit
    int_decimal decimal digits
canonical-listed = refl

canonical_lem_example : All IsSpaceOrAbove listed_form
canonical_lem_example = canonical_lem as_given listed listed_form canonical-listed

-- A sum that keeps its whole input.
abbrev whole : Bytes → Bytes
whole s = s

abbrev zero_hash : Bytes
zero_hash = replicate 32 0

hash-listed : hash_record as_given whole zero_hash listed ≡ ok (zero_hash ++ listed_form)
unfolding hash_record canonical canonical_time canonical_form json_string escape escape_byte behind
    hex_digit int_decimal decimal digits
hash-listed = refl

hash_record_lem_example :
    ((zero_hash ≡ zero_hash) × (canonical as_given listed ≡ canonical as_given listed))
    ⊎ Collides as_given whole zero_hash zero_hash listed listed
hash_record_lem_example =
    hash_record_lem as_given whole zero_hash zero_hash (zero_hash ++ listed_form) listed listed refl
      refl hash-listed hash-listed
