-- ===== src/Wire/Failures.antt =====
-- foundation/adbwire/errors.go: what adb's prose is taken for.
use adb_broker.Prelude.{
  ◌≡◌, refl, ◌⊎◌, inl, inr, Bool, true, false, ◌||◌, Option, none, some, List, [], ◌∷◌, arith,
  if◌then◌else◌, Bool-cases, All, Bytes, codes, has_prefix,
}

pub data Sentinel : Type 0 where
  no_devices unauthorized device_not_found offline unknown_service : Sentinel
  protocol sync_session_dead : Sentinel

-- `strings.Contains(s, needle)`.
unfoldable pub contains_text : Bytes → Bytes → Bool
contains_text needle [] = has_prefix needle []
contains_text needle (c ∷ s) = has_prefix needle (c ∷ s) || contains_text needle s

abbrev pub fail_table : List (Bytes × Sentinel)
fail_table =
    (codes "no devices", no_devices)
    ∷ (codes "unauthorized", unauthorized)
    ∷ (codes "not found", device_not_found)
    ∷ (codes "device offline", offline)
    ∷ (codes "unknown host service", unknown_service)
    ∷ []

-- The loop over the table: the first row that matches.
unfoldable pub first_row : Bytes → List (Bytes × Sentinel) → Option Sentinel
first_row lower [] = none
first_row lower (row ∷ rows) =
    let rest = first_row lower rows in if contains_text row.0 lower then some row.1 else rest

pub record FailError : Type 0 where
  pub service : Bytes
  pub message : Bytes
  pub sentinel : Option Sentinel

abbrev pub or_else : Option Sentinel → Sentinel → Sentinel
or_else none d = d
or_else (some s) d = s

-- `to_lower` stands for strings.ToLower.
module _ (to_lower : Bytes → Bytes) where
  unfoldable pub map_fail_message : Bytes → Option Sentinel
  map_fail_message msg = first_row (to_lower msg) fail_table

  unfoldable pub new_host_fail_error : Bytes → Bytes → FailError
  new_host_fail_error service msg = record {
    service = service;
    message = msg;
    sentinel = some (or_else (map_fail_message msg) protocol);
  }

  unfoldable pub new_sync_fail_error : Bytes → Bytes → FailError
  new_sync_fail_error service msg = record {
    service = service;
    message = msg;
    sentinel = some (or_else (map_fail_message msg) sync_session_dead);
  }

  unfoldable pub unwrap : FailError → Sentinel
  unwrap e = or_else e.sentinel (or_else (map_fail_message e.message) protocol)

-- No row's text is in the message.
abbrev pub NoRow : Bytes → List (Bytes × Sentinel) → Type 0
NoRow lower rows = All (λ row. contains_text row.0 lower ≡ false) rows

-- The first row whose text is in the message, and its sentinel.
abbrev pub FirstRow : Bytes → List (Bytes × Sentinel) → Sentinel → Type 0
FirstRow lower [] s = ⊥
FirstRow lower (row ∷ rows) s =
    ((contains_text row.0 lower ≡ true) × (s ≡ row.1))
    ⊎ ((contains_text row.0 lower ≡ false) × FirstRow lower rows s)

first_row-NoRow :
    (lower : Bytes) (rows : List (Bytes × Sentinel))
    → first_row lower rows ≡ none
    → NoRow lower rows
unfolding first_row
first_row-NoRow lower [] h = tt
first_row-NoRow lower (row ∷ rows) h = elim (Bool-cases (contains_text row.0 lower)) [
  | inl e ↦ absurd (ground arith)
  | inr e ↦ (e, first_row-NoRow lower rows (ground arith))
]

first_row-FirstRow :
    (lower : Bytes) (rows : List (Bytes × Sentinel)) (s : Sentinel)
    → first_row lower rows ≡ some s
    → FirstRow lower rows s
unfolding first_row
first_row-FirstRow lower [] s h = absurd (cc)
first_row-FirstRow lower (row ∷ rows) s h = elim (Bool-cases (contains_text row.0 lower)) [
  | inl e ↦ inl (e, let g : some row.1 ≡ some s = rw e at h in cc)
  | inr e ↦ inr (e, first_row-FirstRow lower rows s (rw e at h))
]

-- What a host exchange, a sync command and an error without a sentinel make of a message.
abbrev pub Told : (Bytes → Bytes) → Bytes → Bytes → Sentinel → Sentinel → Sentinel → Type 0
Told to_lower service msg host sync bare =
    (unwrap to_lower (new_host_fail_error to_lower service msg) ≡ host)
    × (unwrap to_lower (new_sync_fail_error to_lower service msg) ≡ sync)
    × (unwrap to_lower (record { service = service; message = msg; sentinel = none }) ≡ bare)

-- If a row of the table has its text in the message, a FAIL is the sentinel of the first such row, whether it
-- came in a host exchange, in a sync command, or in an error that was built without a sentinel. If none has,
-- it is a protocol error, except in a sync command, where it is the end of the session.
pub unwrap_lem :
    (to_lower : Bytes → Bytes) (service msg : Bytes)
    → ((s : Sentinel) × FirstRow (to_lower msg) fail_table s × Told to_lower service msg s s s)
      ⊎ (NoRow (to_lower msg) fail_table
          × Told to_lower service msg protocol sync_session_dead protocol)
unfolding unwrap new_host_fail_error new_sync_fail_error
unwrap_lem to_lower service msg = found (map_fail_message to_lower msg) refl
  where
    found :
        (m : Option Sentinel)
        → map_fail_message to_lower msg ≡ m
        → ((s : Sentinel) × FirstRow (to_lower msg) fail_table s × Told to_lower service msg s s s)
          ⊎ (NoRow (to_lower msg) fail_table
              × Told to_lower service msg protocol sync_session_dead protocol)
    found none e = inr (
      first_row-NoRow (to_lower msg) fail_table (unfold map_fail_message in e),
      (rw e, rw e, rw e),
    )
    found (some s) e = inl (
      s,
      first_row-FirstRow (to_lower msg) fail_table s (unfold map_fail_message in e),
      (rw e, rw e, rw e),
    )
