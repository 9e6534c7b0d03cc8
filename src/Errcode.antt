-- ===== src/Errcode.antt =====
-- business/types/errcode/errcode.go: the closed set of codes that a failure is reported with.
use adb_broker.Prelude.{
  ◌≡◌, refl, sym, subst, ◌⊎◌, inl, inr, Bool, true, false, ◌||◌, Option, none, some, List, [], ◌∷◌,
  arith, if◌then◌else◌, Bool-cases, All, Any, All-Any, Bytes, codes, bytes_eq, eq_of_bytes_eq,
}

-- A code is its string.
abbrev pub Code : Type 0
Code = Bytes

abbrev pub code_internal : Code
code_internal = codes "internal"

-- The constants of the package, in the order of the switch of `ParseCode`.
abbrev pub known_codes : List Code
known_codes =
    codes "no_device"
    ∷ codes "unauthorized"
    ∷ codes "offline"
    ∷ codes "multiple_devices"
    ∷ codes "no_adb_server"
    ∷ codes "path_denied"
    ∷ codes "audit_unavailable"
    ∷ codes "volume_unresolved"
    ∷ codes "root_not_found"
    ∷ codes "not_a_directory"
    ∷ codes "not_a_regular_file"
    ∷ codes "permission_denied"
    ∷ codes "path_not_found"
    ∷ codes "transfer_failed"
    ∷ codes "device_disconnected"
    ∷ codes "unsupported"
    ∷ code_internal
    ∷ []

-- The cases of a switch on strings.
abbrev pub one_of : Bytes → List Bytes → Bool
one_of s [] = false
one_of s (c ∷ cs) = bytes_eq s c || one_of s cs

unfoldable pub parse_code : Bytes → Code
parse_code s = if one_of s known_codes then s else code_internal

-- The cases of `Fatal`.
abbrev pub fatal_codes : List Code
fatal_codes =
    codes "no_device"
    ∷ codes "unauthorized"
    ∷ codes "offline"
    ∷ codes "multiple_devices"
    ∷ codes "no_adb_server"
    ∷ codes "audit_unavailable"
    ∷ codes "device_disconnected"
    ∷ codes "unsupported"
    ∷ code_internal
    ∷ codes "volume_unresolved"
    ∷ []

unfoldable pub fatal : Code → Bool
fatal c = one_of c fatal_codes

-- An error as `From` sees it: none for nil, or what `errors.As` finds of a code in it.
unfoldable pub from : Option (Option Code) → Code
from none = []
from (some none) = code_internal
from (some (some c)) = c

-- What ends one source or one file, and no more than that.
abbrev pub local_codes : List Code
local_codes =
    codes "path_denied"
    ∷ codes "root_not_found"
    ∷ codes "not_a_directory"
    ∷ codes "not_a_regular_file"
    ∷ codes "permission_denied"
    ∷ codes "path_not_found"
    ∷ codes "transfer_failed"
    ∷ []

abbrev IsLocal : Code → Type 0
IsLocal c = Any (λ d. c ≡ d) local_codes

one_of-Any : (s : Bytes) (cs : List Bytes) → one_of s cs ≡ true → Any (λ c. s ≡ c) cs
one_of-Any s [] h = absurd (cc)
one_of-Any s (c ∷ cs) h = elim (Bool-cases (bytes_eq s c)) [
  | inl e ↦ inl (eq_of_bytes_eq s c e)
  | inr e ↦ inr (one_of-Any s cs (ground arith))
]

All-member :
    (P : Bytes → Type 0) (cs : List Bytes) (s : Bytes) → All P cs → Any (λ c. s ≡ c) cs → P s
All-member P cs s h k = All-Any cs (λ c p e. subst P (sym e) p) h k

abbrev IsSorted : Code → Type 0
IsSorted c = (fatal c ≡ true) ⊎ IsLocal c

known_codes-IsSorted : All IsSorted known_codes
unfolding fatal
known_codes-IsSorted = (
  inl refl,
  (
    inl refl,
    (
      inl refl,
      (
        inl refl,
        (
          inl refl,
          (
            inr (inl refl),
            (
              inl refl,
              (
                inl refl,
                (
                  inr (inr (inl refl)),
                  (
                    inr (inr (inr (inl refl))),
                    (
                      inr (inr (inr (inr (inl refl)))),
                      (
                        inr (inr (inr (inr (inr (inl refl))))),
                        (
                          inr (inr (inr (inr (inr (inr (inl refl)))))),
                          (
                            inr (inr (inr (inr (inr (inr (inr (inl refl))))))),
                            (inl refl, (inl refl, (inl refl, tt))),
                          ),
                        ),
                      ),
                    ),
                  ),
                ),
              ),
            ),
          ),
        ),
      ),
    ),
  ),
)

-- Whatever string a failure is reported with, it is taken for a fatal one, or it is spelled exactly as one
-- of the seven codes that end a source or a file, and stands for itself. Parsing twice changes nothing.
pub parse_code_lem :
    (s : Bytes)
    → ((fatal (parse_code s) ≡ true) ⊎ ((parse_code s ≡ s) × Any (λ d. s ≡ d) local_codes))
      × (parse_code (parse_code s) ≡ parse_code s)
unfolding parse_code
parse_code_lem s = elim (Bool-cases (one_of s known_codes)) [
  | inl e ↦ rw e (
    known s (All-member IsSorted known_codes s known_codes-IsSorted (one_of-Any s known_codes e)),
    rw e,
  )
  | inr e ↦ rw e (inl (unfold fatal in refl), refl)
]
  where
    known : (c : Bytes) → IsSorted c → (fatal c ≡ true) ⊎ ((c ≡ c) × IsLocal c)
    known c (inl f) = inl f
    known c (inr k) = inr (refl, k)

pub code_string : Code → Bytes
code_string c = c
