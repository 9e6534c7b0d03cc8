-- ===== src/DevicePath.antt =====
-- business/types/devicepath/path.go: the accepted spelling of a device path, the compiled allowlist,
-- and the constructors of `AuthorizedPath`. An error wraps `ErrPathDenied`; `Denial` keeps which rule
-- fired. The allowlist in force is a list of roots that `parse_authorized_path` is given and that
-- `narrow` replaces; the atomic pointer and the mutex make each of the two one step.
pub mod Volume
pub mod Segments
pub mod Form
pub mod Parse
pub mod Descent
pub mod NarrowLoop
pub mod Narrowing
pub mod Sorting
use adb_broker.Prelude.{
  ℕ, suc, Bool, true, false, ◌&&◌, ◌||◌, not, List, [], ◌∷◌, ◌++◌, some, none, Bytes, codes,
  bytes_eq, bytes_lt, contains_byte, has_prefix, length, take, drop, get_elem?, ltb, ◌==◌,
  if◌then◌else◌, Result, ok, err, ◌>>=◌,
}

pub data Denial : Type 0 where
  empty_path nul_byte not_absolute not_under_volume empty_segment : Denial
  traversal_segment : Bytes → Denial
  outside_allowlist narrow_nothing : Denial
  narrow_entry : Bytes → Denial → Denial
  zero_parent empty_name name_separator name_nul name_traversal : Denial

abbrev pub slash : ℕ
slash = b'/'

abbrev pub dot : Bytes
dot = codes "."

abbrev pub dot_dot : Bytes
dot_dot = codes ".."

abbrev pub volume_root : Bytes
volume_root = codes "/sdcard"

abbrev pub compiled_allowlist : List Bytes
compiled_allowlist =
    codes "/sdcard/DCIM"
    ∷ codes "/sdcard/Download"
    ∷ codes "/sdcard/Movies"
    ∷ codes "/sdcard/Music"
    ∷ codes "/sdcard/Pictures"
    ∷ codes "/sdcard/Recordings"
    ∷ []

-- Puts a byte in front of the first part.
abbrev pub push : ℕ → List Bytes → List Bytes
push c [] = (c ∷ []) ∷ []
push c (p ∷ ps) = (c ∷ p) ∷ ps

-- `strings.SplitSeq(s, "/")`.
pub split : Bytes → List Bytes
split [] = [] ∷ []
split (c ∷ s) = let rest = split s in if c == slash then [] ∷ rest else push c rest

-- `strings.TrimPrefix(s, "/")`.
abbrev pub trim_slash : Bytes → Bytes
trim_slash s = if has_prefix (slash ∷ []) s then drop 1 s else s

-- The loop of `checkForm` over the segments.
pub check_segments : List Bytes → Result Denial (Unit {0})
check_segments [] = ok tt
check_segments (seg ∷ segs) =
    let rest = check_segments segs in
    if bytes_eq seg []
    then err empty_segment
    else if bytes_eq seg dot || bytes_eq seg dot_dot
    then err (traversal_segment seg)
    else rest

unfoldable pub check_form : Bytes → Result Denial (Unit {0})
unfolding split check_segments
check_form s =
    if bytes_eq s []
    then err empty_path
    else if contains_byte 0 s
    then err nul_byte
    else if not (has_prefix (codes "/") s)
    then err not_absolute
    else if not (has_prefix (volume_root ++ codes "/") s)
    then err not_under_volume
    else check_segments (split (trim_slash s))

-- `s[i] == b`, for an index that the caller has checked; Go would panic at another.
abbrev pub byte_at : Bytes → ℕ → ℕ → Bool
byte_at s i b = elim (get_elem? s i) [ some c ↦ c == b | none ↦ false ]

unfoldable pub within : Bytes → Bytes → Bool
within s root =
    if bytes_eq s root
    then true
    else ltb (length root) (length s)
      && byte_at s (length root) slash
      && bytes_eq (take (length root) s) root

unfoldable pub within_any : Bytes → List Bytes → Bool
unfolding within
within_any s [] = false
within_any s (root ∷ roots) = let rest = within_any s roots in if within s root then true else rest

-- The zero value has the empty path.
pub record AuthorizedPath : Type 0 where
  pub path : Bytes

abbrev pub zero_path : AuthorizedPath
zero_path = record { path = [] }

abbrev pub is_zero : AuthorizedPath → Bool
is_zero a = bytes_eq a.path []

unfoldable pub parse_authorized_path : List Bytes → Bytes → Result Denial AuthorizedPath
unfolding check_form within_any
parse_authorized_path roots s = do
  _ ← check_form s
  if not (within_any s roots) then err outside_allowlist else ok (record { path = s })

unfoldable pub child : List Bytes → AuthorizedPath → Bytes → Result Denial AuthorizedPath
child roots a name =
    if is_zero a
    then err zero_parent
    else if bytes_eq name []
    then err empty_name
    else if contains_byte slash name
    then err name_separator
    else if contains_byte 0 name
    then err name_nul
    else if bytes_eq name dot || bytes_eq name dot_dot
    then err name_traversal
    else parse_authorized_path roots (a.path ++ (codes "/" ++ name))

-- `slices.Contains(narrowed, s)`.
pub contains : List Bytes → Bytes → Bool
contains [] s = false
contains (x ∷ xs) s = bytes_eq x s || contains xs s

-- `slices.Sort` of strings: the ascending order, which is unique.
pub insert_sorted : Bytes → List Bytes → List Bytes
insert_sorted x [] = x ∷ []
insert_sorted x (y ∷ ys) =
    let rest = insert_sorted x ys in if bytes_lt y x then y ∷ rest else x ∷ (y ∷ ys)

pub sort : List Bytes → List Bytes
unfolding insert_sorted
sort [] = []
sort (x ∷ xs) = insert_sorted x (sort xs)

-- The loop of `Narrow`: the entries left, and those taken so far.
pub narrow_loop : List Bytes → List Bytes → List Bytes → Result Denial (List Bytes)
narrow_loop current [] narrowed = ok narrowed
narrow_loop current (s ∷ subset) narrowed =
    let rest =
      narrow_loop current subset (if contains narrowed s then narrowed else narrowed ++ (s ∷ [])) in
    elim (check_form s) [
      | err e ↦ err (narrow_entry s e)
      | ok _ ↦ if not (within_any s current) then err (narrow_entry s outside_allowlist) else rest
    ]

-- `Narrow` as a step on the allowlist in force: the new list and the error, if any.
unfoldable pub narrow : List Bytes → List Bytes → List Bytes × Result Denial (Unit {0})
unfolding narrow_loop contains sort within_any check_form
narrow active [] = (active, err narrow_nothing)
narrow active (s ∷ subset) = elim (narrow_loop active (s ∷ subset) []) [
  | err e ↦ (active, err e)
  | ok narrowed ↦ (sort narrowed, ok tt)
]
