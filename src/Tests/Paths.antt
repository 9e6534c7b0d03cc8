-- ===== src/Tests/Paths.antt =====
-- business/types/devicepath/path.go at concrete paths.
use adb_broker.Prelude.{
  ◌≡◌, refl, ◌≢◌, ◌↔◌, ◌⊎◌, true, List, [], ◌∷◌, ◌++◌, arith, All, Any, Bytes, codes, ok, err,
}
use adb_broker.DevicePath.{
  AuthorizedPath, nul_byte, not_absolute, not_under_volume, empty_segment, traversal_segment,
  outside_allowlist, narrow_entry, name_traversal, split, compiled_allowlist, within,
  parse_authorized_path, child, narrow,
}
use adb_broker.DevicePath.Segments.{Below, within_iff}
use adb_broker.DevicePath.Form.{IsWellFormed}
use adb_broker.DevicePath.Parse.{IsAuthorized, parse_authorized_path_iff}
use adb_broker.DevicePath.Descent.{child_sound, child_complete}
use adb_broker.DevicePath.Narrowing.{narrow_effect, narrow_iff, after_calls, after_calls_monotone}
use adb_broker.DevicePath.Sorting.{IsAscending}

abbrev camera : Bytes
camera = codes "/sdcard/DCIM/Camera"

abbrev camera_path : AuthorizedPath
camera_path = record { path = camera }

parse_camera : parse_authorized_path compiled_allowlist camera ≡ ok camera_path
unfolding parse_authorized_path
parse_camera = refl

parse_private :
    parse_authorized_path compiled_allowlist (codes "/sdcard/Download-private/a.jpg")
    ≡ err outside_allowlist
unfolding parse_authorized_path
parse_private = refl

parse_up :
    parse_authorized_path compiled_allowlist (codes "/sdcard/DCIM/..")
    ≡ err (traversal_segment (codes ".."))
unfolding parse_authorized_path
parse_up = refl

parse_trailing :
    parse_authorized_path compiled_allowlist (codes "/sdcard/DCIM/") ≡ err empty_segment
unfolding parse_authorized_path
parse_trailing = refl

parse_relative : parse_authorized_path compiled_allowlist (codes "sdcard/DCIM") ≡ err not_absolute
unfolding parse_authorized_path
parse_relative = refl

parse_volume : parse_authorized_path compiled_allowlist (codes "/sdcard") ≡ err not_under_volume
unfolding parse_authorized_path
parse_volume = refl

parse_nul :
    parse_authorized_path compiled_allowlist (codes "/sdcard/DCIM" ++ 0 ∷ codes "x") ≡ err nul_byte
unfolding parse_authorized_path
parse_nul = refl

child_photo :
    child compiled_allowlist camera_path (codes "a.jpg")
    ≡ ok (record { path = codes "/sdcard/DCIM/Camera/a.jpg" })
unfolding child parse_authorized_path
child_photo = refl

child_up : child compiled_allowlist camera_path (codes "..") ≡ err name_traversal
unfolding child
child_up = refl

narrow_two :
    narrow compiled_allowlist (codes "/sdcard/Music" ∷ camera ∷ camera ∷ [])
    ≡ (camera ∷ codes "/sdcard/Music" ∷ [], ok tt)
unfolding narrow
narrow_two = refl

narrow_parent :
    narrow compiled_allowlist (camera ∷ codes "/sdcard" ∷ [])
    ≡ (compiled_allowlist, err (narrow_entry (codes "/sdcard") not_under_volume))
unfolding narrow
narrow_parent = refl

within_iff_example :
    (within camera (codes "/sdcard/DCIM") ≡ true) ↔ Below camera (codes "/sdcard/DCIM")
within_iff_example = within_iff camera (codes "/sdcard/DCIM")

parse_authorized_path_iff_example :
    (parse_authorized_path compiled_allowlist camera ≡ ok camera_path)
    ↔ ((camera ≡ camera) × IsWellFormed camera × Any (Below camera) compiled_allowlist)
parse_authorized_path_iff_example = parse_authorized_path_iff compiled_allowlist camera camera_path

child_sound_example :
    IsAuthorized compiled_allowlist (codes "/sdcard/DCIM/Camera/a.jpg")
    × (split (codes "/sdcard/DCIM/Camera/a.jpg") ≡ split camera ++ (codes "a.jpg" ∷ []))
    × (parse_authorized_path compiled_allowlist (codes "/sdcard/DCIM/Camera/a.jpg")
        ≡ ok (record { path = codes "/sdcard/DCIM/Camera/a.jpg" }))
child_sound_example =
    child_sound compiled_allowlist camera_path (codes "a.jpg")
      (record { path = codes "/sdcard/DCIM/Camera/a.jpg" }) child_photo

camera-IsAuthorized : IsAuthorized compiled_allowlist camera
camera-IsAuthorized =
    let (_, w, r) =
      (parse_authorized_path_iff compiled_allowlist camera camera_path).0 parse_camera in
    (w, r)

child_complete_example :
    child compiled_allowlist camera_path (codes "b.jpg")
    ≡ ok (record { path = codes "/sdcard/DCIM/Camera/b.jpg" })
child_complete_example =
    child_complete compiled_allowlist camera_path (codes "b.jpg") camera-IsAuthorized
      (omega arith, omega arith, (λ e. cc, λ e. cc, λ e. cc))

narrow_effect_example :
    (IsAuthorized (camera ∷ codes "/sdcard/Music" ∷ []) camera
      ↔ (IsWellFormed camera × Any (Below camera) (codes "/sdcard/Music" ∷ camera ∷ camera ∷ [])))
    × IsAscending (camera ∷ codes "/sdcard/Music" ∷ [])
narrow_effect_example =
    narrow_effect compiled_allowlist (codes "/sdcard/Music" ∷ camera ∷ camera ∷ [])
      (camera ∷ codes "/sdcard/Music" ∷ []) camera narrow_two

narrow_iff_example :
    (((narrow compiled_allowlist (camera ∷ codes "/sdcard" ∷ [])).1 ≡ ok tt) ↔ (
      ((camera ∷ codes "/sdcard" ∷ []) ≢ [])
      × All (IsAuthorized compiled_allowlist) (camera ∷ codes "/sdcard" ∷ [])))
    × (((narrow compiled_allowlist (camera ∷ codes "/sdcard" ∷ [])).1 ≡ ok tt)
        ⊎ ((narrow compiled_allowlist (camera ∷ codes "/sdcard" ∷ [])).0 ≡ compiled_allowlist))
narrow_iff_example = narrow_iff compiled_allowlist (camera ∷ codes "/sdcard" ∷ [])

abbrev two_calls : List (List Bytes)
two_calls = (codes "/sdcard/Music" ∷ camera ∷ camera ∷ []) ∷ (codes "/data" ∷ []) ∷ []

parse_after :
    parse_authorized_path (after_calls compiled_allowlist two_calls) camera ≡ ok camera_path
unfolding parse_authorized_path after_calls narrow
parse_after = refl

after_calls_monotone_example : parse_authorized_path compiled_allowlist camera ≡ ok camera_path
after_calls_monotone_example =
    after_calls_monotone compiled_allowlist two_calls camera camera_path parse_after
