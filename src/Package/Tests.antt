-- ===== src/Package/Tests.antt =====
-- Manifests, and their theorems at concrete versions and profiles.
use no.Prelude.{
  Bytes, ℕ, value, map, List, ◌∷◌, [], ◌≡◌, ◌≢◌, refl, codes, none, true, false, arith, ◌≤◌, ◌+◌,
  ◌⊎◌, length,
}
use no.Prelude.Decimal.{leading_digits}
use no.Package.Regex.{regex_match}
use no.Package.Spdx.{Table, levenstein, find_closest_spdx_license, tolower}
use no.Package.Spdx.Scripts.{Script, levenstein-Script, levenstein-length}
use no.Package.Spdx.Memo.{memo_levenstein, memo_levenstein-levenstein}
use no.Package.Spdx.Closest.{At, NoneNearer, find_closest_spdx_license-At}
use no.Package.Manifest.{
  Switch, new_switch, new_optimization, get_rapid, get_debug, get_release, rapid_key,
}
use no.Package.Profiles.{
  Change, profile_cleared, profile_set, all_cleared, changes, required_profiles_stay,
}
use no.Package.Validate.{is_valid_name, semver_regex}
use no.Package.Convert.{after, stoul, read_semantic_version}

abbrev some_changes : List Change
some_changes = profile_cleared rapid_key ∷ profile_set (codes "x") new_switch ∷ all_cleared ∷ []

required_profiles_stay_example :
    (get_rapid (changes some_changes new_optimization) ≢ none)
    × (get_debug (changes some_changes new_optimization) ≢ none)
    × (get_release (changes some_changes new_optimization) ≢ none)
required_profiles_stay_example = required_profiles_stay some_changes

abbrev fast : Switch
fast = record new_switch { llvm = codes "O3" ∷ [] }

-- A provider prefix is needed outside the standard library.
name_taken : is_valid_name (codes "@gh-user/package") ≡ true
unfolding is_valid_name regex_match
name_taken = refl

name_without_provider : is_valid_name (codes "@user/package") ≡ false
unfolding is_valid_name regex_match
name_without_provider = refl

name_of_standard_library : is_valid_name (codes "@std/core:2") ≡ true
unfolding is_valid_name regex_match
name_of_standard_library = refl

-- The form lets a number through that does not fit 64 bits, and the conversion then throws.
huge_version : regex_match (codes "99999999999999999999.0") semver_regex ≡ true
unfolding regex_match
huge_version = refl

huge_version_thrown : read_semantic_version (codes "99999999999999999999.0") ≡ none
unfolding read_semantic_version after stoul leading_digits
huge_version_thrown = refl

distance : levenstein (codes "mit") (codes "mti") ≡ 2
unfolding levenstein
distance = refl

abbrev some_licenses : Table
some_licenses = (codes "apache-2.0", codes "Apache-2.0") ∷ []

find_closest_spdx_license-At_example :
    (license : Bytes) × (least : ℕ) × (find_closest_spdx_license
        ((codes "mit", codes "MIT") ∷ some_licenses)
        (codes "MTI")
      ≡ value license)
    × At license least (map tolower (codes "MTI")) ((codes "mit", codes "MIT") ∷ some_licenses)
    × NoneNearer least (map tolower (codes "MTI")) ((codes "mit", codes "MIT") ∷ some_licenses)
find_closest_spdx_license-At_example =
    find_closest_spdx_license-At (codes "mit", codes "MIT") some_licenses (codes "MTI")
      (ground arith)

memo_levenstein-levenstein_example :
    memo_levenstein (codes "mit") (codes "mti") ≡ levenstein (codes "mit") (codes "mti")
memo_levenstein-levenstein_example = memo_levenstein-levenstein (codes "mit") (codes "mti")

levenstein-Script_example :
    Script (codes "mit") (codes "bsd") (levenstein (codes "mit") (codes "bsd"))
    × ((n : ℕ) → Script (codes "mit") (codes "bsd") n → levenstein (codes "mit") (codes "bsd") ≤ n)
levenstein-Script_example = levenstein-Script (codes "mit") (codes "bsd")

levenstein-length_example :
    (length (codes "mit") ≤ length (codes "bs") + levenstein (codes "mit") (codes "bs"))
    × (length (codes "bs") ≤ length (codes "mit") + levenstein (codes "mit") (codes "bs"))
    × ((levenstein (codes "mit") (codes "bs") ≤ length (codes "mit"))
        ⊎ (levenstein (codes "mit") (codes "bs") ≤ length (codes "bs")))
levenstein-length_example = levenstein-length (codes "mit") (codes "bs")
