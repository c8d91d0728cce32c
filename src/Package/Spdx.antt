-- ===== src/Package/Spdx.antt =====
-- The table of licenses and the search in it: lib/src/core/static/SPDX.cc. The table, which
-- SPDX-Identifiers.cc lists, is an argument: lower-case identifiers with their usual spelling.
pub mod Closest
pub mod Scripts
pub mod Memo
use no.Prelude.{
  ℕ, suc, ◌+◌, ◌-◌, ◌^◌, Bool, true, false, ◌&&◌, none, some, List, [], ◌∷◌, Bytes, length, ltb,
  leb, ◌==◌, if◌then◌else◌, min, map, Checked, value, assert_failed,
}
use no.Prelude.Dict.{bytes_key, lookup}

abbrev pub Table : Type 0
Table = List (Bytes × Bytes)

-- `::tolower` in the C locale.
abbrev pub tolower : ℕ → ℕ
tolower c = if leb b'A' c && leb c b'Z' then c + 32 else c

unfoldable pub is_exact_spdx_license_match : Table → Bytes → Bool
is_exact_spdx_license_match spdx_identifiers query =
    elim (lookup (map tolower query) spdx_identifiers) [ none ↦ false | some _ ↦ true ]

-- `dp(i, j)` of `Levenstein`, on what is left of the two texts; the memo table gives the same
-- numbers.
unfoldable pub levenstein : Bytes → Bytes → ℕ
levenstein [] b = length b
levenstein (x ∷ a) [] = suc (length a)
levenstein (x ∷ a) (y ∷ b) =
    let both = levenstein a b in
    let insertion = levenstein (x ∷ a) b in
    let deletion = levenstein a (y ∷ b) in
    if x == y then both else suc (min insertion (min deletion both))

-- The loop of `FindClosestSPDXLicense`: the least distance so far, and its license.
unfoldable pub find_closest : ℕ → Bytes → Bytes → Table → Bytes
find_closest minv mini query [] = mini
find_closest minv mini query ((lowercase_spdx, case_sensitive_spdx) ∷ table) =
    let dist = levenstein lowercase_spdx query in
    if ltb dist minv
    then find_closest dist case_sensitive_spdx query table
    else find_closest minv mini query table

unfoldable pub find_closest_spdx_license : Table → Bytes → Checked Bytes
find_closest_spdx_license [] query = assert_failed
find_closest_spdx_license (entry ∷ table) query =
    value (find_closest (2 ^ 64 - 1) [] (map tolower query) (entry ∷ table))
