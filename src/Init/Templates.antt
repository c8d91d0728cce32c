-- ===== src/Init/Templates.antt =====
-- The texts of a new package that depend on its options: the functions `Generate…` of
-- lib/src/init/InitialData.cc.
use no.Prelude.{
  ℕ, zero, suc, ◌+◌, ◌-◌, ◌/◌, ◌%◌, Bool, true, false, ◌&&◌, ◌||◌, Option, none, some, [], ◌∷◌,
  ◌++◌, Bytes, codes, map, length, drop, leb, ltb, ◌==◌, if◌then◌else◌, is_digit,
}
use no.Package.Manifest.{Category, library, standard_library, executable}
use no.Package.Validate.{before}
use no.Package.Convert.{after}
use no.Init.{InitOptions}
use no.Init.Texts.Templates.{
  security_start, security_advisory, security_end, readme_start, install_dependency,
  install_program, with_toolchain, write_instructions, readme_end, contributing, cmake_lists,
}

abbrev pub starts_with : Bytes → Bytes → Bool
starts_with [] text = true
starts_with (c ∷ prefix) [] = false
starts_with (c ∷ prefix) (d ∷ text) = c == d && starts_with prefix text

-- `std::regex_replace` by a text without `$`, of a pattern that stands for itself; the number counts
-- the bytes of a match that are still to be left out.
unfoldable pub replace_from : ℕ → Bytes → Bytes → Bytes → Bytes
replace_from skipped pattern by [] = []
replace_from (suc skipped) pattern by (c ∷ text) = replace_from skipped pattern by text
replace_from zero pattern by (c ∷ text) =
    let behind = replace_from (length pattern - 1) pattern by text in
    let further = replace_from zero pattern by text in
    if starts_with pattern (c ∷ text) then by ++ behind else c ∷ further

abbrev pub fill : Bytes → Bytes → Bytes → Bytes
fill placeholder by content = replace_from 0 (codes "{{" ++ (placeholder ++ codes "}}")) by content

unfoldable pub get_github_username : Bytes → Option Bytes
get_github_username name =
    if starts_with (codes "@gh-") name then some (before b'/' (drop 4 name)) else none

abbrev pub toupper : ℕ → ℕ
toupper c = if leb b'a' c && leb c b'z' then c - 32 else c

-- The loop over the name, behind a blank or not; the start counts as one.
abbrev pub capitalize : Bool → Bytes → Bytes
capitalize behind_blank [] = []
capitalize behind_blank (c ∷ name) =
    (if behind_blank then toupper c else c) ∷ capitalize (c == b' ') name

unfoldable pub beautify_name : Bytes → Bytes
beautify_name name = capitalize true (map (λ c. if c == b'-' then b' ' else c) name)

-- `find` gives `npos` where there is no slash, and one behind it is zero.
unfoldable pub get_package_name : Bytes → Bytes
get_package_name name = elim (after b'/' name) [ none ↦ name | some just_name ↦ just_name ]

abbrev pub is_alnum : ℕ → Bool
is_alnum c = is_digit c || ((leb b'A' c && leb c b'Z') || (leb b'a' c && leb c b'z'))

abbrev pub is_unreserved : ℕ → Bool
is_unreserved c = is_alnum c || (c == b'-' || (c == b'_' || (c == b'.' || c == b'~')))

abbrev pub hex_digit : ℕ → ℕ
hex_digit n = if ltb n 10 then b'0' + n else b'a' + (n - 10)

-- A `char` from 128 on is a negative number.
unfoldable pub url_encode : Bytes → Bytes
url_encode [] = []
url_encode (c ∷ text) =
    (if is_unreserved c
      then c ∷ []
      else b'%'
        ∷ ((if ltb c 128 then [] else codes "ffffff")
            ++ (hex_digit (c / 16) ∷ hex_digit (c % 16) ∷ [])))
    ++ url_encode text

unfoldable pub shields_io_escape_content : Bytes → Bytes
shields_io_escape_content text = url_encode (replace_from 0 (codes "-") (codes "--") text)

-- What the code gives for an optional part.
abbrev where_some : Option Bytes → (Bytes → Bytes) → Bytes → Bytes
where_some none f otherwise = otherwise
where_some (some a) f otherwise = f a

unfoldable pub generate_security_policy : Bytes → Bytes
generate_security_policy package_name =
    let name = get_package_name package_name in
    let content : Bytes =
      where_some (get_github_username package_name)
        (λ github_username.
          fill (codes "gh_username") github_username (security_start ++ security_advisory))
        security_start in
    fill (codes "project_name") name
      (fill (codes "project_name_nice") (beautify_name name) (content ++ security_end))

abbrev pub kind_text : Category → Bytes
kind_text library = codes "library"
kind_text standard_library = codes "stdlib"
kind_text executable = codes "exe"

abbrev installation : Category → Bytes
installation executable = install_program
installation _ = install_dependency

abbrev manual_installation : Category → Bytes
manual_installation standard_library = with_toolchain
manual_installation _ = write_instructions

unfoldable pub generate_readme : InitOptions → Bytes
generate_readme options =
    let name = get_package_name options.package_name in
    let content : Bytes =
      where_some (get_github_username options.package_name)
        (λ gh_username.
          fill (codes "gh_username") gh_username
            (readme_start ++ installation options.package_category))
        (readme_start ++ manual_installation options.package_category) in
    fill (codes "project_category") (kind_text options.package_category) (
      fill (codes "project_description") options.package_description (
        fill (codes "project_spdx_license") options.package_license (
          fill (codes "project_escaped_spdx_license")
            (shields_io_escape_content options.package_license)
            (fill (codes "project_name_nice") (beautify_name name)
              (fill (codes "project_name") name (content ++ readme_end))))))

unfoldable pub generate_contributing_policy : InitOptions → Bytes
generate_contributing_policy options =
    fill (codes "project_name_nice") (beautify_name (get_package_name options.package_name))
      contributing

unfoldable pub generate_cmake_lists_txt : Bytes → Bytes
generate_cmake_lists_txt package_name =
    fill (codes "project_name") (get_package_name package_name) cmake_lists

-- The text of the license is fetched; a license without one has an empty file.
abbrev pub generate_license : (Bytes → Option Bytes) → Bytes → Bytes
generate_license license_text spdx_license = elim (license_text spdx_license) [
  | none ↦ []
  | some text ↦ text
]
