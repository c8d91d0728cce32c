-- ===== src/Init/Tests.antt =====
-- The command `init`, and its theorems on a small disk.
use no.Prelude.{ℕ, false, Option, none, some, [], ◌∷◌, Bytes, codes, ◌≡◌, refl, subst, value}
use no.Prelude.Dict.{lookup, insert}
use no.Package.Regex.{regex_match}
use no.Prelude.Decimal.{decimal, decimal_digits}
use no.Package.Convert.{after}
use no.Json.Sample.{sample_json}
use no.FileSystem.{FileSystem, leads_upwards}
use no.FileSystem.Sample.{Disk, sample_disk, sample_disk-FileSystemLaws}
use no.Package.Spdx.{
  Table, is_exact_spdx_license_match, find_closest_spdx_license, find_closest, levenstein,
}
use no.Package.Validate.{is_valid_name, is_valid_license}
use no.Package.Manifest.{executable}
use no.Init.{InitOptions}
use no.Init.Templates.{
  beautify_name, get_package_name, shields_io_escape_content, get_github_username, url_encode,
  replace_from,
}
use no.Init.Package.{
  create_package, init_package_directory_structure, package_files, create_local_file,
  create_directories,
}
use no.Init.Package.Kept.{create_package-content}
use no.Init.Command.{
  init_options, package_category, create_in, create_output, create_or_remove, Arguments,
  command_init, try_paths, folder_name, get_new_package_path, no_description,
}
use no.Init.Command.Fresh.{Taken, Ends, get_new_package_path-Ends}
use no.Init.Command.Kept.{Lands, command_init-content}

abbrev licenses : Table
licenses = (codes "mit", codes "MIT") ∷ []

abbrev no_text : Bytes → Option Bytes
no_text name = none

-- A project is there already.
abbrev disk : Disk
disk = record {
  files = (codes "/w/tool/a", codes "x") ∷ [];
  directories = codes "/w" ∷ [];
  room = 20;
}

-- There is no room for the third file.
abbrev small_disk : Disk
small_disk = record disk { room = 2 }

abbrev arguments : Arguments
arguments = record {
  help = false;
  lib = false;
  standard_lib = false;
  exe = false;
  package_name = some (codes "@gh-user/tool");
  license = codes "mit";
  output = codes "/w";
}

abbrev options : InitOptions
options = record {
  package_name = codes "@gh-user/tool";
  package_description = no_description;
  package_license = codes "MIT";
  package_version = record { major = 0; minor = 1; patch = 0 };
  package_category = executable;
}

nice_name : beautify_name (codes "my-tool-2") ≡ codes "My Tool 2"
unfolding beautify_name
nice_name = refl

license_badge : shields_io_escape_content (codes "A-1+") ≡ codes "A--1%2b"
unfolding shields_io_escape_content url_encode replace_from
license_badge = refl

user : get_github_username (codes "@gh-user/tool") ≡ some (codes "user")
unfolding get_github_username
user = refl

second_folder :
    get_new_package_path sample_disk sample_json (codes "/w") (codes "@gh-user/tool") disk
    ≡ some (codes "/w/tool-1")
unfolding get_new_package_path try_paths folder_name get_package_name after decimal decimal_digits
second_folder = refl

abbrev cleared : Disk
cleared = record {
  files = (codes "/w/tool/a", codes "x") ∷ [];
  directories = codes "/w" ∷ [];
  room = 0;
}

no_room :
    command_init sample_disk sample_json licenses no_text (some arguments) small_disk
    ≡ value (false, cleared)
unfolding command_init create_in is_valid_license is_exact_spdx_license_match lookup is_valid_name
    regex_match find_closest_spdx_license find_closest levenstein create_output get_new_package_path
    try_paths folder_name get_package_name after decimal decimal_digits create_or_remove
    create_package init_package_directory_structure package_files create_local_file
    create_directories insert init_options package_category
no_room = refl

-- The output directory `/w/link/..` leads elsewhere, while its normal form leads to `/w`, where the
-- project that is there is removed.
abbrev linked_disk : FileSystem Disk
linked_disk = record sample_disk { absolute_normal = λ p s. some (codes "/w/tool") }

abbrev through_link : Arguments
through_link = record arguments { output = codes "/w/link/.." }

abbrev with_link : Disk
with_link = record disk { directories = codes "/w/link/." ∷ codes "/w" ∷ [] }

removed_project :
    command_init linked_disk sample_json licenses no_text (some through_link) with_link
    ≡ value (false, record with_link { files = [] })
unfolding command_init create_in is_valid_license is_exact_spdx_license_match lookup is_valid_name
    regex_match find_closest_spdx_license find_closest levenstein create_output get_new_package_path
    try_paths folder_name get_package_name after decimal decimal_digits create_or_remove
    create_package
removed_project = refl

get_new_package_path-Ends_example :
    (k : ℕ) × Taken sample_disk sample_json
      (codes "/w")
      (get_package_name (codes "@gh-user/tool"))
      disk
      0
      k
    × Ends sample_disk sample_json
        (codes "/w")
        (get_package_name (codes "@gh-user/tool"))
        disk
        k
        (get_new_package_path sample_disk sample_json (codes "/w") (codes "@gh-user/tool") disk)
get_new_package_path-Ends_example =
    get_new_package_path-Ends sample_disk sample_json (codes "/w") (codes "@gh-user/tool") disk

create_package-content_example :
    sample_disk.content
      (codes "/w/tool/a")
      (create_package sample_disk sample_json licenses no_text (codes "/w/new") options disk).1
    ≡ some (codes "x")
unfolding lookup
create_package-content_example =
    create_package-content sample_disk sample_disk-FileSystemLaws sample_json licenses no_text
      (codes "/w/new") options refl (codes "/w/tool/a") (codes "x") disk refl

-- The folder `tool` is taken, and `tool-1` is free.
abbrev LandsFor : Arguments → Bytes → Type 0
LandsFor vm package_name =
    Lands sample_disk sample_disk-FileSystemLaws sample_json licenses no_text vm package_name
      small_disk

lands_free : LandsFor arguments (codes "@gh-user/tool")
unfolding create_output get_new_package_path try_paths folder_name get_package_name after decimal
    decimal_digits
lands_free path found =
    let same : codes "/w/tool-1" ≡ path = (cc) in
    subst (λ p. (leads_upwards p ≡ false) × (sample_disk.exists p small_disk ≡ some false)) same
      (refl, refl)

lands :
    (vm : Arguments) (package_name : Bytes)
    → some arguments ≡ some vm
    → vm.package_name ≡ some package_name
    → LandsFor vm package_name
lands vm package_name given =
    let same : arguments ≡ vm = (cc) in
    subst (λ v. v.package_name ≡ some package_name → LandsFor v package_name) same
      (λ named. subst (λ name. LandsFor arguments name) (cc) lands_free)

command_init-content_example : sample_disk.content (codes "/w/tool/a") cleared ≡ some (codes "x")
unfolding lookup
command_init-content_example =
    command_init-content sample_disk sample_disk-FileSystemLaws sample_json licenses no_text
      (some arguments) (codes "/w/tool/a") (codes "x") small_disk {done = false} {s' = cleared}
      lands refl no_room
