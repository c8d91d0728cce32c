-- ===== src/Init/Command.antt =====
-- The command `init`: lib/src/init/Run.cc over an abstract file system. What the option parser
-- makes of the arguments is an argument.
pub mod Fresh
pub mod Kept
use no.Prelude.{
  ℕ, zero, suc, ◌+◌, Bool, true, false, Option, none, some, ◌++◌, ◌∷◌, Bytes, codes, ltb, ◌==◌,
  if◌then◌else◌, decimal, Checked, value, assert_failed,
}
use no.Json.{Json}
use no.FileSystem.{FileSystem, join}
use no.Package.Spdx.{Table, find_closest_spdx_license}
use no.Package.Manifest.{Category, standard_library, library, executable, Version}
use no.Package.Validate.{is_valid_name, is_valid_license}
use no.Init.{InitOptions}
use no.Init.Templates.{get_package_name}
use no.Init.Package.{create_package, or_false}

-- The map of the options: which flags are given, and the values, two of them with a default.
pub record Arguments : Type 0 where
  pub help : Bool
  pub lib : Bool
  pub standard_lib : Bool
  pub exe : Bool
  pub package_name : Option Bytes
  pub license : Bytes
  pub output : Bytes

-- `vm.count(key)` of a flag.
abbrev pub count : Bool → ℕ
count false = 0
count true = 1

unfoldable pub package_category : Arguments → Category
package_category vm =
    if vm.lib
    then library
    else if vm.standard_lib
    then standard_library
    else if vm.exe
    then executable
    else executable

abbrev pub no_description : Bytes
no_description = codes "No description was provided by the package creator."

unfoldable pub init_options : Arguments → Bytes → Bytes → InitOptions
init_options vm package_name license = record {
  package_name = package_name;
  package_description = no_description;
  package_license = license;
  package_version = record { major = 0; minor = 1; patch = 0 };
  package_category = package_category vm;
}

-- The folder that an attempt tries.
unfoldable pub folder_name : Bytes → ℕ → Bytes
folder_name just_name attempts =
    if attempts == 0 then just_name else just_name ++ (b'-' ∷ decimal attempts)

abbrev pub value_or : Option Bytes → Bytes → Bytes
value_or none path = path
value_or (some a) path = a

module _ {S V : Type 0} (fs : FileSystem S) (json : Json V) where
  open fs use {exists, absolute_normal, remove_all}

  -- The loop, which gives up by itself before the fuel is used up.
  unfoldable pub try_paths : ℕ → Bytes → Bytes → ℕ → S → Option Bytes
  try_paths zero directory just_name attempts s = none
  try_paths (suc fuel) directory just_name attempts s =
      let canidate = join directory (folder_name just_name attempts) in
      let rest = try_paths fuel directory just_name (suc attempts) s in
      if ltb 65535 attempts then none else elim (exists canidate s) [
        | none ↦ none
        | some status ↦
            if status then rest else some (value_or (absolute_normal canidate s) canidate)
      ]

  unfoldable pub get_new_package_path : Bytes → Bytes → S → Option Bytes
  get_new_package_path directory name s = try_paths 65537 directory (get_package_name name) 0 s

  module _ (spdx_identifiers : Table) (license_text : Bytes → Option Bytes) where
    -- The package at a path, which is removed where it could not be created.
    unfoldable pub create_or_remove : Bytes → InitOptions → S → Checked (Bool × S)
    create_or_remove package_path options s =
        let created = create_package fs json spdx_identifiers license_text package_path options s in
        elim (created.0) [
          | assert_failed ↦ assert_failed
          | value true ↦ value (true, created.1)
          | value false ↦ value (false, (remove_all package_path created.1).1)
        ]

    -- The output directory, which is made where it is missing.
    unfoldable pub create_output : Bytes → S → Bool × S
    create_output package_output s = elim (exists package_output s) [
      | none ↦ (false, s)
      | some package_output_exists ↦ if package_output_exists then (true, s) else (
        or_false (fs.create_directories package_output s).0,
        (fs.create_directories package_output s).1,
      )
    ]

    -- The part behind the checks of the arguments; the closest license is in the usual letter case.
    unfoldable pub create_in : Arguments → Bytes → S → Checked (Bool × S)
    create_in vm package_name s =
        let output = create_output vm.output s in
        if output.0
        then elim (get_new_package_path vm.output package_name output.1) [
          | none ↦ value (false, output.1)
          | some package_path ↦ elim (find_closest_spdx_license spdx_identifiers vm.license) [
            | assert_failed ↦ assert_failed
            | value license ↦
                create_or_remove package_path (init_options vm package_name license) output.1
          ]
        ]
        else value (false, output.1)

    -- The rejection of a license names the closest one.
    unfoldable pub reject_license : Arguments → S → Checked (Bool × S)
    reject_license vm s = elim (find_closest_spdx_license spdx_identifiers vm.license) [
      | assert_failed ↦ assert_failed
      | value closest ↦ value (false, s)
    ]

    unfoldable pub command_init : Option Arguments → S → Checked (Bool × S)
    command_init none s = value (false, s)
    command_init (some vm) s = if vm.help then value (true, s) else elim (vm.package_name) [
      | none ↦ value (false, s)
      | some package_name ↦
          if ltb 1 (count vm.lib + (count vm.standard_lib + count vm.exe))
          then value (false, s)
          else if is_valid_license spdx_identifiers vm.license
          then (if is_valid_name package_name
              then create_in vm package_name s
              else value (false, s))
          else reject_license vm s
    ]
