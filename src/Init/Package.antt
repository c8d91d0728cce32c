-- ===== src/Init/Package.antt =====
-- The files of a new package: lib/src/init/InitPackage.cc over an abstract file system. A function
-- that may fail gives whether it succeeded, with the new state of the disk.
pub mod Kept
use no.Prelude.{
  Bool, true, false, ◌&&◌, Option, none, some, List, [], ◌∷◌, Bytes, codes, if◌then◌else◌, ◌>>=◌,
  Checked, value, assert_failed,
}
use no.Json.{Json}
use no.FileSystem.{FileSystem, join, parent_path}
use no.Package.Spdx.{Table}
use no.Package.Manifest.{
  Category, library, standard_library, executable, Switch, new_switch, Optimization,
  new_optimization, set_profile, Manifest, new_manifest, rapid_key, debug_key, release_key,
}
use no.Package.Manifest.Stages.{set_alpha, set_beta, set_gamma, set_llvm, set_lto, set_runtime}
use no.Package.Manifest.Setters.{set_description, set_license, set_version, set_optimization}
use no.Package.Convert.Print.{to_json}
use no.Init.{InitOptions}
use no.Init.Texts.{docker_ignore, git_ignore, git_keep, default_library_source, default_main_source}
use no.Init.Texts.Conduct.{code_of_conduct}
use no.Init.Templates.{
  generate_readme, generate_license, generate_contributing_policy, generate_security_policy,
  generate_cmake_lists_txt,
}

abbrev pub Action : Type 0 → Type 0
Action S = S → Bool × S

-- A row of `if (!action) return false;`.
abbrev pub in_order : {S : Type 0} → List (Action S) → Action S
in_order [] s = (true, s)
in_order (action ∷ actions) s =
    let rest = in_order actions (action s).1 in if (action s).0 then rest else (false, (action s).1)

-- `value_or(false)`
abbrev pub or_false : Option Bool → Bool
or_false none = false
or_false (some b) = b

abbrev pub flags : (alpha beta gamma llvm lto runtime : Bytes) → Switch
flags alpha beta gamma llvm lto runtime = set_runtime (runtime ∷ []) (
    set_lto (lto ∷ []) (
      set_llvm (llvm ∷ [])
        (set_gamma (gamma ∷ []) (set_beta (beta ∷ []) (set_alpha (alpha ∷ []) new_switch)))))

unfoldable pub initial_optimization : Optimization
initial_optimization =
    let o0 : Bytes = codes "-O0" in
    let o3 = codes "-O3" in
    set_profile release_key (flags o3 o3 o3 o3 o3 o3) (
      set_profile debug_key (flags (codes "-O2") (codes "-O2") (codes "-O2") o3 o0 (codes "-O1"))
        (set_profile rapid_key (flags o0 o0 o0 (codes "-O1") o0 o0) new_optimization))

unfoldable pub initial_manifest : InitOptions → Manifest
initial_manifest options = set_optimization initial_optimization (
    set_version options.package_version (
      set_license options.package_license (
        set_description options.package_description
          (new_manifest options.package_name options.package_category))))

module _ {S V : Type 0} (fs : FileSystem S) (json : Json V) where
  open fs use {exists}

  unfoldable pub create_directories : Bytes → Action S
  create_directories path s = elim (exists path s) [
    | none ↦ (false, s)
    | some dirs_exists ↦
        if dirs_exists
        then (true, s)
        else (or_false (fs.create_directories path s).0, (fs.create_directories path s).1)
  ]

  unfoldable pub create_local_file : Bytes → Bytes → Action S
  create_local_file path init s = elim (exists path s) [
    | none ↦ (false, s)
    | some file_exists ↦
        if file_exists
        then (false, s)
        else in_order (create_directories (parent_path path) ∷ fs.write_file path init ∷ []) s
  ]

  -- The text of `no3.json` and whether its schema is correct; none where `ToJson` throws.
  unfoldable pub initial_config : Table → InitOptions → Option (Bytes × Bool)
  initial_config spdx_identifiers options = do
    printed ← to_json ⦃json = json⦄ spdx_identifiers (initial_manifest options)
    text ← json.dump printed.0
    some (text, printed.1)

  -- `assert_failed` stands for an exception out of `ToJson`, which leaves every function up to the command.
  unfoldable pub create_config : Table → Bytes → InitOptions → S → Checked Bool × S
  create_config spdx_identifiers package_path options s =
      elim (initial_config spdx_identifiers options) [
        | none ↦ (assert_failed, s)
        | some (text, correct_schema) ↦
            let made = create_local_file (join package_path (codes "no3.json")) text s in
            if correct_schema then (value made.0, made.1) else (value false, s)
      ]

  abbrev pub source_file : Bytes → Category → Action S
  source_file package_path executable =
      create_local_file (join (join package_path (codes "src")) (codes "main.nit"))
        default_main_source
  source_file package_path library =
      create_local_file (join (join package_path (codes "src")) (codes "lib.nit"))
        default_library_source
  source_file package_path standard_library =
      create_local_file (join (join package_path (codes "src")) (codes "lib.nit"))
        default_library_source

  module _ (spdx_identifiers : Table) (license_text : Bytes → Option Bytes) where
    -- The steps of `InitPackageDirectoryStructure` before the last one, each behind an `if`.
    unfoldable pub package_files : Bytes → InitOptions → List (Action S)
    package_files package_path options =
        let file : Bytes → Bytes → Action S = λ name. create_local_file (join package_path name) in
        create_local_file (join (join package_path (codes "docs")) (codes ".gitkeep")) git_keep
        ∷ source_file package_path options.package_category
        ∷ file (codes "README.md") (generate_readme options)
        ∷ file (codes "LICENSE") (generate_license license_text options.package_license)
        ∷ file (codes "CODE_OF_CONDUCT.md") code_of_conduct
        ∷ file (codes "CONTRIBUTING.md") (generate_contributing_policy options)
        ∷ file (codes "SECURITY.md") (generate_security_policy options.package_name)
        ∷ file (codes ".gitignore") git_ignore
        ∷ file (codes ".dockerignore") docker_ignore
        ∷ file (codes "CMakeLists.txt") (generate_cmake_lists_txt options.package_name)
        ∷ []

    unfoldable pub init_package_directory_structure : Bytes → InitOptions → S → Checked Bool × S
    init_package_directory_structure package_path options s =
        let files = in_order (package_files package_path options) s in
        if files.0
        then create_config spdx_identifiers package_path options files.1
        else (value false, files.1)

    unfoldable pub create_package : Bytes → InitOptions → S → Checked Bool × S
    create_package package_path options s = elim (exists package_path s) [
      | none ↦ (value false, s)
      | some true ↦ (value false, s)
      | some false ↦
          let structure = init_package_directory_structure package_path options s in
          let repository = fs.git_repository_init package_path structure.1 in
          elim (structure.0) [
            | assert_failed ↦ (assert_failed, structure.1)
            | value false ↦ (value false, structure.1)
            | value true ↦ (value repository.0, repository.1)
          ]
    ]
