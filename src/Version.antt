-- ===== src/Version.antt =====
-- The command `version`: lib/src/version/Run.cc. What the libraries say of their builds, the time, the
-- identifier of the software and the information on the system are arguments.
pub mod Names
pub mod Tests
use no.Prelude.{
  ℕ, Bool, true, false, not, ◌&&◌, ◌||◌, Option, none, some, List, [], ◌∷◌, Bytes, codes, map,
  if◌then◌else◌, ◌>>=◌, ℤ,
}
use no.Prelude.Results.{each}
use no.Prelude.Dict.{bytes_key, lookup}
use no.Json.{Json}

pub data SoftwareComponent : Type 0 where
  core lexer sequencer parser ir_alpha alpha_optimizer ir_beta beta_optimizer ir_gamma
        gamma_optimizer codegen :
      SoftwareComponent

abbrev pub name_of : SoftwareComponent → Bytes
name_of core = codes "Core"
name_of lexer = codes "Lexer"
name_of sequencer = codes "Sequencer"
name_of parser = codes "Parser"
name_of ir_alpha = codes "IRAlpha"
name_of alpha_optimizer = codes "IRAlphaOpt"
name_of ir_beta = codes "IRBeta"
name_of beta_optimizer = codes "IRBetaOpt"
name_of ir_gamma = codes "IRGamma"
name_of gamma_optimizer = codes "IRGammaOpt"
name_of codegen = codes "Codegen"

-- What a library knows of itself.
pub record Build : Type 0 where
  pub major : ℕ
  pub minor : ℕ
  pub patch : ℕ
  pub commit : Bytes
  pub build_date : Bytes
  pub branch : Bytes

abbrev no_build : Build
no_build = record { major = 0; minor = 0; patch = 0; commit = []; build_date = []; branch = [] }

pub record ComponentManifest : Type 0 where
  pub component_name : Bytes
  pub license : Bytes
  pub description : Bytes
  pub dependencies : List Bytes
  pub build : Build

-- The builds of the four libraries.
pub record Libraries : Type 0 where
  pub core_library : Build
  pub lexer_library : Build
  pub seq_library : Build
  pub parse_library : Build

abbrev made : SoftwareComponent → Bytes → List SoftwareComponent → Build → ComponentManifest
made component description dependencies build = record {
  component_name = name_of component;
  license = codes "LGPL-2.1+";
  description = description;
  dependencies = map name_of dependencies;
  build = build;
}

-- The functions `GetComponentManifestFor…`, by the component.
unfoldable pub component_manifest : Libraries → SoftwareComponent → ComponentManifest
component_manifest libs core = made core (codes "The Nitrate Core Library") [] libs.core_library
component_manifest libs lexer =
    made lexer (codes "The Nitrate Lexer Library") (core ∷ []) libs.lexer_library
component_manifest libs sequencer =
    made sequencer (codes "The Nitrate Sequencer (Preprocessor) Library") (core ∷ lexer ∷ [])
      libs.seq_library
component_manifest libs parser =
    made parser (codes "The Nitrate Parser Library") (core ∷ lexer ∷ []) libs.parse_library
component_manifest libs ir_alpha =
    made ir_alpha (codes "The Nitrate Alpha Intermediate Representation Library")
      (core ∷ parser ∷ []) no_build
component_manifest libs alpha_optimizer =
    made alpha_optimizer (codes "The Nitrate Alpha Intermediate Representation Optimizer Library")
      (core ∷ ir_alpha ∷ []) no_build
component_manifest libs ir_beta =
    made ir_beta (codes "The Nitrate Beta Intermediate Representation Library")
      (core ∷ ir_alpha ∷ []) no_build
component_manifest libs beta_optimizer =
    made beta_optimizer (codes "The Nitrate Beta Intermediate Representation Optimizer Library")
      (core ∷ ir_beta ∷ []) no_build
component_manifest libs ir_gamma =
    made ir_gamma (codes "The Nitrate Gamma Intermediate Representation Library")
      (core ∷ ir_beta ∷ []) no_build
component_manifest libs gamma_optimizer =
    made gamma_optimizer (codes "The Nitrate Gamma Intermediate Representation Optimizer Library")
      (core ∷ ir_gamma ∷ []) no_build
component_manifest libs codegen =
    made codegen (codes "The Nitrate Codegen and Linking Library") (core ∷ ir_gamma ∷ []) no_build

abbrev pub all_components : List SoftwareComponent
all_components =
    core ∷ lexer ∷ sequencer ∷ parser ∷ ir_alpha ∷ alpha_optimizer ∷ ir_beta ∷ beta_optimizer
    ∷ ir_gamma ∷ gamma_optimizer ∷ codegen ∷ []

abbrev pub component_map : List (Bytes × SoftwareComponent)
component_map = map (λ component. (name_of component, component)) all_components

unfoldable pub get_software_components : List Bytes → Option (List SoftwareComponent)
get_software_components names = each (λ name. lookup name component_map) names

-- The map of the options.
pub record Arguments : Type 0 where
  pub help : Bool
  pub of_names : Option (List Bytes)
  pub system_info : Bool
  pub minify : Bool
  pub brief : Bool
  pub json : Bool

module _ {V : Type 0} (json : Json V) (libs : Libraries) where
  open json use {object, array, string, unsigned}

  unfoldable pub get_component_manifest : SoftwareComponent → V
  get_component_manifest component =
      let manifest = component_manifest libs component in
      object (
        (codes "component_name", string manifest.component_name)
        ∷ (codes "description", string manifest.description)
        ∷ (codes "license", string manifest.license)
        ∷ (
          codes "version",
          object (
              (codes "major", unsigned manifest.build.major)
              ∷ (codes "minor", unsigned manifest.build.minor)
              ∷ (codes "patch", unsigned manifest.build.patch)
              ∷ []),
        )
        ∷ (
          codes "build",
          object (
              (codes "commit", string manifest.build.commit)
              ∷ (codes "date", string manifest.build.build_date)
              ∷ (codes "branch", string manifest.build.branch)
              ∷ []),
        )
        ∷ (codes "dependencies", array (map string manifest.dependencies))
        ∷ [])

  unfoldable pub get_software_version_array : List SoftwareComponent → V
  get_software_version_array components = array (map get_component_manifest components)

  -- The value that is printed; the time and the identifier are arguments.
  unfoldable pub get_version_using_json : ℤ → Bytes → (system : Option V) → V → V
  get_version_using_json timestamp uuid system version_array = object (
      (codes "application", string (codes "no3"))
      ∷ (codes "timestamp", json.integer timestamp)
      ∷ (codes "uuid", string uuid)
      ∷ (codes "system", elim (system) [ none ↦ json.null | some info ↦ info ])
      ∷ (codes "software", version_array)
      ∷ [])

  -- What the command shows, as the version array and whether it is printed as JSON, or none where it
  -- only shows its help; and its result.
  unfoldable pub command_version : Option Arguments → Option (Bool × V) × Bool
  command_version none = (none, false)
  command_version (some vm) =
      if vm.help
      then (none, true)
      else elim (get_software_components
          (elim (vm.of_names) [ none ↦ map name_of all_components | some names ↦ names ])) [
            | none ↦ (none, false)
            | some components ↦
                if not vm.json && (vm.system_info || vm.minify)
                then (none, false)
                else if vm.brief && vm.json
                then (none, false)
                else (some (vm.json, get_software_version_array components), true)
          ]
