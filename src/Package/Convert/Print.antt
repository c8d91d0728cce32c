-- ===== src/Package/Convert/Print.antt =====
-- `Manifest::ToJson` of lib/src/core/package/Manifest.cc, up to the value that `dump` takes.
use no.Prelude.{Bool, Option, none, some, List, [], ◌∷◌, ◌++◌, Bytes, codes, map, ◌>>=◌}
use no.Json.{Json}
use no.Package.Spdx.{Table}
use no.Package.Manifest.{
  Category, standard_library, library, executable, Role, owner, contributor, maintainer, support,
  Contact, Switch, Requirements, Dependency, Manifest, get_rapid, get_debug, get_release,
}
use no.Package.Validate.{verify_untrusted_json}
use no.Package.Convert.{encode_semantic_version}

abbrev pub category_text : Category → Bytes
category_text standard_library = codes "std"
category_text library = codes "lib"
category_text executable = codes "exe"

abbrev pub role_text : Role → Bytes
role_text owner = codes "owner"
role_text contributor = codes "contributor"
role_text maintainer = codes "maintainer"
role_text support = codes "support"

module _ {V : Type 0} ⦃json : Json V⦄ where
  open json use {object, array, string, unsigned}

  abbrev pub phone_field : Option Bytes → List (Bytes × V)
  phone_field none = []
  phone_field (some phone) = (codes "phone", string phone) ∷ []

  unfoldable pub contact_json : Contact → V
  contact_json contact = object (
      (codes "name", string contact.name)
      ∷ (codes "email", string contact.email)
      ∷ (phone_field contact.phone
          ++ ((codes "roles", array (map (λ role. string (role_text role)) contact.roles)) ∷ [])))

  abbrev pub texts : List Bytes → V
  texts ts = array (map string ts)

  unfoldable pub switch_json : Switch → V
  switch_json s = object (
      (codes "alpha", texts s.alpha)
      ∷ (codes "beta", texts s.beta)
      ∷ (codes "gamma", texts s.gamma)
      ∷ (codes "llvm", texts s.llvm)
      ∷ (codes "lto", texts s.lto)
      ∷ (codes "runtime", texts s.runtime)
      ∷ [])

  unfoldable pub requirements_json : Requirements → V
  requirements_json requirements = object (
      (codes "min-cores", unsigned requirements.min_cores)
      ∷ (codes "min-memory", unsigned requirements.min_memory)
      ∷ (codes "min-storage", unsigned requirements.min_storage)
      ∷ [])

  unfoldable pub dependency_json : Dependency → V
  dependency_json dependency = object (
      (codes "uuid", string dependency.uuid)
      ∷ (codes "version", string (encode_semantic_version dependency.version))
      ∷ [])

  abbrev pub profile_json : Switch → V
  profile_json s = object ((codes "switch", switch_json s) ∷ [])

  -- The value of a manifest with its three required profiles.
  unfoldable pub manifest_json : Manifest → (rapid debug release : Switch) → V
  manifest_json m rapid debug release = object (
      (codes "format", string (codes "1.0"))
      ∷ (codes "name", string m.name)
      ∷ (codes "description", string m.description)
      ∷ (codes "license", string m.license)
      ∷ (codes "category", string (category_text m.category))
      ∷ (codes "version", string (encode_semantic_version m.version))
      ∷ (codes "contacts", array (map contact_json m.contacts))
      ∷ (
        codes "platforms",
        object (
            (codes "allow", texts m.platforms.allow) ∷ (codes "deny", texts m.platforms.deny) ∷ []),
      )
      ∷ (
        codes "optimization",
        object (
            (codes "rapid", profile_json rapid)
            ∷ (codes "debug", profile_json debug)
            ∷ (codes "release", profile_json release)
            ∷ (codes "requirements", requirements_json m.optimization.requirements)
            ∷ []),
      )
      ∷ (codes "dependencies", array (map dependency_json m.dependencies))
      ∷ (codes "blockchain", array [])
      ∷ [])

  -- The value that is printed and `correct_schema`; none where `at` throws for a missing profile.
  unfoldable pub to_json : Table → Manifest → Option (V × Bool)
  to_json spdx_identifiers m = do
    rapid ← get_rapid m.optimization
    debug ← get_debug m.optimization
    release ← get_release m.optimization
    let j : V = manifest_json m rapid debug release
    some (j, verify_untrusted_json spdx_identifiers j)
