-- ===== src/Package/Convert.antt =====
-- From a value to a manifest and back: the namespace `convert`, `ObjectToInstance`,
-- `Manifest::FromJson` and `Manifest::ToJson` of lib/src/core/package/Manifest.cc. None stands for an
-- exception, a failed assertion, or a key that is read where it is missing. Parsing and printing the
-- text itself is the library's: `from_json` takes the value that `parse` gave, `to_json` ends at the
-- value that `dump` takes.
pub mod Print
pub mod Versions
pub mod Forms
pub mod Fields
pub mod Valid
pub mod Read
pub mod RoundTrip
pub mod Grammar
pub mod Tests
use no.Prelude.{
  ℕ, ◌+◌, ◌*◌, ◌%◌, ◌^◌, Bool, true, false, not, Option, none, some, List, [], ◌∷◌, ◌++◌, Bytes,
  codes, ltb, ◌&&◌, ◌==◌, if◌then◌else◌, map, ◌>>=◌, each, decimal, leading_digits, is_digit,
}
use no.Prelude.Dict.{bytes_key, bytes_eq}
use no.Prelude.Sets.{bytes_order, add_all}
use no.Json.{Json}
use no.Package.Spdx.{Table}
use no.Package.Manifest.{
  Category, standard_library, library, executable, Version, Role, owner, contributor, maintainer,
  support, role_order, Contact, set_phone, Platforms, Flags, Switch, Requirements, Optimization,
  new_optimization, set_profile, set_requirements, Dependency, Manifest, get_rapid, get_debug,
  get_release,
}
use no.Package.Validate.{before, verify_untrusted_json}

-- The text behind the first `c`; none stands for `npos`.
unfoldable pub after : ℕ → Bytes → Option Bytes
after c [] = none
after c (x ∷ xs) = let further = after c xs in if x == c then some xs else further

-- `std::stoul` on a text that starts with no blank and no sign; none stands for its exceptions.
unfoldable pub stoul : Bytes → Option ℕ
stoul [] = none
stoul (c ∷ cs) =
    if is_digit c && ltb (leading_digits 0 (c ∷ cs)) (2 ^ 64)
    then some (leading_digits 0 (c ∷ cs))
    else none

-- Where there is no patch, none is written.
unfoldable pub encode_semantic_version : Version → Bytes
encode_semantic_version v =
    decimal v.major
    ++ (b'.' ∷ (decimal v.minor ++ (if v.patch == 0 then [] else b'.' ∷ decimal v.patch)))

-- The text after the first dot; a text without one is searched from its start again.
unfoldable pub read_semantic_version : Bytes → Option Version
read_semantic_version version = do
  let rest : Bytes = elim (after b'.' version) [ none ↦ version | some rest ↦ rest ]
  major ← stoul (before b'.' version)
  minor ← stoul (before b'.' rest)
  patch ← elim (after b'.' rest) [ none ↦ some 0 | some patch ↦ stoul patch ]
  some (record { major = major % 2 ^ 32; minor = minor % 2 ^ 32; patch = patch % 2 ^ 32 })

unfoldable pub convert_category : Bytes → Option Category
convert_category category =
    if bytes_eq category (codes "std")
    then some standard_library
    else if bytes_eq category (codes "lib")
    then some library
    else if bytes_eq category (codes "exe")
    then some executable
    else none

unfoldable pub convert_contact_role : Bytes → Option Role
convert_contact_role role =
    if bytes_eq role (codes "owner")
    then some owner
    else if bytes_eq role (codes "contributor")
    then some contributor
    else if bytes_eq role (codes "maintainer")
    then some maintainer
    else if bytes_eq role (codes "support")
    then some support
    else none

module _ {V : Type 0} ⦃json : Json V⦄ where
  open json use {find, items, elements, get_string, get_uint64, object, array, string, unsigned}

  -- `j[key].get<std::string>()`
  abbrev pub text_at : Bytes → V → Option Bytes
  text_at key j = do v ← find key j; get_string v

  unfoldable pub convert_semantic_version : V → Option Version
  convert_semantic_version j = do version ← get_string j; read_semantic_version version

  unfoldable pub convert_role : V → Option Role
  convert_role role = do name ← get_string role; convert_contact_role name

  unfoldable pub convert_contact : V → Option Contact
  convert_contact j = do
    name ← text_at (codes "name") j
    email ← text_at (codes "email") j
    array_of_roles ← find (codes "roles") j
    roles ← each convert_role (elements array_of_roles)
    let c : Contact = record { name = name; email = email; roles = add_all [] roles; phone = none }
    elim (find (codes "phone") j) [
      | none ↦ some c
      | some v ↦ do phone ← get_string v; some (set_phone (some phone) c)
    ]

  -- The strings of an array.
  abbrev pub texts_at : Bytes → V → Option (List Bytes)
  texts_at key j = do v ← find key j; each get_string (elements v)

  unfoldable pub convert_platforms : V → Option Platforms
  convert_platforms j = do
    allow ← texts_at (codes "allow") j
    deny ← texts_at (codes "deny") j
    some (record { allow = allow; deny = deny })

  unfoldable pub convert_optimization_switch_stage : Bytes → V → Option Flags
  convert_optimization_switch_stage stage j = do flags ← texts_at stage j; some (add_all [] flags)

  unfoldable pub convert_optimization_switch : V → Option Switch
  convert_optimization_switch j = do
    alpha ← convert_optimization_switch_stage (codes "alpha") j
    beta ← convert_optimization_switch_stage (codes "beta") j
    gamma ← convert_optimization_switch_stage (codes "gamma") j
    llvm ← convert_optimization_switch_stage (codes "llvm") j
    lto ← convert_optimization_switch_stage (codes "lto") j
    runtime ← convert_optimization_switch_stage (codes "runtime") j
    some (record {
      alpha = alpha;
      beta = beta;
      gamma = gamma;
      llvm = llvm;
      lto = lto;
      runtime = runtime;
    })

  -- `j[key].get<uint32_t>()`, which keeps the low 32 bits.
  abbrev pub uint32_at : Bytes → V → Option ℕ
  uint32_at key j = do v ← find key j; n ← get_uint64 v; some (n % 2 ^ 32)

  unfoldable pub convert_optimization_requirements : V → Option Requirements
  convert_optimization_requirements j = do
    min_cores ← uint32_at (codes "min-cores") j
    min_memory ← uint32_at (codes "min-memory") j
    min_storage ← uint32_at (codes "min-storage") j
    some (record { min_cores = min_cores; min_memory = min_memory; min_storage = min_storage })

  -- The loop over `j.items()`.
  unfoldable pub convert_profiles : List (Bytes × V) → Optimization → Option Optimization
  convert_profiles [] optimization = some optimization
  convert_profiles ((key, v) ∷ rest) optimization =
      if bytes_eq key (codes "requirements")
      then convert_profiles rest optimization
      else elim (do
        switch_object ← find (codes "switch") v
        convert_optimization_switch switch_object) [
          | none ↦ none
          | some profile ↦ convert_profiles rest (set_profile key profile optimization)
        ]

  unfoldable pub convert_optimization : V → Option Optimization
  convert_optimization j = do
    requirements_object ← find (codes "requirements") j
    requirements ← convert_optimization_requirements requirements_object
    convert_profiles (items j) (set_requirements requirements new_optimization)

  unfoldable pub convert_dependency : V → Option Dependency
  convert_dependency j = do
    uuid ← text_at (codes "uuid") j
    v ← find (codes "version") j
    version ← convert_semantic_version v
    some (record { uuid = uuid; version = version })

  unfoldable pub object_to_instance : V → Option Manifest
  object_to_instance j = do
    name ← text_at (codes "name") j
    description ← text_at (codes "description") j
    license ← text_at (codes "license") j
    category_name ← text_at (codes "category") j
    category ← convert_category category_name
    v ← find (codes "version") j
    version ← convert_semantic_version v
    contact_array ← find (codes "contacts") j
    contacts ← each convert_contact (elements contact_array)
    platforms_object ← find (codes "platforms") j
    platforms ← convert_platforms platforms_object
    optimization_object ← find (codes "optimization") j
    optimization ← convert_optimization optimization_object
    dependency_array ← find (codes "dependencies") j
    dependencies ← each convert_dependency (elements dependency_array)
    some (record {
      name = name;
      description = description;
      license = license;
      category = category;
      version = version;
      contacts = contacts;
      platforms = platforms;
      optimization = optimization;
      dependencies = dependencies;
    })

  -- `parse` gives none for a text that it discards. The result: the code throws, or it returns
  -- a manifest or `std::nullopt`.
  unfoldable pub from_json : Table → Option V → Option (Option Manifest)
  from_json spdx_identifiers none = some none
  from_json spdx_identifiers (some j) =
      if verify_untrusted_json spdx_identifiers j
      then elim (object_to_instance j) [ none ↦ none | some m ↦ some (some m) ]
      else some none
