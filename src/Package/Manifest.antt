-- ===== src/Package/Manifest.antt =====
-- The manifest of a package: lib/src/core/package/Manifest.hh. A setter returns the object that it
-- has changed; here it returns the new record. A `std::set` is its ascending list, and the map of the
-- profiles an association list that is read by key alone.
pub mod Stages
pub mod Setters
use no.Prelude.{
  ℕ, ◌*◌, Bool, true, false, not, ◌||◌, Option, none, some, List, [], ◌∷◌, ◌++◌, Bytes, codes,
  if◌then◌else◌, arith, ltb,
}
use no.Prelude.Dict.{bytes_key, bytes_eq, lookup, insert, erase}
use no.Prelude.Sets.{Order, bytes_order, add, remove}

pub data Category : Type 0 where
  standard_library : Category
  library : Category
  executable : Category

-- Each component is an `uint32_t`.
pub record Version : Type 0 where
  pub major : ℕ
  pub minor : ℕ
  pub patch : ℕ

-- `Version()`
abbrev pub new_version : Version
new_version = record { major = 0; minor = 1; patch = 0 }

pub data Role : Type 0 where
  owner : Role
  contributor : Role
  maintainer : Role
  support : Role

abbrev rank : Role → ℕ
rank owner = 0
rank contributor = 1
rank maintainer = 2
rank support = 3

-- `std::set<Role>` is in the order of the enumeration.
instance abbrev pub role_order : Order Role
role_order = record { less = λ a b. ltb (rank a) (rank b); less_asym = λ a b h. ground arith }

pub record Contact : Type 0 where
  pub name : Bytes
  pub email : Bytes
  pub roles : List Role
  pub phone : Option Bytes

abbrev pub set_phone : Option Bytes → Contact → Contact
set_phone phone c = record c { phone = phone }

unfoldable pub add_role : Role → Contact → Contact
add_role role c = record c { roles = add role c.roles }

unfoldable pub remove_role : Role → Contact → Contact
remove_role role c = record c { roles = remove role c.roles }

pub record Platforms : Type 0 where
  pub allow : List Bytes
  pub deny : List Bytes

-- `Platforms()`
abbrev pub new_platforms : Platforms
new_platforms = record { allow = codes "*" ∷ []; deny = codes "*" ∷ [] }

-- `v.erase(std::remove(v.begin(), v.end(), x), v.end())`
unfoldable pub remove_all {ℓ} : {A : Type ℓ} → (A → Bool) → List A → List A
remove_all is_it [] = []
remove_all is_it (x ∷ xs) = if is_it x then remove_all is_it xs else x ∷ remove_all is_it xs

unfoldable pub add_allow : Bytes → Platforms → Platforms
add_allow allow p = record p { allow = p.allow ++ allow ∷ [] }

unfoldable pub remove_allow : Bytes → Platforms → Platforms
remove_allow allow p = record p { allow = remove_all (bytes_eq allow) p.allow }

unfoldable pub add_deny : Bytes → Platforms → Platforms
add_deny deny p = record p { deny = p.deny ++ deny ∷ [] }

unfoldable pub remove_deny : Bytes → Platforms → Platforms
remove_deny deny p = record p { deny = remove_all (bytes_eq deny) p.deny }

abbrev pub Flags : Type 0
Flags = List Bytes

pub record Switch : Type 0 where
  pub alpha : Flags
  pub beta : Flags
  pub gamma : Flags
  pub llvm : Flags
  pub lto : Flags
  pub runtime : Flags

-- `Switch()`
abbrev pub new_switch : Switch
new_switch = record { alpha = []; beta = []; gamma = []; llvm = []; lto = []; runtime = [] }

-- Each is an `uint64_t`.
pub record Requirements : Type 0 where
  pub min_cores : ℕ
  pub min_memory : ℕ
  pub min_storage : ℕ

-- `Requirements()`
abbrev pub new_requirements : Requirements
new_requirements = record { min_cores = 1; min_memory = 2 * 1024 * 1024; min_storage = 0 }

abbrev pub Profiles : Type 0
Profiles = List (Bytes × Switch)

pub record Optimization : Type 0 where
  pub profiles : Profiles
  pub requirements : Requirements

abbrev pub rapid_key : Bytes
rapid_key = codes "rapid"

abbrev pub debug_key : Bytes
debug_key = codes "debug"

abbrev pub release_key : Bytes
release_key = codes "release"

abbrev pub is_required_profile : Bytes → Bool
is_required_profile name =
    bytes_eq name rapid_key || (bytes_eq name debug_key || bytes_eq name release_key)

unfoldable pub required_profiles : Switch → Switch → Switch → Profiles
required_profiles rapid debug release =
    insert release_key release (insert debug_key debug (insert rapid_key rapid []))

-- `Optimization()`
unfoldable pub new_optimization : Optimization
new_optimization = record {
  profiles = required_profiles new_switch new_switch new_switch;
  requirements = new_requirements;
}

-- `m.insert(first, last)` leaves a key that is there as it is.
unfoldable pub insert_missing : Profiles → Profiles → Profiles
insert_missing m [] = m
insert_missing m ((name, profile) ∷ more) =
    insert_missing (elim (lookup name m) [ none ↦ insert name profile m | some _ ↦ m ]) more

-- `Optimization(rapid, debug, release, additional_profiles, requirements)`
unfoldable pub optimization_with : Switch → Switch → Switch → Profiles → Requirements → Optimization
optimization_with rapid debug release additional_profiles requirements = record {
  profiles = insert_missing (required_profiles rapid debug release) additional_profiles;
  requirements = requirements;
}

-- `m_profiles.at(key)`: none stands for `std::out_of_range`.
unfoldable pub get_rapid : Optimization → Option Switch
get_rapid o = lookup rapid_key o.profiles

unfoldable pub get_debug : Optimization → Option Switch
get_debug o = lookup debug_key o.profiles

unfoldable pub get_release : Optimization → Option Switch
get_release o = lookup release_key o.profiles

-- `m_profiles[name]`, which makes the profile if there is none.
unfoldable pub get_profile : Bytes → Optimization → Switch × Optimization
get_profile name o = elim (lookup name o.profiles) [
  | none ↦ (new_switch, record o { profiles = insert name new_switch o.profiles })
  | some profile ↦ (profile, o)
]

unfoldable pub contains_profile : Bytes → Optimization → Bool
contains_profile name o = elim (lookup name o.profiles) [ none ↦ false | some _ ↦ true ]

unfoldable pub set_profile : Bytes → Switch → Optimization → Optimization
set_profile name profile o = record o { profiles = insert name profile o.profiles }

unfoldable pub clear_profile : Bytes → Optimization → Optimization
clear_profile name o =
    if not (is_required_profile name) then record o { profiles = erase name o.profiles } else o

unfoldable pub clear_all_profiles : Optimization → Optimization
clear_all_profiles o = record o { profiles = required_profiles new_switch new_switch new_switch }

abbrev pub set_requirements : Requirements → Optimization → Optimization
set_requirements requirements o = record o { requirements = requirements }

pub record Dependency : Type 0 where
  pub uuid : Bytes
  pub version : Version

pub record Manifest : Type 0 where
  pub name : Bytes
  pub description : Bytes
  pub license : Bytes
  pub category : Category
  pub version : Version
  pub contacts : List Contact
  pub platforms : Platforms
  pub optimization : Optimization
  pub dependencies : List Dependency

-- `Manifest(name, category)`
unfoldable pub new_manifest : Bytes → Category → Manifest
new_manifest name category = record {
  name = name;
  description = [];
  license = codes "LGPL-2.1";
  category = category;
  version = new_version;
  contacts = [];
  platforms = new_platforms;
  optimization = new_optimization;
  dependencies = [];
}
