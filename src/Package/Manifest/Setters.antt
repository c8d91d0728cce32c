-- ===== src/Package/Manifest/Setters.antt =====
-- The setters of `Switch`, `Requirements`, `Platforms`, `Contact`, `Dependency` and `Manifest` in
-- lib/src/core/package/Manifest.hh. A setter that returns `*this` is a function to the new record.
use no.Prelude.{ℕ, Bool, true, false, ◌&&◌, Option, none, some, List, [], ◌∷◌, ◌++◌, Bytes, ◌==◌}
use no.Prelude.Dict.{bytes_eq}
use no.Prelude.Sets.{bytes_order}
use no.Package.Manifest.{
  Category, Version, Role, owner, contributor, maintainer, support, Contact, Platforms, add_allow,
  remove_allow, add_deny, remove_deny, remove_all, Switch, Requirements, Optimization, set_profile,
  clear_profile, clear_all_profiles, Dependency, Manifest,
}

abbrev pub set_min_cores : ℕ → Requirements → Requirements
set_min_cores n r = record r { min_cores = n }

abbrev pub set_min_memory : ℕ → Requirements → Requirements
set_min_memory n r = record r { min_memory = n }

abbrev pub set_min_storage : ℕ → Requirements → Requirements
set_min_storage n r = record r { min_storage = n }

abbrev pub set_contact_name : Bytes → Contact → Contact
set_contact_name name c = record c { name = name }

abbrev pub set_email : Bytes → Contact → Contact
set_email email c = record c { email = email }

abbrev pub set_roles : List Role → Contact → Contact
set_roles roles c = record c { roles = roles }

abbrev pub clear_roles : Contact → Contact
clear_roles c = record c { roles = [] }

abbrev pub clear_phone : Contact → Contact
clear_phone c = record c { phone = none }

abbrev pub set_allow : List Bytes → Platforms → Platforms
set_allow allow p = record p { allow = allow }

abbrev pub clear_allow : Platforms → Platforms
clear_allow p = record p { allow = [] }

abbrev pub set_deny : List Bytes → Platforms → Platforms
set_deny deny p = record p { deny = deny }

abbrev pub clear_deny : Platforms → Platforms
clear_deny p = record p { deny = [] }

abbrev pub set_uuid : Bytes → Dependency → Dependency
set_uuid uuid d = record d { uuid = uuid }

abbrev pub set_dependency_version : Version → Dependency → Dependency
set_dependency_version version d = record d { version = version }

-- The equality that `std::remove` uses.
abbrev role_eq : Role → Role → Bool
role_eq owner owner = true
role_eq contributor contributor = true
role_eq maintainer maintainer = true
role_eq support support = true
role_eq _ _ = false

abbrev roles_eq : List Role → List Role → Bool
roles_eq [] [] = true
roles_eq (a ∷ others) (b ∷ more) = role_eq a b && roles_eq others more
roles_eq _ _ = false

abbrev phone_eq : Option Bytes → Option Bytes → Bool
phone_eq none none = true
phone_eq (some a) (some b) = bytes_eq a b
phone_eq _ _ = false

abbrev pub contact_eq : Contact → Contact → Bool
contact_eq a b =
    bytes_eq a.name b.name
    && (bytes_eq a.email b.email && (roles_eq a.roles b.roles && phone_eq a.phone b.phone))

abbrev version_eq : Version → Version → Bool
version_eq a b = a.major == b.major && (a.minor == b.minor && a.patch == b.patch)

abbrev pub dependency_eq : Dependency → Dependency → Bool
dependency_eq a b = bytes_eq a.uuid b.uuid && version_eq a.version b.version

abbrev pub set_name : Bytes → Manifest → Manifest
set_name name m = record m { name = name }

abbrev pub set_description : Bytes → Manifest → Manifest
set_description description m = record m { description = description }

abbrev pub set_license : Bytes → Manifest → Manifest
set_license spdx_license m = record m { license = spdx_license }

abbrev pub set_category : Category → Manifest → Manifest
set_category category m = record m { category = category }

abbrev pub set_version : Version → Manifest → Manifest
set_version version m = record m { version = version }

abbrev pub set_contacts : List Contact → Manifest → Manifest
set_contacts contacts m = record m { contacts = contacts }

abbrev pub set_platforms : Platforms → Manifest → Manifest
set_platforms platforms m = record m { platforms = platforms }

abbrev pub set_optimization : Optimization → Manifest → Manifest
set_optimization optimization m = record m { optimization = optimization }

abbrev pub set_dependencies : List Dependency → Manifest → Manifest
set_dependencies dependencies m = record m { dependencies = dependencies }

abbrev pub add_contact : Contact → Manifest → Manifest
add_contact contact m = record m { contacts = m.contacts ++ contact ∷ [] }

abbrev pub clear_contacts : Manifest → Manifest
clear_contacts m = record m { contacts = [] }

abbrev pub remove_contact : Contact → Manifest → Manifest
remove_contact contact m = record m { contacts = remove_all (contact_eq contact) m.contacts }

abbrev pub add_platform_allow : Bytes → Manifest → Manifest
add_platform_allow allow m = record m { platforms = add_allow allow m.platforms }

abbrev pub remove_platform_allow : Bytes → Manifest → Manifest
remove_platform_allow allow m = record m { platforms = remove_allow allow m.platforms }

abbrev pub clear_platform_allow : Manifest → Manifest
clear_platform_allow m = record m { platforms = clear_allow m.platforms }

abbrev pub add_platform_deny : Bytes → Manifest → Manifest
add_platform_deny deny m = record m { platforms = add_deny deny m.platforms }

abbrev pub remove_platform_deny : Bytes → Manifest → Manifest
remove_platform_deny deny m = record m { platforms = remove_deny deny m.platforms }

abbrev pub clear_platform_deny : Manifest → Manifest
clear_platform_deny m = record m { platforms = clear_deny m.platforms }

abbrev pub add_optimization_profile : Bytes → Switch → Manifest → Manifest
add_optimization_profile name profile m = record m {
  optimization = set_profile name profile m.optimization;
}

abbrev pub remove_optimization_profile : Bytes → Manifest → Manifest
remove_optimization_profile name m = record m { optimization = clear_profile name m.optimization }

abbrev pub clear_optimization_profiles : Manifest → Manifest
clear_optimization_profiles m = record m { optimization = clear_all_profiles m.optimization }

abbrev pub add_dependency : Dependency → Manifest → Manifest
add_dependency dependency m = record m { dependencies = m.dependencies ++ dependency ∷ [] }

abbrev pub clear_dependencies : Manifest → Manifest
clear_dependencies m = record m { dependencies = [] }

abbrev pub remove_dependency : Dependency → Manifest → Manifest
remove_dependency dependency m = record m {
  dependencies = remove_all (dependency_eq dependency) m.dependencies;
}
