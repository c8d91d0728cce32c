-- ===== src/Package/Convert/Read.antt =====
-- What `ToJson` builds is read back by `FromJson` (lib/src/core/package/Manifest.cc).
use no.Prelude.{
  ℕ, ◌^◌, ◌<◌, Option, true, none, some, List, [], ◌∷◌, Bytes, codes, ◌≡◌, refl, ap, arith, All,
  map,
}
use no.Prelude.Results.{each}
use no.Prelude.Dict.{bytes_key, lookup, insert, has_distinct_keys, has_distinct_keys_lem}
use no.Prelude.Sets.{bytes_order, IsAscending, add_all_id}
use no.Json.{Json, JsonLaws}
use no.Package.Manifest.{
  Version, Role, role_order, owner, contributor, maintainer, support, Contact, Switch, Requirements,
  Dependency, required_profiles, new_optimization, set_profile,
}
use no.Package.Convert.{
  text_at, texts_at, uint32_at, convert_contact_role, convert_semantic_version, convert_role,
  convert_contact, convert_optimization_switch_stage, convert_optimization_switch,
  convert_optimization_requirements, convert_profiles, convert_optimization, convert_dependency,
  encode_semantic_version,
}
use no.Package.Convert.Versions.{IsWord, read_semantic_version-encode_semantic_version}
use no.Package.Convert.Fields.{find_field, find_missing}
use no.Package.Convert.Print.{
  texts, switch_json, requirements_json, contact_json, role_text, dependency_json, profile_json,
}

pub each-map :
    {A V : Type 0} (f : V → Option A) (g : A → V) (xs : List A)
    → All (λ x. f (g x) ≡ some x) xs
    → each f (map g xs) ≡ some xs
unfolding each
each-map f g [] h = refl
each-map f g (x ∷ xs) h = rw (h.0, each-map f g xs h.1) refl

-- Each set of flags is in order.
abbrev pub HasSets : Switch → Type 0
HasSets s =
    IsAscending s.alpha
    × IsAscending s.beta
    × IsAscending s.gamma
    × IsAscending s.llvm
    × IsAscending s.lto
    × IsAscending s.runtime

-- Each number fits the type that it is read as.
abbrev pub FitReading : Requirements → Type 0
FitReading r = (r.min_cores < 2 ^ 32) × (r.min_memory < 2 ^ 32) × (r.min_storage < 2 ^ 32)

module _ {V : Type 0} ⦃json : Json V⦄ (laws : JsonLaws json) where
  open json use {find, object, array, string, unsigned, get_string}

  pub text_at_field :
      (key : Bytes) (fields : List (Bytes × V)) {s : Bytes}
      → has_distinct_keys fields ≡ true
      → lookup key fields ≡ some (string s)
      → text_at key (object fields) ≡ some s
  text_at_field key fields {s = s} distinct e =
      rw (find_field laws key fields distinct e) (laws.string_read s)

  strings_read : (ts : List Bytes) → All (λ t. get_string (string t) ≡ some t) ts
  strings_read [] = tt
  strings_read (t ∷ ts) = (laws.string_read t, strings_read ts)

  pub texts_at_field :
      (key : Bytes) (fields : List (Bytes × V)) (ts : List Bytes)
      → has_distinct_keys fields ≡ true
      → lookup key fields ≡ some (texts ts)
      → texts_at key (object fields) ≡ some ts
  texts_at_field key fields ts distinct e =
      rw (find_field laws key fields distinct e, laws.array_elements (map string ts))
        (each-map get_string string ts (strings_read ts))

  stage_read :
      (key : Bytes) (fields : List (Bytes × V)) (flags : List Bytes)
      → IsAscending flags
      → has_distinct_keys fields ≡ true
      → lookup key fields ≡ some (texts flags)
      → convert_optimization_switch_stage key (object fields) ≡ some flags
  unfolding convert_optimization_switch_stage
  stage_read key fields flags ascending distinct e =
      rw (texts_at_field key fields flags distinct e) (ap some (add_all_id flags ascending))

  switch_read :
      (s : Switch) → HasSets s → convert_optimization_switch {V = V} (switch_json s) ≡ some s
  unfolding convert_optimization_switch switch_json lookup
  switch_read s h =
      rw
        (
          stage_read (codes "alpha") _ s.alpha h.0 refl refl,
          stage_read (codes "beta") _ s.beta h.1 refl refl,
          stage_read (codes "gamma") _ s.gamma h.2 refl refl,
          stage_read (codes "llvm") _ s.llvm h.3 refl refl,
          stage_read (codes "lto") _ s.lto h.4 refl refl,
          stage_read (codes "runtime") _ s.runtime h.5 refl refl,
        )
        refl

  uint32_at_field :
      (key : Bytes) (fields : List (Bytes × V)) (n : ℕ)
      → n < 2 ^ 32
      → has_distinct_keys fields ≡ true
      → lookup key fields ≡ some (unsigned n)
      → uint32_at key (object fields) ≡ some n
  uint32_at_field key fields n small distinct e =
      rw (find_field laws key fields distinct e, laws.unsigned_read n (omega (arith, small)))
        (ap some (omega (arith, small)))

  requirements_read :
      (r : Requirements)
      → FitReading r
      → convert_optimization_requirements {V = V} (requirements_json r) ≡ some r
  unfolding convert_optimization_requirements requirements_json lookup
  requirements_read r h =
      rw
        (
          uint32_at_field (codes "min-cores") _ r.min_cores h.0 refl refl,
          uint32_at_field (codes "min-memory") _ r.min_memory h.1 refl refl,
          uint32_at_field (codes "min-storage") _ r.min_storage h.2 refl refl,
        )
        refl

  pub version_read :
      (v : Version)
      → IsWord v
      → convert_semantic_version {V = V} (string (encode_semantic_version v)) ≡ some v
  unfolding convert_semantic_version
  version_read v h = rw (laws.string_read _) (read_semantic_version-encode_semantic_version v h)

  role_read : (role : Role) → convert_role {V = V} (string (role_text role)) ≡ some role
  unfolding convert_role convert_contact_role
  role_read owner = rw (laws.string_read (codes "owner")) refl
  role_read contributor = rw (laws.string_read (codes "contributor")) refl
  role_read maintainer = rw (laws.string_read (codes "maintainer")) refl
  role_read support = rw (laws.string_read (codes "support")) refl

  each_role_read :
      (roles : List Role)
      → All (λ role. convert_role {V = V} (string (role_text role)) ≡ some role) roles
  each_role_read [] = tt
  each_role_read (role ∷ roles) = (role_read role, each_role_read roles)

  roles_read :
      (roles : List Role)
      → each convert_role (map (λ role. string (role_text role)) roles) ≡ some roles
  roles_read roles =
      each-map convert_role (λ role. string (role_text role)) roles (each_role_read roles)

  contact_read_lem :
      (name email : Bytes) (roles : List Role) (phone : Option Bytes)
      → IsAscending roles
      → let c : Contact = record { name = name; email = email; roles = roles; phone = phone } in
        convert_contact {V = V} (contact_json c) ≡ some c
  unfolding convert_contact contact_json lookup
  contact_read_lem name email roles none ascending =
      rw
        (
          text_at_field (codes "name") _ refl refl,
          text_at_field (codes "email") _ refl refl,
          find_field laws (codes "roles") _ refl refl,
          laws.array_elements (map (λ role. string (role_text role)) roles),
          roles_read roles,
        )
        (rw (find_missing laws (codes "phone") _ refl refl, add_all_id roles ascending) refl)
  contact_read_lem name email roles (some phone) ascending =
      rw
        (
          text_at_field (codes "name") _ refl refl,
          text_at_field (codes "email") _ refl refl,
          find_field laws (codes "roles") _ refl refl,
          laws.array_elements (map (λ role. string (role_text role)) roles),
          roles_read roles,
        )
        (rw
          (
            find_field laws (codes "phone") _ refl refl,
            laws.string_read phone,
            add_all_id roles ascending,
          )
          refl)

  pub each_contact_read :
      (contacts : List Contact)
      → All (λ c. IsAscending c.roles) contacts
      → All (λ c. convert_contact {V = V} (contact_json c) ≡ some c) contacts
  each_contact_read [] h = tt
  each_contact_read (c ∷ contacts) h =
      (contact_read_lem c.name c.email c.roles c.phone h.0, each_contact_read contacts h.1)

  dependency_read :
      (d : Dependency) → IsWord d.version → convert_dependency {V = V} (dependency_json d) ≡ some d
  unfolding convert_dependency dependency_json lookup
  dependency_read d h =
      rw
        (
          text_at_field (codes "uuid") _ refl refl,
          find_field laws (codes "version") _ refl refl,
          version_read d.version h,
        )
        refl

  pub each_dependency_read :
      (ds : List Dependency)
      → All (λ d. IsWord d.version) ds
      → All (λ d. convert_dependency {V = V} (dependency_json d) ≡ some d) ds
  each_dependency_read [] h = tt
  each_dependency_read (d ∷ ds) h = (dependency_read d h.0, each_dependency_read ds h.1)

  abbrev pub optimization_fields : (rapid debug release : Switch) → Requirements → List (Bytes × V)
  optimization_fields rapid debug release r =
      (codes "rapid", profile_json rapid)
      ∷ (codes "debug", profile_json debug)
      ∷ (codes "release", profile_json release)
      ∷ (codes "requirements", requirements_json r)
      ∷ []

  pub optimization_read :
      (rapid debug release : Switch) (r : Requirements)
      → HasSets rapid
      → HasSets debug
      → HasSets release
      → FitReading r
      → convert_optimization {V = V} (object (optimization_fields rapid debug release r))
        ≡ some (record { profiles = required_profiles rapid debug release; requirements = r })
  unfolding convert_optimization convert_profiles lookup insert required_profiles new_optimization
      set_profile
  optimization_read rapid debug release r a b c h =
      rw
        (
          find_field laws (codes "requirements") (optimization_fields rapid debug release r) refl
              refl,
          requirements_read r h,
          laws.object_items (optimization_fields rapid debug release r)
              (has_distinct_keys_lem (optimization_fields rapid debug release r) refl),
          find_field laws (codes "switch") ((codes "switch", switch_json debug) ∷ []) refl refl,
          switch_read debug b,
          find_field laws (codes "switch") ((codes "switch", switch_json rapid) ∷ []) refl refl,
          switch_read rapid a,
          find_field laws (codes "switch") ((codes "switch", switch_json release) ∷ []) refl refl,
          switch_read release c,
        )
        refl
