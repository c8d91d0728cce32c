-- ===== src/Package/Convert/Valid.antt =====
-- What `ToJson` builds passes `VerifyUntrustedJSON` (lib/src/core/package/Manifest.cc).
use no.Prelude.{
  ◌^◌, ◌<◌, true, ◌&&◌, Option, none, some, List, [], ◌∷◌, Bytes, codes, ◌≡◌, refl, ap, All, map,
  take,
}
use no.Prelude.Dict.{bytes_key, bytes_eq, lookup}
use no.Json.{Json, JsonLaws}
use no.Package.Regex.{regex_match}
use no.Package.Spdx.{Table}
use no.Package.Manifest.{
  Version, Role, owner, contributor, maintainer, support, Contact, Switch, Requirements, Dependency,
  Manifest, get_rapid, get_debug, get_release, Category, standard_library, library, executable,
}
use no.Package.Validate.{
  text_is, array_of, semver_regex, validate_sem_version, validate_uuid, is_valid_name,
  is_valid_license, validate_build_optimization_switch, profile, requirements_object,
  contact_object, contact_role, dependency_object, manifest_category, platforms_object,
  validate_build_optimization, validate_blockchain, verify_untrusted_json,
}
use no.Package.Convert.{encode_semantic_version}
use no.Package.Convert.Print.{
  texts, switch_json, requirements_json, contact_json, role_text, category_text, dependency_json,
  profile_json, manifest_json, to_json,
}
use no.Package.Convert.Forms.{encode_semantic_version_matches}
use no.Package.Convert.Fields.{
  has_field, array_valid, all-map, text_valid, texts_valid, both, phone_missing, phone_given,
}

-- Each number fits its type.
abbrev pub AreWords : Requirements → Type 0
AreWords r = (r.min_cores < 2 ^ 64) × (r.min_memory < 2 ^ 64) × (r.min_storage < 2 ^ 64)

module _ {V : Type 0} ⦃json : Json V⦄ (laws : JsonLaws json) where
  open json use {object, array, string, is_string, is_number_unsigned}

  switch_valid : (s : Switch) → validate_build_optimization_switch {V = V} (switch_json s) ≡ true
  unfolding validate_build_optimization_switch switch_json lookup
  switch_valid s = both (laws.object_is _) (
      both
        (has_field laws (codes "alpha") (array_of is_string) _ refl refl (texts_valid laws s.alpha))
        (both
          (has_field laws (codes "beta") (array_of is_string) _ refl refl (texts_valid laws s.beta))
          (both
            (has_field laws (codes "gamma") (array_of is_string) _ refl refl
              (texts_valid laws s.gamma))
            (both
              (has_field laws (codes "llvm") (array_of is_string) _ refl refl
                (texts_valid laws s.llvm))
              (both
                (has_field laws (codes "lto") (array_of is_string) _ refl refl
                  (texts_valid laws s.lto))
                (has_field laws (codes "runtime") (array_of is_string) _ refl refl
                  (texts_valid laws s.runtime)))))))

  profile_valid : (s : Switch) → profile {V = V} (profile_json s) ≡ true
  unfolding lookup
  profile_valid s = both (laws.object_is _) (
      has_field laws (codes "switch") validate_build_optimization_switch _ refl refl
        (switch_valid s))

  requirements_valid :
      (r : Requirements) → AreWords r → requirements_object {V = V} (requirements_json r) ≡ true
  unfolding lookup requirements_json
  requirements_valid r h = both (laws.object_is _) (
      both
        (has_field laws (codes "min-cores") is_number_unsigned _ refl refl (laws.unsigned_is _ h.0))
        (both
          (has_field laws (codes "min-memory") is_number_unsigned _ refl refl
            (laws.unsigned_is _ h.1))
          (has_field laws (codes "min-storage") is_number_unsigned _ refl refl
            (laws.unsigned_is _ h.2))))

  version_valid :
      (v : Version) → validate_sem_version {V = V} (string (encode_semantic_version v)) ≡ true
  unfolding validate_sem_version
  version_valid v =
      text_valid laws (λ s. regex_match s semver_regex) _ (encode_semantic_version_matches v)

  dependency_valid :
      (d : Dependency)
      → validate_uuid d.uuid ≡ true
      → dependency_object {V = V} (dependency_json d) ≡ true
  unfolding lookup dependency_json
  dependency_valid d h = both (laws.object_is _) (
      both
        (has_field laws (codes "uuid") (text_is validate_uuid) _ refl refl
          (text_valid laws validate_uuid _ h))
        (has_field laws (codes "version") validate_sem_version _ refl refl
          (version_valid d.version)))

  role_valid : (role : Role) → text_is contact_role (string (role_text role)) ≡ true
  role_valid owner = text_valid laws contact_role _ refl
  role_valid contributor = text_valid laws contact_role _ refl
  role_valid maintainer = text_valid laws contact_role _ refl
  role_valid support = text_valid laws contact_role _ refl

  each_role :
      (roles : List Role)
      → All (λ role. text_is contact_role (string (role_text role)) ≡ true) roles
  each_role [] = tt
  each_role (role ∷ roles) = (role_valid role, each_role roles)

  roles_valid :
      (roles : List Role)
      → array_of (text_is contact_role) (array (map (λ role. string (role_text role)) roles)) ≡ true
  roles_valid roles =
      array_valid laws (text_is contact_role) _
        (all-map (λ role. string (role_text role)) (text_is contact_role) roles (each_role roles))

  contact_valid_lem :
      (name email : Bytes) (roles : List Role) (phone : Option Bytes)
      → contact_object {V = V}
          (contact_json (record { name = name; email = email; roles = roles; phone = phone }))
        ≡ true
  unfolding lookup contact_json
  contact_valid_lem name email roles none = both (laws.object_is _) (
      both (has_field laws (codes "name") is_string _ refl refl (laws.string_is name)) (
        both (has_field laws (codes "email") is_string _ refl refl (laws.string_is email)) (
          both (phone_missing laws _ refl refl) (
            has_field laws (codes "roles") (array_of (text_is contact_role)) _ refl refl
              (roles_valid roles)))))
  contact_valid_lem name email roles (some phone) = both (laws.object_is _) (
      both (has_field laws (codes "name") is_string _ refl refl (laws.string_is name)) (
        both (has_field laws (codes "email") is_string _ refl refl (laws.string_is email)) (
          both (phone_given laws _ refl refl (laws.string_is phone)) (
            has_field laws (codes "roles") (array_of (text_is contact_role)) _ refl refl
              (roles_valid roles)))))

  each_contact :
      (contacts : List Contact) → All (λ c. contact_object {V = V} (contact_json c) ≡ true) contacts
  each_contact [] = tt
  each_contact (c ∷ contacts) =
      (contact_valid_lem c.name c.email c.roles c.phone, each_contact contacts)

  each_dependency :
      (ds : List Dependency)
      → All (λ d. validate_uuid d.uuid ≡ true) ds
      → All (λ d. dependency_object {V = V} (dependency_json d) ≡ true) ds
  each_dependency [] h = tt
  each_dependency (d ∷ ds) h = (dependency_valid d h.0, each_dependency ds h.1)

  category_valid :
      (category : Category) → text_is manifest_category (string (category_text category)) ≡ true
  category_valid standard_library = text_valid laws manifest_category _ refl
  category_valid library = text_valid laws manifest_category _ refl
  category_valid executable = text_valid laws manifest_category _ refl

  strings_valid :
      (p : List Bytes × List Bytes)
      → platforms_object {V = V}
          (object ((codes "allow", texts p.0) ∷ (codes "deny", texts p.1) ∷ []))
        ≡ true
  unfolding lookup
  strings_valid p = both (laws.object_is _) (
      both (has_field laws (codes "allow") (array_of is_string) _ refl refl (texts_valid laws p.0))
        (has_field laws (codes "deny") (array_of is_string) _ refl refl (texts_valid laws p.1)))

  optimization_valid :
      (rapid debug release : Switch) (r : Requirements)
      → AreWords r
      → validate_build_optimization {V = V} (
          object (
            (codes "rapid", profile_json rapid)
            ∷ (codes "debug", profile_json debug)
            ∷ (codes "release", profile_json release)
            ∷ (codes "requirements", requirements_json r)
            ∷ []))
        ≡ true
  unfolding validate_build_optimization lookup
  optimization_valid rapid debug release r h = both (laws.object_is _) (
      both (has_field laws (codes "rapid") profile _ refl refl (profile_valid rapid)) (
        both (has_field laws (codes "debug") profile _ refl refl (profile_valid debug)) (
          both (has_field laws (codes "release") profile _ refl refl (profile_valid release)) (
            has_field laws (codes "requirements") requirements_object _ refl refl
              (requirements_valid r h)))))

  format_test :
      (s : Bytes)
      → regex_match s semver_regex ≡ true
      → bytes_eq (take 2 s) (codes "1.") ≡ true
      → (validate_sem_version {V = V} (string s)
          && text_is (λ t. bytes_eq (take 2 t) (codes "1.")) (string s))
        ≡ true
  unfolding validate_sem_version
  format_test s h e =
      both (text_valid laws (λ t. regex_match t semver_regex) s h)
        (text_valid laws (λ t. bytes_eq (take 2 t) (codes "1.")) s e)

  module _ (spdx_identifiers : Table) (m : Manifest) (name : is_valid_name m.name ≡ true)
      (license : is_valid_license spdx_identifiers m.license ≡ true)
      (uuids : All (λ d. validate_uuid d.uuid ≡ true) m.dependencies)
      (words : AreWords m.optimization.requirements) where
    pub manifest_json_valid :
        (rapid debug release : Switch)
        → verify_untrusted_json {V = V} spdx_identifiers (manifest_json m rapid debug release)
          ≡ true
    unfolding verify_untrusted_json manifest_json lookup validate_blockchain regex_match
    manifest_json_valid rapid debug release = both (laws.object_is _) (
        both (has_field laws (codes "format") _ _ refl refl (format_test (codes "1.0") refl refl)) (
          both
            (has_field laws (codes "name") _ _ refl refl
              (text_valid laws is_valid_name m.name name))
            (both (has_field laws (codes "description") _ _ refl refl (laws.string_is _)) (
              both
                (has_field laws (codes "license") _ _ refl refl
                  (text_valid laws (is_valid_license spdx_identifiers) m.license license))
                (both (has_field laws (codes "category") _ _ refl refl (category_valid m.category))
                  (both (has_field laws (codes "version") _ _ refl refl (version_valid m.version)) (
                    both
                      (has_field laws (codes "contacts") _ _ refl refl (
                        array_valid laws contact_object _ (
                          all-map contact_json contact_object m.contacts
                            (each_contact m.contacts))))
                      (both
                        (has_field laws (codes "platforms") _ _ refl refl
                          (strings_valid (m.platforms.allow, m.platforms.deny)))
                        (both
                          (has_field laws (codes "optimization") _ _ refl refl (
                            optimization_valid rapid debug release m.optimization.requirements
                              words))
                          (both
                            (has_field laws (codes "dependencies") _ _ refl refl (
                              array_valid laws dependency_object _ (
                                all-map dependency_json dependency_object m.dependencies
                                  (each_dependency m.dependencies uuids))))
                            (has_field laws (codes "blockchain") _ _ refl refl
                              (array_valid laws _ [] refl))))))))))))

    -- A manifest with the three profiles, a valid name, a license of the table, valid identifiers of
    -- its dependencies and requirements that fit their type is written as a value that passes the
    -- validation, and without an exception.
    pub to_json_valid :
        {rapid debug release : Switch}
        → get_rapid m.optimization ≡ some rapid
        → get_debug m.optimization ≡ some debug
        → get_release m.optimization ≡ some release
        → to_json {V = V} spdx_identifiers m ≡ some (manifest_json m rapid debug release, true)
    unfolding to_json
    to_json_valid {rapid = rapid} {debug = debug} {release = release} r d l =
        rw (r, d, l)
          (ap (λ b. some (manifest_json m rapid debug release, b))
            (manifest_json_valid rapid debug release))
