-- ===== src/Package/Convert/RoundTrip.antt =====
-- `FromJson` of what `ToJson` writes (lib/src/core/package/Manifest.cc).
use no.Prelude.{true, some, [], ◌∷◌, codes, ◌≡◌, refl, arith, All, map, sym}
use no.Prelude.Dict.{bytes_key, lookup, insert}
use no.Prelude.Sets.{IsAscending}
use no.Json.{Json, JsonLaws}
use no.Package.Spdx.{Table}
use no.Package.Manifest.{
  Category, standard_library, library, executable, Switch, Manifest, required_profiles, get_rapid,
  get_debug, get_release, role_order,
}
use no.Package.Validate.{is_valid_name, is_valid_license, validate_uuid}
use no.Package.Convert.{
  convert_category, convert_contact, convert_dependency, convert_platforms, object_to_instance,
  from_json,
}
use no.Package.Convert.Versions.{IsWord}
use no.Package.Convert.Fields.{find_field}
use no.Package.Convert.Valid.{AreWords, to_json_valid, manifest_json_valid}
use no.Package.Convert.Read.{
  each-map, text_at_field, texts_at_field, HasSets, FitReading, version_read, each_contact_read,
  each_dependency_read, optimization_read,
}
use no.Package.Convert.Print.{
  texts, contact_json, dependency_json, category_text, manifest_json, to_json,
}

category_read : (category : Category) → convert_category (category_text category) ≡ some category
unfolding convert_category
category_read standard_library = refl
category_read library = refl
category_read executable = refl

-- What a manifest must be so that nothing is lost: it has no profile beyond the three required ones,
-- its numbers fit the types that they are read as, and its sets are in order.
pub record IsReadable (m : Manifest) (rapid debug release : Switch) : Type 0 where
  pub profiles : m.optimization.profiles ≡ required_profiles rapid debug release
  pub rapid_sets : HasSets rapid
  pub debug_sets : HasSets debug
  pub release_sets : HasSets release
  pub requirements : FitReading m.optimization.requirements
  pub version : IsWord m.version
  pub roles : All (λ c. IsAscending c.roles) m.contacts
  pub dependencies : All (λ d. IsWord d.version) m.dependencies

module _ {V : Type 0} ⦃json : Json V⦄ (laws : JsonLaws json) where
  open json use {object, array, string}

  object_to_instance-manifest_json :
      (m : Manifest) (rapid debug release : Switch)
      → IsReadable m rapid debug release
      → object_to_instance {V = V} (manifest_json m rapid debug release) ≡ some m
  unfolding object_to_instance manifest_json convert_platforms lookup
  object_to_instance-manifest_json m rapid debug release h =
      rw
        (
          text_at_field laws (codes "name") _ refl refl,
          text_at_field laws (codes "description") _ refl refl,
          text_at_field laws (codes "license") _ refl refl,
          text_at_field laws (codes "category") _ refl refl,
          category_read m.category,
          find_field laws (codes "version") _ refl refl,
          version_read laws m.version h.version,
          find_field laws (codes "contacts") _ refl refl,
          laws.array_elements (map contact_json m.contacts),
          each-map convert_contact contact_json m.contacts
              (each_contact_read laws m.contacts h.roles),
          find_field laws (codes "platforms") _ refl refl,
          texts_at_field laws (codes "allow")
              ((codes "allow", texts m.platforms.allow)
                ∷ (codes "deny", texts m.platforms.deny)
                ∷ [])
              m.platforms.allow refl refl,
          texts_at_field laws (codes "deny")
              ((codes "allow", texts m.platforms.allow)
                ∷ (codes "deny", texts m.platforms.deny)
                ∷ [])
              m.platforms.deny refl refl,
          find_field laws (codes "optimization") _ refl refl,
          optimization_read laws rapid debug release m.optimization.requirements h.rapid_sets
              h.debug_sets h.release_sets h.requirements,
          find_field laws (codes "dependencies") _ refl refl,
          laws.array_elements (map dependency_json m.dependencies),
          each-map convert_dependency dependency_json m.dependencies
              (each_dependency_read laws m.dependencies h.dependencies),
          sym h.profiles,
        )
        refl

  -- The value is what `ToJson` prints, with a correct schema, and what `FromJson` reads as the manifest.
  pub manifest_json_reads :
      (spdx_identifiers : Table) (m : Manifest) (rapid debug release : Switch)
      → IsReadable m rapid debug release
      → is_valid_name m.name ≡ true
      → is_valid_license spdx_identifiers m.license ≡ true
      → All (λ d. validate_uuid d.uuid ≡ true) m.dependencies
      → let j = manifest_json {V = V} m rapid debug release in
        (to_json spdx_identifiers m ≡ some (j, true))
        × (from_json spdx_identifiers (some j) ≡ some (some m))
  unfolding from_json get_rapid get_debug get_release lookup insert required_profiles
  manifest_json_reads spdx_identifiers m rapid debug release h name license uuids =
      let words : AreWords m.optimization.requirements = (
        omega (arith, h.requirements.0),
        omega (arith, h.requirements.1),
        omega (arith, h.requirements.2),
      ) in
      (
        to_json_valid laws spdx_identifiers m name license uuids words (rw h.profiles refl)
            (rw h.profiles refl) (rw h.profiles refl),
        rw
            (
              manifest_json_valid laws spdx_identifiers m name license uuids words rapid debug
                  release,
              object_to_instance-manifest_json m rapid debug release h,
            )
            refl,
      )

  -- A manifest that loses nothing, with a valid name, a license of the table and valid identifiers of
  -- its dependencies is written with a correct schema, and reading what was written gives it back.
  pub from_json-to_json :
      (spdx_identifiers : Table) (m : Manifest) (rapid debug release : Switch)
      → IsReadable m rapid debug release
      → is_valid_name m.name ≡ true
      → is_valid_license spdx_identifiers m.license ≡ true
      → All (λ d. validate_uuid d.uuid ≡ true) m.dependencies
      → (j : V) × (to_json spdx_identifiers m ≡ some (j, true))
        × (from_json spdx_identifiers (some j) ≡ some (some m))
  from_json-to_json spdx_identifiers m rapid debug release h name license uuids =
      let (written, read) =
        manifest_json_reads spdx_identifiers m rapid debug release h name license uuids in
      (manifest_json m rapid debug release, written, read)
