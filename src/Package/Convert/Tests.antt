-- ===== src/Package/Convert/Tests.antt =====
-- A manifest that is written and read, and patterns.
use no.Prelude.{codes, ◌≡◌, ◌↔◌, refl, some, true, [], ◌∷◌, arith}
use no.Prelude.Dict.{bytes_key, lookup, insert}
use no.Json.Sample.{Value, text, sample_json, sample_json-JsonLaws}
use no.Package.Regex.{regex_match}
use no.Package.Spdx.{Table, is_exact_spdx_license_match}
use no.Package.Manifest.{
  Manifest, new_manifest, new_switch, executable, owner, maintainer, required_profiles,
  new_optimization, Contact, Dependency,
}
use no.Package.Manifest.Setters.{set_license, add_contact, add_dependency}
use no.Package.Validate.{validate_sem_version, is_valid_name, is_valid_license, validate_uuid}
use no.Package.Convert.{from_json}
use no.Package.Convert.Grammar.{VersionText, validate_sem_version_accepts}
use no.Package.Convert.RoundTrip.{IsReadable, from_json-to_json}
use no.Package.Convert.Print.{to_json}

abbrev pub licenses : Table
licenses = (codes "mit", codes "MIT") ∷ []

abbrev someone : Contact
someone = record {
  name = codes "Jo";
  email = codes "jo@x";
  roles = owner ∷ maintainer ∷ [];
  phone = some (codes "1");
}

abbrev a_dependency : Dependency
a_dependency = record {
  uuid = codes "01234567-89ab-cdef-0123-456789abcdef";
  version = record { major = 1; minor = 2; patch = 0 };
}

abbrev pub a_manifest : Manifest
a_manifest = add_dependency a_dependency (
    add_contact someone
      (set_license (codes "MIT") (new_manifest (codes "@gh-user/tool") executable)))

pub a_manifest-IsReadable : IsReadable a_manifest new_switch new_switch new_switch
unfolding new_manifest new_optimization required_profiles insert
a_manifest-IsReadable = record {
  profiles = refl;
  rapid_sets = (tt, tt, tt, tt, tt, tt);
  debug_sets = (tt, tt, tt, tt, tt, tt);
  release_sets = (tt, tt, tt, tt, tt, tt);
  requirements = (omega arith, omega arith, omega arith);
  version = (omega arith, omega arith, omega arith);
  roles = (((refl, tt), (tt, tt)), tt);
  dependencies = ((omega arith, omega arith, omega arith), tt);
}

from_json-to_json_example :
    (j : Value) × (to_json licenses a_manifest ≡ some (j, true))
    × (from_json licenses (some j) ≡ some (some a_manifest))
unfolding new_manifest is_valid_name regex_match is_valid_license is_exact_spdx_license_match lookup
    validate_uuid
from_json-to_json_example =
    from_json-to_json sample_json-JsonLaws licenses a_manifest new_switch new_switch new_switch
      a_manifest-IsReadable refl refl (refl, tt)

abbrev version_value : Value
version_value = text (codes "1.20")

validate_sem_version_accepts_example :
    (validate_sem_version ⦃json = sample_json⦄ version_value ≡ true) ↔ VersionText (codes "1.20")
validate_sem_version_accepts_example =
    validate_sem_version_accepts sample_json version_value (codes "1.20") refl refl
