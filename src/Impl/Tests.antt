-- ===== src/Impl/Tests.antt =====
-- The command `impl` on small inputs.
use no.Prelude.{true, false, none, some, Option, [], ◌∷◌, Bytes, codes, ◌≡◌, value, refl}
use no.Prelude.Dict.{bytes_key, lookup}
use no.Json.Sample.{Value, sample_json, print, json_that_parses, json_that_parses-JsonLaws}
use no.Format.Tests.{Files, sample_disk}
use no.Package.Regex.{regex_match}
use no.Package.Spdx.{is_exact_spdx_license_match}
use no.Package.Manifest.{new_manifest, new_switch}
use no.Package.Validate.{is_valid_name, is_valid_license, validate_uuid}
use no.Package.Convert.Print.{
  manifest_json, contact_json, switch_json, requirements_json, dependency_json,
}
use no.Package.Convert.Tests.{licenses, a_manifest, a_manifest-IsReadable}
use no.Impl.{Options, find_subcommand, config_check, impl_help, command_impl_config_parse}
use no.Impl.ConfigCheck.{command_impl_config_parse_same}

names :
    (find_subcommand (codes "config-check") ≡ some config_check)
    × (find_subcommand (codes "-h") ≡ some impl_help)
    × (find_subcommand (codes "fly") ≡ none)
unfolding find_subcommand
names = (refl, refl, refl)

abbrev written : Value
written = manifest_json a_manifest new_switch new_switch new_switch

abbrev one_text : Bytes → Option Value
one_text text = some written

abbrev files : Files
files = (codes "/no3.json", print written) ∷ []

abbrev options : Options
options = record {
  help = false;
  output = codes "-";
  minify = false;
  manifest_file = some (codes "/no3.json");
}

command_impl_config_parse_same_example :
    command_impl_config_parse
      (json_that_parses one_text)
      (λ v. none)
      sample_disk
      licenses
      (some options)
      files
    ≡ (value (true, some (print written)), files)
unfolding new_manifest is_valid_name regex_match is_valid_license is_exact_spdx_license_match lookup
    validate_uuid manifest_json contact_json switch_json requirements_json dependency_json
command_impl_config_parse_same_example =
    command_impl_config_parse_same (json_that_parses one_text) (json_that_parses-JsonLaws one_text)
      (λ v. none) sample_disk licenses a_manifest new_switch new_switch new_switch
      a_manifest-IsReadable refl refl (refl, tt) (codes "/no3.json") (print written) files refl refl
      refl
