-- ===== src/Impl/ConfigCheck.antt =====
-- What `config-check` of lib/src/impl/ConfigParse.cc does with a manifest that `ToJson` of
-- lib/src/core/package/Manifest.cc writes.
use no.Prelude.{true, false, Option, some, Bytes, codes, ◌≡◌, refl, All, value}
use no.Prelude.Dict.{bytes_key}
use no.Json.{Json, JsonLaws}
use no.Format.Disk.{Disk}
use no.Package.Spdx.{Table}
use no.Package.Manifest.{Switch, Manifest}
use no.Package.Validate.{is_valid_name, is_valid_license, validate_uuid}
use no.Package.Convert.Print.{manifest_json}
use no.Package.Convert.RoundTrip.{IsReadable, manifest_json_reads}
use no.Impl.{command_impl_config_parse, check_file, write_output}

-- Let a valid manifest lose nothing, let the file hold the dump of the value that `to_json` writes for
-- it, and let `parse` read the dump as the value. Then `config-check` of the file, with the standard
-- output and not minified, succeeds, prints the text of the file and changes no file.
pub command_impl_config_parse_same :
    {S V : Type 0} (json : Json V) (laws : JsonLaws json) (dump_compact : V → Option Bytes)
    (disk : Disk S) (spdx_identifiers : Table) (m : Manifest) (rapid debug release : Switch)
    → IsReadable m rapid debug release
    → is_valid_name m.name ≡ true
    → is_valid_license spdx_identifiers m.license ≡ true
    → All (λ d. validate_uuid d.uuid ≡ true) m.dependencies
    → (manifest_file text : Bytes) (s : S)
    → json.dump (manifest_json ⦃json = json⦄ m rapid debug release) ≡ some text
    → json.parse text ≡ some (manifest_json ⦃json = json⦄ m rapid debug release)
    → disk.content manifest_file s ≡ some text
    → command_impl_config_parse json dump_compact disk spdx_identifiers
        (some (record {
          help = false;
          output = codes "-";
          minify = false;
          manifest_file = some manifest_file;
        }))
        s
      ≡ (value (true, some text), s)
unfolding command_impl_config_parse check_file write_output
command_impl_config_parse_same json laws dump_compact disk spdx_identifiers m rapid debug release h
      name license uuids manifest_file text s dumped parsed there =
    let (written, read) =
      manifest_json_reads ⦃json = json⦄ laws spdx_identifiers m rapid debug release h name license
        uuids in
    rw (command_impl_config_parse, check_file, there, parsed, read, written, dumped) refl
