-- ===== src/Version/Tests.antt =====
-- The command `version` at concrete arguments.
use no.Prelude.{◌≡◌, refl, some, none, true, false, [], ◌∷◌, codes, List, Bytes}
use no.Prelude.Results.{each}
use no.Prelude.Dict.{lookup}
use no.Json.Sample.{sample_json, sample_json-JsonLaws}
use no.Version.{
  core, ir_beta, Build, Libraries, get_software_components, get_software_version_array,
  command_version,
}
use no.Version.Names.{shown_name, get_software_version_array-names}

abbrev a_build : Build
a_build = record {
  major = 1;
  minor = 2;
  patch = 3;
  commit = codes "0a";
  build_date = codes "today";
  branch = codes "main";
}

abbrev libraries : Libraries
libraries = record {
  core_library = a_build;
  lexer_library = a_build;
  seq_library = a_build;
  parse_library = a_build;
}

abbrev asked : List Bytes
asked = codes "IRBeta" ∷ codes "Core" ∷ []

get_software_version_array-names_example :
    each (shown_name sample_json sample_json-JsonLaws libraries) (
      sample_json.elements (get_software_version_array sample_json libraries (ir_beta ∷ core ∷ [])))
    ≡ some asked
unfolding get_software_components each lookup
get_software_version_array-names_example =
    get_software_version_array-names sample_json sample_json-JsonLaws libraries asked refl

-- JSON output is asked for where it must be small.
minify_alone :
    command_version sample_json libraries (
      some (record {
        help = false;
        of_names = none;
        system_info = false;
        minify = true;
        brief = false;
        json = false;
      }))
    ≡ (none, false)
unfolding command_version get_software_components each lookup
minify_alone = refl
