-- ===== src/Format/Arguments.antt =====
-- What the command `format` is to do, and the command itself: `ParseArguments`, `DecodeArguments`,
-- `FormulateFileMapping` and `CommandFormat` of lib/src/format/core/Run.cc. What the option parser makes of
-- the arguments, `lexically_relative` and the random strings are arguments.
use no.Prelude.{
  ℕ, ◌+◌, Bool, true, false, not, ◌&&◌, ◌||◌, Option, none, some, List, [], ◌∷◌, Bytes, codes, ltb,
  ◌==◌, length, if◌then◌else◌, Checked, value, assert_failed,
}
use no.Prelude.Dict.{bytes_key, bytes_eq, insert}
use no.Json.{Json}
use no.FileSystem.{join}
use no.Package.Spdx.{Table}
use no.Package.Convert.{from_json}
use no.Format.Disk.{Disk, has_slash}
use no.Format.File.{
  FormatMode, standard, minify, deflate, Compiler, safe_check_file_exists, format_files,
}
use no.Format.Config.{load_configuration_file}

-- The map of the options.
pub record Arguments : Type 0 where
  pub help : Bool
  pub std : Bool
  pub minify : Bool
  pub deflate : Bool
  pub config : Option Bytes
  pub output : Option Bytes
  pub path : Option Bytes

pub record FormatOptions : Type 0 where
  pub mode : FormatMode
  pub source_path : Bytes
  pub output_path : Bytes
  pub config_path : Option Bytes

abbrev count : Bool → ℕ
count false = 0
count true = 1

abbrev or_else : Option Bytes → Bytes → Bytes
or_else none path = path
or_else (some p) path = p

-- The value of `failed` with the options.
unfoldable pub parse_arguments : Option Arguments → Bool × Option FormatOptions
parse_arguments none = (true, none)
parse_arguments (some vm) = if vm.help then (false, none) else elim (vm.path) [
  | none ↦ (true, none)
  | some path ↦
      if ltb 1 (count vm.std + (count vm.minify + count vm.deflate)) then (true, none) else (
        false,
        some (record {
          mode =
              if vm.std
              then standard
              else if vm.minify
              then minify
              else if vm.deflate
              then deflate
              else standard;
          source_path = path;
          output_path = or_else vm.output path;
          config_path = vm.config;
        }),
      )
]

-- The last name of a path.
abbrev filename : Bytes → Bytes
filename [] = []
filename (c ∷ path) = let rest = filename path in if has_slash (c ∷ path) then rest else c ∷ path

abbrev ends_with : Bytes → Bytes → Bool
ends_with suffix [] = bytes_eq suffix []
ends_with suffix (c ∷ text) = bytes_eq suffix (c ∷ text) || ends_with suffix text

-- `path.extension() == ".nit"`; a name that starts with its only dot has no extension.
abbrev pub is_source_file : Bytes → Bool
is_source_file path = ends_with (codes ".nit") (filename path) && ltb 4 (length (filename path))

abbrev is_none : {A : Type 0} → Option A → Bool
is_none none = true
is_none (some _) = false

abbrev FileMapping : Type 0
FileMapping = List (Bytes × Bytes)

-- A random string for each file.
abbrev with_strings : List Bytes → FileMapping → List (Bytes × Bytes × Bytes)
with_strings strings [] = []
with_strings [] ((src, dst) ∷ mapping) = ([], src, dst) ∷ with_strings [] mapping
with_strings (r ∷ strings) ((src, dst) ∷ mapping) = (r, src, dst) ∷ with_strings strings mapping

module _ {S V Tree : Type 0} (json : Json V) (disk : Disk S) (compiler : Compiler Tree)
    (spdx_identifiers : Table) (relative : Bytes → Bytes → Bytes) where
  open json use {parse}
  open disk use {
    exists, is_directory, is_regular_file, create_directories, absolute, content, contents,
  }

  -- The name in the manifest of a directory, where there is a manifest that can be read.
  unfoldable pub import_name : Bytes → S → Checked (Option Bytes)
  import_name source_path s = elim (content (join source_path (codes "no3.json")) s) [
    | none ↦ value none
    | some text ↦ elim (from_json ⦃json = json⦄ spdx_identifiers (parse text)) [
      | none ↦ assert_failed
      | some none ↦ value none
      | some (some manifest) ↦ value (some manifest.name)
    ]
  ]

  unfoldable pub map_sources : FormatOptions → List Bytes → FileMapping → FileMapping
  map_sources options [] paths = paths
  map_sources options (path ∷ more) paths = map_sources options more (
      if is_source_file path
      then insert path (join options.output_path (relative path options.source_path)) paths
      else paths)

  unfoldable pub formulate_file_mapping :
      Bool → FormatOptions → S → Checked (Option (FileMapping × Option Bytes))
  formulate_file_mapping is_dir options s =
      if is_dir
      then elim (contents options.source_path s) [
        | none ↦ value none
        | some files ↦ elim (import_name options.source_path s) [
          | assert_failed ↦ assert_failed
          | value name ↦ value (some (map_sources options files [], name))
        ]
      ]
      else value (some ((options.source_path, options.output_path) ∷ [], none))

  -- The configuration file: the given one, or the one in a source directory.
  unfoldable pub find_config : Bool → FormatOptions → S → Option Bytes
  find_config is_dir options s =
      let default_path = join options.source_path (codes "format.json") in
      if is_dir
        && (is_none options.config_path && safe_check_file_exists compiler disk default_path s)
      then some default_path
      else options.config_path

  unfoldable pub has_good_config : Option Bytes → S → Bool
  has_good_config none s = true
  has_good_config (some config_path) s =
      safe_check_file_exists compiler disk config_path s
      && (elim (is_regular_file config_path s) [ none ↦ false | some regular ↦ regular ]
          && elim (load_configuration_file ⦃json = json⦄ disk config_path s) [
            | none ↦ false
            | some _ ↦ true
          ])

  -- The output directory of a source directory, which is made where it is missing.
  unfoldable pub create_output_directory : Bool → Bytes → S → Bool × S
  create_output_directory is_dir output_path s =
      let created = create_directories output_path s in
      if is_dir && not (safe_check_file_exists compiler disk output_path s)
      then (elim (created.0) [ none ↦ false | some done ↦ done ], created.1)
      else (true, s)

  unfoldable pub decode_arguments :
      FormatOptions → S → Checked (Option (FileMapping × Option Bytes)) × S
  decode_arguments options s =
      let source_path = absolute options.source_path s in
      if safe_check_file_exists compiler disk options.source_path s
      then elim (is_directory source_path s) [
        | none ↦ (value none, s)
        | some is_dir ↦
            let output = create_output_directory is_dir options.output_path s in
            let full : FormatOptions = record options {
              source_path = source_path;
              output_path = absolute options.output_path output.1;
            } in
            if output.0
            then (if has_good_config (find_config is_dir full output.1) output.1
                then (formulate_file_mapping is_dir full output.1, output.1)
                else (value none, output.1))
            else (value none, output.1)
      ]
      else (value none, s)

  unfoldable pub command_format : List Bytes → Option Arguments → S → Checked Bool × S
  command_format strings vm s = elim ((parse_arguments vm).1) [
    | none ↦ (value (not (parse_arguments vm).0), s)
    | some options ↦ elim ((decode_arguments options s).0) [
      | assert_failed ↦ (assert_failed, (decode_arguments options s).1)
      | value none ↦ (value false, (decode_arguments options s).1)
      | value (some ([], name)) ↦ (value true, (decode_arguments options s).1)
      | value (some (file ∷ files, name)) ↦
          let result =
            format_files compiler disk options.mode (with_strings strings (file ∷ files)) 0
              (decode_arguments options s).1 in
          (value (result.0 == 0), result.1)
    ]
  ]
