-- ===== src/Impl.antt =====
-- The command `impl`: the dispatch of lib/src/impl/Run.cc and `config-check` of
-- lib/src/impl/ConfigParse.cc. What the option parser makes of the arguments is an argument, and so are
-- the subcommands that call the compiler.
pub mod ConfigCheck
pub mod Tests
use no.Prelude.{
  Bool, true, false, ◌||◌, Option, none, some, List, [], ◌∷◌, Bytes, codes, if◌then◌else◌, Checked,
  value, assert_failed,
}
use no.Prelude.Dict.{bytes_key, bytes_eq}
use no.Json.{Json}
use no.Format.Disk.{Disk}
use no.Package.Spdx.{Table}
use no.Package.Convert.{from_json}
use no.Package.Convert.Print.{to_json}

-- The map of the options; the output has a default.
pub record Options : Type 0 where
  pub help : Bool
  pub output : Bytes
  pub minify : Bool
  pub manifest_file : Option Bytes

pub data Subcommand : Type 0 where
  impl_help : Subcommand
  config_check : Subcommand
  self_test : Subcommand
  parse_source : Subcommand

unfoldable pub find_subcommand : Bytes → Option Subcommand
find_subcommand name =
    if bytes_eq name (codes "help")
      || (bytes_eq name (codes "--help") || bytes_eq name (codes "-h"))
    then some impl_help
    else if bytes_eq name (codes "config-check")
    then some config_check
    else if bytes_eq name (codes "self-test")
    then some self_test
    else if bytes_eq name (codes "parse")
    then some parse_source
    else none

module _ {S V : Type 0} (json : Json V) (dump_compact : V → Option Bytes) (disk : Disk S)
    (spdx_identifiers : Table) where
  open json use {parse, dump}
  open disk use {content, write_file, remove}

  abbrev pub text_of : Bool → V → Option Bytes
  text_of minify j = if minify then dump_compact j else dump j

  -- The standard output gets the text where the path is a dash.
  unfoldable pub write_output : Bytes → Bytes → S → (Bool × Option Bytes) × S
  write_output output text s =
      let written = write_file output text s in
      if bytes_eq output (codes "-")
      then ((true, some text), s)
      else if written.0
      then ((true, none), written.1)
      else ((false, none), (remove output written.1).1)

  -- Whether it succeeds, and the text on the standard output.
  unfoldable pub check_file : Options → Bytes → S → Checked (Bool × Option Bytes) × S
  check_file vm manifest_file s = elim (content manifest_file s) [
    | none ↦ (value (false, none), s)
    | some text ↦ elim (from_json ⦃json = json⦄ spdx_identifiers (parse text)) [
      | none ↦ (assert_failed, s)
      | some none ↦ (value (false, none), s)
      | some (some manifest) ↦ elim (to_json ⦃json = json⦄ spdx_identifiers manifest) [
        | none ↦ (assert_failed, s)
        | some (j, correct_schema) ↦ elim (text_of vm.minify j) [
          | none ↦ (assert_failed, s)
          | some printed ↦
              let result = write_output vm.output printed s in
              if correct_schema then (value result.0, result.1) else (value (false, none), s)
        ]
      ]
    ]
  ]

  unfoldable pub command_impl_config_parse : Option Options → S → Checked (Bool × Option Bytes) × S
  command_impl_config_parse none s = (value (false, none), s)
  command_impl_config_parse (some vm) s =
      if vm.help then (value (true, none), s) else elim (vm.manifest_file) [
        | none ↦ (value (false, none), s)
        | some manifest_file ↦ check_file vm manifest_file s
      ]

  -- The subcommand of a name is run on the arguments from its name on.
  module _ (options : List Bytes → Option Options)
      (run_self_test run_parse : List Bytes → S → Checked (Bool × Option Bytes) × S)
      (help_text : Bytes) where
    unfoldable pub run_subcommand : Subcommand → List Bytes → S → Checked (Bool × Option Bytes) × S
    run_subcommand impl_help argv s = (value (true, some help_text), s)
    run_subcommand config_check argv s = command_impl_config_parse (options argv) s
    run_subcommand self_test argv s = run_self_test argv s
    run_subcommand parse_source argv s = run_parse argv s

    unfoldable pub command_impl : List Bytes → S → Checked (Bool × Option Bytes) × S
    command_impl [] s = (value (false, none), s)
    command_impl (_ ∷ []) s = (value (false, none), s)
    command_impl (_ ∷ name ∷ argv) s = elim (find_subcommand name) [
      | none ↦ (value (false, none), s)
      | some subcommand ↦ run_subcommand subcommand (name ∷ argv) s
    ]
