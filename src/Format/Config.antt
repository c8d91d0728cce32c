-- ===== src/Format/Config.antt =====
-- The configuration of the formatter: `ValidateConfiguration`, `AssignDefaultConfigurationSettings` and
-- `LoadConfigurationFile` of lib/src/format/core/Run.cc. A `schema_assert` returns false where its
-- condition fails.
use no.Prelude.{
  pos, ℕ, Bool, true, false, ◌&&◌, ◌||◌, Option, none, some, [], Bytes, codes, ◌==◌, all,
  if◌then◌else◌,
}
use no.Prelude.Dict.{bytes_eq}
use no.Json.{Json}
use no.Package.Validate.{has}
use no.Format.Disk.{Disk}

module _ {V : Type 0} ⦃json : Json V⦄ where
  open json use {
    is_object, is_string, is_boolean, is_number_unsigned, find, items, get_uint64, set, object,
    string, integer, boolean, parse,
  }

  -- `j[key].get<size_t>() == number`
  abbrev number_is : ℕ → V → Bool
  number_is number v = elim (get_uint64 v) [ none ↦ false | some n ↦ n == number ]

  abbrev version_object : V → Bool
  version_object v =
      is_object v
      && (has (codes "major") is_number_unsigned v
          && (has (codes "minor") is_number_unsigned v
              && (has (codes "major") (number_is 1) v && has (codes "minor") (number_is 0) v)))

  -- Every key of an object passes a test together with its value.
  abbrev each_entry : (Bytes → V → Bool) → V → Bool
  each_entry ok v = is_object v && all (λ entry. ok entry.0 entry.1) (items v)

  abbrev indentation_object : V → Bool
  indentation_object v =
      is_object v && (has (codes "size") is_number_unsigned v && has (codes "byte") is_string v)

  abbrev whitespace_entry : Bytes → V → Bool
  whitespace_entry key v = bytes_eq key (codes "indentation") && indentation_object v

  -- The entries of one kind of comment, with the name of the entry that says to turn it into the other.
  abbrev comment_entry : Bytes → Bytes → V → Bool
  comment_entry convert key v =
      if bytes_eq key (codes "start") || bytes_eq key (codes "end")
      then is_string v
      else bytes_eq key convert && is_boolean v

  abbrev comments_entry : Bytes → V → Bool
  comments_entry key v =
      if bytes_eq key (codes "line")
      then each_entry (comment_entry (codes "convert-to-block")) v
      else bytes_eq key (codes "block") && each_entry (comment_entry (codes "convert-to-line")) v

  abbrev configuration_entry : Bytes → V → Bool
  configuration_entry key v =
      if bytes_eq key (codes "version")
      then true
      else if bytes_eq key (codes "whitespace")
      then each_entry whitespace_entry v
      else bytes_eq key (codes "comments") && each_entry comments_entry v

  unfoldable pub validate_configuration : V → Bool
  validate_configuration j =
      is_object j
      && (has (codes "version") version_object j
          && all (λ entry. configuration_entry entry.0 entry.1) (items j))

  -- `j[key]`, which makes the value where it is missing; a new one becomes an object when it is written to.
  abbrev child : Bytes → V → V
  child key j = elim (find key j) [ none ↦ object [] | some v ↦ v ]

  -- `j[first][second][key] = v`
  abbrev set_in : Bytes → Bytes → Bytes → V → V → V
  set_in first second key v j =
      set first (set second (set key v (child second (child first j))) (child first j)) j

  unfoldable pub assign_default_configuration_settings : V → V
  assign_default_configuration_settings j =
      let line = codes "line" in
      let block = codes "block" in
      let comments = codes "comments" in
      set_in comments block (codes "convert-to-line") (boolean false) (
        set_in comments block (codes "end") (string (codes "*/")) (
          set_in comments block (codes "start") (string (codes "/*")) (
            set_in comments line (codes "convert-to-block") (boolean true) (
              set_in comments line (codes "end") (string []) (
                set_in comments line (codes "start") (string (codes "//")) (
                  set_in (codes "whitespace") (codes "indentation") (codes "byte")
                    (string (codes " "))
                    (set_in (codes "whitespace") (codes "indentation") (codes "size")
                      (integer (pos 2)) j)))))))

  -- None where the file does not open, its text is no JSON, or the configuration is not valid.
  unfoldable pub load_configuration_file : {S : Type 0} → Disk S → Bytes → S → Option V
  load_configuration_file disk path s = elim (disk.content path s) [
    | none ↦ none
    | some config_contents ↦ elim (parse config_contents) [
      | none ↦ none
      | some config ↦
          if validate_configuration config
          then some (assign_default_configuration_settings config)
          else none
    ]
  ]
