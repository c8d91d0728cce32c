-- ===== src/Lsp/Browser.antt =====
-- Open documents: lib/src/lsp/resource/FileBrowser.cc, with the change events of
-- lib/src/lsp/protocol/TextDocument.hh. Each method runs under the browser's mutex, so it is one step:
-- a function from the map of open files to the new map and the answer. A `shared_ptr` to a `ConstFile`
-- is the file itself, since a `ConstFile` never changes.
pub mod Edits
pub mod WellFormed
pub mod Files
pub mod Invariant
pub mod LineFeeds
pub mod Tests
use no.Prelude.{
  ℕ, ◌+◌, ◌-◌, ◌%◌, ◌^◌, Bool, true, false, Option, none, some, List, [], ◌∷◌, ◌++◌, Bytes, ltb,
  ◌==◌, if◌then◌else◌, length, take, drop, Checked, value, assert_failed, ℤ,
}
use no.Prelude.Dict.{bytes_key, bytes_eq, bytes_eq_iff, lookup, insert, erase}
use no.Lsp.Text.{ConstFile, get_offset}

pub record Position : Type 0 where
  pub line : ℕ
  pub character : ℕ

-- From `start`, up to and without `end_ex`.
pub record Range : Type 0 where
  pub start : Position
  pub end_ex : Position

pub record ContentChange : Type 0 where
  pub range : Range
  pub text : Bytes

abbrev pub Files : Type 0
Files = List (Bytes × ConstFile)

-- `TransformUTF8ToLF`
unfoldable pub transform_to_lf : Bytes → Bytes
transform_to_lf [] = []
transform_to_lf (ch ∷ []) = (if ch == b'\r' then b'\n' else ch) ∷ []
transform_to_lf (ch ∷ next ∷ rest) = elim (ch == b'\r') [
  | true ↦ elim (next == b'\n') [
    | true ↦ b'\n' ∷ transform_to_lf rest
    | false ↦ b'\n' ∷ transform_to_lf (next ∷ rest)
  ]
  | false ↦ ch ∷ transform_to_lf (next ∷ rest)
]

abbrev new_file : Bytes → ℤ → Bytes → ConstFile
new_file uri version raw = record { file_uri = uri; version = version; raw = raw }

unfoldable pub did_open : Bytes → ℤ → Bytes → Files → Files × Bool
did_open uri version raw files = elim (lookup uri files) [
  | some _ ↦ (files, false)
  | none ↦ (insert uri (new_file uri version (transform_to_lf raw)) files, true)
]

unfoldable pub did_change : Bytes → ℤ → Bytes → Files → Files × Bool
did_change uri version raw files = elim (lookup uri files) [
  | none ↦ (files, false)
  | some _ ↦ (insert uri (new_file uri version raw) files, true)
]

-- `state.replace(start, n, text)`, which stops at the end of the state.
abbrev pub replace : Bytes → (start n : ℕ) → Bytes → Bytes
replace state start n text = take start state ++ (text ++ drop (start + n) state)

-- The bounds tests and the replacement; `n` is computed in `uint64_t`.
unfoldable pub splice : Bytes → (start end_plus_one : ℕ) → Bytes → Option Bytes
splice state start end_plus_one text =
    let n = (end_plus_one + 2 ^ 64 - start) % 2 ^ 64 in
    if ltb (length state) start
    then none
    else if ltb (length state) n
    then none
    else some (replace state start n text)

-- One round of the loop of `DidChanges` on the temporary state.
unfoldable pub apply_change : Bytes → ContentChange → Checked (Option Bytes)
unfolding splice
apply_change state change =
    elim (get_offset state change.range.start.line change.range.start.character) [
      | assert_failed ↦ assert_failed
      | value none ↦ value none
      | value (some start) ↦
          elim (get_offset state change.range.end_ex.line change.range.end_ex.character) [
            | assert_failed ↦ assert_failed
            | value none ↦ value none
            | value (some end_plus_one) ↦ value (splice state start end_plus_one change.text)
          ]
    ]

unfoldable pub apply_changes : Bytes → List ContentChange → Checked (Option Bytes)
unfolding apply_change
apply_changes state [] = value (some state)
apply_changes state (change ∷ changes) = elim (apply_change state change) [
  | assert_failed ↦ assert_failed
  | value none ↦ value none
  | value (some state') ↦ apply_changes state' changes
]

unfoldable pub did_changes : Bytes → ℤ → List ContentChange → Files → Checked (Files × Bool)
unfolding apply_changes
did_changes uri version changes files = elim (lookup uri files) [
  | none ↦ value (files, false)
  | some file ↦ elim (apply_changes file.raw changes) [
    | assert_failed ↦ assert_failed
    | value none ↦ value (files, false)
    | value (some state) ↦ value (insert uri (new_file uri version state) files, true)
  ]
]

unfoldable pub did_save : Bytes → Option Bytes → Files → Files × Bool
did_save uri full_content files = elim (lookup uri files) [
  | none ↦ (files, true)
  | some file ↦ elim full_content [
    | none ↦ (files, true)
    | some content ↦ (insert uri (new_file uri file.version content) files, true)
  ]
]

unfoldable pub did_close : Bytes → Files → Files × Bool
did_close uri files = elim (lookup uri files) [
  | none ↦ (files, false)
  | some _ ↦ (erase uri files, true)
]

unfoldable pub get_file : Bytes → Files → Option ConstFile
get_file uri files = lookup uri files
