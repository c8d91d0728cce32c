-- ===== src/Lsp/Browser/Files.antt =====
-- What each method of the browser does to every file, and the invariant of the map.
use no.Prelude.{
  ◌≡◌, refl, inl, inr, Bool, true, false, Option, none, some, List, Bytes, arith, if◌then◌else◌,
  Option-cases, Checked, value, assert_failed, ℤ,
}
use no.Prelude.Dict.{
  bytes_key, bytes_eq, bytes_eq_iff, lookup, insert, HasDistinctKeys, lookup-insert, lookup-erase,
}
use no.Lsp.Text.{ConstFile}
use no.Lsp.Browser.{
  Files, ContentChange, transform_to_lf, apply_changes, did_open, did_change, did_changes, did_save,
  did_close, get_file,
}

-- The calls that change the map of open files.
pub data Call : Type 0 where
  opens : Bytes → ℤ → Bytes → Call
  changes_whole : Bytes → ℤ → Bytes → Call
  changes_parts : Bytes → ℤ → List ContentChange → Call
  saves : Bytes → Option Bytes → Call
  closes : Bytes → Call

unfoldable pub call : Call → Files → Checked (Files × Bool)
unfolding did_open did_change did_changes did_save did_close
call (opens uri version raw) files = value (did_open uri version raw files)
call (changes_whole uri version raw) files = value (did_change uri version raw files)
call (changes_parts uri version changes) files = did_changes uri version changes files
call (saves uri content) files = value (did_save uri content files)
call (closes uri) files = value (did_close uri files)

-- The specification: documents as a function of their name, with no table.
abbrev pub Documents : Type 0
Documents = Bytes → Option ConstFile

abbrev pub update : Bytes → Option ConstFile → Documents → Documents
update uri file documents = λ j. if bytes_eq uri j then file else documents j

-- A document of this name, version and content.
abbrev document : Bytes → ℤ → Bytes → Option ConstFile
document uri version raw = some (record { file_uri = uri; version = version; raw = raw })

-- What a call asks of the document that it names: the new document and the answer.
abbrev pub specified : Call → Option ConstFile → Checked (Option ConstFile × Bool)
specified (opens uri version raw) none = value (document uri version (transform_to_lf raw), true)
specified (opens uri version raw) (some f) = value (some f, false)
specified (changes_whole uri version raw) none = value (none, false)
specified (changes_whole uri version raw) (some f) = value (document uri version raw, true)
specified (changes_parts uri version changes) none = value (none, false)
specified (changes_parts uri version changes) (some f) = elim (apply_changes f.raw changes) [
  | assert_failed ↦ assert_failed
  | value none ↦ value (some f, false)
  | value (some raw) ↦ value (document uri version raw, true)
]
specified (saves uri content) none = value (none, true)
specified (saves uri none) (some f) = value (some f, true)
specified (saves uri (some content)) (some f) = value (document uri f.version content, true)
specified (closes uri) none = value (none, false)
specified (closes uri) (some f) = value (none, true)

abbrev pub named : Call → Bytes
named (opens uri _ _) = uri
named (changes_whole uri _ _) = uri
named (changes_parts uri _ _) = uri
named (saves uri _) = uri
named (closes uri) = uri

-- The outcome of a call on a table stands for an outcome of the specification.
abbrev pub Refines :
    Bytes → Files → Checked (Files × Bool) → Checked (Option ConstFile × Bool) → Type 0
Refines uri files assert_failed (value _) = ⊥
Refines uri files (value _) assert_failed = ⊥
Refines uri files assert_failed assert_failed = Unit {0}
Refines uri files (value (files', answer)) (value (file, answer')) =
    (answer ≡ answer')
    × ((j : Bytes) → get_file j files' ≡ update uri file (λ k. get_file k files) j)

update_same :
    (uri j : Bytes) (files : Files) (file : Option ConstFile)
    → get_file uri files ≡ file
    → get_file j files ≡ update uri file (λ k. get_file k files) j
update_same uri j files file e = ground (arith, bytes_eq_iff uri j)

-- Every call, on a table with distinct keys, answers as specified, gives the named document its
-- specified content (or takes it away) and leaves every other document alone; it meets a failed
-- assertion exactly where the specification does.
pub call-Refines :
    (c : Call) (files : Files)
    → HasDistinctKeys files
    → Refines (named c) files (call c files) (specified c (get_file (named c) files))
unfolding call get_file
call-Refines (opens uri version raw) files h = elim (Option-cases (lookup uri files)) [
  | inl e ↦ rw (e, call, did_open) (refl, λ j. lookup-insert uri j _ files)
  | inr (f, e) ↦ rw (e, call, did_open) (refl, λ j. update_same uri j files (some f) e)
]
call-Refines (changes_whole uri version raw) files h = elim (Option-cases (lookup uri files)) [
  | inl e ↦ rw (e, call, did_change) (refl, λ j. update_same uri j files none e)
  | inr (f, e) ↦ rw (e, call, did_change) (refl, λ j. lookup-insert uri j _ files)
]
call-Refines (changes_parts uri version changes) files h = elim (Option-cases (lookup uri files)) [
  | inl e ↦ rw (e, call, did_changes) (refl, λ j. update_same uri j files none e)
  | inr (f, e) ↦ rw (e, call, did_changes) (edited f e (apply_changes f.raw changes))
]
  where
    edited :
        (f : ConstFile)
        → lookup uri files ≡ some f
        → (r : Checked (Option Bytes))
        → Refines uri files
            (elim r [
              | assert_failed ↦ assert_failed
              | value none ↦ value (files, false)
              | value (some state) ↦ value (
                insert uri (record { file_uri = uri; version = version; raw = state }) files,
                true,
              )
            ])
            (elim r [
              | assert_failed ↦ assert_failed
              | value none ↦ value (some f, false)
              | value (some raw) ↦ value (document uri version raw, true)
            ])
    edited f e assert_failed = tt
    edited f e (value none) = (refl, λ j. update_same uri j files (some f) e)
    edited f e (value (some state)) = (refl, λ j. lookup-insert uri j _ files)
call-Refines (saves uri none) files h = elim (Option-cases (lookup uri files)) [
  | inl e ↦ rw (e, call, did_save) (refl, λ j. update_same uri j files none e)
  | inr (f, e) ↦ rw (e, call, did_save) (refl, λ j. update_same uri j files (some f) e)
]
call-Refines (saves uri (some content)) files h = elim (Option-cases (lookup uri files)) [
  | inl e ↦ rw (e, call, did_save) (refl, λ j. update_same uri j files none e)
  | inr (f, e) ↦ rw (e, call, did_save) (refl, λ j. lookup-insert uri j _ files)
]
call-Refines (closes uri) files h = elim (Option-cases (lookup uri files)) [
  | inl e ↦ rw (e, call, did_close) (refl, λ j. update_same uri j files none e)
  | inr (f, e) ↦ rw (e, call, did_close) (refl, λ j. lookup-erase uri j files h)
]
