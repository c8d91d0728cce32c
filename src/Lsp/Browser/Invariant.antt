-- ===== src/Lsp/Browser/Invariant.antt =====
-- The invariant of the table of open files, over any history of calls.
use no.Prelude.{
  ◌≡◌, refl, sym, ◌∙◌, inl, inr, Bool, true, false, Option, none, some, List, [], ◌∷◌, Bytes,
  Option-cases, Bool-cases, Checked, value, assert_failed,
}
use no.Prelude.Dict.{
  bytes_key, bytes_eq, bytes_eq_iff, lookup, insert, erase, HasDistinctKeys, lookup-insert,
  lookup-erase, HasDistinctKeys-insert, HasDistinctKeys-erase,
}
use no.Lsp.Text.{ConstFile}
use no.Lsp.Browser.{
  Files, apply_changes, did_open, did_change, did_changes, did_save, did_close, get_file,
}
use no.Lsp.Browser.Files.{Call, opens, changes_whole, changes_parts, saves, closes, call}

-- The keys are distinct, and each file is kept under its own name.
pub record IsValid (files : Files) : Type 0 where
  pub distinct : HasDistinctKeys files
  pub own_name : (j : Bytes) (f : ConstFile) → get_file j files ≡ some f → f.file_uri ≡ j

insert-IsValid :
    (uri : Bytes) (f : ConstFile) (files : Files)
    → f.file_uri ≡ uri
    → IsValid files
    → IsValid (insert uri f files)
unfolding get_file
insert-IsValid uri f files own v = record {
  distinct = HasDistinctKeys-insert uri f files v.distinct;
  own_name = λ j g e. elim (Bool-cases (bytes_eq uri j)) [
    | inl hit ↦
        let e' = rw hit at (sym (lookup-insert uri j f files) ∙ e) in
        let g_is : f ≡ g = cc in rw (← g_is) (own ∙ (bytes_eq_iff uri j).0 hit)
    | inr miss ↦ v.own_name j g (rw miss at (sym (lookup-insert uri j f files) ∙ e))
  ];
}

erase-IsValid : (uri : Bytes) (files : Files) → IsValid files → IsValid (erase uri files)
unfolding get_file
erase-IsValid uri files v = record {
  distinct = HasDistinctKeys-erase uri files v.distinct;
  own_name = λ j g e. elim (Bool-cases (bytes_eq uri j)) [
    | inl hit ↦
        let e' : ◌≡◌ {A = Option ConstFile} none (some g) =
          rw hit at (sym (lookup-erase uri j files v.distinct) ∙ e) in
        absurd (cc)
    | inr miss ↦ v.own_name j g (rw miss at (sym (lookup-erase uri j files v.distinct) ∙ e))
  ];
}

abbrev Keeps : Checked (Files × Bool) → Type 0
Keeps assert_failed = Unit {0}
Keeps (value (files, _)) = IsValid files

call-Keeps : (c : Call) (files : Files) → IsValid files → Keeps (call c files)
unfolding call
call-Keeps (opens uri version raw) files v = elim (Option-cases (lookup uri files)) [
  | inl e ↦ rw (e, call, did_open) (insert-IsValid uri _ files refl v)
  | inr (f, e) ↦ rw (e, call, did_open) v
]
call-Keeps (changes_whole uri version raw) files v = elim (Option-cases (lookup uri files)) [
  | inl e ↦ rw (e, call, did_change) v
  | inr (f, e) ↦ rw (e, call, did_change) (insert-IsValid uri _ files refl v)
]
call-Keeps (changes_parts uri version changes) files v = elim (Option-cases (lookup uri files)) [
  | inl e ↦ rw (e, call, did_changes) v
  | inr (f, e) ↦ rw (e, call, did_changes) (edited (apply_changes f.raw changes))
]
  where
    edited :
        (r : Checked (Option Bytes))
        → Keeps (elim r [
          | assert_failed ↦ assert_failed
          | value none ↦ value (files, false)
          | value (some state) ↦
              value
                (insert uri (record { file_uri = uri; version = version; raw = state }) files, true)
        ])
    edited assert_failed = tt
    edited (value none) = v
    edited (value (some state)) = insert-IsValid uri _ files refl v
call-Keeps (saves uri none) files v = elim (Option-cases (lookup uri files)) [
  | inl e ↦ rw (e, call, did_save) v
  | inr (f, e) ↦ rw (e, call, did_save) v
]
call-Keeps (saves uri (some content)) files v = elim (Option-cases (lookup uri files)) [
  | inl e ↦ rw (e, call, did_save) v
  | inr (f, e) ↦ rw (e, call, did_save) (insert-IsValid uri _ files refl v)
]
call-Keeps (closes uri) files v = elim (Option-cases (lookup uri files)) [
  | inl e ↦ rw (e, call, did_close) v
  | inr (f, e) ↦ rw (e, call, did_close) (erase-IsValid uri files v)
]

-- The calls in order; a failed assertion ends the program.
unfoldable pub history : List Call → Files → Checked Files
history [] files = value files
history (c ∷ cs) files = elim (call c files) [
  | assert_failed ↦ assert_failed
  | value (files', _) ↦ history cs files'
]

history-IsValid_from :
    (cs : List Call) (files : Files) {last : Files}
    → IsValid files
    → history cs files ≡ value last
    → IsValid last
unfolding history
history-IsValid_from [] files {last} v e = let same : files ≡ last = cc in rw (← same) v
history-IsValid_from (c ∷ cs) files {last} v e =
    after (call c files) (call-Keeps c files v) e (λ files'. history-IsValid_from cs files')
  where
    after :
        (r : Checked (Files × Bool))
        → Keeps r
        → ◌≡◌ {A = Checked Files}
            (elim r [ assert_failed ↦ assert_failed | value (files', _) ↦ history cs files' ])
            (value last)
        → ((files' : Files) → IsValid files' → history cs files' ≡ value last → IsValid last)
        → IsValid last
    after assert_failed k e' rest = absurd (cc)
    after (value (files', b)) k e' rest = rest files' k e'

-- After any history of calls from an empty browser that meets no failed assertion, the keys of the
-- table are distinct and each open file is kept under its own name.
pub history-IsValid : (cs : List Call) {files : Files} → history cs [] ≡ value files → IsValid files
unfolding get_file
history-IsValid cs e =
    history-IsValid_from cs []
      (record { distinct = tt; own_name = λ j f h. absurd (unfold lookup in cc) }) e
