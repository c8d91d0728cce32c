-- ===== src/Format/InPlace.antt =====
-- What formatting a file in its place does to it: lib/src/format/core/Run.cc.
use no.Prelude.{
  ℕ, Bool, true, false, none, some, ◌∷◌, ◌++◌, Bytes, ◌≡◌, ◌≢◌, ◌⊎◌, inl, inr, refl, ◌∙◌, arith,
  Option-cases, Bool-cases,
}
use no.Format.Disk.{Disk, DiskLaws, has_slash}
use no.Format.File.{
  FormatMode, Compiler, format_tree, safe_check_file_exists, temporary_suffix, replace_file,
  format_file,
}

module _ {S Tree : Type 0} (compiler : Compiler Tree) (disk : Disk S) (laws : DiskLaws disk) where
  -- The file keeps its text where formatting fails. Where it succeeds, the file is what became of the
  -- temporary file when the text was written to it.
  abbrev Replaced : (path temporary_path before text : Bytes) (okay : Bool) → S → Bool × S → Type 0
  Replaced path temporary_path before text okay s result =
      ((result.0 ≡ false) × (disk.content path result.1 ≡ some before))
      ⊎ ((result.0 ≡ true)
          × (okay ≡ true)
          × (disk.content path result.1
              ≡ disk.content temporary_path (disk.write_file temporary_path text s).1))

  absent :
      (path : Bytes) (s : S)
      → disk.exists path s ≢ none
      → safe_check_file_exists compiler disk path s ≡ false
      → disk.content path s ≡ none
  unfolding safe_check_file_exists
  absent path s answered unseen = elim (Option-cases (disk.content path s)) [
    | inl empty ↦ empty
    | inr (c, file) ↦ elim (Option-cases (disk.exists path s)) [
      | inl thrown ↦ absurd (answered thrown)
      | inr (true, there) ↦ absurd (ground (arith, there, unseen))
      | inr (false, there) ↦ absurd (laws.file_exists path c s file there)
    ]
  ]

  replace_file-Replaced :
      (path suffix : Bytes) (x : ℕ) (text c : Bytes) (okay : Bool) (s : S)
      → has_slash (x ∷ suffix) ≡ false
      → disk.exists (path ++ x ∷ suffix) s ≢ none
      → disk.content path s ≡ some c
      → Replaced path
          (path ++ x ∷ suffix)
          c
          text
          okay
          s
          (replace_file compiler disk path (path ++ x ∷ suffix) (text, okay) s)
  unfolding replace_file
  replace_file-Replaced path suffix x text c okay s plain answered h =
      let temporary_path = path ++ x ∷ suffix in
      elim (Bool-cases (safe_check_file_exists compiler disk temporary_path s)) [
        | inl there ↦ rw (there, replace_file) (inl (refl, h))
        | inr unseen ↦
            let empty = absent temporary_path s answered unseen in
            let written = disk.write_file temporary_path text s in
            let kept = laws.write_keeps temporary_path text path c s empty h in
            rw (unseen, replace_file)
              (elim (Bool-cases written.0) [
                | inr failed ↦ rw failed (inl (refl, kept))
                | inl done ↦ rw done (elim (Bool-cases okay) [
                  | inl good ↦
                      rw good (elim (Bool-cases (disk.rename temporary_path path written.1).0) [
                        | inl moved ↦
                            inr (moved, refl, laws.rename_done temporary_path path written.1 moved)
                        | inr left ↦
                            inl (
                              left,
                              laws.rename_fails temporary_path path path written.1 left ∙ kept,
                            )
                      ])
                  | inr bad ↦
                      rw bad (inl (refl, laws.remove_keeps path x suffix written.1 plain ∙ kept))
                ])
              ])
      ]

  -- Formatting a file in its place either fails and leaves the text of the file as it was, or parses the
  -- text and formats the tree without an error, and leaves what the disk took of the formatted text
  -- in the temporary file, where the temporary name has no slash and the test whether it exists does not
  -- throw.
  pub format_file_in_place :
      (random_string : Bytes) (mode : FormatMode) (path c : Bytes) (s : S)
      → has_slash (temporary_suffix compiler disk random_string) ≡ false
      → disk.exists (path ++ temporary_suffix compiler disk random_string) s ≢ none
      → disk.content path s ≡ some c
      → let result = format_file compiler disk random_string mode path path s in
        let temporary_path = path ++ temporary_suffix compiler disk random_string in
        ((result.0 ≡ false) × (disk.content path result.1 ≡ some c))
        ⊎ ((result.0 ≡ true)
            × ((tree : Tree) × (compiler.parse c ≡ some tree)
                × ((format_tree compiler mode tree).1 ≡ true)
                × (disk.content path result.1
                    ≡ disk.content temporary_path
                        (disk.write_file temporary_path (format_tree compiler mode tree).0 s).1)))
  unfolding format_file
  format_file_in_place random_string mode path c s plain answered h =
      elim (Option-cases (compiler.parse c)) [
        | inl unparsed ↦ rw (h, unparsed, format_file) (inl (refl, h))
        | inr (tree, parsed) ↦
            rw (h, parsed, laws.same_path_refl path, format_file)
              (elim (replace_file-Replaced path _ _ (format_tree compiler mode tree).0 c
                (format_tree compiler mode tree).1 s plain answered h) [
                  | inl (failed, kept) ↦ inl (failed, kept)
                  | inr (done, okay, new) ↦ inr (done, (tree, refl, okay, new))
                ])
      ]
