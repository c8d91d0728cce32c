-- ===== src/Init/Package/Kept.antt =====
-- What the creation of a package does to the files that are there: lib/src/init/InitPackage.cc.
use no.Prelude.{
  true, false, Option, none, some, List, [], ◌∷◌, Bytes, ◌≡◌, All, arith, inl, inr, Option-cases,
  Bool-cases, refl, codes, Checked, Checked-cases, Bool,
}
use no.Json.{Json}
use no.FileSystem.{
  FileSystem, FileSystemLaws, Outside, leads_upwards, starts_upwards, turns_upwards, join,
  parent_path,
}
use no.Package.Spdx.{Table}
use no.Package.Manifest.{Category, library, standard_library, executable}
use no.Init.{InitOptions}
use no.Init.Package.{
  Action, in_order, create_directories, create_local_file, create_config, initial_config,
  package_files, source_file, init_package_directory_structure, create_package,
}

join_starts :
    (path name : Bytes)
    → starts_upwards path ≡ false
    → starts_upwards name ≡ false
    → starts_upwards (join path name) ≡ false
join_starts [] name h e = e
join_starts (c ∷ []) [] h e = ground arith
join_starts (c ∷ []) (x ∷ name) h e = ground arith
join_starts (c ∷ d ∷ []) [] h e = ground (arith, h)
join_starts (c ∷ d ∷ []) (x ∷ name) h e = ground (arith, h)
join_starts (c ∷ d ∷ x ∷ []) name h e = ground (arith, h)
join_starts (c ∷ d ∷ x ∷ y ∷ path) name h e = h

join_turns :
    (path name : Bytes)
    → turns_upwards path ≡ false
    → leads_upwards name ≡ false
    → turns_upwards (join path name) ≡ false
join_turns [] name h e = ground (arith, e)
join_turns (c ∷ []) name h e = ground (arith, e)
join_turns (c ∷ d ∷ path) name h e =
    ground
      (arith, h, e, join_turns (d ∷ path) name (ground (arith, h)) e, join_starts (d ∷ path) name)

-- A name that does not lead upwards behind a path that does not.
pub join_plain :
    (path name : Bytes)
    → leads_upwards path ≡ false
    → leads_upwards name ≡ false
    → leads_upwards (join path name) ≡ false
join_plain path name h e = ground (
  arith,
  join_starts path name (ground (arith, h)) (ground (arith, e)),
  join_turns path name (ground (arith, h)) e,
)

module _ {S V : Type 0} (fs : FileSystem S) (laws : FileSystemLaws fs) (json : Json V) where
  -- The action leaves every file outside of a directory as it is.
  abbrev pub Keeps : Action S → Type 0
  Keeps action =
      (d q c : Bytes) (s : S)
      → leads_upwards d ≡ false
      → Outside fs d q c s
      → Outside fs d q c (action s).1

  pub in_order-Keeps : (actions : List (Action S)) → All Keeps actions → Keeps (in_order actions)
  in_order-Keeps [] keep d q c s plain h = h
  in_order-Keeps (action ∷ actions) keep d q c s plain h = elim (Bool-cases (action s).0) [
    | inl e ↦ rw e (in_order-Keeps actions keep.1 d q c (action s).1 plain (keep.0 d q c s plain h))
    | inr e ↦ rw e (keep.0 d q c s plain h)
  ]

  create_directories-Keeps : (path : Bytes) → Keeps (create_directories fs json path)
  unfolding create_directories
  create_directories-Keeps path d q c s plain h = elim (Option-cases (fs.exists path s)) [
    | inl e ↦ rw (e, create_directories) h
    | inr (there, e) ↦
        rw (e, create_directories)
          (elim (Bool-cases there) [
            | inl t ↦ rw t h
            | inr f ↦ rw f (laws.directories_keep path d q c s plain h)
          ])
  ]

  -- Making directories brings no file about.
  create_directories_empty :
      (path q : Bytes) (s : S)
      → leads_upwards q ≡ false
      → fs.content q s ≡ none
      → fs.content q (create_directories fs json path s).1 ≡ none
  unfolding create_directories
  create_directories_empty path q s plain h = elim (Option-cases (fs.exists path s)) [
    | inl e ↦ rw (e, create_directories) h
    | inr (there, e) ↦
        rw (e, create_directories)
          (elim (Bool-cases there) [
            | inl t ↦ rw t h
            | inr f ↦ rw f (laws.directories_empty path q s plain h)
          ])
  ]

  -- A path that does not exist names no file.
  absent_empty : (path : Bytes) (s : S) → fs.exists path s ≡ some false → fs.content path s ≡ none
  absent_empty path s e = elim (Option-cases (fs.content path s)) [
    | inl empty ↦ empty
    | inr (c, file) ↦ absurd (laws.file_exists path c s file e)
  ]

  pub create_local_file-Keeps :
      (path init : Bytes) → leads_upwards path ≡ false → Keeps (create_local_file fs json path init)
  unfolding create_local_file
  create_local_file-Keeps path init path_plain d q c s plain h =
      elim (Option-cases (fs.exists path s)) [
        | inl e ↦ rw (e, create_local_file) h
        | inr (there, e) ↦
            rw (e, create_local_file)
              (elim (Bool-cases there) [
                | inl t ↦ rw t h
                | inr f ↦ rw f (
                    let made = create_directories fs json (parent_path path) s in
                    let kept = create_directories-Keeps (parent_path path) d q c s plain h in
                    let empty =
                      create_directories_empty (parent_path path) path s path_plain
                        (absent_empty path s (ground (arith, e, f))) in
                    elim (Bool-cases made.0) [
                      | inl done ↦ rw done (elim (Bool-cases (fs.write_file path init made.1).0) [
                        | inl w ↦ rw w (laws.write_keeps path init d q c made.1 plain empty kept)
                        | inr w ↦ rw w (laws.write_keeps path init d q c made.1 plain empty kept)
                      ])
                      | inr failed ↦ rw failed kept
                    ])
              ])
      ]

  -- The same of a step that may throw.
  abbrev pub ThrowingKeeps : (S → Checked Bool × S) → Type 0
  ThrowingKeeps action =
      (d q c : Bytes) (s : S)
      → leads_upwards d ≡ false
      → Outside fs d q c s
      → Outside fs d q c (action s).1

  create_config-Keeps :
      (spdx_identifiers : Table) (package_path : Bytes) (options : InitOptions)
      → leads_upwards package_path ≡ false
      → ThrowingKeeps (create_config fs json spdx_identifiers package_path options)
  unfolding create_config
  create_config-Keeps spdx_identifiers package_path options path_plain d q c s plain h =
      elim (Option-cases (initial_config fs json spdx_identifiers options)) [
        | inl e ↦ rw (e, create_config) h
        | inr ((text, correct), e) ↦
            rw (e, create_config)
              (elim (Bool-cases correct) [
                | inl t ↦ rw t (
                    create_local_file-Keeps (join package_path (codes "no3.json")) text
                      (join_plain package_path (codes "no3.json") path_plain refl) d q c s plain h)
                | inr f ↦ rw f h
              ])
      ]

  file-Keeps :
      (package_path name text : Bytes)
      → leads_upwards package_path ≡ false
      → leads_upwards name ≡ false
      → Keeps (create_local_file fs json (join package_path name) text)
  file-Keeps package_path name text plain name_plain =
      create_local_file-Keeps (join package_path name) text
        (join_plain package_path name plain name_plain)

  source_file-Keeps :
      (package_path : Bytes) (category : Category)
      → leads_upwards package_path ≡ false
      → Keeps (source_file fs json package_path category)
  source_file-Keeps package_path library plain =
      file-Keeps (join package_path (codes "src")) (codes "lib.nit") _
        (join_plain package_path (codes "src") plain refl) refl
  source_file-Keeps package_path standard_library plain =
      file-Keeps (join package_path (codes "src")) (codes "lib.nit") _
        (join_plain package_path (codes "src") plain refl) refl
  source_file-Keeps package_path executable plain =
      file-Keeps (join package_path (codes "src")) (codes "main.nit") _
        (join_plain package_path (codes "src") plain refl) refl

  module _ (spdx_identifiers : Table) (license_text : Bytes → Option Bytes) (package_path : Bytes)
      (options : InitOptions) (plain : leads_upwards package_path ≡ false) where
    package_files-Keeps :
        All Keeps (package_files fs json spdx_identifiers license_text package_path options)
    unfolding package_files
    package_files-Keeps =
        let file : (name text : Bytes)
            → leads_upwards name ≡ false
            → Keeps (create_local_file fs json (join package_path name) text) =
          λ name text. file-Keeps package_path name text plain in
        (
          file-Keeps (join package_path (codes "docs")) (codes ".gitkeep") _
              (join_plain package_path (codes "docs") plain refl) refl,
          (
            source_file-Keeps package_path options.package_category plain,
            (
              file (codes "README.md") _ refl,
              (
                file (codes "LICENSE") _ refl,
                (
                  file (codes "CODE_OF_CONDUCT.md") _ refl,
                  (
                    file (codes "CONTRIBUTING.md") _ refl,
                    (
                      file (codes "SECURITY.md") _ refl,
                      (
                        file (codes ".gitignore") _ refl,
                        (
                          file (codes ".dockerignore") _ refl,
                          (file (codes "CMakeLists.txt") _ refl, tt),
                        ),
                      ),
                    ),
                  ),
                ),
              ),
            ),
          ),
        )

    init_package_directory_structure-Keeps : ThrowingKeeps (
        init_package_directory_structure fs json spdx_identifiers license_text package_path options)
    unfolding init_package_directory_structure
    init_package_directory_structure-Keeps d q c s d_plain h =
        let actions = package_files fs json spdx_identifiers license_text package_path options in
        let files = in_order actions s in
        let kept = in_order-Keeps actions package_files-Keeps d q c s d_plain h in
        elim (Bool-cases files.0) [
          | inl done ↦
              rw (done, init_package_directory_structure)
                (create_config-Keeps spdx_identifiers package_path options plain d q c files.1
                  d_plain kept)
          | inr failed ↦ rw (failed, init_package_directory_structure) kept
        ]

    pub create_package-Outside :
        (q c : Bytes) (s : S)
        → Outside fs package_path q c s
        → Outside fs package_path q c
            (create_package fs json spdx_identifiers license_text package_path options s).1
    unfolding create_package
    create_package-Outside q c s h = elim (Option-cases (fs.exists package_path s)) [
      | inl e ↦ rw (e, create_package) h
      | inr (true, e) ↦ rw (e, create_package) h
      | inr (false, e) ↦
          let structure =
            init_package_directory_structure fs json spdx_identifiers license_text package_path
              options s in
          let kept = init_package_directory_structure-Keeps package_path q c s plain h in
          rw (e, create_package)
            (elim (Checked-cases structure.0) [
              | inl thrown ↦ rw thrown kept
              | inr (false, failed) ↦ rw failed kept
              | inr (true, done) ↦ rw done (laws.git_keeps package_path q c structure.1 plain kept)
            ])
    ]

    -- Creating a package at a path that does not lead upwards changes no file that is there, whether it
    -- succeeds, fails or throws.
    pub create_package-content :
        (q c : Bytes) (s : S)
        → fs.content q s ≡ some c
        → fs.content q
            (create_package fs json spdx_identifiers license_text package_path options s).1
          ≡ some c
    unfolding create_package
    create_package-content q c s h = elim (Option-cases (fs.exists package_path s)) [
      | inl e ↦ rw (e, create_package) h
      | inr (true, e) ↦ rw (e, create_package) h
      | inr (false, e) ↦
          (create_package-Outside q c s (h, laws.nothing_below package_path q c s e h)).0
    ]
