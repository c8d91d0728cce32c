-- ===== src/Format/Tests.antt =====
-- The formatter on a small disk.
use no.Prelude.{
  ℕ, pos, ◌>>=◌, Bool, true, false, Option, none, some, List, [], ◌∷◌, ◌++◌, Bytes, codes, ◌≡◌, ◌⊎◌,
  refl, arith, if◌then◌else◌, Option-cases, inl, inr,
}
use no.Prelude.Dict.{bytes_key, bytes_eq, bytes_eq_iff, lookup, insert, lookup-insert}
use no.Json.Sample.{Value, sample_json, number, entry, empty_object}
use no.Format.Disk.{Disk, DiskLaws}
use no.Format.File.{standard, Compiler, format_tree, format_file}
use no.Format.InPlace.{format_file_in_place}
use no.Format.Config.{validate_configuration, assign_default_configuration_settings}
use no.Format.Arguments.{is_source_file}

abbrev pub Files : Type 0
Files = List (Bytes × Bytes)

abbrev forget : Bytes → Files → Files
forget p [] = []
forget p ((q, c) ∷ files) =
    let rest = forget p files in if bytes_eq q p then rest else (q, c) ∷ rest

abbrev is_some : Option Bytes → Bool
is_some none = false
is_some (some _) = true

abbrev sample_rename : Bytes → Bytes → Files → Bool × Files
sample_rename p q files = elim (lookup p files) [
  | none ↦ (false, files)
  | some c ↦ (true, insert q c (forget p files))
]

abbrev pub sample_disk : Disk Files
sample_disk = record {
  exists = λ p files. some (is_some (lookup p files));
  is_directory = λ p files. some false;
  is_regular_file = λ p files. some (is_some (lookup p files));
  create_directories = λ p files. (some true, files);
  absolute = λ p files. p;
  same_path = bytes_eq;
  content = lookup;
  contents = λ p files. none;
  write_file = λ p c files. (true, insert p c files);
  rename = sample_rename;
  remove = λ p files. (some true, forget p files);
}

longer_differs : (q : Bytes) (x : ℕ) (suffix : Bytes) → bytes_eq (q ++ x ∷ suffix) q ≡ false
longer_differs [] x suffix = refl
longer_differs (c ∷ q) x suffix = ground (arith, longer_differs q x suffix)

lookup-forget :
    (p q : Bytes) (files : Files)
    → bytes_eq p q ≡ false
    → lookup q (forget p files) ≡ lookup q files
unfolding lookup
lookup-forget p q [] e = refl
lookup-forget p q ((r, c) ∷ files) e =
    ground
      (arith, bytes_eq_iff r p, bytes_eq_iff r q, bytes_eq_iff p q, lookup-forget p q files e, e)

rename_lem :
    (p q : Bytes) (files : Files)
    → (sample_rename p q files).0 ≡ true
    → lookup q (sample_rename p q files).1 ≡ lookup p files
rename_lem p q files e = elim (Option-cases (lookup p files)) [
  | inl missing ↦ absurd (ground (arith, missing, e))
  | inr (c, there) ↦
      rw there (ground (arith, lookup-insert q q c (forget p files), bytes_eq_iff q q))
]

rename_failed :
    (p q r : Bytes) (files : Files)
    → (sample_rename p q files).0 ≡ false
    → lookup r (sample_rename p q files).1 ≡ lookup r files
rename_failed p q r files e = elim (Option-cases (lookup p files)) [
  | inl missing ↦ rw (missing, sample_rename) refl
  | inr (c, there) ↦ absurd (ground (arith, there, e))
]

sample_disk-DiskLaws : DiskLaws sample_disk
sample_disk-DiskLaws = record {
  file_exists = λ p c files h e. ground (arith, h, e);
  write_keeps =
      λ p c q d files new h. ground (arith, lookup-insert p q c files, bytes_eq_iff p q, new, h);
  same_path_refl = λ p. (bytes_eq_iff p p).1 refl;
  rename_done = λ p q files e. rename_lem p q files e;
  rename_fails = λ p q r files e. rename_failed p q r files e;
  remove_keeps =
      λ q x suffix files e. lookup-forget (q ++ x ∷ suffix) q files (longer_differs q x suffix);
}

-- Upper and lower case of an imagined language, in which a question mark is an error.
abbrev compiler : Compiler Bytes
compiler = record {
  parse = λ c. some c;
  canonical = λ tree. (tree ++ codes "\n", bytes_eq tree (codes "?"));
  minified = λ tree. tree;
  has_compressor = true;
  compress = λ c. some (codes "z");
}

abbrev files : Files
files = (codes "/a.nit", codes "a") ∷ (codes "/b.nit", codes "?") ∷ []

format_file_in_place_example :
    let result =
      format_file compiler sample_disk
        (codes "0")
        standard
        (codes "/a.nit")
        (codes "/a.nit")
        files in
    ((result.0 ≡ false) × (sample_disk.content (codes "/a.nit") result.1 ≡ some (codes "a")))
    ⊎ ((result.0 ≡ true)
        × ((tree : Bytes) × (some (codes "a") ≡ some tree)
            × ((format_tree compiler standard tree).1 ≡ true)
            × (sample_disk.content (codes "/a.nit") result.1
                ≡ sample_disk.content
                    (codes "/a.nit.0.fmt.no3.tmp")
                    (sample_disk.write_file
                      (codes "/a.nit.0.fmt.no3.tmp")
                      (format_tree compiler standard tree).0
                      files).1)))
unfolding lookup
format_file_in_place_example =
    format_file_in_place compiler sample_disk sample_disk-DiskLaws (codes "0") standard
      (codes "/a.nit") (codes "a") files refl (λ e. absurd (cc)) refl

source_files :
    (is_source_file (codes "/x/a.nit") ≡ true) × (is_source_file (codes "/x/.nit") ≡ false)
source_files = (refl, refl)

-- The version of a configuration is tested.
abbrev configuration : ℕ → Value
configuration major =
    entry (codes "version")
      (entry (codes "major") (number (pos major))
        (entry (codes "minor") (number (pos 0)) empty_object))
      empty_object

versions :
    (validate_configuration (configuration 1) ≡ true)
    × (validate_configuration (configuration 2) ≡ false)
unfolding validate_configuration
versions = (refl, refl)

-- The settings of the file give way to the defaults.
abbrev with_size : Value → Value
with_size size =
    entry (codes "whitespace")
      (entry (codes "indentation") (entry (codes "size") size empty_object) empty_object)
      empty_object

abbrev size_of : Value → Option ℕ
size_of v = do
  whitespace ← sample_json.find (codes "whitespace") v
  indentation ← sample_json.find (codes "indentation") whitespace
  size ← sample_json.find (codes "size") indentation
  sample_json.get_uint64 size

overwritten : size_of (assign_default_configuration_settings (with_size (number (pos 8)))) ≡ some 2
unfolding assign_default_configuration_settings
overwritten = refl
