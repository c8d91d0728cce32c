-- ===== src/FileSystem/Sample.antt =====
-- A small file system, at which the theorems are applied: the files with their texts, the directories,
-- and how many more files there is room for. A row of dots in a path counts as one dot.
use no.Prelude.{
  ℕ, Bool, true, false, ◌&&◌, ◌||◌, ◌-◌, Option, none, some, List, [], ◌∷◌, Bytes, ◌≡◌, ◌==◌, refl,
  if◌then◌else◌, arith, length, codes, inl, inr, Bool-cases,
}
use no.Prelude.Dict.{bytes_key, bytes_eq, bytes_eq_iff, lookup, insert, lookup-insert}
use no.FileSystem.{FileSystem, FileSystemLaws, join}

pub record Disk : Type 0 where
  pub files : List (Bytes × Bytes)
  pub directories : List Bytes
  pub room : ℕ

-- The path itself, or a slash behind it.
abbrev below : Bytes → Bytes → Bool
below [] [] = true
below [] (c ∷ path) = c == b'/'
below (d ∷ directory) [] = false
below (d ∷ directory) (c ∷ path) = c == d && below directory path

abbrev any_below : Bytes → List (Bytes × Bytes) → Bool
any_below d [] = false
any_below d ((p, _) ∷ files) = below d p || any_below d files

abbrev listed : Bytes → List Bytes → Bool
listed d [] = false
listed d (p ∷ paths) = bytes_eq p d || listed d paths

abbrev not_below : {A : Type 0} → (A → Bytes) → Bytes → List A → List A
not_below path d [] = []
not_below path d (x ∷ xs) =
    let rest = not_below path d xs in if below d (path x) then rest else x ∷ rest

-- Each row of dots as one dot.
abbrev squeeze : Bytes → Bytes
squeeze [] = []
squeeze (x ∷ []) = x ∷ []
squeeze (x ∷ y ∷ xs) =
    let rest = squeeze (y ∷ xs) in if x == b'.' && y == b'.' then rest else x ∷ rest

abbrev sample_exists : Bytes → Disk → Option Bool
sample_exists p s = some (any_below p s.files || listed p s.directories)

abbrev sample_write : Bytes → Bytes → Disk → Bool × Disk
sample_write p text s =
    if s.room == 0
    then (false, s)
    else (true, record s { files = insert p text s.files; room = s.room - 1 })

abbrev sample_remove : Bytes → Disk → Option ℕ × Disk
sample_remove d s = (
  some (length s.files),
  record s {
    files = not_below (λ f. f.0) d s.files;
    directories = not_below (λ p. p) d s.directories;
  },
)

abbrev make_directory : Bytes → Disk → Disk
make_directory d s = record s { directories = d ∷ s.directories }

abbrev pub sample_disk : FileSystem Disk
sample_disk = record {
  exists = λ p s. sample_exists (squeeze p) s;
  create_directories = λ p s. (some true, make_directory (squeeze p) s);
  remove_all = λ p s. sample_remove (squeeze p) s;
  absolute_normal = λ p s. some (squeeze p);
  write_file = λ p text s. sample_write (squeeze p) text s;
  git_repository_init = λ d s. (true, make_directory (squeeze (join d (codes ".git"))) s);
  content = λ p s. lookup (squeeze p) s.files;
  is_below = λ d p s. below (squeeze d) (squeeze p);
}

below_same : (p : Bytes) → below p p ≡ true
below_same [] = refl
below_same (c ∷ p) = ground (arith, below_same p)

found_below :
    (d p c : Bytes) (files : List (Bytes × Bytes))
    → lookup p files ≡ some c
    → any_below d files ≡ false
    → below d p ≡ false
unfolding lookup
found_below d p c [] h e = absurd (cc)
found_below d p c ((q, text) ∷ files) h e =
    ground (arith, bytes_eq_iff q p, found_below d p c files, h, e)

found_any :
    (p c : Bytes) (files : List (Bytes × Bytes))
    → lookup p files ≡ some c
    → any_below p files ≡ true
found_any p c files h = elim (Bool-cases (any_below p files)) [
  | inl e ↦ e
  | inr e ↦ absurd (ground (arith, found_below p p c files h e, below_same p))
]

kept_apart :
    (d q c : Bytes) (files : List (Bytes × Bytes))
    → below d q ≡ false
    → lookup q files ≡ some c
    → lookup q (not_below (λ f. f.0) d files) ≡ some c
unfolding lookup
kept_apart d q c [] apart h = h
kept_apart d q c ((p, text) ∷ files) apart h =
    ground (arith, bytes_eq_iff p q, kept_apart d q c files apart, h, apart)

write_apart :
    (p text q c : Bytes) (s : Disk)
    → lookup p s.files ≡ none
    → lookup q s.files ≡ some c
    → lookup q (sample_write p text s).1.files ≡ some c
write_apart p text q c s new h =
    ground (arith, lookup-insert p q text s.files, bytes_eq_iff p q, new, h)

pub sample_disk-FileSystemLaws : FileSystemLaws sample_disk
sample_disk-FileSystemLaws = record {
  file_exists = λ p c s h e. ground (arith, found_any (squeeze p) c s.files h, e);
  nothing_below =
      λ d p c s e h. found_below (squeeze d) (squeeze p) c s.files h (ground (arith, e));
  directories_keep = λ p d q c s plain h. h;
  directories_content = λ p q c s h. h;
  directories_empty = λ p q s plain h. h;
  write_keeps =
      λ p text d q c s plain new h. (write_apart (squeeze p) text (squeeze q) c s new h.0, h.1);
  git_keeps = λ d q c s plain h. h;
  remove_keeps = λ d q c s h. (kept_apart (squeeze d) (squeeze q) c s.files h.1 h.0, h.1);
}
