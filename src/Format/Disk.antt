-- ===== src/Format/Disk.antt =====
-- The files as lib/src/format/core/Run.cc reads and writes them: an interface over a type of states,
-- with the documented behaviour that the theorems rely on as its laws.
use no.Prelude.{
  ℕ, Bool, true, false, ◌||◌, Option, none, some, List, [], ◌∷◌, ◌++◌, Bytes, ◌≡◌, ◌≢◌, ◌==◌,
}

pub record Disk (S : Type 0) : Type 0 where
  -- `exists`, `is_directory` and `is_regular_file`: none where they throw.
  pub exists : Bytes → S → Option Bool
  pub is_directory : Bytes → S → Option Bool
  pub is_regular_file : Bytes → S → Option Bool
  pub create_directories : Bytes → S → Option Bool × S
  pub absolute : Bytes → S → Bytes
  -- `operator==` of two paths, which takes some spellings for the same.
  pub same_path : Bytes → Bytes → Bool
  -- What an `std::ifstream` reads, or none where it does not open.
  pub content : Bytes → S → Option Bytes
  -- The regular files of a directory and the directories in it, or none where listing them throws.
  pub contents : Bytes → S → Option (List Bytes)
  -- An `std::ofstream` with `trunc`, and where it is open, as much of the text into it as the disk takes:
  -- whether it is open.
  pub write_file : Bytes → Bytes → S → Bool × S
  -- Whether `rename` throws nothing, and what `remove` gives.
  pub rename : Bytes → Bytes → S → Bool × S
  pub remove : Bytes → S → Option Bool × S

abbrev pub has_slash : Bytes → Bool
has_slash [] = false
has_slash (c ∷ path) = c == b'/' || has_slash path

pub record DiskLaws {S : Type 0} (disk : Disk S) : Type 0 where
  pub file_exists : (p c : Bytes) (s : S) → disk.content p s ≡ some c → disk.exists p s ≢ some false
  pub same_path_refl : (p : Bytes) → disk.same_path p p ≡ true
  -- Writing where there is no file leaves the files alone.
  pub write_keeps :
      (p text q c : Bytes) (s : S)
      → disk.content p s ≡ none
      → disk.content q s ≡ some c
      → disk.content q (disk.write_file p text s).1 ≡ some c
  -- A rename that fails does nothing.
  pub rename_done :
      (p q : Bytes) (s : S)
      → (disk.rename p q s).0 ≡ true
      → disk.content q (disk.rename p q s).1 ≡ disk.content p s
  pub rename_fails :
      (p q r : Bytes) (s : S)
      → (disk.rename p q s).0 ≡ false
      → disk.content r (disk.rename p q s).1 ≡ disk.content r s
  -- A longer name in the same folder is another file.
  pub remove_keeps :
      (q : Bytes) (x : ℕ) (suffix : Bytes) (s : S)
      → has_slash (x ∷ suffix) ≡ false
      → disk.content q (disk.remove (q ++ x ∷ suffix) s).1 ≡ disk.content q s
