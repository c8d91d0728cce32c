-- ===== src/FileSystem.antt =====
-- The file system as lib/src/init uses it: the calls of `std::filesystem`, of `std::fstream` and of
-- libgit2 as an interface over a type of states, with the documented behaviour that the theorems rely
-- on as its laws. A path is its bytes.
pub mod Sample
use no.Prelude.{
  ℕ, Bool, true, false, ◌&&◌, ◌||◌, Option, none, some, List, [], ◌∷◌, Bytes, ◌≡◌, ◌≢◌, ◌==◌, codes,
  refl, if◌then◌else◌, arith,
}

-- `path / name` for a relative name.
abbrev pub join : Bytes → Bytes → Bytes
join [] name = name
join (c ∷ []) name = if c == b'/' then c ∷ name else c ∷ b'/' ∷ name
join (c ∷ d ∷ path) name = c ∷ join (d ∷ path) name

abbrev only_slashes : Bytes → Bool
only_slashes [] = true
only_slashes (c ∷ path) = c == b'/' && only_slashes path

abbrev has_slash : Bytes → Bool
has_slash [] = false
has_slash (c ∷ path) = c == b'/' || has_slash path

-- The path through its last slash.
abbrev through_slash : Bytes → Bytes
through_slash [] = []
through_slash (c ∷ path) = if has_slash (c ∷ path) then c ∷ through_slash path else []

abbrev drop_last_slashes : Bytes → Bytes
drop_last_slashes [] = []
drop_last_slashes (c ∷ path) = if only_slashes (c ∷ path) then [] else c ∷ drop_last_slashes path

-- `path.parent_path()`
abbrev pub parent_path : Bytes → Bytes
parent_path path =
    let directory = through_slash path in
    if only_slashes directory then directory else drop_last_slashes directory

-- The end of a name in a path.
abbrev pub at_end : Bytes → Bool
at_end [] = true
at_end (c ∷ path) = c == b'/'

-- The first name of the path is `..`.
abbrev pub starts_upwards : Bytes → Bool
starts_upwards (x ∷ y ∷ path) = x == b'.' && (y == b'.' && at_end path)
starts_upwards _ = false

abbrev pub turns_upwards : Bytes → Bool
turns_upwards [] = false
turns_upwards (c ∷ path) = (c == b'/' && starts_upwards path) || turns_upwards path

-- A name of the path is `..`, as in no path that `lexically_normal` gives for an absolute one.
abbrev pub leads_upwards : Bytes → Bool
leads_upwards path = starts_upwards path || turns_upwards path

pub record FileSystem (S : Type 0) : Type 0 where
  -- `exists(path)`: none where it throws, as in the three calls below.
  pub exists : Bytes → S → Option Bool
  pub create_directories : Bytes → S → Option Bool × S
  pub remove_all : Bytes → S → Option ℕ × S
  -- `absolute(path).lexically_normal()`
  pub absolute_normal : Bytes → S → Option Bytes
  -- `std::fstream file(path, out | trunc)`, and where it is open, the text into it and `close()`.
  pub write_file : Bytes → Bytes → S → Bool × S
  -- Whether `git_repository_init(&repo, path, 0)` gives zero.
  pub git_repository_init : Bytes → S → Bool × S
  -- For the laws: what the file of this name holds, and whether it is reached through a directory.
  pub content : Bytes → S → Option Bytes
  pub is_below : Bytes → Bytes → S → Bool

-- A file outside a directory, with its text.
abbrev pub Outside : {S : Type 0} → FileSystem S → (directory file text : Bytes) → S → Type 0
Outside fs directory file text s =
    (fs.content file s ≡ some text) × (fs.is_below directory file s ≡ false)

pub record FileSystemLaws {S : Type 0} (fs : FileSystem S) : Type 0 where
  -- A file exists, and so does a directory with a file below it.
  pub file_exists : (p c : Bytes) (s : S) → fs.content p s ≡ some c → fs.exists p s ≢ some false
  pub nothing_below :
      (d p c : Bytes) (s : S)
      → fs.exists d s ≡ some false
      → fs.content p s ≡ some c
      → fs.is_below d p s ≡ false
  -- New directories leave the files alone, and hold none. A path that leads upwards through a new
  -- directory may come to name a file.
  pub directories_keep :
      (p d q c : Bytes) (s : S)
      → leads_upwards d ≡ false
      → Outside fs d q c s
      → Outside fs d q c (fs.create_directories p s).1
  pub directories_content :
      (p q c : Bytes) (s : S)
      → fs.content q s ≡ some c
      → fs.content q (fs.create_directories p s).1 ≡ some c
  pub directories_empty :
      (p q : Bytes) (s : S)
      → leads_upwards q ≡ false
      → fs.content q s ≡ none
      → fs.content q (fs.create_directories p s).1 ≡ none
  -- Writing where there is no file leaves the files alone.
  pub write_keeps :
      (p text d q c : Bytes) (s : S)
      → leads_upwards d ≡ false
      → fs.content p s ≡ none
      → Outside fs d q c s
      → Outside fs d q c (fs.write_file p text s).1
  -- What is outside of the directory is left alone.
  pub git_keeps :
      (d q c : Bytes) (s : S)
      → leads_upwards d ≡ false
      → Outside fs d q c s
      → Outside fs d q c (fs.git_repository_init d s).1
  pub remove_keeps :
      (d q c : Bytes) (s : S) → Outside fs d q c s → Outside fs d q c (fs.remove_all d s).1
