-- ===== src/Format/File.antt =====
-- The formatting of one file and of several: `DeflateStreams`, `FormatFile` and `FormatFiles` of
-- lib/src/format/core/Run.cc. The parser, the writers of the compiler library and the compressor are
-- arguments.
use no.Prelude.{
  ℕ, zero, suc, ◌+◌, ◌*◌, Bool, true, false, Option, none, some, List, [], ◌∷◌, ◌++◌, Bytes, codes,
  length, take, drop, ltb, if◌then◌else◌, ◌>>=◌,
}
use no.Format.Disk.{Disk}

pub data FormatMode : Type 0 where
  standard minify deflate : FormatMode

-- What the compiler library gives: the syntax tree of a text, the canonical text of a tree with whether
-- there were errors, the minified text, and the compressor, where none stands for a size of zero.
pub record Compiler (Tree : Type 0) : Type 0 where
  pub parse : Bytes → Option Tree
  pub canonical : Tree → Bytes × Bool
  pub minified : Tree → Bytes
  pub has_compressor : Bool
  pub compress : Bytes → Option Bytes

abbrev pub buffer_size : ℕ
buffer_size = 32 * 1024 * 1024

abbrev pub is_empty : Bytes → Bool
is_empty [] = true
is_empty (_ ∷ _) = false

module _ {Tree : Type 0} (compiler : Compiler Tree) where
  open compiler use {parse, canonical, minified, has_compressor, compress}

  -- The loop over the chunks of the input; each takes at least a byte, so that the length of the input
  -- is fuel enough.
  unfoldable pub deflate_chunks : ℕ → Bytes → Option Bytes
  deflate_chunks zero input = some []
  deflate_chunks (suc fuel) input =
      let rest = deflate_chunks fuel (drop buffer_size input) in
      if is_empty input then some [] else (do
        compressed ← compress (take buffer_size input)
        behind ← rest
        some (compressed ++ behind))

  unfoldable pub deflate_streams : Bytes → Option Bytes
  deflate_streams input = if has_compressor then deflate_chunks (length input) input else none

  abbrev pub inflater : Bytes
  inflater = codes "@(n.emit(n.raw_inflate(n.source_slice(44))))"

  -- What is written for a tree, and whether it went well.
  unfoldable pub format_tree : FormatMode → Tree → Bytes × Bool
  format_tree standard tree = ((canonical tree).0, if (canonical tree).1 then false else true)
  format_tree minify tree = (minified tree, true)
  format_tree deflate tree = elim (deflate_streams (minified tree)) [
    | none ↦ ([], false)
    | some deflated ↦
        if ltb (length deflated + 44) (length (minified tree))
        then (inflater ++ deflated, true)
        else (minified tree, true)
  ]

  module _ {S : Type 0} (disk : Disk S) where
    open disk use {exists, content, same_path, write_file, rename, remove}

    -- A path that cannot be checked counts as one that does not exist.
    unfoldable pub safe_check_file_exists : Bytes → S → Bool
    safe_check_file_exists path s = elim (exists path s) [ none ↦ false | some there ↦ there ]

    abbrev pub temporary_suffix : Bytes → Bytes
    temporary_suffix random_string = b'.' ∷ (random_string ++ codes ".fmt.no3.tmp")

    -- The text goes into a temporary file, which takes the place of the source.
    unfoldable pub replace_file : Bytes → Bytes → Bytes × Bool → S → Bool × S
    replace_file path temporary_path (text, okay) s =
        let written = write_file temporary_path text s in
        let renamed = rename temporary_path path written.1 in
        let removed = remove temporary_path written.1 in
        if safe_check_file_exists temporary_path s
        then (false, s)
        else if written.0
        then (if okay then renamed else (false, removed.1))
        else (false, written.1)

    unfoldable pub write_other : Bytes → Bytes × Bool → S → Bool × S
    write_other dst (text, okay) s =
        let written = write_file dst text s in
        if written.0 then (okay, written.1) else (false, written.1)

    -- The random string is sixteen digits that the code draws.
    unfoldable pub format_file :
        (random_string : Bytes) → FormatMode → (src dst : Bytes) → S → Bool × S
    format_file random_string mode src dst s = elim (do text ← content src s; parse text) [
      | none ↦ (false, s)
      | some tree ↦
          if same_path src dst
          then replace_file dst (dst ++ temporary_suffix random_string) (format_tree mode tree) s
          else write_other dst (format_tree mode tree) s
    ]

    -- The loop over the mapping with the number of failures; each file draws its own string.
    unfoldable pub format_files : FormatMode → List (Bytes × Bytes × Bytes) → ℕ → S → ℕ × S
    format_files mode [] failure_count s = (failure_count, s)
    format_files mode ((random_string, src, dst) ∷ mapping) failure_count s =
        let formatted = format_file random_string mode src dst s in
        format_files mode mapping (if formatted.0 then failure_count else failure_count + 1)
          formatted.1
