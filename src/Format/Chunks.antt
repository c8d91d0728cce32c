-- ===== src/Format/Chunks.antt =====
-- The loop of `DeflateStreams` in lib/src/format/core/Run.cc has fuel enough.
use no.Prelude.{ℕ, zero, suc, ◌≤◌, [], ◌∷◌, Bytes, ◌≡◌, refl, arith, length, drop, length-drop}
use no.Format.File.{Compiler, deflate_chunks, buffer_size}

-- Any fuel from the length of the input on gives the same.
pub deflate_chunks_enough :
    {Tree : Type 0} (compiler : Compiler Tree) (f g : ℕ) (input : Bytes)
    → length input ≤ f
    → length input ≤ g
    → deflate_chunks compiler f input ≡ deflate_chunks compiler g input
unfolding deflate_chunks
deflate_chunks_enough compiler zero zero input h e = refl
deflate_chunks_enough compiler zero (suc g) [] h e = refl
deflate_chunks_enough compiler zero (suc g) (x ∷ input) h e = absurd (omega (arith, h))
deflate_chunks_enough compiler (suc f) zero [] h e = refl
deflate_chunks_enough compiler (suc f) zero (x ∷ input) h e = absurd (omega (arith, e))
deflate_chunks_enough compiler (suc f) (suc g) [] h e = refl
deflate_chunks_enough compiler (suc f) (suc g) (x ∷ input) h e =
    let shorter = length-drop buffer_size (x ∷ input) in
    rw
      (deflate_chunks_enough compiler f g (drop buffer_size (x ∷ input)) (omega (arith, shorter, h))
        (omega (arith, shorter, e)))
      refl
