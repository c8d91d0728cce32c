-- ===== src/Package/Regex.antt =====
-- Regular expressions, as far as the patterns of lib/src/core/package/Manifest.cc use `std::regex`:
-- `std::regex_match` asks whether the whole text is in the language of the pattern.
pub mod Language
use no.Prelude.{
  ℕ, zero, suc, Bool, true, false, ◌&&◌, ◌||◌, List, [], ◌∷◌, Bytes, leb, if◌then◌else◌,
}

pub data Regex : Type 0 where
  nothing : Regex
  empty : Regex
  -- One byte of a class, which is given as ranges.
  class : List (ℕ × ℕ) → Regex
  seq : Regex → Regex → Regex
  alt : Regex → Regex → Regex
  star : Regex → Regex

abbrev pub in_class : ℕ → List (ℕ × ℕ) → Bool
in_class c [] = false
in_class c ((first, last) ∷ ranges) = (leb first c && leb c last) || in_class c ranges

-- Whether the empty text matches.
abbrev pub nullable : Regex → Bool
nullable nothing = false
nullable empty = true
nullable (class ranges) = false
nullable (seq r s) = nullable r && nullable s
nullable (alt r s) = nullable r || nullable s
nullable (star r) = true

-- What must follow the byte `c`.
abbrev pub derivative : ℕ → Regex → Regex
derivative c nothing = nothing
derivative c empty = nothing
derivative c (class ranges) = if in_class c ranges then empty else nothing
derivative c (seq r s) =
    if nullable r then alt (seq (derivative c r) s) (derivative c s) else seq (derivative c r) s
derivative c (alt r s) = alt (derivative c r) (derivative c s)
derivative c (star r) = seq (derivative c r) (star r)

-- `std::regex_match(text, r)`
unfoldable pub regex_match : Bytes → Regex → Bool
regex_match [] r = nullable r
regex_match (c ∷ cs) r = regex_match cs (derivative c r)

-- `r+`, `r?`, `r{1,n + 1}` and a text.
abbrev pub plus : Regex → Regex
plus r = seq r (star r)

abbrev pub optional : Regex → Regex
optional r = alt empty r

abbrev pub up_to : ℕ → Regex → Regex
up_to zero r = r
up_to (suc n) r = seq r (optional (up_to n r))

abbrev pub text : Bytes → Regex
text [] = empty
text (c ∷ cs) = seq (class ((c, c) ∷ [])) (text cs)

-- `\d`
abbrev pub digit : Regex
digit = class ((b'0', b'9') ∷ [])
