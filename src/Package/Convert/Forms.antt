-- ===== src/Package/Convert/Forms.antt =====
-- The text of a version has the form that `ValidateSemVersion` asks for
-- (lib/src/core/package/Manifest.cc).
use no.Prelude.{
  ℕ, ◌<◌, true, [], ◌∷◌, ◌++◌, Bytes, codes, ◌≡◌, refl, inl, inr, arith, All, length, decimal,
  IsDigit, decimal-IsDigit, decimal_nonempty, Bool-cases, ◌==◌,
}
use no.Prelude.Dict.{bytes_key}
use no.Package.Regex.{regex_match, digit, plus, text as pattern_text}
use no.Package.Regex.Language.{In, Repeated, no_more, one_more, regex_match-In}
use no.Package.Manifest.{Version}
use no.Package.Validate.{semver_regex}
use no.Package.Convert.{encode_semantic_version}

-- Some digits are in the language of `\d*`, and of `\d+` where there is one.
digits-Repeated : (ds : Bytes) → All IsDigit ds → Repeated (In digit) ds
unfolding In
digits-Repeated [] h = no_more
digits-Repeated (d ∷ ds) h =
    one_more (d ∷ ds) (d ∷ []) ds refl (d, refl, ground (arith, h.0)) (digits-Repeated ds h.1)

pub digits-In : (ds : Bytes) → All IsDigit ds → 0 < length ds → In (plus digit) ds
unfolding In
digits-In [] h some_digit = absurd (omega arith)
digits-In (d ∷ ds) h some_digit =
    (d ∷ [], ds, refl, (d, refl, ground (arith, h.0)), digits-Repeated ds h.1)

decimal-In : (n : ℕ) → In (plus digit) (decimal n)
decimal-In n = digits-In (decimal n) (decimal-IsDigit n) (decimal_nonempty n)

pub dot_In : In (pattern_text (codes ".")) (codes ".")
unfolding In
dot_In = (codes ".", [], refl, (b'.', refl, refl), refl)

-- The text of a version has the form of a version.
pub encode_semantic_version_matches :
    (v : Version) → regex_match (encode_semantic_version v) semver_regex ≡ true
unfolding encode_semantic_version In
encode_semantic_version_matches v =
    (regex_match-In (encode_semantic_version v) semver_regex).1 (elim (Bool-cases (v.patch == 0)) [
      | inl e ↦ rw e (
        decimal v.major,
        b'.' ∷ (decimal v.minor ++ []),
        refl,
        decimal-In v.major,
        (
          codes ".",
          decimal v.minor ++ [],
          refl,
          dot_In,
          (decimal v.minor, [], refl, decimal-In v.minor, inl refl),
        ),
      )
      | inr e ↦ rw e (
        decimal v.major,
        b'.' ∷ (decimal v.minor ++ (b'.' ∷ decimal v.patch)),
        refl,
        decimal-In v.major,
        (
          codes ".",
          decimal v.minor ++ (b'.' ∷ decimal v.patch),
          refl,
          dot_In,
          (
            decimal v.minor,
            b'.' ∷ decimal v.patch,
            refl,
            decimal-In v.minor,
            inr (codes ".", decimal v.patch, refl, dot_In, decimal-In v.patch),
          ),
        ),
      )
    ])
