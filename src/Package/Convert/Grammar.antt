-- ===== src/Package/Convert/Grammar.antt =====
-- The texts of versions that `ValidateSemVersion` of lib/src/core/package/Manifest.cc accepts.
use no.Prelude.{
  ◌<◌, true, some, [], ◌∷◌, ◌++◌, Bytes, codes, ◌≡◌, ◌⊎◌, ◌↔◌, refl, sym, subst, ap, ◌∙◌, inl, inr,
  arith, All, length, IsDigit,
}
use no.Prelude.Lists.{append-nil}
use no.Prelude.Dict.{bytes_key}
use no.Json.{Json}
use no.Package.Regex.{digit, plus, text as pattern_text}
use no.Package.Regex.Language.{In, Repeated, no_more, one_more, regex_match-In}
use no.Package.Validate.{semver_regex, validate_sem_version}
use no.Package.Convert.Forms.{digits-In, dot_In}

-- A row of digits, at least one.
abbrev pub Digits : Bytes → Type 0
Digits ds = All IsDigit ds × (0 < length ds)

-- Two rows of digits with a dot between them, or three with two dots.
abbrev pub VersionText : Bytes → Type 0
VersionText text =
    (major : Bytes) × (minor : Bytes) × Digits major
    × Digits minor
    × ((text ≡ major ++ (b'.' ∷ minor))
        ⊎ ((patch : Bytes) × Digits patch × (text ≡ major ++ (b'.' ∷ (minor ++ (b'.' ∷ patch))))))

Repeated-IsDigit : (xs : Bytes) → Repeated (In digit) xs → All IsDigit xs
unfolding In
Repeated-IsDigit _ no_more = tt
Repeated-IsDigit xs (one_more _ ys zs split (c, e, h) more) =
    subst (All IsDigit) (sym (split ∙ ap (λ l. l ++ zs) e))
      (ground (arith, h), Repeated-IsDigit zs more)

plus-Digits : (xs : Bytes) → In (plus digit) xs → Digits xs
unfolding In
plus-Digits xs (ys, zs, split, (c, e, h), more) =
    subst Digits (sym (split ∙ ap (λ l. l ++ zs) e))
      ((ground (arith, h), Repeated-IsDigit zs more), omega arith)

dot_only : (xs : Bytes) → In (pattern_text (codes ".")) xs → xs ≡ codes "."
unfolding In
dot_only xs (ys, zs, split, (c, e, h), over) =
    let dot : c ≡ b'.' = ground (arith, h) in
    split ∙ ap (λ l. l ++ zs) e ∙ ap (λ l. c ∷ l) over ∙ ap (λ d. d ∷ []) dot

version_read : (text : Bytes) → In semver_regex text → VersionText text
unfolding In
version_read text (major, r1, e1, m, (d, r2, e2, dot, (minor, r3, e3, n, inl over))) = (
  major,
  minor,
  plus-Digits major m,
  plus-Digits minor n,
  inl (
      e1
      ∙ ap (λ r. major ++ r)
          (e2
            ∙ ap (λ l. l ++ r2) (dot_only d dot)
            ∙ ap (λ r. b'.' ∷ r) (e3 ∙ ap (λ r. minor ++ r) over ∙ append-nil minor))),
)
version_read text
      (major, r1, e1, m, (d, r2, e2, dot, (minor, r3, e3, n, inr (d', patch, e4, dot', p)))) =
    (
      major,
      minor,
      plus-Digits major m,
      plus-Digits minor n,
      inr (
        patch,
        plus-Digits patch p,
        e1
            ∙ ap (λ r. major ++ r)
                (e2
                  ∙ ap (λ l. l ++ r2) (dot_only d dot)
                  ∙ ap (λ r. b'.' ∷ r)
                      (e3 ∙ ap (λ r. minor ++ r) (e4 ∙ ap (λ l. l ++ patch) (dot_only d' dot')))),
      ),
    )

version_formed : (text : Bytes) → VersionText text → In semver_regex text
unfolding In
version_formed text (major, minor, m, n, inl e) = (
  major,
  b'.' ∷ minor,
  e,
  digits-In major m.0 m.1,
  (
    codes ".",
    minor,
    refl,
    dot_In,
    (minor, [], sym (append-nil minor), digits-In minor n.0 n.1, inl refl),
  ),
)
version_formed text (major, minor, m, n, inr (patch, p, e)) = (
  major,
  b'.' ∷ (minor ++ (b'.' ∷ patch)),
  e,
  digits-In major m.0 m.1,
  (
    codes ".",
    minor ++ (b'.' ∷ patch),
    refl,
    dot_In,
    (
      minor,
      b'.' ∷ patch,
      refl,
      digits-In minor n.0 n.1,
      inr (codes ".", patch, refl, dot_In, digits-In patch p.0 p.1),
    ),
  ),
)

-- A string is accepted as a version exactly if it is two rows of digits with a dot between them, or
-- three with two dots.
pub validate_sem_version_accepts :
    {V : Type 0} (json : Json V) (j : V) (text : Bytes)
    → json.is_string j ≡ true
    → json.get_string j ≡ some text
    → (validate_sem_version ⦃json = json⦄ j ≡ true) ↔ VersionText text
unfolding validate_sem_version
validate_sem_version_accepts json j text is got =
    let (there, back) = regex_match-In text semver_regex in
    (
      λ h. version_read text (there (ground (arith, is, got, h))),
      λ v. rw (is, got, back (version_formed text v), validate_sem_version) refl,
    )
