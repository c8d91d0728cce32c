-- ===== src/Package/Spdx/Closest.antt =====
-- What the search for the closest license finds, and when the distance is zero.
use no.Prelude.{
  ℕ, ◌+◌, ◌-◌, ◌^◌, ◌≤◌, ◌<◌, ◌≡◌, ◌⊎◌, ◌↔◌, subst, sym, inl, inr, refl, [], ◌∷◌, Bytes, arith, All,
  ltb, length, Bool-cases, map, value,
}
use no.Package.Spdx.{Table, levenstein, find_closest, find_closest_spdx_license, tolower}

-- The distance of a text from itself is zero.
levenstein_same : (a : Bytes) → levenstein a a ≡ 0
unfolding levenstein
levenstein_same [] = refl
levenstein_same (x ∷ a) = ground (arith, levenstein_same a)

levenstein_zero : (a b : Bytes) → levenstein a b ≡ 0 → a ≡ b
unfolding levenstein
levenstein_zero [] [] h = refl
levenstein_zero [] (y ∷ b) h = absurd (omega arith)
levenstein_zero (x ∷ a) [] h = absurd (omega arith)
levenstein_zero (x ∷ a) (y ∷ b) h = ground (arith, h, levenstein_zero a b)

-- The distance is at most the two lengths together.
levenstein_bound : (a b : Bytes) → levenstein a b ≤ length a + length b
unfolding levenstein
levenstein_bound [] b = omega arith
levenstein_bound (x ∷ a) [] = omega arith
levenstein_bound (x ∷ a) (y ∷ b) =
    ground (arith, levenstein_bound a b, levenstein_bound a (y ∷ b), levenstein_bound (x ∷ a) b)

-- A license of the table whose identifier is at a distance from the query.
abbrev pub At : (license : Bytes) (distance : ℕ) (query : Bytes) → Table → Type 0
At license distance query [] = ⊥
At license distance query ((identifier, name) ∷ table) =
    ((name ≡ license) × (levenstein identifier query ≡ distance)) ⊎ At license distance query table

-- No identifier of the table is nearer.
abbrev pub NoneNearer : (distance : ℕ) (query : Bytes) → Table → Type 0
NoneNearer distance query table = All (λ entry. distance ≤ levenstein entry.0 query) table

-- The best distance, and where it comes from.
abbrev Searched : (license : Bytes) (minv : ℕ) (mini query : Bytes) → Table → Type 0
Searched license minv mini query table =
    (best : ℕ) × (best ≤ minv)
    × NoneNearer best query table
    × (((license ≡ mini) × (best ≡ minv)) ⊎ At license best query table)

find_closest_lem :
    (minv : ℕ) (mini query : Bytes) (table : Table)
    → Searched (find_closest minv mini query table) minv mini query table
unfolding find_closest
find_closest_lem minv mini query [] = (minv, omega arith, tt, inl (refl, refl))
find_closest_lem minv mini query ((identifier, name) ∷ table) =
    let dist = levenstein identifier query in
    let whole : Table = (identifier, name) ∷ table in
    elim (Bool-cases (ltb dist minv)) [
      | inl nearer ↦
          let (best, within, none_nearer, source) = find_closest_lem dist name query table in
          subst (λ license. Searched license minv mini query whole) (rw nearer refl)
            (
              best,
              ground (arith, nearer, within),
              (within, none_nearer),
              elim source [
                | inl taken ↦ inr (inl (sym taken.0, sym taken.1))
                | inr at ↦ inr (inr at)
              ],
            )
      | inr farther ↦
          let (best, within, none_nearer, source) = find_closest_lem minv mini query table in
          subst (λ license. Searched license minv mini query whole) (rw farther refl)
            (
              best,
              within,
              (ground (arith, farther, within), none_nearer),
              elim source [ inl unchanged ↦ inl unchanged | inr at ↦ inr (inr at) ],
            )
    ]

length-map : (f : ℕ → ℕ) (xs : Bytes) → length (map f xs) ≡ length xs
length-map f [] = refl
length-map f (x ∷ xs) = omega (arith, length-map f xs)

-- On a table that is not empty the search meets no failed assertion and gives a license of the table
-- whose lower-case identifier is at the least distance from the query in lower case. The lengths of
-- an identifier and the query together are below 2 ^ 64 - 1.
pub find_closest_spdx_license-At :
    (entry : Bytes × Bytes) (table : Table) (query : Bytes)
    → All (λ e. length e.0 + length query < 2 ^ 64 - 1) (entry ∷ table)
    → (license : Bytes) × (distance : ℕ) × (find_closest_spdx_license (entry ∷ table) query
        ≡ value license)
      × At license distance (map tolower query) (entry ∷ table)
      × NoneNearer distance (map tolower query) (entry ∷ table)
unfolding find_closest_spdx_license
find_closest_spdx_license-At (identifier, name) table query fits =
    let lowered = map tolower query in
    let (best, within, none_nearer, source) =
      find_closest_lem (2 ^ 64 - 1) [] lowered ((identifier, name) ∷ table) in
    let bound = levenstein_bound identifier lowered in
    let same_length = length-map tolower query in
    (
      find_closest (2 ^ 64 - 1) [] lowered ((identifier, name) ∷ table),
      best,
      refl,
      elim source [
        | inl unchanged ↦
            absurd (omega (arith, unchanged.1, none_nearer.0, bound, same_length, fits.0))
        | inr at ↦ at
      ],
      none_nearer,
    )

-- The distance is zero for equal texts and for no others.
levenstein_zero_iff : (a b : Bytes) → (levenstein a b ≡ 0) ↔ (a ≡ b)
levenstein_zero_iff a b =
    (levenstein_zero a b, λ e. subst (λ t. levenstein a t ≡ 0) e (levenstein_same a))
