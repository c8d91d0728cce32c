-- ===== src/Init/Command/Fresh.antt =====
-- The folder of a new package: `GetNewPackagePath` of lib/src/init/Run.cc.
use no.Prelude.{
  ℕ, zero, suc, ◌+◌, ◌≤◌, ◌<◌, true, false, Option, none, some, Bytes, ◌≡◌, ◌⊎◌, inl, inr, arith,
  ltb, Option-cases, Bool-cases, refl, subst,
}
use no.FileSystem.{FileSystem, join}
use no.Json.{Json}
use no.Init.Templates.{get_package_name}
use no.Init.Command.{folder_name, try_paths, get_new_package_path, value_or}

module _ {S V : Type 0} (fs : FileSystem S) (json : Json V) (directory just_name : Bytes)
    (s : S) where
  abbrev pub canidate : ℕ → Bytes
  canidate attempts = join directory (folder_name just_name attempts)

  -- Every folder from one attempt up to another exists.
  abbrev pub Taken : ℕ → ℕ → Type 0
  Taken first last = (j : ℕ) → first ≤ j → j < last → fs.exists (canidate j) s ≡ some true

  abbrev pub normal : ℕ → Bytes
  normal k = value_or (fs.absolute_normal (canidate k) s) (canidate k)

  -- Why the loop ends at an attempt with a result: the folder is free, the test throws, or no
  -- attempt is left.
  abbrev pub Ends : ℕ → Option Bytes → Type 0
  Ends k result =
      ((k ≤ 65535) × (fs.exists (canidate k) s ≡ some false) × (result ≡ some (normal k)))
      ⊎ (((k ≤ 65535) × (fs.exists (canidate k) s ≡ none) × (result ≡ none))
          ⊎ ((k ≡ 65536) × (result ≡ none)))

  Taken-more :
      (attempts k : ℕ)
      → fs.exists (canidate attempts) s ≡ some true
      → Taken (suc attempts) k
      → Taken attempts k
  Taken-more attempts k taken before j low high = elim (Bool-cases (ltb attempts j)) [
    | inl later ↦ before j (ground (arith, later)) high
    | inr now ↦ subst (λ n. fs.exists (canidate n) s ≡ some true) (ground (arith, now, low)) taken
  ]

  try_paths_lem :
      (fuel attempts : ℕ)
      → 65537 ≤ fuel + attempts
      → attempts ≤ 65536
      → (k : ℕ) × Taken attempts k × Ends k (try_paths fs json fuel directory just_name attempts s)
  unfolding try_paths
  try_paths_lem zero attempts enough within = absurd (omega arith)
  try_paths_lem (suc fuel) attempts enough within = elim (Bool-cases (ltb 65535 attempts)) [
    | inl over ↦ (
      attempts,
      λ j low high. absurd (omega arith),
      rw over (inr (inr (ground (arith, over, within), refl))),
    )
    | inr more ↦ elim (Option-cases (fs.exists (canidate attempts) s)) [
      | inl thrown ↦ (
        attempts,
        λ j low high. absurd (omega arith),
        rw (more, thrown) (inr (inl (ground (arith, more), refl, refl))),
      )
      | inr (true, taken) ↦
          let (k, before, ends) =
            try_paths_lem fuel (suc attempts) (omega (arith, enough)) (ground (arith, more)) in
          (k, Taken-more attempts k taken before, rw (more, taken) ends)
      | inr (false, free) ↦ (
        attempts,
        λ j low high. absurd (omega arith),
        rw (more, free) (inl (ground (arith, more), refl, refl)),
      )
    ]
  ]

-- The search for a folder ends at an attempt from 0 to 65536 before which every folder exists: with the
-- normal form of the first free folder, or without a result where a test throws or all 65536
-- folders exist.
pub get_new_package_path-Ends :
    {S V : Type 0} (fs : FileSystem S) (json : Json V) (directory name : Bytes) (s : S)
    → (k : ℕ) × Taken fs json directory (get_package_name name) s 0 k
      × Ends fs json directory
          (get_package_name name)
          s
          k
          (get_new_package_path fs json directory name s)
unfolding get_new_package_path
get_new_package_path-Ends fs json directory name s =
    try_paths_lem fs json directory (get_package_name name) s 65537 0 (omega arith) (omega arith)
