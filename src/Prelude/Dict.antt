-- ===== src/Prelude/Dict.antt =====
-- A `std::map` or `std::unordered_map`, as an association list. Its laws are stated
-- through `lookup`, so no result depends on the order of the entries.
use Prim.Native.Nat.{ℕ}
use Prim.Native.String.{String}
use text.Mathlib.Text.{◌==◌ as str_eq}
use text.Mathlib.TextEquality.{eq_iff}
use mathlib.Core.Path.{◌≡◌, refl}
use mathlib.Core.Logic.{◌↔◌}
use mathlib.Core.Bool.{Bool, true, false, not, ◌&&◌}
use mathlib.Core.Option.{Option, none, some}
use mathlib.Core.List.{List, [], ◌∷◌}
use native.Mathlib.Omega.{arith}
use no.Prelude.Tests.{◌==◌, if◌then◌else◌}

-- Equality of keys.
pub record Key (K : Type 0) : Type 0 where
  pub same : K → K → Bool
  pub same_iff : (a b : K) → (same a b ≡ true) ↔ (a ≡ b)

instance abbrev pub string_key : Key String
string_key = record { same = str_eq; same_iff = eq_iff }

abbrev pub bytes_eq : List ℕ → List ℕ → Bool
bytes_eq [] [] = true
bytes_eq (x ∷ xs) (y ∷ ys) = x == y && bytes_eq xs ys
bytes_eq _ _ = false

pub bytes_eq_iff : (a b : List ℕ) → (bytes_eq a b ≡ true) ↔ (a ≡ b)
bytes_eq_iff (x ∷ a) (y ∷ b) = ground (arith, bytes_eq_iff a b)
bytes_eq_iff _ _ = ground arith

instance abbrev pub bytes_key : Key (List ℕ)
bytes_key = record { same = bytes_eq; same_iff = bytes_eq_iff }

module _ {ℓ} {K : Type 0} {V : Type ℓ} ⦃key : Key K⦄ where
  open key use {same, same_iff}

  unfoldable pub lookup : K → List (K × V) → Option V
  lookup k [] = none
  lookup k ((j, v) ∷ m) = if same j k then some v else lookup k m

  -- `m[k] = v`
  unfoldable pub insert : K → V → List (K × V) → List (K × V)
  insert k v [] = (k, v) ∷ []
  insert k v ((j, w) ∷ m) = if same j k then (k, v) ∷ m else (j, w) ∷ insert k v m

  -- Keys are distinct, so `erase` meets its key once.
  unfoldable pub erase : K → List (K × V) → List (K × V)
  erase k [] = []
  erase k ((j, w) ∷ m) = if same j k then m else (j, w) ∷ erase k m

  -- No entry has this key.
  abbrev pub IsFresh : K → List (K × V) → Type 0
  IsFresh k [] = Unit {0}
  IsFresh k ((j, w) ∷ m) = (same j k ≡ false) × IsFresh k m

  -- The keys are distinct.
  abbrev pub HasDistinctKeys : List (K × V) → Type 0
  HasDistinctKeys [] = Unit {0}
  HasDistinctKeys ((j, w) ∷ m) = IsFresh j m × HasDistinctKeys m

  -- The test of the same.
  abbrev pub is_fresh : K → List (K × V) → Bool
  is_fresh k [] = true
  is_fresh k ((j, w) ∷ m) = not (same j k) && is_fresh k m

  abbrev pub has_distinct_keys : List (K × V) → Bool
  has_distinct_keys [] = true
  has_distinct_keys ((j, w) ∷ m) = is_fresh j m && has_distinct_keys m

  is_fresh_lem : (k : K) (m : List (K × V)) → is_fresh k m ≡ true → IsFresh k m
  is_fresh_lem k [] h = tt
  is_fresh_lem k ((j, w) ∷ m) h = (ground (arith, h), is_fresh_lem k m (ground (arith, h)))

  pub has_distinct_keys_lem : (m : List (K × V)) → has_distinct_keys m ≡ true → HasDistinctKeys m
  has_distinct_keys_lem [] h = tt
  has_distinct_keys_lem ((j, w) ∷ m) h =
      (is_fresh_lem j m (ground (arith, h)), has_distinct_keys_lem m (ground (arith, h)))

  pub lookup-insert :
      (k j : K) (v : V) (m : List (K × V))
      → lookup j (insert k v m) ≡ (if same k j then some v else lookup j m)
  unfolding lookup insert
  lookup-insert k j v [] = refl
  lookup-insert k j v ((i, w) ∷ m) =
      ground (arith, same_iff k j, same_iff i k, same_iff i j, lookup-insert k j v m)

  pub IsFresh-lookup : (k : K) (m : List (K × V)) → IsFresh k m → lookup k m ≡ none
  unfolding lookup
  IsFresh-lookup k [] h = refl
  IsFresh-lookup k ((j, w) ∷ m) h = ground (arith, IsFresh-lookup k m)

  pub lookup-erase :
      (k j : K) (m : List (K × V))
      → HasDistinctKeys m
      → lookup j (erase k m) ≡ (if same k j then none else lookup j m)
  unfolding lookup erase
  lookup-erase k j [] h = ground arith
  lookup-erase k j ((i, w) ∷ m) h = ground (
    arith,
    same_iff k j,
    same_iff i k,
    same_iff i j,
    IsFresh-lookup i m h.0,
    lookup-erase k j m h.1,
  )

  IsFresh-insert :
      (i k : K) (v : V) (m : List (K × V))
      → same k i ≡ false
      → IsFresh i m
      → IsFresh i (insert k v m)
  unfolding insert
  IsFresh-insert i k v [] e h = (e, tt)
  IsFresh-insert i k v ((j, w) ∷ m) e h = ground (arith, IsFresh-insert i k v m e h.1)

  pub HasDistinctKeys-insert :
      (k : K) (v : V) (m : List (K × V)) → HasDistinctKeys m → HasDistinctKeys (insert k v m)
  unfolding insert
  HasDistinctKeys-insert k v [] h = (tt, tt)
  HasDistinctKeys-insert k v ((j, w) ∷ m) h =
      ground (
        arith,
        same_iff j k,
        same_iff k j,
        HasDistinctKeys-insert k v m h.1,
        IsFresh-insert j k v m,
      )

  IsFresh-erase : (i k : K) (m : List (K × V)) → IsFresh i m → IsFresh i (erase k m)
  unfolding erase
  IsFresh-erase i k [] h = tt
  IsFresh-erase i k ((j, w) ∷ m) h = ground (arith, IsFresh-erase i k m h.1)

  pub HasDistinctKeys-erase :
      (k : K) (m : List (K × V)) → HasDistinctKeys m → HasDistinctKeys (erase k m)
  unfolding erase
  HasDistinctKeys-erase k [] h = tt
  HasDistinctKeys-erase k ((j, w) ∷ m) h =
      ground (arith, HasDistinctKeys-erase k m h.1, IsFresh-erase j k m h.0)
