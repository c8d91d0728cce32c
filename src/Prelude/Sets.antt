-- ===== src/Prelude/Sets.antt =====
-- A `std::set`, as the list of its elements in ascending order.
use mathlib.Core.Path.{◌≡◌, refl, ap, ◌∙◌, sym, subst}
use mathlib.Core.Bool.{Bool, true, false, not, ◌&&◌, ◌||◌}
use mathlib.Core.List.{List, [], ◌∷◌, ◌++◌}
use native.Mathlib.Omega.{arith}
use Prim.Native.Nat.{ℕ}
use no.Prelude.Tests.{if◌then◌else◌, ltb}
use no.Prelude.Lists.{All, append_assoc, append-nil}

-- The order of the elements.
pub record Order (K : Type 0) : Type 0 where
  pub less : K → K → Bool
  pub less_asym : (a b : K) → less a b ≡ true → less b a ≡ false

abbrev pub bytes_less : List ℕ → List ℕ → Bool
bytes_less [] [] = false
bytes_less [] (y ∷ ys) = true
bytes_less (x ∷ xs) [] = false
bytes_less (x ∷ xs) (y ∷ ys) = ltb x y || (not (ltb y x) && bytes_less xs ys)

pub bytes_less_asym : (a b : List ℕ) → bytes_less a b ≡ true → bytes_less b a ≡ false
bytes_less_asym [] [] h = refl
bytes_less_asym [] (y ∷ ys) h = refl
bytes_less_asym (x ∷ xs) [] h = ground (arith, h)
bytes_less_asym (x ∷ xs) (y ∷ ys) h = ground (arith, h, bytes_less_asym xs ys)

-- `std::string` compares by its bytes.
instance abbrev pub bytes_order : Order (List ℕ)
bytes_order = record { less = bytes_less; less_asym = bytes_less_asym }

module _ {K : Type 0} ⦃order : Order K⦄ where
  open order use {less, less_asym}

  -- `s.insert(k)`
  unfoldable pub add : K → List K → List K
  add k [] = k ∷ []
  add k (j ∷ s) = if less k j then k ∷ j ∷ s else if less j k then j ∷ add k s else j ∷ s

  -- `s.erase(k)`
  unfoldable pub remove : K → List K → List K
  remove k [] = []
  remove k (j ∷ s) = if less k j || less j k then j ∷ remove k s else s

  -- `s.contains(k)`
  unfoldable pub contains : K → List K → Bool
  contains k [] = false
  contains k (j ∷ s) = not (less k j || less j k) || contains k s

  -- Every element of a list put into a set, from the first on.
  unfoldable pub add_all : List K → List K → List K
  add_all s [] = s
  add_all s (k ∷ ks) = add_all (add k s) ks

  -- Ascending, hence without duplicates.
  abbrev pub IsAscending : List K → Type 0
  IsAscending [] = Unit {0}
  IsAscending (k ∷ s) = All (λ j. less k j ≡ true) s × IsAscending s

  add_last : (k : K) (s : List K) → All (λ j. less j k ≡ true) s → add k s ≡ s ++ k ∷ []
  unfolding add
  add_last k [] h = refl
  add_last k (j ∷ s) h = rw (less_asym j k h.0, h.0) (ap (λ l. j ∷ l) (add_last k s h.1))

  All-middle : (P : K → Type 0) (s : List K) (k : K) (ks : List K) → All P (s ++ k ∷ ks) → P k
  All-middle P [] k ks h = h.0
  All-middle P (j ∷ s) k ks h = All-middle P s k ks h.1

  -- What stands before an element of an ascending list is below it.
  ascending_before :
      (s : List K) (k : K) (ks : List K) → IsAscending (s ++ k ∷ ks) → All (λ j. less j k ≡ true) s
  ascending_before [] k ks h = tt
  ascending_before (j ∷ s) k ks h =
      (All-middle (λ i. less j i ≡ true) s k ks h.0, ascending_before s k ks h.1)

  add_all-append : (s ks : List K) → IsAscending (s ++ ks) → add_all s ks ≡ s ++ ks
  unfolding add_all
  add_all-append s [] h = sym (append-nil s)
  add_all-append s (k ∷ ks) h =
      let regrouped = append_assoc s (k ∷ []) ks in
      rw (add_last k s (ascending_before s k ks h))
        (add_all-append (s ++ k ∷ []) ks (subst IsAscending (sym regrouped) h) ∙ regrouped)

  -- Read back in the order in which a set lists them, the elements make the same set.
  pub add_all_id : (ks : List K) → IsAscending ks → add_all [] ks ≡ ks
  add_all_id ks h = add_all-append [] ks h

-- The entries of a map in the order of their keys.
abbrev insert_by_key {ℓ} : {V : Type ℓ} → List ℕ → V → List (List ℕ × V) → List (List ℕ × V)
insert_by_key k v [] = (k, v) ∷ []
insert_by_key k v ((j, w) ∷ m) =
    if bytes_less j k then (j, w) ∷ insert_by_key k v m else (k, v) ∷ (j, w) ∷ m

abbrev pub by_key {ℓ} : {V : Type ℓ} → List (List ℕ × V) → List (List ℕ × V)
by_key [] = []
by_key ((k, v) ∷ m) = insert_by_key k v (by_key m)
