-- ===== src/Package/Spdx/Scripts.antt =====
-- The distance of two texts (lib/src/core/static/SPDX.cc) against scripts that edit one into the other.
use no.Prelude.{
  ℕ, suc, ◌≤◌, ◌≡◌, [], ◌∷◌, Bytes, arith, length, refl, subst, Bool-cases, leb, ◌==◌, ◌&&◌, inl,
  inr, ◌⊎◌, ◌+◌,
}
use no.Package.Spdx.{levenstein}

-- A way to turn a text into another by keeping, replacing, deleting and inserting bytes, with the
-- number of those that are not kept.
pub data Script : Bytes → Bytes → ℕ → Type 0 where
  done : Script [] [] 0
  keep : (x : ℕ) {a b : Bytes} {n : ℕ} → Script a b n → Script (x ∷ a) (x ∷ b) n
  replace : (x y : ℕ) {a b : Bytes} {n : ℕ} → Script a b n → Script (x ∷ a) (y ∷ b) (suc n)
  delete : (x : ℕ) {a b : Bytes} {n : ℕ} → Script a b n → Script (x ∷ a) b (suc n)
  insert : (y : ℕ) {a b : Bytes} {n : ℕ} → Script a b n → Script a (y ∷ b) (suc n)

pub levenstein_sym : (a b : Bytes) → levenstein a b ≡ levenstein b a
unfolding levenstein
levenstein_sym [] [] = refl
levenstein_sym [] (y ∷ b) = omega arith
levenstein_sym (x ∷ a) [] = omega arith
levenstein_sym (x ∷ a) (y ∷ b) =
    ground (arith, levenstein_sym a b, levenstein_sym (x ∷ a) b, levenstein_sym a (y ∷ b))

levenstein-delete :
    (x : ℕ) (a b : Bytes)
    → ((y : ℕ) (c : Bytes) → levenstein a c ≤ suc (levenstein a (y ∷ c)))
    → levenstein (x ∷ a) b ≤ suc (levenstein a b)
unfolding levenstein
levenstein-delete x [] [] shorter = omega arith
levenstein-delete x (z ∷ a) [] shorter = omega arith
levenstein-delete x a (y ∷ b) shorter = ground (arith, shorter y b)

-- Taking a byte away changes the distance by one at most.
levenstein_shorter : (a : Bytes) (y : ℕ) (b : Bytes) → levenstein a b ≤ suc (levenstein a (y ∷ b))
unfolding levenstein
levenstein_shorter [] y b = omega arith
levenstein_shorter (x ∷ a) y b =
    let deleted = levenstein-delete x a b (levenstein_shorter a) in
    ground (arith, deleted, levenstein_shorter a y b)

script_bound : {a b : Bytes} {n : ℕ} → Script a b n → levenstein a b ≤ n
unfolding levenstein
script_bound done = omega arith
script_bound (keep x script) = ground (arith, script_bound script)
script_bound (replace x y script) = ground (arith, script_bound script)
script_bound (delete x {a = a} {b = b} script) =
    omega (arith, script_bound script, levenstein-delete x a b (levenstein_shorter a))
script_bound (insert y {a = a} {b = b} script) = omega (
  arith,
  script_bound script,
  levenstein_sym a (y ∷ b),
  levenstein_sym a b,
  levenstein-delete y b a (levenstein_shorter b),
)

insert_all : (b : Bytes) → Script [] b (length b)
insert_all [] = done
insert_all (y ∷ b) = insert y (insert_all b)

delete_all : (a : Bytes) → Script a [] (length a)
delete_all [] = done
delete_all (x ∷ a) = delete x (delete_all a)

script_of : (a b : Bytes) → Script a b (levenstein a b)
unfolding levenstein
script_of [] b = insert_all b
script_of (x ∷ a) [] = delete x (delete_all a)
script_of (x ∷ a) (y ∷ b) =
    let whole = levenstein (x ∷ a) (y ∷ b) in
    let both = levenstein a b in
    let insertion = levenstein (x ∷ a) b in
    let deletion = levenstein a (y ∷ b) in
    elim (Bool-cases (x == y)) [
      | inl same ↦
          subst (λ z. Script (x ∷ a) (z ∷ b) whole) (ground (arith, same))
            (subst (Script (x ∷ a) (x ∷ b)) (ground (arith, same)) (keep x (script_of a b)))
      | inr other ↦ elim (Bool-cases (leb insertion deletion && leb insertion both)) [
        | inl i ↦
            subst (Script (x ∷ a) (y ∷ b)) (ground (arith, other, i))
              (insert y (script_of (x ∷ a) b))
        | inr not_i ↦ elim (Bool-cases (leb deletion both)) [
          | inl d ↦
              subst (Script (x ∷ a) (y ∷ b)) (ground (arith, other, not_i, d))
                (delete x (script_of a (y ∷ b)))
          | inr not_d ↦
              subst (Script (x ∷ a) (y ∷ b)) (ground (arith, other, not_i, not_d))
                (replace x y (script_of a b))
        ]
      ]
    ]

-- The distance is the least number of replacements, deletions and insertions that turn one text into
-- the other: a script has that many, and no script has fewer.
pub levenstein-Script :
    (a b : Bytes) → Script a b (levenstein a b) × ((n : ℕ) → Script a b n → levenstein a b ≤ n)
levenstein-Script a b = (script_of a b, λ n script. script_bound script)

-- The distance is at least the difference of the lengths and at most the longer length.
pub levenstein-length :
    (a b : Bytes)
    → (length a ≤ length b + levenstein a b)
      × (length b ≤ length a + levenstein a b)
      × ((levenstein a b ≤ length a) ⊎ (levenstein a b ≤ length b))
unfolding levenstein
levenstein-length [] b = (omega arith, omega arith, inr (omega arith))
levenstein-length (x ∷ a) [] = (omega arith, omega arith, inl (omega arith))
levenstein-length (x ∷ a) (y ∷ b) =
    ground (arith, levenstein-length a b, levenstein-length (x ∷ a) b, levenstein-length a (y ∷ b))
