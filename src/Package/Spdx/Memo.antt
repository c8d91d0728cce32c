-- ===== src/Package/Spdx/Memo.antt =====
-- `Levenstein` of lib/src/core/static/SPDX.cc with its memo table.
use no.Prelude.{
  ℕ, zero, suc, ◌-◌, ◌^◌, true, false, not, ◌&&◌, [], ◌∷◌, Bytes, ◌≡◌, ◌⊎◌, inl, inr, refl, sym, ap,
  ◌∙◌, arith, length, drop, min, ◌==◌, if◌then◌else◌, Bool-cases,
}
use no.Package.Spdx.{levenstein}

abbrev pub Memo : Type 0
Memo = ℕ → ℕ → ℕ

-- `static_cast<size_t>(-1)`
abbrev unset : ℕ
unset = 2 ^ 64 - 1

-- `memo[i][j] = value`
abbrev store : ℕ → ℕ → ℕ → Memo → Memo
store i j value memo k l = if k == i && l == j then value else memo k l

-- `return memo[i][j] = value`, behind the calls that gave the value and the table.
abbrev pub remember : ℕ → ℕ → ℕ × Memo → ℕ × Memo
remember i j (value, memo) = (value, store i j value memo)

-- `1 + std::min({…})` of three values.
abbrev one_more_than_least : ℕ → ℕ → ℕ → ℕ
one_more_than_least a b c = suc (min a (min b c))

-- `dp(i, j)`, where the two texts are what is left of `a` from `i` on and of `b` from `j` on.
unfoldable pub dp : Bytes → Bytes → ℕ → ℕ → Memo → ℕ × Memo
dp [] b i j memo =
    if not (memo i j == unset) then (memo i j, memo) else remember i j (length b, memo)
dp (x ∷ a) [] i j memo =
    if not (memo i j == unset) then (memo i j, memo) else remember i j (suc (length a), memo)
dp (x ∷ a) (y ∷ b) i j memo =
    let both = dp a b (suc i) (suc j) memo in
    let insertion = dp (x ∷ a) b i (suc j) memo in
    let deletion = dp a (y ∷ b) (suc i) j insertion.1 in
    let replacement = dp a b (suc i) (suc j) deletion.1 in
    if not (memo i j == unset)
    then (memo i j, memo)
    else if x == y
    then remember i j both
    else remember i j (one_more_than_least insertion.0 deletion.0 replacement.0, replacement.1)

unfoldable pub memo_levenstein : Bytes → Bytes → ℕ
memo_levenstein a b = (dp a b 0 0 (λ i j. unset)).0

drop_next :
    (i : ℕ) (whole : Bytes) (x : ℕ) (a : Bytes) → drop i whole ≡ x ∷ a → drop (suc i) whole ≡ a
drop_next zero [] x a e = absurd (cc)
drop_next zero (w ∷ whole) x a e = cc
drop_next (suc i) [] x a e = absurd (cc)
drop_next (suc i) (w ∷ whole) x a e = drop_next i whole x a e

step_same : (x y : ℕ) (a b : Bytes) → (x == y) ≡ true → levenstein a b ≡ levenstein (x ∷ a) (y ∷ b)
unfolding levenstein
step_same x y a b e = rw e refl

step_other :
    (x y : ℕ) (a b : Bytes)
    → (x == y) ≡ false
    → one_more_than_least (levenstein (x ∷ a) b) (levenstein a (y ∷ b)) (levenstein a b)
      ≡ levenstein (x ∷ a) (y ∷ b)
unfolding levenstein
step_other x y a b e = rw e refl

least_of :
    {m m' n n' k k' : ℕ}
    → m ≡ m'
    → n ≡ n'
    → k ≡ k'
    → one_more_than_least m n k ≡ one_more_than_least m' n' k'
least_of p q r = rw (p, q, r) refl

at_both : {a a' b b' : Bytes} → a ≡ a' → b ≡ b' → levenstein a b ≡ levenstein a' b'
at_both p q = rw (p, q) refl

module _ (whole_a whole_b : Bytes) where
  -- What the table holds is right.
  abbrev IsRight : Memo → Type 0
  IsRight memo =
      (i j : ℕ) → (memo i j ≡ unset) ⊎ (memo i j ≡ levenstein (drop i whole_a) (drop j whole_b))

  abbrev Right : ℕ → ℕ → ℕ × Memo → Type 0
  Right i j (value, memo) = (value ≡ levenstein (drop i whole_a) (drop j whole_b)) × IsRight memo

  remember-Right :
      (i j : ℕ) (result : ℕ × Memo) → Right i j result → Right i j (remember i j result)
  remember-Right i j (value, memo) h = (
    h.0,
    λ k l. elim (Bool-cases (k == i && l == j)) [
      | inl here ↦ rw here (
          inr (
            h.0
            ∙ ap (λ n. levenstein (drop n whole_a) (drop j whole_b)) (ground (arith, here))
            ∙ ap (λ n. levenstein (drop k whole_a) (drop n whole_b)) (ground (arith, here))))
      | inr elsewhere ↦ rw elsewhere (h.1 k l)
    ],
  )

  known-Right :
      (i j : ℕ) (memo : Memo) (otherwise : ℕ × Memo)
      → IsRight memo
      → (memo i j ≡ unset → Right i j otherwise)
      → Right i j (if not (memo i j == unset) then (memo i j, memo) else otherwise)
  known-Right i j memo otherwise h h' = elim (Bool-cases (memo i j == unset)) [
    | inl e ↦ rw e (h' (ground (arith, e)))
    | inr e ↦ rw e (elim (h i j) [ inl u ↦ absurd (ground (arith, e, u)) | inr right ↦ (right, h) ])
  ]

  dp-Right :
      (a b : Bytes) (i j : ℕ) (memo : Memo)
      → drop i whole_a ≡ a
      → drop j whole_b ≡ b
      → IsRight memo
      → Right i j (dp a b i j memo)
  unfolding dp levenstein
  dp-Right [] b i j memo p q h =
      known-Right i j memo _ h (λ u. remember-Right i j (length b, memo) (rw (p, q) refl, h))
  dp-Right (x ∷ a) [] i j memo p q h =
      known-Right i j memo _ h (λ u. remember-Right i j (suc (length a), memo) (rw (p, q) refl, h))
  dp-Right (x ∷ a) (y ∷ b) i j memo p q h =
      let next_a = drop_next i whole_a x a p in
      let next_b = drop_next j whole_b y b q in
      let both = dp-Right a b (suc i) (suc j) memo next_a next_b h in
      let insertion = dp-Right (x ∷ a) b i (suc j) memo p next_b h in
      let deletion =
        dp-Right a (y ∷ b) (suc i) j (dp (x ∷ a) b i (suc j) memo).1 next_a q insertion.1 in
      let replacement =
        dp-Right a b (suc i) (suc j) (dp a (y ∷ b) (suc i) j (dp (x ∷ a) b i (suc j) memo).1).1
          next_a next_b deletion.1 in
      known-Right i j memo _ h (λ u. elim (Bool-cases (x == y)) [
        | inl same ↦ rw same (
            remember-Right i j _
              (both.0 ∙ at_both next_a next_b ∙ step_same x y a b same ∙ sym (at_both p q), both.1))
        | inr other ↦ rw other (
            remember-Right i j _ (
              least_of (insertion.0 ∙ at_both p next_b) (deletion.0 ∙ at_both next_a q)
                    (replacement.0 ∙ at_both next_a next_b)
                  ∙ step_other x y a b other
                  ∙ sym (at_both p q),
              replacement.1,
            ))
      ])

-- The memo table changes no result: the distance that the code computes is the one that the recursion
-- without a table gives.
pub memo_levenstein-levenstein : (a b : Bytes) → memo_levenstein a b ≡ levenstein a b
unfolding memo_levenstein
memo_levenstein-levenstein a b = (dp-Right a b a b 0 0 (λ i j. unset) refl refl (λ i j. inl refl)).0
