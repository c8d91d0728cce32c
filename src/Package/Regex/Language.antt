-- ===== src/Package/Regex/Language.antt =====
-- The texts that a pattern stands for, and that `regex_match` finds exactly these.
use no.Prelude.{
  ℕ, Bool, true, false, List, [], ◌∷◌, ◌++◌, Bytes, ◌≡◌, ◌⊎◌, ◌↔◌, inl, inr, refl, sym, ap, subst,
  ◌∙◌, arith, Bool-cases, if◌then◌else◌,
}
use no.Package.Regex.{
  Regex, nothing, empty, class, seq, alt, star, in_class, nullable, derivative, regex_match,
}

-- A row of texts, each with a property, one behind the other.
pub data Repeated (P : Bytes → Type 0) : Bytes → Type 0 where
  no_more : Repeated P []
  one_more : (xs ys zs : Bytes) → xs ≡ ys ++ zs → P ys → Repeated P zs → Repeated P xs

-- The language of a pattern.
unfoldable pub In : Regex → Bytes → Type 0
In nothing xs = ⊥
In empty xs = xs ≡ []
In (class ranges) xs = (c : ℕ) × (xs ≡ c ∷ []) × (in_class c ranges ≡ true)
In (seq r s) xs = (ys : Bytes) × (zs : Bytes) × (xs ≡ ys ++ zs) × In r ys × In s zs
In (alt r s) xs = In r xs ⊎ In s xs
In (star r) xs = Repeated (In r) xs

In-nullable : (r : Regex) → In r [] → nullable r ≡ true
unfolding In
In-nullable nothing h = absurd h
In-nullable empty h = refl
In-nullable (class ranges) (c, e, h) = absurd (cc)
In-nullable (seq r s) ([], zs, e, p, q) =
    ground (arith, In-nullable r p, In-nullable s (subst (In s) (sym e) q))
In-nullable (seq r s) (y ∷ ys, zs, e, p, q) = absurd (cc)
In-nullable (alt r s) (inl p) = ground (arith, In-nullable r p)
In-nullable (alt r s) (inr q) = ground (arith, In-nullable s q)
In-nullable (star r) h = refl

nullable-In : (r : Regex) → nullable r ≡ true → In r []
unfolding In
nullable-In nothing h = absurd (cc)
nullable-In empty h = refl
nullable-In (class ranges) h = absurd (cc)
nullable-In (seq r s) h =
    ([], [], refl, nullable-In r (ground (arith, h)), nullable-In s (ground (arith, h)))
nullable-In (alt r s) h = elim (Bool-cases (nullable r)) [
  | inl e ↦ inl (nullable-In r e)
  | inr e ↦ inr (nullable-In s (ground (arith, h, e)))
]
nullable-In (star r) h = no_more

-- The branch of the derivative of a sequence whose first part is over.
seq_second :
    (c : ℕ) (cs : Bytes) (r s : Regex)
    → nullable r ≡ true
    → In (derivative c s) cs
    → In (derivative c (seq r s)) cs
unfolding In
seq_second c cs r s e q = rw e (inr q)

seq_first :
    (c : ℕ) (cs : Bytes) (r s : Regex)
    → In (seq (derivative c r) s) cs
    → In (derivative c (seq r s)) cs
unfolding In
seq_first c cs r s h = elim (Bool-cases (nullable r)) [ inl e ↦ rw e (inl h) | inr e ↦ rw e h ]

cons-head : (c d : ℕ) (cs ds : Bytes) → c ∷ cs ≡ d ∷ ds → (c ≡ d) × (cs ≡ ds)
cons-head c d cs ds e = (cc, cc)

derivative-Repeated :
    (r : Regex)
    → ((c : ℕ) (cs : Bytes) → In r (c ∷ cs) → In (derivative c r) cs)
    → (c : ℕ) (cs xs : Bytes) → c ∷ cs ≡ xs
    → Repeated (In r) xs
    → In (derivative c (star r)) cs
unfolding In
derivative-Repeated r step c cs [] e no_more = absurd (cc)
derivative-Repeated r step c cs xs e (one_more _ [] zs split p more) =
    derivative-Repeated r step c cs zs (e ∙ split) more
derivative-Repeated r step c cs xs e (one_more _ (y ∷ ys) zs split p more) =
    let (head, tail) = cons-head c y cs (ys ++ zs) (e ∙ split) in
    (ys, zs, tail, subst (λ d. In (derivative d r) ys) (sym head) (step y ys p), more)

In-derivative : (r : Regex) (c : ℕ) (cs : Bytes) → In r (c ∷ cs) → In (derivative c r) cs
unfolding In
In-derivative nothing c cs h = absurd h
In-derivative empty c cs h = absurd (cc)
In-derivative (class ranges) c cs (d, e, h) =
    let (head, tail) = cons-head c d cs [] e in
    rw (subst (λ x. in_class x ranges ≡ true) (sym head) h) tail
In-derivative (seq r s) c cs ([], zs, e, p, q) =
    seq_second c cs r s (In-nullable r p) (In-derivative s c cs (subst (In s) (sym e) q))
In-derivative (seq r s) c cs (y ∷ ys, zs, e, p, q) =
    let (head, tail) = cons-head c y cs (ys ++ zs) e in
    seq_first c cs r s
      (ys, zs, tail, In-derivative r c ys (subst (λ d. In r (d ∷ ys)) (sym head) p), q)
In-derivative (alt r s) c cs (inl p) = inl (In-derivative r c cs p)
In-derivative (alt r s) c cs (inr q) = inr (In-derivative s c cs q)
In-derivative (star r) c cs h =
    derivative-Repeated r (λ d ds. In-derivative r d ds) c cs (c ∷ cs) refl h

class_left :
    (c : ℕ) (cs : Bytes) (ranges : List (ℕ × ℕ)) (b : Bool)
    → in_class c ranges ≡ b
    → In (if b then empty else nothing) cs
    → In (class ranges) (c ∷ cs)
unfolding In
class_left c cs ranges true e h = (c, ap (λ l. c ∷ l) h, e)
class_left c cs ranges false e h = absurd h

seq_left :
    (c : ℕ) (cs : Bytes) (r s : Regex)
    → ((ys : Bytes) → In (derivative c r) ys → In r (c ∷ ys))
    → ((ys : Bytes) → In (derivative c s) ys → In s (c ∷ ys))
    → (b : Bool) → nullable r ≡ b
    → In (if b then alt (seq (derivative c r) s) (derivative c s) else seq (derivative c r) s) cs
    → In (seq r s) (c ∷ cs)
unfolding In
seq_left c cs r s first second true e (inl (ys, zs, split, p, q)) =
    (c ∷ ys, zs, ap (λ l. c ∷ l) split, first ys p, q)
seq_left c cs r s first second true e (inr q) = ([], c ∷ cs, refl, nullable-In r e, second cs q)
seq_left c cs r s first second false e (ys, zs, split, p, q) =
    (c ∷ ys, zs, ap (λ l. c ∷ l) split, first ys p, q)

derivative-In : (r : Regex) (c : ℕ) (cs : Bytes) → In (derivative c r) cs → In r (c ∷ cs)
unfolding In
derivative-In nothing c cs h = absurd h
derivative-In empty c cs h = absurd h
derivative-In (class ranges) c cs h = class_left c cs ranges (in_class c ranges) refl h
derivative-In (seq r s) c cs h =
    seq_left c cs r s (derivative-In r c) (derivative-In s c) (nullable r) refl h
derivative-In (alt r s) c cs (inl p) = inl (derivative-In r c cs p)
derivative-In (alt r s) c cs (inr q) = inr (derivative-In s c cs q)
derivative-In (star r) c cs (ys, zs, e, p, more) =
    one_more (c ∷ cs) (c ∷ ys) zs (ap (λ l. c ∷ l) e) (derivative-In r c ys p) more

-- A text matches a pattern exactly if it is in the language that the pattern stands for.
pub regex_match-In : (text : Bytes) (r : Regex) → (regex_match text r ≡ true) ↔ In r text
unfolding regex_match
regex_match-In [] r = (nullable-In r, In-nullable r)
regex_match-In (c ∷ cs) r =
    let (there, back) = regex_match-In cs (derivative c r) in
    (λ h. derivative-In r c cs (there h), λ h. back (In-derivative r c cs h))
