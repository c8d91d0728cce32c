-- ===== src/Package/Convert/Fields.antt =====
-- The fields of a value that the code builds, and their tests
-- (lib/src/core/package/Manifest.cc).
use no.Prelude.{
  Bool, true, ◌&&◌, none, some, List, [], ◌∷◌, Bytes, codes, ◌≡◌, refl, ◌∙◌, arith, All, all, map,
}
use no.Prelude.Dict.{bytes_key, lookup, has_distinct_keys, has_distinct_keys_lem}
use no.Json.{Json, JsonLaws}
use no.Package.Validate.{has, text_is, array_of}
use no.Package.Convert.Print.{texts}

pub both : {a b : Bool} → a ≡ true → b ≡ true → (a && b) ≡ true
both p q = rw (p, q) refl

pub all-map :
    {A V : Type 0} (f : A → V) (ok : V → Bool) (xs : List A)
    → All (λ x. ok (f x) ≡ true) xs
    → all ok (map f xs) ≡ true
all-map f ok [] h = refl
all-map f ok (x ∷ xs) h = ground (arith, h.0, all-map f ok xs h.1)

module _ {V : Type 0} ⦃json : Json V⦄ (laws : JsonLaws json) where
  open json use {find, object, array, string, unsigned, is_string, is_number_unsigned, elements}

  pub find_field :
      (key : Bytes) (fields : List (Bytes × V)) {v : V}
      → has_distinct_keys fields ≡ true
      → lookup key fields ≡ some v
      → find key (object fields) ≡ some v
  find_field key fields distinct e =
      laws.object_find key fields (has_distinct_keys_lem fields distinct) ∙ e

  pub has_field :
      (key : Bytes) (ok : V → Bool) (fields : List (Bytes × V)) {v : V}
      → has_distinct_keys fields ≡ true
      → lookup key fields ≡ some v
      → ok v ≡ true
      → has key ok (object fields) ≡ true
  has_field key ok fields distinct e h = rw (find_field key fields distinct e, has) h

  pub array_valid : (ok : V → Bool) (vs : List V) → all ok vs ≡ true → array_of ok (array vs) ≡ true
  array_valid ok vs h = rw (laws.array_is vs, laws.array_elements vs) h

  pub text_valid : (ok : Bytes → Bool) (s : Bytes) → ok s ≡ true → text_is ok (string s) ≡ true
  text_valid ok s h = rw (laws.string_is s, laws.string_read s) h

  strings-All : (ts : List Bytes) → All (λ t. is_string (string t) ≡ true) ts
  strings-All [] = tt
  strings-All (t ∷ ts) = (laws.string_is t, strings-All ts)

  pub texts_valid : (ts : List Bytes) → array_of is_string (texts ts) ≡ true
  texts_valid ts = array_valid is_string _ (all-map string is_string ts (strings-All ts))

  pub find_missing :
      (key : Bytes) (fields : List (Bytes × V))
      → has_distinct_keys fields ≡ true
      → lookup key fields ≡ none
      → find key (object fields) ≡ none
  find_missing key fields distinct e =
      laws.object_find key fields (has_distinct_keys_lem fields distinct) ∙ e

  pub phone_missing :
      (fields : List (Bytes × V))
      → has_distinct_keys fields ≡ true
      → lookup (codes "phone") fields ≡ none
      → elim (find (codes "phone") (object fields)) [ none ↦ true | some v ↦ is_string v ] ≡ true
  phone_missing fields distinct e = rw (find_missing (codes "phone") fields distinct e) refl

  pub phone_given :
      (fields : List (Bytes × V)) {v : V}
      → has_distinct_keys fields ≡ true
      → lookup (codes "phone") fields ≡ some v
      → is_string v ≡ true
      → elim (find (codes "phone") (object fields)) [ none ↦ true | some v ↦ is_string v ] ≡ true
  phone_given fields distinct e h = rw (find_field (codes "phone") fields distinct e) h
