-- ===== src/Json/Sample.antt =====
-- A small instance of the interface, at which the theorems are applied: arrays and objects are chains
-- of their entries, and numbers are integers.
use no.Prelude.{
  ◌≡◌, refl, ap, arith, ℕ, suc, Bool, true, false, Option, none, some, List, [], ◌∷◌, ◌++◌, Bytes,
  codes, ℤ, pos, negsuc, decimal, if◌then◌else◌,
}
use no.Prelude.Sets.{by_key}
use no.Prelude.Dict.{bytes_key, bytes_eq, lookup}
use no.Json.{Json, JsonLaws}

pub data Value : Type 0 where
  nothing : Value
  truth : Bool → Value
  number : ℤ → Value
  text : Bytes → Value
  empty_array : Value
  element : Value → Value → Value
  empty_object : Value
  entry : Bytes → Value → Value → Value

abbrev pub find_entry : Bytes → Value → Option Value
find_entry key (entry k v rest) = if bytes_eq k key then some v else find_entry key rest
find_entry key _ = none

abbrev entries : Value → List (Bytes × Value)
entries (entry k v rest) = (k, v) ∷ entries rest
entries _ = []

abbrev array_elements : Value → List Value
array_elements (element v rest) = v ∷ array_elements rest
array_elements _ = []

abbrev count : Value → ℕ
count (element v rest) = suc (count rest)
count (entry k v rest) = suc (count rest)
count _ = 0

abbrev pub make_object : List (Bytes × Value) → Value
make_object [] = empty_object
make_object ((k, v) ∷ fields) = entry k v (make_object fields)

abbrev make_array : List Value → Value
make_array [] = empty_array
make_array (v ∷ vs) = element v (make_array vs)

-- The text, with a comma behind each entry.
abbrev pub print : Value → Bytes
print nothing = codes "null"
print (truth true) = codes "true"
print (truth false) = codes "false"
print (number (pos n)) = decimal n
print (number (negsuc n)) = b'-' ∷ decimal (suc n)
print (text s) = (b'"' ∷ s) ++ codes "\""
print empty_array = codes "]"
print (element v rest) = print v ++ (b',' ∷ print rest)
print empty_object = codes "}"
print (entry k v rest) = k ++ (b':' ∷ (print v ++ (b',' ∷ print rest)))

abbrev is_text : Value → Bool
is_text (text _) = true
is_text _ = false

abbrev is_chain_of_entries : Value → Bool
is_chain_of_entries empty_object = true
is_chain_of_entries (entry _ _ _) = true
is_chain_of_entries _ = false

abbrev is_chain_of_elements : Value → Bool
is_chain_of_elements empty_array = true
is_chain_of_elements (element _ _) = true
is_chain_of_elements _ = false

abbrev is_truth : Value → Bool
is_truth (truth _) = true
is_truth _ = false

abbrev read_text : Value → Option Bytes
read_text (text s) = some s
read_text _ = none

abbrev read_number : Value → Option ℤ
read_number (number n) = some n
read_number _ = none

abbrev read_natural : Value → Option ℕ
read_natural (number (pos n)) = some n
read_natural _ = none

abbrev some_value {ℓ} : {A : Type ℓ} → Option A → Bool
some_value none = false
some_value (some _) = true

abbrev pub json_that_parses : (Bytes → Option Value) → Json Value
json_that_parses parse = record {
  is_object = is_chain_of_entries;
  is_array = is_chain_of_elements;
  is_string = is_text;
  is_number_unsigned = λ v. some_value (read_natural v);
  is_number_integer = λ v. some_value (read_number v);
  is_boolean = is_truth;
  find = find_entry;
  items = λ v. by_key (entries v);
  elements = array_elements;
  size = count;
  get_string = read_text;
  get_uint64 = read_natural;
  get_int64 = read_number;
  object = make_object;
  array = make_array;
  string = text;
  unsigned = λ n. number (pos n);
  integer = number;
  boolean = truth;
  null = nothing;
  set = λ k v j. entry k v j;
  parse = parse;
  to_string = print;
  dump = λ v. some (print v);
}

-- One that reads nothing.
instance abbrev pub sample_json : Json Value
sample_json = json_that_parses (λ _. none)

find_made :
    (key : Bytes) (fields : List (Bytes × Value))
    → find_entry key (make_object fields) ≡ lookup key fields
unfolding lookup
find_made key [] = refl
find_made key ((k, v) ∷ fields) = ground (arith, find_made key fields)

entries_made : (fields : List (Bytes × Value)) → entries (make_object fields) ≡ fields
entries_made [] = refl
entries_made ((k, v) ∷ fields) = ap (λ l. (k, v) ∷ l) (entries_made fields)

object_made : (fields : List (Bytes × Value)) → is_chain_of_entries (make_object fields) ≡ true
object_made [] = refl
object_made ((k, v) ∷ fields) = refl

array_made : (vs : List Value) → is_chain_of_elements (make_array vs) ≡ true
array_made [] = refl
array_made (v ∷ vs) = refl

elements_made : (vs : List Value) → array_elements (make_array vs) ≡ vs
elements_made [] = refl
elements_made (v ∷ vs) = ap (λ l. v ∷ l) (elements_made vs)

text_read : (v : Value) → is_text v ≡ true → (s : Bytes) × (read_text v ≡ some s)
text_read (text s) h = (s, refl)
text_read nothing h = absurd (cc)
text_read (truth b) h = absurd (cc)
text_read (number n) h = absurd (cc)
text_read empty_array h = absurd (cc)
text_read (element v w) h = absurd (cc)
text_read empty_object h = absurd (cc)
text_read (entry k v w) h = absurd (cc)

some_read {ℓ} : {A : Type ℓ} (o : Option A) → some_value o ≡ true → (a : A) × (o ≡ some a)
some_read none h = absurd (cc)
some_read (some a) h = (a, refl)

pub json_that_parses-JsonLaws : (parse : Bytes → Option Value) → JsonLaws (json_that_parses parse)
json_that_parses-JsonLaws parse = record {
  string_get = text_read;
  unsigned_get = λ v h. some_read (read_natural v) h;
  integer_get = λ v h. some_read (read_number v) h;
  object_is = object_made;
  object_find = λ key fields distinct. find_made key fields;
  object_items = λ fields distinct. ap by_key (entries_made fields);
  array_is = array_made;
  array_elements = elements_made;
  string_is = λ s. refl;
  string_read = λ s. refl;
  unsigned_is = λ n h. refl;
  unsigned_read = λ n h. refl;
}

pub sample_json-JsonLaws : JsonLaws sample_json
sample_json-JsonLaws = json_that_parses-JsonLaws (λ _. none)
