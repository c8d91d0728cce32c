-- ===== src/Json.antt =====
-- The operations of `nlohmann::json` that lib/src/core/package/Manifest.cc and
-- the server in lib/src/lsp call, as an interface
-- over any type of values, with the documented behaviour that the theorems rely on as its laws.
pub mod Sample
use no.Prelude.{
  ℤ, ℕ, Bool, true, false, Option, none, some, List, [], ◌∷◌, Bytes, ◌≡◌, ◌<◌, ◌^◌, length,
}
use no.Prelude.Sets.{by_key}
use no.Prelude.Dict.{bytes_key, lookup, HasDistinctKeys}

pub record Json (V : Type 0) : Type 0 where
  pub is_object : V → Bool
  pub is_array : V → Bool
  pub is_string : V → Bool
  pub is_number_unsigned : V → Bool
  pub is_number_integer : V → Bool
  pub is_boolean : V → Bool
  -- `j.contains(key)` and `j[key]`: none where the key is missing.
  pub find : Bytes → V → Option V
  -- The entries that `j.items()` goes through, and the elements of a loop over an array.
  pub items : V → List (Bytes × V)
  pub elements : V → List V
  pub size : V → ℕ
  -- `j.get<T>()`: none stands for the exception on another kind of value.
  pub get_string : V → Option Bytes
  pub get_uint64 : V → Option ℕ
  pub get_int64 : V → Option ℤ
  -- The values that the code builds.
  pub object : List (Bytes × V) → V
  pub array : List V → V
  pub string : Bytes → V
  pub unsigned : ℕ → V
  pub integer : ℤ → V
  pub boolean : Bool → V
  pub null : V
  -- `j[key] = v`
  pub set : Bytes → V → V → V
  -- `parse` with exceptions off, where none is a discarded value, and `to_string`.
  pub parse : Bytes → Option V
  pub to_string : V → Bytes
  -- `dump(2)`: none where it throws, as on a string that is no UTF-8.
  pub dump : V → Option Bytes

pub record JsonLaws {V : Type 0} (json : Json V) : Type 0 where
  -- The kind says which `get` succeeds.
  pub string_get : (v : V) → json.is_string v ≡ true → (s : Bytes) × (json.get_string v ≡ some s)
  pub unsigned_get :
      (v : V) → json.is_number_unsigned v ≡ true → (n : ℕ) × (json.get_uint64 v ≡ some n)
  pub integer_get :
      (v : V) → json.is_number_integer v ≡ true → (n : ℤ) × (json.get_int64 v ≡ some n)
  -- What was built is what is read.
  pub object_is : (fields : List (Bytes × V)) → json.is_object (json.object fields) ≡ true
  pub object_find :
      (key : Bytes) (fields : List (Bytes × V))
      → HasDistinctKeys fields
      → json.find key (json.object fields) ≡ lookup key fields
  -- `nlohmann::json` goes through the entries in the order of their keys.
  pub object_items :
      (fields : List (Bytes × V))
      → HasDistinctKeys fields
      → json.items (json.object fields) ≡ by_key fields
  pub array_is : (vs : List V) → json.is_array (json.array vs) ≡ true
  pub array_elements : (vs : List V) → json.elements (json.array vs) ≡ vs
  pub string_is : (s : Bytes) → json.is_string (json.string s) ≡ true
  pub string_read : (s : Bytes) → json.get_string (json.string s) ≡ some s
  pub unsigned_is : (n : ℕ) → n < 2 ^ 64 → json.is_number_unsigned (json.unsigned n) ≡ true
  pub unsigned_read : (n : ℕ) → n < 2 ^ 64 → json.get_uint64 (json.unsigned n) ≡ some n
