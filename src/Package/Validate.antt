-- ===== src/Package/Validate.antt =====
-- Which values are the text of a manifest: the namespace `check` of
-- lib/src/core/package/Manifest.cc, and the tests of names and licenses. A `schema_assert` returns
-- false where its condition fails, so a row of them is a conjunction.
use no.Prelude.{
  ℕ, Bool, true, false, not, ◌&&◌, ◌||◌, none, some, List, [], ◌∷◌, Bytes, codes, leb, ◌==◌,
  if◌then◌else◌, length, take, drop, all, get_or,
}
use no.Prelude.Dict.{bytes_eq}
use no.Json.{Json}
use no.Package.Regex.{Regex, class, seq, alt, regex_match, plus, optional, up_to, text, digit}
use no.Package.Spdx.{Table, is_exact_spdx_license_match}

-- `std::isxdigit` in the C locale.
abbrev pub is_xdigit : ℕ → Bool
is_xdigit c =
    (leb b'0' c && leb c b'9') || ((leb b'A' c && leb c b'F') || (leb b'a' c && leb c b'f'))

unfoldable pub validate_uuid : Bytes → Bool
validate_uuid uuid =
    length uuid == 36
    && (get_or uuid 8 0 == b'-'
        && (get_or uuid 13 0 == b'-'
            && (get_or uuid 18 0 == b'-'
                && (get_or uuid 23 0 == b'-' && all (λ c. is_xdigit c || c == b'-') uuid))))

unfoldable pub validate_ed25519_public_key : Bytes → Bool
validate_ed25519_public_key value = length value == 64 && all is_xdigit value

unfoldable pub validate_ed25519_signature : Bytes → Bool
validate_ed25519_signature value = length value == 128 && all is_xdigit value

-- `^\d+\.\d+(\.\d+)?$`
abbrev pub semver_regex : Regex
semver_regex =
    seq (plus digit)
      (seq (text (codes ".")) (seq (plus digit) (optional (seq (text (codes ".")) (plus digit)))))

abbrev lower : List (ℕ × ℕ)
lower = (b'a', b'z') ∷ []

abbrev alphanumeric : List (ℕ × ℕ)
alphanumeric = (b'a', b'z') ∷ (b'A', b'Z') ∷ (b'0', b'9') ∷ []

abbrev alphanumeric_or_hyphen : List (ℕ × ℕ)
alphanumeric_or_hyphen = (b'a', b'z') ∷ (b'A', b'Z') ∷ (b'0', b'9') ∷ (b'-', b'-') ∷ []

-- `^@([a-z]+-)?([a-zA-Z0-9]+|[a-zA-Z0-9][a-zA-Z0-9-]+[a-zA-Z0-9])\/
-- ([a-zA-Z0-9][a-zA-Z0-9-]{1,30}[a-zA-Z0-9])(:\d+)?$`
abbrev pub manifest_name_regex : Regex
manifest_name_regex = seq (text (codes "@")) (
    seq (optional (seq (plus (class lower)) (text (codes "-")))) (
      seq
        (alt (plus (class alphanumeric)) (
          seq (class alphanumeric)
            (seq (plus (class alphanumeric_or_hyphen)) (class alphanumeric))))
        (seq (text (codes "/")) (
          seq
            (seq (class alphanumeric)
              (seq (up_to 29 (class alphanumeric_or_hyphen)) (class alphanumeric)))
            (optional (seq (text (codes ":")) (plus digit)))))))

-- `text.find(c)`, as the bytes before it; all of them where there is none.
abbrev pub before : ℕ → Bytes → Bytes
before c [] = []
before c (x ∷ xs) = if x == c then [] else x ∷ before c xs

abbrev pub has_double_hyphen : Bytes → Bool
has_double_hyphen [] = false
has_double_hyphen (x ∷ []) = false
has_double_hyphen (x ∷ y ∷ xs) = (x == b'-' && y == b'-') || has_double_hyphen (y ∷ xs)

abbrev pub has_hyphen : Bytes → Bool
has_hyphen xs = not (all (λ c. not (c == b'-')) xs)

-- `name.substr(1, name.find('/') - 1)` is what stands between the first byte and the first slash; a
-- name without a slash has been refused by then.
unfoldable pub is_valid_name : Bytes → Bool
is_valid_name name =
    regex_match name manifest_name_regex
    && (not (has_double_hyphen name)
        && (bytes_eq (take 5 name) (codes "@std/") || has_hyphen (before b'/' (drop 1 name))))

unfoldable pub is_valid_license : Table → Bytes → Bool
is_valid_license spdx_identifiers license = is_exact_spdx_license_match spdx_identifiers license

abbrev blockchain_category : Bytes → Bool
blockchain_category v =
    bytes_eq v (codes "eco-root")
    || (bytes_eq v (codes "eco-domain")
        || (bytes_eq v (codes "user-account")
            || (bytes_eq v (codes "package") || bytes_eq v (codes "subpackage"))))

abbrev pub contact_role : Bytes → Bool
contact_role role =
    bytes_eq role (codes "owner")
    || (bytes_eq role (codes "contributor")
        || (bytes_eq role (codes "maintainer") || bytes_eq role (codes "support")))

abbrev pub manifest_category : Bytes → Bool
manifest_category v =
    bytes_eq v (codes "exe") || (bytes_eq v (codes "lib") || bytes_eq v (codes "std"))

module _ {V : Type 0} ⦃json : Json V⦄ where
  open json use {
    is_object, is_array, is_string, is_number_unsigned, find, items, elements, size, get_string,
    get_uint64,
  }

  -- `j.contains(key)` with tests of `j[key]`.
  abbrev pub has : Bytes → (V → Bool) → V → Bool
  has key ok j = elim (find key j) [ none ↦ false | some v ↦ ok v ]

  -- `j.is_string()` with tests of `j.get<std::string>()`.
  abbrev pub text_is : (Bytes → Bool) → V → Bool
  text_is ok j = is_string j && elim (get_string j) [ none ↦ false | some s ↦ ok s ]

  abbrev pub array_of : (V → Bool) → V → Bool
  array_of ok j = is_array j && all ok (elements j)

  unfoldable pub validate_key_pair : V → Bool
  validate_key_pair j =
      is_object j
      && (has (codes "type") (text_is (λ v. bytes_eq v (codes "ed25519"))) j
          && (has (codes "value") (text_is validate_ed25519_public_key) j && size j == 2))

  unfoldable pub validate_signature_json : V → Bool
  validate_signature_json j =
      is_object j
      && (has (codes "type") (text_is (λ v. bytes_eq v (codes "ed25519"))) j
          && has (codes "value") (text_is validate_ed25519_signature) j)

  unfoldable pub validate_sem_version : V → Bool
  validate_sem_version j = text_is (λ s. regex_match s semver_regex) j

  unfoldable pub validate_build_optimization_switch : V → Bool
  validate_build_optimization_switch j =
      is_object j
      && (has (codes "alpha") (array_of is_string) j
          && (has (codes "beta") (array_of is_string) j
              && (has (codes "gamma") (array_of is_string) j
                  && (has (codes "llvm") (array_of is_string) j
                      && (has (codes "lto") (array_of is_string) j
                          && has (codes "runtime") (array_of is_string) j)))))

  abbrev pub profile : V → Bool
  profile v = is_object v && has (codes "switch") validate_build_optimization_switch v

  abbrev pub requirements_object : V → Bool
  requirements_object v =
      is_object v
      && (has (codes "min-cores") is_number_unsigned v
          && (has (codes "min-memory") is_number_unsigned v
              && has (codes "min-storage") is_number_unsigned v))

  unfoldable pub validate_build_optimization : V → Bool
  validate_build_optimization j =
      is_object j
      && (has (codes "rapid") profile j
          && (has (codes "debug") profile j
              && (has (codes "release") profile j
                  && has (codes "requirements") requirements_object j)))

  abbrev blockchain_item : V → Bool
  blockchain_item v =
      is_object v
      && (has (codes "uuid") (text_is validate_uuid) v
          && (has (codes "category") (text_is blockchain_category) v
              && (has (codes "pubkey") validate_key_pair v
                  && has (codes "signature") validate_signature_json v)))

  unfoldable pub validate_blockchain : V → Bool
  validate_blockchain j = array_of blockchain_item j

  abbrev pub contact_object : V → Bool
  contact_object contact =
      is_object contact
      && (has (codes "name") is_string contact
          && (has (codes "email") is_string contact
              && (elim (find (codes "phone") contact) [ none ↦ true | some v ↦ is_string v ]
                  && has (codes "roles") (array_of (text_is contact_role)) contact)))

  abbrev pub platforms_object : V → Bool
  platforms_object v =
      is_object v
      && (has (codes "allow") (array_of is_string) v && has (codes "deny") (array_of is_string) v)

  abbrev pub dependency_object : V → Bool
  dependency_object dependency =
      is_object dependency
      && (has (codes "uuid") (text_is validate_uuid) dependency
          && has (codes "version") validate_sem_version dependency)

  unfoldable pub verify_untrusted_json : Table → V → Bool
  verify_untrusted_json spdx_identifiers j =
      is_object j
      && (has (codes "format")
            (λ v. validate_sem_version v && text_is (λ s. bytes_eq (take 2 s) (codes "1.")) v) j
          && (has (codes "name") (text_is is_valid_name) j
              && (has (codes "description") is_string j
                  && (has (codes "license") (text_is (is_valid_license spdx_identifiers)) j
                      && (has (codes "category") (text_is manifest_category) j
                          && (has (codes "version") validate_sem_version j
                              && (has (codes "contacts") (array_of contact_object) j
                                  && (has (codes "platforms") platforms_object j
                                      && (has (codes "optimization") validate_build_optimization j
                                          && (has (codes "dependencies")
                                                (array_of dependency_object) j
                                              && has (codes "blockchain") validate_blockchain
                                                  j))))))))))
