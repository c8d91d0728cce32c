-- ===== src/Package/LicenseText.antt =====
-- The text of a license from the network: lib/src/core/static/SPDX-API.cc. The request is an argument:
-- the answer to an address, or none where it throws.
use no.Prelude.{Option, none, some, ◌++◌, Bytes, codes, if◌then◌else◌, map}
use no.Json.{Json}
use no.Package.Spdx.{Table, is_exact_spdx_license_match, tolower}

abbrev pub get_api_endpoint : Bytes → Bytes
get_api_endpoint spdx_id =
    codes "https://scancode-licensedb.aboutcode.org/" ++ (spdx_id ++ codes ".json")

module _ {V : Type 0} (json : Json V) where
  open json use {find, is_string, get_string, parse}

  -- `contains` gives false on a value that is no object, as `find` gives none.
  abbrev text_of_response : V → Option Bytes
  text_of_response j = elim (find (codes "text") j) [
    | none ↦ none
    | some v ↦
        if is_string v
        then (elim (get_string v) [ none ↦ none | some s ↦ some (s ++ codes "\n") ])
        else none
  ]

  unfoldable pub get_spdx_license_text : Table → (Bytes → Option Bytes) → Bytes → Option Bytes
  get_spdx_license_text spdx_identifiers request query =
      let name = map tolower query in
      if is_exact_spdx_license_match spdx_identifiers name
      then (elim (request (get_api_endpoint name)) [
        | none ↦ none
        | some response ↦ elim (parse response) [ none ↦ none | some j ↦ text_of_response j ]
      ])
      else none
