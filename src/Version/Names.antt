-- ===== src/Version/Names.antt =====
-- The names of the components: lib/src/version/Run.cc.
use no.Prelude.{
  Option, some, List, [], ◌∷◌, Bytes, codes, map, ◌≡◌, refl, ap, ◌∙◌, arith, Option-cases,
  Bool-cases, subst, inl, inr,
}
use no.Prelude.Results.{each}
use no.Prelude.Dict.{bytes_key, bytes_eq, bytes_eq_iff, lookup}
use no.Package.Convert.Fields.{find_field}
use no.Json.{Json, JsonLaws}
use no.Package.Convert.{text_at}
use no.Version.{
  SoftwareComponent, core, lexer, sequencer, parser, ir_alpha, alpha_optimizer, ir_beta,
  beta_optimizer, ir_gamma, gamma_optimizer, codegen, name_of, Libraries, component_manifest,
  component_map, all_components, get_software_components, get_component_manifest,
  get_software_version_array,
}

component_name :
    (libs : Libraries) (c : SoftwareComponent)
    → (component_manifest libs c).component_name ≡ name_of c
unfolding component_manifest
component_name libs core = refl
component_name libs lexer = refl
component_name libs sequencer = refl
component_name libs parser = refl
component_name libs ir_alpha = refl
component_name libs alpha_optimizer = refl
component_name libs ir_beta = refl
component_name libs beta_optimizer = refl
component_name libs ir_gamma = refl
component_name libs gamma_optimizer = refl
component_name libs codegen = refl

-- Only its own name finds a component.
found_name :
    (name : Bytes) (cs : List SoftwareComponent) {c : SoftwareComponent}
    → lookup name (map (λ d. (name_of d, d)) cs) ≡ some c
    → name_of c ≡ name
unfolding lookup
found_name name [] e = absurd (cc)
found_name name (d ∷ cs) {c = c} e = elim (Bool-cases (bytes_eq (name_of d) name)) [
  | inl same ↦
      subst (λ b. name_of b ≡ name) (ground (arith, same, e))
        ((bytes_eq_iff (name_of d) name).0 same)
  | inr other ↦ found_name name cs (ground (arith, other, e))
]

module _ {V : Type 0} (json : Json V) (laws : JsonLaws json) (libs : Libraries) where
  abbrev pub shown_name : V → Option Bytes
  shown_name v = text_at ⦃json = json⦄ (codes "component_name") v

  shown_name_lem :
      (c : SoftwareComponent) → shown_name (get_component_manifest json libs c) ≡ some (name_of c)
  unfolding get_component_manifest lookup
  shown_name_lem c =
      rw (find_field ⦃json = json⦄ laws (codes "component_name") _ refl refl)
        (laws.string_read _ ∙ ap some (component_name libs c))

  shown_names :
      (names : List Bytes) {components : List SoftwareComponent}
      → get_software_components names ≡ some components
      → each shown_name (map (get_component_manifest json libs) components) ≡ some names
  unfolding get_software_components each
  shown_names [] {components = components} e =
      let none_asked : [] ≡ components = ground (arith, e) in
      subst (λ cs. each shown_name (map (get_component_manifest json libs) cs) ≡ some []) none_asked
        refl
  shown_names (name ∷ names) {components = components} e =
      elim (Option-cases (lookup name component_map)) [
        | inl unknown ↦ absurd (ground (arith, unknown, e))
        | inr (c, known) ↦ elim (Option-cases (get_software_components names)) [
          | inl failed ↦ absurd (ground (arith, known, failed, e))
          | inr (cs, rest) ↦
              let both : c ∷ cs ≡ components = ground (arith, known, rest, e) in
              subst
                (λ ds.
                  each shown_name (map (get_component_manifest json libs) ds) ≡ some (name ∷ names))
                both
                (rw (shown_name_lem c, shown_names names rest)
                  (ap (λ n. some (n ∷ names)) (found_name name all_components known)))
        ]
      ]

  -- Where every name that is asked for is a component's, the version array shows these names, in the
  -- order and as often as they were asked for.
  pub get_software_version_array-names :
      (names : List Bytes) {components : List SoftwareComponent}
      → get_software_components names ≡ some components
      → each shown_name (json.elements (get_software_version_array json libs components))
        ≡ some names
  unfolding get_software_version_array
  get_software_version_array-names names {components = components} e =
      rw (laws.array_elements (map (get_component_manifest json libs) components))
        (shown_names names e)
