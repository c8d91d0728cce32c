-- ===== src/Package/Profiles.antt =====
-- The three profiles that every manifest has.
use no.Prelude.{◌≡◌, ◌≢◌, refl, none, some, List, [], ◌∷◌, Bytes, arith, Option-cases, inl, inr}
use no.Prelude.Dict.{
  bytes_key, bytes_eq_iff, lookup, insert, lookup-insert, lookup-erase, HasDistinctKeys,
  HasDistinctKeys-insert, HasDistinctKeys-erase,
}
use no.Package.Manifest.{
  Switch, new_switch, new_requirements, Profiles, Requirements, Optimization, rapid_key, debug_key,
  release_key, required_profiles, new_optimization, insert_missing, optimization_with, get_rapid,
  get_debug, get_release, get_profile, set_profile, clear_profile, clear_all_profiles,
  set_requirements,
}

-- The calls that change an `Optimization`.
pub data Change : Type 0 where
  profile_got : Bytes → Change
  profile_set : Bytes → Switch → Change
  profile_cleared : Bytes → Change
  all_cleared : Change
  requirements_set : Requirements → Change

unfoldable pub change : Change → Optimization → Optimization
change (profile_got name) o = (get_profile name o).1
change (profile_set name profile) o = set_profile name profile o
change (profile_cleared name) o = clear_profile name o
change all_cleared o = clear_all_profiles o
change (requirements_set requirements) o = set_requirements requirements o

unfoldable pub changes : List Change → Optimization → Optimization
changes [] o = o
changes (c ∷ cs) o = changes cs (change c o)

-- The map has distinct keys, the three required ones among them.
abbrev pub IsComplete : Optimization → Type 0
IsComplete o =
    HasDistinctKeys o.profiles
    × (lookup rapid_key o.profiles ≢ none)
    × (lookup debug_key o.profiles ≢ none)
    × (lookup release_key o.profiles ≢ none)

required_profiles-IsComplete :
    (a b c : Switch) (r : Requirements)
    → IsComplete (record { profiles = required_profiles a b c; requirements = r })
unfolding required_profiles insert lookup
required_profiles-IsComplete a b c r = ground arith

change-IsComplete : (c : Change) (o : Optimization) → IsComplete o → IsComplete (change c o)
unfolding change get_profile set_profile clear_profile clear_all_profiles
change-IsComplete (profile_got name) o h = ground (
  arith,
  HasDistinctKeys-insert name new_switch o.profiles h.0,
  lookup-insert name rapid_key new_switch o.profiles,
  lookup-insert name debug_key new_switch o.profiles,
  lookup-insert name release_key new_switch o.profiles,
)
change-IsComplete (profile_set name profile) o h = ground (
  arith,
  HasDistinctKeys-insert name profile o.profiles h.0,
  lookup-insert name rapid_key profile o.profiles,
  lookup-insert name debug_key profile o.profiles,
  lookup-insert name release_key profile o.profiles,
)
change-IsComplete (profile_cleared name) o h = ground (
  arith,
  HasDistinctKeys-erase name o.profiles h.0,
  lookup-erase name rapid_key o.profiles h.0,
  lookup-erase name debug_key o.profiles h.0,
  lookup-erase name release_key o.profiles h.0,
)
change-IsComplete all_cleared o h =
    required_profiles-IsComplete new_switch new_switch new_switch o.requirements
change-IsComplete (requirements_set requirements) o h = h

changes-IsComplete :
    (cs : List Change) (o : Optimization) → IsComplete o → IsComplete (changes cs o)
unfolding changes
changes-IsComplete [] o h = h
changes-IsComplete (c ∷ cs) o h = changes-IsComplete cs (change c o) (change-IsComplete c o h)

-- The profiles rapid, debug and release are there after any calls on a new `Optimization`, calls that
-- clear profiles included: reading one of them never throws.
pub required_profiles_stay :
    (cs : List Change)
    → (get_rapid (changes cs new_optimization) ≢ none)
      × (get_debug (changes cs new_optimization) ≢ none)
      × (get_release (changes cs new_optimization) ≢ none)
unfolding get_rapid get_debug get_release new_optimization
required_profiles_stay cs =
    let start = required_profiles-IsComplete new_switch new_switch new_switch new_requirements in
    let complete = changes-IsComplete cs new_optimization start in
    (complete.1, complete.2, complete.3)

insert_missing-keeps :
    (m : Profiles) (more : Profiles) (name : Bytes) (profile : Switch)
    → lookup name m ≡ some profile
    → lookup name (insert_missing m more) ≡ some profile
unfolding insert_missing
insert_missing-keeps m [] name profile e = e
insert_missing-keeps m ((j, p) ∷ more) name profile e = elim (Option-cases (lookup j m)) [
  | inl missing ↦ rw missing (
      insert_missing-keeps (insert j p m) more name profile
        (ground (arith, missing, e, bytes_eq_iff j name, lookup-insert j name p m)))
  | inr (q, there) ↦ rw there (insert_missing-keeps m more name profile e)
]

-- The constructor that takes three profiles and a map of others keeps the three: an entry of the map
-- under one of their names is dropped.
pub optimization_with_required :
    (rapid debug release : Switch) (additional_profiles : Profiles) (requirements : Requirements)
    → let o = optimization_with rapid debug release additional_profiles requirements in
      (get_rapid o ≡ some rapid) × (get_debug o ≡ some debug) × (get_release o ≡ some release)
unfolding optimization_with get_rapid get_debug get_release required_profiles insert lookup
optimization_with_required rapid debug release additional_profiles requirements =
    let three = required_profiles rapid debug release in
    (
      insert_missing-keeps three additional_profiles rapid_key rapid refl,
      insert_missing-keeps three additional_profiles debug_key debug refl,
      insert_missing-keeps three additional_profiles release_key release refl,
    )
