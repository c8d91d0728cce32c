-- ===== src/Init/Command/Kept.antt =====
-- What the command `init` does to the files that are there: lib/src/init/Run.cc.
use no.Prelude.{
  Bool, false, Option, none, some, Bytes, ◌≡◌, refl, arith, true, inl, inr, Option-cases, value,
  Checked-cases,
}
use no.FileSystem.{FileSystem, FileSystemLaws, leads_upwards}
use no.Json.{Json}
use no.Package.Spdx.{Table, find_closest_spdx_license}
use no.Init.{InitOptions}
use no.Init.Package.{create_package}
use no.Init.Package.Kept.{create_package-Outside}
use no.Init.Command.{
  Arguments, create_or_remove, create_output, create_in, reject_license, command_init, init_options,
  get_new_package_path,
}

module _ {S V : Type 0} (fs : FileSystem S) (laws : FileSystemLaws fs) (json : Json V)
    (spdx_identifiers : Table) (license_text : Bytes → Option Bytes) where
  create_or_remove-content :
      (path : Bytes) (options : InitOptions) (q c : Bytes) (s : S) {done : Bool} {s' : S}
      → leads_upwards path ≡ false
      → fs.exists path s ≡ some false
      → fs.content q s ≡ some c
      → create_or_remove fs json spdx_identifiers license_text path options s ≡ value (done, s')
      → fs.content q s' ≡ some c
  unfolding create_or_remove
  create_or_remove-content path options q c s {done = done} {s' = s'} plain absent h run =
      let created = create_package fs json spdx_identifiers license_text path options s in
      let kept =
        create_package-Outside fs laws json spdx_identifiers license_text path options plain q c s
          (h, laws.nothing_below path q c s absent h) in
      let removed = (laws.remove_keeps path q c created.1 kept).0 in
      elim (Checked-cases created.0) [
        | inl thrown ↦ absurd (ground (arith, thrown, run))
        | inr (true, made) ↦ ground (arith, made, run, kept.0)
        | inr (false, failed) ↦ ground (arith, failed, run, removed)
      ]

  create_output-content :
      (package_output q c : Bytes) (s : S)
      → fs.content q s ≡ some c
      → fs.content q (create_output fs json spdx_identifiers license_text package_output s).1
        ≡ some c
  unfolding create_output
  create_output-content package_output q c s h =
      ground (arith, laws.directories_content package_output q c s h, h)

  -- The path that the search gives behind the making of the output directory does not lead upwards and
  -- does not exist.
  abbrev pub Lands : Arguments → Bytes → S → Type 0
  Lands vm package_name s =
      let output = (create_output fs json spdx_identifiers license_text vm.output s).1 in
      (path : Bytes)
      → get_new_package_path fs json vm.output package_name output ≡ some path
      → (leads_upwards path ≡ false) × (fs.exists path output ≡ some false)

  create_in-content :
      (vm : Arguments) (package_name q c : Bytes) (s : S) {done : Bool} {s' : S}
      → Lands vm package_name s
      → fs.content q s ≡ some c
      → create_in fs json spdx_identifiers license_text vm package_name s ≡ value (done, s')
      → fs.content q s' ≡ some c
  unfolding create_in
  create_in-content vm package_name q c s {done = done} {s' = s'} lands h run =
      let output = create_output fs json spdx_identifiers license_text vm.output s in
      let made = create_output-content vm.output q c s h in
      elim (Option-cases (get_new_package_path fs json vm.output package_name output.1)) [
        | inl none_found ↦ ground (arith, none_found, made, run)
        | inr (path, found) ↦
            let (plain, absent) = lands path found in
            elim (Checked-cases (find_closest_spdx_license spdx_identifiers vm.license)) [
              | inl failed ↦ ground (arith, found, failed, made, run)
              | inr (license, closest) ↦ ground (
                arith,
                found,
                closest,
                made,
                run,
                create_or_remove-content path (init_options vm package_name license) q c output.1
                    {done = done} {s' = s'} plain absent made,
              )
            ]
      ]

  -- Let the path that the search for a new folder gives not lead upwards and not exist. It may exist only
  -- where the output directory leads upwards through a link. Then, whatever its arguments are and whether it
  -- succeeds or fails, the command `init` leaves every file that is there as it is.
  pub command_init-content :
      (arguments : Option Arguments) (q c : Bytes) (s : S) {done : Bool} {s' : S}
      → ((vm : Arguments) (package_name : Bytes)
          → arguments ≡ some vm
          → vm.package_name ≡ some package_name
          → Lands vm package_name s)
      → fs.content q s ≡ some c
      → command_init fs json spdx_identifiers license_text arguments s ≡ value (done, s')
      → fs.content q s' ≡ some c
  unfolding command_init reject_license
  command_init-content none q c s {done = done} {s' = s'} lands h run = ground (arith, h, run)
  command_init-content (some vm) q c s {done = done} {s' = s'} lands h run =
      elim (Option-cases vm.package_name) [
        | inl missing ↦ ground (arith, missing, h, run)
        | inr (package_name, given) ↦ ground (
          arith,
          given,
          h,
          run,
          create_in-content vm package_name q c s {done = done} {s' = s'}
              (lands vm package_name refl given) h,
          Checked-cases (find_closest_spdx_license spdx_identifiers vm.license),
        )
      ]
