-- ===== src/Init.antt =====
-- The creation of a package: lib/src/init. `InitOptions` of lib/src/init/InitPackage.hh.
pub mod Texts
pub mod Templates
pub mod Package
pub mod Command
pub mod Tests
use no.Prelude.{Bytes}
use no.Package.Manifest.{Category, Version}

pub record InitOptions : Type 0 where
  pub package_name : Bytes
  pub package_description : Bytes
  pub package_license : Bytes
  pub package_version : Version
  pub package_category : Category
