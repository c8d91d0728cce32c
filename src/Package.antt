-- ===== src/Package.antt =====
-- Packages: the licenses, and the manifest of a package with its text (lib/src/core).
pub mod Regex
pub mod Spdx
pub mod Manifest
pub mod Profiles
pub mod Validate
pub mod Convert
pub mod LicenseText
pub mod Tests
