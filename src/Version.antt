-- ===== src/Version.antt =====
-- src/version.cpp and inc/oizys/version.hpp.
use liboizys.Common.{ℕ}

abbrev pub major_version : ℕ
major_version = 1

abbrev pub minor_version : ℕ
minor_version = 0

abbrev pub patch_version : ℕ
patch_version = 0

abbrev pub get_major_version : ℕ
get_major_version = major_version

abbrev pub get_minor_version : ℕ
get_minor_version = minor_version

abbrev pub get_patch_version : ℕ
get_patch_version = patch_version
