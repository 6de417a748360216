-- ===== src/Setup/Target.antt =====
-- What the crate is compiled for, and the names that depend on it (bindings/rust/src/setup.rs).
use chrondb.Base.{String, Option, none, some, ◌<>◌, if◌then◌else◌}
use chrondb.Base.Text.{contains}

-- `target_os`
pub data TargetOs : Type 0 where
  macos linux windows other_os : TargetOs

-- `target_arch`
pub data TargetArch : Type 0 where
  x86_64 aarch64 other_arch : TargetArch

-- `cfg` and `env!("CARGO_PKG_VERSION")`
pub record Target : Type 0 where
  pub os : TargetOs
  pub arch : TargetArch
  pub version : String

unfoldable pub lib_name_of : TargetOs → String
lib_name_of macos = "libchrondb.dylib"
lib_name_of linux = "libchrondb.so"
lib_name_of windows = "chrondb.dll"
lib_name_of other_os = "libchrondb.so"

unfoldable pub get_lib_name : Target → String
unfolding lib_name_of
get_lib_name t = lib_name_of t.os

unfoldable pub platform_of : TargetOs → TargetArch → Option String
platform_of linux x86_64 = some "linux-x86_64"
platform_of linux aarch64 = some "linux-aarch64"
platform_of macos x86_64 = some "macos-x86_64"
platform_of macos aarch64 = some "macos-aarch64"
platform_of _ _ = none

unfoldable pub get_platform : Target → Option String
unfolding platform_of
get_platform t = platform_of t.os t.arch

-- The `let (release_tag, version_label) = ..` of `download_library`.
unfoldable pub release_of : String → String × String
release_of version =
    if contains version "-dev" then ("latest", "latest") else ("v" <> version, version)

-- The `let url = format!(..)` of `download_library`.
unfoldable pub download_url : String → String → String
unfolding release_of
download_url version platform =
    let (release_tag, version_label) = release_of version in
    "https://github.com/avelino/chrondb/releases/download/" <> release_tag <> "/libchrondb-"
    <> version_label <> "-" <> platform <> ".tar.gz"
