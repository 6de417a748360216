-- ===== src/Tests/Build.antt =====
-- The build script on a small platform, whose releases are flat.
use chrondb.Base.{
  String, Option, none, some, [], ◌∷◌, ◌≡◌, refl, ok, ◌=s=◌, if◌then◌else◌, true, false,
}
use chrondb.Base.Text.{join}
use chrondb.Platform.{Platform, DirEntry}
use chrondb.Setup.Target.{get_lib_name, get_platform, download_url}
use chrondb.Setup.Archive.{nested, first_dir}
use chrondb.Build.{
  build_lib_name, build_platform, build_url, already_exists, pre_downloaded, build_lib_dir,
  copy_first, main,
}
use chrondb.Build.Runtime.{cfg, succeeds, get_platform-build_platform, copy_first-nested}
use chrondb.Build.Outcomes.{main-unsupported, main-flat}
use chrondb.Tests.Demo.{Store, demo, installed}

-- Cargo's variables on the architecture `arch`.
abbrev cargo : String → String → Option String
cargo arch name =
    if name =s= "CARGO_CFG_TARGET_OS"
    then some "macos"
    else if name =s= "CARGO_CFG_TARGET_ARCH"
    then some arch
    else if name =s= "CARGO_PKG_VERSION"
    then some "0.2.1"
    else none

-- A compilation on the architecture `arch`. A release is one file, with no directory.
abbrev compiling : String → Platform
compiling arch = record demo {
  os = record demo.os {
    env_var = cargo arch;
    download = λ url w. (ok 5, w);
    read_dir =
        λ path w. ok (ok (record { file_name = "libchrondb.dylib"; is_dir = some false }) ∷ []);
  };
}

abbrev there : Store
there = record installed { files = "/home/u/.chrondb/lib/libchrondb.dylib" ∷ [] }

there-main : (main (compiling "aarch64") there).0 ≡ already_exists
unfolding main join build_lib_name
there-main = refl

main-unsupported_example : main (compiling "riscv64") installed ≡ (pre_downloaded, installed)
unfolding build_lib_dir build_lib_name build_platform join
main-unsupported_example =
    main-unsupported (compiling "riscv64") "macos" "riscv64" "0.2.1" "/home/u/.chrondb/lib"
      installed refl refl refl refl refl refl refl

main-flat_example : main (compiling "aarch64") installed ≡ (pre_downloaded, installed)
unfolding build_lib_dir build_lib_name build_platform join first_dir
main-flat_example =
    main-flat (compiling "aarch64") "macos" "aarch64" "0.2.1" "/home/u/.chrondb/lib" "macos-aarch64"
      5 (ok (record { file_name = "libchrondb.dylib"; is_dir = some false }) ∷ []) installed
      installed installed installed installed refl refl refl refl refl refl refl refl refl refl refl
      refl refl

get_platform-build_platform_example :
    (get_lib_name (cfg "macos" "riscv64" "0.2.1") ≡ build_lib_name "macos")
    × (get_platform (cfg "macos" "riscv64" "0.2.1") ≡ build_platform "macos" "riscv64")
    × (download_url "0.2.1" "linux-x86_64" ≡ build_url "0.2.1" "linux-x86_64")
get_platform-build_platform_example =
    get_platform-build_platform "macos" "riscv64" "0.2.1" "linux-x86_64"

abbrev release : DirEntry
release = record { file_name = "libchrondb-0.2.1"; is_dir = some true }

copy_first-nested_example :
    ((copy_first (compiling "aarch64") (some release) "/tmp" "/lib" installed).1
      ≡ (nested (compiling "aarch64") (some release) "/tmp" "/lib" installed).1)
    × (succeeds (copy_first (compiling "aarch64") (some release) "/tmp" "/lib" installed).0
        ≡ succeeds (nested (compiling "aarch64") (some release) "/tmp" "/lib" installed).0)
    × (copy_first (compiling "aarch64") none "/tmp" "/lib" installed ≡ (ok tt, installed))
    × (succeeds (nested (compiling "aarch64") none "/tmp" "/lib" installed).0 ≡ false)
copy_first-nested_example = copy_first-nested (compiling "aarch64") release "/tmp" "/lib" installed
