-- ===== src/Tests/Setup.antt =====
-- A flat release on the small platform.
use chrondb.Base.{String, true, false, some, List, [], ◌∷◌, ◌≡◌, refl, arith, eq_iff, ok, Result}
use chrondb.Base.Text.{join}
use chrondb.Platform.{Platform, DirEntry}
use chrondb.Setup.Target.{get_lib_name, lib_name_of, get_platform, platform_of}
use chrondb.Setup.Archive.{copy_dir, copy_entries, copy_entry, flatten_layout}
use chrondb.Setup.Install.{chrondb_home_lib_dir, download_library}
use chrondb.Setup.Copies.{has_file}
use chrondb.Setup.Releases.{Ships, flat, download_library-succeeds}
use chrondb.Tests.Demo.{Store, demo, demo_target, installed}

abbrev contents : List (Result DirEntry String)
contents = ok (record { file_name = "libchrondb.so"; is_dir = some false }) ∷ []

abbrev unpacking : Platform
unpacking = record demo {
  os = record demo.os { read_dir = λ path w. ok contents; download = λ url w. (ok 5, w) };
}

abbrev unpacked : Store
unpacked = record installed {
  files = "/home/u/.chrondb/lib/.tmp-extract-runtime/libchrondb.so" ∷ [];
}

copied_exists :
    (src dst : String) (w : Store)
    → (unpacking.os.copy src dst w).0 ≡ ok tt
    → unpacking.os.exists dst (unpacking.os.copy src dst w).1 ≡ true
copied_exists src dst w e = ground (arith, eq_iff dst dst)

copy_keeps :
    (src dst file : String) (w : Store)
    → unpacking.os.exists file w ≡ true
    → unpacking.os.exists file (unpacking.os.copy src dst w).1 ≡ true
copy_keeps src dst file w there = ground (arith, there)

abbrev lib_dir : String
lib_dir = "/home/u/.chrondb/lib"

abbrev temp_dir : String
temp_dir = "/home/u/.chrondb/lib/.tmp-extract-runtime"

unpacked-Ships : Ships unpacking demo_target temp_dir unpacked
unfolding get_lib_name lib_name_of join has_file
unpacked-Ships = flat contents refl refl refl

unpacked-done : (flatten_layout unpacking demo_target temp_dir lib_dir unpacked).0 ≡ ok tt
unfolding flatten_layout copy_dir copy_entries copy_entry get_lib_name lib_name_of join
unpacked-done = refl

download_library-succeeds_example :
    download_library unpacking demo_target unpacked
    ≡ (ok tt, (flatten_layout unpacking demo_target temp_dir lib_dir unpacked).1)
unfolding get_platform platform_of chrondb_home_lib_dir join
download_library-succeeds_example =
    download_library-succeeds unpacking demo_target copied_exists copy_keeps lib_dir "linux-x86_64"
      5 unpacked unpacked unpacked unpacked unpacked refl refl refl refl refl refl unpacked-Ships
      (λ v there. there) unpacked-done
