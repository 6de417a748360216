-- ===== src/Build/Outcomes.antt =====
-- What the ends of the build script's `main` mean for the runtime's setup.
use chrondb.Base.{
  ℕ, String, true, false, none, some, List, ◌≡◌, refl, arith, Result, ok, ◌>>=◌, act, return,
}
use chrondb.Base.Text.{join}
use chrondb.Platform.{Platform, DirEntry}
use chrondb.Setup.Archive.{first_dir}
use chrondb.Setup.Install.{chrondb_home_lib_dir, exists_in, library_exists, run_setup}
use chrondb.Build.Runtime.{cfg, get_platform-build_platform}
use chrondb.Build.{
  build_lib_name, build_platform, build_url, already_exists, pre_downloaded, build_home_lib_dir,
  build_lib_dir, copy_first, pre_download_from, pre_download, main_in, main,
}

module _ (p : Platform) where
  open p use {World, os}

  -- What the test for the library tells, with the setup's names.
  already_exists-library_exists :
      (target_os arch version : String) (w : World)
      → os.env_var "CARGO_CFG_TARGET_OS" ≡ some target_os
      → (main p w).0 ≡ already_exists
      → ((main p w).1 ≡ w) × (library_exists p (cfg target_os arch version) w ≡ true)
  unfolding main main_in build_lib_dir build_home_lib_dir library_exists exists_in
      chrondb_home_lib_dir
  already_exists-library_exists target_os arch version w named e =
      let same = (get_platform-build_platform target_os arch version "").0 in ground (arith, same)

  -- Where the script for a known target finds the library already there, it changes nothing, and the
  -- setup of a process with the same environment, in the same state, succeeds and changes nothing.
  pub main-run_setup :
      (target_os arch version : String) (w : World)
      → os.env_var "CARGO_CFG_TARGET_OS" ≡ some target_os
      → (main p w).0 ≡ already_exists
      → ((main p w).1 ≡ w) × (run_setup p (cfg target_os arch version) w ≡ (ok tt, w))
  unfolding main main_in build_lib_dir build_home_lib_dir run_setup library_exists exists_in
      chrondb_home_lib_dir
  main-run_setup target_os arch version w named e =
      let (same, there) = already_exists-library_exists target_os arch version w named e in
      (same, rw (run_setup, there) refl)

  -- Where the build is for no platform that has releases, the script reports a success, and has
  -- downloaded nothing and changed nothing.
  pub main-unsupported :
      (target_os arch version lib_dir : String) (w : World)
      → os.env_var "CHRONDB_SKIP_DOWNLOAD" ≡ none
      → os.env_var "CARGO_CFG_TARGET_OS" ≡ some target_os
      → os.env_var "CARGO_CFG_TARGET_ARCH" ≡ some arch
      → os.env_var "CARGO_PKG_VERSION" ≡ some version
      → build_lib_dir p ≡ some lib_dir
      → os.exists (join lib_dir (build_lib_name target_os)) w ≡ false
      → build_platform target_os arch ≡ none
      → main p w ≡ (pre_downloaded, w)
  unfolding main main_in pre_download ◌>>=◌
  main-unsupported target_os arch version lib_dir w skip os_is arch_is version_is dir missing
        no_release =
      rw
        (
          main, skip, dir, main_in, os_is, missing, ◌>>=◌, arch_is, ◌>>=◌, version_is, no_release,
          return,
        )
        refl

  pre_download_from-flat :
      (url lib_dir : String) (body : ℕ) (entries : List (Result DirEntry String))
      (w w1 w2 w3 w4 : World)
      → os.download url w ≡ (ok body, w1)
      → os.create_dir_all (join lib_dir ".tmp-extract-build") w1 ≡ (ok tt, w2)
      → os.unpack body (join lib_dir ".tmp-extract-build") w2 ≡ (ok tt, w3)
      → os.read_dir (join lib_dir ".tmp-extract-build") w3 ≡ ok entries
      → first_dir entries ≡ none
      → os.create_dir_all lib_dir w3 ≡ (ok tt, w4)
      → pre_download_from p url lib_dir w
        ≡ (ok tt, os.remove_dir_all (join lib_dir ".tmp-extract-build") w4)
  unfolding pre_download_from copy_first ◌>>=◌ act return
  pre_download_from-flat url lib_dir body entries w w1 w2 w3 w4 downloaded created unpacked listed
        flat made =
      rw (pre_download_from, downloaded, created, unpacked, listed, made, flat) refl

  -- Where every call of the system succeeds and the unpacked release has no directory, as the flat ones
  -- have none, the script reports a success, and has created the library's directory and copied nothing
  -- into it.
  pub main-flat :
      (target_os arch version lib_dir platform : String) (body : ℕ)
      (entries : List (Result DirEntry String)) (w w1 w2 w3 w4 : World)
      → os.env_var "CHRONDB_SKIP_DOWNLOAD" ≡ none
      → os.env_var "CARGO_CFG_TARGET_OS" ≡ some target_os
      → os.env_var "CARGO_CFG_TARGET_ARCH" ≡ some arch
      → os.env_var "CARGO_PKG_VERSION" ≡ some version
      → build_lib_dir p ≡ some lib_dir
      → os.exists (join lib_dir (build_lib_name target_os)) w ≡ false
      → build_platform target_os arch ≡ some platform
      → os.download (build_url version platform) w ≡ (ok body, w1)
      → os.create_dir_all (join lib_dir ".tmp-extract-build") w1 ≡ (ok tt, w2)
      → os.unpack body (join lib_dir ".tmp-extract-build") w2 ≡ (ok tt, w3)
      → os.read_dir (join lib_dir ".tmp-extract-build") w3 ≡ ok entries
      → first_dir entries ≡ none
      → os.create_dir_all lib_dir w3 ≡ (ok tt, w4)
      → main p w ≡ (pre_downloaded, os.remove_dir_all (join lib_dir ".tmp-extract-build") w4)
  unfolding main main_in pre_download ◌>>=◌
  main-flat target_os arch version lib_dir platform body entries w w1 w2 w3 w4 skip os_is arch_is
        version_is dir missing release downloaded created unpacked listed flat made =
      rw
        (
          main,
          skip,
          dir,
          main_in,
          os_is,
          missing,
          ◌>>=◌,
          arch_is,
          ◌>>=◌,
          version_is,
          release,
          pre_download_from-flat (build_url version platform) lib_dir body entries w w1 w2 w3 w4
              downloaded created unpacked listed flat made,
        )
        refl
