-- ===== src/Setup/Install.antt =====
-- Finding and downloading the library, once in a process (bindings/rust/src/setup.rs).
use chrondb.Base.{
  String, Bool, false, ◌||◌, Option, none, some, ◌<>◌, if◌then◌else◌, Result, ok, err, map_err,
  ok_or, Run, lift, ◌>>=◌, ◌>>◌,
}
use chrondb.Base.Text.{join}
use chrondb.Error.{DbResult, setup_failed}
use chrondb.Platform.{Platform}
use chrondb.Setup.Target.{Target, get_lib_name, get_platform, download_url}
use chrondb.Setup.Archive.{attempt, flatten_extracted_archive}

-- The process: the world and the two `OnceLock` statics, `SETUP_RESULT` of setup.rs and `LIBRARY`
-- of ffi.rs. The library's function pointers are the platform's.
pub record Process (W : Type 0) : Type 0 where
  pub world : W
  pub setup_result : Option (Result (Unit {0}) String)
  pub library : Option (Result (Unit {0}) String)

module _ (p : Platform) (target : Target) where
  open p use {World, os}

  unfoldable pub chrondb_home_lib_dir : Option String
  chrondb_home_lib_dir = elim os.home_dir [
    | none ↦ none
    | some h ↦ some (join (join h ".chrondb") "lib")
  ]

  unfoldable pub exists_in : Option String → World → Bool
  exists_in none w = false
  exists_in (some dir) w = os.exists (join dir (get_lib_name target)) w

  unfoldable pub library_exists : World → Bool
  unfolding exists_in
  library_exists w = exists_in (os.env_var "CHRONDB_LIB_DIR") w || exists_in chrondb_home_lib_dir w

  -- The end of `download_library`: clean up, and look for the library.
  unfoldable pub verify_installed : String → String → Run World (Unit {0}) String
  verify_installed temp_dir lib_dir w0 =
      let w = os.remove_dir_all temp_dir w0 in
      if os.exists (join lib_dir (get_lib_name target)) w
      then (ok tt, w)
      else (err ("Library " <> get_lib_name target <> " was not found after extraction"), w)

  unfoldable pub download_library : Run World (Unit {0}) String
  unfolding verify_installed
  download_library = do
    platform ← lift (ok_or "No pre-built library available for this platform" (get_platform target))
    lib_dir ← lift (ok_or "Cannot determine home directory" chrondb_home_lib_dir)
    body ←
        attempt "Failed to download library: " (os.download (download_url target.version platform))
    let temp_dir = join lib_dir ".tmp-extract-runtime"
    attempt "Failed to create temp directory: " (os.create_dir_all temp_dir)
    attempt "Failed to extract archive: " (os.unpack body temp_dir)
    flatten_extracted_archive p target temp_dir lib_dir
    verify_installed temp_dir lib_dir

  -- The closure given to `SETUP_RESULT.get_or_init`.
  unfoldable pub run_setup : Run World (Unit {0}) String
  unfolding download_library
  run_setup w = if library_exists w then (ok tt, w) else download_library w

  abbrev as_setup_failed : Result (Unit {0}) String → DbResult (Unit {0})
  as_setup_failed r = map_err setup_failed r

  unfoldable pub ensure_library_installed : Process World → DbResult (Unit {0}) × Process World
  unfolding run_setup
  ensure_library_installed s = elim s.setup_result [
    | some r ↦ (as_setup_failed r, s)
    | none ↦
        let (r, w) = run_setup s.world in
        (as_setup_failed r, record s { world = w; setup_result = some r })
  ]

  unfoldable pub get_library_dir : Option String
  get_library_dir = elim (os.env_var "CHRONDB_LIB_DIR") [
    | some dir ↦ some dir
    | none ↦ chrondb_home_lib_dir
  ]
