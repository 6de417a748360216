-- ===== src/Tests/Loader.antt =====
-- The installed library.
use chrondb.Base.{String, none, some, ◌≡◌, refl, ok}
use chrondb.Base.Text.{join}
use chrondb.Setup.Target.{get_lib_name}
use chrondb.Setup.Install.{
  Process, chrondb_home_lib_dir, library_exists, run_setup, ensure_library_installed,
}
use chrondb.Loader.{find_library_path}
use chrondb.Loader.Once.{run_setup-found, ensure_library_installed-once}
use chrondb.Tests.Demo.{Store, demo, demo_target, installed}

abbrev first_call : Process Store
first_call = record { world = installed; setup_result = none; library = none }

setup_succeeds : (run_setup demo demo_target installed).0 ≡ ok tt
unfolding run_setup library_exists chrondb_home_lib_dir get_lib_name join
setup_succeeds = refl

run_setup-found_example :
    (path : String) × (find_library_path demo demo_target (run_setup demo demo_target installed).1
      ≡ some path)
run_setup-found_example = run_setup-found demo demo_target installed setup_succeeds

ensure_library_installed-once_example :
    let q = ensure_library_installed demo demo_target first_call in
    ensure_library_installed demo demo_target q.1 ≡ q
ensure_library_installed-once_example = ensure_library_installed-once demo demo_target first_call
