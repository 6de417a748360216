-- ===== src/Tests/LastError.antt =====
-- The small platform, where a listing leaves an error, and a new isolate has none.
use chrondb.Base.{none, some, List, [], ◌∷◌, ◌++◌, ◌≡◌, refl, arith, ◌>>=◌}
use chrondb.Base.Text.{join, nul_position}
use chrondb.Platform.{Platform}
use chrondb.Command.{list_by_prefix, last_error, message}
use chrondb.Setup.Install.{Process, ensure_library_installed}
use chrondb.Loader.{get_library, load_once}
use chrondb.Worker.State.{get_last_error, close, c_string}
use chrondb.Worker.Dispatch.{is_shutdown, dispatch_command}
use chrondb.Worker.Init.{init_worker}
use chrondb.Worker.Handlers.{handle_list_by_prefix}
use chrondb.Worker.Loop.{run_worker_loop}
use chrondb.Worker.Idle.{
  Event, received, timed_out, from_secs, start, cleanup_stale_locks, run_worker_loop_with_idle,
}
use chrondb.Worker.Thread.{commands}
use chrondb.Worker.LastError.{closed_process, run_worker_loop_with_idle-last_error}
use chrondb.Tests.Demo.{Store, no_string, demo, demo_target}
use chrondb.Tests.Durable.{session, loaded_process}

-- The listing fails and leaves an error that its handler does not ask for.
abbrev forgetful : Platform
forgetful = record demo {
  native = record demo.native { chrondb_list_by_prefix = λ t h a b w. no_string w };
}

abbrev failed : Store
failed =
    (dispatch_command forgetful session (list_by_prefix "user" none 1) loaded_process.world).world

abbrev reopening : Process Store
reopening =
    closed_process forgetful demo_target (from_secs 10) "/data" "/index" session
      (record loaded_process { world = failed })

abbrev reopened : Process Store
reopened = (init_worker forgetful demo_target "/data" "/index" reopening).1

abbrev asked_behind : List Event
asked_behind =
    received (list_by_prefix "user" none 1) 5
    ∷ timed_out (from_secs 40)
    ∷ received (last_error 2) (from_secs 41)
    ∷ []

run_worker_loop_with_idle-last_error_example :
    ((run_worker_loop forgetful session (commands asked_behind) loaded_process.world).0
      ≡ (dispatch_command forgetful session
          (list_by_prefix "user" none 1)
          loaded_process.world).sent
        ++ record { channel = 2; payload = message (some "unsupported") } ∷ [])
    × ((run_worker_loop_with_idle forgetful demo_target
          (from_secs 10)
          "/data"
          "/index"
          (start session 0)
          asked_behind
          loaded_process).0
        ≡ (dispatch_command forgetful session
            (list_by_prefix "user" none 1)
            loaded_process.world).sent
          ++ record { channel = 2; payload = message none } ∷ [])
unfolding dispatch_command handle_list_by_prefix get_last_error init_worker get_library
    ensure_library_installed load_once c_string nul_position close cleanup_stale_locks is_shutdown
    ◌>>=◌ join
run_worker_loop_with_idle-last_error_example =
    run_worker_loop_with_idle-last_error forgetful demo_target (from_secs 10) "/data" "/index"
      session session (list_by_prefix "user" none 1) 0 5 (from_secs 40) (from_secs 41) 2
      "unsupported" loaded_process reopened refl (omega arith) refl refl refl
