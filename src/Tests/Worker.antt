-- ===== src/Tests/Worker.antt =====
-- The worker thread.
use chrondb.Base.{
  ℕ, String, false, none, some, List, [], ◌∷◌, ◌≡◌, refl, ok, err, ◌-◌, ◌>>=◌, ◌+◌, ◌*◌, ◌≤◌, map,
}
use chrondb.Base.Int.{pos}
use chrondb.Base.Text.{nul_position}
use chrondb.Error.{DbResult, not_found, open_failed}
use chrondb.Base.Text.{join, nul_error}
use chrondb.Setup.Target.{get_lib_name}
use chrondb.Setup.Install.{Process, chrondb_home_lib_dir, library_exists, ensure_library_installed}
use chrondb.Loader.{load, find_library_path, get_library}
use chrondb.Command.{put, get, last_error, shutdown, value, Sent}
use chrondb.Worker.State.{FfiWorkerState, c_string, optional_cstring, close}
use chrondb.Worker.Handlers.{handle_put, handle_get}
use chrondb.Worker.Dispatch.{dispatch_command, is_shutdown, reply_error}
use chrondb.Worker.Init.{open_isolate, init_worker}
use chrondb.Worker.Idle.{
  from_secs, check_interval, recv_wait, cleanup_stale_locks, Event, received, timed_out, IdleState,
  start, turn, run_worker_loop_with_idle,
}
use chrondb.Worker.Thread.{commands, worker_thread}
use chrondb.Worker.Refusals.{first_nul, texts, dispatch_command-refuses}
use chrondb.Worker.Replies.{ticket_of, all_awaited, run_worker_loop_with_idle-awaited}
use chrondb.Worker.Timing.{IsClosed, released, last_command, none_stops, turn-suspends}
use chrondb.Worker.Quiet.{quiet, start-IsClosed}
use chrondb.Worker.Backoff.{recv_wait_bounds}
use chrondb.Worker.Monitor.{Monitor, watch, at_rest, serving}
use chrondb.Worker.Monitor.Calls.{dispatch_command-serving}
use chrondb.Worker.Monitor.Threads.{worker_thread-at_rest, open_isolate-leaks}
use chrondb.Tests.Demo.{Store, demo, demo_target, installed}

abbrev fresh : Process Store
fresh = record { world = installed; setup_result = none; library = none }

abbrev session : List Event
session =
    received (put "user:1" "{}" none 1) 5
    ∷ timed_out (from_secs 40)
    ∷ received (get "user:1" none 2) (from_secs 50)
    ∷ received (get "user:2" none 3) (from_secs 51)
    ∷ received shutdown (from_secs 52)
    ∷ received (last_error 4) (from_secs 53)
    ∷ []

abbrev sent : ℕ → DbResult String → Sent String
sent channel r = record { channel = channel; payload = value r }

-- A document is read back, also when the isolate was closed in between.
session_replies :
    (worker_thread demo demo_target "/data" "/index" (some (from_secs 10)) 0 session fresh).sent
    ≡ sent 1 (ok "{\"id\":\"user:1\"}")
      ∷ sent 2 (ok "{\"id\":\"user:1\"}")
      ∷ sent 3 (err not_found)
      ∷ []
unfolding worker_thread init_worker get_library ensure_library_installed chrondb_home_lib_dir
    library_exists load run_worker_loop_with_idle turn dispatch_command handle_put handle_get ◌>>=◌
    c_string join is_shutdown close get_lib_name find_library_path cleanup_stale_locks
session_replies = refl

abbrev worker : FfiWorkerState
worker = record { isolate = 10; thread = 11; handle = pos 0 }

run_worker_loop_with_idle-awaited_example :
    map ticket_of
      (run_worker_loop_with_idle demo demo_target
        (from_secs 10)
        "/data"
        "/index"
        (start worker 0)
        session
        fresh).0
    ≡ all_awaited (commands session)
run_worker_loop_with_idle-awaited_example =
    run_worker_loop_with_idle-awaited demo demo_target (from_secs 10) "/data" "/index"
      (start worker 0) session fresh

recv_wait_bounds_example :
    (from_secs 1 ≤ recv_wait 5 (start worker 0)) × (recv_wait 5 (start worker 0) ≤ from_secs 30)
recv_wait_bounds_example = recv_wait_bounds 5 (start worker 0)

-- A command comes in between, and then nothing for the idle time.
abbrev one_get : List Event
one_get = received (get "user:1" none 1) (from_secs 5) ∷ timed_out (from_secs 9) ∷ []

abbrev behind_get : List (Sent String) × IdleState × Process Store
behind_get =
    run_worker_loop_with_idle demo demo_target (from_secs 10) "/data" "/index" (start worker 0)
      one_get fresh

turn-suspends_example :
    (now : ℕ) × (timed_out (from_secs 40) ≡ timed_out now)
    × (from_secs 10 ≤ now - last_command 0 one_get)
    × ((turn demo demo_target
          (from_secs 10)
          "/data"
          "/index"
          behind_get.1
          (timed_out (from_secs 40))
          behind_get.2).process.world
        ≡ released demo demo_target
            (from_secs 10)
            "/data"
            "/index"
            behind_get.1.worker
            behind_get.2.world)
unfolding run_worker_loop_with_idle turn close none_stops is_shutdown dispatch_command handle_get
    c_string nul_position optional_cstring ◌>>=◌
turn-suspends_example =
    turn-suspends demo demo_target (from_secs 10) "/data" "/index" one_get
      (timed_out (from_secs 40)) worker 0 fresh refl refl refl refl refl

start-IsClosed_example :
    (n : ℕ) × (n * check_interval (from_secs 10) ≤ from_secs 10 + check_interval (from_secs 10))
    × (let r =
          run_worker_loop_with_idle demo demo_target
            (from_secs 10)
            "/data"
            "/index"
            (start worker 0)
            (quiet n 0 (check_interval (from_secs 10)))
            fresh in
        IsClosed r.1
        × (r.0 ≡ [])
        × (r.2.world
            ≡ released demo demo_target (from_secs 10) "/data" "/index" worker fresh.world))
start-IsClosed_example =
    start-IsClosed demo demo_target (from_secs 10) "/data" "/index" worker 0 fresh refl refl

dispatch_command-serving_example :
    (dispatch_command
      (watch demo)
      worker
      (put "user:1" "{}" none 1)
      (installed, serving 11 (pos 0))).world.1
    ≡ serving 11 (pos 0)
dispatch_command-serving_example =
    dispatch_command-serving demo worker (put "user:1" "{}" none 1) installed

data_path-IsNulFree : nul_position "/data" ≡ none
unfolding nul_position
data_path-IsNulFree = refl

index_path-IsNulFree : nul_position "/index" ≡ none
unfolding nul_position
index_path-IsNulFree = refl

watched : Process (Store × Monitor)
watched = record { world = (installed, at_rest); setup_result = none; library = none }

worker_thread-at_rest_example :
    (worker_thread
      (watch demo)
      demo_target
      "/data"
      "/index"
      (some (from_secs 10))
      0
      session
      watched).process.world.1
    ≡ at_rest
unfolding watched
worker_thread-at_rest_example =
    worker_thread-at_rest demo demo_target "/data" "/index" data_path-IsNulFree index_path-IsNulFree
      (λ w _. refl) (some (from_secs 10)) 0 session watched refl

-- A text with a NUL byte.
abbrev cut_path : String
cut_path = "/da\0ta"

cut_path-nul : nul_position cut_path ≡ some 3
unfolding nul_position
cut_path-nul = refl

open_isolate-leaks_example :
    let r = open_isolate (watch demo) cut_path "/index" (installed, at_rest) in
    (r.0 ≡ err (open_failed (nul_error 3))) × (r.1.1.live ≡ some 11)
open_isolate-leaks_example = open_isolate-leaks demo cut_path "/index" 3 installed cut_path-nul refl

put_refused : first_nul (texts (put cut_path "{}" none 1)) ≡ some 3
unfolding first_nul texts nul_position
put_refused = refl

dispatch_command-refuses_example :
    dispatch_command demo worker (put cut_path "{}" none 1) installed ≡ record {
      stop = false;
      sent = reply_error (put cut_path "{}" none 1) (nul_error 3);
      world = installed;
    }
dispatch_command-refuses_example =
    dispatch_command-refuses demo worker (put cut_path "{}" none 1) installed 3 put_refused
