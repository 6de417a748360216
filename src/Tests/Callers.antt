-- ===== src/Tests/Callers.antt =====
-- Two callers at one worker, and its end.
use chrondb.Base.{none, some, List, [], ◌∷◌, ◌++◌, ◌≡◌, refl}
use chrondb.Base.Int.{pos}
use chrondb.Setup.Install.{Process}
use chrondb.Command.{FfiCommand, put, get, delete, shutdown}
use chrondb.Worker.State.{FfiWorkerState}
use chrondb.Worker.Dispatch.{dispatch_command}
use chrondb.Worker.Loop.{run_worker_loop}
use chrondb.Worker.Idle.{Event, received, timed_out, from_secs}
use chrondb.Worker.Thread.{worker_thread}
use chrondb.Worker.Ends.{worker_thread-shutdown}
use chrondb.Worker.Callers.{none_awaits, none_stops, recv-run_worker_loop}
use chrondb.Client.{recv, value_of}
use chrondb.Tests.Demo.{Store, demo, demo_target, installed}

abbrev serving_worker : FfiWorkerState
serving_worker = record { isolate = 10; thread = 11; handle = pos 0 }

abbrev first_caller : List FfiCommand
first_caller = put "user:1" "{}" none 1 ∷ []

abbrev behind : List FfiCommand
behind = delete "user:1" none 1 ∷ shutdown ∷ []

recv-run_worker_loop_example :
    recv value_of 2
      (run_worker_loop demo serving_worker
        (first_caller ++ get "user:1" none 2 ∷ behind)
        installed).0
    ≡ recv value_of 2
        (dispatch_command demo serving_worker
          (get "user:1" none 2)
          (run_worker_loop demo serving_worker first_caller installed).1).sent
unfolding none_awaits none_stops
recv-run_worker_loop_example =
    recv-run_worker_loop demo serving_worker value_of 2 first_caller (get "user:1" none 2) behind
      installed refl refl refl

abbrev queued : List Event
queued = received (put "user:1" "{}" none 1) 5 ∷ timed_out (from_secs 40) ∷ []

abbrev late : List Event
late = received (get "user:1" none 2) (from_secs 50) ∷ []

abbrev fresh : Process Store
fresh = record { world = installed; setup_result = none; library = none }

worker_thread-shutdown_example :
    worker_thread demo demo_target "/data" "/index"
      (some (from_secs 10))
      0
      (queued ++ received shutdown (from_secs 45) ∷ late)
      fresh
    ≡ worker_thread demo demo_target "/data" "/index"
        (some (from_secs 10))
        0
        (queued ++ received shutdown (from_secs 45) ∷ [])
        fresh
worker_thread-shutdown_example =
    worker_thread-shutdown demo demo_target "/data" "/index" (some (from_secs 10)) 0 (from_secs 45)
      queued late fresh
