-- ===== src/Tests/Refusing.antt =====
-- The small platform where openings fail: the first one of every two, or all of them.
use chrondb.Base.{◌%◌, true, none, List, [], ◌∷◌, ◌≡◌, refl, ok, arith, ◌==◌, if◌then◌else◌, err}
use chrondb.Base.Int.{ℤ, pos, negsuc}
use chrondb.Platform.{Platform}
use chrondb.Command.{put, get}
use chrondb.Base.Text.{nul_position}
use chrondb.Setup.Install.{Process}
use chrondb.Worker.State.{c_string}
use chrondb.Error.{ChronDbError, DbResult}
use chrondb.Worker.Init.{open_error, open_isolate, init_after, init_worker}
use chrondb.Worker.Traffic.{
  Two, attempts, events_of, none_shuts, failures_after, refusals,
  run_worker_loop_with_idle-failures_after,
}
use chrondb.Worker.Idle.{
  Event, received, timed_out, from_secs, start, IdleState, for_command, run_worker_loop_with_idle,
}
use chrondb.Worker.Dispatch.{is_shutdown}
use chrondb.Worker.Thread.{commands}
use chrondb.Worker.Durable.Recoverable.{IsRecoverable}
use chrondb.Worker.Durable.Transparent.{never_asks}
use chrondb.Worker.Durable.Refusing.{Serves, run_worker_loop_with_idle-Serves}
use chrondb.Tests.Demo.{Store, demo_target, installed}
use chrondb.Tests.Durable.{
  session, SameDocs, ClosedDocs, opening, functional, data-free, index-free, loaded_process,
}

abbrev every_other : Store → ℤ
every_other w = if w.isolates % 2 == 0 then pos 0 else negsuc 0

abbrev flaky : Platform
flaky = opening every_other

recoverable : IsRecoverable flaky SameDocs ClosedDocs "/data" "/index"
unfolding open_error
recoverable = record {
  has_thread = λ st su x y r. ground (arith, r);
  has_handle = λ st su x y r. ground (arith, r);
  closes = λ st su x y r. (r.1.0, refl, r.1.2);
  unlocks = λ su x y k. k;
  fails_to_create = λ su x y k e. k;
  opens = λ su x y k e. ground (arith, k, e);
  fails_to_open = λ su x y k e. ground (arith, k);
}

-- The reopening for the first question fails, and the second question ends the backoff.
abbrev with_failure : List Event
with_failure =
    received (put "user:1" "{}" none 1) 5
    ∷ timed_out (from_secs 40)
    ∷ received (get "user:1" none 2) (from_secs 50)
    ∷ received (get "user:1" none 3) (from_secs 51)
    ∷ received (get "user:1" none 4) (from_secs 52)
    ∷ []

with_failure-quiet : never_asks with_failure ≡ true
unfolding never_asks
with_failure-quiet = refl

run_worker_loop_with_idle-Serves_example :
    Serves flaky session installed
      (commands with_failure)
      (run_worker_loop_with_idle flaky demo_target
        (from_secs 10)
        "/data"
        "/index"
        (start session 0)
        with_failure
        loaded_process).0
run_worker_loop_with_idle-Serves_example =
    run_worker_loop_with_idle-Serves flaky demo_target "/data" "/index" data-free index-free
      SameDocs ClosedDocs (functional every_other) recoverable (from_secs 10) 0 with_failure session
      session loaded_process installed (refl, refl) (refl, (refl, refl, refl)) with_failure-quiet

-- No opening succeeds.
abbrev broken : Platform
broken = opening (λ w. negsuc 0)

open_isolate-broken :
    (w : Store) → (e : ChronDbError) × ((open_isolate broken "/data" "/index" w).0 ≡ err e)
unfolding open_isolate open_error c_string nul_position
open_isolate-broken w = (_, refl)

init_after-broken :
    (q : DbResult (Unit {0}) × Process Store)
    → (e : ChronDbError) × ((init_after broken "/data" "/index" q).0 ≡ err e)
unfolding init_after
init_after-broken (ok u, s) = open_isolate-broken s.world
init_after-broken (err e, s) = (e, refl)

init_worker-broken :
    (s : Process Store)
    → (e : ChronDbError) × ((init_worker broken demo_target "/data" "/index" s).0 ≡ err e)
unfolding init_worker
init_worker-broken s = init_after-broken _

abbrev asleep : IdleState
asleep = record (start session 0) { suspended = true }

abbrev traffic : List Two
traffic =
    record {
      first = get "user:1" none 1;
      first_now = 5;
      second = get "user:2" none 2;
      second_now = 6;
    }
    ∷ []

run_worker_loop_with_idle-failures_after_example :
    let q =
      run_worker_loop_with_idle broken demo_target
        (from_secs 10)
        "/data"
        "/index"
        asleep
        (events_of traffic)
        loaded_process in
    (q.0 ≡ refusals traffic)
    × (q.1.reopen_failures ≡ failures_after traffic 0)
    × (q.1.suspended ≡ true)
    × (q.1.waiting ≡ for_command)
    × (q.2 ≡ attempts broken demo_target (from_secs 10) "/data" "/index" traffic loaded_process)
unfolding none_shuts is_shutdown
run_worker_loop_with_idle-failures_after_example =
    run_worker_loop_with_idle-failures_after broken demo_target (from_secs 10) "/data" "/index"
      init_worker-broken traffic asleep loaded_process refl refl refl
