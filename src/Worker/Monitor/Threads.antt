-- ===== src/Worker/Monitor/Threads.antt =====
-- The whole life of the worker thread under the observer, with either loop.

use chrondb.Base.{ℕ, String, true, Option, none, some, List, ◌≡◌, refl, arith, inl, ok, err}
use chrondb.Base.Int.{is_zero}
use chrondb.Base.Text.{nul_error, nul_position}
use chrondb.Error.{open_failed, DbResult}
use chrondb.Platform.{Platform}
use chrondb.Setup.Target.{Target}
use chrondb.Setup.Install.{Process}
use chrondb.Worker.State.{FfiWorkerState, c_string}
use chrondb.Worker.Init.{after_create, open_isolate}
use chrondb.Worker.Idle.{Event, start}
use chrondb.Worker.Thread.{commands, serve_until_closed, run_thread, worker_thread}
use chrondb.Worker.Monitor.{Monitor, on_create, watch, at_rest}
use chrondb.Worker.Monitor.Lifecycle.{IsNulFree, CreatesThreads, IsServing, Opened}
use chrondb.Worker.Monitor.Serving.{run_worker_loop-IsServing, close-IsServing, init_worker-Opened}
use chrondb.Worker.Monitor.Suspends.{run_worker_loop_with_idle-Inv, close-Inv}

module _ (p : Platform) (target : Target) (data_path index_path : String)
    (data_free : IsNulFree data_path) (index_free : IsNulFree index_path)
    (created : CreatesThreads p) where
  serve_until_closed-at_rest :
      (idle_timeout : Option ℕ) (st : FfiWorkerState) (now : ℕ) (events : List Event)
      (s : Process (p.World × Monitor))
      → IsServing st s.world.1
      → (serve_until_closed
          (watch p)
          target
          data_path
          index_path
          idle_timeout
          st
          now
          events
          s).process.world.1
        ≡ at_rest
  unfolding serve_until_closed
  serve_until_closed-at_rest none st now events s h =
      close-IsServing p st _ (run_worker_loop-IsServing p st (commands events) s.world h)
  serve_until_closed-at_rest (some idle_timeout) st now events s h =
      close-Inv p target data_path index_path data_free index_free created _ _ (
        run_worker_loop_with_idle-Inv p target data_path index_path data_free index_free created
          idle_timeout (start st now) events s (inl (refl, h)))

  run_thread-at_rest :
      (idle_timeout : Option ℕ) (now : ℕ) (events : List Event)
      (q : DbResult FfiWorkerState × Process (p.World × Monitor))
      → Opened q.0 q.1.world.1
      → (run_thread (watch p) target data_path index_path idle_timeout now events q).process.world.1
        ≡ at_rest
  unfolding run_thread
  run_thread-at_rest idle_timeout now events (ok st, s) h =
      serve_until_closed-at_rest idle_timeout st now events s h
  run_thread-at_rest idle_timeout now events (err e, s) h = h

  -- The worker thread, with or without an idle timeout, over any library that creates isolates with
  -- threads, for paths with no NUL byte, whatever commands and timeouts come, whatever the library
  -- answers and whether or not a reopening succeeds: if nothing was held before it, then every call of
  -- the library went to an isolate that was up and a handle that was open, every string was read
  -- once while it was held, and then freed once and before the next one, and nothing is held behind it.
  pub worker_thread-at_rest :
      (idle_timeout : Option ℕ) (now : ℕ) (events : List Event) (s : Process (p.World × Monitor))
      → s.world.1 ≡ at_rest
      → (worker_thread
          (watch p)
          target
          data_path
          index_path
          idle_timeout
          now
          events
          s).process.world.1
        ≡ at_rest
  unfolding worker_thread
  worker_thread-at_rest idle_timeout now events s h =
      run_thread-at_rest idle_timeout now events _
        (init_worker-Opened p target data_path index_path data_free index_free created s h)

-- A data path with a NUL byte is refused only when the isolate is up, and the isolate is not torn
-- down: it is still held behind the error.
pub open_isolate-leaks :
    (p : Platform) (data_path index_path : String) (k : ℕ) (w : p.World)
    → nul_position data_path ≡ some k
    → is_zero (p.native.graal_create_isolate w).0.code ≡ true
    → let r = open_isolate (watch p) data_path index_path (w, at_rest) in
      (r.0 ≡ err (open_failed (nul_error k)))
      × (r.1.1.live ≡ some (p.native.graal_create_isolate w).0.thread)
unfolding open_isolate after_create on_create c_string
open_isolate-leaks p data_path index_path k w nul zero = ground arith
