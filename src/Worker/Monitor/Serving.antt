-- ===== src/Worker/Monitor/Serving.antt =====
-- A worker that serves, and the initialization that makes one, under the observer.

use chrondb.Base.{String, List, [], ◌∷◌, ◌≡◌, sym, subst, Bool-cases, inl, inr, ok, err, ◌∙◌}
use chrondb.Error.{DbResult}
use chrondb.Platform.{Platform}
use chrondb.Setup.Target.{Target}
use chrondb.Setup.Install.{Process}
use chrondb.Loader.{get_library}
use chrondb.Command.{FfiCommand}
use chrondb.Worker.State.{FfiWorkerState, close}
use chrondb.Worker.Init.{open_isolate, init_worker, init_after}
use chrondb.Worker.Loop.{run_worker_loop}
use chrondb.Worker.Dispatch.{dispatch_command}
use chrondb.Worker.Monitor.{Monitor, watch, at_rest, serving}
use chrondb.Worker.Monitor.Calls.{dispatch_command-serving}
use chrondb.Worker.Monitor.Install.{get_library-keeps}
use chrondb.Worker.Monitor.Lifecycle.{
  IsNulFree, CreatesThreads, IsServing, Opened, open_isolate-Opened, close-at_rest,
}

module _ (p : Platform) where
  pub dispatch_command-IsServing :
      (st : FfiWorkerState) (cmd : FfiCommand) (x : p.World × Monitor)
      → IsServing st x.1
      → IsServing st (dispatch_command (watch p) st cmd x).world.1
  dispatch_command-IsServing st cmd x h = record {
    observed =
        subst
          (λ (m : Monitor).
            (dispatch_command (watch p) st cmd (x.0, m)).world.1 ≡ serving st.thread st.handle)
          (sym h.observed) (dispatch_command-serving p st cmd x.0);
    has_thread = h.has_thread;
    has_handle = h.has_handle;
  }

  pub run_worker_loop-IsServing :
      (st : FfiWorkerState) (cmds : List FfiCommand) (x : p.World × Monitor)
      → IsServing st x.1
      → IsServing st (run_worker_loop (watch p) st cmds x).1.1
  unfolding run_worker_loop
  run_worker_loop-IsServing st [] x h = h
  run_worker_loop-IsServing st (cmd ∷ rest) x h =
      elim (Bool-cases (dispatch_command (watch p) st cmd x).stop) [
        | inl e ↦ rw (e, run_worker_loop) now
        | inr e ↦
            rw (e, run_worker_loop)
              (run_worker_loop-IsServing st rest (dispatch_command (watch p) st cmd x).world now)
      ]
    where
      now : IsServing st (dispatch_command (watch p) st cmd x).world.1
      now = dispatch_command-IsServing st cmd x h

  pub close-IsServing :
      (st : FfiWorkerState) (x : p.World × Monitor)
      → IsServing st x.1
      → (close (watch p) st x).1.1 ≡ at_rest
  close-IsServing st x h =
      subst (λ (m : Monitor). (close (watch p) st (x.0, m)).1.1 ≡ at_rest) (sym h.observed)
        (close-at_rest p st x.0 h.has_thread h.has_handle)

module _ (p : Platform) (target : Target) (data_path index_path : String)
    (data_free : IsNulFree data_path) (index_free : IsNulFree index_path)
    (created : CreatesThreads p) where
  init_after-Opened :
      (r : DbResult (Unit {0})) (s : Process (p.World × Monitor))
      → s.world.1 ≡ at_rest
      → let q = init_after (watch p) data_path index_path (r, s) in Opened q.0 q.1.world.1
  unfolding init_after
  init_after-Opened (ok u) s h =
      subst
        (λ (m : Monitor).
          let r = open_isolate (watch p) data_path index_path (s.world.0, m) in Opened r.0 r.1.1)
        (sym h) (open_isolate-Opened p data_path index_path s.world.0 data_free index_free created)
  init_after-Opened (err e) s h = h

  -- The initialization of a worker in a process where nothing is held: the database is open behind it,
  -- or it failed and nothing is held.
  pub init_worker-Opened :
      (s : Process (p.World × Monitor))
      → s.world.1 ≡ at_rest
      → let r = init_worker (watch p) target data_path index_path s in Opened r.0 r.1.world.1
  unfolding init_worker
  init_worker-Opened s h =
      init_after-Opened (get_library (watch p) target s).0 (get_library (watch p) target s).1
        (get_library-keeps p target s ∙ h)
