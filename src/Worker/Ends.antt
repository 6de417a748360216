-- ===== src/Worker/Ends.antt =====
-- The end of the worker thread: a shutdown ends it, whatever else is in its queue.
use chrondb.Base.{
  ℕ, String, true, Option, none, some, List, [], ◌∷◌, ◌++◌, ◌≡◌, refl, ap, if◌then◌else◌, ok, err,
}
use chrondb.Error.{DbResult}
use chrondb.Platform.{Platform}
use chrondb.Setup.Target.{Target}
use chrondb.Setup.Install.{Process}
use chrondb.Command.{shutdown}
use chrondb.Worker.State.{FfiWorkerState}
use chrondb.Worker.Dispatch.{is_shutdown, dispatch_command}
use chrondb.Worker.Init.{init_worker}
use chrondb.Worker.Loop.{run_worker_loop}
use chrondb.Worker.Idle.{
  Event, received, timed_out, IdleState, Waiting, for_command, for_backoff, start, backed_off,
  on_command, turn, run_worker_loop_with_idle,
}
use chrondb.Worker.Thread.{commands, serve_until_closed, run_thread, worker_thread}

module _ (p : Platform) where
  open p use {World}

  run_worker_loop-shutdown :
      (st : FfiWorkerState) (now : ℕ) (before rest : List Event) (w : World)
      → run_worker_loop p st (commands (before ++ received shutdown now ∷ rest)) w
        ≡ run_worker_loop p st (commands (before ++ received shutdown now ∷ [])) w
  unfolding run_worker_loop commands dispatch_command
  run_worker_loop-shutdown st now [] rest w = refl
  run_worker_loop-shutdown st now (timed_out t ∷ before) rest w =
      run_worker_loop-shutdown st now before rest w
  run_worker_loop-shutdown st now (received cmd t ∷ before) rest w =
      let d = dispatch_command p st cmd w in
      ap (λ later. if d.stop then (d.sent, d.world) else (d.sent ++ later.0, later.1))
        (run_worker_loop-shutdown st now before rest d.world)

module _ (p : Platform) (target : Target) (idle_timeout : ℕ) (data_path index_path : String) where
  open p use {World, Value}

  on_command-shutdown :
      (q : Waiting) (i : IdleState) (now : ℕ) (s : Process World)
      → (on_command p target idle_timeout data_path index_path q i shutdown now s).stop ≡ true
  unfolding on_command backed_off is_shutdown
  on_command-shutdown for_command i now s = refl
  on_command-shutdown for_backoff i now s = refl

  run_worker_loop_with_idle-shutdown :
      (i : IdleState) (now : ℕ) (before rest : List Event) (s : Process World)
      → run_worker_loop_with_idle p target idle_timeout data_path index_path i
          (before ++ received shutdown now ∷ rest)
          s
        ≡ run_worker_loop_with_idle p target idle_timeout data_path index_path i
            (before ++ received shutdown now ∷ [])
            s
  unfolding run_worker_loop_with_idle turn
  run_worker_loop_with_idle-shutdown i now [] rest s =
      rw (on_command-shutdown i.waiting i now s) refl
  run_worker_loop_with_idle-shutdown i now (e ∷ before) rest s =
      let t = turn p target idle_timeout data_path index_path i e s in
      ap
        (λ later.
          if t.stop then (t.sent, t.state, t.process) else (t.sent ++ later.0, later.1, later.2))
        (run_worker_loop_with_idle-shutdown t.state now before rest t.process)

module _ (p : Platform) (target : Target) (data_path index_path : String) where
  open p use {World}

  run_thread-shutdown :
      (idle_timeout : Option ℕ) (now t : ℕ) (before rest : List Event)
      (q : DbResult FfiWorkerState × Process World)
      → run_thread p target data_path index_path idle_timeout now
          (before ++ received shutdown t ∷ rest)
          q
        ≡ run_thread p target data_path index_path idle_timeout now
            (before ++ received shutdown t ∷ [])
            q
  unfolding run_thread serve_until_closed
  run_thread-shutdown none now t before rest (ok st, s) =
      rw (run_worker_loop-shutdown p st t before rest s.world) refl
  run_thread-shutdown (some timeout) now t before rest (ok st, s) =
      rw
        (run_worker_loop_with_idle-shutdown p target timeout data_path index_path (start st now) t
          before rest s)
        refl
  run_thread-shutdown idle_timeout now t before rest (err e, s) = refl

  -- A worker thread, with or without an idle timeout and whatever came before, ends at the latest at a
  -- shutdown that it receives: what it told and sent and the process that it leaves do not depend on
  -- what is behind in the queue.
  pub worker_thread-shutdown :
      (idle_timeout : Option ℕ) (now t : ℕ) (before rest : List Event) (s : Process World)
      → worker_thread p target data_path index_path idle_timeout now
          (before ++ received shutdown t ∷ rest)
          s
        ≡ worker_thread p target data_path index_path idle_timeout now
            (before ++ received shutdown t ∷ [])
            s
  unfolding worker_thread
  worker_thread-shutdown idle_timeout now t before rest s =
      run_thread-shutdown idle_timeout now t before rest
        (init_worker p target data_path index_path s)
