-- ===== src/Worker/Thread.antt =====
-- The body of the worker thread of `create_new_worker`: it opens the database, tells its creator,
-- runs one of the loops and closes the database.
use chrondb.Base.{ℕ, String, Option, none, some, List, [], ◌∷◌, ok, err}
use chrondb.Error.{DbResult}
use chrondb.Platform.{Platform}
use chrondb.Setup.Target.{Target}
use chrondb.Setup.Install.{Process}
use chrondb.Command.{FfiCommand, Sent}
use chrondb.Worker.State.{FfiWorkerState, close}
use chrondb.Worker.Init.{init_worker}
use chrondb.Worker.Loop.{run_worker_loop}
use chrondb.Worker.Idle.{Event, received, timed_out, start, run_worker_loop_with_idle}

-- What a thread did: what it told its creator, what it sent, and the process behind it.
pub record Ran (V W : Type 0) : Type 0 where
  pub init_result : DbResult (Unit {0})
  pub sent : List (Sent V)
  pub process : Process W

-- A plain `recv` has no timeouts.
unfoldable pub commands : List Event → List FfiCommand
commands [] = []
commands (received cmd now ∷ rest) = cmd ∷ commands rest
commands (timed_out now ∷ rest) = commands rest

module _ (p : Platform) (target : Target) where
  open p use {World, Value}

  -- The `match idle_timeout`, and `state.close()`.
  unfoldable pub serve_until_closed :
      String → String → Option ℕ → FfiWorkerState → ℕ → List Event → Process World → Ran Value World
  unfolding commands
  serve_until_closed data_path index_path none st now events s =
      let (sent, w) = run_worker_loop p st (commands events) s.world in
      record { init_result = ok tt; sent = sent; process = record s { world = (close p st w).1 } }
  serve_until_closed data_path index_path (some timeout) st now events s =
      let (sent, i, s1) =
        run_worker_loop_with_idle p target timeout data_path index_path (start st now) events s in
      record {
        init_result = ok tt;
        sent = sent;
        process = record s1 { world = (close p i.worker s1.world).1 };
      }

  -- The `match init_result`.
  unfoldable pub run_thread :
      String
      → String
      → Option ℕ
      → ℕ
      → List Event
      → DbResult FfiWorkerState × Process World
      → Ran Value World
  unfolding serve_until_closed
  run_thread data_path index_path idle_timeout now events (ok st, s) =
      serve_until_closed data_path index_path idle_timeout st now events s
  run_thread data_path index_path idle_timeout now events (err e, s) = record {
    init_result = err e;
    sent = [];
    process = s;
  }

  unfoldable pub worker_thread :
      String → String → Option ℕ → ℕ → List Event → Process World → Ran Value World
  unfolding run_thread
  worker_thread data_path index_path idle_timeout now events s =
      run_thread data_path index_path idle_timeout now events
        (init_worker p target data_path index_path s)
