-- ===== src/System/Threads.antt =====
-- What a worker's thread does in the process: its start, its turns and its end.
use chrondb.Base.{ℕ, String, Option, List, [], ◌∷◌, if◌then◌else◌, ok, err}
use chrondb.Error.{DbResult}
use chrondb.Platform.{Platform}
use chrondb.Setup.Target.{Target}
use chrondb.Setup.Install.{Process}
use chrondb.Command.{FfiCommand}
use chrondb.Worker.State.{FfiWorkerState, close}
use chrondb.Worker.Dispatch.{dispatch_command}
use chrondb.Worker.Init.{init_worker}
use chrondb.Worker.Idle.{received, timed_out, turn}
use chrondb.Registry.{Key, at_worker, create_new_worker}
use chrondb.System.{
  Side, plain, idle, System, Served, spawned, start_side, with_thread, after_serving,
}

module _ (p : Platform) (target : Target) where
  open p use {World, Value}

  -- The thread's loop has received a command.
  unfoldable pub serve_side : Side → FfiCommand → ℕ → Process World → Served Value World
  serve_side (plain st) cmd now s =
      let d = dispatch_command p st cmd s.world in
      record {
        stop = d.stop;
        sent = d.sent;
        side = plain st;
        process = record s { world = d.world };
      }
  serve_side (idle timeout data_path index_path i) cmd now s =
      let t = turn p target timeout data_path index_path i (received cmd now) s in
      record {
        stop = t.stop;
        sent = t.sent;
        side = idle timeout data_path index_path t.state;
        process = t.process;
      }

  -- `state.close()` behind the loop.
  unfoldable pub close_side : Side → World → World
  close_side (plain st) w = (close p st w).1
  close_side (idle timeout data_path index_path i) w = (close p i.worker w).1

  -- Nothing came for as long as the thread waits.
  unfoldable pub wake_side : Side → ℕ → Process World → Side × Process World
  wake_side (plain st) now s = (plain st, s)
  wake_side (idle timeout data_path index_path i) now s =
      let t = turn p target timeout data_path index_path i (timed_out now) s in
      (idle timeout data_path index_path t.state, t.process)

  -- `create_new_worker`, with the initialization in the new thread.
  unfoldable pub created_thread :
      Key
      → Option ℕ
      → String
      → String
      → ℕ
      → DbResult FfiWorkerState × Process World
      → System Value World
      → System Value World
  created_thread k idle_timeout data_path index_path now (err e, process) s = record s {
    workers = (create_new_worker k idle_timeout (err e) s.workers).1;
    process = process;
  }
  created_thread k idle_timeout data_path index_path now (ok st, process) s = record {
    workers = (create_new_worker k idle_timeout (ok tt) s.workers).1;
    threads =
        at_worker s.threads s.workers.next
          (spawned (start_side idle_timeout data_path index_path st now));
    process = process;
  }

  unfoldable pub create_thread :
      Key → Option ℕ → String → String → ℕ → System Value World → System Value World
  unfolding created_thread
  create_thread k idle_timeout data_path index_path now s =
      created_thread k idle_timeout data_path index_path now
        (init_worker p target data_path index_path s.process) s

  abbrev pub process_after : Served Value World → Process World
  process_after d =
      if d.stop then record d.process { world = close_side d.side d.process.world } else d.process

  -- The thread takes the first command of its channel. Behind its loop it closes the database, and
  -- what is left in the channel is dropped.
  unfoldable pub serve_next : ℕ → ℕ → List FfiCommand → System Value World → System Value World
  serve_next id now [] s = s
  serve_next id now (cmd ∷ rest) s =
      let d = serve_side (s.threads id).side cmd now s.process in
      record (with_thread id (after_serving rest d) s) { process = process_after d }

  unfoldable pub serve_thread : ℕ → ℕ → System Value World → System Value World
  unfolding serve_next
  serve_thread id now s = serve_next id now (s.threads id).queue s

  unfoldable pub wake_thread : ℕ → ℕ → System Value World → System Value World
  wake_thread id now s =
      let q = wake_side (s.threads id).side now s.process in
      record (with_thread id (λ t. record t { side = q.0 }) s) { process = q.1 }
