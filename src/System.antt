-- ===== src/System.antt =====
-- The parts together (bindings/rust/src/lib.rs): any number of handles and worker threads of one process.
-- A step is a block of an open or of the drop of a worker, the sending of a command, a turn of a worker's
-- loop, or the end of a thread. Blocks of different callers come in any order, also in orders in which
-- no caller's code has them.
pub mod Threads
pub mod Reach
pub mod Queues
pub mod Sound
pub mod Delivery
pub mod Drain
pub mod Replied
pub mod Loops
pub mod Overlap
pub mod Trace
pub mod Table
pub mod Exclusive
use chrondb.Base.{
  ℕ, zero, suc, ◌<◌, String, Bool, true, false, Option, none, some, List, [], ◌∷◌, ◌++◌, ltb, ◌≡◌,
  if◌then◌else◌, ok, err,
}
use chrondb.Error.{DbResult}
use chrondb.Platform.{Platform}
use chrondb.Setup.Target.{Target}
use chrondb.Setup.Install.{Process}
use chrondb.Command.{FfiCommand, shutdown, Sent}
use chrondb.Worker.State.{FfiWorkerState, close}
use chrondb.Worker.Dispatch.{is_shutdown, dispatch_command}
use chrondb.Worker.Init.{init_worker}
use chrondb.Worker.Idle.{received, timed_out, IdleState, start, turn}
use chrondb.Registry.{
  Key, Workers, no_workers, at_worker, find_worker, create_new_worker, register, unregister,
  release,
}

-- The variables of a worker's thread, by the loop that it runs.
pub data Side : Type 0 where
  plain : (state : FfiWorkerState) → Side
  idle : (idle_timeout : ℕ) (data_path index_path : String) (state : IdleState) → Side

-- How far the `drop` of a worker is: not begun, before its lock, before its shutdown, at its join, and
-- done.
pub data Phase : Type 0 where
  in_use dropping removed stopping joined : Phase

-- A worker: its thread, whether that has ended, what stands in its channel, and what all handles have
-- sent to it and it has sent to them so far.
pub record Thread (V : Type 0) : Type 0 where
  pub side : Side
  pub phase : Phase
  pub ended : Bool
  pub queue : List FfiCommand
  pub asked : List FfiCommand
  pub replies : List (Sent V)

pub record System (V W : Type 0) : Type 0 where
  pub workers : Workers
  pub threads : ℕ → Thread V
  pub process : Process W

-- What a thread did with a command.
pub record Served (V W : Type 0) : Type 0 where
  pub stop : Bool
  pub sent : List (Sent V)
  pub side : Side
  pub process : Process W

-- `sender.send(..)`: what is sent to a thread that has ended is lost.
abbrev pub enqueue : {V : Type 0} → FfiCommand → Thread V → Thread V
enqueue cmd t = record t {
  queue = if t.ended then t.queue else t.queue ++ cmd ∷ [];
  asked = t.asked ++ cmd ∷ [];
}

-- A new thread, behind its initialization.
abbrev pub spawned : {V : Type 0} → Side → Thread V
spawned side = record {
  side = side;
  phase = in_use;
  ended = false;
  queue = [];
  asked = [];
  replies = [];
}

abbrev pub begin_drop : {V : Type 0} → Bool → Thread V → Thread V
begin_drop still_held t = if still_held then t else record t { phase = dropping }

-- `match idle_timeout`, at the reading `now` of the clock.
unfoldable pub start_side : Option ℕ → String → String → FfiWorkerState → ℕ → Side
start_side none data_path index_path st now = plain st
start_side (some timeout) data_path index_path st now =
    idle timeout data_path index_path (start st now)

module _ {V W : Type 0} where
  abbrev pub with_thread : ℕ → (Thread V → Thread V) → System V W → System V W
  with_thread id f s = record s { threads = at_worker s.threads id (f (s.threads id)) }

  -- What a served command leaves of a thread with `rest` in its channel.
  abbrev pub after_serving : List FfiCommand → Served V W → Thread V → Thread V
  after_serving rest d t = record t {
    side = d.side;
    ended = d.stop;
    queue = if d.stop then [] else rest;
    replies = t.replies ++ d.sent;
  }

  -- The first block of an open.
  unfoldable pub look_up : Key → System V W → System V W
  look_up k s = record s { workers = (find_worker k s.workers).1 }

  -- The last block of an open.
  unfoldable pub enter : Key → ℕ → System V W → System V W
  enter k id s = record s { workers = register k id s.workers }

  -- A method's `self.shared.sender.send(..)`.
  unfoldable pub send_command : ℕ → FfiCommand → System V W → System V W
  send_command id cmd s = with_thread id (enqueue cmd) s

  -- A handle goes. The last one of a worker begins its `drop`.
  unfoldable pub let_go : ℕ → System V W → System V W
  let_go id s =
      let workers = release id s.workers in
      record (with_thread id (begin_drop (ltb 0 (workers.strong id))) s) { workers = workers }

  -- The three parts of `SharedWorker::drop`.
  unfoldable pub remove : ℕ → System V W → System V W
  remove id s = record (with_thread id (λ t. record t { phase = removed }) s) {
    workers = unregister id s.workers;
  }

  unfoldable pub send_shutdown : ℕ → System V W → System V W
  send_shutdown id s = with_thread id (λ t. record (enqueue shutdown t) { phase = stopping }) s

  unfoldable pub join_thread : ℕ → System V W → System V W
  join_thread id s = with_thread id (λ t. record t { phase = joined }) s
