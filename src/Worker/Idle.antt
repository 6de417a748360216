-- ===== src/Worker/Idle.antt =====
-- `run_worker_loop_with_idle`: the isolate is closed after a time without commands, and opened again
-- for the next one. Durations and clock readings are nanoseconds.
pub mod Cases
use chrondb.Base.{
  ℕ, ◌+◌, ◌-◌, ◌*◌, ◌%◌, ◌^◌, min, max, String, Bool, true, false, List, [], ◌∷◌, ◌++◌, not, ◌&&◌,
  leb, if◌then◌else◌, ok, err,
}
use chrondb.Base.Text.{join}
use chrondb.Error.{DbResult}
use chrondb.Platform.{Platform}
use chrondb.Setup.Target.{Target}
use chrondb.Setup.Install.{Process}
use chrondb.Command.{FfiCommand, Sent}
use chrondb.Worker.State.{FfiWorkerState, close}
use chrondb.Worker.Dispatch.{is_shutdown, dispatch_command, reply_error}
use chrondb.Worker.Init.{init_worker}

-- `Duration::from_secs`
abbrev pub from_secs : ℕ → ℕ
from_secs n = n * 1000000000

-- `idle_timeout.min(Duration::from_secs(30)).max(Duration::from_secs(1))`
unfoldable pub check_interval : ℕ → ℕ
check_interval idle_timeout = max (min idle_timeout (from_secs 30)) (from_secs 1)

-- `reopen_failures += 1` on a `u32`.
abbrev pub bump_failures : ℕ → ℕ
bump_failures n = (n + 1) % 2 ^ 32

-- `Duration::from_secs(1 << reopen_failures.min(5))`
unfoldable pub backoff : ℕ → ℕ
backoff reopen_failures = from_secs (2 ^ min reopen_failures 5)

-- What a `recv_timeout` returns, with the clock's reading where the iteration asks for it. An end of
-- the events is `Disconnected`.
pub data Event : Type 0 where
  received : (cmd : FfiCommand) (now : ℕ) → Event
  timed_out : (now : ℕ) → Event

-- Where the loop stands: at the `recv_timeout` at its head, or at the one behind a failed reopen.
pub data Waiting : Type 0 where
  for_command for_backoff : Waiting

-- The variables of the loop.
pub record IdleState : Type 0 where
  pub worker : FfiWorkerState
  pub last_activity : ℕ
  pub suspended : Bool
  pub reopen_failures : ℕ
  pub waiting : Waiting

-- The variables before the loop, at the reading `now` of the clock.
abbrev pub start : FfiWorkerState → ℕ → IdleState
start st now = record {
  worker = st;
  last_activity = now;
  suspended = false;
  reopen_failures = 0;
  waiting = for_command;
}

-- The duration that the pending `recv_timeout` was given.
unfoldable pub recv_wait : ℕ → IdleState → ℕ
recv_wait idle_timeout i = elim i.waiting [
  | for_command ↦ check_interval idle_timeout
  | for_backoff ↦ backoff i.reopen_failures
]

-- What one return of `recv_timeout` leads to.
pub record Turn (V W : Type 0) : Type 0 where
  pub stop : Bool
  pub sent : List (Sent V)
  pub state : IdleState
  pub process : Process W

module _ (p : Platform) (target : Target) (idle_timeout : ℕ) (data_path index_path : String) where
  open p use {World, os, native, Value}

  -- `ChronDB::cleanup_stale_locks`
  unfoldable pub cleanup_stale_locks : World → World
  cleanup_stale_locks w =
      let lock_file = join index_path "write.lock" in
      if os.exists lock_file w then os.remove_file lock_file w else w

  -- `last_activity = Instant::now()` and `dispatch_command`.
  unfoldable pub serve : IdleState → FfiCommand → ℕ → Process World → Turn Value World
  serve i cmd now s =
      let d = dispatch_command p i.worker cmd s.world in
      record {
        stop = d.stop;
        sent = d.sent;
        state = record i { last_activity = now };
        process = record s { world = d.world };
      }

  -- The `Err` arm of the reopening, up to its `recv_timeout(backoff)`.
  unfoldable pub reopen_failed : IdleState → FfiCommand → Process World → Turn Value World
  reopen_failed i cmd s = record {
    stop = false;
    sent = reply_error cmd "failed to reopen database after idle suspend";
    state = record i { reopen_failures = bump_failures i.reopen_failures; waiting = for_backoff };
    process = s;
  }

  -- The two arms of the reopening's `match`.
  unfoldable pub after_reopen :
      IdleState → FfiCommand → ℕ → DbResult FfiWorkerState × Process World → Turn Value World
  unfolding serve reopen_failed
  after_reopen i cmd now (ok new_state, s) =
      serve (record i { worker = new_state; suspended = false; reopen_failures = 0 }) cmd now s
  after_reopen i cmd now (err e, s) = reopen_failed i cmd s

  -- `if suspended { .. }`
  unfoldable pub reopen : IdleState → FfiCommand → ℕ → Process World → Turn Value World
  unfolding after_reopen
  reopen i cmd now s =
      after_reopen i cmd now (
        init_worker p target data_path index_path
          (record s { world = cleanup_stale_locks s.world }))

  -- `state.close(); suspended = true;`
  unfoldable pub suspend : IdleState → Process World → Turn Value World
  suspend i s =
      let (st, w) = close p i.worker s.world in
      record {
        stop = false;
        sent = [];
        state = record i { worker = st; suspended = true };
        process = record s { world = w };
      }

  -- The timeout arm.
  unfoldable pub on_timeout : IdleState → ℕ → Process World → Turn Value World
  unfolding suspend
  on_timeout i now s =
      if not i.suspended && leb idle_timeout (now - i.last_activity)
      then suspend i s
      else record { stop = false; sent = []; state = i; process = s }

  -- The command, if any, that ends the backoff.
  unfoldable pub backed_off : IdleState → FfiCommand → Process World → Turn Value World
  backed_off i cmd s = record {
    stop = is_shutdown cmd;
    sent =
        if is_shutdown cmd then [] else reply_error cmd "database unavailable after reopen failure";
    state = record i { waiting = for_command };
    process = s;
  }

  -- The two places' answers to a command.
  unfoldable pub on_command :
      Waiting → IdleState → FfiCommand → ℕ → Process World → Turn Value World
  unfolding reopen serve backed_off
  on_command for_command i cmd now s =
      if is_shutdown cmd
      then record { stop = true; sent = []; state = i; process = s }
      else if i.suspended
      then reopen i cmd now s
      else serve i cmd now s
  on_command for_backoff i cmd now s = backed_off i cmd s

  unfoldable pub on_time_out : Waiting → IdleState → ℕ → Process World → Turn Value World
  unfolding on_timeout
  on_time_out for_command i now s = on_timeout i now s
  on_time_out for_backoff i now s = record {
    stop = false;
    sent = [];
    state = record i { waiting = for_command };
    process = s;
  }

  unfoldable pub turn : IdleState → Event → Process World → Turn Value World
  unfolding on_command on_time_out
  turn i (received cmd now) s = on_command i.waiting i cmd now s
  turn i (timed_out now) s = on_time_out i.waiting i now s

  -- `ChronDB::run_worker_loop_with_idle`
  unfoldable pub run_worker_loop_with_idle :
      IdleState → List Event → Process World → List (Sent Value) × IdleState × Process World
  run_worker_loop_with_idle i [] s = ([], i, s)
  run_worker_loop_with_idle i (e ∷ rest) s =
      let t = turn i e s in
      let later = run_worker_loop_with_idle t.state rest t.process in
      if t.stop then (t.sent, t.state, t.process) else (t.sent ++ later.0, later.1, later.2)
