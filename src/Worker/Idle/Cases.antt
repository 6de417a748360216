-- ===== src/Worker/Idle/Cases.antt =====
-- The ways in which the idle loop deals with one return of `recv_timeout`.
use chrondb.Base.{
  ℕ, String, Bool, true, false, [], ◌≡◌, refl, arith, leb, ◌-◌, ◌≤◌, ok, err, if◌then◌else◌, ◌&&◌,
  not,
}
use chrondb.Error.{ChronDbError, DbResult}
use chrondb.Platform.{Platform}
use chrondb.Setup.Target.{Target}
use chrondb.Setup.Install.{Process}
use chrondb.Command.{FfiCommand}
use chrondb.Worker.State.{FfiWorkerState}
use chrondb.Worker.Dispatch.{is_shutdown}
use chrondb.Worker.Init.{init_worker}
use chrondb.Worker.Idle.{
  received, timed_out, Waiting, for_command, for_backoff, IdleState, Turn, serve, suspend,
  reopen_failed, after_reopen, backed_off, cleanup_stale_locks, on_command, on_time_out, reopen,
  turn,
}

-- A split on a test that keeps the equation.
pub if_cases {ℓ κ} :
    {A : Type ℓ} (P : A → Type κ) (b : Bool) (x y : A)
    → (b ≡ true → P x)
    → (b ≡ false → P y)
    → P (if b then x else y)
if_cases P true x y h k = h refl
if_cases P false x y h k = k refl

module _ (p : Platform) (target : Target) (idle_timeout : ℕ) (data_path index_path : String) where
  -- The process in which the reopening starts.
  abbrev pub unlocked : Process p.World → Process p.World
  unlocked s = record s {
    world = cleanup_stale_locks p target idle_timeout data_path index_path s.world;
  }

  module _ {ℓ} (P : Turn p.Value p.World → Type ℓ) (i : IdleState) (now : ℕ)
      (s : Process p.World) where
    after_reopen_cases :
        (cmd : FfiCommand) (r : DbResult FfiWorkerState × Process p.World)
        → ((st : FfiWorkerState) (s1 : Process p.World)
            → r ≡ (ok st, s1)
            → P (
                serve p target idle_timeout data_path index_path
                  (record i { worker = st; suspended = false; reopen_failures = 0 })
                  cmd
                  now
                  s1))
        → ((e : ChronDbError) (s1 : Process p.World)
            → r ≡ (err e, s1)
            → P (reopen_failed p target idle_timeout data_path index_path i cmd s1))
        → P (after_reopen p target idle_timeout data_path index_path i cmd now r)
    unfolding after_reopen
    after_reopen_cases cmd (ok st, s1) opened failed = opened st s1 refl
    after_reopen_cases cmd (err e, s1) opened failed = failed e s1 refl

    on_command_cases :
        (cmd : FfiCommand) (at : Waiting)
        → (is_shutdown cmd ≡ true → P (record { stop = true; sent = []; state = i; process = s }))
        → (is_shutdown cmd ≡ false
            → i.suspended ≡ false
            → P (serve p target idle_timeout data_path index_path i cmd now s))
        → (is_shutdown cmd ≡ false
            → i.suspended ≡ true
            → P (reopen p target idle_timeout data_path index_path i cmd now s))
        → P (backed_off p target idle_timeout data_path index_path i cmd s)
        → P (on_command p target idle_timeout data_path index_path at i cmd now s)
    unfolding on_command
    on_command_cases cmd for_command stopped served reopened backed =
        if_cases P (is_shutdown cmd) _ _ stopped
          (λ n. if_cases P i.suspended _ _ (reopened n) (served n))
    on_command_cases cmd for_backoff stopped served reopened backed = backed

    -- A command.
    pub received_cases :
        (cmd : FfiCommand)
        → (is_shutdown cmd ≡ true → P (record { stop = true; sent = []; state = i; process = s }))
        → (is_shutdown cmd ≡ false
            → i.suspended ≡ false
            → P (serve p target idle_timeout data_path index_path i cmd now s))
        → (is_shutdown cmd ≡ false
            → i.suspended ≡ true
            → (st : FfiWorkerState) (s1 : Process p.World)
            → init_worker p target data_path index_path (unlocked s) ≡ (ok st, s1)
            → P (
                serve p target idle_timeout data_path index_path
                  (record i { worker = st; suspended = false; reopen_failures = 0 })
                  cmd
                  now
                  s1))
        → (is_shutdown cmd ≡ false
            → i.suspended ≡ true
            → (e : ChronDbError) (s1 : Process p.World)
            → init_worker p target data_path index_path (unlocked s) ≡ (err e, s1)
            → P (reopen_failed p target idle_timeout data_path index_path i cmd s1))
        → P (backed_off p target idle_timeout data_path index_path i cmd s)
        → P (turn p target idle_timeout data_path index_path i (received cmd now) s)
    unfolding turn reopen
    received_cases cmd stopped served opened failed backed =
        on_command_cases cmd i.waiting stopped served
          (λ n su. after_reopen_cases cmd _ (opened n su) (failed n su)) backed

    on_time_out_cases :
        (at : Waiting)
        → (i.suspended ≡ false
            → idle_timeout ≤ now - i.last_activity
            → P (suspend p target idle_timeout data_path index_path i s))
        → P (record { stop = false; sent = []; state = i; process = s })
        → P (record {
          stop = false;
          sent = [];
          state = record i { waiting = for_command };
          process = s;
        })
        → P (on_time_out p target idle_timeout data_path index_path at i now s)
    unfolding on_time_out
    on_time_out_cases for_command closed idle backed =
        if_cases P (not i.suspended && leb idle_timeout (now - i.last_activity)) _ _
          (λ e. closed (ground arith) (ground arith)) (λ _. idle)
    on_time_out_cases for_backoff closed idle backed = backed

    -- A timeout.
    pub timed_out_cases :
        (i.suspended ≡ false
          → idle_timeout ≤ now - i.last_activity
          → P (suspend p target idle_timeout data_path index_path i s))
        → P (record { stop = false; sent = []; state = i; process = s })
        → P (record {
          stop = false;
          sent = [];
          state = record i { waiting = for_command };
          process = s;
        })
        → P (turn p target idle_timeout data_path index_path i (timed_out now) s)
    unfolding turn
    timed_out_cases = on_time_out_cases i.waiting
