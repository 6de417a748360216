-- ===== src/Worker/Traffic.antt =====
-- The backoff under steady traffic: commands that come while the database cannot be opened again.
use mathlib.Core.Bool.{false≢true}
use chrondb.Base.{
  ℕ, String, Bool, true, false, not, ◌&&◌, List, [], ◌∷◌, ◌++◌, ◌≡◌, refl, sym, ◌∙◌, arith, subst,
  ok, err,
}
use chrondb.Error.{ChronDbError, DbResult}
use chrondb.Platform.{Platform}
use chrondb.Setup.Target.{Target}
use chrondb.Setup.Install.{Process}
use chrondb.Command.{FfiCommand, Sent}
use chrondb.Worker.State.{FfiWorkerState}
use chrondb.Worker.Dispatch.{is_shutdown, reply_error}
use chrondb.Worker.Init.{init_worker}
use chrondb.Worker.Idle.{
  Event, received, Waiting, for_command, for_backoff, IdleState, Turn, bump_failures, reopen_failed,
  after_reopen, backed_off, on_command, reopen, turn, run_worker_loop_with_idle,
}
use chrondb.Worker.Idle.Cases.{if_cases, unlocked}

-- Two commands, with the clock's readings, which are any.
pub record Two : Type 0 where
  pub first : FfiCommand
  pub first_now : ℕ
  pub second : FfiCommand
  pub second_now : ℕ

unfoldable pub events_of : List Two → List Event
events_of [] = []
events_of (t ∷ rest) =
    received t.first t.first_now ∷ received t.second t.second_now ∷ events_of rest

unfoldable pub none_shuts : List Two → Bool
none_shuts [] = true
none_shuts (t ∷ rest) =
    let more = none_shuts rest in not (is_shutdown t.first) && not (is_shutdown t.second) && more

-- One failure more for every two commands.
unfoldable pub failures_after : List Two → ℕ → ℕ
failures_after [] n = n
failures_after (t ∷ rest) n = failures_after rest (bump_failures n)

unfoldable pub refusals : {V : Type 0} → List Two → List (Sent V)
refusals [] = []
refusals (t ∷ rest) =
    reply_error t.first "failed to reopen database after idle suspend"
    ++ (reply_error t.second "database unavailable after reopen failure" ++ refusals rest)

module _ (p : Platform) (target : Target) (idle_timeout : ℕ) (data_path index_path : String) where
  open p use {World}

  -- The process behind a failed reopening.
  abbrev pub tried : Process World → Process World
  tried s =
      (init_worker p target data_path index_path
        (unlocked p target idle_timeout data_path index_path s)).1

  -- One attempt for every two commands: a stale lock is removed, and `init_worker` is run.
  unfoldable pub attempts : List Two → Process World → Process World
  attempts [] s = s
  attempts (t ∷ rest) s = attempts rest (tried s)

module _ (p : Platform) (target : Target) (idle_timeout : ℕ) (data_path index_path : String)
    (fails : (s : Process p.World)
      → (e : ChronDbError) × ((init_worker p target data_path index_path s).0 ≡ err e)) where
  open p use {World, Value}

  after_reopen-err :
      (i : IdleState) (cmd : FfiCommand) (now : ℕ) (q : DbResult FfiWorkerState × Process World)
      (e : ChronDbError)
      → q.0 ≡ err e
      → after_reopen p target idle_timeout data_path index_path i cmd now q
        ≡ reopen_failed p target idle_timeout data_path index_path i cmd q.1
  unfolding after_reopen
  after_reopen-err i cmd now (ok st, s) e h = absurd (ground (arith, h))
  after_reopen-err i cmd now (err e, s) e1 h = refl

  turn-reopen_failed :
      (i : IdleState) (cmd : FfiCommand) (now : ℕ) (s : Process World)
      → is_shutdown cmd ≡ false
      → i.suspended ≡ true
      → i.waiting ≡ for_command
      → turn p target idle_timeout data_path index_path i (received cmd now) s
        ≡ reopen_failed p target idle_timeout data_path index_path i cmd
            (tried p target idle_timeout data_path index_path s)
  unfolding turn on_command reopen
  turn-reopen_failed i cmd now s runs asleep at =
      let f = fails (unlocked p target idle_timeout data_path index_path s) in
      subst
        (λ (a : Waiting). P (on_command p target idle_timeout data_path index_path a i cmd now s))
        (sym at)
        (if_cases P (is_shutdown cmd) _ _ (λ e. absurd (false≢true (sym runs ∙ e)))
          (λ _.
            if_cases P i.suspended _ _ (λ _. after_reopen-err i cmd now _ f.0 f.1)
              (λ awake. absurd (false≢true (sym awake ∙ asleep)))))
    where
      P : Turn Value World → Type 0
      P t =
          t
          ≡ reopen_failed p target idle_timeout data_path index_path i cmd
              (tried p target idle_timeout data_path index_path s)

  turn-backed_off :
      (i : IdleState) (cmd : FfiCommand) (now : ℕ) (s : Process World)
      → is_shutdown cmd ≡ false
      → i.waiting ≡ for_backoff
      → turn p target idle_timeout data_path index_path i (received cmd now) s ≡ record {
        stop = false;
        sent = reply_error cmd "database unavailable after reopen failure";
        state = record i { waiting = for_command };
        process = s;
      }
  unfolding turn on_command backed_off
  turn-backed_off i cmd now s runs at = rw (at, runs) refl

  -- While every opening fails, and commands that are no shutdown come two by two, at whatever readings of
  -- the clock and with no timeout between, to a loop that is suspended and waits for a command: of every
  -- two commands the first one makes an attempt to open the database, which removes a stale lock and runs
  -- `init_worker`, both are refused, and the failures are one more, and nothing else is done to the process;
  -- the loop is then as before, however many failures there were.
  pub run_worker_loop_with_idle-failures_after :
      (ts : List Two) (i : IdleState) (s : Process World)
      → none_shuts ts ≡ true
      → i.suspended ≡ true
      → i.waiting ≡ for_command
      → let q =
          run_worker_loop_with_idle p target idle_timeout data_path index_path i (events_of ts) s in
        (q.0 ≡ refusals ts)
        × (q.1.reopen_failures ≡ failures_after ts i.reopen_failures)
        × (q.1.suspended ≡ true)
        × (q.1.waiting ≡ for_command)
        × (q.2 ≡ attempts p target idle_timeout data_path index_path ts s)
  unfolding run_worker_loop_with_idle events_of none_shuts failures_after refusals reopen_failed
      attempts
  run_worker_loop_with_idle-failures_after [] i s runs asleep at = (refl, refl, asleep, at, refl)
  run_worker_loop_with_idle-failures_after (t ∷ ts) i s runs asleep at =
      rw
        (
          turn-reopen_failed i t.first t.first_now s (ground (arith, runs)) asleep at,
          turn-backed_off
              (record i {
                reopen_failures = bump_failures i.reopen_failures;
                waiting = for_backoff;
              })
              t.second t.second_now (tried p target idle_timeout data_path index_path s)
              (ground (arith, runs)) refl,
        )
        (let (sent, failed, still, head, process) =
            run_worker_loop_with_idle-failures_after ts
              (record i {
                reopen_failures = bump_failures i.reopen_failures;
                waiting = for_command;
              })
              (tried p target idle_timeout data_path index_path s) (ground (arith, runs)) asleep
              refl in
          (rw sent refl, failed, still, head, process))
