-- ===== src/Worker/Durable/Transparent.antt =====
-- A closing and a reopening of the isolate cannot be told from the replies.
use mathlib.Core.Bool.{false≢true}
use chrondb.Base.{
  ℕ, String, Bool, true, false, none, List, [], ◌∷◌, ◌≡◌, refl, sym, ◌∙◌, subst, inl, inr, arith,
  Bool-cases, ok, err, if◌then◌else◌,
}
use chrondb.Base.Text.{nul_position}
use chrondb.Error.{DbResult}
use chrondb.Platform.{Platform}
use chrondb.Setup.Target.{Target}
use chrondb.Setup.Install.{Process}
use chrondb.Command.{FfiCommand, shutdown}
use chrondb.Worker.State.{FfiWorkerState}
use chrondb.Worker.Dispatch.{is_shutdown, Dispatched, dispatch_command}
use chrondb.Worker.Loop.{run_worker_loop}
use chrondb.Worker.Idle.{
  Event, received, timed_out, Waiting, for_command, IdleState, start, Turn, serve, suspend,
  after_reopen, on_command, reopen, turn, run_worker_loop_with_idle,
}
use chrondb.Worker.Idle.Cases.{if_cases, timed_out_cases}
use chrondb.Worker.Thread.{commands}
use chrondb.Worker.Durable.Reopen.{Reopened, init_worker-Reopened, IsDurable-IsRecoverable}
use chrondb.Worker.Durable.Session.{HasLibrary, InStep, when_awake, when_asleep}
use chrondb.Worker.Durable.Recoverable.{IsRecoverable, close-Closed, unlocked-Closed}
use chrondb.Worker.Durable.{Relation, IsFunctional, IsDurable}
use chrondb.Worker.Durable.Handlers.{asks_last_error, dispatch_command-Same}

-- No command of the events is the question for the last error.
unfoldable pub never_asks : List Event → Bool
never_asks [] = true
never_asks (received cmd now ∷ rest) =
    let later = never_asks rest in if asks_last_error cmd then false else later
never_asks (timed_out now ∷ rest) = never_asks rest

module _ (p : Platform) (target : Target) (data_path index_path : String)
    (data_free : nul_position data_path ≡ none) (index_free : nul_position index_path ≡ none) where
  open p use {World, native, os}

  module _ (R : Relation p) (Closed : World → FfiWorkerState → World → Type 0)
      (f : IsFunctional p R) (d : IsDurable p R Closed data_path index_path) where
    -- In step with the other session, and at the head of the loop.
    abbrev pub Inv : IdleState → Process World → FfiWorkerState → World → Type 0
    Inv i s su y = (i.waiting ≡ for_command) × InStep p R Closed i s su y

    recoverable : IsRecoverable p R Closed data_path index_path
    recoverable =
        IsDurable-IsRecoverable p target data_path index_path data_free index_free R Closed f d

    module _ (idle_timeout : ℕ) where
      -- What a command leads to, beside the dispatch of the other session.
      abbrev pub Follows : FfiWorkerState → Dispatched p.Value World → Turn p.Value World → Type 0
      Follows su e t =
          (t.stop ≡ e.stop)
          × (t.sent ≡ e.sent)
          × (t.stop ≡ false → Inv t.state t.process su e.world)

      serve-Follows :
          (i : IdleState) (cmd : FfiCommand) (now : ℕ) (s : Process World) (su : FfiWorkerState)
          (y : World)
          → i.waiting ≡ for_command
          → i.suspended ≡ false
          → HasLibrary s
          → R i.worker s.world su y
          → asks_last_error cmd ≡ false
          → Follows su
              (dispatch_command p su cmd y)
              (serve p target idle_timeout data_path index_path i cmd now s)
      unfolding serve
      serve-Follows i cmd now s su y at awake l r quiet =
          let same = dispatch_command-Same p R i.worker su f cmd s.world y r quiet in
          (same.0, same.1, λ _. (at, (l, inl (awake, same.2))))

      stops-Follows :
          (i : IdleState) (cmd : FfiCommand) (s : Process World) (su : FfiWorkerState) (y : World)
          → is_shutdown cmd ≡ true
          → Follows su
              (dispatch_command p su cmd y)
              (record { stop = true; sent = []; state = i; process = s })
      unfolding is_shutdown dispatch_command
      stops-Follows i shutdown s su y e = (refl, refl, λ n. absurd (false≢true (sym n)))
      stops-Follows i cmd s su y e = absurd (false≢true e)

      after_reopen-Follows :
          (i : IdleState) (cmd : FfiCommand) (now : ℕ) (q : DbResult FfiWorkerState × Process World)
          (su : FfiWorkerState) (y : World)
          → i.waiting ≡ for_command
          → asks_last_error cmd ≡ false
          → Reopened p target data_path index_path data_free index_free R Closed f d q su y
          → Follows su
              (dispatch_command p su cmd y)
              (after_reopen p target idle_timeout data_path index_path i cmd now q)
      unfolding after_reopen
      after_reopen-Follows i cmd now (ok st, s) su y at quiet (l, r) =
          serve-Follows (record i { worker = st; suspended = false; reopen_failures = 0 }) cmd now s
            su y at refl l r quiet
      after_reopen-Follows i cmd now (err e, s) su y at quiet h = absurd h

      pub received-Follows :
          (i : IdleState) (cmd : FfiCommand) (now : ℕ) (s : Process World) (su : FfiWorkerState)
          (y : World)
          → asks_last_error cmd ≡ false
          → Inv i s su y
          → Follows su
              (dispatch_command p su cmd y)
              (turn p target idle_timeout data_path index_path i (received cmd now) s)
      unfolding turn on_command reopen
      received-Follows i cmd now s su y quiet v =
          subst
            (λ (a : Waiting).
              P (on_command p target idle_timeout data_path index_path a i cmd now s))
            (sym v.0)
            (if_cases P (is_shutdown cmd) _ _ (stops-Follows i cmd s su y) (λ _.
              if_cases P i.suspended _ _
                (λ asleep. after_reopen-Follows i cmd now _ su y v.0 quiet (
                  init_worker-Reopened p target data_path index_path data_free index_free R Closed f
                    d su _ y v.1.0
                    (unlocked-Closed p target data_path index_path data_free index_free R Closed
                      recoverable idle_timeout su s y
                      (when_asleep p R Closed i s su y v.1 asleep))))
                (λ awake.
                  serve-Follows i cmd now s su y v.0 awake v.1.0
                    (when_awake p R Closed i s su y v.1 awake) quiet)))
        where
          P : Turn p.Value World → Type 0
          P = Follows su (dispatch_command p su cmd y)

      -- A timeout sends nothing, and does not stop.
      abbrev pub Waits : FfiWorkerState → World → Turn p.Value World → Type 0
      Waits su y t = (t.stop ≡ false) × (t.sent ≡ []) × Inv t.state t.process su y

      pub timed_out-Waits :
          (i : IdleState) (now : ℕ) (s : Process World) (su : FfiWorkerState) (y : World)
          → Inv i s su y
          → Waits su y (turn p target idle_timeout data_path index_path i (timed_out now) s)
      unfolding suspend
      timed_out-Waits i now s su y v =
          timed_out_cases p target idle_timeout data_path index_path (Waits su y) i now s
            (λ awake _. (
              refl,
              refl,
              (
                v.0,
                (
                  v.1.0,
                  inr (
                    refl,
                    close-Closed p target data_path index_path data_free index_free R Closed
                        recoverable i.worker su s.world y
                        (when_awake p R Closed i s su y v.1 awake),
                  ),
                ),
              ),
            ))
            (refl, refl, v) (refl, refl, (refl, v.1))

      transparent :
          (events : List Event) (i : IdleState) (s : Process World) (su : FfiWorkerState)
          (y : World)
          → Inv i s su y
          → never_asks events ≡ true
          → (run_worker_loop_with_idle p target idle_timeout data_path index_path i events s).0
            ≡ (run_worker_loop p su (commands events) y).0
      unfolding run_worker_loop_with_idle run_worker_loop commands never_asks
      transparent [] i s su y v h = refl
      transparent (timed_out now ∷ rest) i s su y v h =
          let w = timed_out-Waits i now s su y v in rw (w.0, w.1) (transparent rest _ _ su y w.2 h)
      transparent (received cmd now ∷ rest) i s su y v h =
          let w = received-Follows i cmd now s su y (ground (arith, h)) v in
          elim (Bool-cases t.stop) [
            | inl e ↦ rw (e, sym w.0 ∙ e, run_worker_loop_with_idle, run_worker_loop) w.1
            | inr e ↦
                let later = transparent rest t.state t.process su _ (w.2 e) (ground (arith, h)) in
                rw (e, sym w.0 ∙ e, run_worker_loop_with_idle, run_worker_loop)
                  (rw (w.1, later) refl)
          ]
        where
          t : Turn p.Value World
          t = turn p target idle_timeout data_path index_path i (received cmd now) s

    -- Over a library whose calls tell only of the contents, and whose closing keeps them for the next
    -- opening, which succeeds: the idle loop sends just what the plain loop sends for the same commands,
    -- from sessions on the same contents and whatever timeouts come between, where the library is loaded,
    -- the paths have no NUL byte and no command asks for the last error.
    pub run_worker_loop_with_idle-run_worker_loop :
        (idle_timeout now : ℕ) (events : List Event) (st su : FfiWorkerState) (s : Process World)
        (y : World)
        → HasLibrary s
        → R st s.world su y
        → never_asks events ≡ true
        → (run_worker_loop_with_idle p target idle_timeout data_path index_path
            (start st now)
            events
            s).0
          ≡ (run_worker_loop p su (commands events) y).0
    run_worker_loop_with_idle-run_worker_loop idle_timeout now events st su s y l r quiet =
        transparent idle_timeout events (start st now) s su y (refl, (l, inl (refl, r))) quiet
