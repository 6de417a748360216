-- ===== src/Worker/Durable/Refusing.antt =====
-- Reopenings that may fail: what is refused has no effect.

use chrondb.Base.{
  ℕ, String, true, false, none, List, [], ◌∷◌, ◌++◌, ◌≡◌, refl, ◌∙◌, subst, ◌⊎◌, inl, inr, arith,
  Bool-cases,
}
use chrondb.Base.Text.{nul_position}
use chrondb.Platform.{Platform}
use chrondb.Setup.Target.{Target}
use chrondb.Setup.Install.{Process}
use chrondb.Command.{FfiCommand, Sent}
use chrondb.Worker.State.{FfiWorkerState}
use chrondb.Worker.Dispatch.{is_shutdown, dispatch_command, reply_error}
use chrondb.Worker.Idle.{
  Event, received, timed_out, IdleState, start, Turn, serve, suspend, reopen_failed, backed_off,
  turn, run_worker_loop_with_idle,
}
use chrondb.Worker.Idle.Cases.{unlocked, received_cases, timed_out_cases}
use chrondb.Worker.Replies.{dispatch_command-awaited}
use chrondb.Worker.Thread.{commands}
use chrondb.Worker.Durable.Session.{HasLibrary, InStep, when_awake, when_asleep}
use chrondb.Worker.Durable.{Relation, IsFunctional}
use chrondb.Worker.Durable.Handlers.{asks_last_error, dispatch_command-Same}
use chrondb.Worker.Durable.Transparent.{never_asks}
use chrondb.Worker.Durable.Recoverable.{
  IsRecoverable, MayReopen, init_worker-MayReopen, close-Closed, unlocked-Closed,
}

-- The two texts of a refusal.
abbrev pub Refusal : String → Type 0
Refusal msg =
    (msg ≡ "failed to reopen database after idle suspend")
    ⊎ (msg ≡ "database unavailable after reopen failure")

-- What is sent for commands in turn, from a session on: each is served, and leaves the session as its
-- handler does, or it is refused, and leaves the session as it is.
pub data Serves (p : Platform) (su : FfiWorkerState)
    : p.World → List FfiCommand → List (Sent p.Value) → Type 0 where
  ends : (y : p.World) → Serves p su y [] []
  stops :
      (y : p.World) (cmd : FfiCommand) (rest : List FfiCommand)
      → is_shutdown cmd ≡ true
      → Serves p su y (cmd ∷ rest) []
  serves :
      (y : p.World) (cmd : FfiCommand) (rest : List FfiCommand) (sent later : List (Sent p.Value))
      → is_shutdown cmd ≡ false
      → sent ≡ (dispatch_command p su cmd y).sent ++ later
      → Serves p su (dispatch_command p su cmd y).world rest later
      → Serves p su y (cmd ∷ rest) sent
  refuses :
      (y : p.World) (cmd : FfiCommand) (rest : List FfiCommand) (msg : String)
      (sent later : List (Sent p.Value))
      → is_shutdown cmd ≡ false
      → Refusal msg
      → sent ≡ reply_error cmd msg ++ later
      → Serves p su y rest later
      → Serves p su y (cmd ∷ rest) sent

module _ (p : Platform) (target : Target) (data_path index_path : String)
    (data_free : nul_position data_path ≡ none) (index_free : nul_position index_path ≡ none)
    (R : Relation p) (Closed : p.World → FfiWorkerState → p.World → Type 0) (f : IsFunctional p R)
    (d : IsRecoverable p R Closed data_path index_path) (idle_timeout : ℕ) where
  open p use {World}

  -- What a command that is no shutdown comes to: it is served, or refused.
  abbrev Done : FfiWorkerState → World → FfiCommand → Turn p.Value World → Type 0
  Done su y cmd t =
      (t.stop ≡ false)
      × (((t.sent ≡ (dispatch_command p su cmd y).sent)
            × InStep p R Closed t.state t.process su (dispatch_command p su cmd y).world)
          ⊎ ((msg : String) × Refusal msg
              × (t.sent ≡ reply_error cmd msg)
              × InStep p R Closed t.state t.process su y))

  abbrev Comes : FfiWorkerState → World → FfiCommand → Turn p.Value World → Type 0
  Comes su y cmd t =
      ((is_shutdown cmd ≡ true) × (t.stop ≡ true) × (t.sent ≡ []))
      ⊎ ((is_shutdown cmd ≡ false) × Done su y cmd t)

  serve-Comes :
      (i : IdleState) (cmd : FfiCommand) (now : ℕ) (s : Process World) (su : FfiWorkerState)
      (y : World)
      → is_shutdown cmd ≡ false
      → i.suspended ≡ false
      → HasLibrary s
      → R i.worker s.world su y
      → asks_last_error cmd ≡ false
      → Comes su y cmd (serve p target idle_timeout data_path index_path i cmd now s)
  unfolding serve
  serve-Comes i cmd now s su y runs awake l r quiet =
      let same = dispatch_command-Same p R i.worker su f cmd s.world y r quiet in
      inr (
        runs,
        (
          (dispatch_command-awaited p i.worker cmd s.world).1 ∙ runs,
          inl (same.1, (l, inl (awake, same.2))),
        ),
      )

  backed_off-Comes :
      (i : IdleState) (cmd : FfiCommand) (s : Process World) (su : FfiWorkerState) (y : World)
      → InStep p R Closed i s su y
      → Comes su y cmd (backed_off p target idle_timeout data_path index_path i cmd s)
  unfolding backed_off
  backed_off-Comes i cmd s su y v = elim (Bool-cases (is_shutdown cmd)) [
    | inl e ↦ inl (e, e, rw e refl)
    | inr e ↦ inr (e, (e, inr (_, inr refl, rw e refl, v)))
  ]

  received-Comes :
      (i : IdleState) (cmd : FfiCommand) (now : ℕ) (s : Process World) (su : FfiWorkerState)
      (y : World)
      → asks_last_error cmd ≡ false
      → InStep p R Closed i s su y
      → Comes su y cmd (turn p target idle_timeout data_path index_path i (received cmd now) s)
  unfolding reopen_failed
  received-Comes i cmd now s su y quiet v =
      received_cases p target idle_timeout data_path index_path (Comes su y cmd) i now s cmd
        (λ e. inl (e, refl, refl))
        (λ runs awake.
          serve-Comes i cmd now s su y runs awake v.0 (when_awake p R Closed i s su y v awake)
            quiet)
        (λ runs asleep st s1 e.
          let (l, r) =
            subst
              (λ q. MayReopen p target data_path index_path data_free index_free R Closed d q su y)
              e
              (init_worker-MayReopen p target data_path index_path data_free index_free R Closed d
                su (unlocked p target idle_timeout data_path index_path s) y v.0
                (unlocked-Closed p target data_path index_path data_free index_free R Closed d
                  idle_timeout su s y (when_asleep p R Closed i s su y v asleep))) in
          serve-Comes (record i { worker = st; suspended = false; reopen_failures = 0 }) cmd now s1
            su y runs refl l r quiet)
        (λ runs asleep e s1 failed.
          let (l, c) =
            subst
              (λ q. MayReopen p target data_path index_path data_free index_free R Closed d q su y)
              failed
              (init_worker-MayReopen p target data_path index_path data_free index_free R Closed d
                su (unlocked p target idle_timeout data_path index_path s) y v.0
                (unlocked-Closed p target data_path index_path data_free index_free R Closed d
                  idle_timeout su s y (when_asleep p R Closed i s su y v asleep))) in
          inr (runs, (refl, inr (_, inl refl, refl, (l, inr (asleep, c))))))
        (backed_off-Comes i cmd s su y v)

  timed_out-Inv :
      (i : IdleState) (now : ℕ) (s : Process World) (su : FfiWorkerState) (y : World)
      → InStep p R Closed i s su y
      → let t = turn p target idle_timeout data_path index_path i (timed_out now) s in
        (t.stop ≡ false) × (t.sent ≡ []) × InStep p R Closed t.state t.process su y
  unfolding suspend
  timed_out-Inv i now s su y v =
      timed_out_cases p target idle_timeout data_path index_path
        (λ t. (t.stop ≡ false) × (t.sent ≡ []) × InStep p R Closed t.state t.process su y) i now s
        (λ awake _. (
          refl,
          refl,
          (
            v.0,
            inr (
              refl,
              close-Closed p target data_path index_path data_free index_free R Closed d i.worker su
                  s.world y (when_awake p R Closed i s su y v awake),
            ),
          ),
        ))
        (refl, refl, v) (refl, refl, v)

  loop-Serves :
      (events : List Event) (i : IdleState) (s : Process World) (su : FfiWorkerState) (y : World)
      → InStep p R Closed i s su y
      → never_asks events ≡ true
      → Serves p su y
          (commands events)
          (run_worker_loop_with_idle p target idle_timeout data_path index_path i events s).0
  unfolding run_worker_loop_with_idle commands never_asks
  loop-Serves [] i s su y v h = ends y
  loop-Serves (timed_out now ∷ rest) i s su y v h =
      let w = timed_out-Inv i now s su y v in rw (w.0, w.1) (loop-Serves rest _ _ su y w.2 h)
  loop-Serves (received cmd now ∷ rest) i s su y v h =
      let t = turn p target idle_timeout data_path index_path i (received cmd now) s in
      elim (received-Comes i cmd now s su y (ground (arith, h)) v) [
        | inl (ended, stop, silent) ↦ rw (stop, silent) (stops y cmd (commands rest) ended)
        | inr (runs, (stop, inl (same, w))) ↦ rw (stop) (
            serves y cmd (commands rest) _ _ runs (rw same refl)
              (loop-Serves rest t.state t.process su _ w (ground (arith, h))))
        | inr (runs, (stop, inr (msg, text, same, w))) ↦ rw (stop) (
            refuses y cmd (commands rest) msg _ _ runs text (rw same refl)
              (loop-Serves rest t.state t.process su y w (ground (arith, h))))
      ]

  -- Over a library whose calls tell only of the contents, whose closing keeps them for the next
  -- opening, and whose openings may fail and then keep them too, where it is loaded, the paths have no
  -- NUL byte and no command asks for the last error: whatever timeouts and failed reopenings come, the
  -- idle loop answers each command before the first shutdown with what its handler gives on the
  -- contents that the served commands before it left, or refuses it with one of two texts, and then
  -- the contents are as they were.
  pub run_worker_loop_with_idle-Serves :
      (now : ℕ) (events : List Event) (st su : FfiWorkerState) (s : Process World) (y : World)
      → HasLibrary s
      → R st s.world su y
      → never_asks events ≡ true
      → Serves p su y
          (commands events)
          (run_worker_loop_with_idle p target idle_timeout data_path index_path
            (start st now)
            events
            s).0
  run_worker_loop_with_idle-Serves now events st su s y l r quiet =
      loop-Serves events (start st now) s su y (l, inl (refl, r)) quiet
