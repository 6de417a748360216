-- ===== src/Worker/Monitor/Suspends.antt =====
-- The idle loop under the observer: what it holds awake, suspended and while it reopens.
use mathlib.Core.Bool.{false≢true}
use chrondb.Base.{
  ℕ, String, true, false, List, [], ◌∷◌, ◌≡◌, refl, sym, subst, arith, Bool-cases, inl, inr, ◌⊎◌,
  ◌∙◌,
}
use chrondb.Error.{DbResult}
use chrondb.Platform.{Platform}
use chrondb.Setup.Target.{Target}
use chrondb.Setup.Install.{Process}
use chrondb.Command.{FfiCommand}
use chrondb.Worker.State.{FfiWorkerState, close}
use chrondb.Worker.Idle.{
  Event, received, timed_out, Waiting, for_command, for_backoff, IdleState, Turn, serve, suspend,
  reopen_failed, backed_off, cleanup_stale_locks, turn, run_worker_loop_with_idle,
}
use chrondb.Worker.Idle.Cases.{unlocked, received_cases, timed_out_cases}
use chrondb.Worker.Timing.{IsClosed, suspend-IsClosed}
use chrondb.Worker.Monitor.{Monitor, watch, at_rest}
use chrondb.Worker.Monitor.Lifecycle.{IsNulFree, CreatesThreads, IsServing, Opened, close-again}
use chrondb.Worker.Monitor.Serving.{dispatch_command-IsServing, close-IsServing, init_worker-Opened}

module _ (p : Platform) (target : Target) (data_path index_path : String)
    (data_free : IsNulFree data_path) (index_free : IsNulFree index_path)
    (created : CreatesThreads p) where
  -- What the idle loop keeps: awake, its worker holds an isolate and a handle; suspended, it holds
  -- nothing; and the observer agrees.
  abbrev pub Inv : IdleState → Monitor → Type 0
  Inv i m = ((i.suspended ≡ false) × IsServing i.worker m) ⊎ (IsClosed i × (m ≡ at_rest))

  abbrev Kept : Turn p.Value (p.World × Monitor) → Type 0
  Kept t = Inv t.state t.process.world.1

  unlocked-keeps :
      (idle_timeout : ℕ) (s : Process (p.World × Monitor))
      → (unlocked (watch p) target idle_timeout data_path index_path s).world.1 ≡ s.world.1
  unfolding cleanup_stale_locks
  unlocked-keeps idle_timeout s = ground arith

  module _ (idle_timeout : ℕ) (i : IdleState) (s : Process (p.World × Monitor)) where
    serve-Kept :
        (cmd : FfiCommand) (now : ℕ)
        → i.suspended ≡ false
        → IsServing i.worker s.world.1
        → Kept (serve (watch p) target idle_timeout data_path index_path i cmd now s)
    unfolding serve
    serve-Kept cmd now awake h = inl (awake, dispatch_command-IsServing p i.worker cmd s.world h)

    suspend-Kept :
        IsServing i.worker s.world.1
        → Kept (suspend (watch p) target idle_timeout data_path index_path i s)
    unfolding suspend
    suspend-Kept h = inr (
      suspend-IsClosed (watch p) target idle_timeout data_path index_path i s,
      close-IsServing p i.worker s.world h,
    )

    -- The invariant, once it is known which half of it holds.
    when_awake : Inv i s.world.1 → i.suspended ≡ false → IsServing i.worker s.world.1
    when_awake (inl (_, h)) awake = h
    when_awake (inr (c, _)) awake = absurd (false≢true (sym awake ∙ c.is_suspended))

    when_asleep : Inv i s.world.1 → i.suspended ≡ true → IsClosed i × (s.world.1 ≡ at_rest)
    when_asleep (inl (awake, _)) asleep = absurd (false≢true (sym awake ∙ asleep))
    when_asleep (inr h) asleep = h

    unlocked-at_rest :
        Inv i s.world.1
        → i.suspended ≡ true
        → (unlocked (watch p) target idle_timeout data_path index_path s).world.1 ≡ at_rest
    unlocked-at_rest v asleep = unlocked-keeps idle_timeout s ∙ (when_asleep v asleep).1

    -- The same state with other counters.
    Inv-same :
        (m : Monitor) (n : ℕ) (at : Waiting)
        → Inv i m
        → Inv (record i { reopen_failures = n; waiting = at }) m
    Inv-same m n at (inl h) = inl h
    Inv-same m n at (inr (c, h)) = inr (
      record { is_suspended = c.is_suspended; no_thread = c.no_thread; no_handle = c.no_handle },
      h,
    )

    backed_off-Kept :
        (cmd : FfiCommand)
        → Inv i s.world.1
        → Kept (backed_off (watch p) target idle_timeout data_path index_path i cmd s)
    unfolding backed_off
    backed_off-Kept cmd v = Inv-same s.world.1 i.reopen_failures for_command v

    reopen_failed-Kept :
        (cmd : FfiCommand)
        → Inv i s.world.1
        → Kept (reopen_failed (watch p) target idle_timeout data_path index_path i cmd s)
    unfolding reopen_failed
    reopen_failed-Kept cmd v = Inv-same s.world.1 _ for_backoff v

  turn-Kept :
      (idle_timeout : ℕ) (i : IdleState) (e : Event) (s : Process (p.World × Monitor))
      → Inv i s.world.1
      → Kept (turn (watch p) target idle_timeout data_path index_path i e s)
  turn-Kept idle_timeout i (timed_out now) s v =
      timed_out_cases (watch p) target idle_timeout data_path index_path Kept i now s
        (λ awake _. suspend-Kept idle_timeout i s (when_awake idle_timeout i s v awake)) v
        (Inv-same idle_timeout i s s.world.1 i.reopen_failures for_command v)
  turn-Kept idle_timeout i (received cmd now) s v =
      received_cases (watch p) target idle_timeout data_path index_path Kept i now s cmd (λ _. v)
        (λ _ awake. serve-Kept idle_timeout i s cmd now awake (when_awake idle_timeout i s v awake))
        (λ _ asleep st s1 e.
          serve-Kept idle_timeout (record i { worker = st; suspended = false; reopen_failures = 0 })
            s1 cmd now refl
            (subst
              (λ (q : DbResult FfiWorkerState × Process (p.World × Monitor)).
                Opened q.0 q.1.world.1)
              e
              (init_worker-Opened p target data_path index_path data_free index_free created _
                (unlocked-at_rest idle_timeout i s v asleep))))
        (λ _ asleep x s1 e. reopen_failed-Kept idle_timeout i s1 cmd (
          inr (
            (when_asleep idle_timeout i s v asleep).0,
            subst
                (λ (q : DbResult FfiWorkerState × Process (p.World × Monitor)).
                  Opened q.0 q.1.world.1)
                e
                (init_worker-Opened p target data_path index_path data_free index_free created _
                  (unlocked-at_rest idle_timeout i s v asleep)),
          )))
        (backed_off-Kept idle_timeout i s cmd v)

  pub run_worker_loop_with_idle-Inv :
      (idle_timeout : ℕ) (i : IdleState) (events : List Event) (s : Process (p.World × Monitor))
      → Inv i s.world.1
      → let r =
          run_worker_loop_with_idle (watch p) target idle_timeout data_path index_path i events s in
        Inv r.1 r.2.world.1
  unfolding run_worker_loop_with_idle
  run_worker_loop_with_idle-Inv idle_timeout i [] s v = v
  run_worker_loop_with_idle-Inv idle_timeout i (e ∷ rest) s v = elim (Bool-cases t.stop) [
    | inl h ↦ rw (h, run_worker_loop_with_idle) kept
    | inr h ↦
        rw (h, run_worker_loop_with_idle)
          (run_worker_loop_with_idle-Inv idle_timeout t.state rest t.process kept)
  ]
    where
      t : Turn p.Value (p.World × Monitor)
      t = turn (watch p) target idle_timeout data_path index_path i e s

      kept : Kept t
      kept = turn-Kept idle_timeout i e s v

  pub close-Inv :
      (i : IdleState) (x : p.World × Monitor)
      → Inv i x.1
      → (close (watch p) i.worker x).1.1 ≡ at_rest
  close-Inv i x (inl (_, h)) = close-IsServing p i.worker x h
  close-Inv i x (inr (c, h)) = rw (close-again p i.worker x c.no_thread c.no_handle) h
