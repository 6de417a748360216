-- ===== src/Worker/Timing.antt =====
-- When the idle loop closes the isolate, and what the closing is.

use chrondb.Base.{
  ℕ, ◌-◌, ◌≤◌, String, Bool, true, false, List, [], ◌∷◌, ◌≡◌, refl, ap, subst, ok, err, arith, not,
  ◌&&◌, ◌∙◌,
}
use chrondb.Base.Int.{is_nonneg}
use chrondb.Error.{DbResult}
use chrondb.Platform.{Platform}
use chrondb.Platform.Ffi.{is_null}
use chrondb.Setup.Target.{Target}
use chrondb.Setup.Install.{Process}
use chrondb.Worker.State.{FfiWorkerState, close}
use chrondb.Command.{FfiCommand}
use chrondb.Worker.Dispatch.{is_shutdown}
use chrondb.Worker.Replies.{dispatch_command-awaited}
use chrondb.Worker.Idle.{
  Event, received, timed_out, Waiting, for_command, for_backoff, IdleState, Turn, start, serve,
  suspend, reopen_failed, after_reopen, reopen, on_command, backed_off, turn,
  run_worker_loop_with_idle,
}
use chrondb.Worker.Idle.Cases.{if_cases, received_cases, timed_out_cases}

-- No native resource is held: the loop is suspended, and its handle and thread are cleared.
pub record IsClosed (i : IdleState) : Type 0 where
  pub is_suspended : i.suspended ≡ true
  pub no_thread : is_null i.worker.thread ≡ true
  pub no_handle : is_nonneg i.worker.handle ≡ false

-- The clock's reading at the last command of the events, or `begun` where there is none.
unfoldable pub last_command : ℕ → List Event → ℕ
last_command begun [] = begun
last_command begun (received cmd now ∷ rest) = last_command now rest
last_command begun (timed_out now ∷ rest) = last_command begun rest

-- No command of the events is a shutdown.
unfoldable pub none_stops : List Event → Bool
none_stops [] = true
none_stops (received cmd now ∷ rest) = let later = none_stops rest in not (is_shutdown cmd) && later
none_stops (timed_out now ∷ rest) = none_stops rest

module _ (p : Platform) (target : Target) (idle_timeout : ℕ) (data_path index_path : String) where
  open p use {World, Value}

  -- The world behind the closing of the handle and then of the isolate.
  abbrev pub released : FfiWorkerState → World → World
  released st w =
      (p.native.graal_tear_down_isolate st.thread
        (p.native.chrondb_close st.thread st.handle w).1).1

  -- A turn that suspends the loop is a timeout behind the idle time, and the closing.
  abbrev Suspends : IdleState → Event → Process World → Turn Value World → Type 0
  Suspends i e s t =
      t.state.suspended ≡ true
      → (now : ℕ) × (e ≡ timed_out now)
        × (idle_timeout ≤ now - i.last_activity)
        × (t ≡ suspend p target idle_timeout data_path index_path i s)

  turn-Suspends :
      (i : IdleState) (e : Event) (s : Process World)
      → i.suspended ≡ false
      → Suspends i e s (turn p target idle_timeout data_path index_path i e s)
  turn-Suspends i (timed_out now) s awake =
      timed_out_cases p target idle_timeout data_path index_path (Suspends i (timed_out now) s) i
        now s (λ _ late asleep. (now, refl, late, refl)) (λ asleep. cc) (λ asleep. cc)
  turn-Suspends i (received cmd now) s awake =
      received_cases p target idle_timeout data_path index_path (Suspends i (received cmd now) s) i
        now s cmd (λ _ asleep. cc) (λ _ _. unfold serve in (λ asleep. cc)) (λ _ asleep _ _ _. cc)
        (λ _ asleep _ _ _. cc) (unfold backed_off in (λ asleep. cc))

  -- The closing of a worker that has a thread and a handle makes both calls.
  pub suspend-released :
      (i : IdleState) (s : Process World)
      → is_null i.worker.thread ≡ false
      → is_nonneg i.worker.handle ≡ true
      → (suspend p target idle_timeout data_path index_path i s).process.world
        ≡ released i.worker s.world
  unfolding suspend close
  suspend-released i s has_thread has_handle = ground (arith, has_thread, has_handle)

  -- While the loop is awake, its last activity was at `a`, and it does not back off.
  abbrev IsFresh : ℕ → IdleState → Type 0
  IsFresh a i = i.suspended ≡ false → (i.last_activity ≡ a) × (i.waiting ≡ for_command)

  abbrev Goes : ℕ → Turn Value World → Type 0
  Goes a t = (t.stop ≡ false) × IsFresh a t.state

  serve-Goes :
      (i : IdleState) (cmd : FfiCommand) (now : ℕ) (s : Process World)
      → is_shutdown cmd ≡ false
      → i.waiting ≡ for_command
      → Goes now (serve p target idle_timeout data_path index_path i cmd now s)
  unfolding serve
  serve-Goes i cmd now s runs at =
      ((dispatch_command-awaited p i.worker cmd s.world).1 ∙ runs, λ awake. (refl, at))

  after_reopen-Goes :
      (i : IdleState) (cmd : FfiCommand) (now : ℕ) (q : DbResult FfiWorkerState × Process World)
      → is_shutdown cmd ≡ false
      → i.waiting ≡ for_command
      → i.suspended ≡ true
      → Goes now (after_reopen p target idle_timeout data_path index_path i cmd now q)
  unfolding after_reopen reopen_failed
  after_reopen-Goes i cmd now (ok st, s) runs at asleep =
      serve-Goes (record i { worker = st; suspended = false; reopen_failures = 0 }) cmd now s runs
        at
  after_reopen-Goes i cmd now (err e, s) runs at asleep = (refl, λ awake. cc)

  command-Goes :
      (at : Waiting) (i : IdleState) (cmd : FfiCommand) (now a : ℕ) (s : Process World)
      → is_shutdown cmd ≡ false
      → i.waiting ≡ at
      → IsFresh a i
      → Goes now (on_command p target idle_timeout data_path index_path at i cmd now s)
  unfolding on_command reopen backed_off
  command-Goes for_command i cmd now a s runs at v =
      if_cases (Goes now) (is_shutdown cmd) _ _ (λ e. cc)
        (λ _.
          if_cases (Goes now) i.suspended _ _
            (λ asleep. after_reopen-Goes i cmd now _ runs at asleep)
            (λ awake. serve-Goes i cmd now s runs at))
  command-Goes for_backoff i cmd now a s runs at v = (runs, λ awake. let w = v awake in cc)

  run-IsFresh :
      (events : List Event) (i : IdleState) (a : ℕ) (s : Process World)
      → IsFresh a i
      → none_stops events ≡ true
      → IsFresh
          (last_command a events)
          (run_worker_loop_with_idle p target idle_timeout data_path index_path i events s).1
  unfolding run_worker_loop_with_idle turn last_command none_stops
  run-IsFresh [] i a s v h = v
  run-IsFresh (timed_out now ∷ rest) i a s v h =
      let (stop, fresh) =
        timed_out_cases p target idle_timeout data_path index_path (Goes a) i now s
          (λ _ _. unfold suspend in (refl, λ awake. cc)) (refl, v)
          (refl, λ awake. ((v awake).0, refl)) in
      rw stop (run-IsFresh rest _ a _ fresh h)
  run-IsFresh (received cmd now ∷ rest) i a s v h =
      let (stop, fresh) = command-Goes i.waiting i cmd now a s (ground (arith, h)) refl v in
      rw stop (run-IsFresh rest _ now _ fresh (ground (arith, h)))

  -- Behind any commands but shutdowns, and any timeouts, a loop that is awake, with a thread and a handle,
  -- is suspended by a timeout only, and only if the idle time has passed since the last of the commands
  -- came, or since the loop began where there was none; and then the handle is closed and the isolate
  -- torn down behind it.
  pub turn-suspends :
      (events : List Event) (e : Event) (st : FfiWorkerState) (begun : ℕ) (s : Process World)
      → none_stops events ≡ true
      → let r =
          run_worker_loop_with_idle p target idle_timeout data_path index_path
            (start st begun)
            events
            s in
        let t = turn p target idle_timeout data_path index_path r.1 e r.2 in
        r.1.suspended ≡ false
        → is_null r.1.worker.thread ≡ false
        → is_nonneg r.1.worker.handle ≡ true
        → t.state.suspended ≡ true
        → (now : ℕ) × (e ≡ timed_out now)
          × (idle_timeout ≤ now - last_command begun events)
          × (t.process.world ≡ released r.1.worker r.2.world)
  turn-suspends events e st begun s runs awake has_thread has_handle asleep =
      let r =
        run_worker_loop_with_idle p target idle_timeout data_path index_path (start st begun) events
          s in
      let (now, due, late, closed) = turn-Suspends r.1 e r.2 awake asleep in
      let fresh = run-IsFresh events (start st begun) begun s (λ _. (refl, refl)) runs awake in
      (
        now,
        due,
        subst (λ (a : ℕ). idle_timeout ≤ now - a) (fresh.0) late,
        ap (λ (t : Turn Value World). t.process.world) closed
            ∙ suspend-released r.1 r.2 has_thread has_handle,
      )

  pub suspend-IsClosed :
      (i : IdleState) (s : Process World)
      → IsClosed (suspend p target idle_timeout data_path index_path i s).state
  unfolding suspend close
  suspend-IsClosed i s = record {
    is_suspended = refl;
    no_thread = ground arith;
    no_handle = ground arith;
  }
