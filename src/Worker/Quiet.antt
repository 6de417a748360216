-- ===== src/Worker/Quiet.antt =====
-- Without commands the idle loop closes the isolate in time.
use native.Mathlib.Nat.{div-add-mod, mod-lt}
use chrondb.Base.{
  ℕ, zero, suc, ◌+◌, ◌-◌, ◌*◌, ◌/◌, ◌≤◌, ◌<◌, String, Bool, true, false, List, [], ◌∷◌, ◌≡◌, refl,
  ap, arith, Bool-cases, inl, inr, leb, leb→le, not, ◌&&◌, if◌then◌else◌, ◌∙◌,
}
use chrondb.Base.Int.{is_nonneg}
use chrondb.Platform.{Platform}
use chrondb.Platform.Ffi.{is_null}
use chrondb.Setup.Target.{Target}
use chrondb.Setup.Install.{Process}
use chrondb.Worker.State.{FfiWorkerState}
use chrondb.Worker.Idle.{
  check_interval, Event, timed_out, for_command, IdleState, start, suspend, on_timeout, on_time_out,
  turn, run_worker_loop_with_idle,
}
use chrondb.Worker.Timing.{IsClosed, released, suspend-IsClosed, suspend-released}

check_interval_pos : (idle_timeout : ℕ) → 0 < check_interval idle_timeout
unfolding check_interval
check_interval_pos idle_timeout = omega arith

-- `n` timeouts, the first one `d` after `t`, and each one `d` after the last.
abbrev pub quiet : ℕ → ℕ → ℕ → List Event
quiet zero t d = []
quiet (suc n) t d = timed_out (t + d) ∷ quiet n (t + d) d

module _ (p : Platform) (target : Target) (idle_timeout : ℕ) (data_path index_path : String) where
  open p use {World}

  turn-quiet :
      (i : IdleState) (now : ℕ) (s : Process World)
      → i.waiting ≡ for_command
      → turn p target idle_timeout data_path index_path i (timed_out now) s
        ≡ on_timeout p target idle_timeout data_path index_path i now s
  unfolding turn on_time_out
  turn-quiet i now s e =
      ap (λ a. on_time_out p target idle_timeout data_path index_path a i now s) e

  -- The test of the timeout arm, once its value is known.
  turn-quiet_of_test :
      (i : IdleState) (now : ℕ) (s : Process World) (due : Bool)
      → i.waiting ≡ for_command
      → (not i.suspended && leb idle_timeout (now - i.last_activity)) ≡ due
      → turn p target idle_timeout data_path index_path i (timed_out now) s ≡ (
          if due
          then suspend p target idle_timeout data_path index_path i s
          else record { stop = false; sent = []; state = i; process = s })
  unfolding on_timeout
  turn-quiet_of_test i now s due at test =
      turn-quiet i now s at
      ∙ ap
          (λ b.
            if b
            then suspend p target idle_timeout data_path index_path i s
            else record { stop = false; sent = []; state = i; process = s })
          test

  -- A turn that sends nothing and goes on is followed by the rest of the loop.
  loop_after :
      (i i' : IdleState) (e : Event) (rest : List Event) (s s' : Process World)
      → turn p target idle_timeout data_path index_path i e s
        ≡ record { stop = false; sent = []; state = i'; process = s' }
      → run_worker_loop_with_idle p target idle_timeout data_path index_path i (e ∷ rest) s
        ≡ run_worker_loop_with_idle p target idle_timeout data_path index_path i' rest s'
  unfolding run_worker_loop_with_idle
  loop_after i i' e rest s s' h = rw (h, run_worker_loop_with_idle)

  -- A closed loop stays as it is.
  quiet-closed :
      (n : ℕ) (i : IdleState) (t d : ℕ) (s : Process World)
      → i.waiting ≡ for_command
      → i.suspended ≡ true
      → run_worker_loop_with_idle p target idle_timeout data_path index_path i (quiet n t d) s
        ≡ ([], i, s)
  unfolding run_worker_loop_with_idle
  quiet-closed zero i t d s at asleep = refl
  quiet-closed (suc n) i t d s at asleep =
      loop_after i i _ _ s s (turn-quiet_of_test i (t + d) s false at (ground arith))
      ∙ quiet-closed n i (t + d) d s at asleep

  -- A suspension, followed by timeouts.
  suspend-quiet :
      (n : ℕ) (i : IdleState) (t d : ℕ) (s : Process World)
      → i.waiting ≡ for_command
      → i.suspended ≡ false
      → idle_timeout ≤ t + d - i.last_activity
      → run_worker_loop_with_idle p target idle_timeout data_path index_path i (quiet (suc n) t d) s
        ≡ (
          [],
          (suspend p target idle_timeout data_path index_path i s).state,
          (suspend p target idle_timeout data_path index_path i s).process,
        )
  unfolding suspend
  suspend-quiet n i t d s at awake late =
      loop_after i _ _ _ s _ (turn-quiet_of_test i (t + d) s true at (ground arith))
      ∙ quiet-closed n _ (t + d) d _ at refl

  -- From a state that is awake, enough timeouts close the isolate and send nothing.
  quiet-closes :
      (n : ℕ) (i : IdleState) (t d : ℕ) (s : Process World)
      → i.waiting ≡ for_command
      → i.suspended ≡ false
      → is_null i.worker.thread ≡ false
      → is_nonneg i.worker.handle ≡ true
      → idle_timeout + i.last_activity ≤ t + suc n * d
      → let r =
          run_worker_loop_with_idle p target idle_timeout data_path index_path i
            (quiet (suc n) t d)
            s in
        IsClosed r.1
        × (r.0 ≡ [])
        × (r.2.world ≡ released p target idle_timeout data_path index_path i.worker s.world)
  quiet-closes zero i t d s at awake has_thread has_handle late =
      rw (suspend-quiet zero i t d s at awake (omega arith)) (
        suspend-IsClosed p target idle_timeout data_path index_path i s,
        refl,
        suspend-released p target idle_timeout data_path index_path i s has_thread has_handle,
      )
  quiet-closes (suc n) i t d s at awake has_thread has_handle late =
      elim (Bool-cases (leb idle_timeout (t + d - i.last_activity))) [
        | inl due ↦ rw (suspend-quiet (suc n) i t d s at awake (leb→le _ _ due)) (
          suspend-IsClosed p target idle_timeout data_path index_path i s,
          refl,
          suspend-released p target idle_timeout data_path index_path i s has_thread has_handle,
        )
        | inr early ↦
            rw (loop_after i i _ _ s s (turn-quiet_of_test i (t + d) s false at (ground arith)))
              (quiet-closes n i (t + d) d s at awake has_thread has_handle (omega (arith, late)))
      ]

  -- Where no command comes, the worker has a thread and a handle, and the timeouts are exactly one check
  -- interval apart: at the latest one check interval after the idle time has passed since the loop began,
  -- the handle is closed and the isolate torn down behind it, with no other change of the world, both are
  -- cleared in the state, and nothing is sent.
  pub start-IsClosed :
      (st : FfiWorkerState) (now : ℕ) (s : Process World)
      → is_null st.thread ≡ false
      → is_nonneg st.handle ≡ true
      → (n : ℕ) × (n * check_interval idle_timeout ≤ idle_timeout + check_interval idle_timeout)
        × (let r =
              run_worker_loop_with_idle p target idle_timeout data_path index_path
                (start st now)
                (quiet n now (check_interval idle_timeout))
                s in
            IsClosed r.1
            × (r.0 ≡ [])
            × (r.2.world ≡ released p target idle_timeout data_path index_path st s.world))
  start-IsClosed st now s has_thread has_handle = (
    suc (idle_timeout / d),
    omega (arith, div-add-mod idle_timeout d),
    quiet-closes (idle_timeout / d) (start st now) now d s refl refl has_thread has_handle (
        omega (
          arith,
          div-add-mod idle_timeout d,
          mod-lt idle_timeout (check_interval_pos idle_timeout),
        )),
  )
    where
      d : ℕ
      d = check_interval idle_timeout
