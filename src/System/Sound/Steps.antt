-- ===== src/System/Sound/Steps.antt =====
-- Every step keeps every worker sound.
use chrondb.Base.{
  ℕ, zero, suc, ◌-◌, ◌<◌, true, false, Option, none, some, String, List, [], ◌∷◌, map, ltb, ◌≡◌,
  refl, ap, arith, Bool-cases, inl, inr, ok, err,
}
use chrondb.Error.{DbResult}
use chrondb.Platform.{Platform}
use chrondb.Setup.Target.{Target}
use chrondb.Setup.Install.{Process}
use chrondb.Command.{FfiCommand}
use chrondb.Worker.State.{FfiWorkerState}
use chrondb.Worker.Dispatch.{is_shutdown}
use chrondb.Worker.Init.{init_worker}
use chrondb.Worker.Replies.{ticket_of, awaited, one, dispatch_command-awaited, turn-Answered}
use chrondb.Registry.{
  Key, Workers, at_worker, upgrade, find_worker, create_new_worker, register, unregister, release,
}
use chrondb.System.{
  Side, plain, idle, dropping, removed, stopping, joined, Thread, System, look_up, enter,
  send_command, let_go, remove, send_shutdown, join_thread, begin_drop,
}
use chrondb.System.Threads.{
  serve_side, created_thread, create_thread, serve_next, serve_thread, wake_thread,
}
use chrondb.System.Reach.{
  Step, looks, creates, enters, sends, lets_go, removes, stops, serves, wakes, joins, Reachable,
  begins, steps,
}
use chrondb.System.Sound.{
  was_stopped, IsSoundAt, IsSound, spawned-IsSoundAt, at_worker-IsSoundAt, fewer-IsSoundAt,
  enqueue-IsSoundAt, stop-IsSoundAt, phase-IsSoundAt, serving-IsSoundAt,
}

-- An upgrade takes no handle away and makes none of a worker without.
upgrade-used :
    (o : Option ℕ) (s : Workers) (j : ℕ)
    → (0 < (upgrade o s).1.strong j → 0 < s.strong j)
      × (s.strong j ≡ 0 → (upgrade o s).1.strong j ≡ 0)
      × ((upgrade o s).1.next ≡ s.next)
unfolding upgrade
upgrade-used none s j = (λ h. h, λ h. h, refl)
upgrade-used (some id) s j = (λ h. ground arith, λ h. ground arith, ground arith)

unused : {V : Type 0} (a : ℕ) (t : Thread V) → IsSoundAt a t → was_stopped t.phase ≡ true → a ≡ 0
unused zero t v h = refl
unused (suc a) t v h = absurd (cc (h, ap was_stopped (v.held (omega arith))))

pub unused_dropping :
    {V : Type 0} (a : ℕ) (t : Thread V) → IsSoundAt a t → t.phase ≡ dropping → a ≡ 0
unused_dropping zero t v h = refl
unused_dropping (suc a) t v h = absurd (cc (h, v.held (omega arith)))

begin_drop-IsSoundAt :
    {V : Type 0} (a b : ℕ) (t : Thread V)
    → IsSoundAt a t
    → 0 < a
    → b ≡ a - 1
    → IsSoundAt b (begin_drop (ltb 0 b) t)
begin_drop-IsSoundAt a b t v held less = elim (Bool-cases (ltb 0 b)) [
  | inl e ↦ rw e (fewer-IsSoundAt a b t (λ _. held) v)
  | inr e ↦
      rw e (phase-IsSoundAt a b t dropping v (ground (arith, e)) (ap was_stopped (v.held held)))
]

module _ {V W : Type 0} where
  pub look_up-IsSound : (k : Key) (s : System V W) → IsSound s → IsSound (look_up k s)
  unfolding look_up find_worker
  look_up-IsSound k s v =
      let used = upgrade-used (s.workers.registry k) s.workers in
      record {
        at = λ j. fewer-IsSoundAt _ _ (s.threads j) (used j).0 (v.at j);
        fresh = λ j h. (used j).1 (v.fresh j (rw (used j).2 at h));
      }

  pub enter-IsSound : (k : Key) (id : ℕ) (s : System V W) → IsSound s → IsSound (enter k id s)
  unfolding enter register
  enter-IsSound k id s v = record { at = v.at; fresh = v.fresh }

  send_command-IsSound :
      (id : ℕ) (cmd : FfiCommand) (s : System V W)
      → IsSound s
      → 0 < s.workers.strong id
      → is_shutdown cmd ≡ false
      → IsSound (send_command id cmd s)
  unfolding send_command
  send_command-IsSound id cmd s v held h = record {
    at =
        at_worker-IsSoundAt s.workers.strong s.threads id _
          (enqueue-IsSoundAt _ cmd (s.threads id) (v.at id) (ap was_stopped ((v.at id).held held))
            h)
          (λ j _. v.at j);
    fresh = v.fresh;
  }

  remove-IsSound :
      (id : ℕ) (s : System V W)
      → IsSound s
      → (s.threads id).phase ≡ dropping
      → IsSound (remove id s)
  unfolding remove unregister
  remove-IsSound id s v h = record {
    at =
        at_worker-IsSoundAt s.workers.strong s.threads id _
          (phase-IsSoundAt _ _ (s.threads id) removed (v.at id)
            (unused_dropping _ (s.threads id) (v.at id) h) (ap was_stopped h))
          (λ j _. v.at j);
    fresh = v.fresh;
  }

  send_shutdown-IsSound :
      (id : ℕ) (s : System V W)
      → IsSound s
      → (s.threads id).phase ≡ removed
      → IsSound (send_shutdown id s)
  unfolding send_shutdown
  send_shutdown-IsSound id s v h = record {
    at =
        at_worker-IsSoundAt s.workers.strong s.threads id _
          (stop-IsSoundAt (s.threads id) _ (v.at id) h) (λ j _. v.at j);
    fresh = v.fresh;
  }

  join_thread-IsSound :
      (id : ℕ) (s : System V W)
      → IsSound s
      → (s.threads id).phase ≡ stopping
      → IsSound (join_thread id s)
  unfolding join_thread
  join_thread-IsSound id s v h = record {
    at =
        at_worker-IsSoundAt s.workers.strong s.threads id _
          (phase-IsSoundAt _ _ (s.threads id) joined (v.at id)
            (unused _ (s.threads id) (v.at id) (ap was_stopped h)) (ap was_stopped h))
          (λ j _. v.at j);
    fresh = v.fresh;
  }

  let_go-IsSound :
      (id : ℕ) (s : System V W) → IsSound s → 0 < s.workers.strong id → IsSound (let_go id s)
  unfolding let_go release
  let_go-IsSound id s v held = record {
    at =
        at_worker-IsSoundAt (release id s.workers).strong s.threads id _
          (begin_drop-IsSoundAt (s.workers.strong id) _ (s.threads id) (v.at id) held
            (ground arith))
          (λ j e. rw e (v.at j));
    fresh = λ j h. ground (arith, v.fresh j h);
  }

module _ (p : Platform) (target : Target) where
  open p use {World, Value}

  pub created_thread-IsSound :
      (k : Key) (idle_timeout : Option ℕ) (data_path index_path : String) (now : ℕ)
      (r : DbResult FfiWorkerState × Process World) (s : System Value World)
      → IsSound s
      → IsSound (created_thread p target k idle_timeout data_path index_path now r s)
  unfolding created_thread create_new_worker
  created_thread-IsSound k idle_timeout data_path index_path now (err e, process) s v = record {
    at = v.at;
    fresh = v.fresh;
  }
  created_thread-IsSound k idle_timeout data_path index_path now (ok st, process) s v = record {
    at =
        at_worker-IsSoundAt (at_worker s.workers.strong s.workers.next 1) s.threads s.workers.next _
          (spawned-IsSoundAt _ _) (λ j e. rw e (v.at j));
    fresh = λ j h. ground (arith, v.fresh j);
  }

  create_thread-IsSound :
      (k : Key) (idle_timeout : Option ℕ) (data_path index_path : String) (now : ℕ)
      (s : System Value World)
      → IsSound s
      → IsSound (create_thread p target k idle_timeout data_path index_path now s)
  unfolding create_thread
  create_thread-IsSound k idle_timeout data_path index_path now s v =
      created_thread-IsSound k idle_timeout data_path index_path now
        (init_worker p target data_path index_path s.process) s v

  -- Whichever loop a thread runs, it answers a command once, over its channel and with its type, and a
  -- shutdown ends the loop and nothing else does.
  pub serve_side-awaited :
      (side : Side) (cmd : FfiCommand) (now : ℕ) (process : Process World)
      → let d = serve_side p target side cmd now process in
        (map ticket_of d.sent ≡ one (awaited cmd)) × (d.stop ≡ is_shutdown cmd)
  unfolding serve_side
  serve_side-awaited (plain st) cmd now process = dispatch_command-awaited p st cmd process.world
  serve_side-awaited (idle timeout data_path index_path i) cmd now process =
      turn-Answered p target timeout data_path index_path i cmd now process

  serve_next-IsSound :
      (id now : ℕ) (q : List FfiCommand) (s : System Value World)
      → IsSound s
      → (s.threads id).queue ≡ q
      → (s.threads id).ended ≡ false
      → IsSound (serve_next p target id now q s)
  unfolding serve_next
  serve_next-IsSound id now [] s v e alive = v
  serve_next-IsSound id now (cmd ∷ rest) s v e alive = record {
    at =
        at_worker-IsSoundAt s.workers.strong s.threads id _
          (serving-IsSoundAt _ cmd rest (serve_side p target (s.threads id).side cmd now s.process)
            (s.threads id) (v.at id) e alive
            (serve_side-awaited (s.threads id).side cmd now s.process))
          (λ j _. v.at j);
    fresh = v.fresh;
  }

  pub serve_thread-IsSound :
      (id now : ℕ) (s : System Value World)
      → IsSound s
      → (s.threads id).ended ≡ false
      → IsSound (serve_thread p target id now s)
  unfolding serve_thread
  serve_thread-IsSound id now s v alive =
      serve_next-IsSound id now (s.threads id).queue s v refl alive

  pub wake_thread-IsSound :
      (id now : ℕ) (s : System Value World) → IsSound s → IsSound (wake_thread p target id now s)
  unfolding wake_thread
  wake_thread-IsSound id now s v = record {
    at =
        at_worker-IsSoundAt s.workers.strong s.threads id _
          (record {
            held = (v.at id).held;
            running = (v.at id).running;
            over = (v.at id).over;
            balanced = (v.at id).balanced;
          })
          (λ j _. v.at j);
    fresh = v.fresh;
  }

  pub Step-IsSound : (s t : System Value World) → Step p target s t → IsSound s → IsSound t
  Step-IsSound s t (looks k _ e) v = rw e (look_up-IsSound k s v)
  Step-IsSound s t (creates k idle_timeout data_path index_path now _ e) v =
      rw e (create_thread-IsSound k idle_timeout data_path index_path now s v)
  Step-IsSound s t (enters k id _ e) v = rw e (enter-IsSound k id s v)
  Step-IsSound s t (sends id cmd _ held h e) v = rw e (send_command-IsSound id cmd s v held h)
  Step-IsSound s t (lets_go id _ held e) v = rw e (let_go-IsSound id s v held)
  Step-IsSound s t (removes id _ h e) v = rw e (remove-IsSound id s v h)
  Step-IsSound s t (stops id _ h e) v = rw e (send_shutdown-IsSound id s v h)
  Step-IsSound s t (serves id now _ alive e) v = rw e (serve_thread-IsSound id now s v alive)
  Step-IsSound s t (wakes id now _ alive e) v = rw e (wake_thread-IsSound id now s v)
  Step-IsSound s t (joins id _ h over e) v = rw e (join_thread-IsSound id s v h)

  pub Reachable-IsSound : {s : System Value World} → Reachable p target s → IsSound s
  Reachable-IsSound (begins side process) = record {
    at = λ id. spawned-IsSoundAt side 0;
    fresh = λ id h. refl;
  }
  Reachable-IsSound (steps {s} {t} r st) = Step-IsSound s t st (Reachable-IsSound r)
