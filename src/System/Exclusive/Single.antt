-- ===== src/System/Exclusive/Single.antt =====
-- A process in which no open comes in the midst of a drop of the same paths.
use chrondb.Base.{ℕ, ◌<◌, String, Bool, true, false, Option, List, [], ◌∷◌, ◌≡◌, refl, ◌∙◌, arith}
use chrondb.Platform.{Platform}
use chrondb.Setup.Target.{Target}
use chrondb.Setup.Install.{Process}
use chrondb.Command.{FfiCommand}
use chrondb.Registry.{Key, no_workers}
use chrondb.System.{System, Side, spawned, send_command}
use chrondb.System.Threads.{serve_next, serve_thread, wake_thread}
use chrondb.System.Reach.{
  Step, looks, creates, enters, sends, lets_go, removes, stops, serves, wakes, joins, Reachable,
}
use chrondb.System.Sound.{IsSound}
use chrondb.System.Sound.Steps.{Step-IsSound, Reachable-IsSound}
use chrondb.System.Exclusive.{
  is_joined, IsExclusive, same_phases-IsExclusive, let_go-IsExclusive, remove-IsExclusive,
  send_shutdown-IsExclusive, join_thread-IsExclusive,
}
use chrondb.System.Exclusive.Opens.{IsCalm, open_whole, open_whole-IsExclusive}

module _ (p : Platform) (target : Target) where
  open p use {World, Value}

  -- A block of an open.
  unfoldable pub is_open : {s t : System Value World} → Step p target s t → Bool
  is_open (looks k t e) = true
  is_open (creates k idle_timeout data_path index_path now t e) = true
  is_open (enters k id t e) = true
  is_open (sends id cmd t held h e) = false
  is_open (lets_go id t held e) = false
  is_open (removes id t h e) = false
  is_open (stops id t h e) = false
  is_open (serves id now t alive e) = false
  is_open (wakes id now t alive e) = false
  is_open (joins id t h ended e) = false

  -- An open as a whole, where no drop of a worker of its paths is under way, or any other step.
  pub data Guarded (s : System Value World) : System Value World → Type 0 where
    opens :
        (k : Key) (idle_timeout : Option ℕ) (data_path index_path : String) (now : ℕ)
        (t : System Value World)
        → IsCalm k s
        → t ≡ open_whole p target k idle_timeout data_path index_path now s
        → Guarded s t
    moves : (t : System Value World) (st : Step p target s t) → is_open st ≡ false → Guarded s t

  pub data Reached : System Value World → Type 0 where
    begins :
        (side : Side) (process : Process World)
        → Reached (record { workers = no_workers; threads = λ id. spawned side; process = process })
    steps : {s t : System Value World} → Reached s → Guarded s t → Reached t

  send_command-phases :
      (id : ℕ) (cmd : FfiCommand) (s : System Value World) (j : ℕ)
      → let t = send_command id cmd s in
        ((t.threads j).phase ≡ (s.threads j).phase) × ((t.threads j).ended ≡ (s.threads j).ended)
  unfolding send_command
  send_command-phases id cmd s j = ground arith

  serve_next-phases :
      (id now : ℕ) (q : List FfiCommand) (s : System Value World) (j : ℕ)
      → (s.threads id).ended ≡ false
      → let t = serve_next p target id now q s in
        (t.workers ≡ s.workers)
        × ((t.threads j).phase ≡ (s.threads j).phase)
        × ((s.threads j).ended ≡ true → (t.threads j).ended ≡ true)
  unfolding serve_next
  serve_next-phases id now [] s j alive = (refl, refl, λ h. h)
  serve_next-phases id now (cmd ∷ rest) s j alive =
      (refl, ground (arith, alive), λ h. ground (arith, alive))

  wake_thread-phases :
      (id now : ℕ) (s : System Value World) (j : ℕ)
      → let t = wake_thread p target id now s in
        (t.workers ≡ s.workers)
        × ((t.threads j).phase ≡ (s.threads j).phase)
        × ((t.threads j).ended ≡ (s.threads j).ended)
  unfolding wake_thread
  wake_thread-phases id now s j = (refl, ground arith, ground arith)

  Step-IsExclusive :
      (s t : System Value World) (st : Step p target s t)
      → is_open st ≡ false
      → IsExclusive s
      → IsSound t
      → IsExclusive t
  unfolding is_open send_command serve_thread
  Step-IsExclusive s t (looks k _ e) h v sound = cc h
  Step-IsExclusive s t (creates k idle_timeout data_path index_path now _ e) h v sound = cc h
  Step-IsExclusive s t (enters k id _ e) h v sound = cc h
  Step-IsExclusive s t (sends id cmd _ held plain e) h v sound = rw e (
      same_phases-IsExclusive s (send_command id cmd s) (rw e at sound) refl
        (λ j. (send_command-phases id cmd s j).0)
        (λ j ended. (send_command-phases id cmd s j).1 ∙ ended) v)
  Step-IsExclusive s t (lets_go id _ held e) h v sound =
      rw e (let_go-IsExclusive id s (rw e at sound) held v)
  Step-IsExclusive s t (removes id _ phase e) h v sound =
      rw e (remove-IsExclusive id s (rw e at sound) phase v)
  Step-IsExclusive s t (stops id _ phase e) h v sound =
      rw e (send_shutdown-IsExclusive id s (rw e at sound) phase v)
  Step-IsExclusive s t (serves id now _ alive e) h v sound =
      let q = (s.threads id).queue in
      rw e (
        same_phases-IsExclusive s (serve_thread p target id now s) (rw e at sound)
          (serve_next-phases id now q s id alive).0 (λ j. (serve_next-phases id now q s j alive).1)
          (λ j. (serve_next-phases id now q s j alive).2) v)
  Step-IsExclusive s t (wakes id now _ alive e) h v sound = rw e (
      same_phases-IsExclusive s (wake_thread p target id now s) (rw e at sound)
        (wake_thread-phases id now s id).0 (λ j. (wake_thread-phases id now s j).1)
        (λ j ended. (wake_thread-phases id now s j).2 ∙ ended) v)
  Step-IsExclusive s t (joins id _ phase ended e) h v sound =
      rw e (join_thread-IsExclusive id s (rw e at sound) phase ended v)

  start-IsExclusive :
      (side : Side) (process : Process World)
      → IsExclusive {V = Value}
          (record { workers = no_workers; threads = λ id. spawned side; process = process })
  start-IsExclusive side process = record {
    sound = Reachable-IsSound p target (Reachable.begins side process);
    listed = λ id h. absurd (omega arith);
    keyed = λ k id e. cc e;
    used = λ id made h. absurd (omega arith);
    unmade = λ id made. refl;
    done = λ id h. cc h;
    single = λ a b ha hb ja jb e. absurd (omega arith);
  }

  Guarded-IsExclusive : {s t : System Value World} → Guarded s t → IsExclusive s → IsExclusive t
  Guarded-IsExclusive {s} {t} (opens k idle_timeout data_path index_path now _ calm e) v =
      rw e (open_whole-IsExclusive p target k idle_timeout data_path index_path now s v calm)
  Guarded-IsExclusive {s} {t} (moves _ st h) v =
      Step-IsExclusive s t st h v (Step-IsSound p target s t st v.sound)

  Reached-IsExclusive : {s : System Value World} → Reached s → IsExclusive s
  Reached-IsExclusive (begins side process) = start-IsExclusive side process
  Reached-IsExclusive (steps r g) = Guarded-IsExclusive g (Reached-IsExclusive r)

  -- In a process where opens run as a whole, one of them only when no drop of a worker of its paths is
  -- under way, and where sendings, drops, turns and ends of threads come in any order, whatever the
  -- library does: two workers that were made with the same paths, and whose threads have not ended, are
  -- the same one.
  pub Reached-single :
      {s : System Value World} (a b : ℕ)
      → Reached s
      → a < s.workers.next
      → b < s.workers.next
      → (s.threads a).ended ≡ false
      → (s.threads b).ended ≡ false
      → s.workers.key_of a ≡ s.workers.key_of b
      → a ≡ b
  Reached-single {s} a b r ha hb alive_a alive_b e =
      let v = Reached-IsExclusive r in
      v.single a b ha hb (unjoined v a alive_a) (unjoined v b alive_b) e
    where
      unjoined :
          IsExclusive s
          → (j : ℕ) → (s.threads j).ended ≡ false
          → is_joined (s.threads j).phase ≡ false
      unjoined v j alive = ground (arith, v.done j)
