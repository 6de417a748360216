-- ===== src/System/Exclusive/Opens.antt =====
-- Opens as a whole, and the steps of a process in which none comes in the midst of a drop.
use chrondb.Base.{
  ℕ, ◌≤◌, ◌<◌, String, false, Option, none, some, ◌≡◌, ◌≢◌, refl, sym, ◌∙◌, ap, arith, ◌⊎◌, inl,
  inr, ok, err,
}
use chrondb.Error.{DbResult}
use chrondb.Platform.{Platform}
use chrondb.Setup.Target.{Target}
use chrondb.Setup.Install.{Process}
use chrondb.Worker.State.{FfiWorkerState}
use chrondb.Worker.Init.{init_worker}
use chrondb.Registry.{Key, Workers, find_worker, upgrade, create_new_worker, register}
use chrondb.Registry.Unique.{same_key_iff}
use chrondb.System.{System, Phase, in_use, dropping, removed, stopping, joined, look_up, enter}
use chrondb.System.Threads.{created_thread}
use chrondb.System.Sound.Steps.{look_up-IsSound, enter-IsSound, created_thread-IsSound}
use chrondb.System.Exclusive.{is_dropping, IsExclusive}

-- An open that finds a worker.
upgrade-grows :
    (o : Option ℕ) (s : Workers) (j : ℕ)
    → (s.strong j ≤ (upgrade o s).1.strong j)
      × (0 < (upgrade o s).1.strong j → 0 < s.strong j)
      × ((upgrade o s).1.registry ≡ s.registry)
      × ((upgrade o s).1.key_of ≡ s.key_of)
      × ((upgrade o s).1.next ≡ s.next)
unfolding upgrade
upgrade-grows none s j = (omega arith, λ h. h, refl, refl, refl)
upgrade-grows (some id) s j =
    (ground arith, λ h. ground arith, ground arith, ground arith, ground arith)

find_worker-some :
    (k : Key) (s : Workers) (id : ℕ)
    → s.registry k ≡ some id
    → 0 < s.strong id
    → (find_worker k s).0 ≡ some id
unfolding find_worker upgrade
find_worker-some k s id e held = ground (arith, e, held)

phase_cases : (ph : Phase) → is_dropping ph ≡ false → (ph ≡ in_use) ⊎ (ph ≡ joined)
phase_cases in_use h = inl refl
phase_cases joined h = inr refl
phase_cases dropping h = cc h
phase_cases removed h = cc h
phase_cases stopping h = cc h

module _ {V W : Type 0} where
  -- Every worker of the paths was joined.
  IsFree : Key → System V W → Type 0
  IsFree k s =
      (id : ℕ) → id < s.workers.next → s.workers.key_of id ≡ k → (s.threads id).phase ≡ joined

  -- No drop of a worker of the paths is under way.
  abbrev pub IsCalm : Key → System V W → Type 0
  IsCalm k s =
      (id : ℕ)
      → id < s.workers.next
      → s.workers.key_of id ≡ k
      → is_dropping (s.threads id).phase ≡ false

  none-IsFree :
      (k : Key) (s : System V W)
      → IsExclusive s
      → IsCalm k s
      → (find_worker k s.workers).0 ≡ none
      → IsFree k s
  unfolding IsFree
  none-IsFree k s v calm missing id made e = elim (phase_cases _ (calm id made e)) [
    | inl phase ↦
        let held = v.used id made phase in
        let entry = ap s.workers.registry (sym e) ∙ v.listed id held in
        absurd (cc (missing, find_worker-some k s.workers id entry held))
    | inr phase ↦ phase
  ]

  look_up-IsExclusive : (k : Key) (s : System V W) → IsExclusive s → IsExclusive (look_up k s)
  unfolding look_up find_worker
  look_up-IsExclusive k s v =
      let g = upgrade-grows (s.workers.registry k) s.workers in
      record {
        sound = look_up-IsSound k s v.sound;
        listed = λ id h. rw ((g id).2, (g id).3) (v.listed id ((g id).1 h));
        keyed = λ j id e. rw ((g id).3, (g id).4) (v.keyed j id (rw (g id).2 at e));
        used = λ id made h. omega (arith, v.used id (rw (g id).4 at made) h, (g id).0);
        unmade = λ id made. v.unmade id (rw (g id).4 at made);
        done = v.done;
        single = λ a b ha hb ja jb e.
            v.single a b (rw (g a).4 at ha) (rw (g a).4 at hb) ja jb (rw (g a).3 at e);
      }

module _ (p : Platform) (target : Target) where
  open p use {World, Value}

  -- What follows an initialization.
  abbrev pub entered :
      Key
      → Option ℕ
      → String
      → String
      → ℕ
      → DbResult FfiWorkerState × Process World
      → System Value World
      → System Value World
  entered k idle_timeout data_path index_path now (err e, process) s =
      created_thread p target k idle_timeout data_path index_path now (err e, process) s
  entered k idle_timeout data_path index_path now (ok st, process) s =
      enter k s.workers.next
        (created_thread p target k idle_timeout data_path index_path now (ok st, process) s)

  abbrev pub found_or_made :
      Key → Option ℕ → String → String → ℕ → Option ℕ → System Value World → System Value World
  found_or_made k idle_timeout data_path index_path now (some id) s = look_up k s
  found_or_made k idle_timeout data_path index_path now none s =
      entered k idle_timeout data_path index_path now
        (init_worker p target data_path index_path s.process) s

  -- The blocks of an open, with nothing between.
  unfoldable pub open_whole :
      Key → Option ℕ → String → String → ℕ → System Value World → System Value World
  open_whole k idle_timeout data_path index_path now s =
      found_or_made k idle_timeout data_path index_path now (find_worker k s.workers).0 s

  entered-IsExclusive :
      (k : Key) (idle_timeout : Option ℕ) (data_path index_path : String) (now : ℕ)
      (r : DbResult FfiWorkerState × Process World) (s : System Value World)
      → IsExclusive s
      → IsFree k s
      → IsExclusive (entered k idle_timeout data_path index_path now r s)
  unfolding enter register created_thread create_new_worker IsFree
  entered-IsExclusive k idle_timeout data_path index_path now (err e, process) s v free = record {
    sound =
        created_thread-IsSound p target k idle_timeout data_path index_path now (err e, process) s
          v.sound;
    listed = v.listed;
    keyed = v.keyed;
    used = v.used;
    unmade = v.unmade;
    done = v.done;
    single = v.single;
  }
  entered-IsExclusive k idle_timeout data_path index_path now (ok st, process) s v free = record {
    sound = enter-IsSound k s.workers.next _ (
        created_thread-IsSound p target k idle_timeout data_path index_path now (ok st, process) s
          v.sound);
    listed = λ id h.
        ground
          (arith, v.listed id, others id, same_key_iff k (s.workers.key_of id), same_key_iff k k);
    keyed = λ j id e. ground (arith, v.keyed j id, same_key_iff k j);
    used = λ id made h. ground (arith, v.used id);
    unmade = λ id made. ground (arith, v.unmade id);
    done = λ id h. ground (arith, v.done id);
    single = λ a b ha hb ja jb e. ground (arith, v.single a b, free a, free b);
  }
    where
      others : (id : ℕ) → 0 < s.workers.strong id → k ≢ s.workers.key_of id
      others id held e =
          let made : id < s.workers.next = ground (arith, v.sound.fresh id) in
          cc (free id made (sym e), (v.sound.at id).held held)

  found_or_made-IsExclusive :
      (k : Key) (idle_timeout : Option ℕ) (data_path index_path : String) (now : ℕ) (o : Option ℕ)
      (s : System Value World)
      → IsExclusive s
      → (o ≡ none → IsFree k s)
      → IsExclusive (found_or_made k idle_timeout data_path index_path now o s)
  found_or_made-IsExclusive k idle_timeout data_path index_path now (some id) s v free =
      look_up-IsExclusive k s v
  found_or_made-IsExclusive k idle_timeout data_path index_path now none s v free =
      entered-IsExclusive k idle_timeout data_path index_path now _ s v (free refl)

  pub open_whole-IsExclusive :
      (k : Key) (idle_timeout : Option ℕ) (data_path index_path : String) (now : ℕ)
      (s : System Value World)
      → IsExclusive s
      → IsCalm k s
      → IsExclusive (open_whole k idle_timeout data_path index_path now s)
  unfolding open_whole
  open_whole-IsExclusive k idle_timeout data_path index_path now s v calm =
      found_or_made-IsExclusive k idle_timeout data_path index_path now _ s v
        (λ missing. none-IsFree k s v calm missing)
