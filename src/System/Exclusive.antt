-- ===== src/System/Exclusive.antt =====
-- What the sharing is there for: one running thread for a path pair. Opens run as a whole, and none comes
-- while the drop of a worker of the same paths is under way.
pub mod Opens
pub mod Single
use chrondb.Base.{
  ℕ, zero, suc, ◌+◌, ◌-◌, ◌≤◌, ◌<◌, String, Bool, true, false, Option, none, some, List, ltb, ◌==◌,
  ◌≡◌, ◌≢◌, refl, sym, ◌∙◌, ap, arith, Bool-cases, inl, inr, if◌then◌else◌, ok, err,
}
use chrondb.Error.{DbResult}
use chrondb.Platform.{Platform}
use chrondb.Setup.Target.{Target}
use chrondb.Setup.Install.{Process}
use chrondb.Worker.State.{FfiWorkerState}
use chrondb.Worker.Init.{init_worker}
use chrondb.Registry.{Key, Workers, at_worker, find_worker, unregister, release}
use chrondb.Registry.Unique.{same_key_iff}
use chrondb.System.{
  System, Thread, Phase, in_use, dropping, removed, stopping, joined, begin_drop, look_up, enter,
  send_command, let_go, remove, send_shutdown, join_thread,
}
use chrondb.System.Threads.{created_thread, serve_next, serve_thread, wake_thread}
use chrondb.System.Reach.{
  Step, looks, creates, enters, sends, lets_go, removes, stops, serves, wakes, joins,
}
use chrondb.System.Sound.{IsSound}
use chrondb.System.Sound.Steps.{Step-IsSound, unused_dropping}

abbrev pub is_joined : Phase → Bool
is_joined joined = true
is_joined _ = false

-- The drop of the worker has begun and is not done.
abbrev pub is_dropping : Phase → Bool
is_dropping in_use = false
is_dropping joined = false
is_dropping _ = true

-- A worker with handles is listed under its paths; a listed worker was made for these; a worker that was
-- made and whose drop has not begun has handles; a worker that was joined has ended; and two workers
-- that were made and not joined have different paths.
pub record IsExclusive {V W : Type 0} (s : System V W) : Type 0 where
  pub sound : IsSound s
  pub listed :
      (id : ℕ) → 0 < s.workers.strong id → s.workers.registry (s.workers.key_of id) ≡ some id
  pub keyed :
      (k : Key) (id : ℕ)
      → s.workers.registry k ≡ some id
      → (s.workers.key_of id ≡ k) × (id < s.workers.next)
  pub used :
      (id : ℕ) → id < s.workers.next → (s.threads id).phase ≡ in_use → 0 < s.workers.strong id
  pub unmade : (id : ℕ) → s.workers.next ≤ id → (s.threads id).phase ≡ in_use
  pub done : (id : ℕ) → (s.threads id).phase ≡ joined → (s.threads id).ended ≡ true
  pub single :
      (a b : ℕ)
      → a < s.workers.next
      → b < s.workers.next
      → is_joined (s.threads a).phase ≡ false
      → is_joined (s.threads b).phase ≡ false
      → s.workers.key_of a ≡ s.workers.key_of b
      → a ≡ b

module _ {V W : Type 0} where
  -- A step that changes no phase and no worker of the registry.
  pub same_phases-IsExclusive :
      (s t : System V W)
      → IsSound t
      → t.workers ≡ s.workers
      → ((j : ℕ) → (t.threads j).phase ≡ (s.threads j).phase)
      → ((j : ℕ) → (s.threads j).ended ≡ true → (t.threads j).ended ≡ true)
      → IsExclusive s
      → IsExclusive t
  same_phases-IsExclusive s t sound same phase ended v = record {
    sound = sound;
    listed = λ id h. rw same (v.listed id (rw same at h));
    keyed = λ k id h. rw same (v.keyed k id (rw same at h));
    used = λ id made h. rw same (v.used id (rw same at made) (sym (phase id) ∙ h));
    unmade = λ id made. phase id ∙ v.unmade id (rw same at made);
    done = λ id h. ended id (v.done id (sym (phase id) ∙ h));
    single = λ a b ha hb ja jb e.
        v.single a b (rw same at ha) (rw same at hb) (ap is_joined (sym (phase a)) ∙ ja)
          (ap is_joined (sym (phase b)) ∙ jb) (rw same at e);
  }

  pub let_go-IsExclusive :
      (id : ℕ) (s : System V W)
      → IsSound (let_go id s)
      → 0 < s.workers.strong id
      → IsExclusive s
      → IsExclusive (let_go id s)
  unfolding let_go release
  let_go-IsExclusive id s sound held v = record {
    sound = sound;
    listed = λ j h. v.listed j (ground arith);
    keyed = v.keyed;
    used = λ j made h. ground (arith, v.used j made);
    unmade = λ j made. ground (arith, v.unmade j made, v.sound.fresh j made);
    done = λ j h. ground (arith, v.done j);
    single = λ a b ha hb ja jb e. v.single a b ha hb (unjoined a ja) (unjoined b jb) e;
  }
    where
      in_use_now : (s.threads id).phase ≡ in_use
      in_use_now = (v.sound.at id).held held

      unjoined :
          (j : ℕ)
          → is_joined ((let_go id s).threads j).phase ≡ false
          → is_joined (s.threads j).phase ≡ false
      unjoined j h = ground (arith, in_use_now)

  -- Another worker of the paths of a worker whose drop is under way has no handle.
  pub remove-IsExclusive :
      (id : ℕ) (s : System V W)
      → IsSound (remove id s)
      → (s.threads id).phase ≡ dropping
      → IsExclusive s
      → IsExclusive (remove id s)
  unfolding remove unregister
  remove-IsExclusive id s sound h v = record {
    sound = sound;
    listed = λ j held. ground (
      arith,
      v.listed j held,
      others j held,
      same_key_iff (s.workers.key_of id) (s.workers.key_of j),
    );
    keyed = λ k j e. ground (arith, v.keyed k j, same_key_iff (s.workers.key_of id) k);
    used = λ j made e. ground (arith, v.used j made, h);
    unmade = λ j made. ground (arith, v.unmade j made, h);
    done = λ j e. ground (arith, v.done j);
    single = λ a b ha hb ja jb e. v.single a b ha hb (unjoined a ja) (unjoined b jb) e;
  }
    where
      made_id : id < s.workers.next
      made_id = ground (arith, v.unmade id, h)

      others : (j : ℕ) → 0 < s.workers.strong j → s.workers.key_of id ≢ s.workers.key_of j
      others j held e =
          let unheld = unused_dropping _ (s.threads id) (v.sound.at id) h in
          let made_j : j < s.workers.next = ground (arith, v.sound.fresh j) in
          let phase_j = (v.sound.at j).held held in
          let same = v.single id j made_id made_j (ap is_joined h) (ap is_joined phase_j) e in
          ground (arith, unheld, same)

      unjoined :
          (j : ℕ)
          → is_joined ((remove id s).threads j).phase ≡ false
          → is_joined (s.threads j).phase ≡ false
      unjoined j e = ground (arith, h)

  pub send_shutdown-IsExclusive :
      (id : ℕ) (s : System V W)
      → IsSound (send_shutdown id s)
      → (s.threads id).phase ≡ removed
      → IsExclusive s
      → IsExclusive (send_shutdown id s)
  unfolding send_shutdown
  send_shutdown-IsExclusive id s sound h v = record {
    sound = sound;
    listed = v.listed;
    keyed = v.keyed;
    used = λ j made e. ground (arith, v.used j made, h);
    unmade = λ j made. ground (arith, v.unmade j made, h);
    done = λ j e. ground (arith, v.done j);
    single = λ a b ha hb ja jb e. v.single a b ha hb (unjoined a ja) (unjoined b jb) e;
  }
    where
      unjoined :
          (j : ℕ)
          → is_joined ((send_shutdown id s).threads j).phase ≡ false
          → is_joined (s.threads j).phase ≡ false
      unjoined j e = ground (arith, h)

  pub join_thread-IsExclusive :
      (id : ℕ) (s : System V W)
      → IsSound (join_thread id s)
      → (s.threads id).phase ≡ stopping
      → (s.threads id).ended ≡ true
      → IsExclusive s
      → IsExclusive (join_thread id s)
  unfolding join_thread
  join_thread-IsExclusive id s sound h ended v = record {
    sound = sound;
    listed = v.listed;
    keyed = v.keyed;
    used = λ j made e. ground (arith, v.used j made, h);
    unmade = λ j made. ground (arith, v.unmade j made, h);
    done = λ j e. ground (arith, v.done j, ended);
    single = λ a b ha hb ja jb e. v.single a b ha hb (unjoined a ja) (unjoined b jb) e;
  }
    where
      unjoined :
          (j : ℕ)
          → is_joined ((join_thread id s).threads j).phase ≡ false
          → is_joined (s.threads j).phase ≡ false
      unjoined j e = ground (arith, h)
