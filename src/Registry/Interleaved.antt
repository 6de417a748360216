-- ===== src/Registry/Interleaved.antt =====
-- Any number of threads that open and drop handles, block by block, where no thread looks a key up while
-- another one is between its look-up of that key and its registration, or between the end of the last
-- handle of a worker of that key and the removal of its entry.
pub mod Blocks
pub mod Threads
use chrondb.Base.{
  ℕ, suc, ◌+◌, ◌-◌, ◌≤◌, ◌<◌, Bool, true, false, not, Option, none, some, ◌==◌, ◌≡◌, ◌≢◌, refl, sym,
  ◌∙◌, ap, ◌⊎◌, inl, inr, arith, ltb, eq_iff, Bool-cases, Option-cases, ok, err, if◌then◌else◌,
}
use chrondb.Error.{ChronDbError, DbResult}
use chrondb.Registry.Unique.{same_key_iff}
use chrondb.Registry.Steps.{
  Opening, looking, creating, registering, opened, failed, looked, created,
}
use chrondb.Registry.{
  Key, same_key, Workers, at_key, at_worker, no_workers, upgrade, find_worker, create_new_worker,
  register, unregister, release, drop_handle,
}

-- Every thread, by its number, with the key that it opens and how far it is; and the workers whose last
-- handle is gone and whose `drop` has not taken the lock.
pub record Opens : Type 0 where
  pub workers : Workers
  pub dropping : ℕ → Bool
  pub stage : ℕ → Opening
  pub wants : ℕ → Key

-- Between the look-up and the registration.
abbrev pub is_ahead : Opening → Bool
is_ahead looking = false
is_ahead creating = true
is_ahead (registering id) = true
is_ahead (opened id) = false
is_ahead (failed e) = false

abbrev pub is_settled : Opening → Bool
is_settled looking = false
is_settled creating = false
is_settled (registering id) = false
is_settled (opened id) = true
is_settled (failed e) = true

-- The state where the thread `t` has run a block.
abbrev pub after : ℕ → Opening × Workers → Opens → Opens
after t r s = record s { workers = r.1; stage = at_worker s.stage t r.0 }

abbrev pub asked : ℕ → Key → Opens → Opens
asked t k s = record s { stage = at_worker s.stage t looking; wants = at_worker s.wants t k }

-- A handle goes, and the last one of a worker leaves the worker to its `drop`.
abbrev pub released : ℕ → Opens → Opens
released id s =
    let workers = release id s.workers in
    record s {
      workers = workers;
      dropping = at_worker s.dropping id (not (ltb 0 (workers.strong id)));
    }

-- The `drop` of a worker has run its block.
abbrev pub removed : ℕ → Opens → Opens
removed id s = record s {
  workers = unregister id s.workers;
  dropping = at_worker s.dropping id false;
}

-- A block of any thread. A handle that is dropped was returned, and the new thread of a worker may
-- succeed or fail.
pub data Step : Opens → Opens → Type 0 where
  asks :
      (t : ℕ) (k : Key) (s s' : Opens)
      → is_settled (s.stage t) ≡ true
      → s' ≡ asked t k s
      → Step s s'
  looks :
      (t : ℕ) (s s' : Opens)
      → s.stage t ≡ looking
      → ((u : ℕ) → is_ahead (s.stage u) ≡ true → s.wants u ≢ s.wants t)
      → ((id : ℕ) → s.dropping id ≡ true → s.workers.key_of id ≢ s.wants t)
      → s' ≡ after t (looked (find_worker (s.wants t) s.workers)) s
      → Step s s'
  creates :
      (t : ℕ) (idle : Option ℕ) (init : DbResult (Unit {0})) (s s' : Opens)
      → s.stage t ≡ creating
      → s' ≡ after t (created (create_new_worker (s.wants t) idle init s.workers)) s
      → Step s s'
  registers :
      (t id : ℕ) (s s' : Opens)
      → s.stage t ≡ registering id
      → s' ≡ after t (opened id, register (s.wants t) id s.workers) s
      → Step s s'
  releases :
      (id : ℕ) (s s' : Opens)
      → 0 < s.workers.strong id
      → ((t : ℕ) → s.stage t ≢ registering id)
      → s' ≡ released id s
      → Step s s'
  removes : (id : ℕ) (s s' : Opens) → s.dropping id ≡ true → s' ≡ removed id s → Step s s'

-- A worker in use is registered, or a thread is about to register it, alone with its key; and a worker
-- that is being dropped shares its key with no worker in use and with no thread that is ahead.
pub record IsSerial (s : Opens) : Type 0 where
  pub registered :
      (id : ℕ)
      → 0 < s.workers.strong id
      → (s.workers.registry (s.workers.key_of id) ≡ some id)
        ⊎ ((t : ℕ) × (s.stage t ≡ registering id))
  pub keyed :
      (k : Key) (id : ℕ)
      → s.workers.registry k ≡ some id
      → (s.workers.key_of id ≡ k) × (id < s.workers.next)
  pub fresh : (id : ℕ) → s.workers.next ≤ id → s.workers.strong id ≡ 0
  pub alone :
      (t id : ℕ)
      → is_ahead (s.stage t) ≡ true
      → 0 < s.workers.strong id
      → s.workers.key_of id ≡ s.wants t
      → s.stage t ≡ registering id
  pub held :
      (t id : ℕ)
      → s.stage t ≡ registering id
      → (0 < s.workers.strong id) × (s.workers.key_of id ≡ s.wants t)
  pub one :
      (t u : ℕ)
      → is_ahead (s.stage t) ≡ true
      → is_ahead (s.stage u) ≡ true
      → s.wants t ≡ s.wants u
      → t ≡ u
  pub unused : (id : ℕ) → s.dropping id ≡ true → (s.workers.strong id ≡ 0) × (id < s.workers.next)
  pub apart :
      (id j : ℕ)
      → s.dropping id ≡ true
      → 0 < s.workers.strong j
      → s.workers.key_of id ≢ s.workers.key_of j
  pub aside :
      (id t : ℕ)
      → s.dropping id ≡ true
      → is_ahead (s.stage t) ≡ true
      → s.workers.key_of id ≢ s.wants t

-- What the blocks reach from a process with no workers.
pub data Reachable : Opens → Type 0 where
  starts :
      (s : Opens)
      → s.workers ≡ no_workers
      → ((id : ℕ) → s.dropping id ≡ false)
      → ((t : ℕ) → is_settled (s.stage t) ≡ true)
      → Reachable s
  steps : {s s' : Opens} → Reachable s → Step s s' → Reachable s'
