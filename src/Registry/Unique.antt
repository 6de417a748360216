-- ===== src/Registry/Unique.antt =====
-- Handles are opened and dropped one at a time: a path pair has at most one worker that is in use.
use chrondb.Base.{
  ℕ, ◌≤◌, ◌<◌, true, Option, none, some, ◌≡◌, ◌≢◌, refl, ◌↔◌, arith, ltb, Bool-cases, inl, inr, ok,
  err,
}
use chrondb.Base.Paths.{same_path_iff}
use chrondb.Error.{DbResult}
use chrondb.Registry.{
  Key, same_key, Workers, no_workers, upgrade, finish_open, open_found, find_worker,
  create_new_worker, open_key, drop_handle,
}

pub same_key_iff : (a b : Key) → (same_key a b ≡ true) ↔ (a ≡ b)
same_key_iff a b =
    ground (arith, same_path_iff a.data_path b.data_path, same_path_iff a.index_path b.index_path)

-- A worker in use is the registered one of its key, a registered worker has that key, and workers that
-- were not made yet are not in use.
pub record IsRegistered (s : Workers) : Type 0 where
  pub registered : (id : ℕ) → 0 < s.strong id → s.registry (s.key_of id) ≡ some id
  pub keyed : (k : Key) (id : ℕ) → s.registry k ≡ some id → (s.key_of id ≡ k) × (id < s.next)
  pub fresh : (id : ℕ) → s.next ≤ id → s.strong id ≡ 0

pub no_workers-IsRegistered : IsRegistered no_workers
no_workers-IsRegistered = record {
  registered = λ id h. absurd (omega arith);
  keyed = λ k id h. cc;
  fresh = λ id h. refl;
}

-- Two workers that are in use have different keys.
pub IsRegistered-unique :
    (s : Workers) (a b : ℕ)
    → IsRegistered s
    → 0 < s.strong a
    → 0 < s.strong b
    → s.key_of a ≡ s.key_of b
    → a ≡ b
IsRegistered-unique s a b v ha hb e = cc (v.registered a ha, v.registered b hb)

upgrade-IsRegistered : (o : Option ℕ) (s : Workers) → IsRegistered s → IsRegistered (upgrade o s).1
unfolding upgrade
upgrade-IsRegistered none s v = v
upgrade-IsRegistered (some id) s v = elim (Bool-cases (ltb 0 (s.strong id))) [
  | inl live ↦
      rw (live, upgrade)
        (record {
          registered = λ j h. ground (arith, v.registered j);
          keyed = v.keyed;
          fresh = λ j h. ground (arith, v.fresh j h, v.fresh id);
        })
  | inr dead ↦ rw (dead, upgrade) v
]

-- A worker that is made and registered, where no worker of its key is in use.
add_worker-IsRegistered :
    (k : Key) (idle : Option ℕ) (s : Workers)
    → IsRegistered s
    → ((id : ℕ) → 0 < s.strong id → s.key_of id ≢ k)
    → IsRegistered (finish_open k (create_new_worker k idle (ok tt) s)).1
unfolding finish_open create_new_worker
add_worker-IsRegistered k idle s v unused = record {
  registered = λ id h.
      ground (arith, v.registered id, unused id, same_key_iff k (s.key_of id), same_key_iff k k);
  keyed = λ j id h. ground (arith, v.keyed j id, same_key_iff k j);
  fresh = λ id h. ground (arith, v.fresh id);
}

-- A registered worker is in use, or no worker of the key is.
unused_of_none :
    (k : Key) (s : Workers)
    → IsRegistered s
    → (find_worker k s).0 ≡ none
    → (id : ℕ) → 0 < s.strong id
    → s.key_of id ≢ k
unfolding find_worker upgrade
unused_of_none k s v missing id used e =
    let found : s.registry k ≡ some id = rw e at (v.registered id used) in ground (arith, found)

upgrade-none : (o : Option ℕ) (s : Workers) → (upgrade o s).0 ≡ none → (upgrade o s).1 ≡ s
unfolding upgrade
upgrade-none o s h = ground arith

open_found-IsRegistered :
    (k : Key) (idle : Option ℕ) (init : DbResult (Unit {0})) (q : Option ℕ × Workers)
    → IsRegistered q.1
    → (q.0 ≡ none → (id : ℕ) → 0 < q.1.strong id → q.1.key_of id ≢ k)
    → IsRegistered (open_found k idle init q).1
unfolding open_found finish_open create_new_worker
open_found-IsRegistered k idle init (some id, s) v unused = v
open_found-IsRegistered k idle (ok u) (none, s) v unused =
    add_worker-IsRegistered k idle s v (unused refl)
open_found-IsRegistered k idle (err e) (none, s) v unused = v

-- An open, on every branch, keeps each path pair to one worker in use.
pub open_key-IsRegistered :
    (k : Key) (idle : Option ℕ) (init : DbResult (Unit {0})) (s : Workers)
    → IsRegistered s
    → IsRegistered (open_key k idle init s).1
unfolding open_key find_worker
open_key-IsRegistered k idle init s v =
    open_found-IsRegistered k idle init (upgrade (s.registry k) s)
      (upgrade-IsRegistered (s.registry k) s v)
      (λ missing. rw (upgrade-none (s.registry k) s missing) (unused_of_none k s v missing))

-- A dropped handle, on both branches, keeps each path pair to one worker in use.
pub drop_handle-IsRegistered :
    (id : ℕ) (s : Workers) → IsRegistered s → 0 < s.strong id → IsRegistered (drop_handle id s)
unfolding drop_handle
drop_handle-IsRegistered id s v used = record {
  registered = λ j h.
      ground (arith, v.registered j, v.registered id, same_key_iff (s.key_of id) (s.key_of j));
  keyed = λ k j h. ground (arith, v.keyed k j, same_key_iff (s.key_of id) k);
  fresh = λ j h. ground (arith, v.fresh j, v.fresh id);
}

-- Opens and drops of handles, one at a time. A handle that is dropped was held.
pub data Call : Workers → Workers → Type 0 where
  opens :
      (k : Key) (idle : Option ℕ) (init : DbResult (Unit {0})) (s t : Workers)
      → t ≡ (open_key k idle init s).1
      → Call s t
  drops : (id : ℕ) (s t : Workers) → 0 < s.strong id → t ≡ drop_handle id s → Call s t

pub data History : Workers → Type 0 where
  begins : History no_workers
  continues : {s t : Workers} → History s → Call s t → History t

Call-IsRegistered : {s t : Workers} → Call s t → IsRegistered s → IsRegistered t
Call-IsRegistered (opens k idle init s t e) v = rw e (open_key-IsRegistered k idle init s v)
Call-IsRegistered (drops id s t used e) v = rw e (drop_handle-IsRegistered id s v used)

pub History-IsRegistered : {s : Workers} → History s → IsRegistered s
History-IsRegistered begins = no_workers-IsRegistered
History-IsRegistered (continues h c) = Call-IsRegistered c (History-IsRegistered h)

-- After any history of opens, failing ones included, and of drops, which come one at a time, two
-- workers that are in use have different keys.
pub History-unique :
    {s : Workers}
    → History s
    → (a b : ℕ) → 0 < s.strong a
    → 0 < s.strong b
    → s.key_of a ≡ s.key_of b
    → a ≡ b
History-unique {s} h a b = IsRegistered-unique s a b (History-IsRegistered h)
