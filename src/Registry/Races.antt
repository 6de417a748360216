-- ===== src/Registry/Races.antt =====
-- Two threads that open the same paths at once: the lock is held in each block of `open`, and not from
-- one to the next.
use chrondb.Base.{
  ℕ, suc, ◌<◌, Bool, true, false, Option, none, some, ok, List, [], ◌∷◌, ◌≡◌, ◌≢◌, arith,
}
use chrondb.Registry.Unique.{same_key_iff, IsRegistered}
use chrondb.Registry.Sharing.{find_worker-none}
use chrondb.Registry.Steps.{Opening, looking, opened, looked, created, advance}
use chrondb.Registry.{
  drop_handle, Key, Workers, upgrade, find_worker, create_new_worker, release, unregister, register,
  open_key, open_found, finish_open,
}

-- Two opens of `k`, and whose block comes next: the first one's at `true`.
unfoldable pub race : Key → List Bool → Opening → Opening → Workers → Opening × Opening × Workers
race k [] a b s = (a, b, s)
race k (true ∷ rest) a b s = let (a', s') = advance k a s in race k rest a' b s'
race k (false ∷ rest) a b s = let (b', s') = advance k b s in race k rest a b' s'

-- One open after the other, and the two in step.
abbrev pub in_turn : List Bool
in_turn = true ∷ true ∷ true ∷ false ∷ false ∷ false ∷ []

abbrev pub in_step : List Bool
in_step = true ∷ false ∷ true ∷ false ∷ true ∷ false ∷ []

module _ (k : Key) (s : Workers) (v : IsRegistered s)
    (unused : (id : ℕ) → 0 < s.strong id → s.key_of id ≢ k) where
  -- One open behind the other: both return one worker, which is held twice.
  pub race-in_turn :
      let r = race k in_turn looking looking s in
      (r.0 ≡ opened s.next)
      × (r.1 ≡ opened s.next)
      × (r.2.strong s.next ≡ 2)
      × (r.2.next ≡ suc s.next)
  unfolding race advance looked created create_new_worker register find_worker upgrade
  race-in_turn = rw (find_worker-none k s v unused) (ground (arith, same_key_iff k k))

  -- The two in step: each makes a worker of the same key, and both workers are in use. When the first
  -- one's handle is dropped, the registry has no worker of the key, and the other is still in use.
  pub race-in_step :
      let r = race k in_step looking looking s in
      let dropped = drop_handle s.next r.2 in
      (r.0 ≡ opened s.next)
      × (r.1 ≡ opened (suc s.next))
      × (r.2.strong s.next ≡ 1)
      × (r.2.strong (suc s.next) ≡ 1)
      × (r.2.key_of s.next ≡ r.2.key_of (suc s.next))
      × (dropped.registry k ≡ none)
      × (dropped.strong (suc s.next) ≡ 1)
  unfolding race advance looked created create_new_worker register drop_handle release unregister
  race-in_step =
      let missing = find_worker-none k s v unused in
      rw (missing, looked, missing) (ground (arith, same_key_iff k k))

-- The last handle of a registered worker of `k` goes, and before its `drop` has the lock another thread
-- opens `k`: it finds no worker in use and makes and registers a new one. When the `drop` runs, the
-- registry has no worker of the key, and the new one is still in use.
pub open_key-removed :
    (k : Key) (idle : Option ℕ) (id : ℕ) (s : Workers)
    → IsRegistered s
    → s.strong id ≡ 1
    → s.key_of id ≡ k
    → let gone = release id s in
      let opened = open_key k idle (ok tt) gone in
      let dropped = unregister id opened.1 in
      (drop_handle id s ≡ unregister id gone)
      × (opened.0 ≡ ok s.next)
      × (opened.1.registry k ≡ some s.next)
      × (dropped.registry k ≡ none)
      × (dropped.key_of s.next ≡ k)
      × (dropped.strong s.next ≡ 1)
unfolding drop_handle release unregister open_key find_worker upgrade open_found create_new_worker
    finish_open register
open_key-removed k idle id s v once e =
    let found : s.registry k ≡ some id = rw e at (v.registered id (rw once (omega arith))) in
    ground (arith, found, v.fresh s.next, v.keyed k id found, same_key_iff k k)
