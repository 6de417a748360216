-- ===== src/Registry/Sharing.antt =====
-- Which worker an open returns.
use chrondb.Base.{
  ℕ, ◌+◌, ◌<◌, String, Option, none, some, ◌≡◌, ◌≢◌, refl, ap, arith, ok, err, Option-cases, inl,
  inr,
}
use chrondb.Base.Paths.{path_buf}
use chrondb.Error.{ChronDbError, DbResult}
use chrondb.Registry.{
  Key, Workers, upgrade, finish_open, open_found, find_worker, create_new_worker, open_key,
  canonical_or, key_for, open_db,
}
use chrondb.Registry.Unique.{same_key_iff, IsRegistered, open_key-IsRegistered}

-- Where a worker of the key is in use, an open returns that worker, whatever a new thread would have
-- said, and whatever idle timeout is asked for: it makes no worker, one handle more holds that one, and
-- the worker keeps the idle timeout that it was made with.
pub open_key-shares :
    (k : Key) (idle : Option ℕ) (init : DbResult (Unit {0})) (s : Workers) (id : ℕ)
    → IsRegistered s
    → 0 < s.strong id
    → s.key_of id ≡ k
    → ((open_key k idle init s).0 ≡ ok id)
      × ((open_key k idle init s).1.next ≡ s.next)
      × ((open_key k idle init s).1.strong id ≡ s.strong id + 1)
      × ((open_key k idle init s).1.idle_of id ≡ s.idle_of id)
unfolding open_key open_found find_worker upgrade
open_key-shares k idle init s id v used e =
    let found : s.registry k ≡ some id = rw e at (v.registered id used) in ground (arith, found)

-- Where no worker of the key is in use, the look-up finds none and changes nothing.
pub find_worker-none :
    (k : Key) (s : Workers)
    → IsRegistered s
    → ((id : ℕ) → 0 < s.strong id → s.key_of id ≢ k)
    → find_worker k s ≡ (none, s)
unfolding find_worker upgrade
find_worker-none k s v unused = elim (Option-cases (s.registry k)) [
  | inl e ↦ rw (e, upgrade)
  | inr (id, e) ↦ rw (e, upgrade) (ground (arith, v.keyed k id e, unused id))
]

-- Where none is in use, an open returns a new worker that is registered under the key, held once, and
-- has the idle timeout that was asked for, or the error of its initialization, and then nothing has changed.
pub open_key-creates :
    (k : Key) (idle : Option ℕ) (e : ChronDbError) (s : Workers)
    → IsRegistered s
    → ((id : ℕ) → 0 < s.strong id → s.key_of id ≢ k)
    → (let q = open_key k idle (ok tt) s in
        (q.0 ≡ ok s.next)
        × (q.1.registry k ≡ some s.next)
        × (q.1.strong s.next ≡ 1)
        × (q.1.key_of s.next ≡ k)
        × (q.1.idle_of s.next ≡ idle))
      × (open_key k idle (err e) s ≡ (err e, s))
unfolding open_key open_found finish_open create_new_worker
open_key-creates k idle e s v unused =
    let missing = find_worker-none k s v unused in
    rw missing (ground (arith, same_key_iff k k), refl)

-- Two opens with different keys, of which no worker is in use, make two workers.
open_key-splits :
    (j k : Key) (idle : Option ℕ) (s : Workers)
    → IsRegistered s
    → j ≢ k
    → ((id : ℕ) → 0 < s.strong id → s.key_of id ≢ j)
    → ((id : ℕ) → 0 < s.strong id → s.key_of id ≢ k)
    → let first = open_key j idle (ok tt) s in
      let second = open_key k idle (ok tt) first.1 in
      (first.0 ≡ ok s.next)
      × (second.0 ≡ ok (s.next + 1))
      × (second.1.strong s.next ≡ 1)
      × (second.1.strong (s.next + 1) ≡ 1)
unfolding open_key open_found finish_open create_new_worker
open_key-splits j k idle s v differ no_j no_k =
    let made = (finish_open j (create_new_worker j idle (ok tt) s)).1 in
    let missing = find_worker-none j s v no_j in
    let kept : IsRegistered made = rw missing at (open_key-IsRegistered j idle (ok tt) s v) in
    let missing_too =
      find_worker-none k made kept (λ id used e. ground (arith, no_k id, differ, used, e)) in
    rw (missing, missing_too) (ground arith)

-- The key of an open is made from the paths as they are at that moment, and keys are compared by the
-- components of the paths. Where the canonical form of the data path changes to one with other
-- components between two opens of the same paths, as it does when the first one creates the directory
-- of a relative path, no worker of either key is in use before, and both initializations succeed: the
-- second open makes a second worker while the first one is in use.
pub open_db-splits :
    (before after : String → Option String) (data_path index_path : String) (s : Workers)
    → IsRegistered s
    → path_buf (canonical_or before data_path) ≢ path_buf (canonical_or after data_path)
    → ((id : ℕ) → 0 < s.strong id → s.key_of id ≢ key_for before data_path index_path)
    → ((id : ℕ) → 0 < s.strong id → s.key_of id ≢ key_for after data_path index_path)
    → let first = open_db before data_path index_path (ok tt) s in
      let second = open_db after data_path index_path (ok tt) first.1 in
      (first.0 ≡ ok s.next)
      × (second.0 ≡ ok (s.next + 1))
      × (second.1.strong s.next ≡ 1)
      × (second.1.strong (s.next + 1) ≡ 1)
unfolding open_db
open_db-splits before after data_path index_path s v differ no_before no_after =
    open_key-splits (key_for before data_path index_path) (key_for after data_path index_path) none
      s v (λ e. differ (ap (λ (k : Key). k.data_path) e)) no_before no_after
