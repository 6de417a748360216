-- ===== src/Tests/Registry.antt =====
-- The registry of workers.
use chrondb.Base.{
  true, false, ℕ, ◌+◌, ◌<◌, String, Option, none, some, ◌≡◌, ◌≢◌, refl, [], ◌∷◌, arith, ok, err,
  eq_iff,
}
use chrondb.Base.Paths.{path_buf, split_names, prefixed, from_names, normal_names}
use chrondb.Error.{isolate_creation_failed}
use chrondb.Registry.{
  find_worker, create_new_worker, upgrade, Key, Workers, no_workers, open_key, canonical_or,
  open_db, drop_handle, release, unregister,
}
use chrondb.Registry.Unique.{
  History, begins, continues, opens, no_workers-IsRegistered, History-IsRegistered,
}
use chrondb.Registry.Sharing.{open_key-shares, open_key-creates, open_db-splits}
use chrondb.Registry.Steps.{looking, opened, failed, looked, created}
use chrondb.Registry.Interleaved.{
  Opens, is_ahead, after, asked, asks, looks, creates, Reachable, starts, steps,
}
use chrondb.Registry.Interleaved.Threads.{Reachable-unique}
use chrondb.Registry.Races.{race, in_step, race-in_step, open_key-removed}

abbrev key : Key
key = record { data_path = "/" ∷ "data" ∷ []; index_path = "/" ∷ "index" ∷ [] }

-- One open of the key.
abbrev one_open : Workers
one_open = (open_key key none (ok tt) no_workers).1

one_open-History : History one_open
one_open-History = continues begins (opens key none (ok tt) no_workers one_open refl)

one_open-used : one_open.strong 0 ≡ 1
unfolding open_key
one_open-used = refl

one_open-key : one_open.key_of 0 ≡ key
unfolding open_key
one_open-key = refl

open_key-shares_example :
    let q = open_key key (some 5) (err isolate_creation_failed) one_open in
    (q.0 ≡ ok 0)
    × (q.1.next ≡ one_open.next)
    × (q.1.strong 0 ≡ one_open.strong 0 + 1)
    × (q.1.idle_of 0 ≡ one_open.idle_of 0)
open_key-shares_example =
    open_key-shares key (some 5) (err isolate_creation_failed) one_open 0
      (History-IsRegistered one_open-History) (rw one_open-used (omega arith)) one_open-key

none_used : (id : ℕ) → 0 < no_workers.strong id → no_workers.key_of id ≢ key
none_used id h = absurd (omega arith)

open_key-creates_example :
    (let q = open_key key (some 5) (ok tt) no_workers in
      (q.0 ≡ ok 0)
      × (q.1.registry key ≡ some 0)
      × (q.1.strong 0 ≡ 1)
      × (q.1.key_of 0 ≡ key)
      × (q.1.idle_of 0 ≡ some 5))
    × (open_key key (some 5) (err isolate_creation_failed) no_workers
        ≡ (err isolate_creation_failed, no_workers))
open_key-creates_example =
    open_key-creates key (some 5) isolate_creation_failed no_workers no_workers-IsRegistered
      none_used

-- A separator at the end, a doubled one and a `.` between make no other path; a `.` at the head does.
path_buf_tests :
    (path_buf "/a/b/" ≡ path_buf "/a/b")
    × (path_buf "/a//./b" ≡ "/" ∷ "a" ∷ "b" ∷ [])
    × (path_buf "./data" ≡ "." ∷ "data" ∷ [])
    × (path_buf "" ≡ [])
unfolding path_buf split_names from_names normal_names prefixed
path_buf_tests = (refl, refl, refl, refl)

-- A relative path, before and after its directory is there.
abbrev missing : String → Option String
missing path = none

abbrev present : String → Option String
present path = some "/home/u/data"

canonical-differ : path_buf (canonical_or missing "data") ≢ path_buf (canonical_or present "data")
unfolding path_buf split_names prefixed from_names normal_names
canonical-differ e = absurd (ground (arith, e, eq_iff "data" "/"))

no_worker_used : (k : Key) (id : ℕ) → 0 < no_workers.strong id → no_workers.key_of id ≢ k
no_worker_used k id h = absurd (omega arith)

open_db-splits_example :
    let first = open_db missing "data" "index" (ok tt) no_workers in
    let second = open_db present "data" "index" (ok tt) first.1 in
    (first.0 ≡ ok 0) × (second.0 ≡ ok 1) × (second.1.strong 0 ≡ 1) × (second.1.strong 1 ≡ 1)
open_db-splits_example =
    open_db-splits missing present "data" "index" no_workers no_workers-IsRegistered
      canonical-differ (no_worker_used _) (no_worker_used _)

race-in_step_example :
    let r = race key in_step looking looking no_workers in
    let dropped = drop_handle 0 r.2 in
    (r.0 ≡ opened 0)
    × (r.1 ≡ opened 1)
    × (r.2.strong 0 ≡ 1)
    × (r.2.strong 1 ≡ 1)
    × (r.2.key_of 0 ≡ r.2.key_of 1)
    × (dropped.registry key ≡ none)
    × (dropped.strong 1 ≡ 1)
race-in_step_example = race-in_step key no_workers no_workers-IsRegistered none_used

open_key-removed_example :
    let gone = release 0 one_open in
    let opened = open_key key none (ok tt) gone in
    let dropped = unregister 0 opened.1 in
    (drop_handle 0 one_open ≡ unregister 0 gone)
    × (opened.0 ≡ ok 1)
    × (opened.1.registry key ≡ some 1)
    × (dropped.registry key ≡ none)
    × (dropped.key_of 1 ≡ key)
    × (dropped.strong 1 ≡ 1)
unfolding open_key
open_key-removed_example =
    open_key-removed key none 0 one_open (History-IsRegistered one_open-History) one_open-used
      one_open-key

-- A thread that opens the key, block by block, and is about to register its worker.
abbrev before : Opens
before = record {
  workers = no_workers;
  dropping = λ id. false;
  stage = λ t. failed isolate_creation_failed;
  wants = λ t. key;
}

abbrev asking : Opens
asking = asked 0 key before

abbrev looking_up : Opens
looking_up = after 0 (looked (find_worker key no_workers)) asking

abbrev made : Opens
made = after 0 (created (create_new_worker key none (ok tt) looking_up.workers)) looking_up

asking-gone : (id : ℕ) → asking.dropping id ≡ true → asking.workers.key_of id ≢ asking.wants 0
asking-gone id h = absurd (ground (arith, h))

asking-clear : (u : ℕ) → is_ahead (asking.stage u) ≡ true → asking.wants u ≢ asking.wants 0
asking-clear u h = absurd (ground (arith, h))

made-Reachable : Reachable made
unfolding looked find_worker upgrade created create_new_worker
made-Reachable =
    steps
      (steps
        (steps (starts before refl (λ id. refl) (λ t. refl)) (asks 0 key before asking refl refl))
        (looks 0 asking looking_up refl asking-clear asking-gone refl))
      (creates 0 none (ok tt) looking_up made refl refl)

made-used : made.workers.strong 0 ≡ 1
unfolding looked find_worker upgrade created create_new_worker
made-used = refl

Reachable-unique_example : ◌≡◌ {A = ℕ} 0 0
Reachable-unique_example =
    Reachable-unique 0 0 made-Reachable (rw made-used (omega arith)) (rw made-used (omega arith))
      refl
