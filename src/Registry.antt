-- ===== src/Registry.antt =====
-- The registry of shared workers, and the opening and dropping of handles (bindings/rust/src/lib.rs).
-- A worker is known by a number; an `Arc<SharedWorker>` is its number, and a `Weak` too.
pub mod Unique
pub mod Sharing
pub mod Steps
pub mod Races
pub mod Interleaved
use chrondb.Base.{
  ℕ, suc, ◌+◌, ◌-◌, String, ◌<>◌, Bool, ◌&&◌, Option, none, some, ◌==◌, List, [], ltb,
  if◌then◌else◌, ok, err,
}
use chrondb.Base.Paths.{PathBuf, same_path, path_buf}
use chrondb.Error.{DbResult}

-- `(PathBuf, PathBuf)`
pub record Key : Type 0 where
  pub data_path : PathBuf
  pub index_path : PathBuf

abbrev pub same_key : Key → Key → Bool
same_key a b = same_path a.data_path b.data_path && same_path a.index_path b.index_path

-- `WORKER_REGISTRY`, with the strong count, the key and the idle timeout of each worker that was
-- made, and the number of the next one.
pub record Workers : Type 0 where
  pub registry : Key → Option ℕ
  pub strong : ℕ → ℕ
  pub key_of : ℕ → Key
  pub idle_of : ℕ → Option ℕ
  pub next : ℕ

abbrev pub at_key : {A : Type 0} → (Key → A) → Key → A → Key → A
at_key f k a j = if same_key k j then a else f j

abbrev pub at_worker : {A : Type 0} → (ℕ → A) → ℕ → A → ℕ → A
at_worker f i a j = if i == j then a else f j

-- Before the first open of a process.
abbrev pub no_workers : Workers
no_workers = record {
  registry = λ k. none;
  strong = λ i. 0;
  key_of = λ i. record { data_path = []; index_path = [] };
  idle_of = λ i. none;
  next = 0;
}

-- `weak.upgrade()`
unfoldable pub upgrade : Option ℕ → Workers → Option ℕ × Workers
upgrade none s = (none, s)
upgrade (some id) s =
    if ltb 0 (s.strong id)
    then (some id, record s { strong = at_worker s.strong id (s.strong id + 1) })
    else (none, s)

-- The first block of `open`, under the lock: an existing worker is shared.
unfoldable pub find_worker : Key → Workers → Option ℕ × Workers
unfolding upgrade
find_worker k s = upgrade (s.registry k) s

-- `create_new_worker`, by what the new thread says of its initialization.
unfoldable pub create_new_worker :
    Key → Option ℕ → DbResult (Unit {0}) → Workers → DbResult ℕ × Workers
create_new_worker k idle_timeout (err e) s = (err e, s)
create_new_worker k idle_timeout (ok u) s = (
  ok s.next,
  record s {
    strong = at_worker s.strong s.next 1;
    key_of = at_worker s.key_of s.next k;
    idle_of = at_worker s.idle_of s.next idle_timeout;
    next = suc s.next;
  },
)

-- The last block of `open`, under the lock.
unfoldable pub register : Key → ℕ → Workers → Workers
register k id s = record s { registry = at_key s.registry k (some id) }

unfoldable pub finish_open : Key → DbResult ℕ × Workers → DbResult ℕ × Workers
unfolding register
finish_open k (err e, s) = (err e, s)
finish_open k (ok id, s) = (ok id, register k id s)

unfoldable pub open_found :
    Key → Option ℕ → DbResult (Unit {0}) → Option ℕ × Workers → DbResult ℕ × Workers
unfolding finish_open create_new_worker
open_found k idle_timeout init (some id, s) = (ok id, s)
open_found k idle_timeout init (none, s) = finish_open k (create_new_worker k idle_timeout init s)

-- The body of `open` and of `open_with_options` behind the key, when no other thread comes between its
-- blocks.
unfoldable pub open_key : Key → Option ℕ → DbResult (Unit {0}) → Workers → DbResult ℕ × Workers
unfolding open_found find_worker
open_key k idle_timeout init s = open_found k idle_timeout init (find_worker k s)

-- `fs::canonicalize(path).unwrap_or_else(|_| PathBuf::from(path))`, as a text.
abbrev pub canonical_or : (String → Option String) → String → String
canonical_or canonicalize path = elim (canonicalize path) [ none ↦ path | some c ↦ c ]

abbrev pub key_for : (String → Option String) → String → String → Key
key_for canonicalize data_path index_path = record {
  data_path = path_buf (canonical_or canonicalize data_path);
  index_path = path_buf (canonical_or canonicalize index_path);
}

-- `ChronDB::open_with_options`
unfoldable pub open_with_options :
    (String → Option String)
    → String
    → String
    → Option ℕ
    → DbResult (Unit {0})
    → Workers
    → DbResult ℕ × Workers
unfolding open_key
open_with_options canonicalize data_path index_path idle_timeout init s =
    open_key (key_for canonicalize data_path index_path) idle_timeout init s

-- `ChronDB::open`
unfoldable pub open_db :
    (String → Option String)
    → String
    → String
    → DbResult (Unit {0})
    → Workers
    → DbResult ℕ × Workers
unfolding open_key
open_db canonicalize data_path index_path init s =
    open_key (key_for canonicalize data_path index_path) none init s

-- `ChronDB::open_path`
unfoldable pub open_path :
    (String → Option String) → String → DbResult (Unit {0}) → Workers → DbResult ℕ × Workers
unfolding open_db
open_path canonicalize db_path init s =
    open_db canonicalize db_path (db_path <> "/.chrondb-index") init s

-- `ChronDBBuilder`
pub record Builder : Type 0 where
  pub data_path : String
  pub index_path : String
  pub idle_timeout : Option ℕ

-- `ChronDB::builder`
unfoldable pub builder : String → String → Builder
builder data_path index_path = record {
  data_path = data_path;
  index_path = index_path;
  idle_timeout = none;
}

-- `ChronDBBuilder::idle_timeout`, in nanoseconds.
unfoldable pub with_idle_timeout : ℕ → Builder → Builder
with_idle_timeout timeout b = record b { idle_timeout = some timeout }

-- `ChronDBBuilder::open`
unfoldable pub build :
    (String → Option String) → Builder → DbResult (Unit {0}) → Workers → DbResult ℕ × Workers
unfolding open_with_options
build canonicalize b init s =
    open_with_options canonicalize b.data_path b.index_path b.idle_timeout init s

-- The first block of `SharedWorker::drop`, under the lock.
unfoldable pub unregister : ℕ → Workers → Workers
unregister id s = record s { registry = at_key s.registry (s.key_of id) none }

-- A handle goes: its `Arc` does, and the last one drops the worker.
unfoldable pub release : ℕ → Workers → Workers
release id s = record s { strong = at_worker s.strong id (s.strong id - 1) }

unfoldable pub drop_handle : ℕ → Workers → Workers
unfolding unregister release
drop_handle id s = let s1 = release id s in if ltb 0 (s1.strong id) then s1 else unregister id s1
