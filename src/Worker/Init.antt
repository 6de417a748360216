-- ===== src/Worker/Init.antt =====
-- `init_worker`: the isolate and the database are opened in the worker thread.
use chrondb.Base.{String, if◌then◌else◌, not, ok, err}
use chrondb.Base.Int.{is_nonneg, is_zero}
use chrondb.Error.{DbResult, open_failed, isolate_creation_failed}
use chrondb.Platform.{Platform}
use chrondb.Platform.Ffi.{CString, Created, Ptr, to, is_null}
use chrondb.Setup.Target.{Target}
use chrondb.Setup.Install.{Process}
use chrondb.Loader.{get_library}
use chrondb.Worker.State.{FfiWorkerState, c_string}

module _ (p : Platform) where
  open p use {World, native, read_string}

  -- The error text of a failed open: `String::new()` if the library has none.
  unfoldable pub open_error : Ptr → World → String × World
  open_error thread w =
      let (err_ptr, w1) = native.chrondb_last_error thread w in
      if is_null err_ptr
      then ("", w1)
      else let (s, w2) = read_string err_ptr w1 in (s, native.chrondb_free_string thread err_ptr w2)

  -- `if handle < 0 { .. }`: the isolate is torn down again.
  unfoldable pub abandon_open : Ptr → World → DbResult FfiWorkerState × World
  unfolding open_error
  abandon_open thread w =
      let (msg, w1) = open_error thread w in
      (err (open_failed msg), (native.graal_tear_down_isolate thread w1).1)

  -- `chrondb_open` and the test of its handle.
  unfoldable pub open_database :
      Created → CString → CString → World → DbResult FfiWorkerState × World
  unfolding abandon_open
  open_database c c_data c_index w =
      let (handle, w1) = native.chrondb_open c.thread (to c_data) (to c_index) w in
      if is_nonneg handle
      then (ok (record { isolate = c.isolate; thread = c.thread; handle = handle }), w1)
      else abandon_open c.thread w1

  -- What follows `graal_create_isolate`. A path with a NUL byte returns early.
  unfoldable pub after_create : Created → String → String → World → DbResult FfiWorkerState × World
  unfolding open_database
  after_create c data_path index_path w =
      if not (is_zero c.code) then (err isolate_creation_failed, w) else elim (c_string data_path) [
        | err e ↦ (err (open_failed e), w)
        | ok c_data ↦ elim (c_string index_path) [
          | err e ↦ (err (open_failed e), w)
          | ok c_index ↦ open_database c c_data c_index w
        ]
      ]

  -- `init_worker` behind `get_library`.
  unfoldable pub open_isolate : String → String → World → DbResult FfiWorkerState × World
  unfolding after_create
  open_isolate data_path index_path w =
      let (c, w1) = native.graal_create_isolate w in after_create c data_path index_path w1

  -- What follows `ffi::get_library()?`.
  unfoldable pub init_after :
      String
      → String
      → DbResult (Unit {0}) × Process World
      → DbResult FfiWorkerState × Process World
  unfolding open_isolate
  init_after data_path index_path (err e, s) = (err e, s)
  init_after data_path index_path (ok u, s) =
      let (r, w) = open_isolate data_path index_path s.world in (r, record s { world = w })

  -- `ChronDB::init_worker`
  unfoldable pub init_worker :
      Target → String → String → Process World → DbResult FfiWorkerState × Process World
  unfolding init_after
  init_worker target data_path index_path s =
      init_after data_path index_path (get_library p target s)
