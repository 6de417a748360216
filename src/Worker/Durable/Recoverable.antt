-- ===== src/Worker/Durable/Recoverable.antt =====
-- A library whose openings may fail, and then leave the contents as they were.

use chrondb.Base.{ℕ, String, true, false, none, ◌≡◌, inl, inr, arith, Bool-cases, ok, err}
use chrondb.Base.Text.{join, nul_position}
use chrondb.Base.Int.{is_nonneg, is_zero}
use chrondb.Error.{DbResult}
use chrondb.Platform.{Platform}
use chrondb.Platform.Ffi.{to, is_null}
use chrondb.Setup.Target.{Target}
use chrondb.Setup.Install.{Process, ensure_library_installed}
use chrondb.Loader.{load_once, get_library}
use chrondb.Worker.State.{FfiWorkerState, c_string, close}
use chrondb.Worker.Init.{
  open_error, abandon_open, open_database, after_create, open_isolate, init_after, init_worker,
}
use chrondb.Worker.Idle.{cleanup_stale_locks}
use chrondb.Worker.Idle.Cases.{unlocked}
use chrondb.Worker.Durable.Session.{HasLibrary}
use chrondb.Worker.Durable.{Relation}

module _ (p : Platform) where
  open p use {World, os, native}

  -- A session is on an isolate and a handle. The closing leaves the contents in the files, to which a
  -- stale lock does not belong. A new isolate opens them, or fails and leaves them.
  pub record IsRecoverable (R : Relation p) (Closed : World → FfiWorkerState → World → Type 0)
      (data_path index_path : String) : Type 0 where
    pub has_thread :
        (st su : FfiWorkerState) (x y : World) → R st x su y → is_null st.thread ≡ false
    pub has_handle :
        (st su : FfiWorkerState) (x y : World) → R st x su y → is_nonneg st.handle ≡ true
    pub closes :
        (st su : FfiWorkerState) (x y : World)
        → R st x su y
        → Closed
            (native.graal_tear_down_isolate st.thread
              (native.chrondb_close st.thread st.handle x).1).1
            su
            y
    pub unlocks :
        (su : FfiWorkerState) (x y : World)
        → Closed x su y
        → Closed (os.remove_file (join index_path "write.lock") x) su y
    pub fails_to_create :
        (su : FfiWorkerState) (x y : World)
        → Closed x su y
        → is_zero (native.graal_create_isolate x).0.code ≡ false
        → Closed (native.graal_create_isolate x).1 su y
    pub opens :
        (su : FfiWorkerState) (x y : World)
        → Closed x su y
        → let (c, x1) = native.graal_create_isolate x in
          let q =
            native.chrondb_open c.thread
              (to (record { text = data_path }))
              (to (record { text = index_path }))
              x1 in
          is_nonneg q.0 ≡ true
          → R (record { isolate = c.isolate; thread = c.thread; handle = q.0 }) q.1 su y
    pub fails_to_open :
        (su : FfiWorkerState) (x y : World)
        → Closed x su y
        → let (c, x1) = native.graal_create_isolate x in
          let q =
            native.chrondb_open c.thread
              (to (record { text = data_path }))
              (to (record { text = index_path }))
              x1 in
          is_nonneg q.0 ≡ false
          → Closed (native.graal_tear_down_isolate c.thread (open_error p c.thread q.1).1).1 su y

module _ (p : Platform) (target : Target) (data_path index_path : String)
    (data_free : nul_position data_path ≡ none) (index_free : nul_position index_path ≡ none)
    (R : Relation p) (Closed : p.World → FfiWorkerState → p.World → Type 0)
    (d : IsRecoverable p R Closed data_path index_path) where
  open p use {World, os, native}

  -- A worker on the contents, or none and the contents as they were.
  abbrev pub MayOpen : DbResult FfiWorkerState × World → FfiWorkerState → World → Type 0
  MayOpen (ok st, x) su y = R st x su y
  MayOpen (err e, x) su y = Closed x su y

  open_isolate-MayOpen :
      (su : FfiWorkerState) (x y : World)
      → Closed x su y
      → MayOpen (open_isolate p data_path index_path x) su y
  unfolding open_isolate after_create open_database abandon_open c_string
  open_isolate-MayOpen su x y c =
      let (created, x1) = native.graal_create_isolate x in
      let q =
        native.chrondb_open created.thread (to (record { text = data_path }))
          (to (record { text = index_path })) x1 in
      elim (Bool-cases (is_zero created.code)) [
        | inr bad ↦ rw bad (d.fails_to_create su x y c bad)
        | inl good ↦
            rw (good, data_free, index_free)
              (elim (Bool-cases (is_nonneg q.0)) [
                | inl up ↦ rw (open_database, up) (d.opens su x y c up)
                | inr down ↦ rw (open_database, down, abandon_open) (d.fails_to_open su x y c down)
              ])
      ]

  abbrev pub MayReopen : DbResult FfiWorkerState × Process World → FfiWorkerState → World → Type 0
  MayReopen q su y = HasLibrary q.1 × MayOpen (q.0, q.1.world) su y

  pub init_worker-MayReopen :
      (su : FfiWorkerState) (s : Process World) (y : World)
      → HasLibrary s
      → Closed s.world su y
      → MayReopen (init_worker p target data_path index_path s) su y
  unfolding init_worker init_after get_library load_once ensure_library_installed
  init_worker-MayReopen su s y l c =
      let got : get_library p target s ≡ (ok tt, s) = ground (arith, l) in
      rw (got, init_after) (l, open_isolate-MayOpen su s.world y c)

  pub close-Closed :
      (st su : FfiWorkerState) (x y : World) → R st x su y → Closed (close p st x).1 su y
  unfolding close
  close-Closed st su x y r =
      rw (d.has_handle st su x y r, d.has_thread st su x y r) (d.closes st su x y r)

  module _ (idle_timeout : ℕ) where
    pub unlocked-Closed :
        (su : FfiWorkerState) (s : Process World) (y : World)
        → Closed s.world su y
        → Closed (unlocked p target idle_timeout data_path index_path s).world su y
    unfolding cleanup_stale_locks
    unlocked-Closed su s y c =
        elim (Bool-cases (os.exists (join index_path "write.lock") s.world)) [
          | inl e ↦ rw e (d.unlocks su s.world y c)
          | inr e ↦ rw e c
        ]
