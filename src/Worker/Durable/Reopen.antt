-- ===== src/Worker/Durable/Reopen.antt =====
-- The closing and the reopening of the isolate keep the contents.

use chrondb.Base.{String, none, ◌≡◌, refl, arith, ok, err}
use chrondb.Base.Text.{nul_position}
use chrondb.Error.{DbResult}
use chrondb.Platform.{Platform}
use chrondb.Setup.Target.{Target}
use chrondb.Setup.Install.{Process, ensure_library_installed}
use chrondb.Loader.{load_once, get_library}
use chrondb.Worker.State.{FfiWorkerState, c_string}
use chrondb.Worker.Init.{open_database, after_create, open_isolate, init_after, init_worker}
use chrondb.Worker.Durable.Session.{HasLibrary}
use chrondb.Worker.Durable.Recoverable.{IsRecoverable}
use chrondb.Worker.Durable.{Relation, IsFunctional, IsDurable}

module _ (p : Platform) (target : Target) (data_path index_path : String)
    (data_free : nul_position data_path ≡ none) (index_free : nul_position index_path ≡ none) where
  open p use {World, native, os}

  module _ (R : Relation p) (Closed : World → FfiWorkerState → World → Type 0)
      (f : IsFunctional p R) (d : IsDurable p R Closed data_path index_path) where
    -- Openings that succeed are openings that may fail.
    pub IsDurable-IsRecoverable : IsRecoverable p R Closed data_path index_path
    IsDurable-IsRecoverable = record {
      has_thread = d.has_thread;
      has_handle = d.has_handle;
      closes = d.closes;
      unlocks = d.unlocks;
      fails_to_create = λ su x y c e. absurd (ground (arith, e, d.creates su x y c));
      opens = λ su x y c e. (d.opens su x y c).1;
      fails_to_open = λ su x y c e. absurd (ground (arith, e, (d.opens su x y c).0));
    }

    -- The worker that an initialization gives, in the world behind it.
    abbrev pub Reopened : DbResult FfiWorkerState × Process World → FfiWorkerState → World → Type 0
    Reopened (ok st, s) su y = HasLibrary s × R st s.world su y
    Reopened (err e, s) su y = ⊥

    get_library-loaded : (s : Process World) → HasLibrary s → get_library p target s ≡ (ok tt, s)
    unfolding get_library load_once ensure_library_installed
    get_library-loaded s l = ground (arith, l)

    open_isolate-Opens :
        (su : FfiWorkerState) (x y : World)
        → Closed x su y
        → let q = open_isolate p data_path index_path x in
          (st : FfiWorkerState) × (q.0 ≡ ok st) × R st q.1 su y
    unfolding open_isolate after_create open_database c_string
    open_isolate-Opens su x y c =
        rw (d.creates su x y c, data_free, index_free, (d.opens su x y c).0)
          (_, refl, (d.opens su x y c).1)

    pub init_worker-Reopened :
        (su : FfiWorkerState) (s : Process World) (y : World)
        → HasLibrary s
        → Closed s.world su y
        → Reopened (init_worker p target data_path index_path s) su y
    unfolding init_worker init_after
    init_worker-Reopened su s y l c =
        let o = open_isolate-Opens su s.world y c in
        rw (get_library-loaded s l, init_after, o.1) (l, o.2)
