-- ===== src/Worker/Durable.antt =====
-- What the closing and reopening of the isolate relies on in the library: what a call returns depends on
-- the database's contents, which outlive the isolate. Two sessions, a worker and a world each, are
-- compared by a relation, which covers all that the results tell: the documents and their history, and
-- what the library reads of the clock for it. The library's last error is a static of the isolate and
-- ends with it, so the two sessions need not have the same one: it is the same only behind a call that
-- has just failed and set it, where the handler asks for it and so clears it. A relation for the
-- library as it is asks for the same contents, and for no last error between the commands.
pub mod Calls
pub mod Handlers
pub mod Session
pub mod Reopen
pub mod Transparent
pub mod Recoverable
pub mod Refusing
use chrondb.Base.{ℕ, zero, suc, String, Bool, true, false, Option, ◌≡◌}
use chrondb.Base.Text.{join}
use chrondb.Base.Int.{ℤ, pos, negsuc, is_nonneg, is_zero}
use chrondb.Platform.{Platform}
use chrondb.Platform.Ffi.{Ptr, CharPtr, CString, to, is_null}
use chrondb.Worker.State.{FfiWorkerState, get_last_error}

-- A document was deleted, or there was none.
abbrev pub tells : ℤ → Bool
tells (pos zero) = true
tells (pos (suc zero)) = true
tells (pos (suc (suc n))) = false
tells (negsuc n) = false

module _ (p : Platform) where
  open p use {World, os, native, read_string}

  -- Two sessions on databases with the same contents.
  abbrev pub Relation : Type 1
  Relation = FfiWorkerState → World → FfiWorkerState → World → Type 0

  -- The world behind the reading and freeing of a string.
  abbrev pub taken : FfiWorkerState → Ptr × World → World
  taken st q = native.chrondb_free_string st.thread q.0 (read_string q.0 q.1).1

  -- Two strings that say the same, or two that are null. Behind a null one a handler asks for the last
  -- error, where it `reports`, and finds the same in both, or it does not ask.
  pub record SameString (R : Relation) (reports : Bool) (st su : FfiWorkerState) (q r : Ptr × World)
      : Type 0 where
    pub same_null : is_null q.0 ≡ is_null r.0
    pub same_text : is_null q.0 ≡ false → (read_string q.0 q.1).0 ≡ (read_string r.0 r.1).0
    pub then_taken : is_null q.0 ≡ false → R st (taken st q) su (taken su r)
    pub then_null : reports ≡ false → is_null q.0 ≡ true → R st q.1 su r.1
    pub same_error :
        reports ≡ true
        → is_null q.0 ≡ true
        → (get_last_error p st q.1).0 ≡ (get_last_error p su r.1).0
    pub then_error :
        reports ≡ true
        → is_null q.0 ≡ true
        → R st (get_last_error p st q.1).1 su (get_last_error p su r.1).1

  -- Two codes that are the same. Behind one that tells no outcome a handler asks for the last error,
  -- and finds the same in both.
  pub record SameCode (R : Relation) (st su : FfiWorkerState) (q r : ℤ × World) : Type 0 where
    pub same_code : q.0 ≡ r.0
    pub then_code : tells q.0 ≡ true → R st q.1 su r.1
    pub same_error : tells q.0 ≡ false → (get_last_error p st q.1).0 ≡ (get_last_error p su r.1).0
    pub then_error :
        tells q.0 ≡ false → R st (get_last_error p st q.1).1 su (get_last_error p su r.1).1

  -- A call that returns a string, where its handler asks for the last error or not.
  abbrev pub Alike : Relation → Bool → (Ptr → ℤ → World → Ptr × World) → Type 0
  Alike R reports f =
      (st su : FfiWorkerState) (x y : World)
      → R st x su y
      → SameString R reports st su (f st.thread st.handle x) (f su.thread su.handle y)

  -- What the calls of the handlers do in two sessions on the same contents.
  pub record IsFunctional (R : Relation) : Type 0 where
    pub put : (a b c : CharPtr) → Alike R true (λ t h. native.chrondb_put t h a b c)
    pub get : (a b : CharPtr) → Alike R false (λ t h. native.chrondb_get t h a b)
    pub delete :
        (a b : CharPtr) (st su : FfiWorkerState) (x y : World)
        → R st x su y
        → SameCode R st su
            (native.chrondb_delete st.thread st.handle a b x)
            (native.chrondb_delete su.thread su.handle a b y)
    pub list_by_prefix :
        (a b : CharPtr) → Alike R false (λ t h. native.chrondb_list_by_prefix t h a b)
    pub list_by_table :
        (a b : CharPtr) → Alike R false (λ t h. native.chrondb_list_by_table t h a b)
    pub history : (a b : CharPtr) → Alike R false (λ t h. native.chrondb_history t h a b)
    pub query : (a b : CharPtr) → Alike R true (λ t h. native.chrondb_query t h a b)
    pub execute_sql : (a b : CharPtr) → Alike R true (λ t h. native.chrondb_execute_sql t h a b)
    pub setup_remote : (a : CharPtr) → Alike R true (λ t h. native.chrondb_setup_remote t h a)
    pub push : Alike R true (λ t h. native.chrondb_push t h)
    pub pull : Alike R true (λ t h. native.chrondb_pull t h)
    pub fetch : Alike R true (λ t h. native.chrondb_fetch t h)
    pub remote_status : Alike R true (λ t h. native.chrondb_remote_status t h)
    pub export_to : (a b : CharPtr) → Alike R true (λ t h. native.chrondb_export t h a b)
    pub create_backup : (a b : CharPtr) → Alike R true (λ t h. native.chrondb_create_backup t h a b)
    pub restore_backup :
        (a b : CharPtr) → Alike R true (λ t h. native.chrondb_restore_backup t h a b)
    pub export_snapshot :
        (a b : CharPtr) → Alike R true (λ t h. native.chrondb_export_snapshot t h a b)
    pub import_snapshot :
        (a b : CharPtr) → Alike R true (λ t h. native.chrondb_import_snapshot t h a b)

  -- A session is on an isolate and a handle. The closing leaves the contents in the files, to which a
  -- stale lock does not belong, and a new isolate opens them.
  pub record IsDurable (R : Relation) (Closed : World → FfiWorkerState → World → Type 0)
      (data_path index_path : String) : Type 0 where
    pub has_thread :
        (st su : FfiWorkerState) (x y : World) → R st x su y → is_null st.thread ≡ false
    pub has_handle :
        (st su : FfiWorkerState) (x y : World) → R st x su y → is_nonneg st.handle ≡ true
    pub closes :
        (st su : FfiWorkerState) (x y : World)
        → R st x su y
        → Closed
            (native.graal_tear_down_isolate st.thread
              (native.chrondb_close st.thread st.handle x).1).1
            su
            y
    pub unlocks :
        (su : FfiWorkerState) (x y : World)
        → Closed x su y
        → Closed (os.remove_file (join index_path "write.lock") x) su y
    pub creates :
        (su : FfiWorkerState) (x y : World)
        → Closed x su y
        → is_zero (native.graal_create_isolate x).0.code ≡ true
    pub opens :
        (su : FfiWorkerState) (x y : World)
        → Closed x su y
        → let (c, x1) = native.graal_create_isolate x in
          let q =
            native.chrondb_open c.thread
              (to (record { text = data_path }))
              (to (record { text = index_path }))
              x1 in
          (is_nonneg q.0 ≡ true)
          × R (record { isolate = c.isolate; thread = c.thread; handle = q.0 }) q.1 su y
