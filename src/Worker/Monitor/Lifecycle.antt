-- ===== src/Worker/Monitor/Lifecycle.antt =====
-- From the creation of the isolate to the end of the worker thread, under the observer.
use chrondb.Base.{
  ℕ, String, true, false, none, some, ◌≡◌, arith, Bool-cases, inl, inr, ok, err, ◌==◌,
}
use chrondb.Base.Int.{is_nonneg, is_zero}
use chrondb.Base.Text.{nul_position}
use chrondb.Error.{DbResult}
use chrondb.Platform.{Platform}
use chrondb.Platform.Ffi.{Ptr, CString, Created, to, is_null}
use chrondb.Worker.State.{FfiWorkerState, c_string, close}
use chrondb.Worker.Init.{open_error, abandon_open, after_create, open_database, open_isolate}
use chrondb.Worker.Monitor.{
  Monitor, on_create, on_tear_down, on_open, on_close, on_thread_call, on_string, on_read, on_free,
  watch, at_rest, serving,
}
use chrondb.Worker.Monitor.Keeps.{same_refl}

-- The text has no NUL byte.
abbrev pub IsNulFree : String → Type 0
IsNulFree s = nul_position s ≡ none

-- What GraalVM documents of a successful creation: the thread that it writes is not null.
abbrev pub CreatesThreads : Platform → Type 0
CreatesThreads p =
    (w : p.World)
    → is_zero (p.native.graal_create_isolate w).0.code ≡ true
    → is_null (p.native.graal_create_isolate w).0.thread ≡ false

-- The worker holds an isolate and a handle, and the observer agrees.
pub record IsServing (st : FfiWorkerState) (m : Monitor) : Type 0 where
  pub observed : m ≡ serving st.thread st.handle
  pub has_thread : is_null st.thread ≡ false
  pub has_handle : is_nonneg st.handle ≡ true

-- After an initialization: the database is open, or nothing is held.
abbrev pub Opened : DbResult FfiWorkerState → Monitor → Type 0
Opened (ok st) m = IsServing st m
Opened (err e) m = m ≡ at_rest

eq_self : (n : ℕ) → (n == n) ≡ true
eq_self n = ground arith

module _ (p : Platform) where
  abandon_open-at_rest :
      (t : Ptr) (w : p.World)
      → let r = abandon_open (watch p) t (
        w,
        record { live = some t; handle = none; pending = none; was_read = false; clean = true },
      ) in
        Opened r.0 r.1.1
  unfolding abandon_open open_error on_thread_call on_string on_read on_free on_tear_down
  abandon_open-at_rest t w = ground arith

  open_database-Opened :
      (c : Created) (c_data c_index : CString) (w : p.World)
      → is_null c.thread ≡ false
      → let r = open_database (watch p) c c_data c_index (
        w,
        record {
          live = some c.thread;
          handle = none;
          pending = none;
          was_read = false;
          clean = true;
        },
      ) in
        Opened r.0 r.1.1
  unfolding open_database on_open
  open_database-Opened c c_data c_index w h =
      elim (Bool-cases (is_nonneg (p.native.chrondb_open c.thread (to c_data) (to c_index) w).0)) [
        | inl e ↦
            rw (e, open_database, on_open)
              (record { observed = ground arith; has_thread = h; has_handle = e })
        | inr e ↦ rw (e, open_database, on_open, eq_self c.thread) (abandon_open-at_rest c.thread _)
      ]

  pub close-at_rest :
      (st : FfiWorkerState) (w : p.World)
      → is_null st.thread ≡ false
      → is_nonneg st.handle ≡ true
      → (close (watch p) st (w, serving st.thread st.handle)).1.1 ≡ at_rest
  unfolding close on_close on_tear_down
  close-at_rest st w t h = ground (arith, same_refl st.handle)

  pub close-again :
      (st : FfiWorkerState) (x : p.World × Monitor)
      → is_null st.thread ≡ true
      → is_nonneg st.handle ≡ false
      → close (watch p) st x ≡ (st, x)
  unfolding close
  close-again st x t h = ground arith

  after_create-Opened :
      (c : Created) (data_path index_path : String) (w : p.World)
      → IsNulFree data_path
      → IsNulFree index_path
      → (is_zero c.code ≡ true → is_null c.thread ≡ false)
      → let r = after_create (watch p) c data_path index_path (w, on_create c at_rest) in
        Opened r.0 r.1.1
  unfolding after_create on_create c_string
  after_create-Opened c data_path index_path w nd ni created = elim (Bool-cases (is_zero c.code)) [
    | inl e ↦ rw (nd, ni, e, after_create, on_create) (open_database-Opened c _ _ w (created e))
    | inr e ↦ rw (e, after_create, on_create)
  ]

  -- The creation of the isolate and the opening of the database, for paths with no NUL byte: either
  -- both are open, or nothing is held any more.
  pub open_isolate-Opened :
      (data_path index_path : String) (w : p.World)
      → IsNulFree data_path
      → IsNulFree index_path
      → CreatesThreads p
      → let r = open_isolate (watch p) data_path index_path (w, at_rest) in Opened r.0 r.1.1
  unfolding open_isolate
  open_isolate-Opened data_path index_path w nd ni created =
      after_create-Opened (p.native.graal_create_isolate w).0 data_path index_path
        (p.native.graal_create_isolate w).1 nd ni (created w)
