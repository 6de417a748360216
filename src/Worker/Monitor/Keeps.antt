-- ===== src/Worker/Monitor/Keeps.antt =====
-- Handlers that leave the observer as they found it, one rule for each way to build a handler.
use chrondb.Base.{
  String, true, ◌≡◌, refl, arith, if◌then◌else◌, Result, ok, err, Run, act, throw, lift, return,
  ◌>>=◌, continue, subst, sym, Bool-cases, inl, inr,
}
use chrondb.Base.Int.{ℤ, pos, negsuc}
use chrondb.Error.{ChronDbError}
use chrondb.Platform.{Platform}
use chrondb.Platform.Ffi.{Ptr, is_null}
use chrondb.Worker.State.{
  FfiWorkerState, get_last_error, last_error_or, fail_with_last_error, parse_string_result,
}
use chrondb.Worker.Monitor.{
  Monitor, same, on_call, on_thread_call, on_string, on_read, on_free, string_call, number_call,
  watch, serving,
}

-- `f` leaves the observer at `m`.
pub record Keeps {W A E : Type 0} (m : Monitor) (f : Run (W × Monitor) A E) : Type 0 where
  pub at : (w : W) → (f (w, m)).1.1 ≡ m

module _ {W A E : Type 0} {m : Monitor} where
  pub Keeps-return : (a : A) → Keeps {W = W} {E = E} m (return a)
  unfolding return
  Keeps-return a = record { at = λ w. refl }

  pub Keeps-throw : (e : E) → Keeps {W = W} {A = A} m (throw e)
  unfolding throw
  Keeps-throw e = record { at = λ w. refl }

module _ {W A B E : Type 0} {m : Monitor} where
  pub Keeps-lift :
      (r : Result A E) (f : A → Run (W × Monitor) B E)
      → ((a : A) → Keeps m (f a))
      → Keeps m (lift r >>= f)
  unfolding ◌>>=◌
  Keeps-lift (ok a) f k = k a
  Keeps-lift (err e) f k = Keeps-throw e

module _ {W A B E : Type 0} {m : Monitor} where
  bind-Keeps :
      (f : A → Run (W × Monitor) B E) (r : Result A E) (w : W)
      → ((a : A) → Keeps m (f a))
      → (continue r f (w, m)).1.1 ≡ m
  bind-Keeps f (ok a) w k = (k a).at w
  bind-Keeps f (err e) w k = refl

  pub Keeps-bind :
      (g : Run (W × Monitor) A E) (f : A → Run (W × Monitor) B E)
      → Keeps m g
      → ((a : A) → Keeps m (f a))
      → Keeps m (g >>= f)
  unfolding ◌>>=◌
  Keeps-bind g f kg kf = record {
    at = λ w.
        subst (λ (n : Monitor). (continue (g (w, m)).0 f ((g (w, m)).1.0, n)).1.1 ≡ m)
          (sym (kg.at w)) (bind-Keeps f (g (w, m)).0 (g (w, m)).1.0 kf);
  }

pub same_refl : (h : ℤ) → same h h ≡ true
same_refl (pos n) = ground arith
same_refl (negsuc n) = ground arith

module _ (p : Platform) (st : FfiWorkerState) where
  abbrev m0 : Monitor
  m0 = serving st.thread st.handle

  pub Keeps-fail_with_last_error :
      (A : Type 0) (default : String) → Keeps m0 (fail_with_last_error (watch p) {A = A} st default)
  unfolding fail_with_last_error last_error_or get_last_error on_thread_call on_string on_read
      on_free
  Keeps-fail_with_last_error A default = record { at = λ w. ground arith }

  pub get_last_error-keeps : (w : p.World) → (get_last_error (watch p) st (w, m0)).1.1 ≡ m0
  unfolding get_last_error on_thread_call on_string on_read on_free
  get_last_error-keeps w = ground arith

  -- A string that a call returned is read and freed; a null one is not.
  parse-keeps :
      (ptr : Ptr) (w : p.World)
      → (parse_string_result (watch p) st ptr (w, on_string ptr m0)).1.1 ≡ m0
  unfolding parse_string_result on_string ◌>>=◌ on_read on_free
  parse-keeps ptr w = elim (Bool-cases (is_null ptr)) [
    | inl h ↦ rw (h, parse_string_result) ((Keeps-fail_with_last_error p.Value "null result").at w)
    | inr h ↦ rw (h, parse_string_result) (ground arith)
  ]

  on_call-serving : on_call st.thread st.handle m0 ≡ m0
  unfolding on_call
  on_call-serving = ground (arith, same_refl st.handle)

  on_string-null : (r : Ptr) → is_null r ≡ true → on_string r m0 ≡ m0
  unfolding on_string
  on_string-null r h = rw (h, on_string)

  -- What most handlers do with the pointer that a call returned.
  pub Keeps-string_call :
      (fn : p.World → Ptr × p.World) (default : Run (watch p).World p.Value ChronDbError)
      → Keeps m0 default
      → Keeps m0 (
          act (string_call st.thread st.handle fn) >>= λ result.
          if is_null result then default else parse_string_result (watch p) st result)
  unfolding ◌>>=◌ string_call
  Keeps-string_call fn default k = record {
    at = λ w. rw on_call-serving (branches (fn w).0 (fn w).1);
  }
    where
      branches :
          (r : Ptr) (w : p.World)
          → ((if is_null r then default else parse_string_result (watch p) st r)
              (w, on_string r m0)).1.1
            ≡ m0
      branches r w = elim (Bool-cases (is_null r)) [
        | inl h ↦ rw (h, on_string-null r h) (k.at w)
        | inr h ↦ rw h (parse-keeps r w)
      ]

  pub Keeps-string_call_parse :
      (fn : p.World → Ptr × p.World)
      → Keeps m0 (
          act (string_call st.thread st.handle fn) >>= λ result.
          parse_string_result (watch p) st result)
  unfolding ◌>>=◌ string_call
  Keeps-string_call_parse fn = record {
    at = λ w. rw on_call-serving (parse-keeps (fn w).0 (fn w).1);
  }

  pub Keeps-number_call :
      (A : Type 0) (fn : p.World → ℤ × p.World) (f : ℤ → Run (watch p).World A ChronDbError)
      → ((r : ℤ) → Keeps m0 (f r))
      → Keeps m0 (act (number_call st.thread st.handle fn) >>= f)
  unfolding ◌>>=◌ number_call
  Keeps-number_call A fn f k = record { at = λ w. rw on_call-serving ((k (fn w).0).at (fn w).1) }
