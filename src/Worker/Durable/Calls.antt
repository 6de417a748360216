-- ===== src/Worker/Durable/Calls.antt =====
-- The steps of a handler in two sessions on the same contents.
use chrondb.Base.{
  zero, suc, String, Bool, true, false, ◌≡◌, refl, Bool-cases, inl, inr, sym, ◌∙◌, ap, subst,
  Result, ok, err, map_err, Run, return, throw, act, lift, ◌>>=◌, if◌then◌else◌,
}
use chrondb.Base.Int.{ℤ, pos, negsuc}
use chrondb.Error.{ChronDbError, json_error}
use chrondb.Platform.{Platform}
use chrondb.Platform.Ffi.{Ptr, is_null}
use chrondb.Worker.State.{
  FfiWorkerState, get_last_error, last_error_or, fail_with_last_error, parse_string_result,
}
use chrondb.Worker.Handlers.{delete_outcome}
use chrondb.Worker.Durable.{Relation, SameString, SameCode, Alike, taken, tells}

module _ (p : Platform) (st : FfiWorkerState) where
  open p use {World}

  -- A handler's call that returns a string.
  abbrev string_call :
      (World → Ptr × World) → Run World p.Value ChronDbError → Run World p.Value ChronDbError
  string_call g m = act g >>= λ s. if is_null s then m else parse_string_result p st s

  string_call-null :
      (g : World → Ptr × World) (m : Run World p.Value ChronDbError) (x : World)
      → is_null (g x).0 ≡ true
      → string_call g m x ≡ m (g x).1
  unfolding ◌>>=◌
  string_call-null g m x e = rw e refl

  string_call-found :
      (g : World → Ptr × World) (m : Run World p.Value ChronDbError) (x : World)
      → is_null (g x).0 ≡ false
      → string_call g m x
        ≡ (map_err json_error (p.from_str (p.read_string (g x).0 (g x).1).0), taken p st (g x))
  unfolding ◌>>=◌ parse_string_result
  string_call-found g m x e = rw e refl

  -- A string that is parsed at once.
  parse-string_call :
      (g : World → Ptr × World) (x : World)
      → (act g >>= λ s. parse_string_result p st s) x
        ≡ string_call g (fail_with_last_error p st "null result") x
  unfolding ◌>>=◌ parse_string_result
  parse-string_call g x = elim (Bool-cases (is_null (g x).0)) [
    | inl e ↦ rw e refl
    | inr e ↦ rw e refl
  ]

module _ (p : Platform) (R : Relation p) (st su : FfiWorkerState) where
  open p use {World}

  -- The same result, and the same contents behind it.
  abbrev pub Agree : {A : Type 0} → Run World A ChronDbError → Run World A ChronDbError → Type 0
  Agree m n = (x y : World) → R st x su y → ((m x).0 ≡ (n y).0) × R st (m x).1 su (n y).1

  pub Agree-lift :
      {A B : Type 0} (r : Result A ChronDbError) (f g : A → Run World B ChronDbError)
      → ((a : A) → Agree (f a) (g a))
      → Agree (lift r >>= f) (lift r >>= g)
  unfolding ◌>>=◌
  Agree-lift (ok a) f g h = h a
  Agree-lift (err e) f g h = λ x y r. (refl, r)

  -- A string, which is parsed, or what the handler does where it is null.
  pub Agree-string :
      (b : Bool) (f : Ptr → ℤ → World → Ptr × World) (m n : Run World p.Value ChronDbError)
      → Alike p R b f
      → ((q r : Ptr × World)
          → SameString p R b st su q r
          → is_null q.0 ≡ true
          → ((m q.1).0 ≡ (n r.1).0) × R st (m q.1).1 su (n r.1).1)
      → Agree
          (string_call p st (f st.thread st.handle) m)
          (string_call p su (f su.thread su.handle) n)
  Agree-string b f m n alike on_null x y r =
      let s = alike st su x y r in
      elim (Bool-cases (is_null (f st.thread st.handle x).0)) [
        | inl e ↦
            rw (string_call-null p st _ m x e, string_call-null p su _ n y (sym s.same_null ∙ e))
              (on_null _ _ s e)
        | inr e ↦
            rw (string_call-found p st _ m x e, string_call-found p su _ n y (sym s.same_null ∙ e))
              (ap (λ t. map_err json_error (p.from_str t)) (s.same_text e), s.then_taken e)
      ]

  -- What the handlers do where the string is null.
  pub null-return :
      (v : p.Value) (q r : Ptr × World)
      → SameString p R false st su q r
      → is_null q.0 ≡ true
      → ((return {E = ChronDbError} v q.1).0 ≡ (return v r.1).0)
        × R st (return {E = ChronDbError} v q.1).1 su (return {E = ChronDbError} v r.1).1
  unfolding return
  null-return v q r s e = (refl, s.then_null refl e)

  pub null-throw :
      (x : ChronDbError) (q r : Ptr × World)
      → SameString p R false st su q r
      → is_null q.0 ≡ true
      → ((throw {A = p.Value} x q.1).0 ≡ (throw x r.1).0)
        × R st (throw {A = p.Value} x q.1).1 su (throw {A = p.Value} x r.1).1
  unfolding throw
  null-throw x q r s e = (refl, s.then_null refl e)

  pub null-error :
      (default : String) (q r : Ptr × World)
      → SameString p R true st su q r
      → is_null q.0 ≡ true
      → ((fail_with_last_error p {A = p.Value} st default q.1).0
          ≡ (fail_with_last_error p {A = p.Value} su default r.1).0)
        × R st
            (fail_with_last_error p {A = p.Value} st default q.1).1
            su
            (fail_with_last_error p {A = p.Value} su default r.1).1
  unfolding fail_with_last_error last_error_or
  null-error default q r s e = (rw (s.same_error refl e) refl, s.then_error refl e)

  pub Agree-parse :
      (f : Ptr → ℤ → World → Ptr × World)
      → Alike p R true f
      → Agree
          (act (f st.thread st.handle) >>= λ s. parse_string_result p st s)
          (act (f su.thread su.handle) >>= λ s. parse_string_result p su s)
  Agree-parse f alike x y r =
      rw
        (
          parse-string_call p st (f st.thread st.handle) x,
          parse-string_call p su (f su.thread su.handle) y,
        )
        (Agree-string true f _ _ alike (null-error "null result") x y r)

  delete_outcome-Agree :
      (c : ℤ) (x y : World)
      → (tells c ≡ true → R st x su y)
      → (tells c ≡ false → (get_last_error p st x).0 ≡ (get_last_error p su y).0)
      → (tells c ≡ false → R st (get_last_error p st x).1 su (get_last_error p su y).1)
      → ((delete_outcome p st c x).0 ≡ (delete_outcome p su c y).0)
        × R st (delete_outcome p st c x).1 su (delete_outcome p su c y).1
  unfolding delete_outcome fail_with_last_error last_error_or return throw
  delete_outcome-Agree (pos zero) x y r e k = (refl, r refl)
  delete_outcome-Agree (pos (suc zero)) x y r e k = (refl, r refl)
  delete_outcome-Agree (pos (suc (suc n))) x y r e k = (rw (e refl) refl, k refl)
  delete_outcome-Agree (negsuc n) x y r e k = (rw (e refl) refl, k refl)

  pub Agree-code :
      (g k : World → ℤ × World)
      → ((x y : World) → R st x su y → SameCode p R st su (g x) (k y))
      → Agree (act g >>= delete_outcome p st) (act k >>= delete_outcome p su)
  unfolding ◌>>=◌
  Agree-code g k same x y r =
      let s = same x y r in
      subst
        (λ (c : ℤ).
          ((delete_outcome p st (g x).0 (g x).1).0 ≡ (delete_outcome p su c (k y).1).0)
          × R st (delete_outcome p st (g x).0 (g x).1).1 su (delete_outcome p su c (k y).1).1)
        s.same_code
        (delete_outcome-Agree (g x).0 (g x).1 (k y).1 s.then_code s.same_error s.then_error)
