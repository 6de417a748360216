-- ===== src/Base/Fallible.antt =====
-- `std::result::Result`, and computations that thread a state and may return an error early, as a
-- body with `?` does. What was written before an early return stays written.
use mathlib.Core.Path.{◌≡◌, refl}
use mathlib.Core.Logic.{◌⊎◌, inl, inr}
use mathlib.Core.Option.{Option, none, some}

pub data Result (A E : Type 0) : Type 0 where
  ok : A → Result A E
  err : E → Result A E

-- `.map_err(f)`
abbrev pub map_err : {A E F : Type 0} → (E → F) → Result A E → Result A F
map_err f (ok a) = ok a
map_err f (err e) = err (f e)

-- `.ok_or_else(|| e)`
abbrev pub ok_or : {A E : Type 0} → E → Option A → Result A E
ok_or e none = err e
ok_or e (some a) = ok a

pub Result-cases :
    {A E : Type 0} (r : Result A E) → ((a : A) × (r ≡ ok a)) ⊎ ((e : E) × (r ≡ err e))
Result-cases (ok a) = inl (a, refl)
Result-cases (err e) = inr (e, refl)

-- A computation over the state `S`.
abbrev pub Run : Type 0 → Type 0 → Type 0 → Type 0
Run S A E = S → Result A E × S

unfoldable pub return : {S A E : Type 0} → A → Run S A E
return a s = (ok a, s)

unfoldable pub throw : {S A E : Type 0} → E → Run S A E
throw e s = (err e, s)

-- A step that cannot fail.
unfoldable pub act : {S A E : Type 0} → (S → A × S) → Run S A E
act f s = let (a, s') = f s in (ok a, s')

-- `r?`
unfoldable pub lift : {S A E : Type 0} → Result A E → Run S A E
lift r s = (r, s)

abbrev pub continue : {S A B E : Type 0} → Result A E → (A → Run S B E) → Run S B E
continue (ok a) f s = f a s
continue (err e) f s = (err e, s)

infixl 5 ◌>>=◌ ◌>>◌
-- Opening this opens the steps above.
unfoldable pub ◌>>=◌ : {S A B E : Type 0} → Run S A E → (A → Run S B E) → Run S B E
unfolding return throw act lift
◌>>=◌ m f s = let (r, s') = m s in continue r f s'

abbrev pub ◌>>◌ : {S A B E : Type 0} → Run S A E → Run S B E → Run S B E
m >> n = m >>= λ _. n
