-- ===== src/Error/Texts.antt =====
-- The texts of the errors (bindings/rust/src/error.rs) tell them apart: a reader of the text, as the
-- other languages' wrappers hand it on, gets the error back.
use Prim.Native.Char.{code}
use text.Mathlib.TextLemmas.{nil-append, cons-append}
use chrondb.Base.{
  String, ◌<>◌, ◌=s=◌, Bool, true, false, ◌==◌, ◌≡◌, refl, ap, ◌∙◌, arith, Option, none, some,
  if◌then◌else◌, Bool-cases, inl, inr,
}
use chrondb.Error.{
  ChronDbError, setup_failed, isolate_creation_failed, open_failed, close_failed, not_found,
  operation_failed, json_error, display,
}

-- What follows a prefix.
strip : String → String → Option String
strip String.[] s = some s
strip (String.◌∷◌ c p) String.[] = none
strip (String.◌∷◌ c p) (String.◌∷◌ d s) =
    let rest = strip p s in if code c == code d then rest else none

-- Two texts differ at a place that both have.
differ : String → String → Bool
differ String.[] q = false
differ (String.◌∷◌ c p) String.[] = false
differ (String.◌∷◌ c p) (String.◌∷◌ d q) =
    let rest = differ p q in if code c == code d then rest else true

strip-append : (p s : String) → strip p (p <> s) ≡ some s
unfolding strip
strip-append String.[] s = ap some (nil-append s)
strip-append (String.◌∷◌ c p) s = rw (cons-append c p s) (ground (arith, strip-append p s))

strip-differ : (p q s : String) → differ p q ≡ true → strip p (q <> s) ≡ none
unfolding strip differ
strip-differ String.[] q s h = absurd (ground (arith, h))
strip-differ (String.◌∷◌ c p) String.[] s h = absurd (ground (arith, h))
strip-differ (String.◌∷◌ c p) (String.◌∷◌ d q) s h =
    rw (cons-append d q s) (elim (Bool-cases (code c == code d)) [
      | inl e ↦ rw e (strip-differ p q s (rw e at h))
      | inr e ↦ rw e refl
    ])

-- An error whose text has a prefix, and else what another reader says.
prefixed :
    String → (String → ChronDbError) → (String → Option ChronDbError) → String → Option ChronDbError
unfolding strip
prefixed prefix error later text = elim (strip prefix text) [
  | some msg ↦ some (error msg)
  | none ↦ later text
]

prefixed-append :
    (p s : String) (f : String → ChronDbError) (later : String → Option ChronDbError)
    → prefixed p f later (p <> s) ≡ some (f s)
unfolding prefixed
prefixed-append p s f later = rw (prefixed, strip-append p s) refl

prefixed-differ :
    (p q s : String) (f : String → ChronDbError) (later : String → Option ChronDbError)
    → differ p q ≡ true
    → prefixed p f later (q <> s) ≡ later (q <> s)
unfolding prefixed
prefixed-differ p q s f later h = rw (prefixed, strip-differ p q s h) refl

exact : String → ChronDbError → (String → Option ChronDbError) → String → Option ChronDbError
exact whole error later text =
    let other = later text in if text =s= whole then some error else other

read_exact : String → Option ChronDbError
unfolding exact
read_exact = exact "failed to create GraalVM isolate" isolate_creation_failed (
    exact "failed to close database" close_failed
      (exact "document not found" not_found (λ text. none)))

read_json : String → Option ChronDbError
unfolding prefixed
read_json = prefixed "JSON error: " json_error read_exact

read_operation : String → Option ChronDbError
unfolding prefixed
read_operation = prefixed "operation failed: " operation_failed read_json

read_open : String → Option ChronDbError
unfolding prefixed
read_open = prefixed "failed to open database: " open_failed read_operation

pub read_error : String → Option ChronDbError
unfolding prefixed
read_error = prefixed "library setup failed: " setup_failed read_open

-- The text of every error reads back as that error, whatever its message.
pub read_error-display : (e : ChronDbError) → read_error (display e) ≡ some e
unfolding read_error read_open read_operation read_json read_exact display differ
read_error-display (setup_failed msg) =
    prefixed-append "library setup failed: " msg setup_failed read_open
read_error-display (open_failed msg) =
    let t : String = "failed to open database: " in
    prefixed-differ "library setup failed: " t msg setup_failed read_open refl
    ∙ prefixed-append t msg open_failed read_operation
read_error-display (operation_failed msg) =
    let t : String = "operation failed: " in
    prefixed-differ "library setup failed: " t msg setup_failed read_open refl
    ∙ prefixed-differ "failed to open database: " t msg open_failed read_operation refl
    ∙ prefixed-append t msg operation_failed read_json
read_error-display (json_error msg) =
    let t : String = "JSON error: " in
    prefixed-differ "library setup failed: " t msg setup_failed read_open refl
    ∙ prefixed-differ "failed to open database: " t msg open_failed read_operation refl
    ∙ prefixed-differ "operation failed: " t msg operation_failed read_json refl
    ∙ prefixed-append t msg json_error read_exact
read_error-display isolate_creation_failed = refl
read_error-display close_failed = refl
read_error-display not_found = refl
