-- ===== src/Worker/Durable/Session.antt =====
-- The idle loop's session beside another one.
use mathlib.Core.Bool.{false≢true}
use chrondb.Base.{true, false, some, ◌≡◌, sym, ◌∙◌, ◌⊎◌, inl, inr, ok}
use chrondb.Platform.{Platform}
use chrondb.Setup.Install.{Process}
use chrondb.Worker.State.{FfiWorkerState}
use chrondb.Worker.Idle.{IdleState}
use chrondb.Worker.Durable.{Relation}

-- The library was loaded, as it was for the first opening.
abbrev pub HasLibrary : {W : Type 0} → Process W → Type 0
HasLibrary s = (s.setup_result ≡ some (ok tt)) × (s.library ≡ some (ok tt))

module _ (p : Platform) (R : Relation p)
    (Closed : p.World → FfiWorkerState → p.World → Type 0) where
  open p use {World}

  -- The idle loop's session is on the same contents as the other one, or closed with them.
  abbrev pub InStep : IdleState → Process World → FfiWorkerState → World → Type 0
  InStep i s su y =
      HasLibrary s
      × (((i.suspended ≡ false) × R i.worker s.world su y)
          ⊎ ((i.suspended ≡ true) × Closed s.world su y))

  pub when_awake :
      (i : IdleState) (s : Process World) (su : FfiWorkerState) (y : World)
      → InStep i s su y
      → i.suspended ≡ false
      → R i.worker s.world su y
  when_awake i s su y (_, inl (_, r)) awake = r
  when_awake i s su y (_, inr (asleep, _)) awake = absurd (false≢true (sym awake ∙ asleep))

  pub when_asleep :
      (i : IdleState) (s : Process World) (su : FfiWorkerState) (y : World)
      → InStep i s su y
      → i.suspended ≡ true
      → Closed s.world su y
  when_asleep i s su y (_, inl (awake, _)) asleep = absurd (false≢true (sym awake ∙ asleep))
  when_asleep i s su y (_, inr (_, c)) asleep = c
