-- ===== src/System/Queues.antt =====
-- The commands in a worker's channel, and who waits for them.
use mathlib.Core.List.{append_assoc}
use chrondb.Base.{
  Bool, true, false, List, [], ◌∷◌, ◌++◌, ◌≡◌, refl, Bool-cases, inl, inr, if◌then◌else◌,
}
use chrondb.Command.{FfiCommand, shutdown}
use chrondb.Worker.Dispatch.{is_shutdown}
use chrondb.Worker.Replies.{Ticket, awaited, one}

-- What the senders of the commands wait for, in the order of the commands.
unfoldable pub tickets : List FfiCommand → List Ticket
tickets [] = []
tickets (cmd ∷ rest) = one (awaited cmd) ++ tickets rest

pub tickets-append : (xs ys : List FfiCommand) → tickets (xs ++ ys) ≡ tickets xs ++ tickets ys
unfolding tickets
tickets-append [] ys = refl
tickets-append (cmd ∷ xs) ys = simp (tickets-append xs ys, append_assoc)

-- A shutdown stands at the end only, and there is one just if it was sent.
abbrev pub IsOrdered : Bool → List FfiCommand → Type 0
IsOrdered b [] = b ≡ false
IsOrdered b (cmd ∷ rest) = if is_shutdown cmd then (b ≡ true) × (rest ≡ []) else IsOrdered b rest

pub append-IsOrdered :
    (q : List FfiCommand) (cmd : FfiCommand)
    → is_shutdown cmd ≡ false
    → IsOrdered false q
    → IsOrdered false (q ++ cmd ∷ [])
append-IsOrdered [] cmd h v = rw h refl
append-IsOrdered (c ∷ q) cmd h v = elim (Bool-cases (is_shutdown c)) [
  | inl e ↦ absurd (cc ((rw e at v).0))
  | inr e ↦ rw e (append-IsOrdered q cmd h (rw e at v))
]

pub append_shutdown-IsOrdered :
    (q : List FfiCommand) → IsOrdered false q → IsOrdered true (q ++ shutdown ∷ [])
unfolding is_shutdown
append_shutdown-IsOrdered [] v = (refl, refl)
append_shutdown-IsOrdered (c ∷ q) v = elim (Bool-cases (is_shutdown c)) [
  | inl e ↦ absurd (cc ((rw e at v).0))
  | inr e ↦ rw e (append_shutdown-IsOrdered q (rw e at v))
]
