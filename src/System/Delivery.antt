-- ===== src/System/Delivery.antt =====
-- What becomes of the commands that the handles send: none is lost, and every caller gets a reply.
use chrondb.Base.{ℕ, suc, ◌<◌, false, List, [], ◌∷◌, ◌++◌, map, ◌≡◌, sym, ◌∙◌, ap}
use mathlib.Core.List.{append-nil}
use chrondb.Platform.{Platform}
use chrondb.Setup.Target.{Target}
use chrondb.Command.{FfiCommand}
use chrondb.Worker.Replies.{ticket_of}
use chrondb.System.{Thread, System}
use chrondb.System.Reach.{Reachable}
use chrondb.System.Queues.{tickets, IsOrdered}
use chrondb.System.Sound.{was_stopped, IsSoundAt, not_over}
use chrondb.System.Sound.Steps.{Reachable-IsSound}

abbrev pub length : {A : Type 0} → List A → ℕ
length [] = 0
length (x ∷ xs) = suc (length xs)

module _ {V : Type 0} (a : ℕ) (t : Thread V) (v : IsSoundAt a t) where
  serving_of_held : 0 < a → (t.ended ≡ false) × IsOrdered false t.queue
  serving_of_held held =
      let unstopped : was_stopped t.phase ≡ false = ap was_stopped (v.held held) in
      let alive = not_over a t v unstopped in (alive, rw unstopped at (v.running alive))

  pub answered_of_empty : t.queue ≡ [] → map ticket_of t.replies ≡ tickets t.asked
  unfolding tickets
  answered_of_empty e =
      sym (append-nil (map ticket_of t.replies))
      ∙ ap (λ (q : List FfiCommand). map ticket_of t.replies ++ tickets q) (sym e)
      ∙ v.balanced

module _ (p : Platform) (target : Target) where
  open p use {World, Value}

  -- In every state that a process reaches, however the blocks of opens and drops, the sendings and the
  -- turns of the threads come, and whatever the library does: the thread of a worker that a handle holds
  -- has not ended and has no shutdown in its channel, so that a command that is sent now arrives and
  -- comes to its turn; and the replies that it has sent, and then those that the commands in its channel
  -- wait for, are those that all commands sent to the worker wait for, each once, over its channel, with
  -- its type and in the order of sending.
  pub Reachable-delivers :
      {s : System Value World} (id : ℕ)
      → Reachable p target s
      → 0 < s.workers.strong id
      → let t = s.threads id in
        (t.ended ≡ false)
        × IsOrdered false t.queue
        × (map ticket_of t.replies ++ tickets t.queue ≡ tickets t.asked)
  Reachable-delivers {s} id r held =
      let v = (Reachable-IsSound p target r).at id in
      let (alive, ordered) = serving_of_held _ (s.threads id) v held in (alive, ordered, v.balanced)
