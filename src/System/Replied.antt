-- ===== src/System/Replied.antt =====
-- What the caller of a method receives.

use chrondb.Base.{
  ℕ, String, Bool, true, false, Option, none, some, List, [], ◌∷◌, ◌++◌, map, ◌≡◌, refl, ◌∙◌, ap,
  arith, ◌==◌, if◌then◌else◌,
}
use chrondb.Error.{DbResult}
use chrondb.Platform.{Platform}
use chrondb.Setup.Target.{Target}
use chrondb.Command.{FfiCommand, Reply, value, done, message, Sent}
use chrondb.Worker.Replies.{
  ReplyType, of_value, of_done, of_message, Ticket, ticket_of, type_of_reply, awaited, one,
}
use chrondb.Client.{recv, value_of, done_of, message_of, or_else}
use chrondb.Client.IdleLink.{Pause}
use chrondb.System.{System}
use chrondb.System.Reach.{Reachable}
use chrondb.System.Queues.{tickets, tickets-append}
use chrondb.System.Delivery.{length}
use chrondb.System.Drain.{drain, Reachable-drain}

-- The receipt of a reply of each type gives something.
abbrev pub Received : {V : Type 0} → Ticket → List (Sent V) → Type 0
Received {V} t sent = elim t.reply_type [
  | of_value ↦ (r : DbResult V) × (recv value_of t.channel sent ≡ some r)
  | of_done ↦ (r : DbResult (Unit {0})) × (recv done_of t.channel sent ≡ some r)
  | of_message ↦ (m : Option String) × (recv message_of t.channel sent ≡ some m)
]

-- An earlier reply counts where there is one.
earlier_or_later :
    {A : Type 0} (b : Bool) (now later : Option A) (a : A)
    → later ≡ some a
    → (x : A) × ((if b then or_else now later else later) ≡ some x)
earlier_or_later true (some x) later a e = (x, refl)
earlier_or_later true none later a e = (a, e)
earlier_or_later false now later a e = (a, e)

module _ {V A : Type 0} (read : Reply V → Option A) (ch : ℕ) where
  recv-some :
      (sent : List (Sent V)) (ty : ReplyType) (xs ys : List Ticket)
      → ((r : Reply V) → type_of_reply r ≡ ty → (a : A) × (read r ≡ some a))
      → map ticket_of sent ≡ xs ++ record { channel = ch; reply_type = ty } ∷ ys
      → (a : A) × (recv read ch sent ≡ some a)
  unfolding recv ticket_of
  recv-some [] ty [] ys fits e = cc
  recv-some [] ty (x ∷ xs) ys fits e = cc
  recv-some (s ∷ sent) ty [] ys fits e =
      let head : ticket_of s ≡ record { channel = ch; reply_type = ty } = cc e in
      let mine = ap (λ (t : Ticket). t.channel) head in
      let (a, fit) = fits s.payload (ap (λ (t : Ticket). t.reply_type) head) in
      (a, ground (arith, mine, fit))
  recv-some (s ∷ sent) ty (x ∷ xs) ys fits e =
      let (a, later) = recv-some sent ty xs ys fits (cc e) in
      earlier_or_later (s.channel == ch) (read s.payload) (recv read ch sent) a later

value_fits :
    {V : Type 0} (r : Reply V)
    → type_of_reply r ≡ of_value
    → (a : DbResult V) × (value_of r ≡ some a)
unfolding type_of_reply value_of
value_fits (value r) e = (r, refl)
value_fits (done r) e = cc e
value_fits (message m) e = cc e

done_fits :
    {V : Type 0} (r : Reply V)
    → type_of_reply r ≡ of_done
    → (a : DbResult (Unit {0})) × (done_of r ≡ some a)
unfolding type_of_reply done_of
done_fits (value r) e = cc e
done_fits (done r) e = (r, refl)
done_fits (message m) e = cc e

message_fits :
    {V : Type 0} (r : Reply V)
    → type_of_reply r ≡ of_message
    → (a : Option String) × (message_of r ≡ some a)
unfolding type_of_reply message_of
message_fits (value r) e = cc e
message_fits (done r) e = cc e
message_fits (message m) e = (m, refl)

Received-of_mem :
    {V : Type 0} (sent : List (Sent V)) (ch : ℕ) (ty : ReplyType) (xs ys : List Ticket)
    → map ticket_of sent ≡ xs ++ record { channel = ch; reply_type = ty } ∷ ys
    → Received (record { channel = ch; reply_type = ty }) sent
Received-of_mem sent ch of_value xs ys e = recv-some value_of ch sent of_value xs ys value_fits e
Received-of_mem sent ch of_done xs ys e = recv-some done_of ch sent of_done xs ys done_fits e
Received-of_mem sent ch of_message xs ys e =
    recv-some message_of ch sent of_message xs ys message_fits e

tickets-mem :
    (before after : List FfiCommand) (cmd : FfiCommand) (t : Ticket)
    → awaited cmd ≡ some t
    → tickets (before ++ cmd ∷ after) ≡ tickets before ++ t ∷ tickets after
unfolding tickets one
tickets-mem before after cmd t e = tickets-append before (cmd ∷ after) ∙ rw e refl

module _ (p : Platform) (target : Target) (id : ℕ) where
  open p use {World, Value}

  -- In any state that a process reaches, a command was sent to a worker over a handle, and its sender
  -- waits for a reply. When the thread has taken as many turns as there were commands in its channel, with
  -- any timeouts before each, and whatever the library does and the other callers did, the receipt over
  -- the command's channel, in its type, has given a reply: no method tells that the worker died.
  pub Reachable-Received :
      {s : System Value World} (pauses : List Pause) (before after : List FfiCommand)
      (cmd : FfiCommand) (t : Ticket)
      → Reachable p target s
      → (s.threads id).asked ≡ before ++ cmd ∷ after
      → awaited cmd ≡ some t
      → length pauses ≡ length (s.threads id).queue
      → Received t ((drain p target id pauses s).threads id).replies
  Reachable-Received {s} pauses before after cmd t r sent waits h =
      let replied = (Reachable-drain p target id pauses r h).3 in
      Received-of_mem _ t.channel t.reply_type (tickets before) (tickets after)
        (replied ∙ ap tickets sent ∙ tickets-mem before after cmd t waits)
