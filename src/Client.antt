-- ===== src/Client.antt =====
-- The methods of `ChronDB` that ask the worker thread (bindings/rust/src/lib.rs). A method makes a reply
-- channel, sends a command with its sending end, and waits for the reply.
pub mod Methods
pub mod Served
pub mod Links
pub mod Simulation
pub mod IdleLink
pub mod Documents
use chrondb.Base.{
  ℕ, suc, String, Bool, true, Option, none, some, List, [], ◌∷◌, ◌==◌, if◌then◌else◌, Result, ok,
  err,
}
use chrondb.Error.{ChronDbError, operation_failed, DbResult}
use chrondb.Command.{FfiCommand, Reply, value, done, message, Sent}

-- What the commands go to: `none` where the receiving end is gone, and else what the other thread
-- sends over the reply channels until it is done with the command. `S` is the state of that side.
pub record Link (V S : Type 0) : Type 0 where
  pub send : FfiCommand → S → Option (List (Sent V)) × S

-- The state behind a handle: the identity of the next reply channel, and the other side.
pub record Caller (S : Type 0) : Type 0 where
  pub next_channel : ℕ
  pub side : S

abbrev pub worker_died : ChronDbError
worker_died = operation_failed "worker thread died"

-- What a channel of each type can carry.
unfoldable pub value_of : {V : Type 0} → Reply V → Option (DbResult V)
value_of (value r) = some r
value_of (done _) = none
value_of (message _) = none

unfoldable pub done_of : {V : Type 0} → Reply V → Option (DbResult (Unit {0}))
done_of (value _) = none
done_of (done r) = some r
done_of (message _) = none

unfoldable pub message_of : {V : Type 0} → Reply V → Option (Option String)
message_of (value _) = none
message_of (done _) = none
message_of (message m) = some m

abbrev pub or_else : {A : Type 0} → Option A → Option A → Option A
or_else none later = later
or_else (some a) later = some a

-- `reply_rx.recv()`: the first that came over the channel.
unfoldable pub recv : {V A : Type 0} → (Reply V → Option A) → ℕ → List (Sent V) → Option A
recv read ch [] = none
recv read ch (s ∷ rest) =
    let later = recv read ch rest in
    if s.channel == ch then or_else (read s.payload) later else later

-- `.map_err(|_| ChronDBError::OperationFailed("worker thread died".to_string()))?`, of a reply that is
-- itself a result.
unfoldable pub or_died : {A : Type 0} → Option (DbResult A) → DbResult A
or_died none = err worker_died
or_died (some r) = r

-- `.recv().ok().flatten()`
unfoldable pub flatten : Option (Option String) → Option String
flatten none = none
flatten (some m) = m

-- What a failed `send` and a failed `recv` come to.
unfoldable pub value_reply : {V : Type 0} → ℕ → Option (List (Sent V)) → DbResult V
unfolding recv value_of or_died
value_reply ch none = err worker_died
value_reply ch (some sent) = or_died (recv value_of ch sent)

unfoldable pub done_reply : {V : Type 0} → ℕ → Option (List (Sent V)) → DbResult (Unit {0})
unfolding recv done_of or_died
done_reply ch none = err worker_died
done_reply ch (some sent) = or_died (recv done_of ch sent)

unfoldable pub message_reply : {V : Type 0} → ℕ → Option (List (Sent V)) → Option String
unfolding recv message_of flatten
message_reply ch none = none
message_reply ch (some sent) = flatten (recv message_of ch sent)

module _ {V S : Type 0} (link : Link V S) where
  -- `let (reply_tx, reply_rx) = mpsc::channel()`, the send and the receipt.
  unfoldable pub request :
      {A : Type 0} → (ℕ → Option (List (Sent V)) → A) → (ℕ → FfiCommand) → Caller S → A × Caller S
  request read command c =
      let (sent, side) = link.send (command c.next_channel) c.side in
      (read c.next_channel sent, record { next_channel = suc c.next_channel; side = side })
