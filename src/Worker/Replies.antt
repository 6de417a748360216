-- ===== src/Worker/Replies.antt =====
-- Who is answered: the replies that the two loops of the worker thread send, against the commands
-- that they receive.
use mathlib.Core.List.{map-append}
use chrondb.Base.{
  ℕ, String, Bool, true, false, Option, none, some, List, [], ◌∷◌, ◌++◌, map, ◌≡◌, refl, sym, ◌∙◌,
  arith, Bool-cases, if_map, inl, inr, ◌⊎◌, if◌then◌else◌,
}
use chrondb.Platform.{Platform}
use chrondb.Setup.Target.{Target}
use chrondb.Setup.Install.{Process}
use chrondb.Command.{
  FfiCommand, put, get, delete, list_by_prefix, list_by_table, history, query, execute_sql,
  last_error, setup_remote, push, pull, fetch, remote_status, export_to, create_backup,
  restore_backup, export_snapshot, import_snapshot, shutdown, Reply, value, done, message, Sent,
}
use chrondb.Worker.State.{FfiWorkerState}
use chrondb.Worker.Dispatch.{is_shutdown, Dispatched, dispatch_command, reply_error}
use chrondb.Worker.Loop.{run_worker_loop}
use chrondb.Worker.Idle.{
  Event, received, timed_out, IdleState, Turn, serve, suspend, reopen_failed, backed_off, turn,
  run_worker_loop_with_idle,
}
use chrondb.Worker.Idle.Cases.{received_cases, timed_out_cases}
use chrondb.Worker.Thread.{commands}

-- The three types of reply channel.
pub data ReplyType : Type 0 where
  of_value of_done of_message : ReplyType

-- A reply by its channel and its type.
pub record Ticket : Type 0 where
  pub channel : ℕ
  pub reply_type : ReplyType

unfoldable pub type_of_reply : {V : Type 0} → Reply V → ReplyType
type_of_reply (value r) = of_value
type_of_reply (done r) = of_done
type_of_reply (message m) = of_message

unfoldable pub ticket_of : {V : Type 0} → Sent V → Ticket
unfolding type_of_reply
ticket_of s = record { channel = s.channel; reply_type = type_of_reply s.payload }

abbrev await : ReplyType → ℕ → Option Ticket
await t reply = some (record { channel = reply; reply_type = t })

-- What the sender of a command waits for.
unfoldable pub awaited : FfiCommand → Option Ticket
awaited (delete id branch reply) = await of_done reply
awaited (last_error reply) = await of_message reply
awaited shutdown = none
awaited (put id doc branch reply) = await of_value reply
awaited (get id branch reply) = await of_value reply
awaited (list_by_prefix prefix branch reply) = await of_value reply
awaited (list_by_table table branch reply) = await of_value reply
awaited (history id branch reply) = await of_value reply
awaited (query query_json branch reply) = await of_value reply
awaited (execute_sql sql branch reply) = await of_value reply
awaited (setup_remote remote_url reply) = await of_value reply
awaited (push reply) = await of_value reply
awaited (pull reply) = await of_value reply
awaited (fetch reply) = await of_value reply
awaited (remote_status reply) = await of_value reply
awaited (export_to target_dir options reply) = await of_value reply
awaited (create_backup output_path options reply) = await of_value reply
awaited (restore_backup input_path options reply) = await of_value reply
awaited (export_snapshot output_path options reply) = await of_value reply
awaited (import_snapshot input_path options reply) = await of_value reply

-- What the senders of the commands before the first shutdown wait for, in the order of arrival.
unfoldable pub all_awaited : List FfiCommand → List Ticket
all_awaited [] = []
all_awaited (cmd ∷ rest) = elim (awaited cmd) [ none ↦ [] | some t ↦ t ∷ all_awaited rest ]

-- One ticket, or none.
unfoldable pub one : Option Ticket → List Ticket
one none = []
one (some t) = t ∷ []

-- A command is answered exactly once, over its own channel and with its type; only a shutdown is not,
-- and only a shutdown stops the loop.
module _ (p : Platform) (st : FfiWorkerState) where
  pub dispatch_command-awaited :
      (cmd : FfiCommand) (w : p.World)
      → (map ticket_of (dispatch_command p st cmd w).sent ≡ one (awaited cmd))
        × ((dispatch_command p st cmd w).stop ≡ is_shutdown cmd)
  unfolding dispatch_command one awaited ticket_of is_shutdown
  dispatch_command-awaited shutdown w = (refl, refl)
  dispatch_command-awaited _ w = (refl, refl)

reply_error-awaited :
    (V : Type 0) (cmd : FfiCommand) (msg : String)
    → map ticket_of (reply_error {V = V} cmd msg) ≡ one (awaited cmd)
unfolding reply_error one awaited ticket_of
reply_error-awaited V shutdown msg = refl
reply_error-awaited V _ msg = refl

-- A shutdown waits for nothing, and nothing else does.
awaited_cases :
    (cmd : FfiCommand)
    → ((is_shutdown cmd ≡ true) × (awaited cmd ≡ none))
      ⊎ ((t : Ticket) × (is_shutdown cmd ≡ false) × (awaited cmd ≡ some t))
unfolding is_shutdown awaited
awaited_cases shutdown = inl (refl, refl)
awaited_cases (delete id branch reply) = inr (_, refl, refl)
awaited_cases (last_error reply) = inr (_, refl, refl)
awaited_cases _ = inr (_, refl, refl)

-- A turn of either loop: it answers its command, and what follows answers the rest.
module _ {V : Type 0} (cmd : FfiCommand) (rest : List FfiCommand) (sent later : List (Sent V)) where
  answer_then :
      (stop : Bool)
      → map ticket_of sent ≡ one (awaited cmd)
      → stop ≡ is_shutdown cmd
      → map ticket_of later ≡ all_awaited rest
      → (if stop then map ticket_of sent else map ticket_of (sent ++ later))
        ≡ all_awaited (cmd ∷ rest)
  unfolding one all_awaited
  answer_then stop now stops next = elim (awaited_cases cmd) [
    | inl (yes_shutdown, none_awaited) ↦
        rw (stops ∙ yes_shutdown) (now ∙ rw (none_awaited, one, all_awaited))
    | inr (t, not_shutdown, t_awaited) ↦
        rw (stops ∙ not_shutdown, map-append) (rw (now, next, t_awaited, one, all_awaited))
  ]

-- The plain loop, whatever the library does: the replies, in the order in which they are sent, are
-- those that the senders of the commands before the first shutdown wait for, one for each command.
pub run_worker_loop-awaited :
    (p : Platform) (st : FfiWorkerState) (cmds : List FfiCommand) (w : p.World)
    → map ticket_of (run_worker_loop p st cmds w).0 ≡ all_awaited cmds
unfolding run_worker_loop all_awaited
run_worker_loop-awaited p st [] w = refl
run_worker_loop-awaited p st (cmd ∷ rest) w =
    rw (if_map (λ (r : List (Sent p.Value) × p.World). map ticket_of r.0) d.stop _ _) (
      answer_then cmd rest d.sent _ d.stop answered.0 answered.1
        (run_worker_loop-awaited p st rest d.world))
  where
    d : Dispatched p.Value p.World
    d = dispatch_command p st cmd w

    answered : (map ticket_of d.sent ≡ one (awaited cmd)) × (d.stop ≡ is_shutdown cmd)
    answered = dispatch_command-awaited p st cmd w

module _ (p : Platform) (target : Target) (idle_timeout : ℕ) (data_path index_path : String) where
  open p use {World, Value}

  abbrev pub Answered : FfiCommand → Turn Value World → Type 0
  Answered cmd t = (map ticket_of t.sent ≡ one (awaited cmd)) × (t.stop ≡ is_shutdown cmd)

  serve-Answered :
      (i : IdleState) (cmd : FfiCommand) (now : ℕ) (s : Process World)
      → Answered cmd (serve p target idle_timeout data_path index_path i cmd now s)
  unfolding serve
  serve-Answered i cmd now s = dispatch_command-awaited p i.worker cmd s.world

  shutdown_awaits_none : (cmd : FfiCommand) → is_shutdown cmd ≡ true → [] ≡ one (awaited cmd)
  unfolding one
  shutdown_awaits_none cmd h = ground (arith, awaited_cases cmd)

  reopen_failed-Answered :
      (i : IdleState) (cmd : FfiCommand) (s : Process World)
      → is_shutdown cmd ≡ false
      → Answered cmd (reopen_failed p target idle_timeout data_path index_path i cmd s)
  unfolding reopen_failed
  reopen_failed-Answered i cmd s h = (reply_error-awaited _ cmd _, sym h)

  backed_off-Answered :
      (i : IdleState) (cmd : FfiCommand) (s : Process World)
      → Answered cmd (backed_off p target idle_timeout data_path index_path i cmd s)
  unfolding backed_off
  backed_off-Answered i cmd s = elim (Bool-cases (is_shutdown cmd)) [
    | inl h ↦ (rw h (shutdown_awaits_none cmd h), refl)
    | inr h ↦ (rw h (reply_error-awaited _ cmd _), refl)
  ]

  -- A received command is answered exactly once wherever the loop stands, and stops the loop exactly
  -- if it is a shutdown.
  pub turn-Answered :
      (i : IdleState) (cmd : FfiCommand) (now : ℕ) (s : Process World)
      → Answered cmd (turn p target idle_timeout data_path index_path i (received cmd now) s)
  turn-Answered i cmd now s =
      received_cases p target idle_timeout data_path index_path (Answered cmd) i now s cmd
        (λ h. (shutdown_awaits_none cmd h, sym h)) (λ _ _. serve-Answered i cmd now s)
        (λ _ _ st s1 _. serve-Answered _ cmd now s1)
        (λ h _ e s1 _. reopen_failed-Answered i cmd s1 h) (backed_off-Answered i cmd s)

  pub turn-timed_out :
      (i : IdleState) (now : ℕ) (s : Process World)
      → let t = turn p target idle_timeout data_path index_path i (timed_out now) s in
        (t.sent ≡ []) × (t.stop ≡ false)
  unfolding suspend
  turn-timed_out i now s =
      timed_out_cases p target idle_timeout data_path index_path
        (λ t. (t.sent ≡ []) × (t.stop ≡ false)) i now s (λ _ _. (refl, refl)) (refl, refl)
        (refl, refl)

  -- The idle loop, whatever the library and the clock do: each command before the first shutdown is
  -- answered exactly once, over its own channel and with its type, in the order of arrival, also
  -- while the isolate is closed, when it cannot be opened again and while the loop backs off.
  pub run_worker_loop_with_idle-awaited :
      (i : IdleState) (events : List Event) (s : Process World)
      → map ticket_of
          (run_worker_loop_with_idle p target idle_timeout data_path index_path i events s).0
        ≡ all_awaited (commands events)
  unfolding run_worker_loop_with_idle commands all_awaited
  run_worker_loop_with_idle-awaited i [] s = refl
  run_worker_loop_with_idle-awaited i (timed_out now ∷ rest) s =
      rw (quiet.1, quiet.0, run_worker_loop_with_idle)
        (run_worker_loop_with_idle-awaited t.state rest t.process)
    where
      t : Turn Value World
      t = turn p target idle_timeout data_path index_path i (timed_out now) s

      quiet : (t.sent ≡ []) × (t.stop ≡ false)
      quiet = turn-timed_out i now s
  run_worker_loop_with_idle-awaited i (received cmd now ∷ rest) s =
      rw
        (if_map (λ (r : List (Sent Value) × IdleState × Process World). map ticket_of r.0) t.stop _
          _)
        (answer_then cmd (commands rest) t.sent _ t.stop answered.0 answered.1
          (run_worker_loop_with_idle-awaited t.state rest t.process))
    where
      t : Turn Value World
      t = turn p target idle_timeout data_path index_path i (received cmd now) s

      answered : Answered cmd t
      answered = turn-Answered i cmd now s
