-- ===== src/Client/IdleLink.antt =====
-- A handle whose worker runs the idle loop.
use mathlib.Core.List.{append-nil}
use chrondb.Base.{
  ℕ, String, Bool, true, not, none, some, List, [], ◌∷◌, ◌++◌, map, ◌≡◌, refl, ◌∙◌, ap, inl,
  if◌then◌else◌,
}
use chrondb.Base.Text.{nul_position}
use chrondb.Platform.{Platform}
use chrondb.Setup.Target.{Target}
use chrondb.Setup.Install.{Process}
use chrondb.Command.{FfiCommand}
use chrondb.Worker.State.{FfiWorkerState}
use chrondb.Worker.Dispatch.{is_shutdown, dispatch_command}
use chrondb.Worker.Replies.{dispatch_command-awaited}
use chrondb.Worker.Idle.{received, timed_out, IdleState, start, run_worker_loop_with_idle}
use chrondb.Worker.Durable.{Relation, IsFunctional, IsDurable}
use chrondb.Worker.Durable.Session.{HasLibrary}
use chrondb.Worker.Durable.Transparent.{Inv, received-Follows, timed_out-Waits}
use chrondb.Client.{Link}
use chrondb.Client.Served.{Method, calls, directs, plain_link, calls-direct}
use chrondb.Client.Simulation.{IsPlain, none_asks, calls-Alike}

-- What the clock tells until the next command: the timeouts before it, and its receipt.
pub record Pause : Type 0 where
  pub timeouts : List ℕ
  pub receipt : ℕ

-- The worker's side: whether it serves, where its loop stands, and the clock that is to come, which
-- stands still behind the last pause.
pub record IdleSide (W : Type 0) : Type 0 where
  pub serving : Bool
  pub state : IdleState
  pub process : Process W
  pub pauses : List Pause

abbrev next_pause : List Pause → Pause × List Pause
next_pause [] = (record { timeouts = []; receipt = 0 }, [])
next_pause (q ∷ rest) = (q, rest)

module _ (p : Platform) (target : Target) (idle_timeout : ℕ) (data_path index_path : String) where
  open p use {World, Value}

  -- The other side of a handle, where the worker runs the idle loop.
  unfoldable pub idle_link : Link Value (IdleSide World)
  idle_link = record {
    send = λ cmd s.
        if s.serving
        then (let (q, later) = next_pause s.pauses in
            let (sent, i, s1) =
              run_worker_loop_with_idle p target idle_timeout data_path index_path s.state
                (map timed_out q.timeouts ++ received cmd q.receipt ∷ []) s.process in
            (
              some sent,
              record { serving = not (is_shutdown cmd); state = i; process = s1; pauses = later },
            ))
        else (none, s);
  }

module _ (p : Platform) (target : Target) (data_path index_path : String)
    (data_free : nul_position data_path ≡ none) (index_free : nul_position index_path ≡ none)
    (R : Relation p) (Closed : p.World → FfiWorkerState → p.World → Type 0) (f : IsFunctional p R)
    (d : IsDurable p R Closed data_path index_path) (idle_timeout : ℕ) where
  open p use {World}

  abbrev Kept : IdleState → Process World → FfiWorkerState → World → Type 0
  Kept = Inv p target data_path index_path data_free index_free R Closed f d

  -- Timeouts and a command send what the dispatch does, and keep the contents together.
  paused-Kept :
      (ts : List ℕ) (cmd : FfiCommand) (now : ℕ) (i : IdleState) (s : Process World)
      (su : FfiWorkerState) (y : World)
      → IsPlain cmd
      → Kept i s su y
      → let q =
          run_worker_loop_with_idle p target idle_timeout data_path index_path i
            (map timed_out ts ++ received cmd now ∷ [])
            s in
        let e = dispatch_command p su cmd y in (q.0 ≡ e.sent) × Kept q.1 q.2 su e.world
  unfolding run_worker_loop_with_idle
  paused-Kept [] cmd now i s su y (runs, quiet) v =
      let (stop, sent, after) =
        received-Follows p target data_path index_path data_free index_free R Closed f d
          idle_timeout i cmd now s su y quiet v in
      let go_on = stop ∙ (dispatch_command-awaited p su cmd y).1 ∙ runs in
      rw (go_on) (append-nil _ ∙ sent, after go_on)
  paused-Kept (t ∷ ts) cmd now i s su y plain v =
      let (stop, sent, after) =
        timed_out-Waits p target data_path index_path data_free index_free R Closed f d idle_timeout
          i t s su y v in
      rw (stop, sent) (paused-Kept ts cmd now _ _ su y plain after)

  -- The idle loop's side, beside the plain loop's.
  abbrev Beside : FfiWorkerState → IdleSide World → Bool × World → Type 0
  Beside su s t = (s.serving ≡ true) × (t.0 ≡ true) × Kept s.state s.process su t.1

  sends-Beside :
      (su : FfiWorkerState) (cmd : FfiCommand) (s : IdleSide World) (t : Bool × World)
      → IsPlain cmd
      → Beside su s t
      → let q = (idle_link p target idle_timeout data_path index_path).send cmd s in
        let r = (plain_link p su).send cmd t in (q.0 ≡ r.0) × Beside su q.1 r.1
  unfolding idle_link plain_link
  sends-Beside su cmd s t plain (on, up, v) =
      let stop = (dispatch_command-awaited p su cmd t.1).1 ∙ plain.0 in
      let (pause, later) = next_pause s.pauses in
      let (sent, after) =
        paused-Kept pause.timeouts cmd pause.receipt s.state s.process su t.1 plain v in
      rw (on, up) (ap some sent, (rw (plain.0) refl, rw stop refl, after))

  -- Over a library whose calls tell only of the contents, and whose closing keeps them for the next
  -- opening, which succeeds: any calls of methods through a handle, but for the last error, whose worker
  -- runs the idle loop and has the library loaded, where the paths have no NUL byte and with any timeouts
  -- between the calls, in which the isolate is closed or not, return what the handlers of their commands
  -- give, one after the other, on a session with the same contents.
  pub calls-directs :
      (ms : List (Method p.Value)) (n now : ℕ) (pauses : List Pause) (st su : FfiWorkerState)
      (s : Process World) (y : World)
      → HasLibrary s
      → R st s.world su y
      → none_asks ms ≡ true
      → (calls p (idle_link p target idle_timeout data_path index_path) ms (record {
        next_channel = n;
        side = record { serving = true; state = start st now; process = s; pauses = pauses };
      })).0
        ≡ (directs p su ms y).0
  calls-directs ms n now pauses st su s y l r quiet =
      calls-Alike p (idle_link p target idle_timeout data_path index_path) (plain_link p su)
        (Beside su) (sends-Beside su) ms n _ (true, y) quiet
        (refl, refl, (refl, (l, inl (refl, r))))
      ∙ (calls-direct p su ms n y).0
