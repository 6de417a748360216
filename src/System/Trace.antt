-- ===== src/System/Trace.antt =====
-- A thread's turns among the steps of all other callers are the loop that it runs.
use mathlib.Core.List.{append-nil}
use chrondb.Base.{
  ℕ, Bool, true, false, List, [], ◌∷◌, ◌++◌, ◌≡◌, refl, sym, ◌∙◌, ap, subst, Bool-cases, inl, inr,
  if◌then◌else◌,
}
use chrondb.Platform.{Platform}
use chrondb.Setup.Target.{Target}
use chrondb.Setup.Install.{Process}
use chrondb.Command.{FfiCommand, Sent}
use chrondb.Worker.Idle.{Event, received, timed_out}
use chrondb.System.{Side, Thread, System}
use chrondb.System.Threads.{serve_side, close_side, wake_side, serve_thread, wake_thread}
use chrondb.System.Reach.{Step}
use chrondb.System.Drain.{wake_thread-IsQuiet, serve_thread-after_serving}
use chrondb.System.Loops.{
  Outcome, run_side, run_side-nil, run_side-received, run_side-timed_out, HasRun,
  wake_thread-wake_side, serve_thread-process_after, stopped-HasRun, and_then-HasRun, if_else,
  if_then,
}

module _ (p : Platform) (target : Target) (id : ℕ) where
  open p use {World, Value}

  -- The thread and the process are left as they are, but for the thread's channel.
  pub record IsUndisturbed (s t : System Value World) : Type 0 where
    pub side : (t.threads id).side ≡ (s.threads id).side
    pub ended : (t.threads id).ended ≡ (s.threads id).ended
    pub replies : (t.threads id).replies ≡ (s.threads id).replies
    pub process : t.process ≡ s.process

  -- Steps of the process, with the turns of the thread as events, and between them steps of any callers
  -- that leave the thread and the process as they are: sendings, to this thread too, opens that find a
  -- worker, and drops.
  pub data Trace : System Value World → List Event → System Value World → Type 0 where
    over : (s u : System Value World) → u ≡ s → Trace s [] u
    others :
        (s t u : System Value World) (events : List Event)
        → Step p target s t
        → IsUndisturbed s t
        → Trace t events u
        → Trace s events u
    woke :
        (now : ℕ) (s u : System Value World) (events : List Event)
        → (s.threads id).ended ≡ false
        → Trace (wake_thread p target id now s) events u
        → Trace s (timed_out now ∷ events) u
    served :
        (now : ℕ) (cmd : FfiCommand) (rest : List FfiCommand) (s u : System Value World)
        (events : List Event)
        → (s.threads id).ended ≡ false
        → (s.threads id).queue ≡ cmd ∷ rest
        → Trace (serve_thread p target id now s) events u
        → Trace s (received cmd now ∷ events) u

  -- A thread that has ended takes no more turns.
  Trace-ended :
      (s u : System Value World) (events : List Event)
      → (s.threads id).ended ≡ true
      → Trace s events u
      → (events ≡ []) × IsUndisturbed s u
  Trace-ended s u _ ended (over _ _ e) =
      (refl, rw e (record { side = refl; ended = refl; replies = refl; process = refl }))
  Trace-ended s u events ended (others _ t _ _ st same tr) =
      let (none_left, later) = Trace-ended t u events (same.ended ∙ ended) tr in
      (
        none_left,
        record {
          side = later.side ∙ same.side;
          ended = later.ended ∙ same.ended;
          replies = later.replies ∙ same.replies;
          process = later.process ∙ same.process;
        },
      )
  Trace-ended s u _ ended (woke now _ _ events alive tr) = absurd (cc (ended, alive))
  Trace-ended s u _ ended (served now cmd rest _ _ events alive first tr) =
      absurd (cc (ended, alive))

  -- The run of a thread's loop from another state with the same thread and process.
  same-HasRun :
      (s t u : System Value World) (events : List Event)
      → IsUndisturbed s t
      → HasRun p target id (t.threads id) u (run_side p target (t.threads id).side events t.process)
      → HasRun p target id (s.threads id) u (run_side p target (s.threads id).side events s.process)
  same-HasRun s t u events same (replies, side, process) =
      let runs =
        ap (λ (x : Side). run_side p target x events t.process) same.side
        ∙ ap (λ (x : Process World). run_side p target (s.threads id).side events x) same.process in
      subst (HasRun p target id (s.threads id) u) runs (
        replies
            ∙ ap
                (λ (x : List (Sent Value)).
                  x ++ (run_side p target (t.threads id).side events t.process).0)
                same.replies,
        side,
        process,
      )

  undisturbed-HasRun :
      (x : Thread Value) (t u : System Value World) (r : Outcome p target)
      → IsUndisturbed t u
      → HasRun p target id x t r
      → HasRun p target id x u r
  undisturbed-HasRun x t u r same (replies, side, process) = (
    same.replies ∙ replies,
    same.side ∙ side,
    same.process
        ∙ process
        ∙ ap
            (λ (b : Bool).
              if b then record r.2 { world = close_side p target r.1 r.2.world } else r.2)
            (sym same.ended),
  )

  -- The loop before it has received anything.
  none-HasRun :
      (s : System Value World)
      → (s.threads id).ended ≡ false
      → HasRun p target id (s.threads id) s (run_side p target (s.threads id).side [] s.process)
  none-HasRun s alive =
      rw (run_side-nil p target (s.threads id).side s.process, alive)
        (sym (append-nil (s.threads id).replies), refl, refl)

  woke-HasRun :
      (now : ℕ) (s u : System Value World) (events : List Event)
      → let t = wake_thread p target id now s in
        HasRun p target id (t.threads id) u (run_side p target (t.threads id).side events t.process)
        → HasRun p target id
            (s.threads id)
            u
            (run_side p target (s.threads id).side (timed_out now ∷ events) s.process)
  woke-HasRun now s u events (replies, side, process) =
      let t = wake_thread p target id now s in
      let q = wake_side p target (s.threads id).side now s.process in
      let (side_now, process_now) = wake_thread-wake_side p target id now s in
      let runs =
        ap (λ (x : Side). run_side p target x events t.process) side_now
        ∙ ap (λ (x : Process World). run_side p target q.0 events x) process_now
        ∙ sym (run_side-timed_out p target (s.threads id).side now events s.process) in
      subst (HasRun p target id (s.threads id) u) runs (
        replies
            ∙ ap
                (λ (x : List (Sent Value)).
                  x ++ (run_side p target (t.threads id).side events t.process).0)
                (wake_thread-IsQuiet p target id now s).replies,
        side,
        process,
      )

  -- The thread's turns from a state where it has not ended, among any steps of other callers that leave
  -- the thread and the process as they are, and whatever the library does: what it sends, its variables
  -- and the process behind it are those of its loop, the plain one or the idle one, on the commands that
  -- it took and the timeouts between them, and of the closing where the loop has ended.
  pub Trace-HasRun :
      (s u : System Value World) (events : List Event)
      → (s.threads id).ended ≡ false
      → Trace s events u
      → HasRun p target id (s.threads id) u (run_side p target (s.threads id).side events s.process)
  Trace-HasRun s u _ alive (over _ _ e) = rw e (none-HasRun s alive)
  Trace-HasRun s u events alive (others _ t _ _ st same tr) =
      same-HasRun s t u events same (Trace-HasRun t u events (same.ended ∙ alive) tr)
  Trace-HasRun s u _ alive (woke now _ _ events _ tr) =
      let still = (wake_thread-IsQuiet p target id now s).ended ∙ alive in
      woke-HasRun now s u events (Trace-HasRun (wake_thread p target id now s) u events still tr)
  Trace-HasRun s u _ alive (served now cmd rest _ _ events _ first tr) =
      let t = serve_thread p target id now s in
      let d = serve_side p target (s.threads id).side cmd now s.process in
      let after = serve_thread-after_serving p target id now cmd rest s first in
      let process = serve_thread-process_after p target id now cmd rest s first in
      let replies = ap (λ (x : Thread Value). x.replies) after in
      let side = ap (λ (x : Thread Value). x.side) after in
      let ended = ap (λ (x : Thread Value). x.ended) after in
      let runs = run_side-received p target (s.threads id).side cmd now events s.process in
      elim (Bool-cases d.stop) [
        | inl stops ↦
            let (none_left, same) = Trace-ended t u events (ended ∙ stops) tr in
            subst (HasRun p target id (s.threads id) u) (sym (runs ∙ if_then d.stop _ _ stops)) (
              undisturbed-HasRun (s.threads id) t u (d.sent, d.side, d.process) same
                (stopped-HasRun p target id (s.threads id) t d replies side ended process stops))
        | inr more ↦
            let processed = process ∙ if_else d.stop _ _ more in
            let same =
              ap (λ (x : Side). run_side p target x events t.process) side
              ∙ ap (λ (x : Process World). run_side p target d.side events x) processed in
            let next = Trace-HasRun t u events (ended ∙ more) tr in
            subst (HasRun p target id (s.threads id) u) (sym (runs ∙ if_else d.stop _ _ more)) (
              and_then-HasRun p target id (s.threads id) (t.threads id) d.sent u _ replies
                (subst (HasRun p target id (t.threads id) u) same next))
      ]
