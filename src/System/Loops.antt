-- ===== src/System/Loops.antt =====
-- A turn of a thread against the loop that it runs.
use mathlib.Core.List.{append_assoc}
use chrondb.Base.{
  ℕ, Bool, true, false, List, [], ◌∷◌, ◌++◌, ◌≡◌, refl, ◌∙◌, ap, arith, if◌then◌else◌,
}
use chrondb.Platform.{Platform}
use chrondb.Setup.Target.{Target}
use chrondb.Setup.Install.{Process}
use chrondb.Command.{FfiCommand, Sent}
use chrondb.Worker.Idle.{Event, received, timed_out, run_worker_loop_with_idle}
use chrondb.Worker.Loop.{run_worker_loop}
use chrondb.Worker.Thread.{commands}
use chrondb.Worker.Replies.{turn-timed_out}
use chrondb.System.{Side, plain, idle, Thread, System, Served}
use chrondb.System.Threads.{
  serve_side, wake_side, close_side, serve_thread, wake_thread, serve_next, process_after,
}
use chrondb.System.Drain.{at_worker_self}

pub if_then : {A : Type 0} (b : Bool) (x y : A) → b ≡ true → (if b then x else y) ≡ x
if_then b x y e = rw e refl

pub if_else : {A : Type 0} (b : Bool) (x y : A) → b ≡ false → (if b then x else y) ≡ y
if_else b x y e = rw e refl

module _ (p : Platform) (target : Target) where
  open p use {World, Value}

  abbrev pub Outcome : Type 0
  Outcome = List (Sent Value) × Side × Process World

  -- The loop of the thread, on what its `recv` returns.
  unfoldable pub run_side : Side → List Event → Process World → Outcome
  unfolding commands
  run_side (plain st) events s =
      let (sent, w) = run_worker_loop p st (commands events) s.world in
      (sent, plain st, record s { world = w })
  run_side (idle timeout data_path index_path i) events s =
      let (sent, i1, s1) =
        run_worker_loop_with_idle p target timeout data_path index_path i events s in
      (sent, idle timeout data_path index_path i1, s1)

  abbrev pub and_then : List (Sent Value) → Outcome → Outcome
  and_then sent r = (sent ++ r.0, r.1, r.2)

  pub run_side-received :
      (side : Side) (cmd : FfiCommand) (now : ℕ) (events : List Event) (s : Process World)
      → let d = serve_side p target side cmd now s in
        run_side side (received cmd now ∷ events) s ≡ (
          if d.stop
          then (d.sent, d.side, d.process)
          else and_then d.sent (run_side d.side events d.process))
  unfolding run_side serve_side run_worker_loop run_worker_loop_with_idle
  run_side-received (plain st) cmd now events s = ground arith
  run_side-received (idle timeout data_path index_path i) cmd now events s = ground arith

  pub run_side-timed_out :
      (side : Side) (now : ℕ) (events : List Event) (s : Process World)
      → let q = wake_side p target side now s in
        run_side side (timed_out now ∷ events) s ≡ run_side q.0 events q.1
  unfolding run_side wake_side run_worker_loop run_worker_loop_with_idle
  run_side-timed_out (plain st) now events s = refl
  run_side-timed_out (idle timeout data_path index_path i) now events s =
      ground (arith, turn-timed_out p target timeout data_path index_path i now s)

  pub run_side-nil : (side : Side) (s : Process World) → run_side side [] s ≡ ([], side, s)
  unfolding run_side run_worker_loop run_worker_loop_with_idle
  run_side-nil (plain st) s = refl
  run_side-nil (idle timeout data_path index_path i) s = refl

module _ (p : Platform) (target : Target) (id : ℕ) where
  open p use {World, Value}

  pub wake_thread-wake_side :
      (now : ℕ) (s : System Value World)
      → let q = wake_side p target (s.threads id).side now s.process in
        (((wake_thread p target id now s).threads id).side ≡ q.0)
        × ((wake_thread p target id now s).process ≡ q.1)
  unfolding wake_thread
  wake_thread-wake_side now s =
      (ap (λ (t : Thread Value). t.side) (at_worker_self s.threads id _), refl)

  pub serve_thread-process_after :
      (now : ℕ) (cmd : FfiCommand) (rest : List FfiCommand) (s : System Value World)
      → (s.threads id).queue ≡ cmd ∷ rest
      → (serve_thread p target id now s).process
        ≡ process_after p target (serve_side p target (s.threads id).side cmd now s.process)
  unfolding serve_thread serve_next
  serve_thread-process_after now cmd rest s e = rw e refl

  -- A thread and the process behind a run of its loop, and behind the closing where the loop has ended.
  abbrev pub HasRun : Thread Value → System Value World → Outcome p target → Type 0
  HasRun t s r =
      ((s.threads id).replies ≡ t.replies ++ r.0)
      × ((s.threads id).side ≡ r.1)
      × (s.process ≡ (
          if (s.threads id).ended
          then record r.2 { world = close_side p target r.1 r.2.world }
          else r.2))

  -- The last turn, and an earlier one.
  pub stopped-HasRun :
      (t : Thread Value) (s : System Value World) (d : Served Value World)
      → (s.threads id).replies ≡ t.replies ++ d.sent
      → (s.threads id).side ≡ d.side
      → (s.threads id).ended ≡ d.stop
      → s.process ≡ process_after p target d
      → d.stop ≡ true
      → HasRun t s (d.sent, d.side, d.process)
  stopped-HasRun t s d replies side ended process over =
      (replies, side, process ∙ rw (ended, over) refl)

  pub and_then-HasRun :
      (t u : Thread Value) (sent : List (Sent Value)) (s : System Value World)
      (r : Outcome p target)
      → u.replies ≡ t.replies ++ sent
      → HasRun u s r
      → HasRun t s (and_then p target sent r)
  and_then-HasRun t u sent s r first (replies, side, process) = (
    replies ∙ ap (λ (x : List (Sent Value)). x ++ r.0) first ∙ append_assoc t.replies sent r.0,
    side,
    process,
  )
