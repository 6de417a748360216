-- ===== src/Worker/Callers.antt =====
-- What each of the callers receives whose commands stand in one queue.
use chrondb.Base.{
  ℕ, Bool, true, false, not, ◌&&◌, Option, none, some, List, [], ◌∷◌, ◌++◌, ◌≡◌, refl, ◌∙◌, arith,
  ◌==◌,
}
use chrondb.Platform.{Platform}
use chrondb.Command.{FfiCommand, shutdown, Reply, Sent}
use chrondb.Worker.State.{FfiWorkerState}
use chrondb.Worker.Dispatch.{is_shutdown, dispatch_command}
use chrondb.Worker.Loop.{run_worker_loop}
use chrondb.Worker.Replies.{Ticket, awaited, dispatch_command-awaited}
use chrondb.Client.{recv, or_else}

abbrev is_channel : ℕ → Option Ticket → Bool
is_channel ch none = false
is_channel ch (some t) = t.channel == ch

-- Whether a command waits for a reply over the channel.
unfoldable pub awaits : ℕ → FfiCommand → Bool
unfolding awaited
awaits ch cmd = is_channel ch (awaited cmd)

-- No command of the list waits over the channel.
unfoldable pub none_awaits : ℕ → List FfiCommand → Bool
unfolding awaits
none_awaits ch [] = true
none_awaits ch (cmd ∷ rest) = let more = none_awaits ch rest in not (awaits ch cmd) && more

-- No command of the list is a shutdown.
unfoldable pub none_stops : List FfiCommand → Bool
unfolding is_shutdown
none_stops [] = true
none_stops (cmd ∷ rest) = let more = none_stops rest in not (is_shutdown cmd) && more

module _ {V A : Type 0} (read : Reply V → Option A) (ch : ℕ) where
  recv-append :
      (xs ys : List (Sent V))
      → recv read ch (xs ++ ys) ≡ or_else (recv read ch xs) (recv read ch ys)
  unfolding recv
  recv-append [] ys = refl
  recv-append (s ∷ xs) ys = ground (arith, recv-append xs ys)

module _ (p : Platform) (st : FfiWorkerState) {A : Type 0} (read : Reply p.Value → Option A)
    (ch : ℕ) where
  open p use {World, Value}

  dispatch_command-others :
      (cmd : FfiCommand) (w : World)
      → awaits ch cmd ≡ false
      → recv read ch (dispatch_command p st cmd w).sent ≡ none
  unfolding dispatch_command awaits recv awaited
  dispatch_command-others shutdown w h = refl
  dispatch_command-others _ w h = rw h refl

  run_worker_loop-others :
      (cmds : List FfiCommand) (w : World)
      → none_awaits ch cmds ≡ true
      → recv read ch (run_worker_loop p st cmds w).0 ≡ none
  unfolding run_worker_loop none_awaits recv
  run_worker_loop-others [] w h = refl
  run_worker_loop-others (cmd ∷ rest) w h =
      let d = dispatch_command p st cmd w in
      let now = dispatch_command-others cmd w in
      let later = run_worker_loop-others rest d.world in
      ground
        (arith, h, now, later, recv-append read ch d.sent (run_worker_loop p st rest d.world).0)

  -- Commands of any number of callers in one queue of the plain loop: a caller whose channel no other
  -- command has, and before whose command there is no shutdown, receives over it what the dispatch of
  -- its own command sends over it in the state that the commands before it left, whatever comes behind.
  pub recv-run_worker_loop :
      (before : List FfiCommand) (cmd : FfiCommand) (after : List FfiCommand) (w : World)
      → none_stops before ≡ true
      → none_awaits ch before ≡ true
      → none_awaits ch after ≡ true
      → recv read ch (run_worker_loop p st (before ++ cmd ∷ after) w).0
        ≡ recv read ch (dispatch_command p st cmd (run_worker_loop p st before w).1).sent
  unfolding run_worker_loop none_awaits none_stops
  recv-run_worker_loop [] cmd after w running fresh unused =
      let d = dispatch_command p st cmd w in
      let later = run_worker_loop-others after d.world unused in
      ground (arith, later, recv-append read ch d.sent (run_worker_loop p st after d.world).0)
  recv-run_worker_loop (first ∷ before) cmd after w running fresh unused =
      let d = dispatch_command p st first w in
      let go_on : d.stop ≡ false =
        (dispatch_command-awaited p st first w).1 ∙ ground (arith, running) in
      let now : recv read ch d.sent ≡ none =
        dispatch_command-others first w (ground (arith, fresh)) in
      rw
        (
          go_on,
          recv-append read ch d.sent (run_worker_loop p st (before ++ cmd ∷ after) d.world).0,
          now,
        )
        (recv-run_worker_loop before cmd after d.world (ground (arith, running))
          (ground (arith, fresh)) unused)
