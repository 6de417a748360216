-- ===== src/Worker/Loop.antt =====
-- `run_worker_loop`: commands are taken from the channel until a shutdown, or until every sender is
-- gone. The commands that the channel delivers are a list, at the end of which it is disconnected.
use chrondb.Base.{List, [], ◌∷◌, ◌++◌, if◌then◌else◌}
use chrondb.Platform.{Platform}
use chrondb.Command.{FfiCommand, Sent}
use chrondb.Worker.State.{FfiWorkerState}
use chrondb.Worker.Dispatch.{dispatch_command}

module _ (p : Platform) where
  open p use {World, Value}

  unfoldable pub run_worker_loop :
      FfiWorkerState → List FfiCommand → World → List (Sent Value) × World
  run_worker_loop st [] w = ([], w)
  run_worker_loop st (cmd ∷ rest) w =
      let d = dispatch_command p st cmd w in
      let later = run_worker_loop st rest d.world in
      if d.stop then (d.sent, d.world) else (d.sent ++ later.0, later.1)
