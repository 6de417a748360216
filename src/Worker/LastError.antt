-- ===== src/Worker/LastError.antt =====
-- The last error behind a closing of the isolate.
use chrondb.Base.{
  ℕ, ◌-◌, ◌≤◌, String, true, false, none, some, List, [], ◌∷◌, ◌++◌, ◌≡◌, refl, ◌∙◌, ap, arith, ok,
}
use chrondb.Platform.{Platform}
use chrondb.Setup.Target.{Target}
use chrondb.Setup.Install.{Process}
use chrondb.Command.{FfiCommand, last_error, message, Sent}
use chrondb.Worker.State.{FfiWorkerState, close, get_last_error}
use chrondb.Worker.Dispatch.{is_shutdown, dispatch_command}
use chrondb.Worker.Init.{init_worker}
use chrondb.Worker.Loop.{run_worker_loop}
use chrondb.Worker.Idle.{
  Event, received, timed_out, IdleState, for_command, Turn, start, cleanup_stale_locks, serve,
  suspend, reopen, after_reopen, turn, run_worker_loop_with_idle,
}
use chrondb.Worker.Replies.{dispatch_command-awaited}
use chrondb.Worker.Thread.{commands}

module _ (p : Platform) (target : Target) (idle_timeout : ℕ) (data_path index_path : String) where
  open p use {World, Value}

  -- The process behind a closing and the removal of stale locks.
  abbrev pub closed_process : FfiWorkerState → Process World → Process World
  closed_process st s = record s {
    world = cleanup_stale_locks p target idle_timeout data_path index_path (close p st s.world).1;
  }

  abbrev Sends : List (Sent Value) → IdleState → Process World → Turn Value World → Type 0
  Sends sent i s t = (t.stop ≡ false) × (t.sent ≡ sent) × (t.state ≡ i) × (t.process ≡ s)

  -- One turn that goes on, in front of the others.
  run-Sends :
      (e : Event) (rest : List Event) (i i1 : IdleState) (s s1 : Process World)
      (sent : List (Sent Value))
      → Sends sent i1 s1 (turn p target idle_timeout data_path index_path i e s)
      → (run_worker_loop_with_idle p target idle_timeout data_path index_path i (e ∷ rest) s).0
        ≡ sent
          ++ (run_worker_loop_with_idle p target idle_timeout data_path index_path i1 rest s1).0
  unfolding run_worker_loop_with_idle
  run-Sends e rest i i1 s s1 sent (goes_on, sends, state, process) =
      rw (goes_on, sends, state, process, run_worker_loop_with_idle) refl

  command-Sends :
      (st : FfiWorkerState) (cmd : FfiCommand) (begun now : ℕ) (s : Process World)
      → is_shutdown cmd ≡ false
      → let d = dispatch_command p st cmd s.world in
        Sends d.sent
          (record (start st begun) { last_activity = now })
          (record s { world = d.world })
          (turn p target idle_timeout data_path index_path (start st begun) (received cmd now) s)
  unfolding turn serve
  command-Sends st cmd begun now s plain =
      rw (plain, turn) ((dispatch_command-awaited p st cmd s.world).1 ∙ plain, refl, refl, refl)

  timeout-Sends :
      (i : IdleState) (now : ℕ) (s : Process World)
      → i.waiting ≡ for_command
      → i.suspended ≡ false
      → idle_timeout ≤ now - i.last_activity
      → let (st, w) = close p i.worker s.world in
        Sends []
          (record i { worker = st; suspended = true })
          (record s { world = w })
          (turn p target idle_timeout data_path index_path i (timed_out now) s)
  unfolding turn suspend
  timeout-Sends i now s waits open_yet late = ground (arith)

  last_error-Sends :
      (i : IdleState) (new : FfiWorkerState) (now reply : ℕ) (s s1 : Process World)
      → i.waiting ≡ for_command
      → i.suspended ≡ true
      → init_worker p target data_path index_path (record s {
        world = cleanup_stale_locks p target idle_timeout data_path index_path s.world;
      })
        ≡ (ok new, s1)
      → let q = get_last_error p new s1.world in
        Sends
          (record { channel = reply; payload = message q.0 } ∷ [])
          (record i { worker = new; suspended = false; reopen_failures = 0; last_activity = now })
          (record s1 { world = q.1 })
          (turn p target idle_timeout data_path index_path i (received (last_error reply) now) s)
  unfolding turn reopen after_reopen serve dispatch_command is_shutdown
  last_error-Sends i new now reply s s1 waits suspended reopened = ground (arith)

  plain-last_error :
      (st : FfiWorkerState) (cmd : FfiCommand) (reply : ℕ) (w : World)
      → is_shutdown cmd ≡ false
      → let d = dispatch_command p st cmd w in
        (run_worker_loop p st (cmd ∷ last_error reply ∷ []) w).0
        ≡ d.sent
          ++ record { channel = reply; payload = message (get_last_error p st d.world).0 } ∷ []
  unfolding run_worker_loop dispatch_command is_shutdown
  plain-last_error st cmd reply w plain = ground (arith, dispatch_command-awaited p st cmd w)

  idle-last_error :
      (st new : FfiWorkerState) (cmd : FfiCommand) (begun served_at woken_at asked_at reply : ℕ)
      (s s1 : Process World)
      → is_shutdown cmd ≡ false
      → idle_timeout ≤ woken_at - served_at
      → let d = dispatch_command p st cmd s.world in
        init_worker p target data_path index_path (closed_process st (record s { world = d.world }))
          ≡ (ok new, s1)
        → (run_worker_loop_with_idle p target idle_timeout data_path index_path
            (start st begun)
            (received cmd served_at
              ∷ timed_out woken_at
              ∷ received (last_error reply) asked_at
              ∷ [])
            s).0
          ≡ d.sent
            ++ record { channel = reply; payload = message (get_last_error p new s1.world).0 } ∷ []
  unfolding run_worker_loop_with_idle
  idle-last_error st new cmd begun served_at woken_at asked_at reply s s1 plain late reopened =
      let d = dispatch_command p st cmd s.world in
      let i1 : IdleState = record (start st begun) { last_activity = served_at } in
      let s2 : Process World = record s { world = d.world } in
      let (st3, w3) = close p st d.world in
      let i3 : IdleState = record i1 { worker = st3; suspended = true } in
      let s3 : Process World = record s { world = w3 } in
      let ask = received (last_error reply) asked_at in
      run-Sends (received cmd served_at) (timed_out woken_at ∷ ask ∷ []) (start st begun) i1 s s2
        d.sent (command-Sends st cmd begun served_at s plain)
      ∙ ap (λ (x : List (Sent Value)). d.sent ++ x)
          (run-Sends (timed_out woken_at) (ask ∷ []) i1 i3 s2 s3 []
              (timeout-Sends i1 woken_at s2 refl refl late)
            ∙ run-Sends ask [] i3 _ s3 _ _
                (last_error-Sends i3 new asked_at reply s3 s1 refl refl reopened))

  -- At the start of a loop comes a command that is no shutdown and leaves an error in the library; then
  -- nothing for at least the idle time; and then the question for the last error. Where the reopening succeeds, and a database that was just opened has no last error, the
  -- plain loop tells the error, and the idle loop that there is none; both reply to the command alike.
  pub run_worker_loop_with_idle-last_error :
      (st new : FfiWorkerState) (cmd : FfiCommand) (begun served_at woken_at asked_at reply : ℕ)
      (msg : String) (s s1 : Process World)
      → is_shutdown cmd ≡ false
      → idle_timeout ≤ woken_at - served_at
      → let d = dispatch_command p st cmd s.world in
        init_worker p target data_path index_path (closed_process st (record s { world = d.world }))
          ≡ (ok new, s1)
        → (get_last_error p st d.world).0 ≡ some msg
        → (get_last_error p new s1.world).0 ≡ none
        → let events =
            received cmd served_at
            ∷ timed_out woken_at
            ∷ received (last_error reply) asked_at
            ∷ [] in
          ((run_worker_loop p st (commands events) s.world).0
            ≡ d.sent ++ record { channel = reply; payload = message (some msg) } ∷ [])
          × ((run_worker_loop_with_idle p target idle_timeout data_path index_path
                (start st begun)
                events
                s).0
              ≡ d.sent ++ record { channel = reply; payload = message none } ∷ [])
  unfolding commands
  run_worker_loop_with_idle-last_error st new cmd begun served_at woken_at asked_at reply msg s s1
        plain late reopened told forgotten =
      (
        plain-last_error st cmd reply s.world plain ∙ rw told refl,
        idle-last_error st new cmd begun served_at woken_at asked_at reply s s1 plain late reopened
            ∙ rw forgotten refl,
      )
