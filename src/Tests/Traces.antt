-- ===== src/Tests/Traces.antt =====
-- Sendings and turns of one worker on the small platform.
use chrondb.Base.{
  ℕ, String, false, Option, none, some, List, [], ◌∷◌, ◌++◌, ◌≡◌, refl, arith, ◌>>=◌,
}
use chrondb.Base.Text.{nul_position}
use chrondb.Command.{put, get}
use chrondb.Setup.Install.{ensure_library_installed}
use chrondb.Loader.{get_library, load_once}
use chrondb.Worker.State.{c_string, optional_cstring}
use chrondb.Worker.Init.{init_worker}
use chrondb.Worker.Dispatch.{is_shutdown, dispatch_command}
use chrondb.Worker.Handlers.{handle_put}
use chrondb.Worker.Idle.{Event, received, timed_out, turn}
use chrondb.Worker.Thread.{commands}
use chrondb.Client.Documents.Queue.{DocCommand, served_by_table}
use chrondb.Registry.{create_new_worker, register}
use chrondb.System.{System, enter, start_side, send_command}
use chrondb.System.Threads.{serve_side, wake_side, serve_thread, wake_thread, create_thread}
use chrondb.System.Reach.{sends}
use chrondb.System.Loops.{HasRun, run_side}
use chrondb.System.Trace.{Trace, over, others, woke, served, Trace-HasRun}
use chrondb.System.Table.{Trace-served_by_table}
use chrondb.Tests.Demo.{Store, demo, demo_target, saved}
use chrondb.Tests.Durable.{session}
use chrondb.Tests.Documents.{table_of, IsUp, keeping}
use chrondb.Tests.System.{opened_with}

-- The handle puts, and the thread takes its turn; it gets, and behind the idle time the thread takes
-- another one.
abbrev put_sent : Option ℕ → System String Store
put_sent o = send_command 0 (put "user:1" "{}" none 1) (opened_with o)

abbrev put_served : Option ℕ → System String Store
put_served o = serve_thread demo demo_target 0 5 (put_sent o)

abbrev get_sent : Option ℕ → System String Store
get_sent o = send_command 0 (get "user:1" none 2) (put_served o)

abbrev woken : Option ℕ → System String Store
woken o = wake_thread demo demo_target 0 40000000000 (get_sent o)

abbrev get_served : Option ℕ → System String Store
get_served o = serve_thread demo demo_target 0 50000000000 (woken o)

abbrev seen : List Event
seen =
    received (put "user:1" "{}" none 1) 5
    ∷ timed_out 40000000000
    ∷ received (get "user:1" none 2) 50000000000
    ∷ []

idle-Trace :
    Trace demo demo_target 0 (opened_with (some 10000000000)) seen (get_served (some 10000000000))
unfolding enter register create_thread create_new_worker init_worker get_library
    ensure_library_installed load_once c_string nul_position send_command start_side serve_thread
    serve_side wake_thread wake_side turn is_shutdown dispatch_command handle_put ◌>>=◌
idle-Trace =
    let o : Option ℕ = some 10000000000 in
    others _ (put_sent o) _ _ (sends 0 (put "user:1" "{}" none 1) _ (omega arith) refl refl)
      (record { side = refl; ended = refl; replies = refl; process = refl })
      (served 5 (put "user:1" "{}" none 1) [] _ _ _ refl refl (
        others (put_served o) (get_sent o) _ _
          (sends 0 (get "user:1" none 2) _ (omega arith) refl refl)
          (record { side = refl; ended = refl; replies = refl; process = refl })
          (woke 40000000000 _ _ _ refl
            (served 50000000000 (get "user:1" none 2) [] _ _ _ refl refl (over _ _ refl)))))

idle_alive : ((opened_with (some 10000000000)).threads 0).ended ≡ false
unfolding enter register create_thread create_new_worker init_worker get_library
    ensure_library_installed load_once c_string nul_position send_command start_side serve_thread
    serve_side wake_thread wake_side turn is_shutdown dispatch_command handle_put ◌>>=◌
idle_alive = refl

Trace-HasRun_example :
    let s = opened_with (some 10000000000) in
    HasRun demo demo_target 0
      (s.threads 0)
      (get_served (some 10000000000))
      (run_side demo demo_target (s.threads 0).side seen s.process)
Trace-HasRun_example =
    Trace-HasRun demo demo_target 0 (opened_with (some 10000000000)) (get_served (some 10000000000))
      seen idle_alive idle-Trace

-- The same with no idle timeout, up to the first turn.
plain-Trace :
    Trace demo demo_target 0
      (opened_with none)
      (received (put "user:1" "{}" none 1) 5 ∷ [])
      (get_sent none)
unfolding enter register create_thread create_new_worker init_worker get_library
    ensure_library_installed load_once c_string nul_position send_command start_side serve_thread
    serve_side wake_thread wake_side turn is_shutdown dispatch_command handle_put ◌>>=◌
plain-Trace =
    others _ (put_sent none) _ _ (sends 0 (put "user:1" "{}" none 1) _ (omega arith) refl refl)
      (record { side = refl; ended = refl; replies = refl; process = refl })
      (served 5 (put "user:1" "{}" none 1) [] _ _ _ refl refl (
        others (put_served none) (get_sent none) _ _
          (sends 0 (get "user:1" none 2) _ (omega arith) refl refl)
          (record { side = refl; ended = refl; replies = refl; process = refl }) (over _ _ refl)))

Trace-served_by_table_example :
    ((get_sent none).threads 0).replies
    ≡ ((opened_with none).threads 0).replies
      ++ served_by_table demo saved
          (DocCommand.put "user:1" "{}" 1 ∷ [])
          (table_of (opened_with none).process.world)
unfolding enter register create_thread create_new_worker init_worker get_library
    ensure_library_installed load_once c_string nul_position start_side optional_cstring commands
Trace-served_by_table_example =
    Trace-served_by_table demo demo_target 0 session none none refl saved IsUp table_of keeping
      (opened_with none) (get_sent none) (received (put "user:1" "{}" none 1) 5 ∷ [])
      (DocCommand.put "user:1" "{}" 1 ∷ []) (table_of (opened_with none).process.world) refl refl
      refl (tt, λ k. refl) plain-Trace
