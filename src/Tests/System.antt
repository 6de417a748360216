-- ===== src/Tests/System.antt =====
-- One handle and its worker on the small platform.
use chrondb.Base.{
  ℕ, Option, ◌<◌, String, false, none, some, List, [], ◌∷◌, ◌++◌, map, ◌≡◌, ◌≢◌, refl, ok, arith,
}
use chrondb.Base.Text.{nul_position}
use chrondb.Command.{put, get, shutdown}
use chrondb.Worker.Init.{init_worker}
use chrondb.Worker.Replies.{ticket_of, of_value, awaited}
use chrondb.Registry.{Key, create_new_worker, register, release}
use chrondb.Loader.{get_library, load_once}
use chrondb.Setup.Install.{Process, ensure_library_installed}
use chrondb.Worker.State.{c_string}
use chrondb.Worker.Dispatch.{is_shutdown}
use chrondb.System.Delivery.{length}
use chrondb.System.Sound.{was_stopped}
use chrondb.Client.IdleLink.{Pause}
use chrondb.System.{
  System, plain, spawned, enter, send_command, let_go, remove, send_shutdown, dropping, removed,
}
use chrondb.System.Threads.{create_thread}
use chrondb.System.Reach.{Reachable, begins, steps, creates, enters, sends, lets_go, removes, stops}
use chrondb.System.Queues.{tickets, IsOrdered}
use chrondb.System.Delivery.{Reachable-delivers}
use chrondb.System.Drain.{drain, Reachable-drain}
use chrondb.System.Replied.{Received, Reachable-Received}
use chrondb.System.Overlap.{unlisted, Reachable-overlap}
use chrondb.Registry.{find_worker}
use chrondb.System.Threads.{create_thread}
use chrondb.Tests.Demo.{Store, demo, demo_target}
use chrondb.Tests.Durable.{session, loaded_process}

abbrev paths : Key
paths = record { data_path = "/" ∷ "data" ∷ []; index_path = "/" ∷ "index" ∷ [] }

-- A handle is opened, with an idle timeout or without.
abbrev pub opened_with : Option ℕ → System String Store
opened_with idle_timeout = enter paths 0 (
    create_thread demo demo_target paths idle_timeout "/data" "/index" 3 (record {
      workers = chrondb.Registry.no_workers;
      threads = λ id. spawned (plain session);
      process = loaded_process;
    }))

abbrev opened : System String Store
opened = opened_with (some 10000000000)

opened-Reachable : Reachable demo demo_target opened
opened-Reachable =
    steps
      (steps (begins (plain session) loaded_process)
        (creates paths (some 10000000000) "/data" "/index" 3 _ refl))
      (enters paths 0 _ refl)

opened-held : 0 < opened.workers.strong 0
unfolding enter register create_thread create_new_worker init_worker get_library
    ensure_library_installed load_once c_string nul_position
opened-held = omega arith

abbrev busy : System String Store
busy = send_command 0 (get "user:1" none 2) (send_command 0 (put "user:1" "{}" none 1) opened)

busy-Reachable : Reachable demo demo_target busy
unfolding send_command is_shutdown
busy-Reachable =
    steps (steps opened-Reachable (sends 0 (put "user:1" "{}" none 1) _ opened-held refl refl))
      (sends 0 (get "user:1" none 2) _ opened-held refl refl)

busy-held : 0 < busy.workers.strong 0
unfolding send_command
busy-held = opened-held

-- The handle goes, while the thread still has both commands before it.
abbrev dropped : System String Store
dropped = send_shutdown 0 (remove 0 (let_go 0 busy))

busy-dropping : ((let_go 0 busy).threads 0).phase ≡ dropping
unfolding let_go release send_command enter register create_thread create_new_worker init_worker
    get_library ensure_library_installed load_once c_string nul_position
busy-dropping = refl

busy-removed : ((remove 0 (let_go 0 busy)).threads 0).phase ≡ removed
unfolding remove
busy-removed = refl

dropped-Reachable : Reachable demo demo_target dropped
dropped-Reachable =
    steps
      (steps (steps busy-Reachable (lets_go 0 _ busy-held refl)) (removes 0 _ busy-dropping refl))
      (stops 0 _ busy-removed refl)

-- The isolate is closed between the two commands.
abbrev three_pauses : List Pause
three_pauses =
    record { timeouts = []; receipt = 5 }
    ∷ record { timeouts = 40000000000 ∷ []; receipt = 50000000000 }
    ∷ record { timeouts = []; receipt = 50000000001 }
    ∷ []

Reachable-delivers_example :
    ((busy.threads 0).ended ≡ false)
    × IsOrdered false (busy.threads 0).queue
    × (map ticket_of (busy.threads 0).replies ++ tickets (busy.threads 0).queue
        ≡ tickets (busy.threads 0).asked)
Reachable-delivers_example = Reachable-delivers demo demo_target 0 busy-Reachable busy-held

three_commands : length three_pauses ≡ length (dropped.threads 0).queue
unfolding let_go remove send_shutdown release send_command enter register create_thread
    create_new_worker init_worker get_library ensure_library_installed load_once c_string
    nul_position
three_commands = refl

Reachable-drain_example :
    let t = (drain demo demo_target 0 three_pauses dropped).threads 0 in
    (t.queue ≡ [])
    × (t.ended ≡ was_stopped (dropped.threads 0).phase)
    × (t.asked ≡ (dropped.threads 0).asked)
    × (map ticket_of t.replies ≡ tickets (dropped.threads 0).asked)
Reachable-drain_example =
    Reachable-drain demo demo_target 0 three_pauses dropped-Reachable three_commands

Reachable-Received_example :
    Received
      (record { channel = 2; reply_type = of_value })
      ((drain demo demo_target 0 three_pauses dropped).threads 0).replies
unfolding let_go remove send_shutdown release send_command enter register create_thread
    create_new_worker init_worker get_library ensure_library_installed load_once c_string
    nul_position awaited
Reachable-Received_example =
    Reachable-Received demo demo_target 0 three_pauses (put "user:1" "{}" none 1 ∷ [])
      (shutdown ∷ []) (get "user:1" none 2) (record { channel = 2; reply_type = of_value })
      dropped-Reachable refl refl three_commands

opened-one : opened.workers.strong 0 ≡ 1
unfolding enter register create_thread create_new_worker init_worker get_library
    ensure_library_installed load_once c_string nul_position
opened-one = refl

abbrev after_init : Process Store
after_init = (init_worker demo demo_target "/data" "/index" opened.process).1

opened-opens :
    init_worker demo demo_target "/data" "/index" opened.process ≡ (ok session, after_init)
unfolding enter register create_thread create_new_worker init_worker get_library
    ensure_library_installed load_once c_string nul_position
opened-opens = refl

Reachable-overlap_example :
    let k = opened.workers.key_of 0 in
    let u = unlisted demo demo_target 0 opened in
    let t = create_thread demo demo_target k none "/data" "/index" 7 u in
    let new = opened.workers.next in
    Reachable demo demo_target t
    × ((find_worker k u.workers).0 ≡ none)
    × (0 ≢ new)
    × (t.workers.key_of new ≡ t.workers.key_of 0)
    × (0 < t.workers.strong new)
    × ((t.threads new).ended ≡ false)
    × ((t.threads 0).ended ≡ false)
    × ((t.threads 0).phase ≡ removed)
Reachable-overlap_example =
    Reachable-overlap demo demo_target 0 none "/data" "/index" 7 session after_init opened-Reachable
      opened-one opened-opens
