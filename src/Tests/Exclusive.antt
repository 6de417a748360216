-- ===== src/Tests/Exclusive.antt =====
-- A database is opened, dropped, and opened again on the small platform.
use chrondb.Base.{ℕ, zero, suc, String, none, [], ◌∷◌, ◌≡◌, refl, arith}
use chrondb.Base.Text.{nul_position}
use chrondb.Setup.Install.{ensure_library_installed}
use chrondb.Loader.{get_library, load_once}
use chrondb.Worker.State.{c_string}
use chrondb.Worker.Init.{init_worker}
use chrondb.Worker.Dispatch.{is_shutdown, dispatch_command}
use chrondb.Registry.{
  Key, no_workers, create_new_worker, register, release, unregister, find_worker, upgrade,
}
use chrondb.System.{
  System, plain, spawned, enter, start_side, let_go, remove, send_shutdown, join_thread,
}
use chrondb.System.Threads.{created_thread, serve_side, serve_thread}
use chrondb.System.Reach.{lets_go, removes, stops, serves, joins}
use chrondb.System.Exclusive.Opens.{IsCalm, open_whole}
use chrondb.System.Exclusive.Single.{Reached, begins, steps, opens, moves, is_open, Reached-single}
use chrondb.Tests.Demo.{Store, demo, demo_target}
use chrondb.Tests.Durable.{session, loaded_process}

abbrev paths : Key
paths = record { data_path = "/" ∷ "data" ∷ []; index_path = "/" ∷ "index" ∷ [] }

abbrev first : System String Store
first = record {
  workers = no_workers;
  threads = λ id. spawned (plain session);
  process = loaded_process;
}

abbrev opened_once : System String Store
opened_once = open_whole demo demo_target paths none "/data" "/index" 3 first

abbrev let_go_once : System String Store
let_go_once = let_go 0 opened_once

abbrev removed_once : System String Store
removed_once = remove 0 let_go_once

abbrev stopped_once : System String Store
stopped_once = send_shutdown 0 removed_once

abbrev ended_once : System String Store
ended_once = serve_thread demo demo_target 0 9 stopped_once

abbrev joined_once : System String Store
joined_once = join_thread 0 ended_once

abbrev opened_twice : System String Store
opened_twice = open_whole demo demo_target paths none "/data" "/index" 12 joined_once

first-IsCalm : IsCalm paths first
first-IsCalm id made e = refl

opened_once-Reached : Reached demo demo_target opened_once
opened_once-Reached =
    steps (begins (plain session) loaded_process)
      (opens paths none "/data" "/index" 3 _ first-IsCalm refl)

joined_once-Reached : Reached demo demo_target joined_once
unfolding is_open open_whole enter register create_new_worker init_worker get_library
    ensure_library_installed load_once c_string nul_position created_thread start_side let_go
    release remove unregister send_shutdown serve_thread serve_side dispatch_command is_shutdown
    join_thread find_worker upgrade
joined_once-Reached =
    let a = steps opened_once-Reached (moves let_go_once (lets_go 0 _ (omega arith) refl) refl) in
    let b = steps a (moves removed_once (removes 0 _ refl refl) refl) in
    let c = steps b (moves stopped_once (stops 0 _ refl refl) refl) in
    let d = steps c (moves ended_once (serves 0 9 _ refl refl) refl) in
    steps d (moves joined_once (joins 0 _ refl refl refl) refl)

joined_once-IsCalm : IsCalm paths joined_once
unfolding open_whole enter register create_new_worker init_worker get_library
    ensure_library_installed load_once c_string nul_position created_thread start_side let_go
    release remove unregister send_shutdown serve_thread serve_side dispatch_command is_shutdown
    join_thread find_worker upgrade
joined_once-IsCalm zero made e = refl
joined_once-IsCalm (suc n) made e = absurd (omega arith)

opened_twice-Reached : Reached demo demo_target opened_twice
opened_twice-Reached =
    steps joined_once-Reached (opens paths none "/data" "/index" 12 _ joined_once-IsCalm refl)

Reached-single_example : ◌≡◌ {A = ℕ} 1 1
unfolding open_whole enter register create_new_worker init_worker get_library
    ensure_library_installed load_once c_string nul_position created_thread start_side let_go
    release remove unregister send_shutdown serve_thread serve_side dispatch_command is_shutdown
    join_thread find_worker upgrade
Reached-single_example =
    Reached-single demo demo_target 1 1 opened_twice-Reached (omega arith) (omega arith) refl refl
      refl
