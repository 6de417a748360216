-- ===== src/System/Reach.antt =====
-- The steps of the process, and what it comes to by them.
use chrondb.Base.{ℕ, ◌<◌, String, true, false, Option, ◌≡◌}
use chrondb.Platform.{Platform}
use chrondb.Setup.Target.{Target}
use chrondb.Setup.Install.{Process}
use chrondb.Command.{FfiCommand}
use chrondb.Worker.Dispatch.{is_shutdown}
use chrondb.Registry.{Key, no_workers}
use chrondb.System.{
  Side, dropping, removed, stopping, System, spawned, look_up, enter, send_command, let_go, remove,
  send_shutdown, join_thread,
}
use chrondb.System.Threads.{create_thread, serve_thread, wake_thread}

module _ (p : Platform) (target : Target) where
  open p use {World, Value}

  -- A step of any caller or thread. A handle that is used was returned and not dropped, and the parts of
  -- a `drop` come in their order.
  pub data Step (s : System Value World) : System Value World → Type 0 where
    looks : (k : Key) (t : System Value World) → t ≡ look_up k s → Step s t
    creates :
        (k : Key) (idle_timeout : Option ℕ) (data_path index_path : String) (now : ℕ)
        (t : System Value World)
        → t ≡ create_thread p target k idle_timeout data_path index_path now s
        → Step s t
    enters : (k : Key) (id : ℕ) (t : System Value World) → t ≡ enter k id s → Step s t
    sends :
        (id : ℕ) (cmd : FfiCommand) (t : System Value World)
        → 0 < s.workers.strong id
        → is_shutdown cmd ≡ false
        → t ≡ send_command id cmd s
        → Step s t
    lets_go :
        (id : ℕ) (t : System Value World) → 0 < s.workers.strong id → t ≡ let_go id s → Step s t
    removes :
        (id : ℕ) (t : System Value World)
        → (s.threads id).phase ≡ dropping
        → t ≡ remove id s
        → Step s t
    stops :
        (id : ℕ) (t : System Value World)
        → (s.threads id).phase ≡ removed
        → t ≡ send_shutdown id s
        → Step s t
    serves :
        (id now : ℕ) (t : System Value World)
        → (s.threads id).ended ≡ false
        → t ≡ serve_thread p target id now s
        → Step s t
    wakes :
        (id now : ℕ) (t : System Value World)
        → (s.threads id).ended ≡ false
        → t ≡ wake_thread p target id now s
        → Step s t
    joins :
        (id : ℕ) (t : System Value World)
        → (s.threads id).phase ≡ stopping
        → (s.threads id).ended ≡ true
        → t ≡ join_thread id s
        → Step s t

  -- What a process comes to from its start, where no worker was made and nothing of the threads counts.
  pub data Reachable : System Value World → Type 0 where
    begins :
        (side : Side) (process : Process World)
        → Reachable
            (record { workers = no_workers; threads = λ id. spawned side; process = process })
    steps : {s t : System Value World} → Reachable s → Step s t → Reachable t
