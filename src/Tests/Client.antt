-- ===== src/Tests/Client.antt =====
-- The methods of a handle.
use chrondb.Base.{String, true, none, List, [], ◌∷◌, ◌≡◌, refl, ok, err, inl, ◌>>=◌}
use chrondb.Base.Int.{pos}
use chrondb.Error.{not_found}
use chrondb.Command.{FfiCommand, value, done, put, get, shutdown}
use chrondb.Worker.State.{FfiWorkerState, c_string}
use chrondb.Worker.Handlers.{handle_put, handle_get, handle_delete}
use chrondb.Client.{Link}
use chrondb.Client.Served.{Method, call, calls, direct, directs, plain_link, calls-direct}
use chrondb.Client.Links.{gone, call-gone}
use chrondb.Tests.Demo.{demo, installed}

abbrev serving_worker : FfiWorkerState
serving_worker = record { isolate = 10; thread = 11; handle = pos 0 }

abbrev asked : List (Method String)
asked =
    Method.put "user:1" "{}" none
    ∷ Method.get "user:1" none
    ∷ Method.get "user:2" none
    ∷ Method.delete "user:2" none
    ∷ []

-- What is put is got again.
asked_replies :
    (directs demo serving_worker asked installed).0
    ≡ value (ok "{\"id\":\"user:1\"}")
      ∷ value (ok "{\"id\":\"user:1\"}")
      ∷ value (err not_found)
      ∷ done (err not_found)
      ∷ []
unfolding directs direct handle_put handle_get handle_delete ◌>>=◌ c_string
asked_replies = refl

calls-direct_example :
    let q =
      calls demo
        (plain_link demo serving_worker)
        asked
        (record { next_channel = 5; side = (true, installed) }) in
    (q.0 ≡ (directs demo serving_worker asked installed).0)
    × (q.1.side ≡ (true, (directs demo serving_worker asked installed).1))
calls-direct_example = calls-direct demo serving_worker asked 5 installed

abbrev asked_commands : List FfiCommand
asked_commands = put "user:1" "{}" none 1 ∷ shutdown ∷ get "user:1" none 2 ∷ []

-- A thread that is gone.
abbrev no_thread : Link String (Unit {0})
no_thread = record { send = λ cmd s. (none, s) }

call-gone_example :
    (call demo no_thread (Method.get "user:1" none) (record { next_channel = 0; side = tt })).0
    ≡ gone demo (Method.get "user:1" none)
call-gone_example =
    call-gone demo no_thread (Method.get "user:1" none) (record { next_channel = 0; side = tt })
      (λ cmd s. inl refl)
