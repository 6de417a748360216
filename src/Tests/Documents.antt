-- ===== src/Tests/Documents.antt =====
-- The small platform keeps a table of documents, also where its isolate is closed between the calls.
use chrondb.Base.{String, true, Option, none, List, [], ◌∷◌, ◌≡◌, refl, arith, ok, err, eq_iff}
use chrondb.Base.Int.{pos}
use chrondb.Base.Text.{nul_position}
use chrondb.Error.{not_found, operation_failed}
use chrondb.Platform.Ffi.{null}
use chrondb.Command.{value, done}
use chrondb.Worker.State.{optional_cstring, get_last_error}
use chrondb.Client.Served.{calls, plain_link}
use chrondb.Client.Documents.Plain.{calls-all_on_table}
use chrondb.Client.Documents.Idle.{idle_calls-all_on_table}
use chrondb.Worker.Idle.{from_secs, start}
use chrondb.Client.IdleLink.{Pause, idle_link}
use chrondb.Client.Documents.{
  DocCall, methods_of, put, get, delete, insert, on_table, all_on_table, IsKeeping,
}
use chrondb.Tests.Demo.{Store, lookup, removed, saved, demo, demo_target, installed}
use chrondb.Tests.Durable.{
  session, SameDocs, ClosedDocs, functional, durable, data-free, index-free, loaded_process,
}

abbrev Docs : Type 0
Docs = List (String × String)

lookup-removed :
    (id : String) (docs : Docs) (k : String)
    → lookup k (removed id docs) ≡ insert id none (λ j. lookup j docs) k
lookup-removed id [] k = ground arith
lookup-removed id ((j, v) ∷ rest) k =
    ground (arith, lookup-removed id rest k, eq_iff j id, eq_iff id k, eq_iff j k)

abbrev pub table_of : Store → String → Option String
table_of w k = lookup k w.docs

-- The small platform's session is up in every state.
abbrev pub IsUp : Store → Type 0
IsUp w = Unit

pub keeping : IsKeeping demo session null saved IsUp table_of
unfolding get_last_error
keeping = record {
  puts = λ id doc shown kept w up e.
      (ground (arith, e), ground (arith, e), tt, λ k. ground (arith, e));
  refuses = λ id doc w up e. (ground (arith, e), ground (arith, e), tt, λ k. ground (arith, e));
  gets = λ id text w up there.
      (ground (arith, there), ground (arith, there), tt, λ k. ground (arith, there));
  misses = λ id w up e. (ground (arith, e), tt, λ k. ground (arith, e));
  deletes = λ id text w up there.
      (ground (arith, there), tt, λ k. ground (arith, there, lookup-removed id.text w.docs k));
  deletes_none = λ id w up e. (ground (arith, e), tt, λ k. ground (arith, e));
}

abbrev asked_docs : List (DocCall String)
asked_docs =
    put "user:1" "{}"
    ∷ put "user:1" "[]"
    ∷ get "user:1"
    ∷ delete "user:1"
    ∷ get "user:1"
    ∷ delete "user:2"
    ∷ []

-- What is refused changes nothing, and what is deleted is not found again.
asked_docs_replies :
    all_on_table demo saved asked_docs (table_of installed)
    ≡ value (ok "{\"id\":\"user:1\"}")
      ∷ value (err (operation_failed "put returned null"))
      ∷ value (ok "{\"id\":\"user:1\"}")
      ∷ done (ok tt)
      ∷ value (err not_found)
      ∷ done (err not_found)
      ∷ []
unfolding all_on_table on_table nul_position
asked_docs_replies = refl

calls-all_on_table_example :
    (calls demo
      (plain_link demo session)
      (methods_of none asked_docs)
      (record { next_channel = 5; side = (true, installed) })).0
    ≡ all_on_table demo saved asked_docs (table_of installed)
unfolding optional_cstring
calls-all_on_table_example =
    calls-all_on_table demo session none none refl saved IsUp table_of keeping asked_docs 5
      installed (table_of installed) (tt, λ k. refl)

-- The isolate is closed behind the delete.
abbrev doc_pauses : List Pause
doc_pauses =
    record { timeouts = []; receipt = 4 }
    ∷ record { timeouts = []; receipt = 5 }
    ∷ record { timeouts = []; receipt = 6 }
    ∷ record { timeouts = []; receipt = 7 }
    ∷ record { timeouts = from_secs 40 ∷ []; receipt = from_secs 50 }
    ∷ record { timeouts = []; receipt = from_secs 51 }
    ∷ []

idle_calls-all_on_table_example :
    (calls demo
      (idle_link demo demo_target (from_secs 10) "/data" "/index")
      (methods_of none asked_docs)
      (record {
        next_channel = 5;
        side = record {
          serving = true;
          state = start session 0;
          process = loaded_process;
          pauses = doc_pauses;
        };
      })).0
    ≡ all_on_table demo saved asked_docs (table_of installed)
unfolding optional_cstring
idle_calls-all_on_table_example =
    idle_calls-all_on_table demo demo_target "/data" "/index" data-free index-free SameDocs
      ClosedDocs (functional (λ w. pos 0)) durable (from_secs 10) none none refl saved IsUp table_of
      session session keeping asked_docs 5 0 doc_pauses loaded_process installed
      (table_of installed) (refl, refl) (refl, (refl, refl, refl)) (tt, λ k. refl)
