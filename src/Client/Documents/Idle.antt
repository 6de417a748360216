-- ===== src/Client/Documents/Idle.antt =====
-- The replies of a handle whose worker runs the idle loop are those of the table too.
use chrondb.Base.{ℕ, String, true, Option, none, List, [], ◌∷◌, ◌≡◌, refl, ◌∙◌, ok}
use chrondb.Base.Text.{nul_position}
use chrondb.Platform.{Platform}
use chrondb.Platform.Ffi.{CString}
use chrondb.Setup.Target.{Target}
use chrondb.Setup.Install.{Process}
use chrondb.Worker.State.{FfiWorkerState, optional_cstring, ptr_or_null}
use chrondb.Worker.Idle.{start}
use chrondb.Worker.Durable.Session.{HasLibrary}
use chrondb.Worker.Durable.{Relation, IsFunctional, IsDurable}
use chrondb.Client.Served.{calls}
use chrondb.Client.Simulation.{none_asks}
use chrondb.Client.IdleLink.{Pause, idle_link, calls-directs}
use chrondb.Client.Documents.{
  DocCall, put, get, delete, methods_of, Saving, Table, all_on_table, IsKeeping,
}
use chrondb.Client.Documents.Plain.{directs-all_on_table}

-- No call about a document asks for the last error.
methods_of-quiet :
    {V : Type 0} (branch : Option String) (ms : List (DocCall V))
    → none_asks (methods_of branch ms) ≡ true
unfolding none_asks
methods_of-quiet branch [] = refl
methods_of-quiet branch (put id doc ∷ ms) = methods_of-quiet branch ms
methods_of-quiet branch (get id ∷ ms) = methods_of-quiet branch ms
methods_of-quiet branch (delete id ∷ ms) = methods_of-quiet branch ms

module _ (p : Platform) (target : Target) (data_path index_path : String)
    (data_free : nul_position data_path ≡ none) (index_free : nul_position index_path ≡ none)
    (R : Relation p) (Closed : p.World → FfiWorkerState → p.World → Type 0) (f : IsFunctional p R)
    (d : IsDurable p R Closed data_path index_path) (idle_timeout : ℕ) where
  open p use {World, Value}

  -- Calls of put, get and delete on one branch through a handle with an idle timeout, with any timeouts
  -- and so any closings of the isolate between, where the library is loaded and the paths and the
  -- branch's name have no NUL byte. The library's calls tell only of the contents, its closing keeps
  -- them for the next opening, which succeeds, and a session on the same contents is up, keeps the documents
  -- of the branch, of texts as `saving` tells, and reads as the table t: the replies are those of the table.
  pub idle_calls-all_on_table :
      (branch : Option String) (c_branch : Option CString)
      → optional_cstring branch ≡ ok c_branch
      → (saving : Saving) (Up : World → Type 0) (docs : World → Table) (st su : FfiWorkerState)
      → IsKeeping p su (ptr_or_null c_branch) saving Up docs
      → (ms : List (DocCall Value)) (n now : ℕ) (pauses : List Pause) (s : Process World)
        (y : World) (t : Table)
      → HasLibrary s
      → R st s.world su y
      → Up y × ((k : String) → docs y k ≡ t k)
      → (calls p
          (idle_link p target idle_timeout data_path index_path)
          (methods_of branch ms)
          (record {
            next_channel = n;
            side = record { serving = true; state = start st now; process = s; pauses = pauses };
          })).0
        ≡ all_on_table p saving ms t
  idle_calls-all_on_table branch c_branch passes saving Up docs st su lib ms n now pauses s y t l r
        reads =
      calls-directs p target data_path index_path data_free index_free R Closed f d idle_timeout
        (methods_of branch ms) n now pauses st su s y l r (methods_of-quiet branch ms)
      ∙ directs-all_on_table p su branch c_branch passes saving Up docs lib ms y t reads
