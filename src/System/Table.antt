-- ===== src/System/Table.antt =====
-- The handles of one database share a table of documents, however they and the thread take turns.
use chrondb.Base.{ℕ, String, false, Option, List, ◌++◌, ◌≡◌, ◌∙◌, ap, ok}
use chrondb.Platform.{Platform}
use chrondb.Platform.Ffi.{CString}
use chrondb.Setup.Target.{Target}
use chrondb.Command.{FfiCommand, Sent}
use chrondb.Worker.State.{FfiWorkerState, optional_cstring, ptr_or_null}
use chrondb.Worker.Idle.{Event}
use chrondb.Worker.Loop.{run_worker_loop}
use chrondb.Worker.Thread.{commands}
use chrondb.Client.Documents.{Saving, Table, IsKeeping}
use chrondb.Client.Documents.Queue.{
  DocCommand, commands_of, served_by_table, run_worker_loop-served_by_table,
}
use chrondb.System.{System, Side, plain}
use chrondb.System.Loops.{run_side}
use chrondb.System.Trace.{Trace, Trace-HasRun}

module _ (p : Platform) (target : Target) (id : ℕ) (st : FfiWorkerState) (branch : Option String)
    (c_branch : Option CString) (passes : optional_cstring branch ≡ ok c_branch) (saving : Saving)
    (Up : p.World → Type 0) (docs : p.World → Table)
    (lib : IsKeeping p st (ptr_or_null c_branch) saving Up docs) where
  open p use {World, Value}

  plain-served_by_table :
      (side : Side) (s : System Value World) (events : List Event) (cmds : List DocCommand)
      (t : Table)
      → side ≡ plain st
      → commands events ≡ commands_of branch cmds
      → Up s.process.world × ((k : String) → docs s.process.world k ≡ t k)
      → (run_side p target side events s.process).0 ≡ served_by_table p saving cmds t
  unfolding run_side
  plain-served_by_table side s events cmds t e same reads =
      ap (λ (x : Side). (run_side p target x events s.process).0) e
      ∙ ap (λ (x : List FfiCommand). (run_worker_loop p st x s.process.world).0) same
      ∙ run_worker_loop-served_by_table p st branch c_branch passes saving Up docs lib cmds
          s.process.world t reads

  -- A worker's thread runs the plain loop and has not ended, the branch's name has no NUL, the session
  -- is up, and the library keeps the documents of the branch while it is, of texts as `saving` tells, and they read as the table t at the start. In any order of its turns
  -- and of steps of other callers that leave it and the process as they are, such as the sendings of any
  -- number of handles, it takes commands to put, get and delete documents of the branch: what it sends is
  -- what one table gives for these commands one after the other up to a shutdown.
  pub Trace-served_by_table :
      (s u : System Value World) (events : List Event) (cmds : List DocCommand) (t : Table)
      → (s.threads id).ended ≡ false
      → (s.threads id).side ≡ plain st
      → commands events ≡ commands_of branch cmds
      → Up s.process.world × ((k : String) → docs s.process.world k ≡ t k)
      → Trace p target id s events u
      → (u.threads id).replies ≡ (s.threads id).replies ++ served_by_table p saving cmds t
  Trace-served_by_table s u events cmds t alive side same reads tr =
      (Trace-HasRun p target id s u events alive tr).0
      ∙ ap (λ (x : List (Sent Value)). (s.threads id).replies ++ x)
          (plain-served_by_table (s.threads id).side s events cmds t side same reads)
