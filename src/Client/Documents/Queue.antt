-- ===== src/Client/Documents/Queue.antt =====
-- The handles of one database share a table: their commands in one queue of the plain loop.
use chrondb.Base.{ℕ, String, Option, List, [], ◌∷◌, ◌≡◌, refl, arith, ok}
use chrondb.Platform.{Platform}
use chrondb.Platform.Ffi.{CString}
use chrondb.Command.{FfiCommand, Reply, Sent}
use chrondb.Worker.State.{FfiWorkerState, optional_cstring, ptr_or_null}
use chrondb.Worker.Dispatch.{dispatch_command}
use chrondb.Worker.Loop.{run_worker_loop}
use chrondb.Client.Documents.{Saving, Table, put_text, on_table, IsKeeping}
use chrondb.Client.Documents
use chrondb.Client.Documents.Plain.{put_text-Gives, get-Gives, delete-Gives}

-- A command of any handle, with the channel that its caller waits on.
pub data DocCommand : Type 0 where
  put : (id doc : String) (reply : ℕ) → DocCommand
  get delete : (id : String) (reply : ℕ) → DocCommand
  shutdown : DocCommand

abbrev pub commands_of : Option String → List DocCommand → List FfiCommand
commands_of branch [] = []
commands_of branch (put id doc reply ∷ cmds) =
    FfiCommand.put id doc branch reply ∷ commands_of branch cmds
commands_of branch (get id reply ∷ cmds) = FfiCommand.get id branch reply ∷ commands_of branch cmds
commands_of branch (delete id reply ∷ cmds) =
    FfiCommand.delete id branch reply ∷ commands_of branch cmds
commands_of branch (shutdown ∷ cmds) = FfiCommand.shutdown ∷ commands_of branch cmds

module _ (p : Platform) where
  open p use {World, Value}

  abbrev reply_to : ℕ → Reply Value → Sent Value
  reply_to reply r = record { channel = reply; payload = r }

  -- What is sent for the commands of a queue, by the table alone.
  unfoldable pub served_by_table : Saving → List DocCommand → Table → List (Sent Value)
  unfolding on_table
  served_by_table saving [] t = []
  served_by_table saving (put id doc reply ∷ cmds) t =
      let (r, t1) = put_text p saving id doc t in reply_to reply r ∷ served_by_table saving cmds t1
  served_by_table saving (get id reply ∷ cmds) t =
      let (r, t1) = on_table p saving (Documents.get id) t in
      reply_to reply r ∷ served_by_table saving cmds t1
  served_by_table saving (delete id reply ∷ cmds) t =
      let (r, t1) = on_table p saving (Documents.delete id) t in
      reply_to reply r ∷ served_by_table saving cmds t1
  served_by_table saving (shutdown ∷ cmds) t = []

module _ (p : Platform) (st : FfiWorkerState) (branch : Option String) (c_branch : Option CString)
    (passes : optional_cstring branch ≡ ok c_branch) (saving : Saving) (Up : p.World → Type 0)
    (docs : p.World → Table) (lib : IsKeeping p st (ptr_or_null c_branch) saving Up docs) where
  open p use {World, Value}

  -- Commands to put, get and delete documents of one branch, of any number of handles and in any order
  -- in which they come into the queue of the plain loop, where the branch's name has no NUL, the session is
  -- up, and the library keeps the documents of the branch while it is, of texts as `saving` tells, and reads as the table t at the start: what is sent, over
  -- which channels and in which order, is what one table gives for the commands one after the other up
  -- to a shutdown. So a command sees all that was put and deleted by the commands before it in the queue,
  -- of whichever handle, and nothing of the commands behind it.
  pub run_worker_loop-served_by_table :
      (cmds : List DocCommand) (w : World) (t : Table)
      → Up w × ((k : String) → docs w k ≡ t k)
      → (run_worker_loop p st (commands_of branch cmds) w).0 ≡ served_by_table p saving cmds t
  unfolding run_worker_loop served_by_table dispatch_command
  run_worker_loop-served_by_table [] w t reads = refl
  run_worker_loop-served_by_table (put id doc reply ∷ cmds) w t reads =
      let (same, kept) =
        put_text-Gives p st branch c_branch passes saving Up docs lib id doc w t reads in
      ground (arith, same, run_worker_loop-served_by_table cmds _ _ kept)
  run_worker_loop-served_by_table (get id reply ∷ cmds) w t reads =
      let (same, kept) = get-Gives p st branch c_branch passes saving Up docs lib id w t reads in
      ground (arith, same, run_worker_loop-served_by_table cmds _ _ kept)
  run_worker_loop-served_by_table (delete id reply ∷ cmds) w t reads =
      let (same, kept) = delete-Gives p st branch c_branch passes saving Up docs lib id w t reads in
      ground (arith, same, run_worker_loop-served_by_table cmds _ _ kept)
  run_worker_loop-served_by_table (shutdown ∷ cmds) w t reads = refl
