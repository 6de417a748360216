-- ===== src/Worker/Refusals.antt =====
-- Commands whose texts cannot be passed to the library: a C string holds no NUL byte.
use chrondb.Base.{ℕ, String, false, Option, none, some, List, [], ◌∷◌, ◌≡◌, arith, ◌>>=◌}
use chrondb.Base.Text.{nul_position, nul_error}
use chrondb.Platform.{Platform}
use chrondb.Command.{
  FfiCommand, put, get, delete, list_by_prefix, list_by_table, history, query, execute_sql,
  last_error, setup_remote, push, pull, fetch, remote_status, export_to, create_backup,
  restore_backup, export_snapshot, import_snapshot, shutdown,
}
use chrondb.Worker.State.{FfiWorkerState, c_string, optional_cstring}
use chrondb.Worker.Handlers.{
  c_arg, handle_put, handle_get, handle_delete, handle_list_by_prefix, handle_list_by_table,
  handle_history, handle_query, handle_execute_sql, handle_setup_remote, handle_export,
  handle_create_backup, handle_restore_backup, handle_export_snapshot, handle_import_snapshot,
}
use chrondb.Worker.Dispatch.{dispatch_command, reply_error}

-- The texts of a command that are passed to the library, in the order in which they are converted.
abbrev and_branch : Option String → List String
and_branch none = []
and_branch (some b) = b ∷ []

unfoldable pub texts : FfiCommand → List String
texts (put id doc branch _) = id ∷ doc ∷ and_branch branch
texts (get id branch _) = id ∷ and_branch branch
texts (delete id branch _) = id ∷ and_branch branch
texts (list_by_prefix prefix branch _) = prefix ∷ and_branch branch
texts (list_by_table table branch _) = table ∷ and_branch branch
texts (history id branch _) = id ∷ and_branch branch
texts (query query_json branch _) = query_json ∷ and_branch branch
texts (execute_sql sql branch _) = sql ∷ and_branch branch
texts (last_error _) = []
texts (setup_remote remote_url _) = remote_url ∷ []
texts (push _) = []
texts (pull _) = []
texts (fetch _) = []
texts (remote_status _) = []
texts (export_to target_dir options _) = target_dir ∷ options ∷ []
texts (create_backup output_path options _) = output_path ∷ options ∷ []
texts (restore_backup input_path options _) = input_path ∷ options ∷ []
texts (export_snapshot output_path options _) = output_path ∷ options ∷ []
texts (import_snapshot input_path options _) = input_path ∷ options ∷ []
texts shutdown = []

-- Where the first NUL byte of the texts stands in its text.
unfoldable pub first_nul : List String → Option ℕ
first_nul [] = none
first_nul (s ∷ rest) =
    let later = first_nul rest in elim (nul_position s) [ none ↦ later | some k ↦ some k ]

module _ (p : Platform) (st : FfiWorkerState) where
  -- A command with a NUL byte in any of its texts is refused with the place of the first one, over its
  -- own channel, before the library is called: the world is as it was, and the loop goes on.
  pub dispatch_command-refuses :
      (cmd : FfiCommand) (w : p.World) (k : ℕ)
      → first_nul (texts cmd) ≡ some k
      → dispatch_command p st cmd w
        ≡ record { stop = false; sent = reply_error cmd (nul_error k); world = w }
  unfolding texts first_nul dispatch_command reply_error c_arg c_string optional_cstring ◌>>=◌
      handle_put handle_get handle_delete handle_list_by_prefix handle_list_by_table handle_history
      handle_query handle_execute_sql handle_setup_remote handle_export handle_create_backup
      handle_restore_backup handle_export_snapshot handle_import_snapshot
  dispatch_command-refuses (put id doc branch r) w k h = ground (arith, h)
  dispatch_command-refuses (get id branch r) w k h = ground (arith, h)
  dispatch_command-refuses (delete id branch r) w k h = ground (arith, h)
  dispatch_command-refuses (list_by_prefix x branch r) w k h = ground (arith, h)
  dispatch_command-refuses (list_by_table x branch r) w k h = ground (arith, h)
  dispatch_command-refuses (history id branch r) w k h = ground (arith, h)
  dispatch_command-refuses (query q branch r) w k h = ground (arith, h)
  dispatch_command-refuses (execute_sql q branch r) w k h = ground (arith, h)
  dispatch_command-refuses (last_error r) w k h = ground (arith, h)
  dispatch_command-refuses (setup_remote u r) w k h = ground (arith, h)
  dispatch_command-refuses (push r) w k h = ground (arith, h)
  dispatch_command-refuses (pull r) w k h = ground (arith, h)
  dispatch_command-refuses (fetch r) w k h = ground (arith, h)
  dispatch_command-refuses (remote_status r) w k h = ground (arith, h)
  dispatch_command-refuses (export_to x o r) w k h = ground (arith, h)
  dispatch_command-refuses (create_backup x o r) w k h = ground (arith, h)
  dispatch_command-refuses (restore_backup x o r) w k h = ground (arith, h)
  dispatch_command-refuses (export_snapshot x o r) w k h = ground (arith, h)
  dispatch_command-refuses (import_snapshot x o r) w k h = ground (arith, h)
  dispatch_command-refuses shutdown w k h = ground (arith, h)
