-- ===== src/Worker/Monitor/Calls.antt =====
-- Every command that the worker serves respects the rules of the native library, whatever the library
-- returns.
use chrondb.Base.{zero, suc, String, Option, ◌≡◌, refl}
use chrondb.Base.Int.{ℤ, pos, negsuc}
use chrondb.Error.{not_found}
use chrondb.Platform.{Platform}
use chrondb.Command.{
  FfiCommand, put, get, delete, list_by_prefix, list_by_table, history, query, execute_sql,
  last_error, setup_remote, push, pull, fetch, remote_status, export_to, create_backup,
  restore_backup, export_snapshot, import_snapshot, shutdown,
}
use chrondb.Worker.State.{FfiWorkerState, fail_with_last_error}
use chrondb.Worker.Dispatch.{dispatch_command}
use chrondb.Worker.Handlers.{
  delete_outcome, handle_put, handle_delete, handle_get, handle_list_by_prefix,
  handle_list_by_table, handle_history, handle_query, handle_execute_sql, handle_setup_remote,
  handle_push, handle_pull, handle_fetch, handle_remote_status, handle_export, handle_create_backup,
  handle_restore_backup, handle_export_snapshot, handle_import_snapshot,
}
use chrondb.Worker.Monitor.{Monitor, watch, serving}
use chrondb.Worker.Monitor.Keeps.{
  Keeps, Keeps-return, Keeps-throw, Keeps-lift, Keeps-fail_with_last_error, Keeps-string_call,
  Keeps-string_call_parse, Keeps-number_call, get_last_error-keeps,
}

module _ (p : Platform) (st : FfiWorkerState) where
  abbrev m0 : Monitor
  m0 = serving st.thread st.handle

  failed : (default : String) → Keeps {A = p.Value} m0 (fail_with_last_error (watch p) st default)
  failed default = Keeps-fail_with_last_error p st p.Value default

  handle_put-Keeps :
      (id doc : String) (branch : Option String) → Keeps m0 (handle_put (watch p) st id doc branch)
  unfolding handle_put
  handle_put-Keeps id doc branch =
      Keeps-lift _ _
        λ c_id. Keeps-lift _ _ λ c_doc. Keeps-lift _ _ λ c_branch. Keeps-string_call_parse p st _

  delete_outcome-Keeps : (ret : ℤ) → Keeps m0 (delete_outcome (watch p) st ret)
  unfolding delete_outcome
  delete_outcome-Keeps (pos zero) = Keeps-return tt
  delete_outcome-Keeps (pos (suc zero)) = Keeps-throw not_found
  delete_outcome-Keeps (pos (suc (suc n))) = Keeps-fail_with_last_error p st Unit "delete failed"
  delete_outcome-Keeps (negsuc n) = Keeps-fail_with_last_error p st Unit "delete failed"

  handle_delete-Keeps :
      (id : String) (branch : Option String) → Keeps m0 (handle_delete (watch p) st id branch)
  unfolding handle_delete
  handle_delete-Keeps id branch =
      Keeps-lift _ _
        λ c_id. Keeps-lift _ _ λ c_branch. Keeps-number_call p st _ _ _ delete_outcome-Keeps

  handle_get-Keeps :
      (id : String) (branch : Option String) → Keeps m0 (handle_get (watch p) st id branch)
  unfolding handle_get
  handle_get-Keeps id branch =
      Keeps-lift _ _ λ c0. Keeps-lift _ _ λ c1. Keeps-string_call p st _ _ (Keeps-throw not_found)

  handle_list_by_prefix-Keeps :
      (prefix : String) (branch : Option String)
      → Keeps m0 (handle_list_by_prefix (watch p) st prefix branch)
  unfolding handle_list_by_prefix
  handle_list_by_prefix-Keeps prefix branch =
      Keeps-lift _ _
        λ c0. Keeps-lift _ _ λ c1. Keeps-string_call p st _ _ (Keeps-return p.empty_array)

  handle_list_by_table-Keeps :
      (table : String) (branch : Option String)
      → Keeps m0 (handle_list_by_table (watch p) st table branch)
  unfolding handle_list_by_table
  handle_list_by_table-Keeps table branch =
      Keeps-lift _ _
        λ c0. Keeps-lift _ _ λ c1. Keeps-string_call p st _ _ (Keeps-return p.empty_array)

  handle_history-Keeps :
      (id : String) (branch : Option String) → Keeps m0 (handle_history (watch p) st id branch)
  unfolding handle_history
  handle_history-Keeps id branch =
      Keeps-lift _ _
        λ c0. Keeps-lift _ _ λ c1. Keeps-string_call p st _ _ (Keeps-return p.empty_array)

  handle_query-Keeps :
      (query_json : String) (branch : Option String)
      → Keeps m0 (handle_query (watch p) st query_json branch)
  unfolding handle_query
  handle_query-Keeps query_json branch =
      Keeps-lift _ _ λ c0. Keeps-lift _ _ λ c1. Keeps-string_call p st _ _ (failed "query failed")

  handle_execute_sql-Keeps :
      (sql : String) (branch : Option String)
      → Keeps m0 (handle_execute_sql (watch p) st sql branch)
  unfolding handle_execute_sql
  handle_execute_sql-Keeps sql branch =
      Keeps-lift _ _
        λ c0. Keeps-lift _ _ λ c1. Keeps-string_call p st _ _ (failed "execute_sql failed")

  handle_setup_remote-Keeps : (url : String) → Keeps m0 (handle_setup_remote (watch p) st url)
  unfolding handle_setup_remote
  handle_setup_remote-Keeps url =
      Keeps-lift _ _ λ c0. Keeps-string_call p st _ _ (failed "setup_remote failed")

  handle_push-Keeps : Keeps m0 (handle_push (watch p) st)
  unfolding handle_push
  handle_push-Keeps = Keeps-string_call p st _ _ (failed "push failed")

  handle_pull-Keeps : Keeps m0 (handle_pull (watch p) st)
  unfolding handle_pull
  handle_pull-Keeps = Keeps-string_call p st _ _ (failed "pull failed")

  handle_fetch-Keeps : Keeps m0 (handle_fetch (watch p) st)
  unfolding handle_fetch
  handle_fetch-Keeps = Keeps-string_call p st _ _ (failed "fetch failed")

  handle_remote_status-Keeps : Keeps m0 (handle_remote_status (watch p) st)
  unfolding handle_remote_status
  handle_remote_status-Keeps = Keeps-string_call p st _ _ (failed "remote_status failed")

  handle_export-Keeps :
      (path : String) (options : String) → Keeps m0 (handle_export (watch p) st path options)
  unfolding handle_export
  handle_export-Keeps path options =
      Keeps-lift _ _ λ c0. Keeps-lift _ _ λ c1. Keeps-string_call p st _ _ (failed "export failed")

  handle_create_backup-Keeps :
      (path : String) (options : String) → Keeps m0 (handle_create_backup (watch p) st path options)
  unfolding handle_create_backup
  handle_create_backup-Keeps path options =
      Keeps-lift _ _
        λ c0. Keeps-lift _ _ λ c1. Keeps-string_call p st _ _ (failed "create_backup failed")

  handle_restore_backup-Keeps :
      (path : String) (options : String)
      → Keeps m0 (handle_restore_backup (watch p) st path options)
  unfolding handle_restore_backup
  handle_restore_backup-Keeps path options =
      Keeps-lift _ _
        λ c0. Keeps-lift _ _ λ c1. Keeps-string_call p st _ _ (failed "restore_backup failed")

  handle_export_snapshot-Keeps :
      (path : String) (options : String)
      → Keeps m0 (handle_export_snapshot (watch p) st path options)
  unfolding handle_export_snapshot
  handle_export_snapshot-Keeps path options =
      Keeps-lift _ _
        λ c0. Keeps-lift _ _ λ c1. Keeps-string_call p st _ _ (failed "export_snapshot failed")

  handle_import_snapshot-Keeps :
      (path : String) (options : String)
      → Keeps m0 (handle_import_snapshot (watch p) st path options)
  unfolding handle_import_snapshot
  handle_import_snapshot-Keeps path options =
      Keeps-lift _ _
        λ c0. Keeps-lift _ _ λ c1. Keeps-string_call p st _ _ (failed "import_snapshot failed")

  -- Serving a command, whatever the library answers and memory holds: every call that is made goes to
  -- the open isolate and handle, each string is read once while it is held and then freed once, and the
  -- observer is left with nothing held and no rule broken.
  pub dispatch_command-serving :
      (cmd : FfiCommand) (w : p.World)
      → (dispatch_command (watch p) st cmd (w, serving st.thread st.handle)).world.1
        ≡ serving st.thread st.handle
  unfolding dispatch_command
  dispatch_command-serving (put id doc branch reply) w = (handle_put-Keeps id doc branch).at w
  dispatch_command-serving (get id branch reply) w = (handle_get-Keeps id branch).at w
  dispatch_command-serving (delete id branch reply) w = (handle_delete-Keeps id branch).at w
  dispatch_command-serving (list_by_prefix x branch reply) w =
      (handle_list_by_prefix-Keeps x branch).at w
  dispatch_command-serving (list_by_table x branch reply) w =
      (handle_list_by_table-Keeps x branch).at w
  dispatch_command-serving (history x branch reply) w = (handle_history-Keeps x branch).at w
  dispatch_command-serving (query x branch reply) w = (handle_query-Keeps x branch).at w
  dispatch_command-serving (execute_sql x branch reply) w = (handle_execute_sql-Keeps x branch).at w
  dispatch_command-serving (setup_remote url reply) w = (handle_setup_remote-Keeps url).at w
  dispatch_command-serving (push reply) w = handle_push-Keeps.at w
  dispatch_command-serving (pull reply) w = handle_pull-Keeps.at w
  dispatch_command-serving (fetch reply) w = handle_fetch-Keeps.at w
  dispatch_command-serving (remote_status reply) w = handle_remote_status-Keeps.at w
  dispatch_command-serving (export_to path options reply) w =
      (handle_export-Keeps path options).at w
  dispatch_command-serving (create_backup path options reply) w =
      (handle_create_backup-Keeps path options).at w
  dispatch_command-serving (restore_backup path options reply) w =
      (handle_restore_backup-Keeps path options).at w
  dispatch_command-serving (export_snapshot path options reply) w =
      (handle_export_snapshot-Keeps path options).at w
  dispatch_command-serving (import_snapshot path options reply) w =
      (handle_import_snapshot-Keeps path options).at w
  dispatch_command-serving (last_error reply) w = get_last_error-keeps p st w
  dispatch_command-serving shutdown w = refl
