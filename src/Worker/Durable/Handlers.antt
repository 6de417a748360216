-- ===== src/Worker/Durable/Handlers.antt =====
-- The commands in two sessions on the same contents.
use chrondb.Base.{ℕ, [], ◌∷◌, String, Bool, true, false, Option, ◌≡◌, refl, arith, ap}
use chrondb.Error.{DbResult}
use chrondb.Platform.{Platform}
use chrondb.Command.{
  FfiCommand, put, get, delete, list_by_prefix, list_by_table, history, query, execute_sql,
  last_error, setup_remote, push, pull, fetch, remote_status, export_to, create_backup,
  restore_backup, export_snapshot, import_snapshot, shutdown, value, done,
}
use chrondb.Worker.State.{FfiWorkerState}
use chrondb.Worker.Dispatch.{Dispatched, answer, as_value, as_done, dispatch_command}
use chrondb.Worker.Handlers.{
  handle_put, handle_delete, handle_get, handle_list_by_prefix, handle_list_by_table,
  handle_history, handle_query, handle_execute_sql, handle_setup_remote, handle_push, handle_pull,
  handle_fetch, handle_remote_status, handle_export, handle_create_backup, handle_restore_backup,
  handle_export_snapshot, handle_import_snapshot,
}
use chrondb.Worker.Durable.{Relation, IsFunctional}
use chrondb.Worker.Durable.Calls.{
  Agree, Agree-lift, Agree-string, null-return, null-throw, null-error, Agree-parse, Agree-code,
}

-- `FfiCommand::LastError`
abbrev pub asks_last_error : FfiCommand → Bool
asks_last_error (last_error reply) = true
asks_last_error _ = false

-- The two dispatches stop alike, send the same, and leave the same contents.
abbrev pub Same :
    (p : Platform)
    → Relation p
    → FfiWorkerState
    → FfiWorkerState
    → Dispatched p.Value p.World
    → Dispatched p.Value p.World
    → Type 0
Same p R st su d e = (d.stop ≡ e.stop) × (d.sent ≡ e.sent) × R st d.world su e.world

module _ (p : Platform) (R : Relation p) (st su : FfiWorkerState) (v : IsFunctional p R) where
  open p use {World, Value}

  handle_put-Agree :
      (id doc : String) (branch : Option String)
      → Agree p R st su (handle_put p st id doc branch) (handle_put p su id doc branch)
  unfolding handle_put
  handle_put-Agree id doc branch = Agree-lift p R st su _ _ _ λ c0.
      Agree-lift p R st su _ _ _
        λ c1. Agree-lift p R st su _ _ _ λ c2. Agree-parse p R st su _ (v.put _ _ _)

  handle_delete-Agree :
      (id : String) (branch : Option String)
      → Agree p R st su (handle_delete p st id branch) (handle_delete p su id branch)
  unfolding handle_delete
  handle_delete-Agree id branch =
      Agree-lift p R st su _ _ _
        λ c0. Agree-lift p R st su _ _ _ λ c1. Agree-code p R st su _ _ (v.delete _ _ st su)

  handle_get-Agree :
      (id : String) (branch : Option String)
      → Agree p R st su (handle_get p st id branch) (handle_get p su id branch)
  unfolding handle_get
  handle_get-Agree id branch = Agree-lift p R st su _ _ _ λ c0.
      Agree-lift p R st su _ _ _
        λ c1. Agree-string p R st su _ _ _ _ (v.get _ _) (null-throw p R st su _)

  handle_list_by_prefix-Agree :
      (prefix : String) (branch : Option String)
      → Agree p R st su
          (handle_list_by_prefix p st prefix branch)
          (handle_list_by_prefix p su prefix branch)
  unfolding handle_list_by_prefix
  handle_list_by_prefix-Agree prefix branch = Agree-lift p R st su _ _ _ λ c0.
      Agree-lift p R st su _ _ _
        λ c1. Agree-string p R st su _ _ _ _ (v.list_by_prefix _ _) (null-return p R st su _)

  handle_list_by_table-Agree :
      (table : String) (branch : Option String)
      → Agree p R st su
          (handle_list_by_table p st table branch)
          (handle_list_by_table p su table branch)
  unfolding handle_list_by_table
  handle_list_by_table-Agree table branch = Agree-lift p R st su _ _ _ λ c0.
      Agree-lift p R st su _ _ _
        λ c1. Agree-string p R st su _ _ _ _ (v.list_by_table _ _) (null-return p R st su _)

  handle_history-Agree :
      (id : String) (branch : Option String)
      → Agree p R st su (handle_history p st id branch) (handle_history p su id branch)
  unfolding handle_history
  handle_history-Agree id branch = Agree-lift p R st su _ _ _ λ c0.
      Agree-lift p R st su _ _ _
        λ c1. Agree-string p R st su _ _ _ _ (v.history _ _) (null-return p R st su _)

  handle_query-Agree :
      (query_json : String) (branch : Option String)
      → Agree p R st su (handle_query p st query_json branch) (handle_query p su query_json branch)
  unfolding handle_query
  handle_query-Agree query_json branch = Agree-lift p R st su _ _ _ λ c0.
      Agree-lift p R st su _ _ _
        λ c1. Agree-string p R st su _ _ _ _ (v.query _ _) (null-error p R st su _)

  handle_execute_sql-Agree :
      (sql : String) (branch : Option String)
      → Agree p R st su (handle_execute_sql p st sql branch) (handle_execute_sql p su sql branch)
  unfolding handle_execute_sql
  handle_execute_sql-Agree sql branch = Agree-lift p R st su _ _ _ λ c0.
      Agree-lift p R st su _ _ _
        λ c1. Agree-string p R st su _ _ _ _ (v.execute_sql _ _) (null-error p R st su _)

  handle_setup_remote-Agree :
      (url : String) → Agree p R st su (handle_setup_remote p st url) (handle_setup_remote p su url)
  unfolding handle_setup_remote
  handle_setup_remote-Agree url =
      Agree-lift p R st su _ _ _
        λ c0. Agree-string p R st su _ _ _ _ (v.setup_remote _) (null-error p R st su _)

  handle_push-Agree : Agree p R st su (handle_push p st) (handle_push p su)
  unfolding handle_push
  handle_push-Agree = Agree-string p R st su _ _ _ _ v.push (null-error p R st su _)

  handle_pull-Agree : Agree p R st su (handle_pull p st) (handle_pull p su)
  unfolding handle_pull
  handle_pull-Agree = Agree-string p R st su _ _ _ _ v.pull (null-error p R st su _)

  handle_fetch-Agree : Agree p R st su (handle_fetch p st) (handle_fetch p su)
  unfolding handle_fetch
  handle_fetch-Agree = Agree-string p R st su _ _ _ _ v.fetch (null-error p R st su _)

  handle_remote_status-Agree :
      Agree p R st su (handle_remote_status p st) (handle_remote_status p su)
  unfolding handle_remote_status
  handle_remote_status-Agree =
      Agree-string p R st su _ _ _ _ v.remote_status (null-error p R st su _)

  handle_export-Agree :
      (dir : String) (opts : String)
      → Agree p R st su (handle_export p st dir opts) (handle_export p su dir opts)
  unfolding handle_export
  handle_export-Agree dir opts = Agree-lift p R st su _ _ _ λ c0.
      Agree-lift p R st su _ _ _
        λ c1. Agree-string p R st su _ _ _ _ (v.export_to _ _) (null-error p R st su _)

  handle_create_backup-Agree :
      (path : String) (opts : String)
      → Agree p R st su (handle_create_backup p st path opts) (handle_create_backup p su path opts)
  unfolding handle_create_backup
  handle_create_backup-Agree path opts = Agree-lift p R st su _ _ _ λ c0.
      Agree-lift p R st su _ _ _
        λ c1. Agree-string p R st su _ _ _ _ (v.create_backup _ _) (null-error p R st su _)

  handle_restore_backup-Agree :
      (path : String) (opts : String)
      → Agree p R st su
          (handle_restore_backup p st path opts)
          (handle_restore_backup p su path opts)
  unfolding handle_restore_backup
  handle_restore_backup-Agree path opts = Agree-lift p R st su _ _ _ λ c0.
      Agree-lift p R st su _ _ _
        λ c1. Agree-string p R st su _ _ _ _ (v.restore_backup _ _) (null-error p R st su _)

  handle_export_snapshot-Agree :
      (path : String) (opts : String)
      → Agree p R st su
          (handle_export_snapshot p st path opts)
          (handle_export_snapshot p su path opts)
  unfolding handle_export_snapshot
  handle_export_snapshot-Agree path opts = Agree-lift p R st su _ _ _ λ c0.
      Agree-lift p R st su _ _ _
        λ c1. Agree-string p R st su _ _ _ _ (v.export_snapshot _ _) (null-error p R st su _)

  handle_import_snapshot-Agree :
      (path : String) (opts : String)
      → Agree p R st su
          (handle_import_snapshot p st path opts)
          (handle_import_snapshot p su path opts)
  unfolding handle_import_snapshot
  handle_import_snapshot-Agree path opts = Agree-lift p R st su _ _ _ λ c0.
      Agree-lift p R st su _ _ _
        λ c1. Agree-string p R st su _ _ _ _ (v.import_snapshot _ _) (null-error p R st su _)

  Same-value :
      (reply : ℕ) {q r : DbResult Value × World}
      → (q.0 ≡ r.0) × R st q.1 su r.1
      → Same p R st su (answer reply (as_value q)) (answer reply (as_value r))
  Same-value reply (e, h) =
      (refl, ap (λ a. record { channel = reply; payload = value a } ∷ []) e, h)

  Same-done :
      (reply : ℕ) {q r : DbResult (Unit {0}) × World}
      → (q.0 ≡ r.0) × R st q.1 su r.1
      → Same p R st su (answer reply (as_done q)) (answer reply (as_done r))
  Same-done reply (e, h) = (refl, ap (λ a. record { channel = reply; payload = done a } ∷ []) e, h)

  -- Every command but the question for the last error.
  pub dispatch_command-Same :
      (cmd : FfiCommand) (x y : World)
      → R st x su y
      → asks_last_error cmd ≡ false
      → Same p R st su (dispatch_command p st cmd x) (dispatch_command p su cmd y)
  unfolding dispatch_command
  dispatch_command-Same (put id doc branch reply) x y r not_error =
      Same-value reply (handle_put-Agree id doc branch x y r)
  dispatch_command-Same (get id branch reply) x y r not_error =
      Same-value reply (handle_get-Agree id branch x y r)
  dispatch_command-Same (delete id branch reply) x y r not_error =
      Same-done reply (handle_delete-Agree id branch x y r)
  dispatch_command-Same (list_by_prefix l branch reply) x y r not_error =
      Same-value reply (handle_list_by_prefix-Agree l branch x y r)
  dispatch_command-Same (list_by_table l branch reply) x y r not_error =
      Same-value reply (handle_list_by_table-Agree l branch x y r)
  dispatch_command-Same (history id branch reply) x y r not_error =
      Same-value reply (handle_history-Agree id branch x y r)
  dispatch_command-Same (query q branch reply) x y r not_error =
      Same-value reply (handle_query-Agree q branch x y r)
  dispatch_command-Same (execute_sql q branch reply) x y r not_error =
      Same-value reply (handle_execute_sql-Agree q branch x y r)
  dispatch_command-Same (setup_remote u reply) x y r not_error =
      Same-value reply (handle_setup_remote-Agree u x y r)
  dispatch_command-Same (push reply) x y r not_error = Same-value reply (handle_push-Agree x y r)
  dispatch_command-Same (pull reply) x y r not_error = Same-value reply (handle_pull-Agree x y r)
  dispatch_command-Same (fetch reply) x y r not_error = Same-value reply (handle_fetch-Agree x y r)
  dispatch_command-Same (remote_status reply) x y r not_error =
      Same-value reply (handle_remote_status-Agree x y r)
  dispatch_command-Same (export_to d o reply) x y r not_error =
      Same-value reply (handle_export-Agree d o x y r)
  dispatch_command-Same (create_backup d o reply) x y r not_error =
      Same-value reply (handle_create_backup-Agree d o x y r)
  dispatch_command-Same (restore_backup d o reply) x y r not_error =
      Same-value reply (handle_restore_backup-Agree d o x y r)
  dispatch_command-Same (export_snapshot d o reply) x y r not_error =
      Same-value reply (handle_export_snapshot-Agree d o x y r)
  dispatch_command-Same (import_snapshot d o reply) x y r not_error =
      Same-value reply (handle_import_snapshot-Agree d o x y r)
  dispatch_command-Same (last_error reply) x y r not_error = absurd (ground arith)
  dispatch_command-Same shutdown x y r not_error = (refl, refl, r)
