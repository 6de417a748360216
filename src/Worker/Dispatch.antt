-- ===== src/Worker/Dispatch.antt =====
-- `dispatch_command` and `reply_error`: what is sent back for a command.
use chrondb.Base.{ℕ, String, Bool, true, false, Option, none, List, [], ◌∷◌, err}
use chrondb.Error.{operation_failed, DbResult}
use chrondb.Platform.{Platform}
use chrondb.Command.{
  FfiCommand, put, get, delete, list_by_prefix, list_by_table, history, query, execute_sql,
  last_error, setup_remote, push, pull, fetch, remote_status, export_to, create_backup,
  restore_backup, export_snapshot, import_snapshot, shutdown, Reply, value, done, message, Sent,
}
use chrondb.Worker.State.{FfiWorkerState, get_last_error}
use chrondb.Worker.Handlers

-- `matches!(cmd, FfiCommand::Shutdown)`
unfoldable pub is_shutdown : FfiCommand → Bool
is_shutdown shutdown = true
is_shutdown _ = false

-- What `dispatch_command` does: what it sends, and whether the loop stops.
pub record Dispatched (V W : Type 0) : Type 0 where
  pub stop : Bool
  pub sent : List (Sent V)
  pub world : W

abbrev pub answer : {V W : Type 0} → ℕ → Reply V × W → Dispatched V W
answer reply (r, w) = record {
  stop = false;
  sent = record { channel = reply; payload = r } ∷ [];
  world = w;
}

abbrev pub as_value : {V W : Type 0} → DbResult V × W → Reply V × W
as_value (r, w) = (value r, w)

abbrev pub as_done : {V W : Type 0} → DbResult (Unit {0}) × W → Reply V × W
as_done (r, w) = (done r, w)

abbrev pub as_message : {V W : Type 0} → Option String × W → Reply V × W
as_message (r, w) = (message r, w)

module _ (p : Platform) where
  open p use {World, Value}

  -- `ChronDB::dispatch_command`
  unfoldable pub dispatch_command : FfiWorkerState → FfiCommand → World → Dispatched Value World
  dispatch_command st (put id doc branch reply) w =
      answer reply (as_value (Handlers.handle_put p st id doc branch w))
  dispatch_command st (get id branch reply) w =
      answer reply (as_value (Handlers.handle_get p st id branch w))
  dispatch_command st (delete id branch reply) w =
      answer reply (as_done (Handlers.handle_delete p st id branch w))
  dispatch_command st (list_by_prefix prefix branch reply) w =
      answer reply (as_value (Handlers.handle_list_by_prefix p st prefix branch w))
  dispatch_command st (list_by_table table branch reply) w =
      answer reply (as_value (Handlers.handle_list_by_table p st table branch w))
  dispatch_command st (history id branch reply) w =
      answer reply (as_value (Handlers.handle_history p st id branch w))
  dispatch_command st (query query_json branch reply) w =
      answer reply (as_value (Handlers.handle_query p st query_json branch w))
  dispatch_command st (execute_sql sql branch reply) w =
      answer reply (as_value (Handlers.handle_execute_sql p st sql branch w))
  dispatch_command st (last_error reply) w = answer reply (as_message (get_last_error p st w))
  dispatch_command st (setup_remote remote_url reply) w =
      answer reply (as_value (Handlers.handle_setup_remote p st remote_url w))
  dispatch_command st (push reply) w = answer reply (as_value (Handlers.handle_push p st w))
  dispatch_command st (pull reply) w = answer reply (as_value (Handlers.handle_pull p st w))
  dispatch_command st (fetch reply) w = answer reply (as_value (Handlers.handle_fetch p st w))
  dispatch_command st (remote_status reply) w =
      answer reply (as_value (Handlers.handle_remote_status p st w))
  dispatch_command st (export_to target_dir options reply) w =
      answer reply (as_value (Handlers.handle_export p st target_dir options w))
  dispatch_command st (create_backup output_path options reply) w =
      answer reply (as_value (Handlers.handle_create_backup p st output_path options w))
  dispatch_command st (restore_backup input_path options reply) w =
      answer reply (as_value (Handlers.handle_restore_backup p st input_path options w))
  dispatch_command st (export_snapshot output_path options reply) w =
      answer reply (as_value (Handlers.handle_export_snapshot p st output_path options w))
  dispatch_command st (import_snapshot input_path options reply) w =
      answer reply (as_value (Handlers.handle_import_snapshot p st input_path options w))
  dispatch_command st shutdown w = record { stop = true; sent = []; world = w }

abbrev refuse : {V : Type 0} → ℕ → Reply V → List (Sent V)
refuse reply r = record { channel = reply; payload = r } ∷ []

-- `ChronDB::reply_error`
unfoldable pub reply_error : {V : Type 0} → FfiCommand → String → List (Sent V)
reply_error (put _ _ _ reply) msg = refuse reply (value (err (operation_failed msg)))
reply_error (get _ _ reply) msg = refuse reply (value (err (operation_failed msg)))
reply_error (delete _ _ reply) msg = refuse reply (done (err (operation_failed msg)))
reply_error (list_by_prefix _ _ reply) msg = refuse reply (value (err (operation_failed msg)))
reply_error (list_by_table _ _ reply) msg = refuse reply (value (err (operation_failed msg)))
reply_error (history _ _ reply) msg = refuse reply (value (err (operation_failed msg)))
reply_error (query _ _ reply) msg = refuse reply (value (err (operation_failed msg)))
reply_error (execute_sql _ _ reply) msg = refuse reply (value (err (operation_failed msg)))
reply_error (last_error reply) msg = refuse reply (message none)
reply_error (setup_remote _ reply) msg = refuse reply (value (err (operation_failed msg)))
reply_error (push reply) msg = refuse reply (value (err (operation_failed msg)))
reply_error (pull reply) msg = refuse reply (value (err (operation_failed msg)))
reply_error (fetch reply) msg = refuse reply (value (err (operation_failed msg)))
reply_error (remote_status reply) msg = refuse reply (value (err (operation_failed msg)))
reply_error (export_to _ _ reply) msg = refuse reply (value (err (operation_failed msg)))
reply_error (create_backup _ _ reply) msg = refuse reply (value (err (operation_failed msg)))
reply_error (restore_backup _ _ reply) msg = refuse reply (value (err (operation_failed msg)))
reply_error (export_snapshot _ _ reply) msg = refuse reply (value (err (operation_failed msg)))
reply_error (import_snapshot _ _ reply) msg = refuse reply (value (err (operation_failed msg)))
reply_error shutdown msg = []
