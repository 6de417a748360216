-- ===== src/Client/Methods.antt =====
-- The methods of a handle, one for each command, and `execute` (bindings/rust/src/lib.rs).
use chrondb.Base.{String, Option, none, some, Result, ok, err}
use chrondb.Error.{json_error, DbResult}
use chrondb.Platform.{Platform}
use chrondb.Command.{
  put, get, delete, list_by_prefix, list_by_table, history, query, execute_sql, last_error,
  setup_remote, push, pull, fetch, remote_status, export_to, create_backup, restore_backup,
  export_snapshot, import_snapshot,
}
use chrondb.Client.{Link, Caller, value_reply, done_reply, message_reply, request}

-- `options_json.unwrap_or("{}")`
abbrev pub options_or : Option String → String
options_or none = "{}"
options_or (some o) = o

module _ (p : Platform) {S : Type 0} (link : Link p.Value S) where
  open p use {Value}

  abbrev Ask : Type 0 → Type 0
  Ask A = Caller S → A × Caller S

  -- `serde_json::to_string(..)?`, and what the method does with the text.
  unfoldable pub with_json :
      Result String String → (String → Ask (DbResult Value)) → Ask (DbResult Value)
  with_json (ok text) k c = k text c
  with_json (err e) k c = (err (json_error e), c)

  -- `ChronDB::put`
  unfoldable pub call_put : String → Value → Option String → Ask (DbResult Value)
  unfolding with_json request value_reply
  call_put id doc branch =
      with_json (p.to_string doc)
        (λ text. request link value_reply (λ reply. put id text branch reply))

  -- `ChronDB::get`
  unfoldable pub call_get : String → Option String → Ask (DbResult Value)
  unfolding request value_reply
  call_get id branch = request link value_reply (λ reply. get id branch reply)

  -- `ChronDB::delete`
  unfoldable pub call_delete : String → Option String → Ask (DbResult (Unit {0}))
  unfolding request done_reply
  call_delete id branch = request link done_reply (λ reply. delete id branch reply)

  -- `ChronDB::list_by_prefix`
  unfoldable pub call_list_by_prefix : String → Option String → Ask (DbResult Value)
  unfolding request value_reply
  call_list_by_prefix prefix branch =
      request link value_reply (λ reply. list_by_prefix prefix branch reply)

  -- `ChronDB::list_by_table`
  unfoldable pub call_list_by_table : String → Option String → Ask (DbResult Value)
  unfolding request value_reply
  call_list_by_table table branch =
      request link value_reply (λ reply. list_by_table table branch reply)

  -- `ChronDB::history`
  unfoldable pub call_history : String → Option String → Ask (DbResult Value)
  unfolding request value_reply
  call_history id branch = request link value_reply (λ reply. history id branch reply)

  -- `ChronDB::query`
  unfoldable pub call_query : Value → Option String → Ask (DbResult Value)
  unfolding with_json request value_reply
  call_query ast branch =
      with_json (p.to_string ast)
        (λ text. request link value_reply (λ reply. query text branch reply))

  -- `ChronDB::execute_sql`
  unfoldable pub call_execute_sql : String → Option String → Ask (DbResult Value)
  unfolding request value_reply
  call_execute_sql sql branch = request link value_reply (λ reply. execute_sql sql branch reply)

  -- `ChronDB::execute`
  unfoldable pub call_execute : String → Option String → Ask (DbResult Value)
  unfolding call_execute_sql
  call_execute sql branch = call_execute_sql sql branch

  -- `ChronDB::setup_remote`
  unfoldable pub call_setup_remote : String → Ask (DbResult Value)
  unfolding request value_reply
  call_setup_remote remote_url = request link value_reply (λ reply. setup_remote remote_url reply)

  -- `ChronDB::push`
  unfoldable pub call_push : Ask (DbResult Value)
  unfolding request value_reply
  call_push = request link value_reply (λ reply. push reply)

  -- `ChronDB::pull`
  unfoldable pub call_pull : Ask (DbResult Value)
  unfolding request value_reply
  call_pull = request link value_reply (λ reply. pull reply)

  -- `ChronDB::fetch`
  unfoldable pub call_fetch : Ask (DbResult Value)
  unfolding request value_reply
  call_fetch = request link value_reply (λ reply. fetch reply)

  -- `ChronDB::remote_status`
  unfoldable pub call_remote_status : Ask (DbResult Value)
  unfolding request value_reply
  call_remote_status = request link value_reply (λ reply. remote_status reply)

  -- `ChronDB::export_to_directory`
  unfoldable pub call_export_to_directory : String → Option String → Ask (DbResult Value)
  unfolding request value_reply
  call_export_to_directory target_dir options =
      request link value_reply (λ reply. export_to target_dir (options_or options) reply)

  -- `ChronDB::create_backup`
  unfoldable pub call_create_backup : String → Option String → Ask (DbResult Value)
  unfolding request value_reply
  call_create_backup output_path options =
      request link value_reply (λ reply. create_backup output_path (options_or options) reply)

  -- `ChronDB::restore_backup`
  unfoldable pub call_restore_backup : String → Option String → Ask (DbResult Value)
  unfolding request value_reply
  call_restore_backup input_path options =
      request link value_reply (λ reply. restore_backup input_path (options_or options) reply)

  -- `ChronDB::export_snapshot`
  unfoldable pub call_export_snapshot : String → Option String → Ask (DbResult Value)
  unfolding request value_reply
  call_export_snapshot output_path options =
      request link value_reply (λ reply. export_snapshot output_path (options_or options) reply)

  -- `ChronDB::import_snapshot`
  unfoldable pub call_import_snapshot : String → Option String → Ask (DbResult Value)
  unfolding request value_reply
  call_import_snapshot input_path options =
      request link value_reply (λ reply. import_snapshot input_path (options_or options) reply)

  -- `ChronDB::last_error`
  unfoldable pub call_last_error : Ask (Option String)
  unfolding request message_reply
  call_last_error = request link message_reply (λ reply. last_error reply)
