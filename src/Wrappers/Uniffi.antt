-- ===== src/Wrappers/Uniffi.antt =====
-- The uniffi wrapper (bindings/uniffi/src/lib.rs).
use chrondb.Base.{ℕ, String, Option, ◌<>◌, ◌*◌, Result, ok, err, map_err}
use chrondb.Error.{
  ChronDbError, DbResult, setup_failed as inner_setup_failed,
  isolate_creation_failed as inner_isolate_creation_failed, open_failed as inner_open_failed,
  close_failed as inner_close_failed, not_found as inner_not_found,
  operation_failed as inner_operation_failed, json_error as inner_json_error,
}
use chrondb.Platform.{Platform}
use chrondb.Registry.{Workers, open_db, builder, with_idle_timeout, build}
use chrondb.Client.{Link, Caller}
use chrondb.Client.Methods.{
  call_put, call_get, call_delete, call_list_by_prefix, call_list_by_table, call_history,
  call_query, call_execute_sql, call_setup_remote, call_push, call_pull, call_fetch,
  call_remote_status, call_export_to_directory, call_create_backup, call_restore_backup,
  call_export_snapshot, call_import_snapshot, call_last_error,
}

-- `ChronDBError` of the wrapper
pub data UniError : Type 0 where
  setup_failed : String → UniError
  isolate_creation_failed : UniError
  open_failed : String → UniError
  close_failed : UniError
  not_found : UniError
  operation_failed : String → UniError
  json_error : String → UniError

-- `impl fmt::Display for ChronDBError`
unfoldable pub uni_display : UniError → String
uni_display (setup_failed msg) = "library setup failed: " <> msg
uni_display isolate_creation_failed = "failed to create GraalVM isolate"
uni_display (open_failed msg) = "failed to open database: " <> msg
uni_display close_failed = "failed to close database"
uni_display not_found = "document not found"
uni_display (operation_failed msg) = "operation failed: " <> msg
uni_display (json_error msg) = "JSON error: " <> msg

-- `impl From<InnerError> for ChronDBError`
unfoldable pub from_inner : ChronDbError → UniError
from_inner (inner_setup_failed msg) = setup_failed msg
from_inner inner_isolate_creation_failed = isolate_creation_failed
from_inner (inner_open_failed msg) = open_failed msg
from_inner inner_close_failed = close_failed
from_inner inner_not_found = not_found
from_inner (inner_operation_failed msg) = operation_failed msg
from_inner (inner_json_error msg) = json_error msg

abbrev pub UniResult : Type 0 → Type 0
UniResult A = Result A UniError

-- `?` of a result of the crate
abbrev pub uni_of : {A S : Type 0} → DbResult A × S → UniResult A × S
uni_of (r, s) = (map_err from_inner r, s)

-- A number of seconds in nanoseconds: `Duration::from_secs`.
abbrev pub from_secs : ℕ → ℕ
from_secs secs = secs * 1000000000

module _ (canonicalize : String → Option String) (init : DbResult (Unit {0})) where
  -- `ChronDB::open` of the wrapper
  unfoldable pub uni_open : String → String → Workers → UniResult ℕ × Workers
  uni_open data_path index_path s = uni_of (open_db canonicalize data_path index_path init s)

  -- `ChronDB::open_path` of the wrapper
  unfoldable pub uni_open_path : String → Workers → UniResult ℕ × Workers
  uni_open_path db_path s =
      uni_of (open_db canonicalize db_path (db_path <> "/.chrondb-index") init s)

  -- `ChronDB::open_with_idle_timeout` of the wrapper
  unfoldable pub uni_open_with_idle_timeout : String → String → ℕ → Workers → UniResult ℕ × Workers
  uni_open_with_idle_timeout data_path index_path idle_timeout_secs s = uni_of (
      build canonicalize
        (with_idle_timeout (from_secs idle_timeout_secs) (builder data_path index_path)) init s)

module _ (p : Platform) {S : Type 0} (link : Link p.Value S) where
  open p use {Value}

  abbrev Answer : Type 0 → Type 0
  Answer A = Caller S → UniResult A × Caller S

  -- `serde_json::from_str(&text).map_err(..)?`
  unfoldable pub uni_parsed : Result Value String → (Value → Answer String) → Answer String
  uni_parsed (ok v) f c = f v c
  uni_parsed (err e) f c = (err (json_error e), c)

  -- `?` and `serde_json::to_string(&result).map_err(..)`
  unfoldable pub uni_printed : DbResult Value × Caller S → UniResult String × Caller S
  uni_printed (ok v, c) = (map_err json_error (p.to_string v), c)
  uni_printed (err e, c) = (err (from_inner e), c)

  -- `?` and `Ok(result.to_string())`, by the `Display` of a value
  unfoldable pub uni_shown :
      (Value → String) → DbResult Value × Caller S → UniResult String × Caller S
  uni_shown show (ok v, c) = (ok (show v), c)
  uni_shown show (err e, c) = (err (from_inner e), c)

  -- `ChronDB::put` of the wrapper
  unfoldable pub uni_put : String → String → Option String → Answer String
  unfolding uni_parsed uni_printed
  uni_put id json_doc branch c =
      uni_parsed (p.from_str json_doc) (λ doc c1. uni_printed (call_put p link id doc branch c1)) c

  -- `ChronDB::get` of the wrapper
  unfoldable pub uni_get : String → Option String → Answer String
  unfolding uni_printed
  uni_get id branch c = uni_printed (call_get p link id branch c)

  -- `ChronDB::delete` of the wrapper
  unfoldable pub uni_delete : String → Option String → Answer (Unit {0})
  uni_delete id branch c = uni_of (call_delete p link id branch c)

  -- `ChronDB::list_by_prefix` of the wrapper
  unfoldable pub uni_list_by_prefix : String → Option String → Answer String
  unfolding uni_printed
  uni_list_by_prefix prefix branch c = uni_printed (call_list_by_prefix p link prefix branch c)

  -- `ChronDB::list_by_table` of the wrapper
  unfoldable pub uni_list_by_table : String → Option String → Answer String
  unfolding uni_printed
  uni_list_by_table table branch c = uni_printed (call_list_by_table p link table branch c)

  -- `ChronDB::history` of the wrapper
  unfoldable pub uni_history : String → Option String → Answer String
  unfolding uni_printed
  uni_history id branch c = uni_printed (call_history p link id branch c)

  -- `ChronDB::query` of the wrapper
  unfoldable pub uni_query : String → Option String → Answer String
  unfolding uni_parsed uni_printed
  uni_query query_json branch c =
      uni_parsed (p.from_str query_json)
        (λ query c1. uni_printed (call_query p link query branch c1)) c

  -- `ChronDB::execute_sql` of the wrapper
  unfoldable pub uni_execute_sql : (Value → String) → String → Option String → Answer String
  unfolding uni_shown
  uni_execute_sql show sql branch c = uni_shown show (call_execute_sql p link sql branch c)

  -- `ChronDB::setup_remote` of the wrapper
  unfoldable pub uni_setup_remote : String → Answer String
  unfolding uni_printed
  uni_setup_remote remote_url c = uni_printed (call_setup_remote p link remote_url c)

  -- `ChronDB::push` of the wrapper
  unfoldable pub uni_push : Answer String
  unfolding uni_printed
  uni_push c = uni_printed (call_push p link c)

  -- `ChronDB::pull` of the wrapper
  unfoldable pub uni_pull : Answer String
  unfolding uni_printed
  uni_pull c = uni_printed (call_pull p link c)

  -- `ChronDB::fetch` of the wrapper
  unfoldable pub uni_fetch : Answer String
  unfolding uni_printed
  uni_fetch c = uni_printed (call_fetch p link c)

  -- `ChronDB::remote_status` of the wrapper
  unfoldable pub uni_remote_status : Answer String
  unfolding uni_printed
  uni_remote_status c = uni_printed (call_remote_status p link c)

  -- `ChronDB::export_to_directory` of the wrapper
  unfoldable pub uni_export_to_directory : String → Option String → Answer String
  unfolding uni_printed
  uni_export_to_directory target_dir options_json c =
      uni_printed (call_export_to_directory p link target_dir options_json c)

  -- `ChronDB::create_backup` of the wrapper
  unfoldable pub uni_create_backup : String → Option String → Answer String
  unfolding uni_printed
  uni_create_backup output_path options_json c =
      uni_printed (call_create_backup p link output_path options_json c)

  -- `ChronDB::restore_backup` of the wrapper
  unfoldable pub uni_restore_backup : String → Option String → Answer String
  unfolding uni_printed
  uni_restore_backup input_path options_json c =
      uni_printed (call_restore_backup p link input_path options_json c)

  -- `ChronDB::export_snapshot` of the wrapper
  unfoldable pub uni_export_snapshot : String → Option String → Answer String
  unfolding uni_printed
  uni_export_snapshot output_path options_json c =
      uni_printed (call_export_snapshot p link output_path options_json c)

  -- `ChronDB::import_snapshot` of the wrapper
  unfoldable pub uni_import_snapshot : String → Option String → Answer String
  unfolding uni_printed
  uni_import_snapshot input_path options_json c =
      uni_printed (call_import_snapshot p link input_path options_json c)

  -- `ChronDB::last_error` of the wrapper
  unfoldable pub uni_last_error : Caller S → Option String × Caller S
  uni_last_error c = call_last_error p link c
