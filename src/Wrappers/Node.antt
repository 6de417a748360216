-- ===== src/Wrappers/Node.antt =====
-- The Node wrapper (bindings/node/src/lib.rs). An error is its text.
use chrondb.Base.{ℕ, String, Option, Result, ok, err, map_err}
use chrondb.Error.{ChronDbError, DbResult, display}
use chrondb.Platform.{Platform}
use chrondb.Registry.{Workers, open_db, open_path, builder, with_idle_timeout, build}
use chrondb.Client.{Link, Caller}
use chrondb.Client.Methods.{
  call_put, call_get, call_delete, call_list_by_prefix, call_list_by_table, call_history,
  call_query, call_execute_sql, call_export_to_directory, call_create_backup, call_restore_backup,
  call_export_snapshot, call_import_snapshot, call_last_error,
}
use chrondb.Wrappers.Uniffi.{from_secs}

abbrev pub NodeResult : Type 0 → Type 0
NodeResult A = Result A String

-- `to_napi_error`
unfoldable pub to_napi_error : ChronDbError → String
unfolding display
to_napi_error e = display e

-- `.map_err(to_napi_error)?`
abbrev pub node_of : {A S : Type 0} → DbResult A × S → NodeResult A × S
node_of (r, s) = (map_err to_napi_error r, s)

module _ (canonicalize : String → Option String) (init : DbResult (Unit {0})) where
  -- `ChronDB::open_path` of the wrapper
  unfoldable pub node_open_path : String → Workers → NodeResult ℕ × Workers
  node_open_path db_path s = node_of (open_path canonicalize db_path init s)

  -- `ChronDB::open` of the wrapper
  unfoldable pub node_open : String → String → Workers → NodeResult ℕ × Workers
  node_open data_path index_path s = node_of (open_db canonicalize data_path index_path init s)

  -- `ChronDB::open_with_idle_timeout` of the wrapper
  unfoldable pub node_open_with_idle_timeout :
      String → String → ℕ → Workers → NodeResult ℕ × Workers
  node_open_with_idle_timeout data_path index_path idle_timeout_secs s = node_of (
      build canonicalize
        (with_idle_timeout (from_secs idle_timeout_secs) (builder data_path index_path)) init s)

module _ (p : Platform) {S : Type 0} (link : Link p.Value S) where
  open p use {Value}

  abbrev Answer : Type 0 → Type 0
  Answer A = Caller S → NodeResult A × Caller S

  -- `serde_json::from_str(&text).map_err(..)?`
  unfoldable pub node_parsed : Result Value String → (Value → Answer String) → Answer String
  node_parsed (ok v) f c = f v c
  node_parsed (err e) f c = (err e, c)

  -- `.map_err(to_napi_error)?` and `serde_json::to_string(&result).map_err(..)`
  unfoldable pub node_printed : DbResult Value × Caller S → NodeResult String × Caller S
  node_printed (ok v, c) = (p.to_string v, c)
  node_printed (err e, c) = (err (to_napi_error e), c)

  -- `ChronDB::put` of the wrapper
  unfoldable pub node_put : String → String → Option String → Answer String
  unfolding node_parsed node_printed
  node_put id json_doc branch c =
      node_parsed (p.from_str json_doc) (λ doc c1. node_printed (call_put p link id doc branch c1))
        c

  -- `ChronDB::get` of the wrapper
  unfoldable pub node_get : String → Option String → Answer String
  unfolding node_printed
  node_get id branch c = node_printed (call_get p link id branch c)

  -- `ChronDB::delete` of the wrapper
  unfoldable pub node_delete : String → Option String → Answer (Unit {0})
  node_delete id branch c = node_of (call_delete p link id branch c)

  -- `ChronDB::list_by_prefix` of the wrapper
  unfoldable pub node_list_by_prefix : String → Option String → Answer String
  unfolding node_printed
  node_list_by_prefix prefix branch c = node_printed (call_list_by_prefix p link prefix branch c)

  -- `ChronDB::list_by_table` of the wrapper
  unfoldable pub node_list_by_table : String → Option String → Answer String
  unfolding node_printed
  node_list_by_table table branch c = node_printed (call_list_by_table p link table branch c)

  -- `ChronDB::history` of the wrapper
  unfoldable pub node_history : String → Option String → Answer String
  unfolding node_printed
  node_history id branch c = node_printed (call_history p link id branch c)

  -- `ChronDB::query` of the wrapper
  unfoldable pub node_query : String → Option String → Answer String
  unfolding node_parsed node_printed
  node_query query_json branch c =
      node_parsed (p.from_str query_json)
        (λ query c1. node_printed (call_query p link query branch c1)) c

  -- `ChronDB::execute_sql` of the wrapper
  unfoldable pub node_execute_sql : String → Option String → Answer String
  unfolding node_printed
  node_execute_sql sql branch c = node_printed (call_execute_sql p link sql branch c)

  -- `ChronDB::export_to_directory` of the wrapper
  unfoldable pub node_export_to_directory : String → Option String → Answer String
  unfolding node_printed
  node_export_to_directory target_dir options_json c =
      node_printed (call_export_to_directory p link target_dir options_json c)

  -- `ChronDB::create_backup` of the wrapper
  unfoldable pub node_create_backup : String → Option String → Answer String
  unfolding node_printed
  node_create_backup output_path options_json c =
      node_printed (call_create_backup p link output_path options_json c)

  -- `ChronDB::restore_backup` of the wrapper
  unfoldable pub node_restore_backup : String → Option String → Answer String
  unfolding node_printed
  node_restore_backup input_path options_json c =
      node_printed (call_restore_backup p link input_path options_json c)

  -- `ChronDB::export_snapshot` of the wrapper
  unfoldable pub node_export_snapshot : String → Option String → Answer String
  unfolding node_printed
  node_export_snapshot output_path options_json c =
      node_printed (call_export_snapshot p link output_path options_json c)

  -- `ChronDB::import_snapshot` of the wrapper
  unfoldable pub node_import_snapshot : String → Option String → Answer String
  unfolding node_printed
  node_import_snapshot input_path options_json c =
      node_printed (call_import_snapshot p link input_path options_json c)

  -- `ChronDB::last_error` of the wrapper
  unfoldable pub node_last_error : Caller S → Option String × Caller S
  node_last_error c = call_last_error p link c
