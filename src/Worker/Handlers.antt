-- ===== src/Worker/Handlers.antt =====
-- The handlers of the worker thread, one for each command (bindings/rust/src/lib.rs).
use chrondb.Base.{
  zero, suc, String, Option, if◌then◌else◌, Result, map_err, Run, act, throw, lift, return, ◌>>=◌,
}
use chrondb.Base.Int.{ℤ, pos, negsuc}
use chrondb.Error.{ChronDbError, operation_failed, not_found}
use chrondb.Platform.{Platform}
use chrondb.Platform.Ffi.{to, CString, is_null}
use chrondb.Worker.State.{
  FfiWorkerState, c_string, optional_cstring, ptr_or_null, fail_with_last_error,
  parse_string_result,
}

-- `CString::new(s).map_err(|e| ChronDBError::OperationFailed(e.to_string()))`
unfoldable pub c_arg : String → Result CString ChronDbError
unfolding c_string
c_arg s = map_err operation_failed (c_string s)

module _ (p : Platform) where
  open p use {World, native, Value, empty_array}

  unfoldable pub handle_put :
      FfiWorkerState → String → String → Option String → Run World Value ChronDbError
  unfolding c_arg optional_cstring fail_with_last_error parse_string_result
  handle_put st id doc branch = do
    c_id ← lift (c_arg id)
    c_doc ← lift (c_arg doc)
    c_branch ← lift (optional_cstring branch)
    result ←
        act (native.chrondb_put st.thread st.handle (to c_id) (to c_doc) (ptr_or_null c_branch))
    parse_string_result p st result

  unfoldable pub handle_get : FfiWorkerState → String → Option String → Run World Value ChronDbError
  unfolding c_arg optional_cstring fail_with_last_error parse_string_result
  handle_get st id branch = do
    c_id ← lift (c_arg id)
    c_branch ← lift (optional_cstring branch)
    result ← act (native.chrondb_get st.thread st.handle (to c_id) (ptr_or_null c_branch))
    if is_null result then throw not_found else parse_string_result p st result

  -- `match ret { 0 => .., 1 => .., _ => .. }`
  unfoldable pub delete_outcome : FfiWorkerState → ℤ → Run World (Unit {0}) ChronDbError
  unfolding fail_with_last_error
  delete_outcome st (pos zero) = return tt
  delete_outcome st (pos (suc zero)) = throw not_found
  delete_outcome st (pos (suc (suc n))) = fail_with_last_error p st "delete failed"
  delete_outcome st (negsuc n) = fail_with_last_error p st "delete failed"

  unfoldable pub handle_delete :
      FfiWorkerState → String → Option String → Run World (Unit {0}) ChronDbError
  unfolding c_arg optional_cstring delete_outcome
  handle_delete st id branch = do
    c_id ← lift (c_arg id)
    c_branch ← lift (optional_cstring branch)
    ret ← act (native.chrondb_delete st.thread st.handle (to c_id) (ptr_or_null c_branch))
    delete_outcome st ret

  unfoldable pub handle_list_by_prefix :
      FfiWorkerState → String → Option String → Run World Value ChronDbError
  unfolding c_arg optional_cstring fail_with_last_error parse_string_result
  handle_list_by_prefix st prefix branch = do
    c_prefix ← lift (c_arg prefix)
    c_branch ← lift (optional_cstring branch)
    result ←
        act (native.chrondb_list_by_prefix st.thread st.handle (to c_prefix) (ptr_or_null c_branch))
    if is_null result then return empty_array else parse_string_result p st result

  unfoldable pub handle_list_by_table :
      FfiWorkerState → String → Option String → Run World Value ChronDbError
  unfolding c_arg optional_cstring fail_with_last_error parse_string_result
  handle_list_by_table st table branch = do
    c_table ← lift (c_arg table)
    c_branch ← lift (optional_cstring branch)
    result ←
        act (native.chrondb_list_by_table st.thread st.handle (to c_table) (ptr_or_null c_branch))
    if is_null result then return empty_array else parse_string_result p st result

  unfoldable pub handle_history :
      FfiWorkerState → String → Option String → Run World Value ChronDbError
  unfolding c_arg optional_cstring fail_with_last_error parse_string_result
  handle_history st id branch = do
    c_id ← lift (c_arg id)
    c_branch ← lift (optional_cstring branch)
    result ← act (native.chrondb_history st.thread st.handle (to c_id) (ptr_or_null c_branch))
    if is_null result then return empty_array else parse_string_result p st result

  unfoldable pub handle_query :
      FfiWorkerState → String → Option String → Run World Value ChronDbError
  unfolding c_arg optional_cstring fail_with_last_error parse_string_result
  handle_query st query_json branch = do
    c_query_json ← lift (c_arg query_json)
    c_branch ← lift (optional_cstring branch)
    result ← act (native.chrondb_query st.thread st.handle (to c_query_json) (ptr_or_null c_branch))
    if is_null result
        then fail_with_last_error p st "query failed"
        else parse_string_result p st result

  unfoldable pub handle_execute_sql :
      FfiWorkerState → String → Option String → Run World Value ChronDbError
  unfolding c_arg optional_cstring fail_with_last_error parse_string_result
  handle_execute_sql st sql branch = do
    c_sql ← lift (c_arg sql)
    c_branch ← lift (optional_cstring branch)
    result ← act (native.chrondb_execute_sql st.thread st.handle (to c_sql) (ptr_or_null c_branch))
    if is_null result
        then fail_with_last_error p st "execute_sql failed"
        else parse_string_result p st result

  unfoldable pub handle_setup_remote : FfiWorkerState → String → Run World Value ChronDbError
  unfolding c_arg optional_cstring fail_with_last_error parse_string_result
  handle_setup_remote st url = do
    c_url ← lift (c_arg url)
    result ← act (native.chrondb_setup_remote st.thread st.handle (to c_url))
    if is_null result
        then fail_with_last_error p st "setup_remote failed"
        else parse_string_result p st result

  unfoldable pub handle_push : FfiWorkerState → Run World Value ChronDbError
  unfolding c_arg optional_cstring fail_with_last_error parse_string_result
  handle_push st = do
    result ← act (native.chrondb_push st.thread st.handle)
    if is_null result
        then fail_with_last_error p st "push failed"
        else parse_string_result p st result

  unfoldable pub handle_pull : FfiWorkerState → Run World Value ChronDbError
  unfolding c_arg optional_cstring fail_with_last_error parse_string_result
  handle_pull st = do
    result ← act (native.chrondb_pull st.thread st.handle)
    if is_null result
        then fail_with_last_error p st "pull failed"
        else parse_string_result p st result

  unfoldable pub handle_fetch : FfiWorkerState → Run World Value ChronDbError
  unfolding c_arg optional_cstring fail_with_last_error parse_string_result
  handle_fetch st = do
    result ← act (native.chrondb_fetch st.thread st.handle)
    if is_null result
        then fail_with_last_error p st "fetch failed"
        else parse_string_result p st result

  unfoldable pub handle_remote_status : FfiWorkerState → Run World Value ChronDbError
  unfolding c_arg optional_cstring fail_with_last_error parse_string_result
  handle_remote_status st = do
    result ← act (native.chrondb_remote_status st.thread st.handle)
    if is_null result
        then fail_with_last_error p st "remote_status failed"
        else parse_string_result p st result

  unfoldable pub handle_export : FfiWorkerState → String → String → Run World Value ChronDbError
  unfolding c_arg optional_cstring fail_with_last_error parse_string_result
  handle_export st dir opts = do
    c_dir ← lift (c_arg dir)
    c_opts ← lift (c_arg opts)
    result ← act (native.chrondb_export st.thread st.handle (to c_dir) (to c_opts))
    if is_null result
        then fail_with_last_error p st "export failed"
        else parse_string_result p st result

  unfoldable pub handle_create_backup :
      FfiWorkerState → String → String → Run World Value ChronDbError
  unfolding c_arg optional_cstring fail_with_last_error parse_string_result
  handle_create_backup st path opts = do
    c_path ← lift (c_arg path)
    c_opts ← lift (c_arg opts)
    result ← act (native.chrondb_create_backup st.thread st.handle (to c_path) (to c_opts))
    if is_null result
        then fail_with_last_error p st "create_backup failed"
        else parse_string_result p st result

  unfoldable pub handle_restore_backup :
      FfiWorkerState → String → String → Run World Value ChronDbError
  unfolding c_arg optional_cstring fail_with_last_error parse_string_result
  handle_restore_backup st path opts = do
    c_path ← lift (c_arg path)
    c_opts ← lift (c_arg opts)
    result ← act (native.chrondb_restore_backup st.thread st.handle (to c_path) (to c_opts))
    if is_null result
        then fail_with_last_error p st "restore_backup failed"
        else parse_string_result p st result

  unfoldable pub handle_export_snapshot :
      FfiWorkerState → String → String → Run World Value ChronDbError
  unfolding c_arg optional_cstring fail_with_last_error parse_string_result
  handle_export_snapshot st path opts = do
    c_path ← lift (c_arg path)
    c_opts ← lift (c_arg opts)
    result ← act (native.chrondb_export_snapshot st.thread st.handle (to c_path) (to c_opts))
    if is_null result
        then fail_with_last_error p st "export_snapshot failed"
        else parse_string_result p st result

  unfoldable pub handle_import_snapshot :
      FfiWorkerState → String → String → Run World Value ChronDbError
  unfolding c_arg optional_cstring fail_with_last_error parse_string_result
  handle_import_snapshot st path opts = do
    c_path ← lift (c_arg path)
    c_opts ← lift (c_arg opts)
    result ← act (native.chrondb_import_snapshot st.thread st.handle (to c_path) (to c_opts))
    if is_null result
        then fail_with_last_error p st "import_snapshot failed"
        else parse_string_result p st result
