-- ===== src/Error.antt =====
-- The error type of the crate (bindings/rust/src/error.rs).
pub mod Texts
use chrondb.Base.{String, ◌<>◌, Result}

-- The errors that an operation returns.
pub data ChronDbError : Type 0 where
  setup_failed : String → ChronDbError
  isolate_creation_failed : ChronDbError
  open_failed : String → ChronDbError
  close_failed : ChronDbError
  not_found : ChronDbError
  operation_failed : String → ChronDbError
  json_error : String → ChronDbError

-- `impl fmt::Display for ChronDBError`
unfoldable pub display : ChronDbError → String
display (setup_failed msg) = "library setup failed: " <> msg
display isolate_creation_failed = "failed to create GraalVM isolate"
display (open_failed msg) = "failed to open database: " <> msg
display close_failed = "failed to close database"
display not_found = "document not found"
display (operation_failed msg) = "operation failed: " <> msg
display (json_error msg) = "JSON error: " <> msg

-- `chrondb::Result<T>`
abbrev pub DbResult : Type 0 → Type 0
DbResult A = Result A ChronDbError
