-- ===== src/Command.antt =====
-- The commands that the handles send to the worker thread, and the replies (bindings/rust/src/lib.rs).
-- A `reply` is the identity of a fresh channel, the other end of which the sender keeps.
use chrondb.Base.{ℕ, String, Option}
use chrondb.Error.{DbResult}

-- `enum FfiCommand`
pub data FfiCommand : Type 0 where
  put : (id doc : String) (branch : Option String) (reply : ℕ) → FfiCommand
  get : (id : String) (branch : Option String) (reply : ℕ) → FfiCommand
  delete : (id : String) (branch : Option String) (reply : ℕ) → FfiCommand
  list_by_prefix : (prefix : String) (branch : Option String) (reply : ℕ) → FfiCommand
  list_by_table : (table : String) (branch : Option String) (reply : ℕ) → FfiCommand
  history : (id : String) (branch : Option String) (reply : ℕ) → FfiCommand
  query : (query_json : String) (branch : Option String) (reply : ℕ) → FfiCommand
  execute_sql : (sql : String) (branch : Option String) (reply : ℕ) → FfiCommand
  last_error : (reply : ℕ) → FfiCommand
  setup_remote : (remote_url : String) (reply : ℕ) → FfiCommand
  push : (reply : ℕ) → FfiCommand
  pull : (reply : ℕ) → FfiCommand
  fetch : (reply : ℕ) → FfiCommand
  remote_status : (reply : ℕ) → FfiCommand
  export_to : (target_dir options : String) (reply : ℕ) → FfiCommand
  create_backup : (output_path options : String) (reply : ℕ) → FfiCommand
  restore_backup : (input_path options : String) (reply : ℕ) → FfiCommand
  export_snapshot : (output_path options : String) (reply : ℕ) → FfiCommand
  import_snapshot : (input_path options : String) (reply : ℕ) → FfiCommand
  shutdown : FfiCommand

-- What is sent over a reply channel, by the channel's type.
pub data Reply (V : Type 0) : Type 0 where
  value : DbResult V → Reply V
  done : DbResult (Unit {0}) → Reply V
  message : Option String → Reply V

-- `reply.send(..)`: the channel and what went over it. A receiver that is gone is ignored.
pub record Sent (V : Type 0) : Type 0 where
  pub channel : ℕ
  pub payload : Reply V
