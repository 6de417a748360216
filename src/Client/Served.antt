-- ===== src/Client/Served.antt =====
-- What the methods of a handle return: with a worker that serves, what its handlers return, and with one
-- that is gone, that it died.
use chrondb.Base.{
  ℕ, String, Bool, true, not, Option, none, some, List, [], ◌∷◌, ◌≡◌, refl, arith, if◌then◌else◌,
  Result, ok, err,
}
use chrondb.Error.{json_error}
use chrondb.Platform.{Platform}
use chrondb.Command.{Reply, value}
use chrondb.Worker.State.{FfiWorkerState, get_last_error}
use chrondb.Worker.Handlers
use chrondb.Worker.Dispatch.{dispatch_command, as_value, as_done, as_message}
use chrondb.Client.{
  Link, Caller, recv, value_of, done_of, message_of, or_died, flatten, value_reply, done_reply,
  message_reply, request,
}
use chrondb.Client.Methods.{
  options_or, with_json, call_put, call_query, call_get, call_delete, call_list_by_prefix,
  call_list_by_table, call_history, call_execute_sql, call_execute, call_setup_remote, call_push,
  call_pull, call_fetch, call_remote_status, call_export_to_directory, call_create_backup,
  call_restore_backup, call_export_snapshot, call_import_snapshot, call_last_error,
}

-- A call of a method, with its arguments.
pub data Method (V : Type 0) : Type 0 where
  put : (id : String) (doc : V) (branch : Option String) → Method V
  query : (ast : V) (branch : Option String) → Method V
  get : (id : String) (branch : Option String) → Method V
  delete : (id : String) (branch : Option String) → Method V
  list_by_prefix : (prefix : String) (branch : Option String) → Method V
  list_by_table : (table : String) (branch : Option String) → Method V
  history : (id : String) (branch : Option String) → Method V
  execute_sql : (sql : String) (branch : Option String) → Method V
  execute : (sql : String) (branch : Option String) → Method V
  setup_remote : (remote_url : String) → Method V
  push : Method V
  pull : Method V
  fetch : Method V
  remote_status : Method V
  export_to_directory : (target_dir : String) (options : Option String) → Method V
  create_backup : (output_path : String) (options : Option String) → Method V
  restore_backup : (input_path : String) (options : Option String) → Method V
  export_snapshot : (output_path : String) (options : Option String) → Method V
  import_snapshot : (input_path : String) (options : Option String) → Method V
  last_error : Method V

module _ (p : Platform) {S : Type 0} (link : Link p.Value S) where
  open p use {Value}

  -- The call of a method through a handle.
  unfoldable pub call : Method Value → Caller S → Reply Value × Caller S
  call (put id doc branch) c = as_value (call_put p link id doc branch c)
  call (query ast branch) c = as_value (call_query p link ast branch c)
  call (get id branch) c = as_value (call_get p link id branch c)
  call (delete id branch) c = as_done (call_delete p link id branch c)
  call (list_by_prefix prefix branch) c = as_value (call_list_by_prefix p link prefix branch c)
  call (list_by_table table branch) c = as_value (call_list_by_table p link table branch c)
  call (history id branch) c = as_value (call_history p link id branch c)
  call (execute_sql sql branch) c = as_value (call_execute_sql p link sql branch c)
  call (execute sql branch) c = as_value (call_execute p link sql branch c)
  call (setup_remote remote_url) c = as_value (call_setup_remote p link remote_url c)
  call push c = as_value (call_push p link c)
  call pull c = as_value (call_pull p link c)
  call fetch c = as_value (call_fetch p link c)
  call remote_status c = as_value (call_remote_status p link c)
  call (export_to_directory target_dir options) c =
      as_value (call_export_to_directory p link target_dir options c)
  call (create_backup output_path options) c =
      as_value (call_create_backup p link output_path options c)
  call (restore_backup input_path options) c =
      as_value (call_restore_backup p link input_path options c)
  call (export_snapshot output_path options) c =
      as_value (call_export_snapshot p link output_path options c)
  call (import_snapshot input_path options) c =
      as_value (call_import_snapshot p link input_path options c)
  call last_error c = as_message (call_last_error p link c)

  unfoldable pub calls : List (Method Value) → Caller S → List (Reply Value) × Caller S
  calls [] c = ([], c)
  calls (m ∷ rest) c = let (r, c1) = call m c in let (later, c2) = calls rest c1 in (r ∷ later, c2)

module _ (p : Platform) (st : FfiWorkerState) where
  open p use {World, Value}

  abbrev with_text :
      Result String String → (String → Reply Value × World) → World → Reply Value × World
  with_text (ok text) k w = k text
  with_text (err e) k w = (value (err (json_error e)), w)

  -- The same calls with no thread and no channel between: the handlers of the commands.
  unfoldable pub direct : Method Value → World → Reply Value × World
  direct (put id doc branch) w =
      with_text (p.to_string doc) (λ text. as_value (Handlers.handle_put p st id text branch w)) w
  direct (query ast branch) w =
      with_text (p.to_string ast) (λ text. as_value (Handlers.handle_query p st text branch w)) w
  direct (get id branch) w = as_value (Handlers.handle_get p st id branch w)
  direct (delete id branch) w = as_done (Handlers.handle_delete p st id branch w)
  direct (list_by_prefix prefix branch) w =
      as_value (Handlers.handle_list_by_prefix p st prefix branch w)
  direct (list_by_table table branch) w =
      as_value (Handlers.handle_list_by_table p st table branch w)
  direct (history id branch) w = as_value (Handlers.handle_history p st id branch w)
  direct (execute_sql sql branch) w = as_value (Handlers.handle_execute_sql p st sql branch w)
  direct (execute sql branch) w = as_value (Handlers.handle_execute_sql p st sql branch w)
  direct (setup_remote remote_url) w = as_value (Handlers.handle_setup_remote p st remote_url w)
  direct push w = as_value (Handlers.handle_push p st w)
  direct pull w = as_value (Handlers.handle_pull p st w)
  direct fetch w = as_value (Handlers.handle_fetch p st w)
  direct remote_status w = as_value (Handlers.handle_remote_status p st w)
  direct (export_to_directory target_dir options) w =
      as_value (Handlers.handle_export p st target_dir (options_or options) w)
  direct (create_backup output_path options) w =
      as_value (Handlers.handle_create_backup p st output_path (options_or options) w)
  direct (restore_backup input_path options) w =
      as_value (Handlers.handle_restore_backup p st input_path (options_or options) w)
  direct (export_snapshot output_path options) w =
      as_value (Handlers.handle_export_snapshot p st output_path (options_or options) w)
  direct (import_snapshot input_path options) w =
      as_value (Handlers.handle_import_snapshot p st input_path (options_or options) w)
  direct last_error w = as_message (get_last_error p st w)

  unfoldable pub directs : List (Method Value) → World → List (Reply Value) × World
  directs [] w = ([], w)
  directs (m ∷ rest) w =
      let (r, w1) = direct m w in let (later, w2) = directs rest w1 in (r ∷ later, w2)

  -- The other side of a handle, where the worker runs the plain loop: whether it still does, and the
  -- world.
  unfoldable pub plain_link : Link Value (Bool × World)
  plain_link = record {
    send = λ cmd s.
        if s.0
        then (let d = dispatch_command p st cmd s.1 in (some d.sent, (not d.stop, d.world)))
        else (none, s);
  }

  call-direct :
      (m : Method Value) (n : ℕ) (w : World)
      → let q = call p plain_link m (record { next_channel = n; side = (true, w) }) in
        (q.0 ≡ (direct m w).0) × (q.1.side ≡ (true, (direct m w).1))
  unfolding call direct plain_link call_put call_get call_delete call_list_by_prefix
      call_list_by_table call_history call_query call_execute_sql call_execute call_setup_remote
      call_push call_pull call_fetch call_remote_status call_export_to_directory call_create_backup
      call_restore_backup call_export_snapshot call_import_snapshot call_last_error with_json
      request value_reply done_reply message_reply recv value_of done_of message_of or_died flatten
      dispatch_command
  call-direct m n w = ground arith

  -- Any sequence of calls through a handle, where the worker serves with the plain loop and no other
  -- handle's command comes between: every call returns what the handler of its command gives for its
  -- arguments (the value, the error of the native library, `not_found`, or the JSON error of a value
  -- that has no text, for which nothing is sent), each in the state that the calls before it left, and
  -- the worker still serves behind them.
  pub calls-direct :
      (ms : List (Method Value)) (n : ℕ) (w : World)
      → let q = calls p plain_link ms (record { next_channel = n; side = (true, w) }) in
        (q.0 ≡ (directs ms w).0) × (q.1.side ≡ (true, (directs ms w).1))
  unfolding calls directs
  calls-direct [] n w = (refl, refl)
  calls-direct (m ∷ rest) n w =
      let now = call-direct m n w in
      let c = (call p plain_link m (record { next_channel = n; side = (true, w) })).1 in
      let later = calls-direct rest c.next_channel (direct m w).1 in ground (arith, now, later)
