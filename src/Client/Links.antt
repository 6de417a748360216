-- ===== src/Client/Links.antt =====
-- The other side of a handle: that `plain_link` is the loop of the thread, and what the methods return
-- where the other side is gone.
use mathlib.Core.List.{append-nil}
use chrondb.Base.{
  String, Bool, true, false, Option, none, some, List, [], ◌∷◌, ◌++◌, ◌≡◌, refl, ◌⊎◌, arith, Result,
  ok, err,
}
use chrondb.Error.{json_error}
use chrondb.Platform.{Platform}
use chrondb.Command.{FfiCommand, Reply, value, done, message, Sent}
use chrondb.Worker.State.{FfiWorkerState}
use chrondb.Worker.Dispatch.{dispatch_command}
use chrondb.Worker.Loop.{run_worker_loop}
use chrondb.Client.{
  Link, Caller, worker_died, recv, or_died, flatten, value_reply, done_reply, message_reply,
  request,
}
use chrondb.Client.Methods.{
  with_json, call_put, call_query, call_get, call_delete, call_list_by_prefix, call_list_by_table,
  call_history, call_execute_sql, call_execute, call_setup_remote, call_push, call_pull, call_fetch,
  call_remote_status, call_export_to_directory, call_create_backup, call_restore_backup,
  call_export_snapshot, call_import_snapshot, call_last_error,
}
use chrondb.Client.Served.{
  Method, put, query, get, delete, list_by_prefix, list_by_table, history, execute_sql, execute,
  setup_remote, push, pull, fetch, remote_status, export_to_directory, create_backup,
  restore_backup, export_snapshot, import_snapshot, last_error, call, plain_link,
}

module _ (p : Platform) (st : FfiWorkerState) where
  open p use {World, Value}

  abbrev sent_now : Option (List (Sent Value)) → List (Sent Value)
  sent_now none = []
  sent_now (some now) = now

  -- What comes of a list of commands that are sent over the link, in order.
  unfoldable pub sent_for : List FfiCommand → Bool × World → List (Sent Value) × World
  unfolding plain_link
  sent_for [] s = ([], s.1)
  sent_for (cmd ∷ rest) s =
      let (o, s1) = Link.send (plain_link p st) cmd s in
      let (later, w) = sent_for rest s1 in (sent_now o ++ later, w)

  sent_for_stopped : (cmds : List FfiCommand) (w : World) → sent_for cmds (false, w) ≡ ([], w)
  unfolding sent_for
  sent_for_stopped [] w = refl
  sent_for_stopped (cmd ∷ rest) w = ground (arith, sent_for_stopped rest w)

  -- The plain loop over any commands sends and leaves what the link does for them, one at a time: the
  -- commands behind a shutdown get nothing.
  pub run_worker_loop-link :
      (cmds : List FfiCommand) (w : World) → run_worker_loop p st cmds w ≡ sent_for cmds (true, w)
  unfolding run_worker_loop sent_for
  run_worker_loop-link [] w = refl
  run_worker_loop-link (cmd ∷ rest) w =
      let later = run_worker_loop-link rest (dispatch_command p st cmd w).world in
      let stopped = sent_for_stopped rest (dispatch_command p st cmd w).world in
      ground (arith, later, stopped, append-nil (dispatch_command p st cmd w).sent)

module _ (p : Platform) where
  open p use {Value}

  abbrev unless_json : Result String String → Reply Value
  unless_json (ok text) = value (err worker_died)
  unless_json (err e) = value (err (json_error e))

  -- What a method returns when nothing answers.
  unfoldable pub gone : Method Value → Reply Value
  gone (put id doc branch) = unless_json (p.to_string doc)
  gone (query ast branch) = unless_json (p.to_string ast)
  gone (get id branch) = value (err worker_died)
  gone (delete id branch) = done (err worker_died)
  gone (list_by_prefix prefix branch) = value (err worker_died)
  gone (list_by_table table branch) = value (err worker_died)
  gone (history id branch) = value (err worker_died)
  gone (execute_sql sql branch) = value (err worker_died)
  gone (execute sql branch) = value (err worker_died)
  gone (setup_remote remote_url) = value (err worker_died)
  gone push = value (err worker_died)
  gone pull = value (err worker_died)
  gone fetch = value (err worker_died)
  gone remote_status = value (err worker_died)
  gone (export_to_directory target_dir options) = value (err worker_died)
  gone (create_backup output_path options) = value (err worker_died)
  gone (restore_backup input_path options) = value (err worker_died)
  gone (export_snapshot output_path options) = value (err worker_died)
  gone (import_snapshot input_path options) = value (err worker_died)
  gone last_error = message none

  -- Where the other thread is gone, or goes without a reply to the command: every method returns that
  -- the worker died, whatever the state, but a value that has no text is still its JSON error, and there
  -- is no last error.
  pub call-gone :
      {S : Type 0} (link : Link Value S) (m : Method Value) (c : Caller S)
      → ((cmd : FfiCommand) (s : S)
          → ((link.send cmd s).0 ≡ none) ⊎ ((link.send cmd s).0 ≡ some []))
      → (call p link m c).0 ≡ gone m
  unfolding call gone request value_reply done_reply message_reply recv or_died flatten with_json
      call_put call_query call_get call_delete call_list_by_prefix call_list_by_table call_history
      call_execute_sql call_execute call_setup_remote call_push call_pull call_fetch
      call_remote_status call_export_to_directory call_create_backup call_restore_backup
      call_export_snapshot call_import_snapshot call_last_error
  call-gone link m c dead = grind (arith, dead)
