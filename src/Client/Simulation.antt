-- ===== src/Client/Simulation.antt =====
-- Two sides that answer alike cannot be told apart by a handle's methods.
use chrondb.Base.{
  ℕ, String, Bool, true, false, not, ◌&&◌, Option, List, [], ◌∷◌, ◌≡◌, refl, ap, subst, arith,
  Result, ok, err,
}
use chrondb.Error.{DbResult}
use chrondb.Platform.{Platform}
use chrondb.Command
use chrondb.Command.{FfiCommand, Reply, value, done, Sent}
use chrondb.Worker.Dispatch.{is_shutdown, as_value, as_done}
use chrondb.Worker.Durable.Handlers.{asks_last_error}
use chrondb.Client.{Link, Caller, value_reply, done_reply, request}
use chrondb.Client.Methods.{
  options_or, with_json, call_put, call_query, call_get, call_delete, call_list_by_prefix,
  call_list_by_table, call_history, call_execute_sql, call_execute, call_setup_remote, call_push,
  call_pull, call_fetch, call_remote_status, call_export_to_directory, call_create_backup,
  call_restore_backup, call_export_snapshot, call_import_snapshot,
}
use chrondb.Client.Served.{
  Method, put, query, get, delete, list_by_prefix, list_by_table, history, execute_sql, execute,
  setup_remote, push, pull, fetch, remote_status, export_to_directory, create_backup,
  restore_backup, export_snapshot, import_snapshot, last_error, call, calls,
}

-- The commands that the contents alone answer.
abbrev pub IsPlain : FfiCommand → Type 0
IsPlain cmd = (is_shutdown cmd ≡ false) × (asks_last_error cmd ≡ false)

-- The question for the last error.
unfoldable pub asks : {V : Type 0} → Method V → Bool
asks last_error = true
asks _ = false

-- No method of the list is that question.
unfoldable pub none_asks : {V : Type 0} → List (Method V) → Bool
unfolding asks
none_asks [] = true
none_asks (m ∷ rest) = let more = none_asks rest in not (asks m) && more

module _ (p : Platform) {S T : Type 0} (link : Link p.Value S) (other : Link p.Value T)
    (Sim : S → T → Type 0)
    (sends : (cmd : FfiCommand) (s : S) (t : T)
      → IsPlain cmd
      → Sim s t
      → ((link.send cmd s).0 ≡ (other.send cmd t).0)
        × Sim (link.send cmd s).1 (other.send cmd t).1) where
  open p use {Value}

  -- Two callers with the same next channel.
  abbrev Alike : {A : Type 0} → A × Caller S → A × Caller T → Type 0
  Alike q r = (q.0 ≡ r.0) × (q.1.next_channel ≡ r.1.next_channel) × Sim q.1.side r.1.side

  request-Alike :
      {A : Type 0} (read : ℕ → Option (List (Sent Value)) → A) (command : ℕ → FfiCommand) (n : ℕ)
      (s : S) (t : T)
      → IsPlain (command n)
      → Sim s t
      → Alike
          (request link read command (record { next_channel = n; side = s }))
          (request other read command (record { next_channel = n; side = t }))
  unfolding request
  request-Alike read command n s t plain v =
      let (same, after) = sends (command n) s t plain v in (ap (read n) same, refl, after)

  as_value-Alike :
      (q : DbResult Value × Caller S) (r : DbResult Value × Caller T)
      → Alike q r
      → Alike (as_value q) (as_value r)
  as_value-Alike q r (same, next, after) = (ap value same, next, after)

  as_done-Alike :
      (q : DbResult (Unit {0}) × Caller S) (r : DbResult (Unit {0}) × Caller T)
      → Alike q r
      → Alike (as_done {V = Value} q) (as_done {V = Value} r)
  as_done-Alike q r (same, next, after) = (ap done same, next, after)

  with_json-Alike :
      (text : Result String String) (k : String → Caller S → DbResult Value × Caller S)
      (l : String → Caller T → DbResult Value × Caller T) (n : ℕ) (s : S) (t : T)
      → Sim s t
      → ((x : String)
          → Alike
              (k x (record { next_channel = n; side = s }))
              (l x (record { next_channel = n; side = t })))
      → Alike
          (with_json p link text k (record { next_channel = n; side = s }))
          (with_json p other text l (record { next_channel = n; side = t }))
  unfolding with_json
  with_json-Alike (ok x) k l n s t v h = h x
  with_json-Alike (err e) k l n s t v h = (refl, refl, v)

  value-Alike :
      (command : ℕ → FfiCommand) (n : ℕ) (s : S) (t : T)
      → IsPlain (command n)
      → Sim s t
      → Alike
          (as_value (request link value_reply command (record { next_channel = n; side = s })))
          (as_value (request other value_reply command (record { next_channel = n; side = t })))
  value-Alike command n s t plain v =
      as_value-Alike _ _ (request-Alike value_reply command n s t plain v)

  call-Alike :
      (m : Method Value) (n : ℕ) (s : S) (t : T)
      → asks m ≡ false
      → Sim s t
      → Alike
          (call p link m (record { next_channel = n; side = s }))
          (call p other m (record { next_channel = n; side = t }))
  unfolding call asks is_shutdown call_put call_query call_get call_delete call_list_by_prefix
      call_list_by_table call_history call_execute_sql call_execute call_setup_remote call_push
      call_pull call_fetch call_remote_status call_export_to_directory call_create_backup
      call_restore_backup call_export_snapshot call_import_snapshot
  call-Alike last_error n s t h v = absurd (ground (arith, h))
  call-Alike (delete id branch) n s t h v =
      as_done-Alike _ _
        (request-Alike done_reply (λ reply. Command.delete id branch reply) n s t (refl, refl) v)
  call-Alike (put id doc branch) n s t h v = as_value-Alike _ _ (
      with_json-Alike (p.to_string doc) _ _ n s t v (λ x.
        request-Alike value_reply (λ reply. Command.put id x branch reply) n s t (refl, refl) v))
  call-Alike (query ast branch) n s t h v = as_value-Alike _ _ (
      with_json-Alike (p.to_string ast) _ _ n s t v (λ x.
        request-Alike value_reply (λ reply. Command.query x branch reply) n s t (refl, refl) v))
  call-Alike (get x branch) n s t h v =
      value-Alike (λ reply. Command.get x branch reply) n s t (refl, refl) v
  call-Alike (list_by_prefix x branch) n s t h v =
      value-Alike (λ reply. Command.list_by_prefix x branch reply) n s t (refl, refl) v
  call-Alike (list_by_table x branch) n s t h v =
      value-Alike (λ reply. Command.list_by_table x branch reply) n s t (refl, refl) v
  call-Alike (history x branch) n s t h v =
      value-Alike (λ reply. Command.history x branch reply) n s t (refl, refl) v
  call-Alike (execute_sql x branch) n s t h v =
      value-Alike (λ reply. Command.execute_sql x branch reply) n s t (refl, refl) v
  call-Alike (execute x branch) n s t h v =
      value-Alike (λ reply. Command.execute_sql x branch reply) n s t (refl, refl) v
  call-Alike (setup_remote x) n s t h v =
      value-Alike (λ reply. Command.setup_remote x reply) n s t (refl, refl) v
  call-Alike push n s t h v = value-Alike (λ reply. Command.push reply) n s t (refl, refl) v
  call-Alike pull n s t h v = value-Alike (λ reply. Command.pull reply) n s t (refl, refl) v
  call-Alike fetch n s t h v = value-Alike (λ reply. Command.fetch reply) n s t (refl, refl) v
  call-Alike remote_status n s t h v =
      value-Alike (λ reply. Command.remote_status reply) n s t (refl, refl) v
  call-Alike (export_to_directory x o) n s t h v =
      value-Alike (λ reply. Command.export_to x (options_or o) reply) n s t (refl, refl) v
  call-Alike (create_backup x o) n s t h v =
      value-Alike (λ reply. Command.create_backup x (options_or o) reply) n s t (refl, refl) v
  call-Alike (restore_backup x o) n s t h v =
      value-Alike (λ reply. Command.restore_backup x (options_or o) reply) n s t (refl, refl) v
  call-Alike (export_snapshot x o) n s t h v =
      value-Alike (λ reply. Command.export_snapshot x (options_or o) reply) n s t (refl, refl) v
  call-Alike (import_snapshot x o) n s t h v =
      value-Alike (λ reply. Command.import_snapshot x (options_or o) reply) n s t (refl, refl) v

  -- Any calls over the two sides return the same.
  pub calls-Alike :
      (ms : List (Method Value)) (n : ℕ) (s : S) (t : T)
      → none_asks ms ≡ true
      → Sim s t
      → (calls p link ms (record { next_channel = n; side = s })).0
        ≡ (calls p other ms (record { next_channel = n; side = t })).0
  unfolding calls none_asks
  calls-Alike [] n s t h v = refl
  calls-Alike (m ∷ ms) n s t h v =
      let c = (call p link m (record { next_channel = n; side = s })).1 in
      let b = (call p other m (record { next_channel = n; side = t })).1 in
      let (same, next, after) = call-Alike m n s t (ground (arith, h)) v in
      let later =
        subst
          (λ k.
            (calls p link ms c).0
            ≡ (calls p other ms (record { next_channel = k; side = b.side })).0)
          next (calls-Alike ms c.next_channel c.side b.side (ground (arith, h)) after) in
      ground (arith, same, later)
