-- ===== src/Wrappers/Agreement.antt =====
-- The two wrappers do the same: for the same calls they send the same commands, and answer alike.
use chrondb.Base.{
  ℕ, String, Option, List, [], ◌∷◌, ◌≡◌, refl, sym, subst, arith, ◌⊎◌, inl, inr, Result, ok, err,
  map_err, Result-cases,
}
use chrondb.Error.{ChronDbError, DbResult, display}
use chrondb.Platform.{Platform}
use chrondb.Registry.{Workers, open_path}
use chrondb.Client.{Link, Caller}
use chrondb.Client.Methods.{call_put, call_query}
use chrondb.Wrappers.Uniffi.{
  UniError, UniResult, json_error, uni_display, from_inner, uni_of, uni_open, uni_open_path,
  uni_open_with_idle_timeout, uni_parsed, uni_printed, uni_shown, uni_put, uni_get, uni_delete,
  uni_list_by_prefix, uni_list_by_table, uni_history, uni_query, uni_execute_sql,
  uni_export_to_directory, uni_create_backup, uni_restore_backup, uni_export_snapshot,
  uni_import_snapshot, uni_last_error,
}
use chrondb.Wrappers.Node.{
  NodeResult, to_napi_error, node_of, node_open, node_open_path, node_open_with_idle_timeout,
  node_parsed, node_printed, node_put, node_get, node_delete, node_list_by_prefix,
  node_list_by_table, node_history, node_query, node_execute_sql, node_export_to_directory,
  node_create_backup, node_restore_backup, node_export_snapshot, node_import_snapshot,
  node_last_error,
}

-- A method that both wrappers have, with its arguments.
pub data Call : Type 0 where
  put : (id json_doc : String) (branch : Option String) → Call
  get delete list_by_prefix list_by_table history query execute_sql : String → Option String → Call
  export_to_directory create_backup restore_backup export_snapshot import_snapshot :
      (path : String) (options_json : Option String) → Call
  last_error : Call

-- What a method gives.
pub data Answer : Type 0 where
  text : String → Answer
  nothing : Answer
  message : Option String → Answer

abbrev as_text : {E S : Type 0} → Result String E × S → Result Answer E × S
as_text (ok t, c) = (ok (text t), c)
as_text (err e, c) = (err e, c)

abbrev as_nothing : {E S : Type 0} → Result (Unit {0}) E × S → Result Answer E × S
as_nothing (ok u, c) = (ok nothing, c)
as_nothing (err e, c) = (err e, c)

abbrev as_message : {E S : Type 0} → Option String × S → Result Answer E × S
as_message (m, c) = (ok (message m), c)

-- The same answer or an error with the same text; but a JSON error of the one wrapper may be its message
-- alone in the other, as it is where the wrapper's own JSON fails.
abbrev pub Alike : {A : Type 0} → UniResult A → NodeResult A → Type 0
Alike u n = (n ≡ map_err uni_display u) ⊎ ((e : String) × (u ≡ err (json_error e)) × (n ≡ err e))

abbrev pub AllAlike : List (UniResult Answer) → List (NodeResult Answer) → Type 0
AllAlike [] [] = Unit {0}
AllAlike [] (n ∷ ns) = ⊥
AllAlike (u ∷ us) [] = ⊥
AllAlike (u ∷ us) (n ∷ ns) = Alike u n × AllAlike us ns

-- The conversion keeps the text of an error.
uni_display-from_inner : (e : ChronDbError) → uni_display (from_inner e) ≡ display e
unfolding uni_display from_inner display
uni_display-from_inner e = ground arith

abbrev pub Same : {A S : Type 0} → UniResult A × S → NodeResult A × S → Type 0
Same u n = Alike u.0 n.0 × (n.1 ≡ u.1)

uni_of-Same : {A S : Type 0} (q : DbResult A × S) → Same (uni_of q) (node_of q)
unfolding to_napi_error
uni_of-Same (ok a, s) = (inl refl, refl)
uni_of-Same (err e, s) = (inl (rw (uni_display-from_inner e) refl), refl)

-- Each open of the one wrapper is that of the other: the same state behind it, and the same worker or an
-- error with the same text.
pub node_open-uni_open :
    (canonicalize : String → Option String) (init : DbResult (Unit {0}))
    (data_path index_path : String) (secs : ℕ) (s : Workers)
    → Same
        (uni_open canonicalize init data_path index_path s)
        (node_open canonicalize init data_path index_path s)
      × Same
          (uni_open_path canonicalize init data_path s)
          (node_open_path canonicalize init data_path s)
      × Same
          (uni_open_with_idle_timeout canonicalize init data_path index_path secs s)
          (node_open_with_idle_timeout canonicalize init data_path index_path secs s)
unfolding uni_open uni_open_path uni_open_with_idle_timeout node_open node_open_path
    node_open_with_idle_timeout open_path
node_open-uni_open canonicalize init data_path index_path secs s =
    (uni_of-Same _, uni_of-Same _, uni_of-Same _)

module _ (p : Platform) {S : Type 0} (link : Link p.Value S) (show : p.Value → String) where
  open p use {Value}

  -- A call through the uniffi wrapper, and through the one for Node.
  unfoldable pub uni_call : Call → Caller S → UniResult Answer × Caller S
  uni_call (put id json_doc branch) c = as_text (uni_put p link id json_doc branch c)
  uni_call (get id branch) c = as_text (uni_get p link id branch c)
  uni_call (delete id branch) c = as_nothing (uni_delete p link id branch c)
  uni_call (list_by_prefix x branch) c = as_text (uni_list_by_prefix p link x branch c)
  uni_call (list_by_table x branch) c = as_text (uni_list_by_table p link x branch c)
  uni_call (history id branch) c = as_text (uni_history p link id branch c)
  uni_call (query json branch) c = as_text (uni_query p link json branch c)
  uni_call (execute_sql sql branch) c = as_text (uni_execute_sql p link show sql branch c)
  uni_call (export_to_directory x o) c = as_text (uni_export_to_directory p link x o c)
  uni_call (create_backup x o) c = as_text (uni_create_backup p link x o c)
  uni_call (restore_backup x o) c = as_text (uni_restore_backup p link x o c)
  uni_call (export_snapshot x o) c = as_text (uni_export_snapshot p link x o c)
  uni_call (import_snapshot x o) c = as_text (uni_import_snapshot p link x o c)
  uni_call last_error c = as_message (uni_last_error p link c)

  unfoldable pub node_call : Call → Caller S → NodeResult Answer × Caller S
  node_call (put id json_doc branch) c = as_text (node_put p link id json_doc branch c)
  node_call (get id branch) c = as_text (node_get p link id branch c)
  node_call (delete id branch) c = as_nothing (node_delete p link id branch c)
  node_call (list_by_prefix x branch) c = as_text (node_list_by_prefix p link x branch c)
  node_call (list_by_table x branch) c = as_text (node_list_by_table p link x branch c)
  node_call (history id branch) c = as_text (node_history p link id branch c)
  node_call (query json branch) c = as_text (node_query p link json branch c)
  node_call (execute_sql sql branch) c = as_text (node_execute_sql p link sql branch c)
  node_call (export_to_directory x o) c = as_text (node_export_to_directory p link x o c)
  node_call (create_backup x o) c = as_text (node_create_backup p link x o c)
  node_call (restore_backup x o) c = as_text (node_restore_backup p link x o c)
  node_call (export_snapshot x o) c = as_text (node_export_snapshot p link x o c)
  node_call (import_snapshot x o) c = as_text (node_import_snapshot p link x o c)
  node_call last_error c = as_message (node_last_error p link c)

  -- The answers to calls one after the other.
  unfoldable pub uni_calls : List Call → Caller S → List (UniResult Answer) × Caller S
  unfolding uni_call
  uni_calls [] c = ([], c)
  uni_calls (m ∷ ms) c =
      let (a, c1) = uni_call m c in let (rest, c2) = uni_calls ms c1 in (a ∷ rest, c2)

  unfoldable pub node_calls : List Call → Caller S → List (NodeResult Answer) × Caller S
  unfolding node_call
  node_calls [] c = ([], c)
  node_calls (m ∷ ms) c =
      let (a, c1) = node_call m c in let (rest, c2) = node_calls ms c1 in (a ∷ rest, c2)

  as_text-Same :
      (u : UniResult String × Caller S) (n : NodeResult String × Caller S)
      → Same u n
      → Same (as_text u) (as_text n)
  as_text-Same u n h = ground (arith, h)

  uni_printed-Same :
      (q : DbResult Value × Caller S) → Same (uni_printed p link q) (node_printed p link q)
  unfolding uni_printed node_printed to_napi_error
  uni_printed-Same (ok v, c) = elim (Result-cases (p.to_string v)) [
    | inl (t, e) ↦ rw e (inl refl, refl)
    | inr (e, f) ↦ rw f (inr (e, refl, refl), refl)
  ]
  uni_printed-Same (err e, c) = (inl (rw (uni_display-from_inner e) refl), refl)

  uni_parsed-Same :
      (r : Result Value String) (f : Value → Caller S → DbResult Value × Caller S) (c : Caller S)
      → Same
          (uni_parsed p link r (λ v c1. uni_printed p link (f v c1)) c)
          (node_parsed p link r (λ v c1. node_printed p link (f v c1)) c)
  unfolding uni_parsed node_parsed
  uni_parsed-Same (ok v) f c = uni_printed-Same (f v c)
  uni_parsed-Same (err e) f c = (inr (e, refl, refl), refl)

  uni_last_error-Same :
      (m : Option String × Caller S)
      → Same (as_message {E = UniError} m) (as_message {E = String} m)
  uni_last_error-Same (m, c) = (inl refl, refl)

  as_nothing-Same :
      (u : UniResult (Unit {0}) × Caller S) (n : NodeResult (Unit {0}) × Caller S)
      → Same u n
      → Same (as_nothing u) (as_nothing n)
  as_nothing-Same u n h = ground (arith, h)

  module _ (shows : (v : Value) → p.to_string v ≡ ok (show v)) where
    uni_shown-Same :
        (q : DbResult Value × Caller S) → Same (uni_shown p link show q) (node_printed p link q)
    unfolding uni_shown node_printed to_napi_error
    uni_shown-Same (ok v, c) = (inl (shows v), refl)
    uni_shown-Same (err e, c) = (inl (rw (uni_display-from_inner e) refl), refl)

    uni_call-Same : (m : Call) (c : Caller S) → Same (uni_call m c) (node_call m c)
    unfolding uni_call node_call uni_put uni_get uni_delete uni_list_by_prefix uni_list_by_table
        uni_history uni_query uni_execute_sql uni_export_to_directory uni_create_backup
        uni_restore_backup uni_export_snapshot uni_import_snapshot uni_last_error node_put node_get
        node_delete node_list_by_prefix node_list_by_table node_history node_query node_execute_sql
        node_export_to_directory node_create_backup node_restore_backup node_export_snapshot
        node_import_snapshot node_last_error
    uni_call-Same (put id json_doc branch) c =
        as_text-Same _ _
          (uni_parsed-Same (p.from_str json_doc) (λ v c1. call_put p link id v branch c1) c)
    uni_call-Same (query json branch) c =
        as_text-Same _ _
          (uni_parsed-Same (p.from_str json) (λ v c1. call_query p link v branch c1) c)
    uni_call-Same (delete id branch) c = as_nothing-Same _ _ (uni_of-Same _)
    uni_call-Same (execute_sql sql branch) c = as_text-Same _ _ (uni_shown-Same _)
    uni_call-Same last_error c = uni_last_error-Same _
    uni_call-Same (get id branch) c = as_text-Same _ _ (uni_printed-Same _)
    uni_call-Same (list_by_prefix x branch) c = as_text-Same _ _ (uni_printed-Same _)
    uni_call-Same (list_by_table x branch) c = as_text-Same _ _ (uni_printed-Same _)
    uni_call-Same (history id branch) c = as_text-Same _ _ (uni_printed-Same _)
    uni_call-Same (export_to_directory x o) c = as_text-Same _ _ (uni_printed-Same _)
    uni_call-Same (create_backup x o) c = as_text-Same _ _ (uni_printed-Same _)
    uni_call-Same (restore_backup x o) c = as_text-Same _ _ (uni_printed-Same _)
    uni_call-Same (export_snapshot x o) c = as_text-Same _ _ (uni_printed-Same _)
    uni_call-Same (import_snapshot x o) c = as_text-Same _ _ (uni_printed-Same _)

    -- Where a value's text by `Display` is its JSON text: for any calls of the methods that both wrappers
    -- have, one after the other, the two leave the same state of the handle and the other side, and
    -- answer each call with the same text, or with an error of the same text; but where the uniffi
    -- wrapper gives a JSON error, Node's may be its message alone, without the prefix.
    pub node_calls-uni_calls :
        (ms : List Call) (c : Caller S)
        → AllAlike (uni_calls ms c).0 (node_calls ms c).0
          × ((node_calls ms c).1 ≡ (uni_calls ms c).1)
    unfolding uni_calls node_calls
    node_calls-uni_calls [] c = (tt, refl)
    node_calls-uni_calls (m ∷ ms) c =
        let (alike, same) = uni_call-Same m c in
        let (rest, left) = node_calls-uni_calls ms (uni_call m c).1 in
        subst
          (λ t.
            (Alike (uni_call m c).0 (node_call m c).0
              × AllAlike (uni_calls ms (uni_call m c).1).0 (node_calls ms t).0)
            × ((node_calls ms t).1 ≡ (uni_calls ms (uni_call m c).1).1))
          (sym same) ((alike, rest), left)
