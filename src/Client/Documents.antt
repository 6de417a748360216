-- ===== src/Client/Documents.antt =====
-- What a handle is for: a table of documents, over a library that keeps one.
pub mod Plain
pub mod Idle
pub mod Queue
use chrondb.Base.{
  ℕ, String, true, false, Option, none, some, List, [], ◌∷◌, ◌≡◌, refl, ◌∙◌, arith, ◌=s=◌, eq_iff,
  if◌then◌else◌, Result, ok, err, map_err, ◌>>=◌, act, lift, throw, return, Result-cases,
  Option-cases, inl, inr,
}
use chrondb.Base.Int.{pos}
use chrondb.Base.Text.{nul_position, nul_error}
use chrondb.Error.{ChronDbError, DbResult, operation_failed, not_found, json_error}
use chrondb.Platform.{Platform}
use chrondb.Platform.Ffi.{CString, CharPtr, to, is_null}
use chrondb.Command.{Reply, value, done}
use chrondb.Worker.State.{
  FfiWorkerState, c_string, optional_cstring, ptr_or_null, parse_string_result, get_last_error,
}
use chrondb.Worker.Dispatch.{as_value, as_done}
use chrondb.Worker.Handlers.{c_arg, handle_put, handle_get, handle_delete, delete_outcome}
use chrondb.Worker.Durable.{taken}
use chrondb.Client.Served.{Method, direct, directs, calls, plain_link, calls-direct}

-- A call about a document.
pub data DocCall (V : Type 0) : Type 0 where
  put : (id : String) (doc : V) → DocCall V
  get delete : (id : String) → DocCall V

abbrev pub method_of : {V : Type 0} → Option String → DocCall V → Method V
method_of branch (put id doc) = Method.put id doc branch
method_of branch (get id) = Method.get id branch
method_of branch (delete id) = Method.delete id branch

abbrev pub methods_of : {V : Type 0} → Option String → List (DocCall V) → List (Method V)
methods_of branch [] = []
methods_of branch (m ∷ ms) = method_of branch m ∷ methods_of branch ms

-- The texts of the documents by their ids.
abbrev pub Table : Type 0
Table = String → Option String

abbrev pub insert : String → Option String → Table → Table
insert id text t k = if id =s= k then text else t k

-- What the library makes of the text of a document that is put under an id: the text that it returns,
-- and the one that it keeps and a later get returns, or none where it refuses the document.
abbrev pub Saving : Type 0
Saving = String → String → Option (String × String)

abbrev nul_refused : ℕ → ChronDbError
nul_refused i = operation_failed (nul_error i)

module _ (p : Platform) where
  open p use {World, native, read_string, Value}

  abbrev pub parsed : String → DbResult Value
  parsed text = map_err json_error (p.from_str text)

  abbrev pub put_saved : String → Option (String × String) → Table → Reply Value × Table
  put_saved id none t = (value (err (operation_failed "put returned null")), t)
  put_saved id (some (shown, kept)) t = (value (parsed shown), insert id (some kept) t)

  abbrev pub put_text : Saving → String → String → Table → Reply Value × Table
  put_text saving id text t = elim (nul_position id) [
    | some i ↦ (value (err (nul_refused i)), t)
    | none ↦ elim (nul_position text) [
      | some i ↦ (value (err (nul_refused i)), t)
      | none ↦ put_saved id (saving id text) t
    ]
  ]

  abbrev pub put_value : Saving → String → Result String String → Table → Reply Value × Table
  put_value saving id (err e) t = (value (err (json_error e)), t)
  put_value saving id (ok text) t = put_text saving id text t

  abbrev pub got : Option String → DbResult Value
  got none = err not_found
  got (some text) = parsed text

  abbrev pub deleted : Option String → DbResult (Unit {0})
  deleted none = err not_found
  deleted (some text) = ok tt

  -- What a call gives and leaves, by the table alone.
  unfoldable pub on_table : Saving → DocCall Value → Table → Reply Value × Table
  on_table saving (put id doc) t = put_value saving id (p.to_string doc) t
  on_table saving (get id) t = elim (nul_position id) [
    | some i ↦ (value (err (nul_refused i)), t)
    | none ↦ (value (got (t id)), t)
  ]
  on_table saving (delete id) t = elim (nul_position id) [
    | some i ↦ (done (err (nul_refused i)), t)
    | none ↦ (done (deleted (t id)), insert id none t)
  ]

  unfoldable pub all_on_table : Saving → List (DocCall Value) → Table → List (Reply Value)
  unfolding on_table
  all_on_table saving [] t = []
  all_on_table saving (m ∷ ms) t =
      let (r, t1) = on_table saving m t in r ∷ all_on_table saving ms t1

  -- The library keeps the documents of a branch while the session is up: `docs` reads them in a state,
  -- and `saving` tells what becomes of a text that is put. So `lib-put` (src/chrondb/lib/core.clj) gives the document its id and
  -- prints it again, and returns nothing where the text is no JSON object, for which the entry point
  -- (ChronDBLib.java) leaves its error. A document that is returned is a string, and no document is null.
  pub record IsKeeping (st : FfiWorkerState) (branch : CharPtr) (saving : Saving)
      (Up : World → Type 0) (docs : World → Table) : Type 0 where
    pub puts :
        (id doc : CString) (shown kept : String) (w : World)
        → Up w
        → saving id.text doc.text ≡ some (shown, kept)
        → let q = native.chrondb_put st.thread st.handle (to id) (to doc) branch w in
          (is_null q.0 ≡ false)
          × ((read_string q.0 q.1).0 ≡ shown)
          × Up (taken p st q)
          × ((k : String) → docs (taken p st q) k ≡ insert id.text (some kept) (docs w) k)
    pub refuses :
        (id doc : CString) (w : World)
        → Up w
        → saving id.text doc.text ≡ none
        → let q = native.chrondb_put st.thread st.handle (to id) (to doc) branch w in
          (is_null q.0 ≡ true)
          × ((get_last_error p st q.1).0 ≡ some "put returned null")
          × Up (get_last_error p st q.1).1
          × ((k : String) → docs (get_last_error p st q.1).1 k ≡ docs w k)
    pub gets :
        (id : CString) (text : String) (w : World)
        → Up w
        → docs w id.text ≡ some text
        → let q = native.chrondb_get st.thread st.handle (to id) branch w in
          (is_null q.0 ≡ false)
          × ((read_string q.0 q.1).0 ≡ text)
          × Up (taken p st q)
          × ((k : String) → docs (taken p st q) k ≡ docs w k)
    pub misses :
        (id : CString) (w : World)
        → Up w
        → docs w id.text ≡ none
        → let q = native.chrondb_get st.thread st.handle (to id) branch w in
          (is_null q.0 ≡ true) × Up q.1 × ((k : String) → docs q.1 k ≡ docs w k)
    pub deletes :
        (id : CString) (text : String) (w : World)
        → Up w
        → docs w id.text ≡ some text
        → let q = native.chrondb_delete st.thread st.handle (to id) branch w in
          (q.0 ≡ pos 0) × Up q.1 × ((k : String) → docs q.1 k ≡ insert id.text none (docs w) k)
    pub deletes_none :
        (id : CString) (w : World)
        → Up w
        → docs w id.text ≡ none
        → let q = native.chrondb_delete st.thread st.handle (to id) branch w in
          (q.0 ≡ pos 1) × Up q.1 × ((k : String) → docs q.1 k ≡ docs w k)
