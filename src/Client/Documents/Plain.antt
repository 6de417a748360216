-- ===== src/Client/Documents/Plain.antt =====
-- The replies of a handle whose worker runs the plain loop are those of the table.
use chrondb.Base.{
  ℕ, String, true, Option, List, [], ◌∷◌, ◌≡◌, refl, subst, ◌∙◌, arith, eq_iff, ok, ◌>>=◌, act,
  lift, throw, return, Result-cases, Option-cases, inl, inr,
}
use chrondb.Base.Text.{nul_position}
use chrondb.Platform.{Platform}
use chrondb.Platform.Ffi.{CString}
use chrondb.Command.{Reply}
use chrondb.Worker.State.{
  FfiWorkerState, c_string, optional_cstring, ptr_or_null, parse_string_result,
  fail_with_last_error, last_error_or,
}
use chrondb.Worker.Dispatch.{as_value, as_done}
use chrondb.Worker.Handlers.{c_arg, handle_put, handle_get, handle_delete, delete_outcome}
use chrondb.Client.Served.{direct, directs, calls, plain_link, calls-direct}
use chrondb.Client.Documents.{
  DocCall, put, get, delete, method_of, methods_of, Saving, Table, put_text, on_table, all_on_table,
  IsKeeping,
}

module _ (p : Platform) (st : FfiWorkerState) (branch : Option String) (c_branch : Option CString)
    (passes : optional_cstring branch ≡ ok c_branch) (saving : Saving) (Up : p.World → Type 0)
    (docs : p.World → Table) (lib : IsKeeping p st (ptr_or_null c_branch) saving Up docs) where
  open p use {World, Value, native, read_string}

  -- The session is up, and its documents are the table's.
  abbrev pub Reads : World → Table → Type 0
  Reads w t = Up w × ((k : String) → docs w k ≡ t k)

  abbrev pub Gives : Reply Value × World → Reply Value × Table → Type 0
  Gives q r = (q.0 ≡ r.0) × Reads q.1 r.1

  pub put_text-Gives :
      (id text : String) (w : World) (t : Table)
      → Reads w t
      → Gives (as_value (handle_put p st id text branch w)) (put_text p saving id text t)
  unfolding handle_put c_arg c_string ◌>>=◌ lift act parse_string_result fail_with_last_error
      last_error_or
  put_text-Gives id text w t (up, reads) = elim (Option-cases (nul_position id)) [
    | inr (i, e) ↦
        (ground (arith, e), (subst Up (ground (arith, e)) up, λ k. ground (arith, e, reads k)))
    | inl e ↦ elim (Option-cases (nul_position text)) [
      | inr (i, f) ↦ (
        ground (arith, e, f),
        (subst Up (ground (arith, e, f)) up, λ k. ground (arith, e, f, reads k)),
      )
      | inl f ↦ elim (Option-cases (saving id text)) [
        | inl refused ↦
            let (null, told, still, kept) =
              lib.refuses (record { text = id }) (record { text = text }) w up refused in
            (
              ground (arith, e, f, passes, null, told, refused),
              (
                subst Up (ground (arith, e, f, passes, null, told, refused)) still,
                λ k. ground (arith, e, f, passes, null, told, refused, kept k, reads k),
              ),
            )
        | inr ((shown, held), taken_in) ↦
            let (full, same, still, kept) =
              lib.puts (record { text = id }) (record { text = text }) shown held w up taken_in in
            (
              ground (arith, e, f, passes, full, same, taken_in),
              (
                subst Up (ground (arith, e, f, passes, full, same, taken_in)) still,
                λ k. ground (arith, e, f, passes, full, same, taken_in, kept k, reads k),
              ),
            )
      ]
    ]
  ]

  pub get-Gives :
      (id : String) (w : World) (t : Table)
      → Reads w t
      → Gives (as_value (handle_get p st id branch w)) (on_table p saving (get id) t)
  unfolding handle_get c_arg c_string ◌>>=◌ lift act throw parse_string_result on_table
  get-Gives id w t (up, reads) = elim (Option-cases (nul_position id)) [
    | inr (i, e) ↦
        (ground (arith, e), (subst Up (ground (arith, e)) up, λ k. ground (arith, e, reads k)))
    | inl e ↦ elim (Option-cases (t id)) [
      | inl none_there ↦
          let (null, still, kept) =
            lib.misses (record { text = id }) w up (reads id ∙ none_there) in
          (
            ground (arith, e, passes, null, none_there),
            (
              subst Up (ground (arith, e, passes, null, none_there)) still,
              λ k. ground (arith, e, passes, null, kept k, reads k),
            ),
          )
      | inr (text, there) ↦
          let (full, same, still, kept) =
            lib.gets (record { text = id }) text w up (reads id ∙ there) in
          (
            ground (arith, e, passes, full, same, there),
            (
              subst Up (ground (arith, e, passes, full, same, there)) still,
              λ k. ground (arith, e, passes, full, same, kept k, reads k),
            ),
          )
    ]
  ]

  pub delete-Gives :
      (id : String) (w : World) (t : Table)
      → Reads w t
      → Gives (as_done (handle_delete p st id branch w)) (on_table p saving (delete id) t)
  unfolding handle_delete delete_outcome c_arg c_string ◌>>=◌ lift act throw return on_table
  delete-Gives id w t (up, reads) = elim (Option-cases (nul_position id)) [
    | inr (i, e) ↦
        (ground (arith, e), (subst Up (ground (arith, e)) up, λ k. ground (arith, e, reads k)))
    | inl e ↦ elim (Option-cases (t id)) [
      | inl none_there ↦
          let (code, still, kept) =
            lib.deletes_none (record { text = id }) w up (reads id ∙ none_there) in
          (
            ground (arith, e, passes, code, none_there),
            (
              subst Up (ground (arith, e, passes, code, none_there)) still,
              λ k. ground (arith, e, passes, code, kept k, reads k, none_there, eq_iff id k),
            ),
          )
      | inr (text, there) ↦
          let (code, still, kept) =
            lib.deletes (record { text = id }) text w up (reads id ∙ there) in
          (
            ground (arith, e, passes, code, there),
            (
              subst Up (ground (arith, e, passes, code, there)) still,
              λ k. ground (arith, e, passes, code, kept k, reads k),
            ),
          )
    ]
  ]

  direct-Gives :
      (m : DocCall Value) (w : World) (t : Table)
      → Reads w t
      → Gives (direct p st (method_of branch m) w) (on_table p saving m t)
  unfolding direct on_table
  direct-Gives (put id doc) w t (up, reads) = elim (Result-cases (p.to_string doc)) [
    | inl (text, e) ↦ rw e (put_text-Gives id text w t (up, reads))
    | inr (x, e) ↦
        (ground (arith, e), (subst Up (ground (arith, e)) up, λ k. ground (arith, e, reads k)))
  ]
  direct-Gives (get id) w t reads = get-Gives id w t reads
  direct-Gives (delete id) w t reads = delete-Gives id w t reads

  pub directs-all_on_table :
      (ms : List (DocCall Value)) (w : World) (t : Table)
      → Reads w t
      → (directs p st (methods_of branch ms) w).0 ≡ all_on_table p saving ms t
  unfolding directs all_on_table
  directs-all_on_table [] w t reads = refl
  directs-all_on_table (m ∷ ms) w t reads =
      let (same, kept) = direct-Gives m w t reads in
      let later =
        directs-all_on_table ms (direct p st (method_of branch m) w).1 (on_table p saving m t).1
          kept in
      ground (arith, same, later)

  -- Calls of put, get and delete on one branch through a handle, where the worker serves with the plain
  -- loop, no other handle's command comes between, the branch's name has no NUL, and the session is
  -- up, and the library keeps the documents of the branch while it is, of texts as `saving` tells, and
  -- reads as the table t at the start: the
  -- replies are those of the table. So a get returns what was kept of the last put of its id that was not
  -- refused, parsed, and `not_found` where there is none or it was deleted since; a delete of no document
  -- is `not_found`; a put that the library refuses gives the error that it left; and such a put, and a
  -- call whose id or document has a NUL, or whose document has no text, changes no document.
  pub calls-all_on_table :
      (ms : List (DocCall Value)) (n : ℕ) (w : World) (t : Table)
      → Reads w t
      → (calls p
          (plain_link p st)
          (methods_of branch ms)
          (record { next_channel = n; side = (true, w) })).0
        ≡ all_on_table p saving ms t
  calls-all_on_table ms n w t reads =
      (calls-direct p st (methods_of branch ms) n w).0 ∙ directs-all_on_table ms w t reads
