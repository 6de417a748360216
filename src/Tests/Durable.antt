-- ===== src/Tests/Durable.antt =====
-- The small platform keeps its documents: the idle loop's replies are the plain loop's.
use chrondb.Base.{
  String, Bool, true, false, Option, none, some, List, [], ◌∷◌, ◌≡◌, refl, sym, ◌∙◌, ap, arith, ok,
  Option-cases, inl, inr,
}
use chrondb.Base.Int.{ℤ, pos}
use chrondb.Platform.{Platform}
use chrondb.Platform.Ffi.{CharPtr}
use chrondb.Base.Text.{nul_position}
use chrondb.Setup.Install.{Process}
use chrondb.Command.{put, get}
use chrondb.Worker.State.{FfiWorkerState, get_last_error}
use chrondb.Worker.Loop.{run_worker_loop}
use chrondb.Worker.Idle.{Event, received, timed_out, from_secs, start, run_worker_loop_with_idle}
use chrondb.Worker.Thread.{commands}
use chrondb.Worker.Durable.{Relation, Alike, SameCode, IsFunctional, IsDurable}
use chrondb.Worker.Durable.Transparent.{never_asks, run_worker_loop_with_idle-run_worker_loop}
use chrondb.Client.Served.{Method, calls, directs}
use chrondb.Client.Simulation.{none_asks}
use chrondb.Client.IdleLink.{Pause, idle_link, calls-directs}
use chrondb.Tests.Demo.{
  Store, lookup, removed, saved, demo, demo_target, installed, give, no_string, text_of,
}

abbrev pub session : FfiWorkerState
session = record { isolate = 10; thread = 11; handle = pos 0 }

-- The same documents. Between the commands there is no last error.
abbrev pub Kept : Store → Store → Type 0
Kept x y = (x.docs ≡ y.docs) × (x.last_error ≡ none) × (y.last_error ≡ none)

abbrev pub SameDocs : Relation demo
SameDocs st x su y = (st ≡ session) × Kept x y

abbrev pub ClosedDocs : Store → FfiWorkerState → Store → Type 0
ClosedDocs x su y = Kept x y

-- The small platform, where an opening gives a handle by the world.
abbrev pub opening : (Store → ℤ) → Platform
opening code = record demo { native = record demo.native { chrondb_open = λ t a b w. (code w, w) } }

module _ (code : Store → ℤ) where
  no_string-Alike : Alike (opening code) SameDocs true (λ t h. no_string)
  unfolding get_last_error
  no_string-Alike st su x y r = record {
    same_null = refl;
    same_text = λ e. ground (arith, e);
    then_taken = λ e. ground (arith, e, r);
    then_null = λ quiet e. absurd (ground (arith, quiet));
    same_error = λ b e. ground (arith, r);
    then_error = λ b e. ground (arith, r);
  }

  give-Alike :
      (b : Bool) (o : Store → Option String) (g : Store → Store)
      → ((x y : Store) → Kept x y → (o x ≡ o y) × Kept (g x) (g y))
      → Alike (opening code) SameDocs b (λ t h w. give (o w) (g w))
  unfolding get_last_error
  give-Alike b o g same st su x y r =
      let k = same x y r.1 in
      record {
        same_null = ground (arith, k);
        same_text = λ e. ground (arith, e, k);
        then_taken = λ e. ground (arith, e, r, k);
        then_null = λ n e. ground (arith, e, r, k);
        same_error = λ n e. ground (arith, e, r, k);
        then_error = λ n e. ground (arith, e, r, k);
      }

  put-Alike :
      (a b c : CharPtr)
      → Alike (opening code) SameDocs true (λ t h. (opening code).native.chrondb_put t h a b c)
  unfolding get_last_error
  put-Alike a b c st su x y r = elim (Option-cases (saved (text_of a) (text_of b))) [
    | inl e ↦ record {
      same_null = ground (arith, e);
      same_text = λ full. ground (arith, e, full);
      then_taken = λ full. ground (arith, e, full);
      then_null = λ quiet null. absurd (ground (arith, quiet));
      same_error = λ on null. ground (arith, e, r);
      then_error = λ on null. ground (arith, e, r);
    }
    | inr (q, e) ↦ record {
      same_null = ground (arith, e);
      same_text = λ full. ground (arith, e, full);
      then_taken = λ full. ground (arith, e, full, r);
      then_null = λ quiet null. absurd (ground (arith, quiet));
      same_error = λ on null. ground (arith, e, null);
      then_error = λ on null. ground (arith, e, null);
    }
  ]

  nothing-Alike : Alike (opening code) SameDocs false (λ t h w. give none w)
  nothing-Alike = give-Alike false (λ x. none) (λ x. x) (λ x y k. (refl, k))

  delete-SameCode :
      (a b : CharPtr) (st su : FfiWorkerState) (x y : Store)
      → SameDocs st x su y
      → SameCode
          (opening code)
          SameDocs
          st
          su
          (demo.native.chrondb_delete st.thread st.handle a b x)
          (demo.native.chrondb_delete su.thread su.handle a b y)
  unfolding get_last_error
  delete-SameCode a b st su x y r =
      let same = ap (lookup (text_of a)) r.1.0 in
      let rest = ap (removed (text_of a)) r.1.0 in
      elim (Option-cases (lookup (text_of a) x.docs)) [
        | inl e ↦ record {
          same_code = ground (arith, e, sym same ∙ e);
          then_code = λ h. ground (arith, e, sym same ∙ e, r);
          same_error = λ h. ground (arith, e, sym same ∙ e, r);
          then_error = λ h. ground (arith, e, sym same ∙ e, r);
        }
        | inr (text, e) ↦ record {
          same_code = ground (arith, e, sym same ∙ e);
          then_code = λ h. ground (arith, e, sym same ∙ e, rest, r);
          same_error = λ h. ground (arith, e, sym same ∙ e, r);
          then_error = λ h. ground (arith, e, sym same ∙ e, rest, r);
        }
      ]

  pub functional : IsFunctional (opening code) SameDocs
  unfolding get_last_error
  functional = record {
    put = λ a b c. put-Alike a b c;
    get = λ a b.
        give-Alike false (λ x. lookup (text_of a) x.docs) (λ x. x)
          (λ x y k. (ap (lookup (text_of a)) k.0, k));
    delete = λ a b st su x y r. delete-SameCode a b st su x y r;
    list_by_prefix = λ a b. nothing-Alike;
    list_by_table = λ a b. nothing-Alike;
    history = λ a b. nothing-Alike;
    query = λ a b. no_string-Alike;
    execute_sql = λ a b. no_string-Alike;
    setup_remote = λ a. no_string-Alike;
    push = no_string-Alike;
    pull = no_string-Alike;
    fetch = no_string-Alike;
    remote_status = no_string-Alike;
    export_to = λ a b. no_string-Alike;
    create_backup = λ a b. no_string-Alike;
    restore_backup = λ a b. no_string-Alike;
    export_snapshot = λ a b. no_string-Alike;
    import_snapshot = λ a b. no_string-Alike;
  }

pub durable : IsDurable demo SameDocs ClosedDocs "/data" "/index"
durable = record {
  has_thread = λ st su x y r. ground (arith, r);
  has_handle = λ st su x y r. ground (arith, r);
  closes = λ st su x y r. (r.1.0, refl, r.1.2);
  unlocks = λ su x y k. k;
  creates = λ su x y k. refl;
  opens = λ su x y k. (refl, (refl, k));
}

pub data-free : nul_position "/data" ≡ none
unfolding nul_position
data-free = refl

pub index-free : nul_position "/index" ≡ none
unfolding nul_position
index-free = refl

-- The isolate is closed between the two commands.
abbrev with_pause : List Event
with_pause =
    received (put "user:1" "{}" none 1) 5
    ∷ timed_out (from_secs 40)
    ∷ received (get "user:1" none 2) (from_secs 50)
    ∷ []

with_pause-quiet : never_asks with_pause ≡ true
unfolding never_asks
with_pause-quiet = refl

abbrev pub loaded_process : Process Store
loaded_process = record { world = installed; setup_result = some (ok tt); library = some (ok tt) }

run_worker_loop_with_idle-run_worker_loop_example :
    (run_worker_loop_with_idle demo demo_target
      (from_secs 10)
      "/data"
      "/index"
      (start session 0)
      with_pause
      loaded_process).0
    ≡ (run_worker_loop demo session (commands with_pause) installed).0
run_worker_loop_with_idle-run_worker_loop_example =
    run_worker_loop_with_idle-run_worker_loop demo demo_target "/data" "/index" data-free index-free
      SameDocs ClosedDocs (functional (λ w. pos 0)) durable (from_secs 10) 0 with_pause session
      session loaded_process installed (refl, refl) (refl, (refl, refl, refl)) with_pause-quiet

-- The same through a handle.
abbrev asked : List (Method String)
asked = Method.put "user:1" "{}" none ∷ Method.get "user:1" none ∷ []

abbrev pauses : List Pause
pauses =
    record { timeouts = []; receipt = 5 }
    ∷ record { timeouts = from_secs 40 ∷ []; receipt = from_secs 50 }
    ∷ []

calls-directs_example :
    (calls demo (idle_link demo demo_target (from_secs 10) "/data" "/index") asked (record {
      next_channel = 1;
      side = record {
        serving = true;
        state = start session 0;
        process = loaded_process;
        pauses = pauses;
      };
    })).0
    ≡ (directs demo session asked installed).0
unfolding none_asks
calls-directs_example =
    calls-directs demo demo_target "/data" "/index" data-free index-free SameDocs ClosedDocs
      (functional (λ w. pos 0)) durable (from_secs 10) asked 1 0 pauses session session
      loaded_process installed (refl, refl) (refl, (refl, refl, refl)) refl
