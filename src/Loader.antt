-- ===== src/Loader.antt =====
-- Finding the library, loading it and its symbols, once in a process (bindings/rust/src/ffi.rs).
pub mod Once
use chrondb.Base.{
  ℕ, String, Option, none, some, List, [], ◌∷◌, ◌<>◌, if◌then◌else◌, Result, ok, err, map_err, Run,
}
use chrondb.Base.Text.{join}
use chrondb.Error.{DbResult, setup_failed}
use chrondb.Platform.{Platform}
use chrondb.Setup.Target.{Target, get_lib_name}
use chrondb.Setup.Install.{Process, ensure_library_installed}

-- The symbols that `ChronDBLib::load` looks up, in its order.
abbrev pub symbols : List String
symbols =
    "graal_create_isolate" ∷ "graal_tear_down_isolate" ∷ "chrondb_open" ∷ "chrondb_close"
    ∷ "chrondb_put" ∷ "chrondb_get" ∷ "chrondb_delete" ∷ "chrondb_list_by_prefix"
    ∷ "chrondb_list_by_table" ∷ "chrondb_history" ∷ "chrondb_query" ∷ "chrondb_execute_sql"
    ∷ "chrondb_open_path" ∷ "chrondb_free_string" ∷ "chrondb_last_error" ∷ "chrondb_setup_remote"
    ∷ "chrondb_push" ∷ "chrondb_pull" ∷ "chrondb_fetch" ∷ "chrondb_remote_status" ∷ "chrondb_export"
    ∷ "chrondb_create_backup" ∷ "chrondb_restore_backup" ∷ "chrondb_export_snapshot"
    ∷ "chrondb_import_snapshot" ∷ []

module _ (p : Platform) (target : Target) where
  open p use {World, os}

  -- `if path.exists() { return Some(path); }`
  unfoldable pub existing : Option String → World → Option String
  existing none w = none
  existing (some path) w = if os.exists path w then some path else none

  abbrev env_path : Option String
  env_path = elim (os.env_var "CHRONDB_LIB_DIR") [
    | none ↦ none
    | some dir ↦ some (join dir (get_lib_name target))
  ]

  abbrev home_path : Option String
  home_path = elim os.home_dir [
    | none ↦ none
    | some h ↦ some (join (join (join h ".chrondb") "lib") (get_lib_name target))
  ]

  unfoldable pub find_library_path : World → Option String
  unfolding existing
  find_library_path w = elim (existing env_path w) [
    | some path ↦ some path
    | none ↦ existing home_path w
  ]

  -- `*lib.get::<..>(b"..").map_err(..)?` for each symbol.
  unfoldable pub load_symbols : ℕ → List String → World → Result (Unit {0}) String
  load_symbols lib [] w = ok tt
  load_symbols lib (name ∷ rest) w =
      let more = load_symbols lib rest w in
      elim (os.find_symbol lib name w) [
        | ok u ↦ more
        | err e ↦ err ("Symbol " <> name <> " not found: " <> e)
      ]

  unfoldable pub load_at : Option String → Run World (Unit {0}) String
  load_at none w = (err ("ChronDB library '" <> get_lib_name target <> "' not found"), w)
  load_at (some lib_path) w =
      let (loaded, w1) = os.load_library lib_path w in
      elim loaded [
        | ok lib ↦ (load_symbols lib symbols w1, w1)
        | err e ↦ (err ("Failed to load library " <> lib_path <> ": " <> e), w1)
      ]

  -- `ChronDBLib::load`
  unfoldable pub load : Run World (Unit {0}) String
  unfolding load_at load_symbols
  load w = load_at (find_library_path w) w

  -- `LIBRARY.get_or_init(|| ChronDBLib::load())` and the match behind it
  unfoldable pub load_once : Process World → DbResult (Unit {0}) × Process World
  unfolding load
  load_once s = elim s.library [
    | some r ↦ (map_err setup_failed r, s)
    | none ↦
        let (r, w) = load s.world in
        (map_err setup_failed r, record s { world = w; library = some r })
  ]

  unfoldable pub get_library : Process World → DbResult (Unit {0}) × Process World
  unfolding load_once
  get_library s =
      let (installed, s1) = ensure_library_installed p target s in
      elim installed [ ok u ↦ load_once s1 | err e ↦ (err e, s1) ]
