-- ===== src/Tests/Demo.antt =====
-- A small platform to run the model on: one database that is a list of documents, one isolate, and one
-- string in memory. Values are texts, and every text parses.
use chrondb.Base.{
  ℕ, ◌+◌, String, ◌<>◌, Bool, true, false, Option, none, some, List, [], ◌∷◌, ok, err, ◌=s=◌,
  if◌then◌else◌,
}
use chrondb.Base.Int.{pos}
use chrondb.Platform.{Platform, Os}
use chrondb.Platform.Ffi.{Ptr, CharPtr, null, to, ChronDbLib}
use chrondb.Setup.Target.{Target, linux, x86_64}

pub record Store : Type 0 where
  pub docs : List (String × String)
  pub files : List String
  pub returned : String
  pub last_error : Option String
  pub isolates : ℕ

abbrev pub lookup : String → List (String × String) → Option String
lookup k [] = none
lookup k ((j, v) ∷ rest) = if j =s= k then some v else lookup k rest

abbrev pub listed : String → List String → Bool
listed f [] = false
listed f (g ∷ rest) = if g =s= f then true else listed f rest

abbrev pub without : String → List String → List String
without f [] = []
without f (g ∷ rest) = let more = without f rest in if g =s= f then more else g ∷ more

abbrev pub removed : String → List (String × String) → List (String × String)
removed id [] = []
removed id ((j, v) ∷ rest) = let more = removed id rest in if j =s= id then more else (j, v) ∷ more

abbrev pub text_of : CharPtr → String
text_of null = ""
text_of (to c) = c.text

-- A returned string stands at the address 1.
abbrev pub give : Option String → Store → Ptr × Store
give none w = (0, w)
give (some s) w = (1, record w { returned = s })

abbrev pub no_string : Store → Ptr × Store
no_string w = (0, record w { last_error = some "unsupported" })

-- The one document that can be put gains its id, and is kept and returned so.
abbrev pub saved : String → String → Option (String × String)
saved id doc =
    let text = "{\"id\":\"" <> id <> "\"}" in if doc =s= "{}" then some (text, text) else none

abbrev demo_os : Os Store
demo_os = record {
  env_var = λ name. none;
  home_dir = some "/home/u";
  exists = λ path w. listed path w.files;
  canonicalize = λ path w. some path;
  create_dir_all = λ path w. (ok tt, w);
  read_dir = λ path w. ok [];
  copy = λ a b w. (ok tt, record w { files = b ∷ w.files });
  remove_file = λ path w. record w { files = without path w.files };
  remove_dir_all = λ path w. w;
  download = λ url w. (err "offline", w);
  unpack = λ body path w. (ok tt, w);
  load_library = λ path w. (ok 7, w);
  find_symbol = λ lib name w. ok tt;
}

abbrev demo_lib : ChronDbLib Store
demo_lib = record {
  graal_create_isolate = λ w.
      (record { code = pos 0; isolate = 10; thread = 11 }, record w { isolates = w.isolates + 1 });
  graal_tear_down_isolate = λ t w. (pos 0, record w { last_error = none });
  chrondb_open = λ t a b w. (pos 0, w);
  chrondb_close = λ t h w. (pos 0, w);
  chrondb_put = λ t h id doc branch w. elim (saved (text_of id) (text_of doc)) [
    | none ↦ (0, record w { last_error = some "put returned null" })
    | some q ↦ give (some q.0) (record w { docs = (text_of id, q.1) ∷ w.docs })
  ];
  chrondb_get = λ t h id branch w. give (lookup (text_of id) w.docs) w;
  chrondb_delete = λ t h id branch w. elim (lookup (text_of id) w.docs) [
    | none ↦ (pos 1, w)
    | some text ↦ (pos 0, record w { docs = removed (text_of id) w.docs })
  ];
  chrondb_list_by_prefix = λ t h a b w. give none w;
  chrondb_list_by_table = λ t h a b w. give none w;
  chrondb_history = λ t h a b w. give none w;
  chrondb_query = λ t h a b w. no_string w;
  chrondb_execute_sql = λ t h a b w. no_string w;
  chrondb_open_path = λ t a w. (pos 0, w);
  chrondb_free_string = λ t r w. record w { returned = "" };
  chrondb_last_error = λ t w. give w.last_error (record w { last_error = none });
  chrondb_setup_remote = λ t h a w. no_string w;
  chrondb_push = λ t h w. no_string w;
  chrondb_pull = λ t h w. no_string w;
  chrondb_fetch = λ t h w. no_string w;
  chrondb_remote_status = λ t h w. no_string w;
  chrondb_export = λ t h a b w. no_string w;
  chrondb_create_backup = λ t h a b w. no_string w;
  chrondb_restore_backup = λ t h a b w. no_string w;
  chrondb_export_snapshot = λ t h a b w. no_string w;
  chrondb_import_snapshot = λ t h a b w. no_string w;
}

abbrev pub demo : Platform
demo = record {
  World = Store;
  os = demo_os;
  native = demo_lib;
  read_string = λ r w. (w.returned, w);
  Value = String;
  from_str = λ s. ok s;
  to_string = λ v. ok v;
  empty_array = "[]";
}

abbrev pub demo_target : Target
demo_target = record { os = linux; arch = x86_64; version = "0.2.1" }

-- The library is installed, and the index has a stale lock.
abbrev pub installed : Store
installed = record {
  docs = [];
  files = "/home/u/.chrondb/lib/libchrondb.so" ∷ "/index/write.lock" ∷ [];
  returned = "";
  last_error = none;
  isolates = 0;
}
