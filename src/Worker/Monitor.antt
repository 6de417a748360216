-- ===== src/Worker/Monitor.antt =====
-- What a caller of the native library must respect, as an observer of its calls: every call goes to
-- the isolate that is up and to the handle that is open, a returned string is read once while it is
-- held, then freed once, and before the next string is returned, and nothing is held when an isolate is
-- torn down. A string that is freed unread breaks the rules too. `watch` is a platform with the observer at its side.
pub mod Keeps
pub mod Calls
pub mod Install
pub mod Lifecycle
pub mod Serving
pub mod Suspends
pub mod Threads
use chrondb.Base.{
  ℕ, String, Bool, true, false, not, ◌&&◌, Option, none, some, ◌==◌, if◌then◌else◌, Result,
}
use chrondb.Base.Int.{ℤ, pos, negsuc, is_nonneg, is_zero}
use chrondb.Platform.{Platform, Os}
use chrondb.Platform.Ffi.{Ptr, Created, CharPtr, ChronDbLib, is_null}

-- The isolate's thread, the database's handle and the string that are held now, whether that string
-- was read, and whether every call so far respected the rules.
pub record Monitor : Type 0 where
  pub live : Option Ptr
  pub handle : Option ℤ
  pub pending : Option Ptr
  pub was_read : Bool
  pub clean : Bool

abbrev pub same : ℤ → ℤ → Bool
same (pos m) (pos n) = m == n
same (pos m) (negsuc n) = false
same (negsuc m) (pos n) = false
same (negsuc m) (negsuc n) = m == n

abbrev pub holds : Option Ptr → Ptr → Bool
holds none x = false
holds (some y) x = y == x

abbrev pub holds_handle : Option ℤ → ℤ → Bool
holds_handle none h = false
holds_handle (some k) h = same k h

abbrev pub free : {A : Type 0} → Option A → Bool
free none = true
free (some a) = false

unfoldable pub on_create : Created → Monitor → Monitor
on_create c m =
    if is_zero c.code then record m { live = some c.thread; clean = m.clean && free m.live } else m

unfoldable pub on_tear_down : Ptr → Monitor → Monitor
on_tear_down t m = record {
  live = none;
  handle = none;
  pending = none;
  was_read = false;
  clean = m.clean && holds m.live t && free m.handle && free m.pending;
}

unfoldable pub on_open : Ptr → ℤ → Monitor → Monitor
on_open t r m =
    if is_nonneg r
    then record m { handle = some r; clean = m.clean && holds m.live t && free m.handle }
    else record m { clean = m.clean && holds m.live t }

unfoldable pub on_close : Ptr → ℤ → Monitor → Monitor
on_close t h m = record m {
  handle = none;
  clean = m.clean && holds m.live t && holds_handle m.handle h;
}

unfoldable pub on_call : Ptr → ℤ → Monitor → Monitor
on_call t h m = record m { clean = m.clean && holds m.live t && holds_handle m.handle h }

unfoldable pub on_thread_call : Ptr → Monitor → Monitor
on_thread_call t m = record m { clean = m.clean && holds m.live t }

unfoldable pub on_string : Ptr → Monitor → Monitor
on_string r m =
    if is_null r
    then m
    else record m { pending = some r; was_read = false; clean = m.clean && free m.pending }

unfoldable pub on_read : Ptr → Monitor → Monitor
on_read r m = record m { was_read = true; clean = m.clean && holds m.pending r && not m.was_read }

unfoldable pub on_free : Ptr → Ptr → Monitor → Monitor
on_free t r m = record m {
  pending = none;
  was_read = false;
  clean = m.clean && holds m.live t && holds m.pending r && m.was_read;
}

-- A call that returns a string.
unfoldable pub string_call :
    {W : Type 0} → Ptr → ℤ → (W → Ptr × W) → W × Monitor → Ptr × (W × Monitor)
string_call t h f (w, m) = let (r, w') = f w in (r, (w', on_string r (on_call t h m)))

-- A call that returns a number.
unfoldable pub number_call : {W : Type 0} → Ptr → ℤ → (W → ℤ × W) → W × Monitor → ℤ × (W × Monitor)
number_call t h f (w, m) = let (r, w') = f w in (r, (w', on_call t h m))

-- A call of the system.
abbrev pub beside : {W A : Type 0} → (W → A × W) → W × Monitor → A × (W × Monitor)
beside f (w, m) = let (r, w') = f w in (r, (w', m))

abbrev pub watch_os : {W : Type 0} → Os W → Os (W × Monitor)
watch_os os = record {
  env_var = os.env_var;
  home_dir = os.home_dir;
  exists = λ s x. os.exists s x.0;
  canonicalize = λ s x. os.canonicalize s x.0;
  create_dir_all = λ s. beside (os.create_dir_all s);
  read_dir = λ s x. os.read_dir s x.0;
  copy = λ s t. beside (os.copy s t);
  remove_file = λ s x. (os.remove_file s x.0, x.1);
  remove_dir_all = λ s x. (os.remove_dir_all s x.0, x.1);
  download = λ s. beside (os.download s);
  unpack = λ b s. beside (os.unpack b s);
  load_library = λ s. beside (os.load_library s);
  find_symbol = λ l s x. os.find_symbol l s x.0;
}

abbrev pub watch_lib : {W : Type 0} → ChronDbLib W → ChronDbLib (W × Monitor)
watch_lib n = record {
  graal_create_isolate = λ x. let (c, w) = n.graal_create_isolate x.0 in (c, (w, on_create c x.1));
  graal_tear_down_isolate =
      λ t x. let (r, w) = n.graal_tear_down_isolate t x.0 in (r, (w, on_tear_down t x.1));
  chrondb_open = λ t a b x. let (r, w) = n.chrondb_open t a b x.0 in (r, (w, on_open t r x.1));
  chrondb_close = λ t h x. let (r, w) = n.chrondb_close t h x.0 in (r, (w, on_close t h x.1));
  chrondb_put = λ t h a b c. string_call t h (n.chrondb_put t h a b c);
  chrondb_get = λ t h a b. string_call t h (n.chrondb_get t h a b);
  chrondb_delete = λ t h a b. number_call t h (n.chrondb_delete t h a b);
  chrondb_list_by_prefix = λ t h a b. string_call t h (n.chrondb_list_by_prefix t h a b);
  chrondb_list_by_table = λ t h a b. string_call t h (n.chrondb_list_by_table t h a b);
  chrondb_history = λ t h a b. string_call t h (n.chrondb_history t h a b);
  chrondb_query = λ t h a b. string_call t h (n.chrondb_query t h a b);
  chrondb_execute_sql = λ t h a b. string_call t h (n.chrondb_execute_sql t h a b);
  chrondb_open_path =
      λ t a x. let (r, w) = n.chrondb_open_path t a x.0 in (r, (w, on_open t r x.1));
  chrondb_free_string = λ t r x. (n.chrondb_free_string t r x.0, on_free t r x.1);
  chrondb_last_error = λ t x.
      let (r, w) = n.chrondb_last_error t x.0 in (r, (w, on_string r (on_thread_call t x.1)));
  chrondb_setup_remote = λ t h a. string_call t h (n.chrondb_setup_remote t h a);
  chrondb_push = λ t h. string_call t h (n.chrondb_push t h);
  chrondb_pull = λ t h. string_call t h (n.chrondb_pull t h);
  chrondb_fetch = λ t h. string_call t h (n.chrondb_fetch t h);
  chrondb_remote_status = λ t h. string_call t h (n.chrondb_remote_status t h);
  chrondb_export = λ t h a b. string_call t h (n.chrondb_export t h a b);
  chrondb_create_backup = λ t h a b. string_call t h (n.chrondb_create_backup t h a b);
  chrondb_restore_backup = λ t h a b. string_call t h (n.chrondb_restore_backup t h a b);
  chrondb_export_snapshot = λ t h a b. string_call t h (n.chrondb_export_snapshot t h a b);
  chrondb_import_snapshot = λ t h a b. string_call t h (n.chrondb_import_snapshot t h a b);
}

abbrev pub watch : Platform → Platform
watch p = record {
  World = p.World × Monitor;
  os = watch_os p.os;
  native = watch_lib p.native;
  read_string = λ r x. let (s, w) = p.read_string r x.0 in (s, (w, on_read r x.1));
  Value = p.Value;
  from_str = p.from_str;
  to_string = p.to_string;
  empty_array = p.empty_array;
}

-- Nothing is held, and no rule was broken.
abbrev pub at_rest : Monitor
at_rest = record { live = none; handle = none; pending = none; was_read = false; clean = true }

-- An isolate and its database are open, no string is held, and no rule was broken.
abbrev pub serving : Ptr → ℤ → Monitor
serving t h = record {
  live = some t;
  handle = some h;
  pending = none;
  was_read = false;
  clean = true;
}
