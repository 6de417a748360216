-- ===== src/Platform.antt =====
-- What the crate calls and does not implement: the operating system, the native library behind its
-- function pointers, the memory that it returns, and serde_json. `W` is the state of all of it.
pub mod Ffi
use chrondb.Base.{ℕ, String, Bool, Option, List, Result}
use Ffi.{Ptr, ChronDbLib}

-- What `read_dir` tells of an entry. The type is `none` where it cannot be read.
pub record DirEntry : Type 0 where
  pub file_name : String
  pub is_dir : Option Bool

-- The environment, which the crate never writes, the files and the network. A failing call gives
-- the text of its error.
pub record Os (W : Type 0) : Type 0 where
  pub env_var : String → Option String
  pub home_dir : Option String
  pub exists : String → W → Bool
  pub canonicalize : String → W → Option String
  pub create_dir_all : String → W → Result (Unit {0}) String × W
  pub read_dir : String → W → Result (List (Result DirEntry String)) String
  pub copy : String → String → W → Result (Unit {0}) String × W
  pub remove_file : String → W → W
  pub remove_dir_all : String → W → W
  -- `ureq::get(url).call()`: the address of the body.
  pub download : String → W → Result ℕ String × W
  -- `tar::Archive::unpack` of the body's gzip decoding.
  pub unpack : ℕ → String → W → Result (Unit {0}) String × W
  -- `libloading::Library::new`: the loaded library.
  pub load_library : String → W → Result ℕ String × W
  -- `lib.get(symbol)`.
  pub find_symbol : ℕ → String → W → Result (Unit {0}) String

pub record Platform : Type 1 where
  pub World : Type 0
  pub os : Os World
  -- The functions that the library's symbols stand for.
  pub native : ChronDbLib World
  -- `CStr::from_ptr(ptr).to_string_lossy().into_owned()`
  pub read_string : Ptr → World → String × World
  -- serde_json
  pub Value : Type 0
  pub from_str : String → Result Value String
  pub to_string : Value → Result String String
  -- `Value::Array(vec![])`
  pub empty_array : Value
