-- ===== src/Build.antt =====
-- The build script (bindings/rust/build.rs): the library is downloaded while the crate is compiled.
-- Cargo's variables and the process's are the platform's environment.
pub mod Runtime
pub mod Outcomes
use chrondb.Base.{
  String, Bool, true, false, ◌&&◌, Option, none, some, List, [], ◌∷◌, ◌<>◌, ◌=s=◌, if◌then◌else◌,
  Result, ok, err, ok_or, Run, return, act, lift, ◌>>=◌, ◌>>◌,
}
use chrondb.Base.Text.{join}
use chrondb.Platform.{Platform, DirEntry}
use chrondb.Setup.Target.{release_of}
use chrondb.Setup.Archive.{first_dir}

-- `get_lib_name`
unfoldable pub build_lib_name : String → String
build_lib_name target_os =
    if target_os =s= "macos"
    then "libchrondb.dylib"
    else if target_os =s= "linux"
    then "libchrondb.so"
    else if target_os =s= "windows"
    then "chrondb.dll"
    else "libchrondb.so"

-- `let platform = match (target_os.as_str(), target_arch.as_str()) { .. }`
unfoldable pub build_platform : String → String → Option String
build_platform target_os target_arch =
    if target_os =s= "linux" && target_arch =s= "x86_64"
    then some "linux-x86_64"
    else if target_os =s= "linux" && target_arch =s= "aarch64"
    then some "linux-aarch64"
    else if target_os =s= "macos" && target_arch =s= "x86_64"
    then some "macos-x86_64"
    else if target_os =s= "macos" && target_arch =s= "aarch64"
    then some "macos-aarch64"
    else none

-- `let url = format!(..)`
unfoldable pub build_url : String → String → String
unfolding release_of
build_url pkg_version platform =
    let (release_tag, version_label) = release_of pkg_version in
    "https://github.com/avelino/chrondb/releases/download/" <> release_tag <> "/libchrondb-"
    <> version_label <> "-" <> platform <> ".tar.gz"

-- `.unwrap_or_default()`
abbrev or_empty : Option String → String
or_empty none = ""
or_empty (some s) = s

-- How `main` ends, as its last message tells.
pub data Outcome : Type 0 where
  skipped no_location already_exists pre_downloaded : Outcome
  pre_download_failed : String → Outcome

module _ (p : Platform) where
  open p use {World, os}

  -- `env::var(name)?`. A variable that is not Unicode has another text.
  abbrev env_var : String → Run World String String
  env_var name = lift (ok_or "environment variable not found" (os.env_var name))

  -- `for entry in fs::read_dir(dir)? { .. }`, with the entries that were read.
  unfoldable pub copy_listed :
      String → String → List (Result DirEntry String) → Run World (Unit {0}) String
  copy_listed dir lib_dir [] w = (ok tt, w)
  copy_listed dir lib_dir (err e ∷ rest) w = (err e, w)
  copy_listed dir lib_dir (ok entry ∷ rest) w =
      let (copied, w1) = os.copy (join dir entry.file_name) (join lib_dir entry.file_name) w in
      elim copied [ ok u ↦ copy_listed dir lib_dir rest w1 | err e ↦ (err e, w1) ]

  unfoldable pub copy_read :
      String → String → Result (List (Result DirEntry String)) String → Run World (Unit {0}) String
  unfolding copy_listed
  copy_read dir lib_dir (ok entries) w = copy_listed dir lib_dir entries w
  copy_read dir lib_dir (err e) w = (err e, w)

  -- `if subdir.exists() { .. }`
  unfoldable pub copy_existing : String → String → Run World (Unit {0}) String
  unfolding copy_read
  copy_existing dir lib_dir w =
      if os.exists dir w then copy_read dir lib_dir (os.read_dir dir w) w else (ok tt, w)

  -- `if let Some(extracted) = entries.first() { .. }`
  unfoldable pub copy_first : Option DirEntry → String → String → Run World (Unit {0}) String
  unfolding copy_existing
  copy_first none temp_dir lib_dir = return tt
  copy_first (some extracted) temp_dir lib_dir = do
    let extracted_path = join temp_dir extracted.file_name
    copy_existing (join extracted_path "lib") lib_dir
    copy_existing (join extracted_path "include") lib_dir

  -- `download_library` behind the choice of the platform.
  unfoldable pub pre_download_from : String → String → Run World (Unit {0}) String
  unfolding copy_first first_dir
  pre_download_from url lib_dir = do
    body ← os.download url
    let temp_dir = join lib_dir ".tmp-extract-build"
    os.create_dir_all temp_dir
    os.unpack body temp_dir
    entries ← (λ w. (os.read_dir temp_dir w, w))
    os.create_dir_all lib_dir
    copy_first (first_dir entries) temp_dir lib_dir
    act (λ w. (tt {0}, os.remove_dir_all temp_dir w))

  -- `download_library`
  unfoldable pub pre_download : String → Run World (Unit {0}) String
  unfolding pre_download_from
  pre_download lib_dir = do
    target_os ← env_var "CARGO_CFG_TARGET_OS"
    target_arch ← env_var "CARGO_CFG_TARGET_ARCH"
    pkg_version ← env_var "CARGO_PKG_VERSION"
    elim (build_platform target_os target_arch) [
      | none ↦ return tt
      | some platform ↦ pre_download_from (build_url pkg_version platform) lib_dir
    ]

  -- `chrondb_home_lib_dir`
  unfoldable pub build_home_lib_dir : Option String
  build_home_lib_dir = elim os.home_dir [
    | none ↦ none
    | some h ↦ some (join (join h ".chrondb") "lib")
  ]

  -- `let lib_dir = if let Ok(dir) = .. else ..`
  unfoldable pub build_lib_dir : Option String
  unfolding build_home_lib_dir
  build_lib_dir = elim (os.env_var "CHRONDB_LIB_DIR") [
    | some dir ↦ some dir
    | none ↦ build_home_lib_dir
  ]

  abbrev told : Result (Unit {0}) String × World → Outcome × World
  told r = (elim r.0 [ ok u ↦ pre_downloaded | err e ↦ pre_download_failed e ], r.1)

  -- `main` behind the choice of the directory.
  unfoldable pub main_in : Option String → World → Outcome × World
  unfolding pre_download
  main_in none w = (no_location, w)
  main_in (some lib_dir) w =
      if os.exists (join lib_dir (build_lib_name (or_empty (os.env_var "CARGO_CFG_TARGET_OS")))) w
      then (already_exists, w)
      else told (pre_download lib_dir w)

  unfoldable pub main : World → Outcome × World
  unfolding main_in build_lib_dir
  main w = elim (os.env_var "CHRONDB_SKIP_DOWNLOAD") [
    | some s ↦ (skipped, w)
    | none ↦ main_in build_lib_dir w
  ]
