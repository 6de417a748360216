-- ===== src/Setup/Archive.antt =====
-- `flatten_extracted_archive` (bindings/rust/src/setup.rs): the files of an unpacked release are
-- copied into the library's directory.
use chrondb.Base.{
  String, Bool, true, false, ◌&&◌, Option, none, some, List, [], ◌∷◌, ◌<>◌, if◌then◌else◌, Result,
  ok, err, map_err, Run, throw, ◌>>◌,
}
use chrondb.Base.Text.{join}
use chrondb.Platform.{Platform, DirEntry}
use chrondb.Setup.Target.{Target, get_lib_name}

-- `entry.file_type().map(|t| t.is_dir()).unwrap_or(false)`
abbrev pub entry_is_dir : DirEntry → Bool
entry_is_dir e = elim e.is_dir [ none ↦ false | some b ↦ b ]

-- `.filter_map(|e| e.ok()).filter(|e| ..is_dir()..).collect()` and `.first()`
unfoldable pub first_dir : List (Result DirEntry String) → Option DirEntry
first_dir [] = none
first_dir (err e ∷ rest) = first_dir rest
first_dir (ok entry ∷ rest) =
    let more = first_dir rest in if entry_is_dir entry then some entry else more

-- An operation of the system that changes the world, with a text in front of its error.
unfoldable pub attempt : {A W : Type 0} → String → (W → Result A String × W) → Run W A String
attempt what f w = let (r, w1) = f w in (map_err (λ e. what <> e) r, w1)

module _ (p : Platform) where
  open p use {World, os}

  -- `fs::copy(entry.path(), &dest).map_err(..)?` with `dest = lib_dir.join(entry.file_name())`
  unfoldable pub copy_entry : String → String → DirEntry → Run World (Unit {0}) String
  copy_entry dir lib_dir entry w =
      let path = join dir entry.file_name in
      let (copied, w1) = os.copy path (join lib_dir entry.file_name) w in
      (map_err (λ e. "Failed to copy " <> path <> ": " <> e) copied, w1)

  -- The loop over the entries of a directory. Subdirectories are skipped in the flat layout only.
  unfoldable pub copy_entries :
      Bool → String → String → List (Result DirEntry String) → Run World (Unit {0}) String
  unfolding copy_entry
  copy_entries skip dir lib_dir [] w = (ok tt, w)
  copy_entries skip dir lib_dir (err e ∷ rest) w = (err ("Failed to read entry: " <> e), w)
  copy_entries skip dir lib_dir (ok entry ∷ rest) w = elim (skip && entry_is_dir entry) [
    | true ↦ copy_entries skip dir lib_dir rest w
    | false ↦
        let (copied, w1) = copy_entry dir lib_dir entry w in
        elim copied [ ok u ↦ copy_entries skip dir lib_dir rest w1 | err e ↦ (err e, w1) ]
  ]

  -- `for entry in fs::read_dir(dir).map_err(..)? { .. }`
  unfoldable pub copy_dir : Bool → String → String → String → Run World (Unit {0}) String
  copy_dir skip what dir lib_dir w = elim (os.read_dir dir w) [
    | ok entries ↦ copy_entries skip dir lib_dir entries w
    | err e ↦ (err (what <> e), w)
  ]

  -- `if subdir.exists() { .. }`
  unfoldable pub copy_subdir : String → String → String → Run World (Unit {0}) String
  unfolding copy_dir
  copy_subdir what dir lib_dir w =
      if os.exists dir w then copy_dir false what dir lib_dir w else (ok tt, w)

  unfoldable pub nested : Option DirEntry → String → String → Run World (Unit {0}) String
  unfolding copy_subdir
  nested none temp_dir lib_dir = throw "Archive did not contain expected directory structure"
  nested (some extracted) temp_dir lib_dir = do
    let extracted_path = join temp_dir extracted.file_name
    copy_subdir "Failed to read lib subdir: " (join extracted_path "lib") lib_dir
    copy_subdir "Failed to read include subdir: " (join extracted_path "include") lib_dir

  -- What the nested layout does with the entries that it reads.
  unfoldable pub flatten_entries :
      String → String → Result (List (Result DirEntry String)) String → Run World (Unit {0}) String
  unfolding nested first_dir
  flatten_entries temp_dir lib_dir (ok entries) w = nested (first_dir entries) temp_dir lib_dir w
  flatten_entries temp_dir lib_dir (err e) w = (err ("Failed to read temp directory: " <> e), w)

  -- The choice of the layout.
  unfoldable pub flatten_layout : Target → String → String → Run World (Unit {0}) String
  unfolding copy_dir flatten_entries
  flatten_layout target temp_dir lib_dir w =
      if os.exists (join temp_dir (get_lib_name target)) w
      then copy_dir true "Failed to read temp directory: " temp_dir lib_dir w
      else flatten_entries temp_dir lib_dir (os.read_dir temp_dir w) w

  unfoldable pub flatten_extracted_archive : Target → String → String → Run World (Unit {0}) String
  unfolding flatten_layout attempt
  flatten_extracted_archive target temp_dir lib_dir = do
    attempt "Failed to create lib directory: " (os.create_dir_all lib_dir)
    flatten_layout target temp_dir lib_dir
