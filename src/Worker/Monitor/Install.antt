-- ===== src/Worker/Monitor/Install.antt =====
-- Finding, downloading and loading the library makes no call of it.
use chrondb.Base.{
  String, Bool, true, false, Option, none, some, List, [], ◌∷◌, ◌≡◌, refl, arith, inl, inr, Result,
  Result-cases, ok, err,
}
use chrondb.Platform.{Platform, DirEntry}
use chrondb.Setup.Target.{Target}
use chrondb.Setup.Archive.{
  attempt, copy_entry, copy_entries, copy_dir, copy_subdir, nested, flatten_entries, flatten_layout,
  flatten_extracted_archive, first_dir,
}
use chrondb.Setup.Install.{
  Process, verify_installed, download_library, run_setup, ensure_library_installed,
}
use chrondb.Loader.{find_library_path, load, load_at, load_once, get_library}
use chrondb.Worker.Monitor.{Monitor, watch, beside}
use chrondb.Worker.Monitor.Keeps.{Keeps, Keeps-throw, Keeps-lift, Keeps-bind}

module _ (p : Platform) (m : Monitor) where
  copy_entries-keeps :
      (skip : Bool) (dir lib_dir : String) (entries : List (Result DirEntry String)) (w : p.World)
      → (copy_entries (watch p) skip dir lib_dir entries (w, m)).1.1 ≡ m
  unfolding copy_entries
  copy_entries-keeps skip dir lib_dir [] w = refl
  copy_entries-keeps skip dir lib_dir (err e ∷ rest) w = refl
  copy_entries-keeps skip dir lib_dir (ok entry ∷ rest) w = ground (
    arith,
    copy_entries-keeps skip dir lib_dir rest w,
    copy_entries-keeps skip dir lib_dir rest (copy_entry p dir lib_dir entry w).1,
  )

  copy_dir-keeps :
      (skip : Bool) (what dir lib_dir : String) (w : p.World)
      → (copy_dir (watch p) skip what dir lib_dir (w, m)).1.1 ≡ m
  unfolding copy_dir
  copy_dir-keeps skip what dir lib_dir w = elim (Result-cases (p.os.read_dir dir w)) [
    | inl (entries, e) ↦ rw (e, copy_dir) (copy_entries-keeps skip dir lib_dir entries w)
    | inr (x, e) ↦ rw (e, copy_dir)
  ]

  copy_subdir-Keeps : (what dir lib_dir : String) → Keeps m (copy_subdir (watch p) what dir lib_dir)
  unfolding copy_subdir
  copy_subdir-Keeps what dir lib_dir = record {
    at = λ w. ground (arith, copy_dir-keeps false what dir lib_dir w);
  }

  nested-Keeps :
      (o : Option DirEntry) (temp_dir lib_dir : String)
      → Keeps m (nested (watch p) o temp_dir lib_dir)
  unfolding nested
  nested-Keeps none temp_dir lib_dir = Keeps-throw _
  nested-Keeps (some extracted) temp_dir lib_dir =
      Keeps-bind _ _ (copy_subdir-Keeps _ _ lib_dir) λ _. copy_subdir-Keeps _ _ lib_dir

  flatten-entries-keeps :
      (temp_dir lib_dir : String) (r : Result (List (Result DirEntry String)) String) (w : p.World)
      → (flatten_entries (watch p) temp_dir lib_dir r (w, m)).1.1 ≡ m
  unfolding flatten_entries
  flatten-entries-keeps temp_dir lib_dir (ok entries) w =
      (nested-Keeps (first_dir entries) temp_dir lib_dir).at w
  flatten-entries-keeps temp_dir lib_dir (err e) w = refl

  flatten_layout-Keeps :
      (target : Target) (temp_dir lib_dir : String)
      → Keeps m (flatten_layout (watch p) target temp_dir lib_dir)
  unfolding flatten_layout
  flatten_layout-Keeps target temp_dir lib_dir = record {
    at = λ w. ground (
      arith,
      copy_dir-keeps true "Failed to read temp directory: " temp_dir lib_dir w,
      flatten-entries-keeps temp_dir lib_dir (p.os.read_dir temp_dir w) w,
    );
  }

  attempt-Keeps :
      (A : Type 0) (what : String) (f : p.World → Result A String × p.World)
      → Keeps m (attempt what (beside f))
  unfolding attempt
  attempt-Keeps A what f = record { at = λ w. refl }

  flatten_extracted_archive-Keeps :
      (target : Target) (temp_dir lib_dir : String)
      → Keeps m (flatten_extracted_archive (watch p) target temp_dir lib_dir)
  unfolding flatten_extracted_archive
  flatten_extracted_archive-Keeps target temp_dir lib_dir =
      Keeps-bind _ _ (attempt-Keeps _ _ (p.os.create_dir_all lib_dir))
        λ _. flatten_layout-Keeps target temp_dir lib_dir

  verify_installed-Keeps :
      (target : Target) (temp_dir lib_dir : String)
      → Keeps m (verify_installed (watch p) target temp_dir lib_dir)
  unfolding verify_installed
  verify_installed-Keeps target temp_dir lib_dir = record { at = λ w. ground arith }

  download_library-Keeps : (target : Target) → Keeps m (download_library (watch p) target)
  unfolding download_library
  download_library-Keeps target = Keeps-lift _ _ λ platform. Keeps-lift _ _ λ lib_dir.
      Keeps-bind _ _ (attempt-Keeps _ _ (p.os.download _)) λ body.
        Keeps-bind _ _ (attempt-Keeps _ _ (p.os.create_dir_all _)) λ _.
          Keeps-bind _ _ (attempt-Keeps _ _ (p.os.unpack body _)) λ _.
            Keeps-bind _ _ (flatten_extracted_archive-Keeps target _ lib_dir)
              λ _. verify_installed-Keeps target _ lib_dir

  run_setup-Keeps : (target : Target) → Keeps m (run_setup (watch p) target)
  unfolding run_setup
  run_setup-Keeps target = record { at = λ w. ground (arith, (download_library-Keeps target).at w) }

  load_at-Keeps : (target : Target) (o : Option String) → Keeps m (load_at (watch p) target o)
  unfolding load_at
  load_at-Keeps target none = record { at = λ w. refl }
  load_at-Keeps target (some path) = record { at = λ w. ground arith }

module _ (p : Platform) (target : Target) (s : Process (p.World × Monitor)) where
  ensure_library_installed-keeps :
      (ensure_library_installed (watch p) target s).1.world.1 ≡ s.world.1
  unfolding ensure_library_installed
  ensure_library_installed-keeps = ground (arith, (run_setup-Keeps p s.world.1 target).at s.world.0)

  load_once-keeps : (load_once (watch p) target s).1.world.1 ≡ s.world.1
  unfolding load_once load
  load_once-keeps = ground (
    arith,
    (load_at-Keeps p s.world.1 target (find_library_path (watch p) target s.world)).at s.world.0,
  )

-- Getting the library leaves the observer alone.
pub get_library-keeps :
    (p : Platform) (target : Target) (s : Process (p.World × Monitor))
    → (get_library (watch p) target s).1.world.1 ≡ s.world.1
unfolding get_library
get_library-keeps p target s = ground (
  arith,
  ensure_library_installed-keeps p target s,
  load_once-keeps p target (ensure_library_installed (watch p) target s).1,
)
