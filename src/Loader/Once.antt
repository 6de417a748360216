-- ===== src/Loader/Once.antt =====
-- Installing and loading the library: what it leaves, and that it happens once in a process.
use chrondb.Base.{
  String, true, false, Option, none, some, ◌≡◌, refl, arith, ok, err, Result, Run, continue, lift,
  ok_or, ◌>>=◌, Option-cases, inl, inr,
}
use chrondb.Platform.{Platform}
use chrondb.Setup.Target.{Target}
use chrondb.Setup.Install.{
  Process, chrondb_home_lib_dir, exists_in, library_exists, verify_installed, download_library,
  run_setup, ensure_library_installed,
}
use chrondb.Loader.{existing, find_library_path, load_once, get_library}

-- What holds of the state behind a success.
abbrev Leaves : {S A E : Type 0} → (S → Type 0) → Result A E × S → Type 0
Leaves P r = elim r.0 [ ok a ↦ P r.1 | err e ↦ Unit {0} ]

continue-Leaves :
    {S A B E : Type 0} (P : S → Type 0) (r : Result A E) (f : A → Run S B E)
    → ((a : A) (s : S) → Leaves P (f a s))
    → (s : S) → Leaves P (continue r f s)
continue-Leaves P (ok a) f h s = h a s
continue-Leaves P (err e) f h s = tt

-- A sequence leaves what its last step does.
>>=-Leaves :
    {S A B E : Type 0} (P : S → Type 0) (m : Run S A E) (f : A → Run S B E)
    → ((a : A) (s : S) → Leaves P (f a s))
    → (s : S) → Leaves P ((m >>= f) s)
unfolding ◌>>=◌
>>=-Leaves P m f h s = continue-Leaves P (m s).0 f h (m s).1

-- A step that needs a value, which is there or ends the computation.
ok_or-Leaves :
    {S A B E : Type 0} (P : S → Type 0) (e : E) (o : Option A) (f : A → Run S B E)
    → ((a : A) → o ≡ some a → (s : S) → Leaves P (f a s))
    → (s : S) → Leaves P ((lift (ok_or e o) >>= f) s)
unfolding ◌>>=◌
ok_or-Leaves P e none f h s = tt
ok_or-Leaves P e (some a) f h s = h a refl s

Leaves-ok :
    {S A E : Type 0} (P : S → Type 0) (r : Result A E × S) (a : A) → Leaves P r → r.0 ≡ ok a → P r.1
Leaves-ok P (ok b, s) a h e = h
Leaves-ok P (err b, s) a h e = absurd (ground arith)

module _ (p : Platform) (target : Target) where
  open p use {World, os}

  -- The setup looks for the library where the loader does: the library counts as installed just where
  -- the loader finds a file.
  pub library_exists-find_library_path :
      (w : World)
      → library_exists p target w
        ≡ elim (find_library_path p target w) [ none ↦ false | some path ↦ os.exists path w ]
  unfolding find_library_path existing library_exists exists_in chrondb_home_lib_dir
  library_exists-find_library_path w = ground arith

  abbrev Installed : World → Type 0
  Installed w = library_exists p target w ≡ true

  verify_installed-Installed :
      (temp_dir lib_dir : String) (w : World)
      → chrondb_home_lib_dir p target ≡ some lib_dir
      → Leaves Installed (verify_installed p target temp_dir lib_dir w)
  unfolding verify_installed library_exists exists_in
  verify_installed-Installed temp_dir lib_dir w e = ground arith

  download_library-Installed : (w : World) → Leaves Installed (download_library p target w)
  unfolding download_library
  download_library-Installed w =
      ok_or-Leaves Installed _ _ _
        (λ platform _. ok_or-Leaves Installed _ _ _ (λ lib_dir e. >>=-Leaves Installed _ _ (λ body.
          >>=-Leaves Installed _ _ (λ _.
            >>=-Leaves Installed _ _ (λ _.
              >>=-Leaves Installed _ _ (λ _ w1. verify_installed-Installed _ lib_dir w1 e))))))
        w

  run_setup-Installed : (w : World) → Leaves Installed (run_setup p target w)
  unfolding run_setup
  run_setup-Installed w = ground (arith, download_library-Installed w)

  -- A setup that succeeds, by a download or without one, leaves a library that the loader finds.
  pub run_setup-found :
      (w : World)
      → (run_setup p target w).0 ≡ ok tt
      → (path : String) × (find_library_path p target (run_setup p target w).1 ≡ some path)
  run_setup-found w h =
      let left = Leaves-ok Installed (run_setup p target w) tt (run_setup-Installed w) h in
      let same = library_exists-find_library_path (run_setup p target w).1 in
      elim (Option-cases (find_library_path p target (run_setup p target w).1)) [
        | inl e ↦ absurd (ground (arith, left, same, e))
        | inr found ↦ found
      ]

  -- The setup runs at most once in a process: a second call returns what the first one did, a failure
  -- included, and changes nothing.
  pub ensure_library_installed-once :
      (s : Process World)
      → let q = ensure_library_installed p target s in ensure_library_installed p target q.1 ≡ q
  unfolding ensure_library_installed
  ensure_library_installed-once s = ground arith

  -- The library is looked for and loaded at most once in a process, with the setup in front of it: a
  -- second call returns what the first one did, a failure included, and changes nothing.
  pub get_library-once :
      (s : Process World) → let q = get_library p target s in get_library p target q.1 ≡ q
  unfolding get_library load_once ensure_library_installed
  get_library-once s = ground arith
