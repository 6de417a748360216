-- ===== src/Build/Runtime.antt =====
-- The build script repeats what the runtime's setup does (bindings/rust/src/setup.rs): its names are
-- the same, and so are its copies of the nested layout.
use chrondb.Base.{
  String, true, false, Bool, none, some, List, [], ◌∷◌, ◌≡◌, refl, subst, arith, ◌=s=◌,
  if◌then◌else◌, Result, ok, err, Result-cases, Bool-cases, inl, inr, Run, eq_iff, continue, ◌>>=◌,
  throw, return,
}
use chrondb.Base.Text.{join}
use chrondb.Platform.{Platform, DirEntry}
use chrondb.Setup.Target.{
  Target, TargetOs, macos, linux, windows, other_os, TargetArch, x86_64, aarch64, other_arch,
  get_lib_name, lib_name_of, get_platform, platform_of, download_url,
}
use chrondb.Setup.Archive.{copy_entry, copy_entries, copy_dir, copy_subdir, nested}
use chrondb.Build.{
  build_lib_name, build_platform, build_url, copy_listed, copy_read, copy_existing, copy_first,
}

-- The `cfg` of a target, by Cargo's names of it.
abbrev pub cfg_os : String → TargetOs
cfg_os s =
    if s =s= "macos"
    then macos
    else if s =s= "linux"
    then linux
    else if s =s= "windows"
    then windows
    else other_os

abbrev pub cfg_arch : String → TargetArch
cfg_arch s = if s =s= "x86_64" then x86_64 else if s =s= "aarch64" then aarch64 else other_arch

abbrev pub cfg : String → String → String → Target
cfg os arch version = record { os = cfg_os os; arch = cfg_arch arch; version = version }

-- For every target, known or not, the build script and the setup have one name for the library, one for
-- the platform, or both none, and one address to download from.
pub get_platform-build_platform :
    (os arch version platform : String)
    → (get_lib_name (cfg os arch version) ≡ build_lib_name os)
      × (get_platform (cfg os arch version) ≡ build_platform os arch)
      × (download_url version platform ≡ build_url version platform)
unfolding get_lib_name lib_name_of get_platform platform_of build_lib_name build_platform
    download_url build_url
get_platform-build_platform os arch version platform = elim (Bool-cases (os =s= "macos")) [
  | inl m ↦ rw ((eq_iff os "macos").0 m) (ground arith)
  | inr m ↦ elim (Bool-cases (os =s= "linux")) [
    | inl l ↦ rw ((eq_iff os "linux").0 l) (ground arith)
    | inr l ↦ elim (Bool-cases (os =s= "windows")) [
      | inl w ↦ rw ((eq_iff os "windows").0 w) (ground arith)
      | inr w ↦ rw (m, l, w) (ground arith)
    ]
  ]
]

abbrev pub succeeds : {A E : Type 0} → Result A E → Bool
succeeds (ok a) = true
succeeds (err e) = false

-- Two runs that leave the same state and succeed or fail together, with errors of their own.
abbrev Agree : {S A E : Type 0} → Result A E × S → Result A E × S → Type 0
Agree r q = (r.1 ≡ q.1) × (succeeds r.0 ≡ succeeds q.0)

continue-Agree :
    {S E : Type 0} (r q : Result (Unit {0}) E) (f g : Unit {0} → Run S (Unit {0}) E) (s : S)
    → succeeds r ≡ succeeds q
    → ((t : S) → Agree (f tt t) (g tt t))
    → Agree (continue r f s) (continue q g s)
continue-Agree (ok a) (ok b) f g s e h = h s
continue-Agree (ok a) (err b) f g s e h = absurd (ground (arith, e))
continue-Agree (err a) (ok b) f g s e h = absurd (ground (arith, e))
continue-Agree (err a) (err b) f g s e h = (refl, refl)

>>=-Agree :
    {S E : Type 0} (m n : Run S (Unit {0}) E) (f g : Unit {0} → Run S (Unit {0}) E) (s : S)
    → Agree (m s) (n s)
    → ((t : S) → Agree (f tt t) (g tt t))
    → Agree ((m >>= f) s) ((n >>= g) s)
unfolding ◌>>=◌
>>=-Agree m n f g s (e, same) h =
    subst (λ t. Agree (continue (m s).0 f (m s).1) (continue (n s).0 g t)) e
      (continue-Agree (m s).0 (n s).0 f g (m s).1 same h)

module _ (p : Platform) where
  open p use {World, os}

  copy_listed-copy_entries :
      (dir lib_dir : String) (entries : List (Result DirEntry String)) (w : World)
      → Agree (copy_listed p dir lib_dir entries w) (copy_entries p false dir lib_dir entries w)
  unfolding copy_listed copy_entries copy_entry
  copy_listed-copy_entries dir lib_dir [] w = (refl, refl)
  copy_listed-copy_entries dir lib_dir (err e ∷ rest) w = (refl, refl)
  copy_listed-copy_entries dir lib_dir (ok entry ∷ rest) w =
      let copied = os.copy (join dir entry.file_name) (join lib_dir entry.file_name) w in
      elim (Result-cases copied.0) [
        | inl (u, e) ↦
            rw (copy_listed, copy_entries, copy_entry, e)
              (copy_listed-copy_entries dir lib_dir rest copied.1)
        | inr (t, e) ↦ rw (copy_listed, copy_entries, copy_entry, e) (refl, refl)
      ]

  copy_existing-copy_subdir :
      (what dir lib_dir : String) (w : World)
      → Agree (copy_existing p dir lib_dir w) (copy_subdir p what dir lib_dir w)
  unfolding copy_existing copy_read copy_subdir copy_dir
  copy_existing-copy_subdir what dir lib_dir w = elim (Bool-cases (os.exists dir w)) [
    | inr e ↦ rw e (refl, refl)
    | inl e ↦ elim (Result-cases (os.read_dir dir w)) [
      | inl (entries, r) ↦ rw (e, copy_dir, r) (copy_listed-copy_entries dir lib_dir entries w)
      | inr (t, r) ↦ rw (e, copy_dir, r) (refl, refl)
    ]
  ]

  -- Where an unpacked release has a directory, the build script's copies leave the same files as the
  -- setup's for the nested layout, and succeed just where those do. Where it has none, the build script
  -- copies nothing and succeeds, and the setup fails.
  pub copy_first-nested :
      (e : DirEntry) (temp_dir lib_dir : String) (w : World)
      → ((copy_first p (some e) temp_dir lib_dir w).1 ≡ (nested p (some e) temp_dir lib_dir w).1)
        × (succeeds (copy_first p (some e) temp_dir lib_dir w).0
            ≡ succeeds (nested p (some e) temp_dir lib_dir w).0)
        × (copy_first p none temp_dir lib_dir w ≡ (ok tt, w))
        × (succeeds (nested p none temp_dir lib_dir w).0 ≡ false)
  unfolding copy_first nested throw return
  copy_first-nested e temp_dir lib_dir w =
      let (same, agree) =
        >>=-Agree _ _ _ _ w (copy_existing-copy_subdir _ _ lib_dir w)
          (λ t. copy_existing-copy_subdir _ _ lib_dir t) in
      (same, agree, refl, refl)
