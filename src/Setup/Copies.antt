-- ===== src/Setup/Copies.antt =====
-- What the flattening of an unpacked release copies, in both layouts, over a system whose copies are
-- there afterwards and take nothing away.
use chrondb.Base.{
  String, Bool, true, false, ◌&&◌, not, some, List, [], ◌∷◌, ◌≡◌, subst, arith, ◌=s=◌, eq_iff,
  if◌then◌else◌, Result, ok, err, Result-cases, Bool-cases, continue, inl, inr, ◌>>=◌,
}
use chrondb.Base.Text.{join}
use chrondb.Platform.{Platform, DirEntry}
use chrondb.Setup.Archive.{entry_is_dir, copy_entry, copy_entries, copy_dir, copy_subdir, nested}

-- Whether a directory lists a file of that name.
unfoldable pub has_file : String → List (Result DirEntry String) → Bool
has_file name [] = false
has_file name (err e ∷ rest) = has_file name rest
has_file name (ok entry ∷ rest) =
    let more = has_file name rest in
    if entry.file_name =s= name && not (entry_is_dir entry) then true else more

module _ (p : Platform)
    (copied_exists : (src dst : String) (w : p.World)
      → (p.os.copy src dst w).0 ≡ ok tt
      → p.os.exists dst (p.os.copy src dst w).1 ≡ true)
    (copy_keeps : (src dst file : String) (w : p.World)
      → p.os.exists file w ≡ true
      → p.os.exists file (p.os.copy src dst w).1 ≡ true) where
  open p use {World, os}

  copy_entries-keeps :
      (skip : Bool) (dir lib_dir file : String) (entries : List (Result DirEntry String))
      (w : World)
      → os.exists file w ≡ true
      → os.exists file (copy_entries p skip dir lib_dir entries w).1 ≡ true
  unfolding copy_entries copy_entry
  copy_entries-keeps skip dir lib_dir file [] w there = there
  copy_entries-keeps skip dir lib_dir file (err e ∷ rest) w there = there
  copy_entries-keeps skip dir lib_dir file (ok entry ∷ rest) w there =
      elim (Bool-cases (skip && entry_is_dir entry)) [
        | inl skips ↦
            rw (copy_entries, skips) (copy_entries-keeps skip dir lib_dir file rest w there)
        | inr copies ↦
            let q = os.copy (join dir entry.file_name) (join lib_dir entry.file_name) w in
            let kept =
              copy_keeps (join dir entry.file_name) (join lib_dir entry.file_name) file w there in
            elim (Result-cases q.0) [
              | inl (u, e) ↦
                  rw (copy_entries, copies, copy_entry, e)
                    (copy_entries-keeps skip dir lib_dir file rest q.1 kept)
              | inr (t, e) ↦ rw (copy_entries, copies, copy_entry, e) kept
            ]
      ]

  copied_as :
      (entry name dir lib_dir : String) (w : World)
      → (os.copy (join dir entry) (join lib_dir entry) w).0 ≡ ok tt
      → (entry =s= name) ≡ true
      → os.exists (join lib_dir name) (os.copy (join dir entry) (join lib_dir entry) w).1 ≡ true
  copied_as entry name dir lib_dir w e same =
      subst
        (λ n. os.exists (join lib_dir n) (os.copy (join dir entry) (join lib_dir entry) w).1 ≡ true)
        ((eq_iff entry name).0 same) (copied_exists (join dir entry) (join lib_dir entry) w e)

  -- The file is there if the run succeeds.
  abbrev pub Copied : String → Result (Unit {0}) String × World → Type 0
  Copied file r = elim r.0 [ ok u ↦ os.exists file r.1 ≡ true | err e ↦ Unit {0} ]

  there-Copied :
      (file : String) (r : Result (Unit {0}) String × World)
      → os.exists file r.1 ≡ true
      → Copied file r
  there-Copied file (ok u, w) there = there
  there-Copied file (err e, w) there = tt

  copy_entries-Copied :
      (skip : Bool) (dir lib_dir name : String) (entries : List (Result DirEntry String))
      (w : World)
      → has_file name entries ≡ true
      → Copied (join lib_dir name) (copy_entries p skip dir lib_dir entries w)
  unfolding copy_entries copy_entry has_file
  copy_entries-Copied skip dir lib_dir name [] w listed = absurd (ground (arith, listed))
  copy_entries-Copied skip dir lib_dir name (err e ∷ rest) w listed = tt
  copy_entries-Copied skip dir lib_dir name (ok entry ∷ rest) w listed =
      elim (Bool-cases (skip && entry_is_dir entry)) [
        | inl skips ↦
            rw (copy_entries, skips)
              (copy_entries-Copied skip dir lib_dir name rest w (ground (arith, listed, skips)))
        | inr copies ↦
            let q = os.copy (join dir entry.file_name) (join lib_dir entry.file_name) w in
            elim (Result-cases q.0) [
              | inr (t, e) ↦ rw (copy_entries, copies, copy_entry, e) tt
              | inl (u, e) ↦
                  rw (copy_entries, copies, copy_entry, e)
                    (elim (Bool-cases (entry.file_name =s= name && not (entry_is_dir entry))) [
                      | inl same ↦ there-Copied (join lib_dir name) _ (
                          copy_entries-keeps skip dir lib_dir (join lib_dir name) rest q.1
                            (copied_as entry.file_name name dir lib_dir w e (ground (arith, same))))
                      | inr other ↦
                          copy_entries-Copied skip dir lib_dir name rest q.1
                            (ground (arith, listed, other))
                    ])
            ]
      ]

  pub copy_dir-Copied :
      (skip : Bool) (what dir lib_dir name : String) (entries : List (Result DirEntry String))
      (w : World)
      → os.read_dir dir w ≡ ok entries
      → has_file name entries ≡ true
      → Copied (join lib_dir name) (copy_dir p skip what dir lib_dir w)
  unfolding copy_dir
  copy_dir-Copied skip what dir lib_dir name entries w read listed =
      rw (copy_dir, read) (copy_entries-Copied skip dir lib_dir name entries w listed)

  copy_subdir-keeps :
      (what dir lib_dir file : String) (w : World)
      → os.exists file w ≡ true
      → os.exists file (copy_subdir p what dir lib_dir w).1 ≡ true
  unfolding copy_subdir copy_dir
  copy_subdir-keeps what dir lib_dir file w there = elim (Bool-cases (os.exists dir w)) [
    | inr e ↦ rw e there
    | inl e ↦ elim (Result-cases (os.read_dir dir w)) [
      | inl (entries, r) ↦
          rw (e, copy_dir, r) (copy_entries-keeps false dir lib_dir file entries w there)
      | inr (t, r) ↦ rw (e, copy_dir, r) there
    ]
  ]

  -- A step behind one that leaves the file there.
  continue-Copied :
      (file : String) (r : Result (Unit {0}) String × World)
      (next : World → Result (Unit {0}) String × World)
      → Copied file r
      → ((w : World) → os.exists file w ≡ true → os.exists file (next w).1 ≡ true)
      → Copied file (continue r.0 (λ _. next) r.1)
  continue-Copied file (ok u, w) next there keeps = there-Copied file (next w) (keeps w there)
  continue-Copied file (err e, w) next there keeps = tt

  pub nested-Copied :
      (d : DirEntry) (temp_dir lib_dir name : String) (inner : List (Result DirEntry String))
      (w : World)
      → os.exists (join (join temp_dir d.file_name) "lib") w ≡ true
      → os.read_dir (join (join temp_dir d.file_name) "lib") w ≡ ok inner
      → has_file name inner ≡ true
      → Copied (join lib_dir name) (nested p (some d) temp_dir lib_dir w)
  unfolding nested copy_subdir ◌>>=◌
  nested-Copied d temp_dir lib_dir name inner w is_there read listed =
      continue-Copied (join lib_dir name)
        (copy_subdir p "Failed to read lib subdir: " (join (join temp_dir d.file_name) "lib")
          lib_dir w)
        (copy_subdir p "Failed to read include subdir: "
          (join (join temp_dir d.file_name) "include") lib_dir)
        (rw (copy_subdir, is_there)
          (copy_dir-Copied false "Failed to read lib subdir: "
            (join (join temp_dir d.file_name) "lib") lib_dir name inner w read listed))
        (copy_subdir-keeps "Failed to read include subdir: "
          (join (join temp_dir d.file_name) "include") lib_dir (join lib_dir name))
