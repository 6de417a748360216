-- ===== src/Setup/Releases.antt =====
-- A release that holds the library is installed, in either layout.
use chrondb.Base.{ℕ, ◌>>=◌, lift, String, true, false, some, List, ◌≡◌, refl, Result, ok}
use chrondb.Base.Text.{join}
use chrondb.Platform.{Platform, DirEntry}
use chrondb.Setup.Target.{Target, get_lib_name, get_platform, download_url}
use chrondb.Setup.Archive.{
  attempt, flatten_extracted_archive, first_dir, flatten_entries, flatten_layout,
}
use chrondb.Setup.Install.{chrondb_home_lib_dir, verify_installed, download_library}
use chrondb.Setup.Copies.{has_file, Copied, copy_dir-Copied, nested-Copied}

-- An unpacked release with the library's file: at its root, or in the `lib` of its first directory.
pub data Ships (p : Platform) (target : Target) (temp_dir : String) (w : p.World) : Type 0 where
  flat :
      (entries : List (Result DirEntry String))
      → p.os.exists (join temp_dir (get_lib_name target)) w ≡ true
      → p.os.read_dir temp_dir w ≡ ok entries
      → has_file (get_lib_name target) entries ≡ true
      → Ships p target temp_dir w
  wrapped :
      (d : DirEntry) (entries inner : List (Result DirEntry String))
      → p.os.exists (join temp_dir (get_lib_name target)) w ≡ false
      → p.os.read_dir temp_dir w ≡ ok entries
      → first_dir entries ≡ some d
      → p.os.exists (join (join temp_dir d.file_name) "lib") w ≡ true
      → p.os.read_dir (join (join temp_dir d.file_name) "lib") w ≡ ok inner
      → has_file (get_lib_name target) inner ≡ true
      → Ships p target temp_dir w

module _ (p : Platform) (target : Target)
    (copied_exists : (src dst : String) (w : p.World)
      → (p.os.copy src dst w).0 ≡ ok tt
      → p.os.exists dst (p.os.copy src dst w).1 ≡ true)
    (copy_keeps : (src dst file : String) (w : p.World)
      → p.os.exists file w ≡ true
      → p.os.exists file (p.os.copy src dst w).1 ≡ true) where
  open p use {World, os}

  flatten_layout-Copied :
      (temp_dir lib_dir : String) (w : World)
      → Ships p target temp_dir w
      → Copied p copied_exists copy_keeps
          (join lib_dir (get_lib_name target))
          (flatten_layout p target temp_dir lib_dir w)
  unfolding flatten_layout flatten_entries
  flatten_layout-Copied temp_dir lib_dir w (flat entries is_flat read listed) =
      rw (flatten_layout, is_flat)
        (copy_dir-Copied p copied_exists copy_keeps true "Failed to read temp directory: " temp_dir
          lib_dir (get_lib_name target) entries w read listed)
  flatten_layout-Copied temp_dir lib_dir w
        (wrapped d entries inner not_flat read first is_there within listed) =
      rw (flatten_layout, not_flat, read, flatten_entries, first)
        (nested-Copied p copied_exists copy_keeps d temp_dir lib_dir (get_lib_name target) inner w
          is_there within listed)

  -- Where a copied file is there, a copy takes no file away, and the removal of the temporary directory
  -- takes none of the library's directory: for a release that holds the library's file, at its root or
  -- in the `lib` of its first directory, a flattening that succeeds passes the check behind it, and the
  -- installation succeeds.
  pub flatten_layout-verify_installed :
      (temp_dir lib_dir : String) (w : World)
      → Ships p target temp_dir w
      → ((v : World)
          → os.exists (join lib_dir (get_lib_name target)) v ≡ true
          → os.exists (join lib_dir (get_lib_name target)) (os.remove_dir_all temp_dir v) ≡ true)
      → (flatten_layout p target temp_dir lib_dir w).0 ≡ ok tt
      → verify_installed p target temp_dir lib_dir (flatten_layout p target temp_dir lib_dir w).1
        ≡ (ok tt, os.remove_dir_all temp_dir (flatten_layout p target temp_dir lib_dir w).1)
  unfolding verify_installed
  flatten_layout-verify_installed temp_dir lib_dir w ships removes done =
      let there = flatten_layout-Copied temp_dir lib_dir w ships in
      let kept = removes (flatten_layout p target temp_dir lib_dir w).1 (rw done at there) in
      rw (verify_installed, kept) refl

  -- Where a copied file is there, a copy takes no file away, and the removal of the temporary directory
  -- takes none of the library's directory: if the target has releases, the home directory is known, the
  -- calls before the flattening succeed, the release holds the library's file, at its root or in the
  -- `lib` of its first directory, and its files can be copied, then the download succeeds, and what it
  -- leaves is the flattened release without the temporary directory.
  pub download_library-succeeds :
      (lib_dir platform : String) (body : ℕ) (w w1 w2 w3 w4 : World)
      → get_platform target ≡ some platform
      → chrondb_home_lib_dir p target ≡ some lib_dir
      → os.download (download_url target.version platform) w ≡ (ok body, w1)
      → os.create_dir_all (join lib_dir ".tmp-extract-runtime") w1 ≡ (ok tt, w2)
      → os.unpack body (join lib_dir ".tmp-extract-runtime") w2 ≡ (ok tt, w3)
      → os.create_dir_all lib_dir w3 ≡ (ok tt, w4)
      → Ships p target (join lib_dir ".tmp-extract-runtime") w4
      → ((v : World)
          → os.exists (join lib_dir (get_lib_name target)) v ≡ true
          → os.exists
              (join lib_dir (get_lib_name target))
              (os.remove_dir_all (join lib_dir ".tmp-extract-runtime") v)
            ≡ true)
      → (flatten_layout p target (join lib_dir ".tmp-extract-runtime") lib_dir w4).0 ≡ ok tt
      → download_library p target w ≡ (
        ok tt,
        os.remove_dir_all
            (join lib_dir ".tmp-extract-runtime")
            (flatten_layout p target (join lib_dir ".tmp-extract-runtime") lib_dir w4).1,
      )
  unfolding download_library flatten_extracted_archive ◌>>=◌ lift attempt
  download_library-succeeds lib_dir platform body w w1 w2 w3 w4 released home downloaded created
        unpacked made ships removes done =
      let verified =
        flatten_layout-verify_installed (join lib_dir ".tmp-extract-runtime") lib_dir w4 ships
          removes done in
      rw
        (
          download_library, released, home, downloaded, created, unpacked,
          flatten_extracted_archive, made, done, verified,
        )
        refl
