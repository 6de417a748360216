-- ===== src/Platform/Ffi.antt =====
-- The function pointers of bindings/rust/src/ffi.rs over a native world `W`. A C string that the
-- crate passes is the text that it holds, and a pointer that it receives is an address.
use chrondb.Base.{ℕ, String, Bool, ◌==◌}
use chrondb.Base.Int.{ℤ}

-- A `CString`: a text with no NUL byte.
pub record CString : Type 0 where
  pub text : String

-- A `*const c_char` argument: null, or the address of a C string that outlives the call.
pub data CharPtr : Type 0 where
  null : CharPtr
  to : CString → CharPtr

-- A `*mut c_char` result, an isolate or an isolate thread: an address, 0 for null.
abbrev pub Ptr : Type 0
Ptr = ℕ

abbrev pub is_null : Ptr → Bool
is_null p = p == 0

-- What `graal_create_isolate` returns and writes through its two out parameters.
pub record Created : Type 0 where
  pub code : ℤ
  pub isolate : Ptr
  pub thread : Ptr

module _ (W : Type 0) where
  abbrev pub GraalCreateIsolateFn : Type 0
  GraalCreateIsolateFn = W → Created × W

  abbrev pub GraalTearDownIsolateFn : Type 0
  GraalTearDownIsolateFn = Ptr → W → ℤ × W

  abbrev pub ChrondbOpenFn : Type 0
  ChrondbOpenFn = Ptr → CharPtr → CharPtr → W → ℤ × W

  abbrev pub ChrondbCloseFn : Type 0
  ChrondbCloseFn = Ptr → ℤ → W → ℤ × W

  abbrev pub ChrondbPutFn : Type 0
  ChrondbPutFn = Ptr → ℤ → CharPtr → CharPtr → CharPtr → W → Ptr × W

  abbrev pub ChrondbGetFn : Type 0
  ChrondbGetFn = Ptr → ℤ → CharPtr → CharPtr → W → Ptr × W

  abbrev pub ChrondbDeleteFn : Type 0
  ChrondbDeleteFn = Ptr → ℤ → CharPtr → CharPtr → W → ℤ × W

  abbrev pub ChrondbListByPrefixFn : Type 0
  ChrondbListByPrefixFn = Ptr → ℤ → CharPtr → CharPtr → W → Ptr × W

  abbrev pub ChrondbListByTableFn : Type 0
  ChrondbListByTableFn = Ptr → ℤ → CharPtr → CharPtr → W → Ptr × W

  abbrev pub ChrondbHistoryFn : Type 0
  ChrondbHistoryFn = Ptr → ℤ → CharPtr → CharPtr → W → Ptr × W

  abbrev pub ChrondbQueryFn : Type 0
  ChrondbQueryFn = Ptr → ℤ → CharPtr → CharPtr → W → Ptr × W

  abbrev pub ChrondbExecuteSqlFn : Type 0
  ChrondbExecuteSqlFn = Ptr → ℤ → CharPtr → CharPtr → W → Ptr × W

  abbrev pub ChrondbOpenPathFn : Type 0
  ChrondbOpenPathFn = Ptr → CharPtr → W → ℤ × W

  abbrev pub ChrondbFreeStringFn : Type 0
  ChrondbFreeStringFn = Ptr → Ptr → W → W

  abbrev pub ChrondbLastErrorFn : Type 0
  ChrondbLastErrorFn = Ptr → W → Ptr × W

  abbrev pub ChrondbSetupRemoteFn : Type 0
  ChrondbSetupRemoteFn = Ptr → ℤ → CharPtr → W → Ptr × W

  abbrev pub ChrondbPushFn : Type 0
  ChrondbPushFn = Ptr → ℤ → W → Ptr × W

  abbrev pub ChrondbPullFn : Type 0
  ChrondbPullFn = Ptr → ℤ → W → Ptr × W

  abbrev pub ChrondbFetchFn : Type 0
  ChrondbFetchFn = Ptr → ℤ → W → Ptr × W

  abbrev pub ChrondbRemoteStatusFn : Type 0
  ChrondbRemoteStatusFn = Ptr → ℤ → W → Ptr × W

  abbrev pub ChrondbExportFn : Type 0
  ChrondbExportFn = Ptr → ℤ → CharPtr → CharPtr → W → Ptr × W

  abbrev pub ChrondbCreateBackupFn : Type 0
  ChrondbCreateBackupFn = Ptr → ℤ → CharPtr → CharPtr → W → Ptr × W

  abbrev pub ChrondbRestoreBackupFn : Type 0
  ChrondbRestoreBackupFn = Ptr → ℤ → CharPtr → CharPtr → W → Ptr × W

  abbrev pub ChrondbExportSnapshotFn : Type 0
  ChrondbExportSnapshotFn = Ptr → ℤ → CharPtr → CharPtr → W → Ptr × W

  abbrev pub ChrondbImportSnapshotFn : Type 0
  ChrondbImportSnapshotFn = Ptr → ℤ → CharPtr → CharPtr → W → Ptr × W

-- `struct ChronDBLib`: the loaded function pointers.
pub record ChronDbLib (W : Type 0) : Type 0 where
  pub graal_create_isolate : GraalCreateIsolateFn W
  pub graal_tear_down_isolate : GraalTearDownIsolateFn W
  pub chrondb_open : ChrondbOpenFn W
  pub chrondb_close : ChrondbCloseFn W
  pub chrondb_put : ChrondbPutFn W
  pub chrondb_get : ChrondbGetFn W
  pub chrondb_delete : ChrondbDeleteFn W
  pub chrondb_list_by_prefix : ChrondbListByPrefixFn W
  pub chrondb_list_by_table : ChrondbListByTableFn W
  pub chrondb_history : ChrondbHistoryFn W
  pub chrondb_query : ChrondbQueryFn W
  pub chrondb_execute_sql : ChrondbExecuteSqlFn W
  pub chrondb_open_path : ChrondbOpenPathFn W
  pub chrondb_free_string : ChrondbFreeStringFn W
  pub chrondb_last_error : ChrondbLastErrorFn W
  pub chrondb_setup_remote : ChrondbSetupRemoteFn W
  pub chrondb_push : ChrondbPushFn W
  pub chrondb_pull : ChrondbPullFn W
  pub chrondb_fetch : ChrondbFetchFn W
  pub chrondb_remote_status : ChrondbRemoteStatusFn W
  pub chrondb_export : ChrondbExportFn W
  pub chrondb_create_backup : ChrondbCreateBackupFn W
  pub chrondb_restore_backup : ChrondbRestoreBackupFn W
  pub chrondb_export_snapshot : ChrondbExportSnapshotFn W
  pub chrondb_import_snapshot : ChrondbImportSnapshotFn W
