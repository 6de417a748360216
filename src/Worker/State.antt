-- ===== src/Worker/State.antt =====
-- The state of the worker thread, and what its handlers share: C strings, error texts and results.
use chrondb.Base.{
  String, Option, none, some, if◌then◌else◌, Result, ok, err, map_err, Run, act, lift, ◌>>=◌, ◌>>◌,
}
use chrondb.Base.Int.{ℤ, negsuc, is_nonneg}
use chrondb.Base.Text.{nul_position, nul_error}
use chrondb.Error.{ChronDbError, operation_failed, json_error, DbResult}
use chrondb.Platform.{Platform}
use chrondb.Platform.Ffi.{Ptr, CharPtr, null, to, CString, is_null}

-- `struct FfiWorkerState`. Its `lib` is the platform's.
pub record FfiWorkerState : Type 0 where
  pub isolate : Ptr
  pub thread : Ptr
  pub handle : ℤ

-- `CString::new(s)`: a text with a NUL byte is refused.
unfoldable pub c_string : String → Result CString String
unfolding nul_position nul_error
c_string s = elim (nul_position s) [ none ↦ ok (record { text = s }) | some i ↦ err (nul_error i) ]

-- `FfiWorkerState::optional_cstring`
unfoldable pub optional_cstring : Option String → DbResult (Option CString)
unfolding c_string
optional_cstring none = ok none
optional_cstring (some v) = elim (c_string v) [
  | ok c ↦ ok (some c)
  | err e ↦ err (operation_failed e)
]

-- `FfiWorkerState::ptr_or_null`
abbrev pub ptr_or_null : Option CString → CharPtr
ptr_or_null (some cs) = to cs
ptr_or_null none = null

module _ (p : Platform) where
  open p use {World, native, read_string, Value, from_str}

  -- `FfiWorkerState::get_last_error`
  unfoldable pub get_last_error : FfiWorkerState → World → Option String × World
  get_last_error st w =
      let (ptr, w1) = native.chrondb_last_error st.thread w in
      if is_null ptr
      then (none, w1)
      else let (s, w2) = read_string ptr w1 in (some s, native.chrondb_free_string st.thread ptr w2)

  abbrev unwrap_or : Option String → String → String
  unwrap_or none d = d
  unwrap_or (some s) d = s

  -- `FfiWorkerState::last_error_or`
  unfoldable pub last_error_or : FfiWorkerState → String → World → ChronDbError × World
  unfolding get_last_error
  last_error_or st default w =
      let (msg, w1) = get_last_error st w in (operation_failed (unwrap_or msg default), w1)

  -- `return Err(self.last_error_or(default))`
  unfoldable pub fail_with_last_error :
      {A : Type 0} → FfiWorkerState → String → Run World A ChronDbError
  unfolding last_error_or
  fail_with_last_error st default w = let (e, w1) = last_error_or st default w in (err e, w1)

  -- `FfiWorkerState::parse_string_result`
  unfoldable pub parse_string_result : FfiWorkerState → Ptr → Run World Value ChronDbError
  unfolding fail_with_last_error
  parse_string_result st ptr = if is_null ptr then fail_with_last_error st "null result" else do
    s ← act (read_string ptr)
    act (λ w. (tt, native.chrondb_free_string st.thread ptr w))
    lift (map_err json_error (from_str s))

  close_handle : FfiWorkerState → World → FfiWorkerState × World
  close_handle st w =
      if is_nonneg st.handle
      then (record st { handle = negsuc 0 }, (native.chrondb_close st.thread st.handle w).1)
      else (st, w)

  -- `FfiWorkerState::close`
  unfoldable pub close : FfiWorkerState → World → FfiWorkerState × World
  unfolding close_handle
  close st w =
      let (st1, w1) = close_handle st w in
      if is_null st1.thread then (st1, w1) else (
        record st1 { thread = 0; isolate = 0 },
        (native.graal_tear_down_isolate st1.thread w1).1,
      )
