-- ===== src/Lib.antt =====
-- The Rust bindings of ChronDB: the crate in bindings/rust, which runs the native library in a thread
-- of its own and shares that thread between the handles of a database.
--
-- A handle (`ChronDB` of bindings/rust/src/lib.rs) holds a worker that is shared through a registry
-- with the other handles of the same paths. Its methods send commands over a channel, each with a
-- reply channel, and wait for the reply. The worker thread owns the GraalVM isolate and the database's
-- handle: it finds and loads the library (setup.rs, ffi.rs), opens the database, serves commands in
-- one of two loops, one of which closes the isolate after a time without commands and opens it again
-- for the next one, and closes the database when it ends.
--
-- Files, with the code that each is about (paths below bindings/rust/src):
--   Base: helpers. Base/Fallible is `Result` and the `?` chains, as a monad over a state; Base/Text is
--     paths, decimal numbers and the search for a NUL byte, Base/Paths the components by which a
--     `PathBuf` is compared, on Unix; Base/Int is ℤ for `i32` handles and codes.
--   Error: error.rs. Error/Texts is a reader of the errors' texts.
--   Platform: what the crate calls and does not implement, as a parameter: the system's calls, the
--     reading of a C string, serde_json, and the functions behind the symbols (Platform/Ffi, for the
--     types of ffi.rs). `World` is the state behind all of them.
--   Setup (setup.rs): Setup/Target the names by platform, Setup/Archive `flatten_extracted_archive`,
--     Setup/Install `library_exists`, `download_library`, `ensure_library_installed`.
--     Setup/Copies and Setup/Releases are about what the flattening leaves.
--   Loader (ffi.rs): `find_library_path`, `ChronDBLib::load`, `get_library`. Loader/Once is what a
--     success of the setup leaves, and second calls.
--   Command (lib.rs): `FfiCommand` and what is sent over reply channels.
--   Worker (lib.rs): Worker/State `FfiWorkerState`, Worker/Handlers `handle_put` to
--     `handle_import_snapshot`, Worker/Dispatch `dispatch_command` and `reply_error`, Worker/Init
--     `init_worker`, Worker/Loop `run_worker_loop`, Worker/Idle `run_worker_loop_with_idle`,
--     Worker/Thread the closure of `create_new_worker`. About them: Worker/Replies who is
--     answered, Worker/Callers with what, where several callers share the queue, Worker/Ends the end
--     of the thread, Worker/Refusals the texts that cannot be passed, Worker/Traffic the attempts to
--     reopen, Worker/LastError the last error behind a closing, Worker/Backoff the waits,
--     Worker/Timing and Worker/Quiet the suspension, Worker/Monitor the use of native resources,
--     by an observer that stands between the crate and the library, and Worker/Durable the closing
--     and reopening over a library that keeps the contents, also where a reopening may fail. The
--     last error is a static of the isolate (ChronDBLib.java), so it is not among what is kept.
--   Registry (lib.rs): `WORKER_REGISTRY`, `open`, `open_with_options`, `open_path`, the builder,
--     `create_new_worker` and `SharedWorker::drop`; Registry/Steps the blocks of an open.
--     Registry/Unique and Registry/Sharing are about calls one at a time, Registry/Races about two
--     threads, block by block, and Registry/Interleaved about any number of them.
--   Client (lib.rs): the methods of `ChronDB`, over a link that stands for the sender and the thread at
--     the other end. Client/Served, Client/Links and Client/IdleLink are about what they return,
--     Client/Simulation about two such links that answer alike, and Client/Documents about the table of
--     documents that a handle is for: Documents/Plain and Documents/Idle where one handle uses it,
--     with either loop, and Documents/Queue where several do. What the library makes of a document
--     that is put (`lib-put` in src/chrondb/lib/core.clj gives it its id, prints it again, and refuses what
--     is no JSON object) is a parameter of the table.
--   System (lib.rs): the process, in which handles are opened and dropped, commands are sent and threads
--     take their turns in any order; System/Threads is what a thread does and System/Reach the steps.
--     System/Sound is the invariant, with System/Queues on channels; System/Delivery, System/Drain and
--     System/Replied are about the commands and replies, System/Loops and System/Trace about the
--     turns of a thread and its loop, System/Table about the documents that the handles share,
--     System/Overlap about an open in the midst of a drop, and System/Exclusive about a process where
--     there is none.
--   Wrappers: bindings/uniffi/src/lib.rs in Wrappers/Uniffi and bindings/node/src/lib.rs in Wrappers/Node;
--     Wrappers/Agreement compares the two.
--   Build: bindings/rust/build.rs. Build/Runtime compares it with Setup, and Build/Outcomes says what
--     its ends mean.
--   Tests: runs on a small platform, and the theorems at concrete inputs.
--
-- State is passed explicitly. A loop over a channel is a recursion over the list of what the channel
-- delivers, at the end of which it is disconnected, so no fuel is needed: the plain loop gets commands,
-- and the idle loop gets the returns of `recv_timeout`, each with the clock's reading. Times are
-- nanoseconds without a bound; `reopen_failures` wraps at 2 ^ 32, as in a release build. A channel is a
-- number, a worker is a number, and its strong count is a number without a bound. An `i32` that the
-- library returns is an integer, of which only the sign or the value is tested. In System a command is
-- served, and a worker initialized, in one step, and what two workers do in the library at once is taken
-- one after the other.
--
-- Not modelled: log output, stack sizes, the poisoning of locks, memory behind a C string that the
-- crate passes (it lives as long as the call), the GraalVM parameter struct, which is never built, and
-- the join of the dropped worker's thread. The native library itself, in Clojure and Java, is a
-- parameter, and so is what generates the wrappers' glue for their languages.
pub mod Base
pub mod Error
pub mod Platform
pub mod Setup
pub mod Loader
pub mod Command
pub mod Worker
pub mod Registry
pub mod Client
pub mod System
pub mod Wrappers
pub mod Build
pub mod Tests
