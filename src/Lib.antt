-- ===== src/Lib.antt =====
-- The FTP client of remotefs: a file system over an FTP control connection.
--
-- The program has a blocking client, `FtpFs` (src/client/sync.rs), and an asynchronous twin. Both share
-- the mapping of errors (src/client/error.rs), the wire form of paths (src/client/path.rs), the reading
-- of listings (src/client/list.rs) and the guard of a transfer (src/client/guard.rs). A transfer is
-- handed out as a stream that owns the guard (src/client/sync/stream.rs). The protocol itself is the
-- crate suppaftp, the traits and plain values are those of the crate remotefs.
--
-- What models what:
-- Base: Boolean tests and lists over the native numbers, and Rust's `Result`.
-- Error: src/client/error.rs. A `RemoteError` with every error type that can stand below it; the
--   loops over `source()` are recursions on it.
-- Text: bytes, UTF-8 and the `str` functions that the client calls. FilePath: std::path on POSIX
--   systems, and `absolutize` of src/utils/path.rs.
-- Wire: `remote_path` and `resolve` of src/client/path.rs.
-- Remotefs, Suppaftp: the two crates as interfaces. Suppaftp's world holds the network, the server
--   and every connection; a control stream and a transfer are handles, and a call changes the world.
-- Listing: src/client/list.rs, with the row parsers of suppaftp as an interface.
-- Session: the state of `FtpFs` and the actions on it. The two atomic flags, which the client shares
--   with its streams, stand in the state. An action ends with a value, an error or a fault, which is a
--   panic, a loop that has no fuel left or, of a task, that its future was dropped.
-- Transfer: src/client/sync/stream.rs and src/client/guard.rs. A stream is a value that its operations
--   return anew; its drop is an operation.
-- Client: src/client/sync.rs, in the modules Access (the lock and the flags), Probe (raw listings and
--   the probe of ancestors), Stat (stat, list_dir, exists), Refusal (the classify functions), Commands,
--   Streams (open, create, append), Connection and Life (calls in any order, and the stream that is
--   held, as a step relation). `open` is `open_file`, the setters are `set_...`.
-- Tokio: the asynchronous client, src/client/tokio.rs and src/client/tokio/stream.rs. Runtime is what
--   suppaftp and the runtime do beside Suppaftp, as an interface. Task is the state of `TokioFtpFs` and
--   asynchronous code over it: the state says at which await the future will be dropped and what other
--   tasks do while it waits for the lock. Access (the lock, the cancellation guard, the flags), Probe,
--   Stat, Refusal, Commands, Streams, Connection and Transfer (the streams) follow the source; Twins
--   relates the operations of the two clients, Calm those of a future that nothing disturbs, Sync asks
--   whether the control stream is in step, that is, whether all replies have been read; Sync.Calls has
--   calls in any order, with transfers that are read or written and then finished, as a relation.
-- Fake: a library to run the clients on, Fake.Runtime for the asynchronous one; Tests modules apply the
--   theorems to it.
--
-- A blocking operation holds the mutex while it runs a command, so it is one action here; what other
-- threads do between two commands of one operation is not modelled. An asynchronous operation meets the
-- other tasks where it waits for the lock, and may be dropped at every await; a thread that runs between
-- the release of the lock and the mark of a broken connection is not modelled.
--
-- A function with a loop runs on fuel: the copying loop and `read_to_end` have one more than the reads
-- that the transfer has left, `stat`, which calls itself on the parent, one more than the depth of the
-- path. This is enough where transfers are finite,
-- since every round takes one read, or one step up the path. The probe of ancestors has
-- the eight rounds of the source.
--
-- Named assumptions: IsFinite (a transfer yields finitely many reads), Delivers (a read takes bytes from
-- the front of the content, at most as many as asked for), ChecksAbsolute (the documented check of a
-- path), ReadsAlike (the asynchronous loops of the runtime read what the blocking ones read), IsReliable
-- (a command on one line, without control characters, leaves a control stream in step unless its failure
-- asks for a reconnect), IsPollable (polls leave a transfer open on its control stream), IsGreeting (a
-- control stream is in step once it is greeted, logged in and in binary mode), and PollsAtMost (a poll
-- fills at most the room that it is given).
--
-- The builds with rustls are modelled, where `secure` takes no argument and `setup_tls_connector` always
-- returns a connector. The loops of std's `io::copy` and `read_to_end` are written out as std documents
-- them, since the streams and the listings call them.
--
-- Not modelled: the Windows branches, the builds with native-tls and their options on certificates, the
-- TLS connector itself, `capabilities`, logging, message texts that are formatted from values, and the
-- test support.
pub mod Base
pub mod Error
pub mod Text
pub mod FilePath
pub mod Remotefs
pub mod Wire
pub mod Listing
pub mod Suppaftp
pub mod Session
pub mod Transfer
pub mod Client
pub mod Tokio
pub mod Fake
