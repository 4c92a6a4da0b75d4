-- ===== src/Client/Life.antt =====
-- The life of a client (src/client/sync.rs) and of the one stream that it has handed out
-- (src/client/sync/stream.rs), as a step relation: any operation of the client may be called at any time, and so may those of the
-- stream that is held.
pub mod Held
pub mod Steps
pub mod Kept
use remotefs_rs_ftp.Base.{ℕ, ◌≡◌, Bool, true, false, Option, Result, ok}
use remotefs_rs_ftp.Error.{RemoteError}
use remotefs_rs_ftp.Text.{Bytes}
use remotefs_rs_ftp.FilePath.{FilePath}
use remotefs_rs_ftp.Remotefs.{Remotefs, Metadata}
use remotefs_rs_ftp.Listing.{ListParser}
use remotefs_rs_ftp.Suppaftp.{Suppaftp, IoResult}
use remotefs_rs_ftp.Session.{State, Outcome, done, raised, Action, ◌>>=◌, pure}
use remotefs_rs_ftp.Transfer.{
  ReadStream, WriteStream, read, write, flush, finish_read_stream, drop_read_stream,
  finish_write_stream, drop_write_stream,
}
use remotefs_rs_ftp.Client.Stat.{stat, list_dir, exists}
use remotefs_rs_ftp.Client.Commands.{
  exec, create_dir, remove_file, remove_dir, rename, set_metadata, copy, symlink,
}
use remotefs_rs_ftp.Client.Connection.{connect, disconnect}
use remotefs_rs_ftp.Client.Streams.{ReadOptions, open_file, create, append}

-- The operations that are no transfer.
pub data Request : Type 0 where
  looks lists asks makes removes removes_dir : FilePath → Request
  renames copies links : FilePath → FilePath → Request
  sets : FilePath → Metadata → Request
  executes : Bytes → Request

module _ ⦃E : Suppaftp⦄ where
  -- Who holds the transfer.
  pub data Holder : Type 0 where
    nobody : Holder
    reader : ReadStream → Holder
    writer : WriteStream → Holder

  abbrev pub holds : Holder → Bool
  holds nobody = false
  holds (reader r) = true
  holds (writer w) = true

  abbrev pub forget : {A : Type 0} → Action A → Action (Unit {0})
  forget m = m >>= λ _. pure tt

  module _ ⦃R : Remotefs⦄ ⦃P : ListParser⦄ where
    abbrev pub run : Request → Action (Unit {0})
    run (looks path) = forget (stat path)
    run (lists path) = forget (list_dir path)
    run (asks path) = forget (exists path)
    run (makes path) = create_dir path
    run (removes path) = remove_file path
    run (removes_dir path) = remove_dir path
    run (renames src dest) = rename src dest
    run (copies src dest) = copy src dest
    run (links path target) = symlink path target
    run (sets path metadata) = set_metadata path metadata
    run (executes cmd) = forget (exec cmd)

    -- One call; the client and the holder before and after it.
    pub data Step (s : State E) : Holder → State E → Holder → Type 0 where
      ran : (q : Request) (h : Holder) → Step s h (run q s).1 h
      connects : (h : Holder) → Step s h (connect s).1 h
      disconnects : (h : Holder) → Step s h (disconnect s).1 h
      opened :
          (path : FilePath) (opts : ReadOptions) (h : Holder) (r : ReadStream) (s' : State E)
          → open_file path opts s ≡ (done r, s')
          → Step s h s' (reader r)
      not_opened :
          (path : FilePath) (opts : ReadOptions) (h : Holder) (e : RemoteError) (s' : State E)
          → open_file path opts s ≡ (raised e, s')
          → Step s h s' h
      created :
          (path : FilePath) (h : Holder) (w : WriteStream) (s' : State E)
          → create path s ≡ (done w, s')
          → Step s h s' (writer w)
      not_created :
          (path : FilePath) (h : Holder) (e : RemoteError) (s' : State E)
          → create path s ≡ (raised e, s')
          → Step s h s' h
      appended :
          (path : FilePath) (h : Holder) (w : WriteStream) (s' : State E)
          → append path s ≡ (done w, s')
          → Step s h s' (writer w)
      not_appended :
          (path : FilePath) (h : Holder) (e : RemoteError) (s' : State E)
          → append path s ≡ (raised e, s')
          → Step s h s' h
      did_read :
          (r : ReadStream) (len : ℕ) (x : IoResult Bytes) (r' : ReadStream) (s' : State E)
          → read r len s ≡ (done (x, r'), s')
          → Step s (reader r) s' (reader r')
      did_write :
          (w : WriteStream) (bytes : Bytes) → Step s (writer w) (write w bytes s).1 (writer w)
      did_flush : (w : WriteStream) → Step s (writer w) (flush w s).1 (writer w)
      finished_read : (r : ReadStream) → Step s (reader r) (finish_read_stream r s).1 nobody
      dropped_read : (r : ReadStream) → Step s (reader r) (drop_read_stream r s).1 nobody
      finished_write : (w : WriteStream) → Step s (writer w) (finish_write_stream w s).1 nobody
      dropped_write : (w : WriteStream) → Step s (writer w) (drop_write_stream w s).1 nobody

    -- Any number of calls, one after the other.
    pub data Calls (s : State E) (h : Holder) : State E → Holder → Type 0 where
      not_yet : Calls s h s h
      and_then :
          (s' : State E) (h' : Holder) {s'' : State E} {h'' : Holder}
          → Calls s h s' h'
          → Step s' h' s'' h''
          → Calls s h s'' h''
