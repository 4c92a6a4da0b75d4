-- ===== src/Tokio/Sync/Calls.antt =====
-- Calls of a client of src/client/tokio.rs, one after the other, each under a schedule of its own, with
-- transfers that are read or written and then finished.
use remotefs_rs_ftp.Base.{List, ℕ, Option, none}
use remotefs_rs_ftp.FilePath.{FilePath}
use remotefs_rs_ftp.Remotefs.{Remotefs}
use remotefs_rs_ftp.Listing.{ListParser}
use remotefs_rs_ftp.Wire.Safety.{IsOneLine}
use remotefs_rs_ftp.Suppaftp.{Suppaftp}
use remotefs_rs_ftp.Session.{State, Outcome, done, raised, fault}
use remotefs_rs_ftp.Transfer.{ReadStream, WriteStream}
use remotefs_rs_ftp.Client.Streams.{ReadOptions}
use remotefs_rs_ftp.Client.Life.{
  Request, looks, lists, asks, makes, removes, removes_dir, renames, copies, links, sets, executes,
}
use remotefs_rs_ftp.Tokio.Runtime.{Tokio}
use remotefs_rs_ftp.Tokio.Task.{TokioState}
use remotefs_rs_ftp.Tokio.Stat.{stat, list_dir, exists}
use remotefs_rs_ftp.Tokio.Commands.{
  exec, create_dir, remove_file, remove_dir, rename, set_metadata, copy, symlink,
}
use remotefs_rs_ftp.Tokio.Streams.{open_file, create, append}
use remotefs_rs_ftp.Tokio.Connection.{connect, disconnect}
use remotefs_rs_ftp.Tokio.Transfer.{finish_read_stream, finish_write_stream}
use remotefs_rs_ftp.Tokio.Sync.{IsFair}
use remotefs_rs_ftp.Text.{Bytes}
use remotefs_rs_ftp.Tokio.Transfer.Budget.{poll_series}
use remotefs_rs_ftp.Tokio.Sync.Held.{write_series}

module _ ⦃E : Suppaftp⦄ ⦃T : Tokio E⦄ ⦃R : Remotefs⦄ ⦃P : ListParser⦄ where
  -- What is left of the client.
  abbrev pub call : Request → TokioState E → TokioState E
  call (looks path) s = (stat path s).1
  call (lists path) s = (list_dir path s).1
  call (asks path) s = (exists path s).1
  call (makes path) s = (create_dir path s).1
  call (removes path) s = (remove_file path s).1
  call (removes_dir path) s = (remove_dir path s).1
  call (renames src dest) s = (rename src dest s).1
  call (copies src dest) s = (copy src dest s).1
  call (links path target) s = (symlink path target s).1
  call (sets path metadata) s = (set_metadata path metadata s).1
  call (executes cmd) s = (exec cmd s).1

  -- The text that `exec` sends is not checked by the client.
  abbrev pub IsSendable : Request → Type 0
  IsSendable (executes cmd) = IsOneLine cmd
  IsSendable q = Unit

  abbrev pub undisturbed : TokioState E → TokioState E
  undisturbed s = record s { patience = none }

  -- The stream that was handed out is read, with buffers of the lengths given, and then finished, by a
  -- future that is not dropped.
  abbrev pub finish_polled : Outcome (Bytes × ReadStream) × State E → TokioState E → TokioState E
  finish_polled (done (bytes, r), b) s =
      (finish_read_stream r (undisturbed (record s { base = b }))).1
  finish_polled (raised e, b) s = record s { base = b }
  finish_polled (fault x, b) s = record s { base = b }

  abbrev pub finish_opened : List ℕ → Outcome ReadStream × TokioState E → TokioState E
  finish_opened lens (done r, s) = finish_polled (poll_series lens r s.base) s
  finish_opened lens (raised e, s) = s
  finish_opened lens (fault x, s) = s

  -- Likewise the chunks given are written to a stream.
  abbrev pub finish_sent : List Bytes → Outcome WriteStream × TokioState E → TokioState E
  finish_sent chunks (done w, s) =
      (finish_write_stream w (undisturbed (record s { base = write_series w chunks s.base }))).1
  finish_sent chunks (raised e, s) = s
  finish_sent chunks (fault x, s) = s

  abbrev pub from_start : Option ℕ → ReadOptions
  from_start length = record { offset = none; length = length }

  module _ (InStep : E.Stream → E.World → Type 0) where
    -- Calls that may be dropped at any await, among other tasks that are fair; a stream that is handed
    -- out is read or written, and finished.
    pub data Calls (s : TokioState E) : TokioState E → Type 0 where
      not_yet : Calls s s
      scheduled :
          (p : Option ℕ) (fs : List (State E → State E)) (s' : TokioState E)
          → IsFair InStep fs
          → Calls s s'
          → Calls s (record s' { patience = p; others = fs })
      called : (q : Request) (s' : TokioState E) → IsSendable q → Calls s s' → Calls s (call q s')
      connects : (s' : TokioState E) → Calls s s' → Calls s (connect s').1
      disconnects : (s' : TokioState E) → Calls s s' → Calls s (disconnect s').1
      downloads :
          (path : FilePath) (length : Option ℕ) (lens : List ℕ) (s' : TokioState E)
          → Calls s s'
          → Calls s (finish_opened lens (open_file path (from_start length) s'))
      uploads :
          (path : FilePath) (chunks : List Bytes) (s' : TokioState E)
          → Calls s s'
          → Calls s (finish_sent chunks (create path s'))
      extends :
          (path : FilePath) (chunks : List Bytes) (s' : TokioState E)
          → Calls s s'
          → Calls s (finish_sent chunks (append path s'))
