-- ===== src/Tokio/Streams.antt =====
-- src/client/tokio.rs: opening downloads and uploads.
use remotefs_rs_ftp.Base.{ℕ, Bool, true, false, not, ◌&&◌, Option, ok, err, ltb, leb}
use remotefs_rs_ftp.Error.{ftp_error}
use remotefs_rs_ftp.Text.{Bytes}
use remotefs_rs_ftp.FilePath.{FilePath}
use remotefs_rs_ftp.Remotefs.{Remotefs, RemoteResult}
use remotefs_rs_ftp.Wire.{remote_path}
use remotefs_rs_ftp.Listing.{ListParser}
use remotefs_rs_ftp.Suppaftp.{Suppaftp, FtpResult, DataReply}
use remotefs_rs_ftp.Session.{set_transfer_active}
use remotefs_rs_ftp.Transfer.{ReadStream, WriteStream, new_read_stream, new_write_stream}
use remotefs_rs_ftp.Client.Streams.{ReadOptions, offset_or_zero, marker_outcome, with_flag}
use remotefs_rs_ftp.Tokio.Runtime.{Tokio}
use remotefs_rs_ftp.Tokio.Task.{Task, pure, raise, ◌>>=◌, ◌>>◌, lift, sync, await, await_data}
use remotefs_rs_ftp.Tokio.Access.{
  record_remote_error, record_ftp_result, mark_connection_unusable, with_lock,
}
use remotefs_rs_ftp.Tokio.Refusal.{classify_file_refusal, classify_create_refusal}
use remotefs_rs_ftp.Tokio.Transfer.{drop_read_stream, or_drop, skip_prefix, finish_after_skip}

module _ ⦃E : Suppaftp⦄ ⦃T : Tokio E⦄ where
  unfoldable pub request_offset : E.Stream → ℕ → Task (RemoteResult Bool)
  unfolding await marker_outcome
  request_offset stream offset = elim (leb offset E.usize_max) [
    | false ↦ pure (ok false)
    | true ↦ do result ← await (E.resume_transfer stream offset); pure (marker_outcome result)
  ]

  -- `open` before `RETR`: an error is recorded and returned.
  unfoldable pub resume_at : E.Stream → ℕ → Task Bool
  unfolding request_offset record_remote_error
  resume_at stream offset = elim (ltb 0 offset) [
    | false ↦ pure false
    | true ↦ do
      requested ← request_offset stream offset
      elim requested [
        | ok value ↦ pure value
        | err error ↦ do record_remote_error error; raise error
      ]
  ]

  -- A refused `RETR` behind a marker: the marker is reset, and `RETR` is tried once more.
  unfoldable pub retry_without_marker :
      E.Stream → Bytes → Bool → FtpResult E.Transfer → Task (FtpResult E.Transfer × Bool)
  unfolding await await_data mark_connection_unusable
  retry_without_marker stream remote true (err refused) = do
    reset ← await (E.resume_transfer stream 0)
    elim reset [
      | ok _ ↦ do again ← await_data (E.retr_as_stream stream remote); pure (again, false)
      | err error ↦ do mark_connection_unusable; raise (ftp_error error)
    ]
  retry_without_marker stream remote resumed result = pure (result, resumed)

  -- `start_transfer` raises the flag that the guard of the new stream clears.
  unfoldable pub start_transfer : {A : Type 0} → FtpResult A → Task (FtpResult A)
  start_transfer (ok a) = do sync (set_transfer_active true); pure (ok a)
  start_transfer (err error) = pure (err error)

  -- `RETR` from an offset, under the lock.
  unfoldable pub retrieve : Bytes → ℕ → E.Stream → Task (FtpResult (E.Transfer × Bool))
  unfolding resume_at retry_without_marker record_ftp_result start_transfer await_data
  retrieve remote offset stream = do
    resumed ← resume_at stream offset
    first ← await_data (E.retr_as_stream stream remote)
    (result, marked) ← retry_without_marker stream remote resumed first
    record_ftp_result result
    started ← start_transfer result
    pure (with_flag started marked)

  -- `STOR` or `APPE`, under the lock.
  unfoldable pub send :
      (E.Stream → Bytes → E.World → DataReply E.Transfer × E.World)
      → Bytes
      → E.Stream
      → Task (FtpResult E.Transfer)
  unfolding await_data record_ftp_result start_transfer
  send command remote stream = do
    result ← await_data (command stream remote)
    record_ftp_result result
    start_transfer result

  module _ ⦃R : Remotefs⦄ where
    -- The local skip, where the server did not take the offset; the reader is dropped with the future.
    unfoldable pub skip_unless_resumed : ℕ → Bool → ReadStream → Task ReadStream
    unfolding skip_prefix finish_after_skip drop_read_stream
    skip_unless_resumed offset resumed reader = elim (ltb 0 offset && not resumed) [
      | false ↦ pure reader
      | true ↦ do
        (skipped, rest) ← or_drop (drop_read_stream reader) (skip_prefix reader offset)
        elim skipped [
          | ok _ ↦ pure rest
          | err skip ↦ do error ← finish_after_skip rest skip; raise error
        ]
    ]

    module _ ⦃P : ListParser⦄ where
      -- The stream of the transfer that was opened, past its prefix.
      unfoldable pub open_reply :
          FilePath → ℕ → Option ℕ → FtpResult (E.Transfer × Bool) → Task ReadStream
      unfolding skip_unless_resumed
      open_reply path offset length (ok (transfer, resumed)) =
          skip_unless_resumed offset resumed (new_read_stream transfer length)
      open_reply path offset length (err error) = do
        classified ← classify_file_refusal path error
        raise classified

      unfoldable pub open_file : FilePath → ReadOptions → Task ReadStream
      unfolding with_lock retrieve open_reply
      open_file path opts = do
        remote ← lift (remote_path path)
        opened ← with_lock (retrieve remote (offset_or_zero opts.offset))
        open_reply path (offset_or_zero opts.offset) opts.length opened

      unfoldable pub write_reply : FilePath → FtpResult E.Transfer → Task WriteStream
      write_reply path (ok transfer) = pure (new_write_stream transfer)
      write_reply path (err error) = do
        classified ← classify_create_refusal path error
        raise classified

      unfoldable pub open_for_writing :
          (E.Stream → Bytes → E.World → DataReply E.Transfer × E.World)
          → FilePath
          → Task WriteStream
      unfolding with_lock send write_reply
      open_for_writing command path = do
        remote ← lift (remote_path path)
        opened ← with_lock (send command remote)
        write_reply path opened

      unfoldable pub create : FilePath → Task WriteStream
      unfolding open_for_writing
      create = open_for_writing E.put_with_stream

      unfoldable pub append : FilePath → Task WriteStream
      unfolding open_for_writing
      append = open_for_writing E.append_with_stream
