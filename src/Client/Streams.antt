-- ===== src/Client/Streams.antt =====
-- src/client/sync.rs: opening downloads and uploads.
pub mod Flags
pub mod Starting
pub mod Opening
use remotefs_rs_ftp.Base.{
  ℕ, Bool, true, false, not, ◌&&◌, List, Option, none, some, Result, ok, err, ltb, leb,
  if◌then◌else◌,
}
use remotefs_rs_ftp.Error.{
  Status, FtpError, connection_error, secure_error, invalid_address, unexpected_response,
  bad_response, data_connection_already_open, RemoteError, ftp_error, is_not_available,
}
use remotefs_rs_ftp.Text.{Bytes}
use remotefs_rs_ftp.FilePath.{FilePath}
use remotefs_rs_ftp.Remotefs.{Remotefs, RemoteResult}
use remotefs_rs_ftp.Wire.{remote_path}
use remotefs_rs_ftp.Listing.{ListParser}
use remotefs_rs_ftp.Suppaftp.{Suppaftp, FtpResult, DataReply}
use remotefs_rs_ftp.Session.{
  State, Outcome, Action, ◌>>=◌, ◌>>◌, pure, raise, lift, call, call_data, set_transfer_active,
  mark_connection_unusable,
}
use remotefs_rs_ftp.Transfer.{
  ReadStream, WriteStream, new_read_stream, new_write_stream, skip_prefix, finish_after_skip,
}
use remotefs_rs_ftp.Client.Access.{record_ftp_result, with_stream}
use remotefs_rs_ftp.Client.Refusal.{classify_file_refusal, classify_create_refusal}

pub record ReadOptions : Type 0 where
  pub offset : Option ℕ
  pub length : Option ℕ

abbrev pub offset_or_zero : Option ℕ → ℕ
offset_or_zero none = 0
offset_or_zero (some offset) = offset

-- What the reply to `REST` means: a marker, a refusal that leaves the skip to the client, or an error.
unfoldable pub marker_outcome : FtpResult (Unit {0}) → RemoteResult Bool
marker_outcome (ok _) = ok true
marker_outcome (err (unexpected_response response)) =
    if is_not_available response.status
    then err (ftp_error (unexpected_response response))
    else ok false
marker_outcome (err error) = err (ftp_error error)

module _ ⦃E : Suppaftp⦄ where
  unfoldable pub request_offset : E.Stream → ℕ → Action Bool
  unfolding marker_outcome
  request_offset stream offset = elim (leb offset E.usize_max) [
    | false ↦ pure false
    | true ↦ do result ← call (E.resume_transfer stream offset); lift (marker_outcome result)
  ]

  -- `offset > 0 && Self::request_offset(stream, offset)?`.
  unfoldable pub resume_at : E.Stream → ℕ → Action Bool
  unfolding request_offset
  resume_at stream offset = elim (ltb 0 offset) [
    | false ↦ pure false
    | true ↦ request_offset stream offset
  ]

  -- A refused `RETR` behind a marker: the marker is reset, and `RETR` is tried once more.
  unfoldable pub retry_without_marker :
      E.Stream → Bytes → Bool → FtpResult E.Transfer → Action (FtpResult E.Transfer × Bool)
  retry_without_marker stream remote true (err refused) = do
    reset ← call (E.resume_transfer stream 0)
    elim reset [
      | ok _ ↦ do again ← call_data (E.retr_as_stream stream remote); pure (again, false)
      | err error ↦ do mark_connection_unusable; raise (ftp_error error)
    ]
  retry_without_marker stream remote resumed result = pure (result, resumed)

  -- `start_transfer` raises the flag that the guard of the new stream clears.
  unfoldable pub start_transfer : {A : Type 0} → FtpResult A → Action (FtpResult A)
  start_transfer (ok a) = do set_transfer_active true; pure (ok a)
  start_transfer (err error) = pure (err error)

  abbrev pub with_flag : {A : Type 0} → FtpResult A → Bool → FtpResult (A × Bool)
  with_flag (ok a) resumed = ok (a, resumed)
  with_flag (err error) resumed = err error

  -- `RETR` from an offset, under the lock.
  unfoldable pub retrieve : Bytes → ℕ → E.Stream → Action (FtpResult (E.Transfer × Bool))
  unfolding resume_at retry_without_marker record_ftp_result start_transfer
  retrieve remote offset stream = do
    resumed ← resume_at stream offset
    first ← call_data (E.retr_as_stream stream remote)
    (result, marked) ← retry_without_marker stream remote resumed first
    record_ftp_result result
    started ← start_transfer result
    pure (with_flag started marked)

  -- `STOR` or `APPE`, under the lock.
  unfoldable pub send :
      (E.Stream → Bytes → E.World → DataReply E.Transfer × E.World)
      → Bytes
      → E.Stream
      → Action (FtpResult E.Transfer)
  unfolding record_ftp_result start_transfer
  send command remote stream = do
    result ← call_data (command stream remote)
    record_ftp_result result
    start_transfer result

  module _ ⦃R : Remotefs⦄ where
    -- The local skip, where the server did not take the offset.
    unfoldable pub skip_unless_resumed : ℕ → Bool → ReadStream → Action ReadStream
    unfolding skip_prefix finish_after_skip
    skip_unless_resumed offset resumed reader = elim (ltb 0 offset && not resumed) [
      | false ↦ pure reader
      | true ↦ do
        (skipped, rest) ← skip_prefix reader offset
        elim skipped [
          | ok _ ↦ pure rest
          | err skip ↦ do error ← finish_after_skip rest skip; raise error
        ]
    ]

    module _ ⦃P : ListParser⦄ where
      -- The stream of the transfer that was opened, past its prefix.
      unfoldable pub open_reply :
          FilePath → ℕ → Option ℕ → FtpResult (E.Transfer × Bool) → Action ReadStream
      unfolding skip_unless_resumed
      open_reply path offset length (ok (transfer, resumed)) =
          skip_unless_resumed offset resumed (new_read_stream transfer length)
      open_reply path offset length (err error) = do
        classified ← classify_file_refusal path error
        raise classified

      unfoldable pub open_file : FilePath → ReadOptions → Action ReadStream
      unfolding with_stream retrieve open_reply
      open_file path opts = do
        remote ← lift (remote_path path)
        opened ← with_stream (retrieve remote (offset_or_zero opts.offset))
        open_reply path (offset_or_zero opts.offset) opts.length opened

      unfoldable pub write_reply : FilePath → FtpResult E.Transfer → Action WriteStream
      write_reply path (ok transfer) = pure (new_write_stream transfer)
      write_reply path (err error) = do
        classified ← classify_create_refusal path error
        raise classified

      unfoldable pub open_for_writing :
          (E.Stream → Bytes → E.World → DataReply E.Transfer × E.World)
          → FilePath
          → Action WriteStream
      unfolding with_stream send write_reply
      open_for_writing command path = do
        remote ← lift (remote_path path)
        opened ← with_stream (send command remote)
        write_reply path opened

      unfoldable pub create : FilePath → Action WriteStream
      unfolding open_for_writing
      create = open_for_writing E.put_with_stream

      unfoldable pub append : FilePath → Action WriteStream
      unfolding open_for_writing
      append = open_for_writing E.append_with_stream
