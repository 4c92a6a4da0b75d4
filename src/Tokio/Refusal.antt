-- ===== src/Tokio/Refusal.antt =====
-- src/client/tokio.rs: what a refused command is reported as, after probing.
--
-- Each `classify_…` returns an error; here it is the value of a task that does not raise.
use remotefs_rs_ftp.Base.{Bool, true, false, none, some, ok, err, if◌then◌else◌}
use remotefs_rs_ftp.Error.{
  FtpError, RemoteError, kind, bad_file, already_exists, permission_denied,
  no_such_file_or_directory, directory_not_empty, ftp_error, is_file_unavailable,
  is_creation_refusal,
}
use remotefs_rs_ftp.FilePath.{FilePath, parent}
use remotefs_rs_ftp.Remotefs.{Remotefs}
use remotefs_rs_ftp.Listing.{ListParser}
use remotefs_rs_ftp.Suppaftp.{Suppaftp}
use remotefs_rs_ftp.Client.Stat.{is_no_such_file}
use remotefs_rs_ftp.Client.Refusal.{reported_as, is_absent, has_entries}
use remotefs_rs_ftp.Tokio.Runtime.{Tokio}
use remotefs_rs_ftp.Tokio.Task.{Task, pure, ◌>>=◌, attempt}
use remotefs_rs_ftp.Tokio.Stat.{stat, list_dir}

module _ ⦃E : Suppaftp⦄ ⦃T : Tokio E⦄ ⦃R : Remotefs⦄ ⦃P : ListParser⦄ where
  unfoldable pub destination_parent_is_missing : FilePath → Task Bool
  unfolding is_absent
  destination_parent_is_missing path = elim (parent path) [
    | none ↦ pure false
    | some above ↦ do found ← attempt (stat above); pure (is_absent found)
  ]

  -- `Err(error) if absent && self.destination_parent_is_missing(path)`, and the last arm.
  unfoldable pub missing_or_denied : FilePath → FtpError → Task RemoteError
  unfolding destination_parent_is_missing
  missing_or_denied path error = do
    missing ← destination_parent_is_missing path
    pure (reported_as (if missing then no_such_file_or_directory else permission_denied) error)

  unfoldable pub classify_file_refusal : FilePath → FtpError → Task RemoteError
  unfolding is_absent
  classify_file_refusal path error = elim (is_file_unavailable error) [
    | false ↦ pure (ftp_error error)
    | true ↦ do
      found ← attempt (stat path)
      elim found [
        | ok file ↦ pure (if R.is_dir file then reported_as bad_file error else ftp_error error)
        | err probe ↦ pure (
            if is_no_such_file (kind probe)
            then reported_as no_such_file_or_directory error
            else ftp_error error)
      ]
  ]

  unfoldable pub classify_create_refusal : FilePath → FtpError → Task RemoteError
  unfolding missing_or_denied
  classify_create_refusal path error = elim (is_creation_refusal error) [
    | false ↦ pure (ftp_error error)
    | true ↦ do
      found ← attempt (stat path)
      elim found [
        | ok file ↦
            pure (reported_as (if R.is_dir file then already_exists else permission_denied) error)
        | err probe ↦ elim (is_no_such_file (kind probe)) [
          | true ↦ missing_or_denied path error
          | false ↦ pure (reported_as permission_denied error)
        ]
      ]
  ]

  unfoldable pub classify_remove_dir_refusal : FilePath → FtpError → Task RemoteError
  unfolding has_entries
  classify_remove_dir_refusal path error = elim (is_file_unavailable error) [
    | false ↦ pure (ftp_error error)
    | true ↦ do
      found ← attempt (stat path)
      elim found [
        | ok file ↦ elim (R.is_dir file) [
          | false ↦ pure (reported_as bad_file error)
          | true ↦ do
            listed ← attempt (list_dir path)
            pure (
                reported_as (if has_entries listed then directory_not_empty else permission_denied)
                  error)
        ]
        | err probe ↦ pure (
            reported_as
              (if is_no_such_file (kind probe)
                then no_such_file_or_directory
                else permission_denied)
              error)
      ]
  ]

  unfoldable pub classify_create_dir_refusal : FilePath → FtpError → Task RemoteError
  unfolding missing_or_denied
  classify_create_dir_refusal path error = elim (is_creation_refusal error) [
    | false ↦ pure (ftp_error error)
    | true ↦ do
      found ← attempt (stat path)
      elim found [
        | ok file ↦ pure (reported_as already_exists error)
        | err probe ↦ elim (is_no_such_file (kind probe)) [
          | true ↦ missing_or_denied path error
          | false ↦ pure (reported_as permission_denied error)
        ]
      ]
  ]

  unfoldable pub classify_rename_refusal : FilePath → FilePath → FtpError → Task RemoteError
  unfolding missing_or_denied
  classify_rename_refusal src dest error = elim (is_creation_refusal error) [
    | false ↦ pure (ftp_error error)
    | true ↦ do
      found ← attempt (stat src)
      elim found [
        | err probe ↦ pure (
            reported_as
              (if is_no_such_file (kind probe)
                then no_such_file_or_directory
                else permission_denied)
              error)
        | ok file ↦ missing_or_denied dest error
      ]
  ]
