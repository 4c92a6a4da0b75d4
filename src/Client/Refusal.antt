-- ===== src/Client/Refusal.antt =====
-- src/client/sync.rs: what a refused command is reported as, after probing.
--
-- Each `classify_…` returns an error; here it is the value of an action that does not raise.
pub mod Ends
pub mod Evidence
mod Tests
use remotefs_rs_ftp.Base.{
  Bool, true, false, not, ◌&&◌, List, [], ◌∷◌, Option, none, some, Result, ok, err, if◌then◌else◌,
}
use remotefs_rs_ftp.Error.{
  FtpError, RemoteError, RemoteErrorType, with_source, ftp, kind, bad_file, already_exists,
  permission_denied, no_such_file_or_directory, directory_not_empty, ftp_error, is_file_unavailable,
  is_creation_refusal,
}
use remotefs_rs_ftp.FilePath.{FilePath, parent}
use remotefs_rs_ftp.Remotefs.{Remotefs, RemoteResult, File}
use remotefs_rs_ftp.Listing.{ListParser}
use remotefs_rs_ftp.Suppaftp.{Suppaftp}
use remotefs_rs_ftp.Session.{State, Outcome, Action, ◌>>=◌, ◌>>◌, pure, attempt}
use remotefs_rs_ftp.Client.Stat.{is_no_such_file, stat, list_dir, is_nil}

-- `RemoteError::with_source(kind, err)` of an FTP failure.
abbrev pub reported_as : RemoteErrorType → FtpError → RemoteError
reported_as k error = with_source k (ftp error)

-- The probe found no such path.
unfoldable pub is_absent : {A : Type 0} → RemoteResult A → Bool
unfolding is_no_such_file
is_absent (ok a) = false
is_absent (err probe) = is_no_such_file (kind probe)

module _ ⦃E : Suppaftp⦄ ⦃R : Remotefs⦄ ⦃P : ListParser⦄ where
  unfoldable pub destination_parent_is_missing : FilePath → Action Bool
  unfolding is_absent
  destination_parent_is_missing path = elim (parent path) [
    | none ↦ pure false
    | some above ↦ do found ← attempt (stat above); pure (is_absent found)
  ]

  -- `Err(error) if absent && self.destination_parent_is_missing(path)`, and the last arm.
  unfoldable pub missing_or_denied : FilePath → FtpError → Action RemoteError
  unfolding destination_parent_is_missing
  missing_or_denied path error = do
    missing ← destination_parent_is_missing path
    pure (reported_as (if missing then no_such_file_or_directory else permission_denied) error)

  unfoldable pub classify_file_refusal : FilePath → FtpError → Action RemoteError
  unfolding is_absent
  classify_file_refusal path error = elim (is_file_unavailable error) [
    | false ↦ pure (ftp_error error)
    | true ↦ do
      found ← attempt (stat path)
      elim found [
        | ok file ↦ pure (if R.is_dir file then reported_as bad_file error else ftp_error error)
        | err probe ↦ pure (
            if is_no_such_file (kind probe)
            then reported_as no_such_file_or_directory error
            else ftp_error error)
      ]
  ]

  unfoldable pub classify_create_refusal : FilePath → FtpError → Action RemoteError
  unfolding missing_or_denied
  classify_create_refusal path error = elim (is_creation_refusal error) [
    | false ↦ pure (ftp_error error)
    | true ↦ do
      found ← attempt (stat path)
      elim found [
        | ok file ↦
            pure (reported_as (if R.is_dir file then already_exists else permission_denied) error)
        | err probe ↦ elim (is_no_such_file (kind probe)) [
          | true ↦ missing_or_denied path error
          | false ↦ pure (reported_as permission_denied error)
        ]
      ]
  ]

  unfoldable pub has_entries : RemoteResult (List File) → Bool
  has_entries (ok entries) = not (is_nil entries)
  has_entries (err error) = false

  unfoldable pub classify_remove_dir_refusal : FilePath → FtpError → Action RemoteError
  unfolding has_entries
  classify_remove_dir_refusal path error = elim (is_file_unavailable error) [
    | false ↦ pure (ftp_error error)
    | true ↦ do
      found ← attempt (stat path)
      elim found [
        | ok file ↦ elim (R.is_dir file) [
          | false ↦ pure (reported_as bad_file error)
          | true ↦ do
            listed ← attempt (list_dir path)
            pure (
                reported_as (if has_entries listed then directory_not_empty else permission_denied)
                  error)
        ]
        | err probe ↦ pure (
            reported_as
              (if is_no_such_file (kind probe)
                then no_such_file_or_directory
                else permission_denied)
              error)
      ]
  ]

  unfoldable pub classify_create_dir_refusal : FilePath → FtpError → Action RemoteError
  unfolding missing_or_denied
  classify_create_dir_refusal path error = elim (is_creation_refusal error) [
    | false ↦ pure (ftp_error error)
    | true ↦ do
      found ← attempt (stat path)
      elim found [
        | ok file ↦ pure (reported_as already_exists error)
        | err probe ↦ elim (is_no_such_file (kind probe)) [
          | true ↦ missing_or_denied path error
          | false ↦ pure (reported_as permission_denied error)
        ]
      ]
  ]

  unfoldable pub classify_rename_refusal : FilePath → FilePath → FtpError → Action RemoteError
  unfolding missing_or_denied
  classify_rename_refusal src dest error = elim (is_creation_refusal error) [
    | false ↦ pure (ftp_error error)
    | true ↦ do
      found ← attempt (stat src)
      elim found [
        | err probe ↦ pure (
            reported_as
              (if is_no_such_file (kind probe)
                then no_such_file_or_directory
                else permission_denied)
              error)
        | ok file ↦ missing_or_denied dest error
      ]
  ]
