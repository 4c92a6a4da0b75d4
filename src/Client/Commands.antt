-- ===== src/Client/Commands.antt =====
-- src/client/sync.rs: the operations that run one control command.
pub mod Ends
pub mod Refused
use remotefs_rs_ftp.Base.{
  ℕ, Bool, true, false, List, [], ◌∷◌, Option, none, some, Result, ok, err, if◌then◌else◌,
}
use remotefs_rs_ftp.Error.{
  Status, Response, FtpError, RemoteError, new, unsupported_feature, ftp_error, is_creation_refusal,
}
use remotefs_rs_ftp.Text.{Bytes}
use remotefs_rs_ftp.FilePath.{FilePath}
use remotefs_rs_ftp.Remotefs.{Remotefs, RemoteResult, Metadata}
use remotefs_rs_ftp.Wire.{remote_path}
use remotefs_rs_ftp.Listing.{ListParser}
use remotefs_rs_ftp.Suppaftp.{Suppaftp, FtpResult}
use remotefs_rs_ftp.Session.{State, Outcome, Action, ◌>>=◌, ◌>>◌, pure, raise, lift, call}
use remotefs_rs_ftp.Client.Access.{record_ftp_result, record_ftp_error, with_stream}
use remotefs_rs_ftp.Client.Refusal.{
  classify_create_dir_refusal, classify_file_refusal, classify_remove_dir_refusal,
  classify_rename_refusal,
}

-- `exec` returns the status code and the body of the reply.
pub record ExecOutput : Type 0 where
  pub status : Status
  pub output : ℕ

abbrev pub exec_output : Response → ExecOutput
exec_output response = record { status = response.status; output = response.body }

module _ ⦃E : Suppaftp⦄ where
  -- One command on the control stream; its failure is recorded, and is a value.
  unfoldable pub run_command :
      {A : Type 0} → (E.Stream → E.World → FtpResult A × E.World) → Action (FtpResult A)
  unfolding with_stream record_ftp_result
  run_command command =
      with_stream
        (λ stream. do result ← call (command stream); record_ftp_result result; pure result)

  unfoldable pub exec : Bytes → Action ExecOutput
  unfolding with_stream
  exec cmd = do
    response ← with_stream (λ stream. do
      result ← call (E.site stream cmd)
      elim result [ ok response ↦ pure response | err error ↦ raise (ftp_error error) ])
    pure (exec_output response)

module _ ⦃E : Suppaftp⦄ ⦃R : Remotefs⦄ ⦃P : ListParser⦄ where
  unfoldable pub create_dir_reply : FilePath → FtpResult (Unit {0}) → Action (Unit {0})
  create_dir_reply path result = elim result [
    | ok _ ↦ pure tt
    | err error ↦ elim (is_creation_refusal error) [
      | true ↦ do classified ← classify_create_dir_refusal path error; raise classified
      | false ↦ raise (ftp_error error)
    ]
  ]

  unfoldable pub create_dir : FilePath → Action (Unit {0})
  unfolding run_command create_dir_reply
  create_dir path = do
    remote ← lift (remote_path path)
    result ← run_command (λ stream. E.mkdir stream remote)
    create_dir_reply path result

  unfoldable pub remove_file_reply : FilePath → FtpResult (Unit {0}) → Action (Unit {0})
  remove_file_reply path result = elim result [
    | ok _ ↦ pure tt
    | err error ↦ do classified ← classify_file_refusal path error; raise classified
  ]

  unfoldable pub remove_file : FilePath → Action (Unit {0})
  unfolding run_command remove_file_reply
  remove_file path = do
    remote ← lift (remote_path path)
    result ← run_command (λ stream. E.rm stream remote)
    remove_file_reply path result

  unfoldable pub remove_dir_reply : FilePath → FtpResult (Unit {0}) → Action (Unit {0})
  unfolding record_ftp_error
  remove_dir_reply path result = elim result [
    | ok _ ↦ pure tt
    | err error ↦ do
      record_ftp_error error
      classified ← classify_remove_dir_refusal path error
      raise classified
  ]

  unfoldable pub remove_dir : FilePath → Action (Unit {0})
  unfolding run_command remove_dir_reply
  remove_dir path = do
    remote ← lift (remote_path path)
    result ← run_command (λ stream. E.rmdir stream remote)
    remove_dir_reply path result

  unfoldable pub rename_reply : FilePath → FilePath → FtpResult (Unit {0}) → Action (Unit {0})
  rename_reply src dest result = elim result [
    | ok _ ↦ pure tt
    | err error ↦ do classified ← classify_rename_refusal src dest error; raise classified
  ]

  unfoldable pub rename : FilePath → FilePath → Action (Unit {0})
  unfolding run_command rename_reply
  rename src dest = do
    remote_src ← lift (remote_path src)
    remote_dest ← lift (remote_path dest)
    result ← run_command (λ stream. E.rename stream remote_src remote_dest)
    rename_reply src dest result

  -- FTP has no such operation; the paths are checked all the same.
  unfoldable pub set_metadata : FilePath → Metadata → Action (Unit {0})
  set_metadata path metadata = do remote ← lift (remote_path path); raise (new unsupported_feature)

  unfoldable pub copy : FilePath → FilePath → Action (Unit {0})
  copy src dest = do
    remote_src ← lift (remote_path src)
    remote_dest ← lift (remote_path dest)
    raise (new unsupported_feature)

  unfoldable pub symlink : FilePath → FilePath → Action (Unit {0})
  symlink path target = do
    remote ← lift (remote_path path)
    remote_target ← lift (remote_path target)
    raise (new unsupported_feature)
