-- ===== src/Tokio/Commands.antt =====
-- src/client/tokio.rs: the operations that run one control command.
use remotefs_rs_ftp.Base.{true, false, ok, err}
use remotefs_rs_ftp.Error.{Response, new, unsupported_feature, ftp_error, is_creation_refusal}
use remotefs_rs_ftp.Text.{Bytes}
use remotefs_rs_ftp.FilePath.{FilePath}
use remotefs_rs_ftp.Remotefs.{Remotefs, Metadata}
use remotefs_rs_ftp.Wire.{remote_path}
use remotefs_rs_ftp.Listing.{ListParser}
use remotefs_rs_ftp.Suppaftp.{Suppaftp, FtpResult}
use remotefs_rs_ftp.Client.Commands.{ExecOutput, exec_output}
use remotefs_rs_ftp.Tokio.Runtime.{Tokio}
use remotefs_rs_ftp.Tokio.Task.{Task, pure, raise, ◌>>=◌, ◌>>◌, lift, await}
use remotefs_rs_ftp.Tokio.Access.{record_remote_error, with_lock, run_command}
use remotefs_rs_ftp.Tokio.Refusal.{
  classify_create_dir_refusal, classify_file_refusal, classify_remove_dir_refusal,
  classify_rename_refusal,
}

module _ ⦃E : Suppaftp⦄ ⦃T : Tokio E⦄ where
  unfoldable pub exec_reply : FtpResult Response → Task ExecOutput
  unfolding record_remote_error
  exec_reply (ok response) = pure (exec_output response)
  exec_reply (err error) = do record_remote_error (ftp_error error); raise (ftp_error error)

  unfoldable pub exec : Bytes → Task ExecOutput
  unfolding with_lock await exec_reply
  exec cmd = do result ← with_lock (λ stream. await (E.site stream cmd)); exec_reply result

module _ ⦃E : Suppaftp⦄ ⦃T : Tokio E⦄ ⦃R : Remotefs⦄ ⦃P : ListParser⦄ where
  unfoldable pub create_dir_reply : FilePath → FtpResult (Unit {0}) → Task (Unit {0})
  create_dir_reply path result = elim result [
    | ok _ ↦ pure tt
    | err error ↦ elim (is_creation_refusal error) [
      | true ↦ do classified ← classify_create_dir_refusal path error; raise classified
      | false ↦ raise (ftp_error error)
    ]
  ]

  unfoldable pub create_dir : FilePath → Task (Unit {0})
  unfolding run_command create_dir_reply
  create_dir path = do
    remote ← lift (remote_path path)
    result ← run_command (λ stream. E.mkdir stream remote)
    create_dir_reply path result

  unfoldable pub remove_file_reply : FilePath → FtpResult (Unit {0}) → Task (Unit {0})
  remove_file_reply path result = elim result [
    | ok _ ↦ pure tt
    | err error ↦ do classified ← classify_file_refusal path error; raise classified
  ]

  unfoldable pub remove_file : FilePath → Task (Unit {0})
  unfolding run_command remove_file_reply
  remove_file path = do
    remote ← lift (remote_path path)
    result ← run_command (λ stream. E.rm stream remote)
    remove_file_reply path result

  unfoldable pub remove_dir_reply : FilePath → FtpResult (Unit {0}) → Task (Unit {0})
  remove_dir_reply path result = elim result [
    | ok _ ↦ pure tt
    | err error ↦ do classified ← classify_remove_dir_refusal path error; raise classified
  ]

  unfoldable pub remove_dir : FilePath → Task (Unit {0})
  unfolding run_command remove_dir_reply
  remove_dir path = do
    remote ← lift (remote_path path)
    result ← run_command (λ stream. E.rmdir stream remote)
    remove_dir_reply path result

  unfoldable pub rename_reply : FilePath → FilePath → FtpResult (Unit {0}) → Task (Unit {0})
  rename_reply src dest result = elim result [
    | ok _ ↦ pure tt
    | err error ↦ do classified ← classify_rename_refusal src dest error; raise classified
  ]

  unfoldable pub rename : FilePath → FilePath → Task (Unit {0})
  unfolding run_command rename_reply
  rename src dest = do
    remote_src ← lift (remote_path src)
    remote_dest ← lift (remote_path dest)
    result ← run_command (λ stream. E.rename stream remote_src remote_dest)
    rename_reply src dest result

  -- FTP has no such operation; the paths are checked all the same.
  unfoldable pub set_metadata : FilePath → Metadata → Task (Unit {0})
  set_metadata path metadata = do remote ← lift (remote_path path); raise (new unsupported_feature)

  unfoldable pub copy : FilePath → FilePath → Task (Unit {0})
  copy src dest = do
    remote_src ← lift (remote_path src)
    remote_dest ← lift (remote_path dest)
    raise (new unsupported_feature)

  unfoldable pub symlink : FilePath → FilePath → Task (Unit {0})
  symlink path target = do
    remote ← lift (remote_path path)
    remote_target ← lift (remote_path target)
    raise (new unsupported_feature)
