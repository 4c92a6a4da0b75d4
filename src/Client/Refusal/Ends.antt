-- ===== src/Client/Refusal/Ends.antt =====
-- How the probes that classify a refused command in src/client/sync.rs end.
use remotefs_rs_ftp.Base.{false}
use remotefs_rs_ftp.Error.{
  FtpError, kind, bad_file, permission_denied, ftp_error, is_file_unavailable, is_creation_refusal,
}
use remotefs_rs_ftp.FilePath.{FilePath, parent}
use remotefs_rs_ftp.Remotefs.{Remotefs, ChecksAbsolute}
use remotefs_rs_ftp.Listing.{ListParser}
use remotefs_rs_ftp.Suppaftp.{Suppaftp, IsFinite}
use remotefs_rs_ftp.Session.{pure}
use remotefs_rs_ftp.Client.Quiet.{
  AlwaysQuiet, pure-Quiet, bind-Quiet, attempt-Quiet, option-Quiet, bool-Quiet, result-Quiet,
}
use remotefs_rs_ftp.Client.Stat.{is_no_such_file}
use remotefs_rs_ftp.Client.Stat.Ends.{stat-Quiet, list_dir-Quiet}
use remotefs_rs_ftp.Client.Refusal.{
  reported_as, is_absent, missing_or_denied, classify_file_refusal, classify_create_refusal,
  classify_remove_dir_refusal, classify_create_dir_refusal, classify_rename_refusal,
}

module _ ⦃E : Suppaftp⦄ ⦃R : Remotefs⦄ ⦃P : ListParser⦄ (finite : IsFinite E)
    (checks : ChecksAbsolute R) where
  missing_or_denied-Quiet :
      (path : FilePath) (error : FtpError) → AlwaysQuiet (missing_or_denied path error)
  unfolding missing_or_denied
  missing_or_denied-Quiet path error =
      bind-Quiet
        (option-Quiet (parent path) {m = pure false} (λ _. pure-Quiet false)
          λ above _.
            bind-Quiet (attempt-Quiet (stat-Quiet finite checks above))
              λ found. pure-Quiet (is_absent found))
        λ missing. pure-Quiet _

  pub classify_file_refusal-Quiet :
      (path : FilePath) (error : FtpError) → AlwaysQuiet (classify_file_refusal path error)
  unfolding classify_file_refusal
  classify_file_refusal-Quiet path error =
      bool-Quiet (is_file_unavailable error) {n = pure (ftp_error error)}
        (λ _.
          bind-Quiet (attempt-Quiet (stat-Quiet finite checks path))
            λ found. result-Quiet found (λ file _. pure-Quiet _) λ probe. pure-Quiet _)
        λ _. pure-Quiet _

  pub classify_create_refusal-Quiet :
      (path : FilePath) (error : FtpError) → AlwaysQuiet (classify_create_refusal path error)
  unfolding classify_create_refusal
  classify_create_refusal-Quiet path error =
      bool-Quiet (is_creation_refusal error) {n = pure (ftp_error error)}
        (λ _. bind-Quiet (attempt-Quiet (stat-Quiet finite checks path)) λ found.
          result-Quiet found (λ file _. pure-Quiet _)
            λ probe.
              bool-Quiet (is_no_such_file (kind probe))
                {n = pure (reported_as permission_denied error)}
                (λ _. missing_or_denied-Quiet path error) (λ _. pure-Quiet _))
        λ _. pure-Quiet _

  pub classify_remove_dir_refusal-Quiet :
      (path : FilePath) (error : FtpError) → AlwaysQuiet (classify_remove_dir_refusal path error)
  unfolding classify_remove_dir_refusal
  classify_remove_dir_refusal-Quiet path error =
      bool-Quiet (is_file_unavailable error) {n = pure (ftp_error error)}
        (λ _. bind-Quiet (attempt-Quiet (stat-Quiet finite checks path)) λ found.
          result-Quiet found
            (λ file _.
              bool-Quiet (R.is_dir file) {n = pure (reported_as bad_file error)}
                (λ _.
                  bind-Quiet (attempt-Quiet (list_dir-Quiet finite checks path))
                    λ listed. pure-Quiet _)
                (λ _. pure-Quiet _))
            λ probe. pure-Quiet _)
        λ _. pure-Quiet _

  pub classify_create_dir_refusal-Quiet :
      (path : FilePath) (error : FtpError) → AlwaysQuiet (classify_create_dir_refusal path error)
  unfolding classify_create_dir_refusal
  classify_create_dir_refusal-Quiet path error =
      bool-Quiet (is_creation_refusal error) {n = pure (ftp_error error)}
        (λ _. bind-Quiet (attempt-Quiet (stat-Quiet finite checks path)) λ found.
          result-Quiet found (λ file _. pure-Quiet _)
            λ probe.
              bool-Quiet (is_no_such_file (kind probe))
                {n = pure (reported_as permission_denied error)}
                (λ _. missing_or_denied-Quiet path error) (λ _. pure-Quiet _))
        λ _. pure-Quiet _

  pub classify_rename_refusal-Quiet :
      (src dest : FilePath) (error : FtpError)
      → AlwaysQuiet (classify_rename_refusal src dest error)
  unfolding classify_rename_refusal
  classify_rename_refusal-Quiet src dest error =
      bool-Quiet (is_creation_refusal error) {n = pure (ftp_error error)}
        (λ _. bind-Quiet (attempt-Quiet (stat-Quiet finite checks src)) λ found.
          result-Quiet found (λ file _. missing_or_denied-Quiet dest error) λ probe. pure-Quiet _)
        λ _. pure-Quiet _
