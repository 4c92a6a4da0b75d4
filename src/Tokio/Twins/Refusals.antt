-- ===== src/Tokio/Twins/Refusals.antt =====
-- The classification of refusals in src/client/tokio.rs, beside that in src/client/sync.rs.
use remotefs_rs_ftp.Base.{Bool, false}
use remotefs_rs_ftp.Error.{
  RemoteError, FtpError, kind, ftp_error, is_file_unavailable, is_creation_refusal,
}
use remotefs_rs_ftp.FilePath.{FilePath, parent}
use remotefs_rs_ftp.Remotefs.{Remotefs}
use remotefs_rs_ftp.Listing.{ListParser}
use remotefs_rs_ftp.Suppaftp.{Suppaftp}
use remotefs_rs_ftp.Client.Stat.{is_no_such_file}
use remotefs_rs_ftp.Client.Refusal
use remotefs_rs_ftp.Tokio.Runtime.{Tokio}
use remotefs_rs_ftp.Tokio.Refusal.{
  destination_parent_is_missing, missing_or_denied, classify_file_refusal, classify_create_refusal,
  classify_remove_dir_refusal, classify_create_dir_refusal, classify_rename_refusal,
}
use remotefs_rs_ftp.Tokio.Twins.{
  Relation, IsChained, IsCommanded, chain, tried, on_bool, on_option, on_result,
}
use remotefs_rs_ftp.Tokio.Twins.Lookups.{stat-Twins, list_dir-Twins}

module _ ⦃E : Suppaftp⦄ ⦃T : Tokio E⦄ ⦃R : Remotefs⦄ ⦃P : ListParser⦄ {Q : Relation}
    (chained : IsChained Q) (commanded : IsCommanded Q) where
  missing_or_denied-Twins :
      (path : FilePath) (error : FtpError)
      → Q RemoteError (missing_or_denied path error) (Refusal.missing_or_denied path error)
  unfolding missing_or_denied Refusal.missing_or_denied destination_parent_is_missing
      Refusal.destination_parent_is_missing
  missing_or_denied-Twins path error =
      chain chained
        (on_option Q (parent path) (chained.pure_ Bool false) λ above.
          chain chained (tried chained (stat-Twins chained commanded above))
            λ found. chained.pure_ Bool _)
        λ missing. chained.pure_ RemoteError _

  pub classify_file_refusal-Twins :
      (path : FilePath) (error : FtpError)
      → Q RemoteError (classify_file_refusal path error) (Refusal.classify_file_refusal path error)
  unfolding classify_file_refusal Refusal.classify_file_refusal
  classify_file_refusal-Twins path error =
      on_bool Q (is_file_unavailable error)
        (chain chained (tried chained (stat-Twins chained commanded path)) λ found.
          on_result Q found (λ file. chained.pure_ RemoteError _)
            λ probe. chained.pure_ RemoteError _)
        (chained.pure_ RemoteError (ftp_error error))

  pub classify_create_refusal-Twins :
      (path : FilePath) (error : FtpError)
      → Q RemoteError
          (classify_create_refusal path error)
          (Refusal.classify_create_refusal path error)
  unfolding classify_create_refusal Refusal.classify_create_refusal
  classify_create_refusal-Twins path error =
      on_bool Q (is_creation_refusal error)
        (chain chained (tried chained (stat-Twins chained commanded path)) λ found.
          on_result Q found (λ file. chained.pure_ RemoteError _)
            λ probe.
              on_bool Q (is_no_such_file (kind probe)) (missing_or_denied-Twins path error)
                (chained.pure_ RemoteError _))
        (chained.pure_ RemoteError (ftp_error error))

  pub classify_remove_dir_refusal-Twins :
      (path : FilePath) (error : FtpError)
      → Q RemoteError
          (classify_remove_dir_refusal path error)
          (Refusal.classify_remove_dir_refusal path error)
  unfolding classify_remove_dir_refusal Refusal.classify_remove_dir_refusal
  classify_remove_dir_refusal-Twins path error =
      on_bool Q (is_file_unavailable error)
        (chain chained (tried chained (stat-Twins chained commanded path)) λ found.
          on_result Q found
            (λ file.
              on_bool Q (R.is_dir file)
                (chain chained (tried chained (list_dir-Twins chained commanded path))
                  λ listed. chained.pure_ RemoteError _)
                (chained.pure_ RemoteError _))
            λ probe. chained.pure_ RemoteError _)
        (chained.pure_ RemoteError (ftp_error error))

  pub classify_create_dir_refusal-Twins :
      (path : FilePath) (error : FtpError)
      → Q RemoteError
          (classify_create_dir_refusal path error)
          (Refusal.classify_create_dir_refusal path error)
  unfolding classify_create_dir_refusal Refusal.classify_create_dir_refusal
  classify_create_dir_refusal-Twins path error =
      on_bool Q (is_creation_refusal error)
        (chain chained (tried chained (stat-Twins chained commanded path)) λ found.
          on_result Q found (λ file. chained.pure_ RemoteError _)
            λ probe.
              on_bool Q (is_no_such_file (kind probe)) (missing_or_denied-Twins path error)
                (chained.pure_ RemoteError _))
        (chained.pure_ RemoteError (ftp_error error))

  pub classify_rename_refusal-Twins :
      (src dest : FilePath) (error : FtpError)
      → Q RemoteError
          (classify_rename_refusal src dest error)
          (Refusal.classify_rename_refusal src dest error)
  unfolding classify_rename_refusal Refusal.classify_rename_refusal
  classify_rename_refusal-Twins src dest error =
      on_bool Q (is_creation_refusal error)
        (chain chained (tried chained (stat-Twins chained commanded src)) λ found.
          on_result Q found (λ file. missing_or_denied-Twins dest error)
            λ probe. chained.pure_ RemoteError _)
        (chained.pure_ RemoteError (ftp_error error))
