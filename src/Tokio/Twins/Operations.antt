-- ===== src/Tokio/Twins/Operations.antt =====
-- The operations of src/client/tokio.rs, beside those of src/client/sync.rs.
use remotefs_rs_ftp.Base.{◌≡◌, refl, subst, ok, err}
use remotefs_rs_ftp.Error.{new, ftp_error, unsupported_feature, is_creation_refusal}
use remotefs_rs_ftp.FilePath.{FilePath}
use remotefs_rs_ftp.Remotefs.{Remotefs, Metadata}
use remotefs_rs_ftp.Wire.{remote_path}
use remotefs_rs_ftp.Listing.{ListParser}
use remotefs_rs_ftp.Suppaftp.{Suppaftp, FtpResult}
use remotefs_rs_ftp.Session
use remotefs_rs_ftp.Session.{Action}
use remotefs_rs_ftp.Client.Access
use remotefs_rs_ftp.Client.Refusal
use remotefs_rs_ftp.Client.Commands
use remotefs_rs_ftp.Tokio.Runtime.{Tokio}
use remotefs_rs_ftp.Tokio.Task
use remotefs_rs_ftp.Tokio.Access.{run_command}
use remotefs_rs_ftp.Tokio.Commands.{
  create_dir_reply, create_dir, remove_file_reply, remove_file, remove_dir_reply, remove_dir,
  rename_reply, rename, set_metadata, copy, symlink,
}
use remotefs_rs_ftp.Tokio.Twins.{
  Relation, IsChained, IsCommanded, chain, sent, lifted, on_bool, on_result,
}
use remotefs_rs_ftp.Tokio.Twins.Refusals.{
  classify_file_refusal-Twins, classify_remove_dir_refusal-Twins, classify_create_dir_refusal-Twins,
  classify_rename_refusal-Twins,
}

module _ ⦃E : Suppaftp⦄ ⦃R : Remotefs⦄ ⦃P : ListParser⦄ (path : FilePath) where
  -- The reply of `RMD` in the blocking client, less the second record of the failure.
  unfoldable removed : FtpResult (Unit {0}) → Action (Unit {0})
  removed (ok _) = Session.pure tt
  removed (err error) = Session.◌>>=◌ (Refusal.classify_remove_dir_refusal path error) Session.raise

  recorded_twice :
      (x : FtpResult (Unit {0}))
      → Session.◌>>=◌ (Access.record_ftp_result x) (λ _. removed x)
        ≡ Commands.remove_dir_reply path x
  unfolding removed Access.record_ftp_result Commands.remove_dir_reply
  recorded_twice (ok _) = refl
  recorded_twice (err error) = refl

module _ ⦃E : Suppaftp⦄ ⦃T : Tokio E⦄ ⦃R : Remotefs⦄ ⦃P : ListParser⦄ {Q : Relation}
    (chained : IsChained Q) (commanded : IsCommanded Q) where
  pub create_dir-Twins :
      (path : FilePath) → Q (Unit {0}) (create_dir path) (Commands.create_dir path)
  unfolding create_dir Commands.create_dir create_dir_reply Commands.create_dir_reply
  create_dir-Twins path = sent chained path λ remote one_remote.
      chain chained (commanded.mkdir_ remote one_remote) λ result.
        on_result Q result (λ _. chained.pure_ (Unit {0}) tt)
          λ error.
            on_bool Q (is_creation_refusal error)
              (chain chained (classify_create_dir_refusal-Twins chained commanded path error)
                λ classified. chained.raise_ (Unit {0}) classified)
              (chained.raise_ (Unit {0}) (ftp_error error))

  pub remove_file-Twins :
      (path : FilePath) → Q (Unit {0}) (remove_file path) (Commands.remove_file path)
  unfolding remove_file Commands.remove_file remove_file_reply Commands.remove_file_reply
  remove_file-Twins path = sent chained path λ remote one_remote.
      chain chained (commanded.rm_ remote one_remote) λ result.
        on_result Q result (λ _. chained.pure_ (Unit {0}) tt)
          λ error.
            chain chained (classify_file_refusal-Twins chained commanded path error)
              λ classified. chained.raise_ (Unit {0}) classified

  pub rename-Twins :
      (src dest : FilePath) → Q (Unit {0}) (rename src dest) (Commands.rename src dest)
  unfolding rename Commands.rename rename_reply Commands.rename_reply
  rename-Twins src dest = sent chained src λ remote_src one_remote_src.
      sent chained dest λ remote_dest one_remote_dest.
        chain chained (commanded.rename_ remote_src remote_dest one_remote_src one_remote_dest)
          λ result.
            on_result Q result (λ _. chained.pure_ (Unit {0}) tt)
              λ error.
                chain chained (classify_rename_refusal-Twins chained commanded src dest error)
                  λ classified. chained.raise_ (Unit {0}) classified

  pub set_metadata-Twins :
      (path : FilePath) (metadata : Metadata)
      → Q (Unit {0}) (set_metadata path metadata) (Commands.set_metadata path metadata)
  unfolding set_metadata Commands.set_metadata
  set_metadata-Twins path metadata =
      chain chained (lifted chained (remote_path path))
        λ _. chained.raise_ (Unit {0}) (new unsupported_feature)

  pub copy-Twins : (src dest : FilePath) → Q (Unit {0}) (copy src dest) (Commands.copy src dest)
  unfolding copy Commands.copy
  copy-Twins src dest = chain chained (lifted chained (remote_path src)) λ _.
      chain chained (lifted chained (remote_path dest))
        λ _. chained.raise_ (Unit {0}) (new unsupported_feature)

  pub symlink-Twins :
      (path target : FilePath) → Q (Unit {0}) (symlink path target) (Commands.symlink path target)
  unfolding symlink Commands.symlink
  symlink-Twins path target = chain chained (lifted chained (remote_path path)) λ _.
      chain chained (lifted chained (remote_path target))
        λ _. chained.raise_ (Unit {0}) (new unsupported_feature)

  remove_dir_reply-Twins :
      (path : FilePath) (result : FtpResult (Unit {0}))
      → Q (Unit {0}) (remove_dir_reply path result) (removed path result)
  unfolding remove_dir_reply removed
  remove_dir_reply-Twins path (ok _) = chained.pure_ (Unit {0}) tt
  remove_dir_reply-Twins path (err error) =
      chain chained (classify_remove_dir_refusal-Twins chained commanded path error)
        λ classified. chained.raise_ (Unit {0}) classified

  pub remove_dir-Twins :
      (path : FilePath) → Q (Unit {0}) (remove_dir path) (Commands.remove_dir path)
  unfolding remove_dir Commands.remove_dir
  remove_dir-Twins path = sent chained path λ remote one_remote.
      subst
        (λ g.
          Q (Unit {0})
            (Task.◌>>=◌ (run_command (λ stream. E.rmdir stream remote)) (remove_dir_reply path))
            (Session.◌>>=◌ (Commands.run_command (λ stream. E.rmdir stream remote)) g))
        (λ i x. recorded_twice path x i)
        (commanded.rmdir_ remote (remove_dir_reply path) (removed path) one_remote
          (remove_dir_reply-Twins path))
