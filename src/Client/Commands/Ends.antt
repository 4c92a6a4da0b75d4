-- ===== src/Client/Commands/Ends.antt =====
-- How the commands and the lookups of src/client/sync.rs end, and what they leave of the client.
use remotefs_rs_ftp.Error.{unsupported_feature, new, ftp_error, is_creation_refusal}
use remotefs_rs_ftp.Text.{Bytes}
use remotefs_rs_ftp.FilePath.{FilePath}
use remotefs_rs_ftp.Remotefs.{Remotefs, Metadata, ChecksAbsolute}
use remotefs_rs_ftp.Wire.{remote_path}
use remotefs_rs_ftp.Listing.{ListParser}
use remotefs_rs_ftp.Suppaftp.{Suppaftp, FtpResult, IsFinite}
use remotefs_rs_ftp.Session.{raise}
use remotefs_rs_ftp.Client.Quiet.{
  AlwaysQuiet, pure-Quiet, raise-Quiet, lift-Quiet, call-Quiet, bind-Quiet, bool-Quiet,
  result-Quiet,
}
use remotefs_rs_ftp.Client.Quiet.Accessors.{
  record_ftp_result-Quiet, record_ftp_error-Quiet, with_stream-Quiet,
}
use remotefs_rs_ftp.Client.Stat.{stat, list_dir, exists}
use remotefs_rs_ftp.Client.Stat.Ends.{stat-Quiet, list_dir-Quiet, exists-Quiet}
use remotefs_rs_ftp.Client.Refusal.Ends.{
  classify_file_refusal-Quiet, classify_remove_dir_refusal-Quiet, classify_create_dir_refusal-Quiet,
  classify_rename_refusal-Quiet,
}
use remotefs_rs_ftp.Client.Commands.{
  run_command, exec, create_dir, remove_file, remove_dir, rename, set_metadata, copy, symlink,
}

module _ ⦃E : Suppaftp⦄ where
  run_command-Quiet :
      {A : Type 0} (command : E.Stream → E.World → FtpResult A × E.World)
      → AlwaysQuiet (run_command command)
  unfolding run_command
  run_command-Quiet command = with_stream-Quiet λ stream.
      bind-Quiet (call-Quiet (command stream))
        λ result. bind-Quiet (record_ftp_result-Quiet result) λ _. pure-Quiet result

  exec-Quiet : (cmd : Bytes) → AlwaysQuiet (exec cmd)
  unfolding exec
  exec-Quiet cmd =
      bind-Quiet
        (with_stream-Quiet λ stream. bind-Quiet (call-Quiet (E.site stream cmd)) λ result.
          result-Quiet result (λ response _. pure-Quiet response)
            λ error. raise-Quiet (ftp_error error))
        λ response. pure-Quiet _

module _ ⦃E : Suppaftp⦄ ⦃R : Remotefs⦄ ⦃P : ListParser⦄ where
  unsupported-Quiet :
      (path : FilePath) (metadata : Metadata) → AlwaysQuiet (set_metadata path metadata)
  unfolding set_metadata
  unsupported-Quiet path metadata =
      bind-Quiet (lift-Quiet (remote_path path)) λ remote. raise-Quiet (new unsupported_feature)

  copy-Quiet : (src dest : FilePath) → AlwaysQuiet (copy src dest)
  unfolding copy
  copy-Quiet src dest = bind-Quiet (lift-Quiet (remote_path src)) λ remote_src.
      bind-Quiet (lift-Quiet (remote_path dest))
        λ remote_dest. raise-Quiet (new unsupported_feature)

  symlink-Quiet : (path target : FilePath) → AlwaysQuiet (symlink path target)
  unfolding symlink
  symlink-Quiet path target = bind-Quiet (lift-Quiet (remote_path path)) λ remote.
      bind-Quiet (lift-Quiet (remote_path target))
        λ remote_target. raise-Quiet (new unsupported_feature)

module _ ⦃E : Suppaftp⦄ ⦃R : Remotefs⦄ ⦃P : ListParser⦄ (finite : IsFinite E)
    (checks : ChecksAbsolute R) where
  create_dir-Quiet : (path : FilePath) → AlwaysQuiet (create_dir path)
  unfolding create_dir
  create_dir-Quiet path = bind-Quiet (lift-Quiet (remote_path path)) λ remote.
      bind-Quiet (run_command-Quiet (λ stream. E.mkdir stream remote)) λ result.
        result-Quiet result (λ _ _. pure-Quiet tt)
          λ error.
            bool-Quiet (is_creation_refusal error) {n = raise (ftp_error error)}
              (λ _.
                bind-Quiet (classify_create_dir_refusal-Quiet finite checks path error)
                  λ classified. raise-Quiet classified)
              λ _. raise-Quiet (ftp_error error)

  remove_file-Quiet : (path : FilePath) → AlwaysQuiet (remove_file path)
  unfolding remove_file
  remove_file-Quiet path = bind-Quiet (lift-Quiet (remote_path path)) λ remote.
      bind-Quiet (run_command-Quiet (λ stream. E.rm stream remote)) λ result.
        result-Quiet result (λ _ _. pure-Quiet tt)
          λ error.
            bind-Quiet (classify_file_refusal-Quiet finite checks path error)
              λ classified. raise-Quiet classified

  remove_dir-Quiet : (path : FilePath) → AlwaysQuiet (remove_dir path)
  unfolding remove_dir
  remove_dir-Quiet path = bind-Quiet (lift-Quiet (remote_path path)) λ remote.
      bind-Quiet (run_command-Quiet (λ stream. E.rmdir stream remote)) λ result.
        result-Quiet result (λ _ _. pure-Quiet tt)
          λ error. bind-Quiet (record_ftp_error-Quiet error) λ _.
            bind-Quiet (classify_remove_dir_refusal-Quiet finite checks path error)
              λ classified. raise-Quiet classified

  rename-Quiet : (src dest : FilePath) → AlwaysQuiet (rename src dest)
  unfolding rename
  rename-Quiet src dest = bind-Quiet (lift-Quiet (remote_path src)) λ remote_src.
      bind-Quiet (lift-Quiet (remote_path dest)) λ remote_dest.
        bind-Quiet (run_command-Quiet (λ stream. E.rename stream remote_src remote_dest)) λ result.
          result-Quiet result (λ _ _. pure-Quiet tt)
            λ error.
              bind-Quiet (classify_rename_refusal-Quiet finite checks src dest error)
                λ classified. raise-Quiet classified

  -- From every state, each operation that is no transfer ends: with a value or an error, never with
  -- a panic. The control stream, the flag of the transfers and the options are then as they were,
  -- and an unusable connection has not become usable. The library's transfers are finite, and its
  -- check of a path is the documented one.
  pub operations-Quiet :
      (path other : FilePath) (metadata : Metadata) (cmd : Bytes)
      → (AlwaysQuiet (stat path) × AlwaysQuiet (list_dir path) × AlwaysQuiet (exists path))
        × (AlwaysQuiet (create_dir path)
            × AlwaysQuiet (remove_file path)
            × AlwaysQuiet (remove_dir path)
            × AlwaysQuiet (rename path other))
        × (AlwaysQuiet (exec cmd)
            × AlwaysQuiet (set_metadata path metadata)
            × AlwaysQuiet (copy path other)
            × AlwaysQuiet (symlink path other))
  operations-Quiet path other metadata cmd = (
    (
      stat-Quiet finite checks path,
      list_dir-Quiet finite checks path,
      exists-Quiet finite checks path,
    ),
    (create_dir-Quiet path, remove_file-Quiet path, remove_dir-Quiet path, rename-Quiet path other),
    (
      exec-Quiet cmd,
      unsupported-Quiet path metadata,
      copy-Quiet path other,
      symlink-Quiet path other,
    ),
  )
