-- ===== src/Tokio/Calm/Operations.antt =====
-- The operations of src/client/tokio.rs on a calm client, beside those of src/client/sync.rs.
use remotefs_rs_ftp.Base.{Bool, List}
use remotefs_rs_ftp.Text.{Bytes}
use remotefs_rs_ftp.FilePath.{FilePath}
use remotefs_rs_ftp.Remotefs.{Remotefs, File, Metadata}
use remotefs_rs_ftp.Listing.{ListParser}
use remotefs_rs_ftp.Suppaftp.{Suppaftp}
use remotefs_rs_ftp.Client.Stat
use remotefs_rs_ftp.Client.Commands
use remotefs_rs_ftp.Client.Commands.{ExecOutput}
use remotefs_rs_ftp.Tokio.Runtime.{Tokio}
use remotefs_rs_ftp.Tokio.Stat.{stat, list_dir, exists}
use remotefs_rs_ftp.Tokio.Commands.{
  exec, create_dir, remove_file, remove_dir, rename, set_metadata, copy, symlink,
}
use remotefs_rs_ftp.Tokio.Twins.{IsCommanded}
use remotefs_rs_ftp.Tokio.Twins.Lookups.{stat-Twins, list_dir-Twins, exists-Twins}
use remotefs_rs_ftp.Tokio.Twins.Operations.{
  create_dir-Twins, remove_file-Twins, remove_dir-Twins, rename-Twins, set_metadata-Twins,
  copy-Twins, symlink-Twins,
}
use remotefs_rs_ftp.Tokio.Calm.{Agrees, Agrees-IsChained}
use remotefs_rs_ftp.Tokio.Calm.Commands.{idle-at, run_command-at, rmdir-at, exec-at}
use remotefs_rs_ftp.Tokio.Calm.Listings.{ReadsAlike, list_dir_raw-at}

module _ ⦃E : Suppaftp⦄ ⦃T : Tokio E⦄ ⦃R : Remotefs⦄ ⦃P : ListParser⦄ (alike : ReadsAlike T) where
  pub Agrees-IsCommanded : IsCommanded Agrees
  Agrees-IsCommanded = record {
    idle =
        λ A a c w b. idle-at c w b.options b.world a b.stream b.transfer_active b.connection_usable;
    raw = λ path remote one c w b.
        list_dir_raw-at c w b.options path alike remote b.world b.stream b.transfer_active
          b.connection_usable;
    mkdir_ = λ remote one c w b.
        run_command-at c w b.options b.world (λ stream. E.mkdir stream remote) b.stream
          b.transfer_active b.connection_usable;
    rm_ = λ remote one c w b.
        run_command-at c w b.options b.world (λ stream. E.rm stream remote) b.stream
          b.transfer_active b.connection_usable;
    rmdir_ = λ remote f g one p c w b.
        rmdir-at c w b.options b.world (λ stream. E.rmdir stream remote) f g p b.stream
          b.transfer_active b.connection_usable;
    rename_ = λ src dest one two c w b.
        run_command-at c w b.options b.world (λ stream. E.rename stream src dest) b.stream
          b.transfer_active b.connection_usable;
  }

  -- A task that is never dropped and meets no other task ends as the blocking client's operation does
  -- on the same state: with the same value, error or fault, and in the same state and world. This holds
  -- of each operation that is no transfer, whatever the state is. The loops of tokio read as those of
  -- the standard library.
  pub operations-Agree :
      (path other : FilePath) (metadata : Metadata) (cmd : Bytes)
      → (Agrees File (stat path) (Stat.stat path)
          × Agrees (List File) (list_dir path) (Stat.list_dir path)
          × Agrees Bool (exists path) (Stat.exists path))
        × (Agrees (Unit {0}) (create_dir path) (Commands.create_dir path)
            × Agrees (Unit {0}) (remove_file path) (Commands.remove_file path)
            × Agrees (Unit {0}) (remove_dir path) (Commands.remove_dir path)
            × Agrees (Unit {0}) (rename path other) (Commands.rename path other))
        × (Agrees ExecOutput (exec cmd) (Commands.exec cmd)
            × Agrees (Unit {0}) (set_metadata path metadata) (Commands.set_metadata path metadata)
            × Agrees (Unit {0}) (copy path other) (Commands.copy path other)
            × Agrees (Unit {0}) (symlink path other) (Commands.symlink path other))
  operations-Agree path other metadata cmd = (
    (
      stat-Twins Agrees-IsChained Agrees-IsCommanded path,
      list_dir-Twins Agrees-IsChained Agrees-IsCommanded path,
      exists-Twins Agrees-IsChained Agrees-IsCommanded path,
    ),
    (
      create_dir-Twins Agrees-IsChained Agrees-IsCommanded path,
      remove_file-Twins Agrees-IsChained Agrees-IsCommanded path,
      remove_dir-Twins Agrees-IsChained Agrees-IsCommanded path,
      rename-Twins Agrees-IsChained Agrees-IsCommanded path other,
    ),
    (
      λ c w b. exec-at c w b.options b.world cmd b.stream b.transfer_active b.connection_usable,
      set_metadata-Twins Agrees-IsChained Agrees-IsCommanded path metadata,
      copy-Twins Agrees-IsChained Agrees-IsCommanded path other,
      symlink-Twins Agrees-IsChained Agrees-IsCommanded path other,
    ),
  )
