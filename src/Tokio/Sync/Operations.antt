-- ===== src/Tokio/Sync/Operations.antt =====
-- The operations of src/client/tokio.rs on a sound client, also where they are dropped.
use remotefs_rs_ftp.Text.{Bytes}
use remotefs_rs_ftp.Wire.Safety.{IsOneLine}
use remotefs_rs_ftp.FilePath.{FilePath}
use remotefs_rs_ftp.Remotefs.{Remotefs, Metadata}
use remotefs_rs_ftp.Listing.{ListParser}
use remotefs_rs_ftp.Suppaftp.{Suppaftp}
use remotefs_rs_ftp.Tokio.Runtime.{Tokio}
use remotefs_rs_ftp.Tokio.Task.{TokioState, pure}
use remotefs_rs_ftp.Tokio.Access.{run_command}
use remotefs_rs_ftp.Tokio.Stat.{stat, list_dir, exists}
use remotefs_rs_ftp.Tokio.Commands.{
  exec, create_dir, remove_file, remove_dir, rename, set_metadata, copy, symlink,
}
use remotefs_rs_ftp.Tokio.Twins.{Relation, IsChained, IsCommanded}
use remotefs_rs_ftp.Tokio.Twins.Lookups.{stat-Twins, list_dir-Twins, exists-Twins}
use remotefs_rs_ftp.Tokio.Twins.Operations.{
  create_dir-Twins, remove_file-Twins, remove_dir-Twins, rename-Twins, set_metadata-Twins,
  copy-Twins, symlink-Twins,
}
use remotefs_rs_ftp.Tokio.Sync.{IsSound, KeepsSound, StaysSound, bind-Ends, attempt-KeepsSound}
use remotefs_rs_ftp.Tokio.Sync.Library.{IsReliable}
use remotefs_rs_ftp.Tokio.Sync.Locks.{with_lock-Ends, locked-Ready}
use remotefs_rs_ftp.Tokio.Sync.Commands.{
  weaken, returned, errored, run_command-KeepsSound, exec-KeepsSound,
}
use remotefs_rs_ftp.Tokio.Sync.Listings.{list_dir_raw-KeepsSound}

module _ ⦃E : Suppaftp⦄ ⦃T : Tokio E⦄ (InStep : E.Stream → E.World → Type 0) where
  -- The relation that looks at the task alone.
  abbrev pub Sound : Relation
  Sound A t m = KeepsSound InStep t

  pub Sound-IsChained : IsChained Sound
  Sound-IsChained = record {
    pure_ = λ A a s h. returned InStep a s h;
    raise_ = λ A e s h. errored InStep e s h;
    fail_ = λ A x s h. record { mirror = h.mirror; fair = h.fair; outcome = h.outcome };
    bind_ = λ A B t m f g p q s h.
        bind-Ends InStep t f s (p s h) λ a s' k. q a s' (weaken InStep a s' k k.outcome);
    attempt_ = λ A t m p. attempt-KeepsSound InStep t p;
  }

module _ ⦃E : Suppaftp⦄ ⦃T : Tokio E⦄ ⦃R : Remotefs⦄ ⦃P : ListParser⦄
    (InStep : E.Stream → E.World → Type 0) (IsOpenOn : E.Stream → E.Transfer → E.World → Type 0)
    (reliable : IsReliable T InStep IsOpenOn) where
  pub Sound-IsCommanded : IsCommanded (Sound InStep)
  Sound-IsCommanded = record {
    idle = λ A a s h.
        with_lock-Ends InStep (λ _. pure a) s h
          λ c t k. record {
            mirror = k.mirror;
            fair = k.fair;
            outcome = locked-Ready InStep c t.base k.outcome;
          };
    raw = λ path remote one. list_dir_raw-KeepsSound InStep IsOpenOn reliable path remote one;
    mkdir_ = λ remote one.
        run_command-KeepsSound InStep (λ c. E.mkdir c remote) (reliable.mkdir_ remote one);
    rm_ =
        λ remote one. run_command-KeepsSound InStep (λ c. E.rm c remote) (reliable.rm_ remote one);
    rmdir_ = λ remote f g one p s h.
        bind-Ends InStep (run_command (λ c. E.rmdir c remote)) f s
          (run_command-KeepsSound InStep (λ c. E.rmdir c remote) (reliable.rmdir_ remote one) s h)
          λ x t k. p x t (weaken InStep x t k k.outcome);
    rename_ = λ src dest one two.
        run_command-KeepsSound InStep (λ c. E.rename c src dest)
          (reliable.rename_ src dest one two);
  }

  -- Each operation that is no transfer, from a sound state and under any schedule, dropped at any await
  -- or not, leaves a client whose control stream is in step if it may still be used, and whose
  -- `connected` mirrors the stream. A sound state has other tasks that keep the client so. What is in
  -- step is any property that a command on one line keeps unless its failure asks for a reconnect; of a
  -- command that is dropped nothing is assumed. The text of `exec`, which the client sends as it is,
  -- has no control characters.
  pub operations-StaysSound :
      (path other : FilePath) (metadata : Metadata) (cmd : Bytes) (s : TokioState E)
      → IsOneLine cmd
      → IsSound InStep s
      → (StaysSound InStep (stat path s)
          × StaysSound InStep (list_dir path s)
          × StaysSound InStep (exists path s))
        × (StaysSound InStep (create_dir path s)
            × StaysSound InStep (remove_file path s)
            × StaysSound InStep (remove_dir path s)
            × StaysSound InStep (rename path other s))
        × (StaysSound InStep (exec cmd s)
            × StaysSound InStep (set_metadata path metadata s)
            × StaysSound InStep (copy path other s)
            × StaysSound InStep (symlink path other s))
  operations-StaysSound path other metadata cmd s one h =
      let chained : IsChained (Sound InStep) = Sound-IsChained InStep in
      let commanded : IsCommanded (Sound InStep) = Sound-IsCommanded in
      (
        (
          stat-Twins {Q = Sound InStep} chained commanded path s h,
          list_dir-Twins {Q = Sound InStep} chained commanded path s h,
          exists-Twins {Q = Sound InStep} chained commanded path s h,
        ),
        (
          create_dir-Twins {Q = Sound InStep} chained commanded path s h,
          remove_file-Twins {Q = Sound InStep} chained commanded path s h,
          remove_dir-Twins {Q = Sound InStep} chained commanded path s h,
          rename-Twins {Q = Sound InStep} chained commanded path other s h,
        ),
        (
          exec-KeepsSound InStep cmd (reliable.site_ cmd one) s h,
          set_metadata-Twins {Q = Sound InStep} chained commanded path metadata s h,
          copy-Twins {Q = Sound InStep} chained commanded path other s h,
          symlink-Twins {Q = Sound InStep} chained commanded path other s h,
        ),
      )
