-- ===== src/Client/Commands/Refused.antt =====
-- What commands, listings and further transfers of src/client/sync.rs do while a transfer is in
-- progress.
use remotefs_rs_ftp.Base.{◌≡◌, ap, ◌∙◌, true, ok, err}
use remotefs_rs_ftp.Error.{ftp_error, is_ambiguous_path_refusal}
use remotefs_rs_ftp.Text.{Bytes}
use remotefs_rs_ftp.FilePath.{FilePath}
use remotefs_rs_ftp.Remotefs.{Remotefs, RemoteResult}
use remotefs_rs_ftp.Wire.{remote_path}
use remotefs_rs_ftp.Listing.{ListParser}
use remotefs_rs_ftp.Suppaftp.{Suppaftp, FtpResult}
use remotefs_rs_ftp.Session.{
  State, Outcome, raised, Action, ◌>>=◌, lift, attempt, call, pure, raise, ◌>>◌,
}
use remotefs_rs_ftp.Client.Access.{busy_error, with_stream, record_ftp_result}
use remotefs_rs_ftp.Client.Access.Refusing.{with_stream-busy, with_exclusive_stream-busy}
use remotefs_rs_ftp.Client.Probe.{
  list_or_classify, list_on, parse_listing, classify_listing, list_dir_raw,
}
use remotefs_rs_ftp.Client.Stat.{list_dir, directory_entries}
use remotefs_rs_ftp.Client.Commands.{
  exec_output, create_dir_reply, remove_file_reply, remove_dir_reply, rename_reply, run_command,
  exec, create_dir, remove_file, remove_dir, rename,
}
use remotefs_rs_ftp.Client.Streams.{
  ReadOptions, offset_or_zero, retrieve, send, open_reply, write_reply, open_file, create, append,
}

module _ ⦃E : Suppaftp⦄ where
  -- The action ended at once with the error that says so, and neither the client nor the world has
  -- changed.
  pub record IsBusy {A : Type 0} (s : State E) (x : Outcome A × State E) : Type 0 where
    pub refused : x ≡ (raised busy_error, s)

  abbrev pub RefusesBusy : {A : Type 0} → Action A → Type 0
  RefusesBusy m = (s : State E) → s.transfer_active ≡ true → IsBusy s (m s)

  bind-Busy :
      {A B : Type 0} {m : Action A} (f : A → Action B) → RefusesBusy m → RefusesBusy (m >>= f)
  bind-Busy {m} f p s busy = record { refused = ap (λ x. ((λ _. x) >>= f) s) ((p s busy).refused) }

  lift-Busy :
      {A B : Type 0} (r : RemoteResult B) {b : B} (f : B → Action A)
      → r ≡ ok b
      → RefusesBusy (f b)
      → RefusesBusy (lift r >>= f)
  lift-Busy r f e p s busy = record { refused = ap (λ x. (lift x >>= f) s) e ∙ (p s busy).refused }

  with_stream-Busy : {A : Type 0} (f : E.Stream → Action A) → RefusesBusy (with_stream f)
  with_stream-Busy f s busy = record { refused = with_stream-busy s f busy }

  run_command-Busy :
      {A : Type 0} (command : E.Stream → E.World → FtpResult A × E.World)
      → RefusesBusy (run_command command)
  unfolding run_command
  run_command-Busy command =
      with_stream-Busy
        λ stream. do result ← call (command stream); record_ftp_result result; pure result

  -- A command whose path is sent.
  command-Busy :
      {A B : Type 0} (r : RemoteResult B) {remote : B}
      (command : B → E.Stream → E.World → FtpResult A × E.World) (reply : FtpResult A → Action A)
      → r ≡ ok remote
      → RefusesBusy (lift r >>= λ sent. run_command (command sent) >>= reply)
  command-Busy r {remote} command reply e =
      lift-Busy r (λ sent. run_command (command sent) >>= reply) e
        (bind-Busy reply (run_command-Busy (command remote)))

  -- A transfer whose path is sent.
  transfer-Busy :
      {A B C : Type 0} (r : RemoteResult B) {remote : B} (f : B → E.Stream → Action A)
      (reply : A → Action C)
      → r ≡ ok remote
      → RefusesBusy (lift r >>= λ sent. with_stream (f sent) >>= reply)
  transfer-Busy r {remote} f reply e =
      lift-Busy r (λ sent. with_stream (f sent) >>= reply) e
        (bind-Busy reply (with_stream-Busy (f remote)))

  exec-Busy : (cmd : Bytes) → RefusesBusy (exec cmd)
  unfolding exec
  exec-Busy cmd =
      bind-Busy (λ response. pure (exec_output response))
        (with_stream-Busy λ stream. do
          result ← call (E.site stream cmd)
          elim result [ ok response ↦ pure response | err error ↦ raise (ftp_error error) ])

module _ ⦃E : Suppaftp⦄ ⦃R : Remotefs⦄ ⦃P : ListParser⦄ where
  list_or_classify-Busy :
      (path : FilePath) (remote : Bytes) → RefusesBusy (list_or_classify path remote)
  unfolding list_or_classify list_dir_raw classify_listing is_ambiguous_path_refusal
  list_or_classify-Busy path remote s busy =
      let e : list_dir_raw path remote s ≡ (raised busy_error, s) =
        (bind-Busy (parse_listing path)
          (λ t b. record { refused = with_exclusive_stream-busy t (list_on remote) b }) s
          busy).refused in
      record { refused = ap (λ x. (attempt (λ _. x) >>= classify_listing path) s) e }

  module _ (path other : FilePath) (remote remote_other : Bytes) (e : remote_path path ≡ ok remote)
      (f : remote_path other ≡ ok remote_other) where
    create_dir-Busy : RefusesBusy (create_dir path)
    unfolding create_dir
    create_dir-Busy =
        command-Busy (remote_path path) (λ sent stream. E.mkdir stream sent) (create_dir_reply path)
          e

    remove_file-Busy : RefusesBusy (remove_file path)
    unfolding remove_file
    remove_file-Busy =
        command-Busy (remote_path path) (λ sent stream. E.rm stream sent) (remove_file_reply path) e

    remove_dir-Busy : RefusesBusy (remove_dir path)
    unfolding remove_dir
    remove_dir-Busy =
        command-Busy (remote_path path) (λ sent stream. E.rmdir stream sent) (remove_dir_reply path)
          e

    rename-Busy : RefusesBusy (rename path other)
    unfolding rename
    rename-Busy =
        lift-Busy (remote_path path)
          (λ sent. lift (remote_path other) >>= λ sent_other.
            run_command (λ stream. E.rename stream sent sent_other) >>= rename_reply path other)
          e
          (command-Busy (remote_path other) (λ sent_other stream. E.rename stream remote sent_other)
            (rename_reply path other) f)

    list_dir-Busy : RefusesBusy (list_dir path)
    unfolding list_dir
    list_dir-Busy =
        lift-Busy (remote_path path) (λ sent. list_or_classify path sent >>= directory_entries path)
          e (bind-Busy (directory_entries path) (list_or_classify-Busy path remote))

    open_file-Busy : (opts : ReadOptions) → RefusesBusy (open_file path opts)
    unfolding open_file
    open_file-Busy opts =
        transfer-Busy (remote_path path) (λ sent. retrieve sent (offset_or_zero opts.offset))
          (open_reply path (offset_or_zero opts.offset) opts.length) e

    create-Busy : RefusesBusy (create path)
    unfolding create
    create-Busy = transfer-Busy (remote_path path) (send E.put_with_stream) (write_reply path) e

    append-Busy : RefusesBusy (append path)
    unfolding append
    append-Busy = transfer-Busy (remote_path path) (send E.append_with_stream) (write_reply path) e

    -- While a transfer is in progress, `create_dir`, `remove_file`, `remove_dir`, `rename`, `list_dir`,
    -- `open`, `create` and `append` on paths that can go onto the wire, and `exec`, whatever the state
    -- is otherwise, are refused with the same error before anything is sent: the
    -- client and the world stay exactly as they were.
    pub operations-Busy :
        (opts : ReadOptions) (cmd : Bytes)
        → (RefusesBusy (create_dir path)
            × RefusesBusy (remove_file path)
            × RefusesBusy (remove_dir path)
            × RefusesBusy (rename path other))
          × (RefusesBusy (list_dir path) × RefusesBusy (exec cmd))
          × (RefusesBusy (open_file path opts)
              × RefusesBusy (create path)
              × RefusesBusy (append path))
    operations-Busy opts cmd = (
      (create_dir-Busy, remove_file-Busy, remove_dir-Busy, rename-Busy),
      (list_dir-Busy, exec-Busy cmd),
      (open_file-Busy opts, create-Busy, append-Busy),
    )
