-- ===== src/Tokio/Connection.antt =====
-- src/client/tokio.rs: the constructors of `TokioFtpFs`, `connect`, `disconnect` and `is_connected`.
use remotefs_rs_ftp.Base.{
  ℕ, Bool, true, false, not, ◌&&◌, ◌||◌, [], none, some, map_err, if◌then◌else◌,
}
use remotefs_rs_ftp.Error.{
  RemoteError, new, with_source, ftp, connection_failed, already_connected, ftp_error,
}
use remotefs_rs_ftp.Text.{Bytes}
use remotefs_rs_ftp.Suppaftp.{Suppaftp, active, passive}
use remotefs_rs_ftp.Session.{Options, set_stream, set_connection_usable}
use remotefs_rs_ftp.Client.Access.{busy_error}
use remotefs_rs_ftp.Client.Connection.{
  new_options, is_present, with_builder, password_or_empty, closed_error,
}
use remotefs_rs_ftp.Tokio.Runtime.{Tokio}
use remotefs_rs_ftp.Tokio.Task.{
  TokioState, Task, pure, raise, ◌>>=◌, ◌>>◌, lift, sync, asks, set_connected, set_welcome, await,
}
use remotefs_rs_ftp.Tokio.Access.{record_result, or_not_connected}

module _ ⦃E : Suppaftp⦄ where
  -- `TokioFtpFs::new`, in a world; a schedule that never drops a future and has no other tasks.
  unfoldable pub new_client : Bytes → ℕ → E.World → TokioState E
  new_client hostname port world = record {
    base = record {
      stream = none;
      transfer_active = false;
      connection_usable = true;
      options = new_options hostname port;
      world = world;
    };
    connected = false;
    welcome = none;
    patience = none;
    others = [];
  }

  abbrev pub set_options : (Options → Options) → TokioState E → TokioState E
  set_options f s = record s { base = record s.base { options = f s.base.options } }

  -- The setters, which consume the client.
  unfoldable pub set_username : Bytes → TokioState E → TokioState E
  set_username username = set_options (λ options. record options { username = username })

  unfoldable pub set_password : Bytes → TokioState E → TokioState E
  set_password password = set_options (λ options. record options { password = some password })

  unfoldable pub active_mode : TokioState E → TokioState E
  active_mode = set_options (λ options. record options { mode = active })

  unfoldable pub passive_mode : TokioState E → TokioState E
  passive_mode = set_options (λ options. record options { mode = passive })

  unfoldable pub set_secure : TokioState E → TokioState E
  set_secure = set_options (λ options. record options { secure = true })

  unfoldable pub set_passive_stream_builder : ℕ → TokioState E → TokioState E
  set_passive_stream_builder builder =
      set_options (λ options. record options { passive_stream_builder = some builder })

  abbrev pub refuse_when : Bool → RemoteError → Task (Unit {0})
  refuse_when b e = if b then raise e else pure tt

  -- The old stream of an unusable connection is dropped.
  unfoldable pub discard_unusable : Bool → Task (Unit {0})
  discard_unusable true = pure tt
  discard_unusable false = do
    sync (set_stream none)
    set_connected false
    sync (set_connection_usable true)

  unfoldable pub is_connected : TokioState E → Bool
  is_connected s = s.base.connection_usable && (s.connected || s.base.transfer_active)

  module _ ⦃T : Tokio E⦄ where
    -- TLS, if it is asked for; with rustls the connector is always there.
    unfoldable pub secure_stream : Options → E.Stream → Task E.Stream
    unfolding await
    secure_stream options stream = elim options.secure [
      | false ↦ pure stream
      | true ↦ do
        secured ← await (E.into_secure stream options.hostname)
        lift (map_err (λ e. with_source connection_failed (ftp e)) secured)
    ]

    -- From the greeting to the binary mode: a control stream that is ready for commands.
    unfoldable pub establish : Options → Task E.Stream
    unfolding secure_stream await
    establish options = do
      greeted ← await (E.connect options.hostname options.port)
      plain ← lift (map_err ftp_error greeted)
      stream ←
          secure_stream options
            (E.set_mode options.mode (with_builder options.passive_stream_builder plain))
      logged_in ← await (E.login stream options.username (password_or_empty options.password))
      lift (map_err ftp_error logged_in)
      binary ← await (E.transfer_type_binary stream)
      lift (map_err ftp_error binary)
      pure stream

    unfoldable pub connect : Task (Unit {0})
    unfolding discard_unusable establish
    connect = do
      busy ← asks (λ b. b.transfer_active)
      refuse_when busy busy_error
      usable ← asks (λ b. b.connection_usable)
      present ← asks (λ b. is_present b.stream)
      refuse_when (usable && present) (new already_connected)
      discard_unusable usable
      options ← asks (λ b. b.options)
      stream ← establish options
      set_welcome (E.get_welcome_msg stream)
      sync (set_stream (some stream))
      set_connected true

    -- `QUIT`, and what it means for the flag.
    unfoldable pub quit_stream : E.Stream → Task (Unit {0})
    unfolding await record_result
    quit_stream stream = do
      quit ← await (E.quit stream)
      record_result (map_err ftp_error quit)
      lift (map_err ftp_error quit)

    unfoldable pub disconnect : Task (Unit {0})
    unfolding quit_stream
    disconnect = do
      busy ← asks (λ b. b.transfer_active)
      refuse_when busy busy_error
      usable ← asks (λ b. b.connection_usable)
      control ← asks (λ b. b.stream)
      stream ← or_not_connected control
      sync (set_stream none)
      set_connected false
      set_welcome none
      sync (set_connection_usable true)
      refuse_when (not usable) closed_error
      quit_stream stream
