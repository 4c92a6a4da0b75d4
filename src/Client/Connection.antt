-- ===== src/Client/Connection.antt =====
-- src/client/sync.rs: the constructors of `FtpFs`, `connect`, `disconnect` and `is_connected`.
pub mod Establish
pub mod Lifecycle
use remotefs_rs_ftp.Base.{
  ℕ, Bool, true, false, not, ◌&&◌, ◌||◌, List, [], ◌∷◌, Option, none, some, Result, ok, err,
  map_err, if◌then◌else◌,
}
use remotefs_rs_ftp.Error.{
  FtpError, RemoteError, new, with_message, with_source, ftp, connection_failed, not_connected,
  already_connected, ftp_error,
}
use remotefs_rs_ftp.Text.{Bytes}
use remotefs_rs_ftp.Remotefs.{RemoteResult}
use remotefs_rs_ftp.Suppaftp.{Suppaftp, FtpResult, Mode, active, passive}
use remotefs_rs_ftp.Session.{
  Options, State, Outcome, Action, ◌>>=◌, ◌>>◌, pure, raise, lift, call, gets, set_stream,
  set_connection_usable,
}
use remotefs_rs_ftp.Client.Access.{busy_error, record_result, or_not_connected}

abbrev pub anonymous : Bytes
anonymous = b'a' ∷ b'n' ∷ b'o' ∷ b'n' ∷ b'y' ∷ b'm' ∷ b'o' ∷ b'u' ∷ b's' ∷ []

abbrev pub new_options : Bytes → ℕ → Options
new_options hostname port = record {
  hostname = hostname;
  port = port;
  username = anonymous;
  password = none;
  passive_stream_builder = none;
  mode = passive;
  secure = false;
}

module _ ⦃E : Suppaftp⦄ where
  -- `FtpFs::new`, in a world.
  unfoldable pub new_client : Bytes → ℕ → E.World → State E
  new_client hostname port world = record {
    stream = none;
    transfer_active = false;
    connection_usable = true;
    options = new_options hostname port;
    world = world;
  }

  -- The setters, which consume the client.
  unfoldable pub set_username : Bytes → State E → State E
  set_username username s = record s { options = record s.options { username = username } }

  unfoldable pub set_password : Bytes → State E → State E
  set_password password s = record s { options = record s.options { password = some password } }

  unfoldable pub active_mode : State E → State E
  active_mode s = record s { options = record s.options { mode = active } }

  unfoldable pub passive_mode : State E → State E
  passive_mode s = record s { options = record s.options { mode = passive } }

  unfoldable pub set_secure : State E → State E
  set_secure s = record s { options = record s.options { secure = true } }

  unfoldable pub set_passive_stream_builder : ℕ → State E → State E
  set_passive_stream_builder builder s = record s {
    options = record s.options { passive_stream_builder = some builder };
  }

  abbrev pub refuse_when : Bool → RemoteError → Action (Unit {0})
  refuse_when b e = if b then raise e else pure tt

  abbrev pub is_present : Option E.Stream → Bool
  is_present none = false
  is_present (some stream) = true

  -- The old stream of an unusable connection is dropped.
  unfoldable pub discard_unusable : Bool → Action (Unit {0})
  discard_unusable true = pure tt
  discard_unusable false = do set_stream none; set_connection_usable true

  abbrev pub with_builder : Option ℕ → E.Stream → E.Stream
  with_builder none stream = stream
  with_builder (some builder) stream = E.passive_stream_builder builder stream

  abbrev pub password_or_empty : Option Bytes → Bytes
  password_or_empty none = []
  password_or_empty (some password) = password

  -- TLS, if it is asked for; with rustls the connector is always there.
  unfoldable pub secure_stream : Options → E.Stream → Action E.Stream
  secure_stream options stream = elim options.secure [
    | false ↦ pure stream
    | true ↦ do
      secured ← call (E.into_secure stream options.hostname)
      lift (map_err (λ e. with_source connection_failed (ftp e)) secured)
  ]

  -- From the greeting to the binary mode: a control stream that is ready for commands.
  unfoldable pub establish : Options → Action E.Stream
  unfolding secure_stream
  establish options = do
    greeted ← call (E.connect options.hostname options.port)
    plain ← lift (map_err ftp_error greeted)
    stream ←
        secure_stream options
          (E.set_mode options.mode (with_builder options.passive_stream_builder plain))
    logged_in ← call (E.login stream options.username (password_or_empty options.password))
    lift (map_err ftp_error logged_in)
    binary ← call (E.transfer_type_binary stream)
    lift (map_err ftp_error binary)
    pure stream

  unfoldable pub connect : Action (Unit {0})
  unfolding discard_unusable
  connect = do
    busy ← gets (λ s. s.transfer_active)
    refuse_when busy busy_error
    usable ← gets (λ s. s.connection_usable)
    present ← gets (λ s. is_present s.stream)
    refuse_when (usable && present) (new already_connected)
    discard_unusable usable
    options ← gets (λ s. s.options)
    stream ← establish options
    set_stream (some stream)

  abbrev pub closed_error : RemoteError
  closed_error =
      with_message connection_failed "the control connection was unusable and has been closed"

  -- `QUIT`, and what it means for the flag.
  unfoldable pub quit_stream : E.Stream → Action (Unit {0})
  unfolding record_result
  quit_stream stream = do
    quit ← call (E.quit stream)
    record_result (map_err ftp_error quit)
    lift (map_err ftp_error quit)

  unfoldable pub disconnect : Action (Unit {0})
  unfolding quit_stream
  disconnect = do
    busy ← gets (λ s. s.transfer_active)
    refuse_when busy busy_error
    usable ← gets (λ s. s.connection_usable)
    control ← gets (λ s. s.stream)
    stream ← or_not_connected control
    set_stream none
    set_connection_usable true
    refuse_when (not usable) closed_error
    quit_stream stream

  unfoldable pub is_connected : State E → Bool
  is_connected s = s.connection_usable && (is_present s.stream || s.transfer_active)
