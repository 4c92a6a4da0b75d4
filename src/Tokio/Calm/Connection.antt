-- ===== src/Tokio/Calm/Connection.antt =====
-- `connect` and `disconnect` of src/client/tokio.rs on a calm client, beside those of
-- src/client/sync.rs.
use remotefs_rs_ftp.Base.{
  ◌≡◌, refl, ap, ◌∙◌, Bool, true, false, Option, none, some, ok, err, map_err, Bool-cases, inl, inr,
}
use remotefs_rs_ftp.Error.{
  ftp_error, with_source, ftp, connection_failed, remote_error_requires_reconnect,
}
use remotefs_rs_ftp.Text.{Bytes}
use remotefs_rs_ftp.Remotefs.{RemoteResult}
use remotefs_rs_ftp.Suppaftp.{Suppaftp, FtpResult}
use remotefs_rs_ftp.Session.{Options, State, Outcome, done, raised, fault, Action}
use remotefs_rs_ftp.Session
use remotefs_rs_ftp.Client.Access
use remotefs_rs_ftp.Client.Connection
use remotefs_rs_ftp.Client.Connection.{with_builder, password_or_empty}
use remotefs_rs_ftp.Tokio.Runtime.{Tokio}
use remotefs_rs_ftp.Tokio.Task
use remotefs_rs_ftp.Tokio.Task.{TokioState, Task, await}
use remotefs_rs_ftp.Tokio.Access.{record_result, record_remote_error, mark_connection_unusable}
use remotefs_rs_ftp.Tokio.Connection.{
  discard_unusable, secure_stream, establish, connect, quit_stream, disconnect,
}
use remotefs_rs_ftp.Tokio.Twins.{lifted}
use remotefs_rs_ftp.Tokio.Calm.{calm, calmly, Agrees, Agrees-IsChained}
use remotefs_rs_ftp.Tokio.Calm.Commands.{client}

module _ ⦃E : Suppaftp⦄ where
  -- The task ends as the action does, but for what `TokioFtpFs` keeps beside the stream.
  abbrev pub Reaches : {A : Type 0} → Task A → Action A → Type 0
  Reaches t m =
      (connected : Bool) (welcome : Option Bytes) (b : State E)
      → (after : Bool) × (greeting : Option Bytes) × (t (calm connected welcome b)
          ≡ calmly after greeting (m b))

  record IsTwin {A : Type 0} (t : Task A) (m : Action A) : Type 0 where
    agrees : Agrees A t m

  module _ ⦃T : Tokio E⦄ where
    bind :
        {A B : Type 0} (t : Task A) (m : Action A) (f : A → Task B) (g : A → Action B)
        → IsTwin t m
        → ((a : A) → IsTwin (f a) (g a))
        → IsTwin (Task.◌>>=◌ t f) (Session.◌>>=◌ m g)
    bind {A} {B} t m f g p q = record {
      agrees = Agrees-IsChained.bind_ A B t m f g p.agrees λ a. (q a).agrees;
    }

    await-IsTwin : {A : Type 0} (f : E.World → A × E.World) → IsTwin (await f) (Session.call f)
    unfolding await
    await-IsTwin f = record { agrees = λ c w b. refl }

    lift-IsTwin : {A : Type 0} (r : RemoteResult A) → IsTwin (Task.lift r) (Session.lift r)
    lift-IsTwin r = record { agrees = lifted {Q = Agrees} Agrees-IsChained r }

    secure-at :
        (options : Options) (stream : E.Stream) (secure : Bool)
        → options.secure ≡ secure
        → IsTwin (secure_stream options stream) (Connection.secure_stream options stream)
    unfolding secure_stream Connection.secure_stream
    secure-at options stream false e =
        rw (e, secure_stream, Connection.secure_stream) (record { agrees = λ c w b. refl })
    secure-at options stream true e =
        rw (e, secure_stream, Connection.secure_stream)
          (bind (await (E.into_secure stream options.hostname))
            (Session.call (E.into_secure stream options.hostname)) _ _
            (await-IsTwin (E.into_secure stream options.hostname))
            λ r. lift-IsTwin (map_err (λ e. with_source connection_failed (ftp e)) r))

    establish-IsTwin :
        (options : Options) → IsTwin (establish options) (Connection.establish options)
    unfolding establish Connection.establish
    establish-IsTwin options =
        bind (await (E.connect options.hostname options.port))
          (Session.call (E.connect options.hostname options.port)) _ _
          (await-IsTwin (E.connect options.hostname options.port))
          λ greeted.
            bind (Task.lift (map_err ftp_error greeted)) (Session.lift (map_err ftp_error greeted))
              _ _ (lift-IsTwin (map_err ftp_error greeted))
              λ plain.
                let prepared : E.Stream =
                  E.set_mode options.mode (with_builder options.passive_stream_builder plain) in
                bind (secure_stream options prepared) (Connection.secure_stream options prepared) _
                  _ (secure-at options prepared options.secure refl)
                  λ stream.
                    let login : E.World → FtpResult (Unit {0}) × E.World =
                      E.login stream options.username (password_or_empty options.password) in
                    bind (await login) (Session.call login) _ _ (await-IsTwin login) λ logged_in.
                      bind (Task.lift (map_err ftp_error logged_in))
                        (Session.lift (map_err ftp_error logged_in)) _ _
                        (lift-IsTwin (map_err ftp_error logged_in))
                        λ _.
                          bind (await (E.transfer_type_binary stream))
                            (Session.call (E.transfer_type_binary stream)) _ _
                            (await-IsTwin (E.transfer_type_binary stream))
                            λ binary.
                              bind (Task.lift (map_err ftp_error binary))
                                (Session.lift (map_err ftp_error binary)) (λ _. Task.pure stream)
                                (λ _. Session.pure stream) (lift-IsTwin (map_err ftp_error binary))
                                λ _. record { agrees = Agrees-IsChained.pure_ E.Stream stream }

    -- After the connection is set up.
    kept : E.Stream → Task (Unit {0})
    kept stream =
        Task.◌>>=◌ (Task.set_welcome (E.get_welcome_msg stream)) λ _.
          Task.◌>>=◌ (Task.sync (Session.set_stream (some stream))) λ _. Task.set_connected true

    kept-Reaches :
        (x : Outcome E.Stream × State E) (c : Bool) (w : Option Bytes) (s : TokioState E)
        (b : State E)
        → (after : Bool) × (greeting : Option Bytes) × (Task.◌>>=◌ (λ _. calmly c w x) kept s
            ≡ calmly after greeting
                (Session.◌>>=◌ (λ _. x) (λ stream. Session.set_stream (some stream)) b))
    unfolding kept
    kept-Reaches (done stream, b') c w s b = (true, E.get_welcome_msg stream, refl)
    kept-Reaches (raised e, b') c w s b = (c, w, refl)
    kept-Reaches (fault x, b') c w s b = (c, w, refl)

    -- From a client without a stream.
    connect_from :
        (o : Options)
        → Reaches
            (Task.◌>>=◌ (establish o) kept)
            (Session.◌>>=◌ (Connection.establish o) λ stream. Session.set_stream (some stream))
    connect_from o c w b =
        let x : Outcome E.Stream × State E = Connection.establish o b in
        let (after, greeting, e) = kept-Reaches x c w (calm c w b) b in
        (
          after,
          greeting,
          ap (λ y. Task.◌>>=◌ (λ _. y) kept (calm c w b)) ((establish-IsTwin o).agrees c w b) ∙ e,
        )

    connect-at :
        (c : Bool) (w : Option Bytes) (o : Options) (world : E.World) (stream : Option E.Stream)
        (active usable : Bool)
        → (after : Bool) × (greeting : Option Bytes) × (connect
              (calm c w (client stream active usable o world))
            ≡ calmly after greeting (Connection.connect (client stream active usable o world)))
    unfolding connect discard_unusable kept Connection.connect Connection.discard_unusable
    connect-at c w o world stream true usable = (c, w, refl)
    connect-at c w o world (some stream) false true = (c, w, refl)
    connect-at c w o world none false true = connect_from o c w (client none false true o world)
    connect-at c w o world stream false false =
        connect_from o false w (client none false true o world)

    quit_end :
        (x : RemoteResult (Unit {0}))
        → IsTwin
            (Task.◌>>=◌ (record_result x) λ _. Task.lift x)
            (Session.◌>>=◌ (Access.record_result x) λ _. Session.lift x)
    unfolding record_result record_remote_error mark_connection_unusable Access.record_result
        Access.record_remote_error
    quit_end (ok _) = record { agrees = λ c w b. refl }
    quit_end (err e) = record {
      agrees = λ c w b. elim (Bool-cases (remote_error_requires_reconnect e)) [
        | inl broken ↦ rw broken refl
        | inr fine ↦ rw fine refl
      ];
    }

    quit-IsTwin : (stream : E.Stream) → IsTwin (quit_stream stream) (Connection.quit_stream stream)
    unfolding quit_stream Connection.quit_stream
    quit-IsTwin stream =
        bind (await (E.quit stream)) (Session.call (E.quit stream)) _ _
          (await-IsTwin (E.quit stream)) λ r. quit_end (map_err ftp_error r)

    disconnect-at :
        (c : Bool) (w : Option Bytes) (o : Options) (world : E.World) (stream : Option E.Stream)
        (active usable : Bool)
        → (after : Bool) × (greeting : Option Bytes) × (disconnect
              (calm c w (client stream active usable o world))
            ≡ calmly after greeting (Connection.disconnect (client stream active usable o world)))
    unfolding disconnect Connection.disconnect
    disconnect-at c w o world stream true usable = (c, w, refl)
    disconnect-at c w o world none false usable = (c, w, refl)
    disconnect-at c w o world (some stream) false false = (false, none, refl)
    disconnect-at c w o world (some stream) false true =
        (false, none, (quit-IsTwin stream).agrees false none (client none false true o world))

    -- A task that is never dropped connects and disconnects as the blocking client does on the same
    -- state: with the same result, and in the same state and world, but for the two fields that only
    -- the asynchronous client has.
    pub connection-Reaches :
        Reaches connect Connection.connect × Reaches disconnect Connection.disconnect
    connection-Reaches = (
      λ c w b. connect-at c w b.options b.world b.stream b.transfer_active b.connection_usable,
      λ c w b. disconnect-at c w b.options b.world b.stream b.transfer_active b.connection_usable,
    )
