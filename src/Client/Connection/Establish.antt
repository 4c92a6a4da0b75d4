-- ===== src/Client/Connection/Establish.antt =====
-- What the dialogue that sets up a control connection in src/client/sync.rs does to the client.
use remotefs_rs_ftp.Base.{◌≡◌, refl, ap, ◌∙◌, true, false, Bool, ok, err, map_err}
use remotefs_rs_ftp.Error.{ftp_error, with_source, ftp, connection_failed}
use remotefs_rs_ftp.Remotefs.{RemoteResult}
use remotefs_rs_ftp.Suppaftp.{Suppaftp}
use remotefs_rs_ftp.Session.{
  Options, State, Outcome, done, raised, fault, IsNoFault, Action, ◌>>=◌, pure, lift, call,
}
use remotefs_rs_ftp.Client.Connection.{establish, secure_stream, with_builder, password_or_empty}

module _ ⦃E : Suppaftp⦄ where
  -- The action ended without a fault, in the same client.
  pub record IsRemote {A : Type 0} (s : State E) (x : Outcome A × State E) : Type 0 where
    pub no_fault : IsNoFault x.0
    pub same_client : x.1 ≡ record s { world = (x.1).world }

  abbrev pub AlwaysRemote : {A : Type 0} → Action A → Type 0
  AlwaysRemote m = (s : State E) → IsRemote s (m s)

  pure-Remote : {A : Type 0} (a : A) → AlwaysRemote (pure a)
  pure-Remote a s = record { no_fault = tt; same_client = refl }

  lift-Remote : {A : Type 0} (r : RemoteResult A) → AlwaysRemote (lift r)
  lift-Remote (ok a) s = record { no_fault = tt; same_client = refl }
  lift-Remote (err e) s = record { no_fault = tt; same_client = refl }

  call-Remote : {A : Type 0} (f : E.World → A × E.World) → AlwaysRemote (call f)
  call-Remote f s = record { no_fault = tt; same_client = refl }

  bind_next :
      {A B : Type 0} (s : State E) (x : Outcome A × State E) (f : A → Action B)
      → IsRemote s x
      → ((a : A) → AlwaysRemote (f a))
      → IsRemote s (((λ _. x) >>= f) s)
  bind_next s (done a, s') f p q =
      let next = q a s' in
      record {
        no_fault = next.no_fault;
        same_client =
            next.same_client
            ∙ ap {A = State E} (λ t. record t { world = ((f a s').1).world }) p.same_client;
      }
  bind_next s (raised e, s') f p q = record { no_fault = tt; same_client = p.same_client }
  bind_next s (fault x, s') f p q = absurd p.no_fault

  bind-Remote :
      {A B : Type 0} {m : Action A} {f : A → Action B}
      → AlwaysRemote m
      → ((a : A) → AlwaysRemote (f a))
      → AlwaysRemote (m >>= f)
  bind-Remote {m} {f} p q s = bind_next s (m s) f (p s) q

  when_secure-Remote :
      {A : Type 0} (b : Bool) {m n : Action A}
      → AlwaysRemote m
      → AlwaysRemote n
      → AlwaysRemote (elim b [ true ↦ m | false ↦ n ])
  when_secure-Remote true p q = p
  when_secure-Remote false p q = q

  secure_stream-Remote :
      (options : Options) (stream : E.Stream) → AlwaysRemote (secure_stream options stream)
  unfolding secure_stream
  secure_stream-Remote options stream =
      when_secure-Remote options.secure
        (bind-Remote (call-Remote (E.into_secure stream options.hostname))
          λ secured. lift-Remote (map_err (λ e. with_source connection_failed (ftp e)) secured))
        (pure-Remote stream)

  pub establish-Remote : (options : Options) → AlwaysRemote (establish options)
  unfolding establish
  establish-Remote options =
      bind-Remote (call-Remote (E.connect options.hostname options.port)) λ greeted.
        bind-Remote (lift-Remote (map_err ftp_error greeted)) λ plain.
          bind-Remote
            (secure_stream-Remote options
              (E.set_mode options.mode (with_builder options.passive_stream_builder plain)))
            λ stream.
              bind-Remote
                (call-Remote (E.login stream options.username (password_or_empty options.password)))
                λ logged_in. bind-Remote (lift-Remote (map_err ftp_error logged_in)) λ _.
                  bind-Remote (call-Remote (E.transfer_type_binary stream)) λ binary.
                    bind-Remote (lift-Remote (map_err ftp_error binary)) λ _. pure-Remote stream
