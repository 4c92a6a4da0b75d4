-- ===== src/Tokio/Sync/Establish.antt =====
-- Setting up a connection in src/client/tokio.rs: from the greeting to a control stream in step.
use remotefs_rs_ftp.Base.{
  ℕ, zero, suc, ◌≡◌, refl, Bool, true, false, List, Option, none, some, ok, err, map_err, arith,
}
use remotefs_rs_ftp.Error.{FtpError, RemoteError, ftp_error, with_source, ftp, connection_failed}
use remotefs_rs_ftp.Text.{Bytes}
use remotefs_rs_ftp.Suppaftp.{Suppaftp, FtpResult}
use remotefs_rs_ftp.Session.{Options, State, done}
use remotefs_rs_ftp.Client.Connection.{is_present, with_builder, password_or_empty}
use remotefs_rs_ftp.Tokio.Runtime.{Tokio}
use remotefs_rs_ftp.Tokio.Task.{TokioState, Task, pure, ◌>>=◌, lift, await}
use remotefs_rs_ftp.Tokio.Connection.{secure_stream, establish}
use remotefs_rs_ftp.Tokio.Sync.{IsReady, IsFair, Ends, bind-Ends}
use remotefs_rs_ftp.Tokio.Sync.Library.{is_err, IsGreeting}
use remotefs_rs_ftp.Tokio.Sync.Locks.{client_of}

module _ ⦃E : Suppaftp⦄ ⦃T : Tokio E⦄ (InStep : E.Stream → E.World → Type 0) where
  pub no_stream-IsReady : (b : State E) → b.stream ≡ none → IsReady InStep b
  no_stream-IsReady b gone c here a u = absurd (ground (arith, gone, here))

  -- A task of a client without a stream: only the value and the world matter.
  pub record Away {A : Type 0} (Q : A → E.World → Type 0) (a : A) (b : State E) : Type 0 where
    pub gone : b.stream ≡ none
    pub so : Q a b.world

  await-at :
      {A : Type 0} {Q : A → E.World → Type 0} (f : E.World → A × E.World) (b : State E) (c : Bool)
      (w : Option Bytes) (p : Option ℕ) (fs : List (State E → State E))
      → c ≡ is_present b.stream
      → IsFair InStep fs
      → b.stream ≡ none
      → Q (f b.world).0 (f b.world).1
      → Ends InStep (Away Q) (IsReady InStep) (await f (client_of b c w p fs))
  unfolding await
  await-at f b c w none fs m r gone q = record {
    mirror = m;
    fair = r;
    outcome = record { gone = gone; so = q };
  }
  await-at f b c w (some zero) fs m r gone q = record {
    mirror = m;
    fair = r;
    outcome = no_stream-IsReady (record b { world = T.cut b.world (f b.world).1 }) gone;
  }
  await-at f b c w (some (suc n)) fs m r gone q = record {
    mirror = m;
    fair = r;
    outcome = record { gone = gone; so = q };
  }

  pub await-Away :
      {A B : Type 0} {P : B → E.World → Type 0} {Q : A → E.World → Type 0}
      (f : E.World → A × E.World) (before : B) (s : TokioState E)
      → Ends InStep (Away P) (IsReady InStep) (done before, s)
      → ((w : E.World) → P before w → Q (f w).0 (f w).1)
      → Ends InStep (Away Q) (IsReady InStep) (await f s)
  await-Away f before s h p =
      await-at f s.base s.connected s.welcome s.patience s.others h.mirror h.fair h.outcome.gone
        (p s.base.world h.outcome.so)

  -- An error leaves the client without a stream, whatever it is reported as.
  lift-Away :
      {A : Type 0} {P : FtpResult A → E.World → Type 0} {Q : A → E.World → Type 0}
      (f : FtpError → RemoteError) (r : FtpResult A) (s : TokioState E)
      → Ends InStep (Away P) (IsReady InStep) (done r, s)
      → ((a : A) → r ≡ ok a → P r s.base.world → Q a s.base.world)
      → Ends InStep (Away Q) (IsReady InStep) (lift (map_err f r) s)
  lift-Away f (ok a) s h p = record {
    mirror = h.mirror;
    fair = h.fair;
    outcome = record { gone = h.outcome.gone; so = p a refl h.outcome.so };
  }
  lift-Away f (err e) s h p = record {
    mirror = h.mirror;
    fair = h.fair;
    outcome = no_stream-IsReady s.base h.outcome.gone;
  }

  module _ (greeting : IsGreeting InStep) (options : Options) where
    abbrev Answers :
        {A : Type 0} → (E.Stream → E.World → Type 0) → E.Stream → FtpResult A → E.World → Type 0
    Answers stage c r w = is_err r ≡ false → stage c w

    abbrev pub Standing : E.Stream → E.World → Type 0
    Standing c w = InStep c w

    fine : {A : Type 0} (r : FtpResult A) (a : A) → r ≡ ok a → is_err r ≡ false
    fine r a e = rw e refl

    answered :
        {A : Type 0} (stage : E.Stream → E.World → Type 0) (c : E.Stream) (r : FtpResult A)
        (s : TokioState E)
        → Ends InStep (Away (Answers stage c)) (IsReady InStep) (done r, s)
        → Ends InStep (Away λ _ w. stage c w) (IsReady InStep) (lift (map_err ftp_error r) s)
    answered stage c r s h = lift-Away ftp_error r s h λ a e k. k (fine r a e)

    built :
        (o : Option ℕ) (c : E.Stream) (w : E.World)
        → greeting.greeted c w
        → greeting.greeted (with_builder o c) w
    built none c w h = h
    built (some builder) c w h = greeting.builds builder c w h

    abbrev AfterSecure : FtpResult E.Stream → E.World → Type 0
    AfterSecure r w = (d : E.Stream) → r ≡ ok d → greeting.greeted d w

    made :
        (f : FtpError → RemoteError) (r : FtpResult E.Stream) (s : TokioState E)
        → Ends InStep (Away AfterSecure) (IsReady InStep) (done r, s)
        → Ends InStep (Away greeting.greeted) (IsReady InStep) (lift (map_err f r) s)
    made f r s h = lift-Away f r s h λ d e k. k d e

    prepared :
        (plain : E.Stream) (s : TokioState E)
        → Ends InStep (Away greeting.greeted) (IsReady InStep) (done plain, s)
        → Ends InStep
            (Away λ (_ : E.Stream) w.
              greeting.greeted
                (E.set_mode options.mode (with_builder options.passive_stream_builder plain))
                w)
            (IsReady InStep)
            (done plain, s)
    prepared plain s h = record {
      mirror = h.mirror;
      fair = h.fair;
      outcome = record {
        gone = h.outcome.gone;
        so =
            greeting.modes options.mode (with_builder options.passive_stream_builder plain)
              s.base.world (built options.passive_stream_builder plain s.base.world h.outcome.so);
      };
    }

    secure_at :
        (secure : Bool) (c : E.Stream) (s : TokioState E) {A : Type 0} (a : A)
        → Ends InStep (Away λ (_ : A) w. greeting.greeted c w) (IsReady InStep) (done a, s)
        → options.secure ≡ secure
        → Ends InStep (Away greeting.greeted) (IsReady InStep) (secure_stream options c s)
    unfolding secure_stream
    secure_at false c s a h e =
        rw (e, secure_stream)
          record {
            mirror = h.mirror;
            fair = h.fair;
            outcome = record { gone = h.outcome.gone; so = h.outcome.so };
          }
    secure_at true c s a h e =
        rw (e, secure_stream)
          (bind-Ends InStep (await (E.into_secure c options.hostname))
            (λ r. lift (map_err (λ e. with_source connection_failed (ftp e)) r)) s
            (await-Away (E.into_secure c options.hostname) a s h
              λ w k d f. greeting.secures c options.hostname w d k f)
            (made (λ e. with_source connection_failed (ftp e))))

    -- A connection that is set up has a stream that is in step.
    pub establish-Ends :
        (s : TokioState E) {A : Type 0} (a : A)
        → Ends InStep (Away λ (_ : A) w. Unit {0}) (IsReady InStep) (done a, s)
        → Ends InStep (Away Standing) (IsReady InStep) (establish options s)
    unfolding establish
    establish-Ends s a h =
        let finish : E.Stream → Task E.Stream = λ stream.
          await (E.transfer_type_binary stream) >>= λ binary.
          lift (map_err ftp_error binary) >>= λ _. pure stream in
        let log_in : E.Stream → Task E.Stream = λ stream.
          await (E.login stream options.username (password_or_empty options.password))
          >>= λ logged_in. lift (map_err ftp_error logged_in) >>= λ _. finish stream in
        let prepare : E.Stream → E.Stream =
          λ plain. E.set_mode options.mode (with_builder options.passive_stream_builder plain) in
        bind-Ends InStep (await (E.connect options.hostname options.port))
          (λ greeted. lift (map_err ftp_error greeted) >>= λ plain.
            secure_stream options (prepare plain) >>= log_in)
          s
          (await-Away {Q = AfterSecure} (E.connect options.hostname options.port) a s h
            λ w _ d e. greeting.greets options.hostname options.port w d e)
          λ greeted s1 h1.
            bind-Ends InStep (lift (map_err ftp_error greeted))
              (λ plain. secure_stream options (prepare plain) >>= log_in) s1
              (made ftp_error greeted s1 h1)
              λ plain s2 h2.
                bind-Ends InStep (secure_stream options (prepare plain)) log_in s2
                  (secure_at options.secure (prepare plain) s2 plain (prepared plain s2 h2) refl)
                  λ stream s3 h3.
                    bind-Ends InStep
                      (await (E.login stream options.username (password_or_empty options.password)))
                      (λ logged_in. lift (map_err ftp_error logged_in) >>= λ _. finish stream) s3
                      (await-Away {Q = Answers greeting.logged_in stream}
                        (E.login stream options.username (password_or_empty options.password))
                        stream s3 h3
                        λ w k fine.
                          greeting.logs_in stream options.username
                            (password_or_empty options.password) w k fine)
                      λ logged_in s4 h4.
                        bind-Ends InStep (lift (map_err ftp_error logged_in)) (λ _. finish stream)
                          s4 (answered greeting.logged_in stream logged_in s4 h4)
                          λ u s5 h5.
                            bind-Ends InStep (await (E.transfer_type_binary stream))
                              (λ binary. lift (map_err ftp_error binary) >>= λ _. pure stream) s5
                              (await-Away {Q = Answers InStep stream}
                                (E.transfer_type_binary stream) u s5 h5
                                λ w k fine. greeting.to_binary stream w k fine)
                              λ binary s6 h6.
                                bind-Ends InStep (lift (map_err ftp_error binary))
                                  (λ _. pure stream) s6 (answered InStep stream binary s6 h6)
                                  λ _ s7 h7. record {
                                    mirror = h7.mirror;
                                    fair = h7.fair;
                                    outcome = record { gone = h7.outcome.gone; so = h7.outcome.so };
                                  }
