-- ===== src/Tokio/Sync/Opened.antt =====
-- Under the lock of src/client/tokio.rs: what is left of the client once a transfer has been opened.
use remotefs_rs_ftp.Base.{◌≡◌, refl, Bool, true, false, Option, some, ok, err}
use remotefs_rs_ftp.Error.{transfer_setup_requires_reconnect}
use remotefs_rs_ftp.Text.{Bytes}
use remotefs_rs_ftp.Suppaftp.{Suppaftp, FtpResult, DataReply}
use remotefs_rs_ftp.Session.{State, Outcome, done, raised, fault}
use remotefs_rs_ftp.Client.Streams.{with_flag}
use remotefs_rs_ftp.Tokio.Runtime.{Tokio}
use remotefs_rs_ftp.Tokio.Task.{TokioState, pure, ◌>>=◌, await_data}
use remotefs_rs_ftp.Tokio.Access.{record_ftp_result, record_ftp_error}
use remotefs_rs_ftp.Tokio.Streams.{resume_at, retry_without_marker, start_transfer, retrieve, send}
use remotefs_rs_ftp.Tokio.Sync.{IsReady, Ends, AnyState, bind-Ends}
use remotefs_rs_ftp.Tokio.Sync.Library.{Opens}
use remotefs_rs_ftp.Tokio.Sync.Locks.{IsLocked}
use remotefs_rs_ftp.Tokio.Sync.Commands.{marked}
use remotefs_rs_ftp.Tokio.Sync.Listings.{Opened, data_command}

module _ ⦃E : Suppaftp⦄ ⦃T : Tokio E⦄ (InStep : E.Stream → E.World → Type 0)
    (IsOpenOn : E.Stream → E.Transfer → E.World → Type 0) where
  -- The client is busy with the transfer.
  abbrev pub Carries : E.Transfer → State E → Type 0
  Carries t b =
      (b.transfer_active ≡ true)
      × ((c : E.Stream) → b.stream ≡ some c → b.connection_usable ≡ true → IsOpenOn c t b.world)

  -- The stream that was handed out has it.
  abbrev pub HeldBy : Option E.Transfer → State E → Type 0
  HeldBy inner b = (t : E.Transfer) × (inner ≡ some t) × Carries t b

  abbrev Recorded : FtpResult E.Transfer → State E → Type 0
  Recorded (ok t) b = Opened InStep IsOpenOn (ok t) b
  Recorded (err e) b = IsReady InStep b

  abbrev pub Sent : FtpResult E.Transfer → State E → Type 0
  Sent (ok t) b = Carries t b
  Sent (err e) b = IsReady InStep b

  forget_lost :
      {A : Type 0} {Q : A → State E → Type 0} {lost : State E → Type 0}
      (x : Outcome A × TokioState E)
      → Ends InStep Q lost x
      → Ends InStep Q AnyState x
  forget_lost (done a, s) h = record { mirror = h.mirror; fair = h.fair; outcome = h.outcome }
  forget_lost (raised e, s) h = record { mirror = h.mirror; fair = h.fair; outcome = h.outcome }
  forget_lost (fault x, s) h = record { mirror = h.mirror; fair = h.fair; outcome = tt }

  record_ftp_result-Recorded :
      (r : FtpResult E.Transfer) (s : TokioState E)
      → Ends InStep (Opened InStep IsOpenOn) AnyState (done r, s)
      → Ends InStep (λ _. Recorded r) AnyState (record_ftp_result r s)
  unfolding record_ftp_result record_ftp_error
  record_ftp_result-Recorded (ok t) s h = record {
    mirror = h.mirror;
    fair = h.fair;
    outcome = h.outcome;
  }
  record_ftp_result-Recorded (err e) s h = forget_lost (record_ftp_error e s) (
      marked InStep (transfer_setup_requires_reconnect e) s h.mirror h.fair
        λ fine c here a u. h.outcome.1 c here a u fine)

  start-Sent :
      (r : FtpResult E.Transfer) (s : TokioState E)
      → Ends InStep {A = Unit {0}} (λ _. Recorded r) AnyState (done tt, s)
      → Ends InStep Sent AnyState (start_transfer r s)
  unfolding start_transfer
  start-Sent (ok t) s h = record {
    mirror = h.mirror;
    fair = h.fair;
    outcome = (refl, λ c here u. h.outcome.1 c here h.outcome.0 u);
  }
  start-Sent (err e) s h = record { mirror = h.mirror; fair = h.fair; outcome = h.outcome }

  -- A data command under the lock, its failure recorded, and its transfer started.
  pub send-Sent :
      (command : E.Stream → Bytes → E.World → DataReply E.Transfer × E.World) (remote : Bytes)
      → Opens T InStep IsOpenOn (λ c. command c remote)
      → (c : E.Stream) (s : TokioState E) {lost : State E → Type 0}
      → Ends InStep (IsLocked InStep) lost (done c, s)
      → Ends InStep Sent AnyState (send command remote c s)
  unfolding send
  send-Sent command remote opens c s h =
      bind-Ends InStep (await_data (command c remote))
        (λ r. record_ftp_result r >>= λ _. start_transfer r) s
        (data_command InStep IsOpenOn (λ d. command d remote) opens c s h)
        λ r s1 h1.
          bind-Ends InStep (record_ftp_result r) (λ _. start_transfer r) s1
            (record_ftp_result-Recorded r s1 h1) λ _ s2 h2. start-Sent r s2 h2

  abbrev pub Retrieved : FtpResult (E.Transfer × Bool) → State E → Type 0
  Retrieved (ok (t, resumed)) b = Carries t b
  Retrieved (err e) b = IsReady InStep b

  with_flag-Retrieved :
      (r : FtpResult E.Transfer) (resumed : Bool) (b : State E)
      → Sent r b
      → Retrieved (with_flag r resumed) b
  with_flag-Retrieved (ok t) resumed b h = h
  with_flag-Retrieved (err e) resumed b h = h

  -- `RETR` from the start.
  pub retrieve-Retrieved :
      (remote : Bytes)
      → Opens T InStep IsOpenOn (λ c. E.retr_as_stream c remote)
      → (c : E.Stream) (s : TokioState E) {lost : State E → Type 0}
      → Ends InStep (IsLocked InStep) lost (done c, s)
      → Ends InStep Retrieved AnyState (retrieve remote 0 c s)
  unfolding retrieve resume_at retry_without_marker
  retrieve-Retrieved remote opens c s h =
      bind-Ends InStep (await_data (E.retr_as_stream c remote))
        (λ r. record_ftp_result r >>= λ _. start_transfer r >>= λ x. pure (with_flag x false)) s
        (data_command InStep IsOpenOn (λ d. E.retr_as_stream d remote) opens c s h)
        λ r s1 h1.
          bind-Ends InStep (record_ftp_result r)
            (λ _. start_transfer r >>= λ x. pure (with_flag x false)) s1
            (record_ftp_result-Recorded r s1 h1)
            λ _ s2 h2.
              bind-Ends InStep (start_transfer r) (λ x. pure (with_flag x false)) s2
                (start-Sent r s2 h2)
                λ x s3 h3. record {
                  mirror = h3.mirror;
                  fair = h3.fair;
                  outcome = with_flag-Retrieved x false s3.base h3.outcome;
                }
