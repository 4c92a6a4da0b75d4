-- ===== src/Client/Access.antt =====
-- src/client/sync.rs: how the private methods of `FtpFs` reach the control stream.
pub mod Refusing
use mathlib.Core.Option
use remotefs_rs_ftp.Base.{
  Bool, true, false, not, ◌||◌, Option, none, some, Result, ok, err, if◌then◌else◌,
}
use remotefs_rs_ftp.Error.{
  FtpError, RemoteError, new, with_message, protocol_error, connection_failed, not_connected,
  transfer_setup_requires_reconnect, remote_error_requires_reconnect,
}
use remotefs_rs_ftp.Text.{Bytes}
use remotefs_rs_ftp.Remotefs.{RemoteResult}
use remotefs_rs_ftp.Suppaftp.{Suppaftp, FtpResult}
use remotefs_rs_ftp.Session.{
  State, Outcome, Action, ◌>>=◌, ◌>>◌, pure, raise, lift, attempt, gets, set_stream,
  set_transfer_active, mark_connection_unusable,
}

abbrev pub busy_error : RemoteError
busy_error =
    with_message protocol_error "a data transfer is in progress; finish or drop its stream first"

abbrev pub unusable_error : RemoteError
unusable_error =
    with_message connection_failed "the control connection is unusable; reconnect before retrying"

module _ ⦃E : Suppaftp⦄ where
  -- The accessor `stream`.
  unfoldable pub stream : State E → Option E.Stream
  stream s = if s.transfer_active || not s.connection_usable then none else s.stream

  unfoldable pub welcome_message : State E → Option Bytes
  welcome_message s = elim s.stream [ none ↦ none | some stream ↦ E.get_welcome_msg stream ]

  unfoldable pub check_operation_state : Action (Unit {0})
  check_operation_state s =
      if s.transfer_active
      then raise busy_error s
      else if s.connection_usable
      then pure tt s
      else raise unusable_error s

  unfoldable pub record_ftp_error : FtpError → Action (Unit {0})
  record_ftp_error error =
      if transfer_setup_requires_reconnect error then mark_connection_unusable else pure tt

  unfoldable pub record_remote_error : RemoteError → Action (Unit {0})
  record_remote_error error =
      if remote_error_requires_reconnect error then mark_connection_unusable else pure tt

  -- `if let Err(error) = &result { self.record_…(error) }`.
  unfoldable pub record_ftp_result : {A : Type 0} → FtpResult A → Action (Unit {0})
  unfolding record_ftp_error
  record_ftp_result (ok a) = pure tt
  record_ftp_result (err error) = record_ftp_error error

  unfoldable pub record_result : {A : Type 0} → RemoteResult A → Action (Unit {0})
  unfolding record_remote_error
  record_result (ok a) = pure tt
  record_result (err error) = record_remote_error error

  abbrev pub or_not_connected : Option E.Stream → Action E.Stream
  or_not_connected none = raise (new not_connected)
  or_not_connected (some stream) = pure stream

  unfoldable pub with_stream : {R : Type 0} → (E.Stream → Action R) → Action R
  unfolding check_operation_state record_result
  with_stream f = do
    check_operation_state
    control ← gets (λ s. s.stream)
    stream ← or_not_connected control
    result ← attempt (f stream)
    record_result result
    lift result

  -- `ExclusiveStream::drop`.
  unfoldable pub drop_exclusive : E.Stream → Action (Unit {0})
  drop_exclusive stream = do set_stream (some stream); set_transfer_active false

  -- The control stream is taken out of the client while `f` runs on it.
  unfoldable pub with_exclusive_stream : {R : Type 0} → (E.Stream → Action R) → Action R
  unfolding check_operation_state record_result drop_exclusive
  with_exclusive_stream f = do
    check_operation_state
    control ← gets (λ s. s.stream)
    stream ← or_not_connected control
    set_stream none
    set_transfer_active true
    result ← attempt (f stream)
    record_result result
    drop_exclusive stream
    lift result
