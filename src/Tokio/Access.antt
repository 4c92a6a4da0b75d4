-- ===== src/Tokio/Access.antt =====
-- src/client/tokio.rs: how the operations of `TokioFtpFs` reach the control stream, and the guard of an
-- operation that is dropped while it runs.
use remotefs_rs_ftp.Base.{Bool, true, false, not, ◌||◌, Option, none, some, ok, err, if◌then◌else◌}
use remotefs_rs_ftp.Error.{
  FtpError, RemoteError, new, not_connected, transfer_setup_requires_reconnect,
  remote_error_requires_reconnect,
}
use remotefs_rs_ftp.Text.{Bytes}
use remotefs_rs_ftp.Remotefs.{RemoteResult}
use remotefs_rs_ftp.Suppaftp.{Suppaftp, FtpResult}
use remotefs_rs_ftp.Session.{Outcome, done, raised, fault, set_connection_usable}
use remotefs_rs_ftp.Client.Access.{busy_error, unusable_error}
use remotefs_rs_ftp.Tokio.Runtime.{Tokio}
use remotefs_rs_ftp.Tokio.Task.{
  TokioState, Task, pure, raise, ◌>>=◌, ◌>>◌, sync, wait_for_lock, await,
}

module _ ⦃E : Suppaftp⦄ where
  -- The accessor `stream`.
  unfoldable pub stream : TokioState E → Option E.Stream
  stream s = if s.base.transfer_active || not s.base.connection_usable then none else s.base.stream

  unfoldable pub welcome_message : TokioState E → Option Bytes
  welcome_message s = s.welcome

  unfoldable pub check_operation_state : Task (Unit {0})
  check_operation_state s =
      if s.base.transfer_active
      then raise busy_error s
      else if s.base.connection_usable
      then pure tt s
      else raise unusable_error s

  unfoldable pub mark_connection_unusable : Task (Unit {0})
  mark_connection_unusable = sync (set_connection_usable false)

  unfoldable pub record_ftp_error : FtpError → Task (Unit {0})
  unfolding mark_connection_unusable
  record_ftp_error error =
      if transfer_setup_requires_reconnect error then mark_connection_unusable else pure tt

  unfoldable pub record_remote_error : RemoteError → Task (Unit {0})
  unfolding mark_connection_unusable
  record_remote_error error =
      if remote_error_requires_reconnect error then mark_connection_unusable else pure tt

  -- `if let Err(error) = &result { self.record_…(error) }`.
  unfoldable pub record_ftp_result : {A : Type 0} → FtpResult A → Task (Unit {0})
  unfolding record_ftp_error
  record_ftp_result (ok a) = pure tt
  record_ftp_result (err error) = record_ftp_error error

  unfoldable pub record_result : {A : Type 0} → RemoteResult A → Task (Unit {0})
  unfolding record_remote_error
  record_result (ok a) = pure tt
  record_result (err error) = record_remote_error error

  abbrev pub or_not_connected : Option E.Stream → Task E.Stream
  or_not_connected none = raise (new not_connected)
  or_not_connected (some stream) = pure stream

  abbrev pub control : Task (Option E.Stream)
  control s = (done s.base.stream, s)

  -- The control stream, under the lock.
  unfoldable pub lock_stream : Task E.Stream
  unfolding wait_for_lock check_operation_state
  lock_stream = do wait_for_lock; check_operation_state; found ← control; or_not_connected found

  -- `OperationGuard::drop`.
  unfoldable pub drop_operation_guard : Bool → Task (Unit {0})
  unfolding mark_connection_unusable
  drop_operation_guard true = pure tt
  drop_operation_guard false = mark_connection_unusable

  -- Every operation calls `complete` on the guard before it returns, also with an error; a future
  -- that is dropped has not got there.
  abbrev pub is_completed : {A : Type 0} → Outcome A → Bool
  is_completed (done a) = true
  is_completed (raised e) = true
  is_completed (fault f) = false

  -- What runs while an operation guard lives.
  unfoldable pub guarded : {A : Type 0} → Task A → Task A
  unfolding drop_operation_guard
  guarded m s =
      let (r, s') = m s in let (dropped, s'') = drop_operation_guard (is_completed r) s' in (r, s'')

  -- A `StreamGuard`: the stream under the lock, with the guard of the operation.
  unfoldable pub with_lock : {A : Type 0} → (E.Stream → Task A) → Task A
  unfolding lock_stream guarded
  with_lock f = do stream ← lock_stream; guarded (f stream)

  module _ ⦃T : Tokio E⦄ where
    -- The failure is recorded once the lock is released.
    unfoldable pub run_command :
        {A : Type 0} → (E.Stream → E.World → FtpResult A × E.World) → Task (FtpResult A)
    unfolding with_lock await record_ftp_result
    run_command command = do
      result ← with_lock (λ stream. await (command stream))
      record_ftp_result result
      pure result
