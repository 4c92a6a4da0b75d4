-- ===== src/Tokio/Calm/Commands.antt =====
-- The commands of src/client/tokio.rs on a calm client, beside those of src/client/sync.rs.
use remotefs_rs_ftp.Base.{
  ◌≡◌, refl, ap, sym, ◌∙◌, Bool, true, false, Option, none, some, ok, err, arith, if◌then◌else◌,
}
use remotefs_rs_ftp.Error.{FtpError, Response, ftp_error, transfer_setup_requires_reconnect}
use remotefs_rs_ftp.Text.{Bytes}
use remotefs_rs_ftp.Suppaftp.{Suppaftp, FtpResult}
use remotefs_rs_ftp.Session.{Options, State, Outcome, done, raised, fault, Action}
use remotefs_rs_ftp.Session
use remotefs_rs_ftp.Client.Access
use remotefs_rs_ftp.Client.Commands
use remotefs_rs_ftp.Client.Commands.{ExecOutput, exec_output}
use remotefs_rs_ftp.Tokio.Runtime.{Tokio}
use remotefs_rs_ftp.Tokio.Task
use remotefs_rs_ftp.Tokio.Task.{TokioState, Task, wait_for_lock, await}
use remotefs_rs_ftp.Tokio.Access.{
  with_lock, lock_stream, check_operation_state, guarded, drop_operation_guard, run_command,
  record_ftp_result, record_ftp_error, record_remote_error, mark_connection_unusable,
}
use remotefs_rs_ftp.Tokio.Commands.{exec, exec_reply}
use remotefs_rs_ftp.Tokio.Calm.{calm, calmly, Agrees}

module _ ⦃E : Suppaftp⦄ where
  abbrev pub client : Option E.Stream → Bool → Bool → Options → E.World → State E
  client stream active usable options world = record {
    stream = stream;
    transfer_active = active;
    connection_usable = usable;
    options = options;
    world = world;
  }

module _ ⦃E : Suppaftp⦄ where
  abbrev exec_answer : FtpResult Response → Action Response
  exec_answer result = elim result [
    | ok response ↦ Session.pure response
    | err error ↦ Session.raise (ftp_error error)
  ]

module _ ⦃E : Suppaftp⦄ (c : Bool) (w : Option Bytes) (o : Options) (world : E.World) where
  pub idle-at :
      {A : Type 0} (a : A) (stream : Option E.Stream) (active usable : Bool)
      → with_lock (λ _. Task.pure a) (calm c w (client stream active usable o world))
        ≡ calmly c w
            (Access.with_stream (λ _. Session.pure a) (client stream active usable o world))
  unfolding with_lock lock_stream wait_for_lock check_operation_state guarded drop_operation_guard
      Access.with_stream Access.check_operation_state Access.record_result
  idle-at a stream true usable = refl
  idle-at a stream false false = refl
  idle-at a none false true = refl
  idle-at a (some stream) false true = refl

  module _ ⦃T : Tokio E⦄ where
    run_const :
        {A : Type 0} (stream : E.Stream) (x : FtpResult A × E.World)
        → run_command (λ _ _. x) (calm c w (client (some stream) false true o world))
          ≡ calmly c w (Commands.run_command (λ _ _. x) (client (some stream) false true o world))
    unfolding run_command with_lock lock_stream wait_for_lock check_operation_state guarded
        drop_operation_guard await record_ftp_result record_ftp_error mark_connection_unusable
        Commands.run_command Access.with_stream Access.check_operation_state Access.record_result
        Access.record_ftp_result Access.record_ftp_error
    run_const stream (ok a, world') = refl
    run_const stream (err e, world') = ground arith

    pub run_command-at :
        {A : Type 0} (command : E.Stream → E.World → FtpResult A × E.World)
        (stream : Option E.Stream) (active usable : Bool)
        → run_command command (calm c w (client stream active usable o world))
          ≡ calmly c w (Commands.run_command command (client stream active usable o world))
    unfolding run_command with_lock lock_stream wait_for_lock check_operation_state guarded
        drop_operation_guard await record_ftp_result record_ftp_error mark_connection_unusable
        Commands.run_command Access.with_stream Access.check_operation_state Access.record_result
        Access.record_ftp_result Access.record_ftp_error
    run_command-at command stream true usable = refl
    run_command-at command stream false false = refl
    run_command-at command none false true = refl
    run_command-at command (some stream) false true = run_const stream (command stream world)

    exec_const :
        (stream : E.Stream) (x : FtpResult Response × E.World)
        → Task.◌>>=◌
            (with_lock (λ _. await (λ _. x)))
            exec_reply
            (calm c w (client (some stream) false true o world))
          ≡ calmly c w (
              Session.◌>>=◌
                (Access.with_stream λ _. Session.◌>>=◌ (Session.call (λ _. x)) exec_answer)
                (λ response. Session.pure (exec_output response))
                (client (some stream) false true o world))
    unfolding with_lock lock_stream wait_for_lock check_operation_state guarded drop_operation_guard
        await exec_reply record_remote_error mark_connection_unusable Access.with_stream
        Access.check_operation_state Access.record_result Access.record_remote_error
    exec_const stream (ok response, world') = refl
    exec_const stream (err e, world') = ground arith

    pub exec-at :
        (cmd : Bytes) (stream : Option E.Stream) (active usable : Bool)
        → exec cmd (calm c w (client stream active usable o world))
          ≡ calmly c w (Commands.exec cmd (client stream active usable o world))
    unfolding exec with_lock lock_stream wait_for_lock check_operation_state guarded
        drop_operation_guard await exec_reply record_remote_error mark_connection_unusable
        Commands.exec Access.with_stream Access.check_operation_state Access.record_result
        Access.record_remote_error
    exec-at cmd stream true usable = refl
    exec-at cmd stream false false = refl
    exec-at cmd none false true = refl
    exec-at cmd (some stream) false true = exec_const stream (E.site stream cmd world)

    -- The client after a failed command.
    abbrev recorded : E.Stream → FtpError → E.World → State E
    recorded stream e world' =
        client (some stream) false (if transfer_setup_requires_reconnect e then false else true) o
          world'

    run_err :
        (stream : E.Stream) (e : FtpError) (world' : E.World)
        → Commands.run_command {A = Unit {0}}
            (λ _ _. (err e, world'))
            (client (some stream) false true o world)
          ≡ (done (err e), recorded stream e world')
    unfolding Commands.run_command Access.with_stream Access.check_operation_state
        Access.record_result Access.record_ftp_result Access.record_ftp_error
    run_err stream e world' = ground arith

    run_err_task :
        (stream : E.Stream) (e : FtpError) (world' : E.World)
        → run_command {A = Unit {0}}
            (λ _ _. (err e, world'))
            (calm c w (client (some stream) false true o world))
          ≡ calmly c w (done (err e), recorded stream e world')
    run_err_task stream e world' =
        run_const stream (err e, world') ∙ ap (calmly c w) (run_err stream e world')

    record_again :
        (stream : E.Stream) (e : FtpError) (world' : E.World)
        → Access.record_ftp_result {A = Unit {0}} (err e) (recorded stream e world')
          ≡ (done tt, recorded stream e world')
    unfolding Access.record_ftp_result Access.record_ftp_error
    record_again stream e world' = ground arith

    -- A command whose failure is recorded once, and twice.
    rmdir_const :
        (stream : E.Stream) (x : FtpResult (Unit {0}) × E.World)
        (f : FtpResult (Unit {0}) → Task (Unit {0})) (g : FtpResult (Unit {0}) → Action (Unit {0}))
        → ((y : FtpResult (Unit {0})) → Agrees (Unit {0}) (f y) (g y))
        → Task.◌>>=◌ (run_command (λ _ _. x)) f (calm c w (client (some stream) false true o world))
          ≡ calmly c w (
              Session.◌>>=◌
                (Commands.run_command (λ _ _. x))
                (λ y. Session.◌>>=◌ (Access.record_ftp_result y) λ _. g y)
                (client (some stream) false true o world))
    unfolding run_command with_lock lock_stream wait_for_lock check_operation_state guarded
        drop_operation_guard await record_ftp_result record_ftp_error mark_connection_unusable
        Commands.run_command Access.with_stream Access.check_operation_state Access.record_result
        Access.record_ftp_result Access.record_ftp_error
    rmdir_const stream (ok a, world') f g p =
        p (ok a) c w (client (some stream) false true o world')
    rmdir_const stream (err e, world') f g p =
        let s : State E = client (some stream) false true o world in
        let s' : State E = recorded stream e world' in
        ap (λ x. Task.◌>>=◌ (λ _. x) f (calm c w s)) (run_err_task stream e world')
        ∙ p (err e) c w s'
        ∙ ap (λ x. calmly c w (Session.◌>>=◌ (λ _. x) (λ _. g (err e)) s))
            (sym (record_again stream e world'))
        ∙ ap
            (λ x.
              calmly c w (
                Session.◌>>=◌ (λ _. x) (λ y. Session.◌>>=◌ (Access.record_ftp_result y) λ _. g y)
                  s))
            (sym (run_err stream e world'))

    pub rmdir-at :
        (command : E.Stream → E.World → FtpResult (Unit {0}) × E.World)
        (f : FtpResult (Unit {0}) → Task (Unit {0})) (g : FtpResult (Unit {0}) → Action (Unit {0}))
        → ((y : FtpResult (Unit {0})) → Agrees (Unit {0}) (f y) (g y))
        → (stream : Option E.Stream) (active usable : Bool)
        → Task.◌>>=◌ (run_command command) f (calm c w (client stream active usable o world))
          ≡ calmly c w (
              Session.◌>>=◌
                (Commands.run_command command)
                (λ y. Session.◌>>=◌ (Access.record_ftp_result y) λ _. g y)
                (client stream active usable o world))
    unfolding run_command with_lock lock_stream wait_for_lock check_operation_state guarded
        drop_operation_guard await record_ftp_result record_ftp_error mark_connection_unusable
        Commands.run_command Access.with_stream Access.check_operation_state Access.record_result
        Access.record_ftp_result Access.record_ftp_error
    rmdir-at command f g p stream true usable = refl
    rmdir-at command f g p stream false false = refl
    rmdir-at command f g p none false true = refl
    rmdir-at command f g p (some stream) false true =
        rmdir_const stream (command stream world) f g p
