-- ===== src/Tokio/Sync/Commands.antt =====
-- What the commands and the listings of src/client/tokio.rs leave of the control stream.
use remotefs_rs_ftp.Base.{
  ◌≡◌, refl, sym, subst, ◌∙◌, Bool, true, false, ok, err, arith, if◌then◌else◌,
}
use remotefs_rs_ftp.Error.{
  RemoteError, Response, ftp_error, transfer_setup_requires_reconnect,
  remote_error_requires_reconnect,
}
use remotefs_rs_ftp.Error.Reconnect.{reconnect-ftp_error}
use remotefs_rs_ftp.Text.{Bytes}
use remotefs_rs_ftp.Remotefs.{RemoteResult}
use remotefs_rs_ftp.Suppaftp.{Suppaftp, FtpResult}
use remotefs_rs_ftp.Session.{State, done, raised}
use remotefs_rs_ftp.Client.Connection.{is_present}
use remotefs_rs_ftp.Tokio.Runtime.{Tokio}
use remotefs_rs_ftp.Tokio.Task.{TokioState, pure, raise, ◌>>=◌, lift, await}
use remotefs_rs_ftp.Tokio.Access.{
  with_lock, mark_connection_unusable, record_ftp_error, record_ftp_result, record_remote_error,
  run_command,
}
use remotefs_rs_ftp.Tokio.Commands.{exec, exec_reply}
use remotefs_rs_ftp.Tokio.Sync.{IsReady, IsFair, Ends, Ready, IsSound, KeepsSound, bind-Ends}
use remotefs_rs_ftp.Tokio.Sync.Library.{asks_reconnect}
use remotefs_rs_ftp.Tokio.Sync.Locks.{IsLocked, same_stream, with_lock-Ends, await-Ends}

module _ ⦃E : Suppaftp⦄ (InStep : E.Stream → E.World → Type 0) where
  -- Another postcondition, and a value that a sound state comes with.
  pub weaken :
      {A : Type 0} {Q : A → State E → Type 0} {lost : State E → Type 0} (a : A) (s : TokioState E)
      → Ends InStep Q lost (done a, s)
      → IsReady InStep s.base
      → IsSound InStep s
  weaken a s h r = record { mirror = h.mirror; fair = h.fair; outcome = r }

  pub returned :
      {A : Type 0} (a : A) (s : TokioState E)
      → IsSound InStep s
      → Ends InStep {A = A} (Ready InStep) (IsReady InStep) (done a, s)
  returned a s h = record { mirror = h.mirror; fair = h.fair; outcome = h.outcome }

  pub errored :
      {A : Type 0} (e : RemoteError) (s : TokioState E)
      → IsSound InStep s
      → Ends InStep {A = A} (Ready InStep) (IsReady InStep) (raised e, s)
  errored e s h = record { mirror = h.mirror; fair = h.fair; outcome = h.outcome }

  pub lift-KeepsSound : {A : Type 0} (r : RemoteResult A) → KeepsSound InStep (lift r)
  lift-KeepsSound (ok a) s h = returned a s h
  lift-KeepsSound (err e) s h = errored e s h

  -- A mark, if it is asked for; without it the state has to be ready.
  pub marked :
      (b : Bool) (s : TokioState E)
      → s.connected ≡ is_present s.base.stream
      → IsFair InStep s.others
      → (b ≡ false → IsReady InStep s.base)
      → Ends InStep
          (Ready InStep)
          (IsReady InStep)
          ((if b then mark_connection_unusable else pure tt) s)
  unfolding mark_connection_unusable
  marked true s m f r = record {
    mirror = m;
    fair = f;
    outcome = λ c e a u. absurd (ground (arith, u));
  }
  marked false s m f r = record { mirror = m; fair = f; outcome = r refl }

  -- The reply of a command, before its failure is recorded.
  abbrev pub Answered : {A : Type 0} → FtpResult A → State E → Type 0
  Answered r b = asks_reconnect r ≡ false → IsReady InStep b

  pub recorded :
      {A : Type 0} (r : FtpResult A) (s : TokioState E) {lost : State E → Type 0}
      → Ends InStep Answered lost (done r, s)
      → Ends InStep (Ready InStep) (IsReady InStep) (record_ftp_result r s)
  unfolding record_ftp_result record_ftp_error
  recorded (ok a) s h = record { mirror = h.mirror; fair = h.fair; outcome = h.outcome refl }
  recorded (err e) s h = marked (transfer_setup_requires_reconnect e) s h.mirror h.fair h.outcome

  -- A command that settles, awaited under the lock.
  pub settled_command :
      {A : Type 0} ⦃T : Tokio E⦄ (command : E.Stream → E.World → FtpResult A × E.World)
      → ((c : E.Stream) (w : E.World)
          → InStep c w
          → asks_reconnect (command c w).0 ≡ false
          → InStep c (command c w).1)
      → (s : TokioState E) → IsSound InStep s
      → Ends InStep Answered (IsReady InStep) (with_lock (λ stream. await (command stream)) s)
  settled_command command settles s h =
      with_lock-Ends InStep (λ stream. await (command stream)) s h
        λ c t k.
          let locked : IsLocked InStep c t.base = k.outcome in
          await-Ends InStep (command c) t k.mirror k.fair λ fine d e a u.
            subst (λ z. InStep z (command c t.base.world).1)
              (same_stream c d t.base.stream locked.here e)
              (settles c t.base.world locked.in_step fine)

  pub run_command-KeepsSound :
      {A : Type 0} ⦃T : Tokio E⦄ (command : E.Stream → E.World → FtpResult A × E.World)
      → ((c : E.Stream) (w : E.World)
          → InStep c w
          → asks_reconnect (command c w).0 ≡ false
          → InStep c (command c w).1)
      → KeepsSound InStep (run_command command)
  unfolding run_command
  run_command-KeepsSound command settles s h =
      bind-Ends InStep (with_lock (λ stream. await (command stream)))
        (λ result. record_ftp_result result >>= λ _. pure result) s
        (settled_command command settles s h)
        λ result t k.
          bind-Ends InStep (record_ftp_result result) (λ _. pure result) t (recorded result t k)
            λ _ t' k'. returned result t' (weaken tt t' k' k'.outcome)

  exec_replied :
      ⦃T : Tokio E⦄ (r : FtpResult Response) (s : TokioState E)
      → Ends InStep Answered (IsReady InStep) (done r, s)
      → Ends InStep (Ready InStep) (IsReady InStep) (exec_reply r s)
  unfolding exec_reply record_remote_error
  exec_replied (ok response) s h = returned _ s (weaken (ok response) s h (h.outcome refl))
  exec_replied (err e) s h =
      bind-Ends InStep (record_remote_error (ftp_error e)) (λ _. raise (ftp_error e)) s
        (marked (remote_error_requires_reconnect (ftp_error e)) s h.mirror h.fair
          λ fine. h.outcome (sym (reconnect-ftp_error e) ∙ fine))
        λ _ t k. errored (ftp_error e) t (weaken tt t k k.outcome)

  pub exec-KeepsSound :
      ⦃T : Tokio E⦄ (cmd : Bytes)
      → ((c : E.Stream) (w : E.World)
          → InStep c w
          → asks_reconnect (E.site c cmd w).0 ≡ false
          → InStep c (E.site c cmd w).1)
      → KeepsSound InStep (exec cmd)
  unfolding exec
  exec-KeepsSound cmd settles s h =
      bind-Ends InStep (with_lock (λ stream. await (E.site stream cmd))) exec_reply s
        (settled_command (λ c. E.site c cmd) settles s h) exec_replied
