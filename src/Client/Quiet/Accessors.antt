-- ===== src/Client/Quiet/Accessors.antt =====
-- What the accessors of the control stream (src/client/sync.rs) do to the client, by what they run.
use remotefs_rs_ftp.Base.{
  ◌≡◌, sym, true, false, Option, none, some, ok, err, arith, Bool-cases, Option-cases, inl, inr,
}
use remotefs_rs_ftp.Error.{FtpError}
use remotefs_rs_ftp.Remotefs.{RemoteResult}
use remotefs_rs_ftp.Suppaftp.{Suppaftp, FtpResult}
use remotefs_rs_ftp.Session.{State, Outcome, done, raised, fault, Action, ◌>>=◌, attempt}
use remotefs_rs_ftp.Client.Access.{
  busy_error, unusable_error, check_operation_state, record_ftp_error, record_remote_error,
  record_ftp_result, record_result, or_not_connected, with_stream, drop_exclusive,
  with_exclusive_stream,
}
use remotefs_rs_ftp.Client.Access.Refusing.{
  check-busy, check-ready, check-unusable, put_back, with_exclusive_stream-busy,
  with_exclusive_stream-unusable, with_exclusive_stream-missing, with_exclusive_stream-ready,
}
use remotefs_rs_ftp.Client.Quiet.{
  IsQuiet, AlwaysQuiet, IsQuiet-at, pure-Quiet, raise-Quiet, lift-Quiet, mark-Quiet, bind-Quiet,
  attempt-Quiet, if-Quiet,
}

module _ ⦃E : Suppaftp⦄ where
  pub check_operation_state-Quiet : AlwaysQuiet check_operation_state
  check_operation_state-Quiet s = elim (Bool-cases s.transfer_active) [
    | inl busy ↦ IsQuiet-at (check-busy s busy) (raise-Quiet busy_error s)
    | inr idle ↦ elim (Bool-cases s.connection_usable) [
      | inl usable ↦ IsQuiet-at (check-ready s idle usable) (pure-Quiet tt s)
      | inr bad ↦ IsQuiet-at (check-unusable s idle bad) (raise-Quiet unusable_error s)
    ]
  ]

  pub record_ftp_error-Quiet : (e : FtpError) → AlwaysQuiet (record_ftp_error e)
  unfolding record_ftp_error
  record_ftp_error-Quiet e = if-Quiet _ mark-Quiet (pure-Quiet tt)

  pub record_ftp_result-Quiet : {A : Type 0} (r : FtpResult A) → AlwaysQuiet (record_ftp_result r)
  unfolding record_ftp_result
  record_ftp_result-Quiet (ok a) = pure-Quiet tt
  record_ftp_result-Quiet (err e) = record_ftp_error-Quiet e

  pub record_result-Quiet : {A : Type 0} (r : RemoteResult A) → AlwaysQuiet (record_result r)
  unfolding record_result record_remote_error
  record_result-Quiet (ok a) = pure-Quiet tt
  record_result-Quiet (err e) = if-Quiet _ mark-Quiet (pure-Quiet tt)

  or_not_connected-Quiet : (control : Option E.Stream) → AlwaysQuiet (or_not_connected control)
  or_not_connected-Quiet none = raise-Quiet _
  or_not_connected-Quiet (some stream) = pure-Quiet stream

  pub with_stream-Quiet :
      {A : Type 0} {f : E.Stream → Action A}
      → ((stream : E.Stream) → AlwaysQuiet (f stream))
      → AlwaysQuiet (with_stream f)
  unfolding with_stream
  with_stream-Quiet p = bind-Quiet check_operation_state-Quiet λ _.
      bind-Quiet (λ s. pure-Quiet s.stream s)
        λ control. bind-Quiet (or_not_connected-Quiet control) λ stream.
          bind-Quiet (attempt-Quiet (p stream))
            λ result. bind-Quiet (record_result-Quiet result) λ _. lift-Quiet result

  put_back-Quiet :
      {A : Type 0} (stream : E.Stream) (s : State E) (y : Outcome A × State E)
      → s.stream ≡ some stream
      → s.transfer_active ≡ false
      → IsQuiet (record s { stream = none; transfer_active = true }) y
      → IsQuiet s ((attempt (λ _. y) >>= put_back stream) s)
  unfolding drop_exclusive record_result record_remote_error
  put_back-Quiet stream s (done a, s') here idle p = record {
    no_fault = tt;
    same_stream = sym here;
    same_flag = sym idle;
    same_options = p.same_options;
    still_unusable = p.still_unusable;
  }
  put_back-Quiet stream s (raised e, s') here idle p = record {
    no_fault = ground arith;
    same_stream = ground arith;
    same_flag = ground arith;
    same_options = ground (arith, p.same_options);
    still_unusable = λ h. ground (arith, p.still_unusable h);
  }
  put_back-Quiet stream s (fault x, s') here idle p = absurd p.no_fault

  pub with_exclusive_stream-Quiet :
      {A : Type 0} {f : E.Stream → Action A}
      → ((stream : E.Stream) → AlwaysQuiet (f stream))
      → AlwaysQuiet (with_exclusive_stream f)
  with_exclusive_stream-Quiet {f} p s = elim (Bool-cases s.transfer_active) [
    | inl busy ↦ IsQuiet-at (with_exclusive_stream-busy s f busy) (raise-Quiet busy_error s)
    | inr idle ↦ elim (Bool-cases s.connection_usable) [
      | inr bad ↦
          IsQuiet-at (with_exclusive_stream-unusable s f idle bad) (raise-Quiet unusable_error s)
      | inl usable ↦ elim (Option-cases s.stream) [
        | inl missing ↦
            IsQuiet-at (with_exclusive_stream-missing s f idle usable missing) (raise-Quiet _ s)
        | inr (stream, here) ↦
            let taken : State E = record s { stream = none; transfer_active = true } in
            IsQuiet-at (with_exclusive_stream-ready s f stream idle usable here)
              (put_back-Quiet stream s (f stream taken) here idle (p stream taken))
      ]
    ]
  ]
