-- ===== src/Client/Streams/Starting.antt =====
-- What starting a transfer under the lock in src/client/sync.rs does to the flag of the transfers.
use remotefs_rs_ftp.Base.{ℕ, refl, Bool, true, false, ok, err, ltb, leb}
use remotefs_rs_ftp.Error.{ftp_error}
use remotefs_rs_ftp.Text.{Bytes}
use remotefs_rs_ftp.Suppaftp.{Suppaftp, FtpResult, DataReply}
use remotefs_rs_ftp.Session.{State, Outcome, done, raised, fault, ◌>>=◌, pure}
use remotefs_rs_ftp.Client.Quiet.{
  AlwaysQuiet, pure-Quiet, raise-Quiet, lift-Quiet, call-Quiet, mark-Quiet, call_data-Quiet,
  bind-Quiet, bool-Quiet, result-Quiet,
}
use remotefs_rs_ftp.Client.Quiet.Accessors.{record_ftp_result-Quiet}
use remotefs_rs_ftp.Client.Streams.{
  marker_outcome, resume_at, retry_without_marker, start_transfer, with_flag, retrieve, send,
}
use remotefs_rs_ftp.Client.Streams.Flags.{IsOpening, Opens, is_ok, IsOpening-relabel, quiet-Opens}

module _ ⦃E : Suppaftp⦄ where
  start_transfer-Opens : {A : Type 0} (result : FtpResult A) → Opens is_ok (start_transfer result)
  unfolding start_transfer
  start_transfer-Opens (ok a) s = record {
    no_fault = tt;
    same_stream = refl;
    same_options = refl;
    still_unusable = λ h. h;
    flag = refl;
  }
  start_transfer-Opens (err e) s = record {
    no_fault = tt;
    same_stream = refl;
    same_options = refl;
    still_unusable = λ h. h;
    flag = refl;
  }

  pub send-Opens :
      (command : E.Stream → Bytes → E.World → DataReply E.Transfer × E.World) (remote : Bytes)
      (stream : E.Stream)
      → Opens is_ok (send command remote stream)
  unfolding send
  send-Opens command remote stream =
      quiet-Opens (call_data-Quiet (command stream remote))
        λ result. quiet-Opens (record_ftp_result-Quiet result) λ _. start_transfer-Opens result

  -- The result of a start, with the flag of the marker.
  marked_next :
      {A : Type 0} (s : State E) (x : Outcome (FtpResult A) × State E) (marked : Bool)
      → IsOpening is_ok s x
      → IsOpening is_ok s (((λ _. x) >>= λ started. pure (with_flag started marked)) s)
  marked_next s (done (ok a), s') marked p = IsOpening-relabel _ p tt refl
  marked_next s (done (err e), s') marked p = IsOpening-relabel _ p tt refl
  marked_next s (raised e, s') marked p = IsOpening-relabel _ p tt refl
  marked_next s (fault f, s') marked p = absurd p.no_fault

  resume_at-Quiet : (stream : E.Stream) (offset : ℕ) → AlwaysQuiet (resume_at stream offset)
  unfolding resume_at
  resume_at-Quiet stream offset =
      bool-Quiet (ltb 0 offset) {n = pure false}
        (λ _.
          bool-Quiet (leb offset E.usize_max) {n = pure false}
            (λ _.
              bind-Quiet (call-Quiet (E.resume_transfer stream offset))
                λ result. lift-Quiet (marker_outcome result))
            λ _. pure-Quiet false)
        λ _. pure-Quiet false

  retry-Quiet :
      (stream : E.Stream) (remote : Bytes) (resumed : Bool) (result : FtpResult E.Transfer)
      → AlwaysQuiet (retry_without_marker stream remote resumed result)
  unfolding retry_without_marker
  retry-Quiet stream remote true (err refused) =
      bind-Quiet (call-Quiet (E.resume_transfer stream 0)) λ reset.
        result-Quiet reset
          (λ _ _.
            bind-Quiet (call_data-Quiet (E.retr_as_stream stream remote))
              λ again. pure-Quiet (again, false))
          λ error. bind-Quiet mark-Quiet λ _. raise-Quiet (ftp_error error)
  retry-Quiet stream remote true (ok t) = pure-Quiet (ok t, true)
  retry-Quiet stream remote false result = pure-Quiet (result, false)

  pub retrieve-Opens :
      (remote : Bytes) (offset : ℕ) (stream : E.Stream)
      → Opens is_ok (retrieve remote offset stream)
  unfolding retrieve
  retrieve-Opens remote offset stream = quiet-Opens (resume_at-Quiet stream offset) λ resumed.
      quiet-Opens (call_data-Quiet (E.retr_as_stream stream remote)) λ first.
        quiet-Opens (retry-Quiet stream remote resumed first) λ x.
          quiet-Opens (record_ftp_result-Quiet x.0)
            λ _ s. marked_next s (start_transfer x.0 s) x.1 (start_transfer-Opens x.0 s)
