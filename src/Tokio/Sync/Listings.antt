-- ===== src/Tokio/Sync/Listings.antt =====
-- What a listing of src/client/tokio.rs leaves of the control stream.
use remotefs_rs_ftp.Base.{
  ◌≡◌, refl, subst, Bool, true, false, List, ok, err, map_err, arith, if◌then◌else◌,
}
use remotefs_rs_ftp.Error.{ftp_error}
use remotefs_rs_ftp.Text.{Bytes}
use remotefs_rs_ftp.Wire.Safety.{IsOneLine}
use remotefs_rs_ftp.FilePath.{FilePath}
use remotefs_rs_ftp.Remotefs.{Remotefs, RemoteResult}
use remotefs_rs_ftp.Listing.{ListParser, decode_list_bytes, parse_list_lines}
use remotefs_rs_ftp.Suppaftp.{Suppaftp, FtpResult, DataReply, IoResult}
use remotefs_rs_ftp.Session.{State, done, any_failed}
use remotefs_rs_ftp.Client.Probe.{list_command, list_outcome}
use remotefs_rs_ftp.Tokio.Runtime.{Tokio}
use remotefs_rs_ftp.Tokio.Task.{TokioState, pure, ◌>>=◌, lift, await, await_data}
use remotefs_rs_ftp.Tokio.Access.{with_lock}
use remotefs_rs_ftp.Tokio.Probe.{read_opened, read_list_bytes, mark_if, parse_listing, list_dir_raw}
use remotefs_rs_ftp.Tokio.Sync.{IsReady, Ends, Ready, AnyState, KeepsSound, bind-Ends}
use remotefs_rs_ftp.Tokio.Sync.Library.{is_err, AfterData, Opens, IsReliable}
use remotefs_rs_ftp.Tokio.Sync.Locks.{
  Usable, IsLocked, same_stream, with_lock-Ends, await-Ends, await_data-Ends,
}
use remotefs_rs_ftp.Tokio.Sync.Commands.{weaken, lift-KeepsSound, marked}

-- No dial has failed where the connection is still usable.
no_failed : (b usable : Bool) → (if b then false else usable) ≡ true → b ≡ false
no_failed true usable h = absurd (ground (arith, h))
no_failed false usable h = refl

module _ ⦃E : Suppaftp⦄ ⦃T : Tokio E⦄ (InStep : E.Stream → E.World → Type 0)
    (IsOpenOn : E.Stream → E.Transfer → E.World → Type 0) where
  -- What the reply to a data command, and the end of a listing, leave behind.
  abbrev pub Opened : FtpResult E.Transfer → State E → Type 0
  Opened r b = (b.transfer_active ≡ false) × Usable (λ c w. AfterData T InStep IsOpenOn c r w) b

  abbrev pub Listed : RemoteResult Bytes × Bool → State E → Type 0
  Listed x b = x.1 ≡ false → IsReady InStep b

  outcome-finished :
      (read : IoResult Bytes) (finish : FtpResult (Unit {0}))
      → (list_outcome read finish).1 ≡ false
      → is_err finish ≡ false
  unfolding list_outcome
  outcome-finished (ok bytes) (ok _) h = refl
  outcome-finished (err io) (ok _) h = refl
  outcome-finished (ok bytes) (err e) h = absurd (ground (arith, h))
  outcome-finished (err io) (err e) h = absurd (ground (arith, h))

  -- Under the lock, a data command that opens a transfer or is refused.
  pub data_command :
      (command : E.Stream → E.World → DataReply E.Transfer × E.World)
      → Opens T InStep IsOpenOn command
      → (c : E.Stream) (s : TokioState E) {lost : State E → Type 0}
      → Ends InStep (IsLocked InStep) lost (done c, s)
      → Ends InStep Opened AnyState (await_data (command c) s)
  data_command command opens c s h =
      let locked : IsLocked InStep c s.base = h.outcome in
      let (reply, w) = command c s.base.world in
      await_data-Ends InStep (command c) s h.mirror h.fair (
        locked.idle,
        λ d e a u.
            subst (λ z. AfterData T InStep IsOpenOn z reply.result w)
              (same_stream c d s.base.stream locked.here e)
              (opens c s.base.world locked.in_step
                (no_failed (any_failed reply.failed_dials) s.base.connection_usable u)),
      )

  module _ (reliable : IsReliable T InStep IsOpenOn) where
    read_opened-Ends :
        (r : FtpResult E.Transfer) (s : TokioState E)
        → Ends InStep Opened AnyState (done r, s)
        → Ends InStep Listed AnyState (read_opened r s)
    unfolding read_opened
    read_opened-Ends (err e) s h = record {
      mirror = h.mirror;
      fair = h.fair;
      outcome = λ fine c here a u. h.outcome.1 c here a u fine;
    }
    read_opened-Ends (ok t) s h =
        bind-Ends InStep (await (T.read_to_end t))
          (λ read. await (E.finish t) >>= λ finished. pure (list_outcome read finished)) s
          (await-Ends InStep {Q = λ _. Usable (λ c w. IsOpenOn c t w)} (T.read_to_end t) s h.mirror
            h.fair λ c here a u. reliable.to_end c t s.base.world (h.outcome.1 c here a u))
          λ read s1 h1.
            bind-Ends InStep (await (E.finish t)) (λ finished. pure (list_outcome read finished)) s1
              (await-Ends InStep {Q = λ r b. is_err r ≡ false → IsReady InStep b} (E.finish t) s1
                h1.mirror h1.fair
                λ fine c here a u. reliable.finished c t s1.base.world (h1.outcome c here a u) fine)
              λ finished s2 h2. record {
                mirror = h2.mirror;
                fair = h2.fair;
                outcome = λ fine. h2.outcome (outcome-finished read finished fine);
              }

    read_list_bytes-Ends :
        (remote : Bytes) (one : IsOneLine remote) (c : E.Stream) (s : TokioState E)
        {lost : State E → Type 0}
        → Ends InStep (IsLocked InStep) lost (done c, s)
        → Ends InStep Listed AnyState (read_list_bytes c remote s)
    unfolding read_list_bytes
    read_list_bytes-Ends remote one c s h =
        bind-Ends InStep (await_data (E.custom_data_command c (list_command remote))) read_opened s
          (data_command (λ d. E.custom_data_command d (list_command remote))
            (reliable.list_ remote one) c s h)
          read_opened-Ends

    mark_if-Ends :
        (x : RemoteResult Bytes × Bool) (s : TokioState E) {lost : State E → Type 0}
        → Ends InStep Listed lost (done x, s)
        → Ends InStep (Ready InStep) (IsReady InStep) (mark_if x.1 s)
    unfolding mark_if
    mark_if-Ends (r, true) s h = marked InStep true s h.mirror h.fair h.outcome
    mark_if-Ends (r, false) s h = marked InStep false s h.mirror h.fair h.outcome

    module _ ⦃R : Remotefs⦄ ⦃P : ListParser⦄ where
      parse_listing-KeepsSound :
          (path : FilePath) (bytes : Bytes) → KeepsSound InStep (parse_listing path bytes)
      unfolding parse_listing
      parse_listing-KeepsSound path bytes s h =
          let lines : RemoteResult (List Bytes) = map_err ftp_error (decode_list_bytes bytes) in
          bind-Ends InStep (lift lines) (λ lines. lift (parse_list_lines path lines)) s
            (lift-KeepsSound InStep lines s h)
            λ parsed t k.
              lift-KeepsSound InStep (parse_list_lines path parsed) t
                (weaken InStep parsed t k k.outcome)

      pub list_dir_raw-KeepsSound :
          (path : FilePath) (remote : Bytes)
          → IsOneLine remote
          → KeepsSound InStep (list_dir_raw path remote)
      unfolding list_dir_raw
      list_dir_raw-KeepsSound path remote one s h =
          bind-Ends InStep (with_lock (λ stream. read_list_bytes stream remote))
            (λ x. mark_if x.1 >>= λ _. lift x.0 >>= λ bytes. parse_listing path bytes) s
            (with_lock-Ends InStep (λ stream. read_list_bytes stream remote) s h
              λ c t k. read_list_bytes-Ends remote one c t k)
            λ x t k.
              bind-Ends InStep (mark_if x.1) (λ _. lift x.0 >>= λ bytes. parse_listing path bytes) t
                (mark_if-Ends x t k)
                λ _ t1 k1.
                  bind-Ends InStep (lift x.0) (λ bytes. parse_listing path bytes) t1
                    (lift-KeepsSound InStep x.0 t1 (weaken InStep tt t1 k1 k1.outcome))
                    λ bytes t2 k2.
                      parse_listing-KeepsSound path bytes t2 (weaken InStep bytes t2 k2 k2.outcome)
