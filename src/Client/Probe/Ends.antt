-- ===== src/Client/Probe/Ends.antt =====
-- How raw listings and probes of src/client/sync.rs end, and what they leave of the client.
use remotefs_rs_ftp.Base.{
  ℕ, zero, suc, ◌<◌, ◌≡◌, refl, Bool, true, false, List, [], ◌∷◌, ok, err, map_err, arith,
  Bool-cases, inl, inr,
}
use remotefs_rs_ftp.Text.{Bytes}
use remotefs_rs_ftp.Error.{ftp_error}
use remotefs_rs_ftp.FilePath.{FilePath, parent}
use remotefs_rs_ftp.Remotefs.{Remotefs, RemoteResult, File}
use remotefs_rs_ftp.Wire.{remote_path}
use remotefs_rs_ftp.Listing.{ListParser, decode_list_bytes, parse_list_lines}
use remotefs_rs_ftp.Suppaftp.{Suppaftp, IoResult, IsFinite, FtpResult}
use remotefs_rs_ftp.Session.{Outcome, IsNoFault, IsDone, done, raised, fault, Action}
use remotefs_rs_ftp.Client.Quiet.{
  AlwaysQuiet, pure-Quiet, raise-Quiet, lift-Quiet, call-Quiet, call_data-Quiet, mark-Quiet,
  bind-Quiet, attempt-Quiet, if-Quiet, option-Quiet,
}
use remotefs_rs_ftp.Client.Quiet.Accessors.{with_exclusive_stream-Quiet}
use remotefs_rs_ftp.Client.Probe.{
  probed, settled, classify_listing, read_opened, read_next, read_buffer, read_to_end_loop,
  read_to_end, list_command, list_outcome, read_list_transfer, read_list_bytes, mark_if,
  list_dir_raw, probe_ancestors, list_or_classify,
}

done-IsNoFault : {A : Type 0} (o : Outcome A) → IsDone o → IsNoFault o
done-IsNoFault (done a) h = tt
done-IsNoFault (raised e) h = absurd h
done-IsNoFault (fault x) h = absurd h

module _ ⦃E : Suppaftp⦄ (finite : IsFinite E) where
  -- One round after a read, where the rounds to come are free of faults from any world with fewer
  -- reads left.
  read_next-IsDone :
      (again : Bytes → E.World → Outcome (IoResult Bytes) × E.World) (t : E.Transfer) (got : Bytes)
      (w : E.World)
      → ((g : Bytes) (w' : E.World) → E.reads_left t w' < E.reads_left t w → IsDone (again g w').0)
      → (x : IoResult Bytes × E.World) → E.read t read_buffer w ≡ x
      → IsDone (read_next again got x).0
  unfolding read_next
  read_next-IsDone again t got w rounds (ok [], w') e = tt
  read_next-IsDone again t got w rounds (ok (b ∷ bs), w') e =
      rounds _ w' (finite.some_bytes t read_buffer w (b ∷ bs) w' e (omega arith))
  read_next-IsDone again t got w rounds (err io, w') e = elim (Bool-cases (E.is_interrupted io)) [
    | inl retry ↦
        rw (retry, read_next) (rounds got w' (finite.interrupted t read_buffer w io w' e retry))
    | inr stop ↦ rw (stop, read_next) tt
  ]

  pub read_to_end_loop-IsDone :
      (fuel : ℕ) (t : E.Transfer) (got : Bytes) (w : E.World)
      → E.reads_left t w < fuel
      → IsDone (read_to_end_loop fuel t got w).0
  unfolding read_to_end_loop
  read_to_end_loop-IsDone zero t got w h = elim h [ ]
  read_to_end_loop-IsDone (suc fuel) t got w h =
      read_next-IsDone (read_to_end_loop fuel t) t got w
        (λ g w' fewer. read_to_end_loop-IsDone fuel t g w' (omega arith)) (E.read t read_buffer w)
        refl

  read_to_end-Quiet : (t : E.Transfer) → AlwaysQuiet (read_to_end t)
  unfolding read_to_end
  read_to_end-Quiet t s = record {
    no_fault =
        done-IsNoFault (read_to_end_loop (suc (E.reads_left t s.world)) t [] s.world).0
          (read_to_end_loop-IsDone (suc (E.reads_left t s.world)) t [] s.world (omega arith));
    same_stream = refl;
    same_flag = refl;
    same_options = refl;
    still_unusable = λ h. h;
  }

  read_list_transfer-Quiet : (t : E.Transfer) → AlwaysQuiet (read_list_transfer t)
  unfolding read_list_transfer
  read_list_transfer-Quiet t = bind-Quiet (read_to_end-Quiet t) λ read.
      bind-Quiet (call-Quiet (E.finish t)) λ finished. pure-Quiet (list_outcome read finished)

  opened-Quiet : (opened : FtpResult E.Transfer) → AlwaysQuiet (read_opened opened)
  unfolding read_opened
  opened-Quiet (ok t) = read_list_transfer-Quiet t
  opened-Quiet (err e) = pure-Quiet _

  read_list_bytes-Quiet :
      (stream : E.Stream) (remote : Bytes) → AlwaysQuiet (read_list_bytes stream remote)
  unfolding read_list_bytes
  read_list_bytes-Quiet stream remote =
      bind-Quiet (call_data-Quiet (E.custom_data_command stream (list_command remote))) opened-Quiet

  mark_if-Quiet : (b : Bool) → AlwaysQuiet (mark_if b)
  mark_if-Quiet true = mark-Quiet
  mark_if-Quiet false = pure-Quiet tt

  module _ ⦃R : Remotefs⦄ ⦃P : ListParser⦄ where
    pub list_dir_raw-Quiet :
        (path : FilePath) (remote : Bytes) → AlwaysQuiet (list_dir_raw path remote)
    unfolding list_dir_raw
    list_dir_raw-Quiet path remote =
        bind-Quiet
          (with_exclusive_stream-Quiet λ stream.
            bind-Quiet (read_list_bytes-Quiet stream remote)
              λ x. bind-Quiet (mark_if-Quiet x.1) λ _. lift-Quiet x.0)
          λ bytes.
            bind-Quiet (lift-Quiet (map_err ftp_error (decode_list_bytes bytes)))
              λ lines. lift-Quiet (parse_list_lines path lines)

    probed-Quiet :
        {further : Action Bool} (candidate : FilePath) (listed : RemoteResult (List File))
        → AlwaysQuiet further
        → AlwaysQuiet (probed further candidate listed)
    unfolding probed
    probed-Quiet candidate (ok entries) p = pure-Quiet _
    probed-Quiet candidate (err error) p = if-Quiet _ p (pure-Quiet false)

    probe_ancestors-Quiet :
        (rounds : ℕ) (candidate : FilePath) → AlwaysQuiet (probe_ancestors rounds candidate)
    unfolding probe_ancestors
    probe_ancestors-Quiet zero candidate = pure-Quiet false
    probe_ancestors-Quiet (suc rounds) candidate =
        option-Quiet (parent candidate) (λ _. pure-Quiet false)
          λ above _. bind-Quiet (lift-Quiet (remote_path above)) λ remote_parent.
            bind-Quiet (attempt-Quiet (list_dir_raw-Quiet above remote_parent))
              λ listed. probed-Quiet candidate listed (probe_ancestors-Quiet rounds above)

    classify_listing-Quiet :
        (path : FilePath) (listed : RemoteResult (List File))
        → AlwaysQuiet (classify_listing path listed)
    unfolding classify_listing
    classify_listing-Quiet path (ok entries) = pure-Quiet entries
    classify_listing-Quiet path (err error) =
        if-Quiet _
          (bind-Quiet (probe_ancestors-Quiet 8 path) λ absent. raise-Quiet (settled error absent))
          (raise-Quiet error)

    pub list_or_classify-Quiet :
        (path : FilePath) (remote : Bytes) → AlwaysQuiet (list_or_classify path remote)
    unfolding list_or_classify
    list_or_classify-Quiet path remote =
        bind-Quiet (attempt-Quiet (list_dir_raw-Quiet path remote)) (classify_listing-Quiet path)
