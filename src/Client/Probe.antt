-- ===== src/Client/Probe.antt =====
-- src/client/sync.rs: raw listings, and the probe of a path's ancestors.
--
-- `read_to_end` runs on fuel, one more than the reads that the transfer has left.
pub mod Ends
use remotefs_rs_ftp.Base.{
  ℕ, zero, suc, Bool, true, false, not, ◌&&◌, List, [], ◌∷◌, ◌++◌, Option, none, some, Result, ok,
  err, map_err, any, length, ◌==◌, if◌then◌else◌,
}
use remotefs_rs_ftp.Error.{
  FtpError, connection_error, RemoteError, RemoteErrorType, new, with_message, with_source, Cause,
  list_cleanup_failure, kind, bad_file, permission_denied, no_such_file_or_directory, ftp_error,
  transfer_setup_requires_reconnect, is_ambiguous_path_refusal, ambiguous_path_permission,
}
use remotefs_rs_ftp.Text.{Bytes, bytes_eq}
use remotefs_rs_ftp.FilePath.{FilePath, path_eq, file_name, parent}
use remotefs_rs_ftp.FilePath.Parents.{root, depth}
use remotefs_rs_ftp.Remotefs.{Remotefs, RemoteResult, File, directory}
use remotefs_rs_ftp.Wire.{remote_path}
use remotefs_rs_ftp.Listing.{ListParser, decode_list_bytes, parse_list_lines}
use remotefs_rs_ftp.Suppaftp.{Suppaftp, IoResult, FtpResult}
use remotefs_rs_ftp.Session.{
  State, Outcome, done, raised, fault, panic, out_of_fuel, Action, ◌>>=◌, ◌>>◌, pure, raise, fail,
  lift, attempt, call, call_data, mark_connection_unusable,
}
use remotefs_rs_ftp.Client.Access.{with_stream, with_exclusive_stream}

abbrev pub list_command : Bytes → Bytes
list_command remote = b'L' ∷ b'I' ∷ b'S' ∷ b'T' ∷ b' ' ∷ remote

-- The four ways in which the read and the completion reply of a listing can end; the flag says that
-- the cleanup requires a reconnect.
unfoldable pub list_outcome : IoResult Bytes → FtpResult (Unit {0}) → RemoteResult Bytes × Bool
list_outcome (ok bytes) (ok _) = (ok bytes, false)
list_outcome (err io) (ok _) = (err (ftp_error (connection_error io)), true)
list_outcome (ok bytes) (err finish) = (err (ftp_error finish), true)
list_outcome (err io) (err finish) =
    let read = ftp_error (connection_error io) in
    (err (with_source (kind read) (list_cleanup_failure read (ftp_error finish))), true)

module _ ⦃E : Suppaftp⦄ where
  -- The loop of `Read::read_to_end` after one read; an interrupted read is tried again.
  unfoldable pub read_next :
      (Bytes → E.World → Outcome (IoResult Bytes) × E.World)
      → Bytes
      → IoResult Bytes × E.World
      → Outcome (IoResult Bytes) × E.World
  read_next again got (ok [], w) = (done (ok got), w)
  read_next again got (ok (b ∷ bs), w) = again (got ++ b ∷ bs) w
  read_next again got (err io, w) = elim (E.is_interrupted io) [
    | true ↦ again got w
    | false ↦ (done (err io), w)
  ]

  -- The standard library chooses the size of each read; any size would do.
  abbrev pub read_buffer : ℕ
  read_buffer = 32

  unfoldable pub read_to_end_loop :
      ℕ → E.Transfer → Bytes → E.World → Outcome (IoResult Bytes) × E.World
  read_to_end_loop zero t got w = (fault out_of_fuel, w)
  read_to_end_loop (suc fuel) t got w =
      read_next (read_to_end_loop fuel t) got (E.read t read_buffer w)

  unfoldable pub read_to_end : E.Transfer → Action (IoResult Bytes)
  read_to_end t s =
      let (r, w) = read_to_end_loop (suc (E.reads_left t s.world)) t [] s.world in
      (r, record s { world = w })

  unfoldable pub read_list_transfer : E.Transfer → Action (RemoteResult Bytes × Bool)
  unfolding list_outcome
  read_list_transfer transfer = do
    read ← read_to_end transfer
    finished ← call (E.finish transfer)
    pure (list_outcome read finished)

  unfoldable pub read_opened : FtpResult E.Transfer → Action (RemoteResult Bytes × Bool)
  unfolding read_list_transfer
  read_opened (ok transfer) = read_list_transfer transfer
  read_opened (err error) = pure (err (ftp_error error), transfer_setup_requires_reconnect error)

  -- The bytes of a listing, and whether cleanup requires reconnecting.
  unfoldable pub read_list_bytes : E.Stream → Bytes → Action (RemoteResult Bytes × Bool)
  unfolding read_opened
  read_list_bytes stream remote = do
    opened ← call_data (E.custom_data_command stream (list_command remote))
    read_opened opened

  abbrev pub mark_if : Bool → Action (Unit {0})
  mark_if true = mark_connection_unusable
  mark_if false = pure tt

  module _ ⦃R : Remotefs⦄ ⦃P : ListParser⦄ where
    -- `LIST`, under the exclusive use of the stream.
    unfoldable pub list_on : Bytes → E.Stream → Action Bytes
    unfolding read_list_bytes
    list_on remote stream = do
      (result, requires_reconnect) ← read_list_bytes stream remote
      mark_if requires_reconnect
      lift result

    unfoldable pub parse_listing : FilePath → Bytes → Action (List File)
    parse_listing path bytes = do
      lines ← lift (map_err ftp_error (decode_list_bytes bytes))
      lift (parse_list_lines path lines)

    unfoldable pub list_dir_raw : FilePath → Bytes → Action (List File)
    unfolding with_exclusive_stream list_on parse_listing
    list_dir_raw path remote = do
      bytes ← with_exclusive_stream (list_on remote)
      parse_listing path bytes

    -- What one listing of an ancestor says; `further` goes on with the next.
    unfoldable pub probed : Action Bool → FilePath → RemoteResult (List File) → Action Bool
    probed further candidate (ok entries) =
        pure (not (any (λ entry. path_eq entry.path candidate) entries))
    probed further candidate (err error) =
        if is_ambiguous_path_refusal error then further else pure false

    -- The probe of the ancestors of `candidate`, at most `rounds` of them. Only a listing that
    -- succeeds proves absence.
    unfoldable pub probe_ancestors : ℕ → FilePath → Action Bool
    unfolding probed
    probe_ancestors zero candidate = pure false
    probe_ancestors (suc rounds) candidate = elim (parent candidate) [
      | none ↦ pure false
      | some above ↦ do
        remote_parent ← lift (remote_path above)
        listed ← attempt (list_dir_raw above remote_parent)
        probed (probe_ancestors rounds above) candidate listed
    ]

    unfoldable pub ancestor_proves_absent : FilePath → Action Bool
    unfolding probe_ancestors
    ancestor_proves_absent = probe_ancestors 8

    -- What the ancestors say of an ambiguous refusal.
    abbrev pub settled : RemoteError → Bool → RemoteError
    settled error absent =
        if absent
        then with_source no_such_file_or_directory (Cause.remote error)
        else ambiguous_path_permission error

    unfoldable pub classify_listing : FilePath → RemoteResult (List File) → Action (List File)
    unfolding ancestor_proves_absent
    classify_listing path (ok entries) = pure entries
    classify_listing path (err error) =
        if is_ambiguous_path_refusal error
        then (do absent ← ancestor_proves_absent path; raise (settled error absent))
        else raise error

    -- A listing whose ambiguous refusal is settled by the ancestors.
    unfoldable pub list_or_classify : FilePath → Bytes → Action (List File)
    unfolding classify_listing
    list_or_classify path remote = do
      listed ← attempt (list_dir_raw path remote)
      classify_listing path listed
