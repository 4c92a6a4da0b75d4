-- ===== src/Tokio/Probe.antt =====
-- src/client/tokio.rs: raw listings, and the probe of a path's ancestors.
use remotefs_rs_ftp.Base.{
  ℕ, zero, suc, Bool, true, false, not, List, none, some, ok, err, map_err, any, if◌then◌else◌,
}
use remotefs_rs_ftp.Error.{ftp_error, transfer_setup_requires_reconnect, is_ambiguous_path_refusal}
use remotefs_rs_ftp.Text.{Bytes}
use remotefs_rs_ftp.FilePath.{FilePath, path_eq, parent}
use remotefs_rs_ftp.Remotefs.{Remotefs, RemoteResult, File}
use remotefs_rs_ftp.Wire.{remote_path}
use remotefs_rs_ftp.Listing.{ListParser, decode_list_bytes, parse_list_lines}
use remotefs_rs_ftp.Suppaftp.{Suppaftp, FtpResult}
use remotefs_rs_ftp.Client.Probe.{list_command, list_outcome, settled}
use remotefs_rs_ftp.Tokio.Runtime.{Tokio}
use remotefs_rs_ftp.Tokio.Task.{Task, pure, raise, ◌>>=◌, ◌>>◌, lift, attempt, await, await_data}
use remotefs_rs_ftp.Tokio.Access.{with_lock, mark_connection_unusable}

module _ ⦃E : Suppaftp⦄ ⦃T : Tokio E⦄ where
  unfoldable pub read_opened : FtpResult E.Transfer → Task (RemoteResult Bytes × Bool)
  unfolding await list_outcome
  read_opened (err error) = pure (err (ftp_error error), transfer_setup_requires_reconnect error)
  read_opened (ok transfer) = do
    read ← await (T.read_to_end transfer)
    finished ← await (E.finish transfer)
    pure (list_outcome read finished)

  -- The bytes of a listing, and whether cleanup requires reconnecting.
  unfoldable pub read_list_bytes : E.Stream → Bytes → Task (RemoteResult Bytes × Bool)
  unfolding await_data read_opened
  read_list_bytes stream remote = do
    opened ← await_data (E.custom_data_command stream (list_command remote))
    read_opened opened

  unfoldable pub mark_if : Bool → Task (Unit {0})
  unfolding mark_connection_unusable
  mark_if true = mark_connection_unusable
  mark_if false = pure tt

  module _ ⦃R : Remotefs⦄ ⦃P : ListParser⦄ where
    unfoldable pub parse_listing : FilePath → Bytes → Task (List File)
    parse_listing path bytes = do
      lines ← lift (map_err ftp_error (decode_list_bytes bytes))
      lift (parse_list_lines path lines)

    -- A listing that required a reconnect is recorded once the lock is released.
    unfoldable pub list_dir_raw : FilePath → Bytes → Task (List File)
    unfolding with_lock read_list_bytes mark_if parse_listing
    list_dir_raw path remote = do
      (result, requires_reconnect) ← with_lock (λ stream. read_list_bytes stream remote)
      mark_if requires_reconnect
      bytes ← lift result
      parse_listing path bytes

    -- What one listing of an ancestor says; `further` goes on with the next.
    unfoldable pub probed : Task Bool → FilePath → RemoteResult (List File) → Task Bool
    probed further candidate (ok entries) =
        pure (not (any (λ entry. path_eq entry.path candidate) entries))
    probed further candidate (err error) =
        if is_ambiguous_path_refusal error then further else pure false

    -- The probe of the ancestors of `candidate`, at most `rounds` of them.
    unfoldable pub probe_ancestors : ℕ → FilePath → Task Bool
    unfolding probed
    probe_ancestors zero candidate = pure false
    probe_ancestors (suc rounds) candidate = elim (parent candidate) [
      | none ↦ pure false
      | some above ↦ do
        remote_parent ← lift (remote_path above)
        listed ← attempt (list_dir_raw above remote_parent)
        probed (probe_ancestors rounds above) candidate listed
    ]

    unfoldable pub ancestor_proves_absent : FilePath → Task Bool
    unfolding probe_ancestors
    ancestor_proves_absent = probe_ancestors 8

    unfoldable pub classify_listing : FilePath → RemoteResult (List File) → Task (List File)
    unfolding ancestor_proves_absent
    classify_listing path (ok entries) = pure entries
    classify_listing path (err error) =
        if is_ambiguous_path_refusal error
        then (do absent ← ancestor_proves_absent path; raise (settled error absent))
        else raise error

    -- A listing whose ambiguous refusal is settled by the ancestors.
    unfoldable pub list_or_classify : FilePath → Bytes → Task (List File)
    unfolding classify_listing
    list_or_classify path remote = do
      listed ← attempt (list_dir_raw path remote)
      classify_listing path listed
