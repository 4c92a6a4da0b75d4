-- ===== src/Error/Reconnect.antt =====
-- When an error makes the control connection unusable, and when it is an ambiguous refusal
-- (src/client/error.rs): the two loops over the chain of sources.
use remotefs_rs_ftp.Base.{◌≡◌, refl, Bool, true, false, Option, none, some, arith, sym, ◌∙◌}
use remotefs_rs_ftp.Error.{
  FtpError, RemoteError, new, with_message, with_source, Cause, ftp, remote, list_cleanup_failure,
  cleanup_failure, write_cleanup_failure, skip_cleanup_failure, foreign, permission_denied, kind,
  transfer_setup_requires_reconnect, is_connection_failed, error_chain_requires_reconnect,
  cause_requires_reconnect, remote_error_requires_reconnect, is_file_unavailable,
  is_ambiguous_path_refusal, ftp_error, cause_is_ambiguous, ambiguous_path_permission,
}

-- The first FTP failure at or below an error, as `source` leads to it.
abbrev mutual
  pub first_ftp_error : RemoteError → Option FtpError
  first_ftp_error (new k) = none
  first_ftp_error (with_message k text) = none
  first_ftp_error (with_source k cause) = first_ftp_cause cause

  pub first_ftp_cause : Cause → Option FtpError
  first_ftp_cause (ftp err) = some err
  first_ftp_cause (remote err) = first_ftp_error err
  first_ftp_cause (list_cleanup_failure read finish) = first_ftp_error finish
  first_ftp_cause (cleanup_failure drain finish) = first_ftp_error finish
  first_ftp_cause (write_cleanup_failure flush finish) = first_ftp_error finish
  first_ftp_cause (skip_cleanup_failure skip finish) = first_ftp_error finish
  first_ftp_cause (foreign id) = none

abbrev pub reconnect_by : Option FtpError → Bool → Bool
reconnect_by none fallback = fallback
reconnect_by (some err) fallback = transfer_setup_requires_reconnect err

abbrev pub ambiguous_by : Option FtpError → Bool
ambiguous_by none = false
ambiguous_by (some err) = is_file_unavailable err

mutual
  unfolding error_chain_requires_reconnect cause_requires_reconnect

  error_chain :
      (e : RemoteError) (b : Bool)
      → error_chain_requires_reconnect e b ≡ reconnect_by (first_ftp_error e) b
  error_chain (new k) b = refl
  error_chain (with_message k text) b = refl
  error_chain (with_source k cause) b = cause_chain cause b

  cause_chain :
      (c : Cause) (b : Bool) → cause_requires_reconnect c b ≡ reconnect_by (first_ftp_cause c) b
  cause_chain (ftp err) b = refl
  cause_chain (remote err) b = error_chain err b
  cause_chain (list_cleanup_failure read finish) b = error_chain finish b
  cause_chain (cleanup_failure drain finish) b = error_chain finish b
  cause_chain (write_cleanup_failure flush finish) b = error_chain finish b
  cause_chain (skip_cleanup_failure skip finish) b = error_chain finish b
  cause_chain (foreign id) b = refl

mutual
  unfolding is_ambiguous_path_refusal cause_is_ambiguous

  ambiguous_chain :
      (e : RemoteError) → is_ambiguous_path_refusal e ≡ ambiguous_by (first_ftp_error e)
  ambiguous_chain (new k) = refl
  ambiguous_chain (with_message k text) = refl
  ambiguous_chain (with_source k cause) = ambiguous_cause cause

  ambiguous_cause : (c : Cause) → cause_is_ambiguous c ≡ ambiguous_by (first_ftp_cause c)
  ambiguous_cause (ftp err) = refl
  ambiguous_cause (remote err) = ambiguous_chain err
  ambiguous_cause (list_cleanup_failure read finish) = ambiguous_chain finish
  ambiguous_cause (cleanup_failure drain finish) = ambiguous_chain finish
  ambiguous_cause (write_cleanup_failure flush finish) = ambiguous_chain finish
  ambiguous_cause (skip_cleanup_failure skip finish) = ambiguous_chain finish
  ambiguous_cause (foreign id) = refl

-- An error makes a reconnect necessary exactly when the first FTP failure in its chain of sources
-- does, and with no FTP failure in the chain exactly when its kind is `ConnectionError`.
pub reconnect-eq-first_ftp_error :
    (e : RemoteError)
    → remote_error_requires_reconnect e
      ≡ reconnect_by (first_ftp_error e) (is_connection_failed (kind e))
unfolding remote_error_requires_reconnect
reconnect-eq-first_ftp_error e = error_chain e (is_connection_failed (kind e))

-- A failure of the protocol, as the error that reports it.
pub reconnect-ftp_error :
    (e : FtpError)
    → remote_error_requires_reconnect (ftp_error e) ≡ transfer_setup_requires_reconnect e
unfolding remote_error_requires_reconnect error_chain_requires_reconnect cause_requires_reconnect
    ftp_error
reconnect-ftp_error e = refl

ambiguous_by_keeps :
    (o : Option FtpError) (b : Bool) → ambiguous_by o ≡ true → reconnect_by o b ≡ false
unfolding is_file_unavailable transfer_setup_requires_reconnect
ambiguous_by_keeps o b h = ground arith

-- An ambiguous 550 refusal, however deep it is wrapped, never makes a reconnect necessary: the
-- probes that classify it run on the same connection.
pub ambiguous_keeps_connection :
    (e : RemoteError)
    → is_ambiguous_path_refusal e ≡ true
    → remote_error_requires_reconnect e ≡ false
ambiguous_keeps_connection e h =
    reconnect-eq-first_ftp_error e
    ∙ ambiguous_by_keeps (first_ftp_error e) _ (sym (ambiguous_chain e) ∙ h)

-- Wrapping an error that has an FTP failure in its chain as an unproved absence changes its kind to
-- `PermissionDenied` and keeps the answers that both loops over its sources give.
pub ambiguous_path_permission-keeps :
    (e : RemoteError) (f : FtpError)
    → first_ftp_error e ≡ some f
    → (kind (ambiguous_path_permission e) ≡ permission_denied)
      × (is_ambiguous_path_refusal (ambiguous_path_permission e) ≡ is_ambiguous_path_refusal e)
      × (remote_error_requires_reconnect (ambiguous_path_permission e)
          ≡ remote_error_requires_reconnect e)
unfolding ambiguous_path_permission kind is_ambiguous_path_refusal
ambiguous_path_permission-keeps e f h = ground (
  arith,
  reconnect-eq-first_ftp_error e,
  reconnect-eq-first_ftp_error (ambiguous_path_permission e),
)
