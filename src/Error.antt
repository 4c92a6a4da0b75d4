-- ===== src/Error.antt =====
-- src/client/error.rs: failures of the FTP library, and how they become typed remote errors.
--
-- The two error types of the libraries are data types with the constructors that the client builds
-- and matches. An opaque payload (an I/O error, a certificate failure, a parse error) is a number.
-- Below an `FtpError`, and below an opaque cause, a chain of sources holds no further `FtpError`.
pub mod Kinds
pub mod Reconnect
mod Tests
use remotefs_rs_ftp.Base.{ℕ, String, Bool, true, false, Option, none, some}

-- The reply codes that the client tells apart; `other` is any further code.
pub data Status : Type 0 where
  not_available cannot_open_data_connection transfer_aborted : Status
  not_logged_in storing_need_account bad_filename file_unavailable : Status
  bad_command bad_arguments not_implemented not_implemented_parameter : Status
  other : ℕ → Status

pub record Response : Type 0 where
  pub status : Status
  pub body : ℕ

pub data FtpError : Type 0 where
  connection_error secure_error invalid_address : ℕ → FtpError
  unexpected_response : Response → FtpError
  bad_response data_connection_already_open : FtpError

pub data RemoteErrorType : Type 0 where
  connection_failed bad_address protocol_error authentication_failed : RemoteErrorType
  permission_denied no_such_file_or_directory unsupported_feature : RemoteErrorType
  invalid_path not_connected already_connected bad_file : RemoteErrorType
  already_exists directory_not_empty io_error : RemoteErrorType

-- The constructors of `RemoteError`, and every error type that can stand below one.
mutual
  pub data RemoteError : Type 0 where
    new : RemoteErrorType → RemoteError
    with_message : RemoteErrorType → String → RemoteError
    with_source : RemoteErrorType → Cause → RemoteError

  pub data Cause : Type 0 where
    ftp : FtpError → Cause
    remote : RemoteError → Cause
    list_cleanup_failure : RemoteError → RemoteError → Cause
    cleanup_failure : RemoteError → RemoteError → Cause
    write_cleanup_failure : RemoteError → RemoteError → Cause
    skip_cleanup_failure : RemoteError → RemoteError → Cause
    foreign : ℕ → Cause

unfoldable pub kind : RemoteError → RemoteErrorType
kind (new k) = k
kind (with_message k text) = k
kind (with_source k cause) = k

unfoldable pub status_kind : Status → RemoteErrorType
status_kind not_available = connection_failed
status_kind cannot_open_data_connection = connection_failed
status_kind transfer_aborted = connection_failed
status_kind not_logged_in = authentication_failed
status_kind storing_need_account = permission_denied
status_kind bad_filename = permission_denied
status_kind file_unavailable = no_such_file_or_directory
status_kind bad_command = unsupported_feature
status_kind bad_arguments = unsupported_feature
status_kind not_implemented = unsupported_feature
status_kind not_implemented_parameter = unsupported_feature
status_kind (other code) = protocol_error

ftp_error_kind : FtpError → RemoteErrorType
unfolding status_kind
ftp_error_kind (connection_error io) = connection_failed
ftp_error_kind (secure_error tls) = connection_failed
ftp_error_kind (invalid_address address) = bad_address
ftp_error_kind (unexpected_response response) = status_kind response.status
ftp_error_kind bad_response = protocol_error
ftp_error_kind data_connection_already_open = protocol_error

unfoldable pub ftp_error : FtpError → RemoteError
unfolding ftp_error_kind
ftp_error err = with_source (ftp_error_kind err) (ftp err)

unfoldable pub is_not_available : Status → Bool
is_not_available not_available = true
is_not_available _ = false

unfoldable pub transfer_setup_requires_reconnect : FtpError → Bool
unfolding is_not_available
transfer_setup_requires_reconnect (connection_error io) = true
transfer_setup_requires_reconnect bad_response = true
transfer_setup_requires_reconnect (secure_error tls) = true
transfer_setup_requires_reconnect (unexpected_response response) = is_not_available response.status
transfer_setup_requires_reconnect (invalid_address address) = true
transfer_setup_requires_reconnect data_connection_already_open = true

unfoldable pub is_connection_failed : RemoteErrorType → Bool
is_connection_failed connection_failed = true
is_connection_failed _ = false

-- The loop over the chain of sources: `fallback` is the answer where the chain ends. The source of
-- a cleanup failure is its `finish` field.
unfoldable mutual
  unfolding transfer_setup_requires_reconnect

  pub error_chain_requires_reconnect : RemoteError → Bool → Bool
  error_chain_requires_reconnect (new k) fallback = fallback
  error_chain_requires_reconnect (with_message k text) fallback = fallback
  error_chain_requires_reconnect (with_source k cause) fallback =
      cause_requires_reconnect cause fallback

  pub cause_requires_reconnect : Cause → Bool → Bool
  cause_requires_reconnect (ftp err) fallback = transfer_setup_requires_reconnect err
  cause_requires_reconnect (remote err) fallback = error_chain_requires_reconnect err fallback
  cause_requires_reconnect (list_cleanup_failure read finish) fallback =
      error_chain_requires_reconnect finish fallback
  cause_requires_reconnect (cleanup_failure drain finish) fallback =
      error_chain_requires_reconnect finish fallback
  cause_requires_reconnect (write_cleanup_failure flush finish) fallback =
      error_chain_requires_reconnect finish fallback
  cause_requires_reconnect (skip_cleanup_failure skip finish) fallback =
      error_chain_requires_reconnect finish fallback
  cause_requires_reconnect (foreign id) fallback = fallback

unfoldable pub remote_error_requires_reconnect : RemoteError → Bool
unfolding error_chain_requires_reconnect cause_requires_reconnect is_connection_failed kind
remote_error_requires_reconnect err =
    error_chain_requires_reconnect err (is_connection_failed (kind err))

unfoldable pub status_is_file_unavailable : Status → Bool
status_is_file_unavailable file_unavailable = true
status_is_file_unavailable _ = false

unfoldable pub status_is_creation_refusal : Status → Bool
status_is_creation_refusal file_unavailable = true
status_is_creation_refusal bad_filename = true
status_is_creation_refusal _ = false

unfoldable pub is_file_unavailable : FtpError → Bool
unfolding status_is_file_unavailable
is_file_unavailable (unexpected_response response) = status_is_file_unavailable response.status
is_file_unavailable _ = false

unfoldable pub is_creation_refusal : FtpError → Bool
unfolding status_is_creation_refusal
is_creation_refusal (unexpected_response response) = status_is_creation_refusal response.status
is_creation_refusal _ = false

-- The loop goes on past an `FtpError` that is no reply, and finds no other below it.
unfoldable mutual
  unfolding is_file_unavailable

  pub is_ambiguous_path_refusal : RemoteError → Bool
  is_ambiguous_path_refusal (new k) = false
  is_ambiguous_path_refusal (with_message k text) = false
  is_ambiguous_path_refusal (with_source k cause) = cause_is_ambiguous cause

  pub cause_is_ambiguous : Cause → Bool
  cause_is_ambiguous (ftp err) = is_file_unavailable err
  cause_is_ambiguous (remote err) = is_ambiguous_path_refusal err
  cause_is_ambiguous (list_cleanup_failure read finish) = is_ambiguous_path_refusal finish
  cause_is_ambiguous (cleanup_failure drain finish) = is_ambiguous_path_refusal finish
  cause_is_ambiguous (write_cleanup_failure flush finish) = is_ambiguous_path_refusal finish
  cause_is_ambiguous (skip_cleanup_failure skip finish) = is_ambiguous_path_refusal finish
  cause_is_ambiguous (foreign id) = false

unfoldable pub ambiguous_path_permission : RemoteError → RemoteError
ambiguous_path_permission err = with_source permission_denied (remote err)
