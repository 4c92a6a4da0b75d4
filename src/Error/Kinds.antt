-- ===== src/Error/Kinds.antt =====
-- The kinds that `ftp_error` (src/client/error.rs) assigns, against the table of reply codes in its
-- documentation.
use remotefs_rs_ftp.Base.{ℕ, ◌≡◌, refl, Bool, false, ◌==◌, ◌||◌, if◌then◌else◌, arith}
use remotefs_rs_ftp.Error.{
  Status, not_available, cannot_open_data_connection, transfer_aborted, not_logged_in,
  storing_need_account, bad_filename, file_unavailable, bad_command, bad_arguments, not_implemented,
  not_implemented_parameter, other, Response, unexpected_response, RemoteErrorType,
  connection_failed, protocol_error, authentication_failed, permission_denied,
  no_such_file_or_directory, unsupported_feature, kind, ftp_error,
}

-- The three-digit code of a reply (RFC 959).
abbrev pub reply_code : Status → ℕ
reply_code not_available = 421
reply_code cannot_open_data_connection = 425
reply_code transfer_aborted = 426
reply_code not_logged_in = 530
reply_code storing_need_account = 532
reply_code bad_filename = 553
reply_code file_unavailable = 550
reply_code bad_command = 500
reply_code bad_arguments = 501
reply_code not_implemented = 502
reply_code not_implemented_parameter = 504
reply_code (other code) = code

-- The table above `ftp_error`, on codes.
abbrev pub documented_kind : ℕ → RemoteErrorType
documented_kind c =
    if c == 421 || c == 425 || c == 426
    then connection_failed
    else if c == 530
    then authentication_failed
    else if c == 532 || c == 553
    then permission_denied
    else if c == 550
    then no_such_file_or_directory
    else if c == 500 || c == 501 || c == 502 || c == 504
    then unsupported_feature
    else protocol_error

abbrev pub is_listed : ℕ → Bool
is_listed c =
    c == 421
    || c == 425
    || c == 426
    || c == 530
    || c == 532
    || c == 553
    || c == 550
    || c == 500
    || c == 501
    || c == 502
    || c == 504

-- `other` is used for the codes that have no constructor of their own.
abbrev pub IsProper : Status → Type 0
IsProper (other code) = is_listed code ≡ false
IsProper _ = Unit

-- The kind of a refused command is the one that the documentation lists for its reply code, and
-- `ProtocolError` for every code that is not listed.
pub ftp_error-kind-documented :
    (response : Response)
    → IsProper response.status
    → kind (ftp_error (unexpected_response response)) ≡ documented_kind (reply_code response.status)
unfolding kind ftp_error
ftp_error-kind-documented response proper = by_status response.status proper
  where
    by_status :
        (s : Status)
        → IsProper s
        → kind (ftp_error (unexpected_response (record response { status = s })))
          ≡ documented_kind (reply_code s)
    by_status (other code) p = ground arith
    by_status not_available p = refl
    by_status _ p = refl
