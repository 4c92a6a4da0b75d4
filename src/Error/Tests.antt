-- ===== src/Error/Tests.antt =====
-- Tests of src/client/error.rs, and its theorems at concrete errors.
use remotefs_rs_ftp.Base.{◌≡◌, refl, true, false}
use remotefs_rs_ftp.Error.{
  not_available, file_unavailable, transfer_aborted, other, Response, connection_error,
  unexpected_response, bad_response, RemoteError, with_source, list_cleanup_failure, protocol_error,
  permission_denied, kind, ftp_error, remote_error_requires_reconnect, is_ambiguous_path_refusal,
  ambiguous_path_permission, is_connection_failed,
}
use remotefs_rs_ftp.Error.Kinds.{ftp_error-kind-documented}
use remotefs_rs_ftp.Error.Reconnect.{
  reconnect_by, first_ftp_error, reconnect-eq-first_ftp_error, ambiguous_keeps_connection,
  ambiguous_path_permission-keeps,
}

abbrev refused : Response
refused = record { status = file_unavailable; body = 0 }

abbrev bad_sequence : Response
bad_sequence = record { status = other 503; body = 0 }

-- A listing whose data connection broke and whose completion was refused with 550.
abbrev broken_listing : RemoteError
broken_listing = with_source protocol_error (
    list_cleanup_failure (ftp_error (connection_error 1)) (ftp_error (unexpected_response refused)))

closing_requires_reconnect :
    remote_error_requires_reconnect
      (ftp_error (unexpected_response (record { status = not_available; body = 0 })))
    ≡ true
unfolding remote_error_requires_reconnect ftp_error
closing_requires_reconnect = refl

aborted_keeps_connection :
    remote_error_requires_reconnect
      (ftp_error (unexpected_response (record { status = transfer_aborted; body = 0 })))
    ≡ false
unfolding remote_error_requires_reconnect ftp_error
aborted_keeps_connection = refl

bad_response_requires_reconnect : remote_error_requires_reconnect (ftp_error bad_response) ≡ true
unfolding remote_error_requires_reconnect ftp_error
bad_response_requires_reconnect = refl

broken_listing_is_ambiguous : is_ambiguous_path_refusal broken_listing ≡ true
unfolding is_ambiguous_path_refusal ftp_error
broken_listing_is_ambiguous = refl

ftp_error-kind-documented_example :
    kind (ftp_error (unexpected_response bad_sequence)) ≡ protocol_error
ftp_error-kind-documented_example = ftp_error-kind-documented bad_sequence refl

ambiguous_keeps_connection_example : remote_error_requires_reconnect broken_listing ≡ false
ambiguous_keeps_connection_example =
    ambiguous_keeps_connection broken_listing broken_listing_is_ambiguous

ambiguous_path_permission-keeps_example :
    (kind (ambiguous_path_permission broken_listing) ≡ permission_denied)
    × (is_ambiguous_path_refusal (ambiguous_path_permission broken_listing)
        ≡ is_ambiguous_path_refusal broken_listing)
    × (remote_error_requires_reconnect (ambiguous_path_permission broken_listing)
        ≡ remote_error_requires_reconnect broken_listing)
unfolding ftp_error
ambiguous_path_permission-keeps_example =
    ambiguous_path_permission-keeps broken_listing (unexpected_response refused) refl

reconnect-eq-first_ftp_error_example :
    remote_error_requires_reconnect broken_listing
    ≡ reconnect_by (first_ftp_error broken_listing) (is_connection_failed (kind broken_listing))
reconnect-eq-first_ftp_error_example = reconnect-eq-first_ftp_error broken_listing
