-- ===== src/Client/Refusal/Tests.antt =====
-- Refusals that are classified, at a concrete library.
use remotefs_rs_ftp.Base.{List, [], ◌∷◌, ◌≡◌, refl, ◌⊎◌, ◌++◌, true, false}
use remotefs_rs_ftp.Client.Refusal.{reported_as, classify_file_refusal, classify_remove_dir_refusal}
use remotefs_rs_ftp.Client.Refusal.Evidence.{
  classify_file_refusal-evidence, classify_remove_dir_refusal-evidence, IsFoundAbsent,
}
use remotefs_rs_ftp.Error.{
  bad_file, directory_not_empty, ftp_error, is_file_unavailable, FtpError, unexpected_response,
  file_unavailable, no_such_file_or_directory, permission_denied, kind, is_creation_refusal,
}
use remotefs_rs_ftp.Text.{Bytes, codes, is_utf8}
use remotefs_rs_ftp.FilePath.{components, path_eq, parent, file_name}
use remotefs_rs_ftp.Client.Probe.{list_dir_raw, read_to_end, read_to_end_loop, read_next}
use remotefs_rs_ftp.Listing.{
  decode_list_bytes, parse_list_lines, parse_entries, entry_lines, parse_line, parse_list_entry,
  entry_of,
}
use remotefs_rs_ftp.Listing.Reject.{reject_ambiguous_list_name}
use remotefs_rs_ftp.Remotefs.{File}
use remotefs_rs_ftp.Wire.{remote_path}
use remotefs_rs_ftp.Session.{State, done}
use remotefs_rs_ftp.Client.Stat.{stat_from, stat_below, lists_itself, find_entry, stat, list_dir}
use remotefs_rs_ftp.Fake.{fake_server, fake_paths, fake_parser, fake_state}

abbrev path : Bytes
path = codes "/d/a"

abbrev other : Bytes
other = codes "/d/b"

abbrev refusal : FtpError
refusal = unexpected_response (record { status = file_unavailable; body = 0 })

-- The server lists `/d` as holding the file `a`.
abbrev listing : State fake_server
listing = fake_state (codes "-a" ++ 0x0d ∷ 0x0a ∷ [])

abbrev listed : State fake_server
listed = fake_state []

remove_dir_classified :
    classify_remove_dir_refusal path refusal listing ≡ (done (reported_as bad_file refusal), listed)
unfolding classify_remove_dir_refusal is_creation_refusal stat stat_from remote_path is_utf8
    components path_eq parent stat_below list_dir_raw read_to_end read_to_end_loop read_next
    decode_list_bytes parse_list_lines parse_entries entry_lines parse_line
    reject_ambiguous_list_name parse_list_entry entry_of lists_itself find_entry file_name
    is_file_unavailable
remove_dir_classified = refl

remove_file_classified :
    classify_file_refusal path refusal listing ≡ (done (ftp_error refusal), listed)
unfolding classify_file_refusal is_creation_refusal stat stat_from remote_path is_utf8 components
    path_eq parent stat_below list_dir_raw read_to_end read_to_end_loop read_next decode_list_bytes
    parse_list_lines parse_entries entry_lines parse_line reject_ambiguous_list_name
    parse_list_entry entry_of lists_itself find_entry file_name is_file_unavailable
remove_file_classified = refl

refusal_unavailable : is_file_unavailable refusal ≡ true
unfolding is_file_unavailable
refusal_unavailable = refl

classify_remove_dir_refusal-evidence_example :
    ((kind (reported_as bad_file refusal) ≡ no_such_file_or_directory) × IsFoundAbsent path listing)
    ⊎ ((kind (reported_as bad_file refusal) ≡ bad_file)
        × ((file : File) × ((stat path listing).0 ≡ done file) × (fake_paths.is_dir file ≡ false)))
    ⊎ ((kind (reported_as bad_file refusal) ≡ directory_not_empty)
        × ((file : File) × ((stat path listing).0 ≡ done file) × (fake_paths.is_dir file ≡ true))
        × ((entry : File) × (entries : List File) × ((list_dir path (stat path listing).1).0
              ≡ done (entry ∷ entries))))
    ⊎ (kind (reported_as bad_file refusal) ≡ permission_denied)
classify_remove_dir_refusal-evidence_example =
    classify_remove_dir_refusal-evidence path refusal (reported_as bad_file refusal) listing listed
      refusal_unavailable remove_dir_classified

classify_file_refusal-evidence_example :
    ((kind (ftp_error refusal) ≡ bad_file)
      × ((file : File) × ((stat path listing).0 ≡ done file) × (fake_paths.is_dir file ≡ true)))
    ⊎ ((kind (ftp_error refusal) ≡ no_such_file_or_directory)
        × ((file : File) → (stat path listing).0 ≡ done file → fake_paths.is_dir file ≡ false))
classify_file_refusal-evidence_example =
    classify_file_refusal-evidence path refusal (ftp_error refusal) listing listed
      refusal_unavailable remove_file_classified
