-- ===== src/Listing/Tests.antt =====
-- Tests of the listings.
use remotefs_rs_ftp.Base.{
  false, ◌≡◌, refl, ◌↔◌, ◌⊎◌, true, List, [], ◌∷◌, Result, ok, err, All, map,
}
use remotefs_rs_ftp.Text.{Bytes, codes, is_utf8}
use remotefs_rs_ftp.Text.Search.{slice}
use remotefs_rs_ftp.Remotefs.{File}
use remotefs_rs_ftp.Error.{RemoteError}
use remotefs_rs_ftp.Listing.Reject.{reject_ambiguous_list_name}
use remotefs_rs_ftp.Listing.{
  parse_entries, entry_lines, parse_list_entry, entry_of, parse_line, decode_list_bytes,
  validate_list_child_name, is_total, parse_list_lines,
}
use remotefs_rs_ftp.Listing.Fields.{field_spans}
use remotefs_rs_ftp.Listing.Fields.Words.{words, map-slice-field_spans}
use remotefs_rs_ftp.Listing.Children.{
  IsChildName, IsChildOf, validate_list_child_name_iff, parse_list_lines-IsChildOf,
}
use remotefs_rs_ftp.Listing.Lines.{
  encode_lines, IsRow, decode_list_bytes-encode_lines, IsReadAs, parse_list_lines-IsReadAs,
}
use remotefs_rs_ftp.Fake.{fake_paths, fake_parser}

abbrev rows : List Bytes
rows = codes "total 8" ∷ codes "-a" ∷ codes "db" ∷ []

abbrev parsed : Result (List File) RemoteError
parsed = parse_list_lines (codes "/d") rows

abbrev files_of : Result (List File) RemoteError → List File
files_of (ok files) = files
files_of (err e) = []

rows_parse : parsed ≡ ok (files_of parsed)
unfolding parse_list_lines parse_entries entry_lines parse_line reject_ambiguous_list_name
    parse_list_entry entry_of
rows_parse = refl

map-slice-field_spans_example :
    map (λ s. slice (codes "ab  c") s.0 s.1) (field_spans (codes "ab  c")) ≡ words (codes "ab  c")
map-slice-field_spans_example = map-slice-field_spans (codes "ab  c")

validate_list_child_name_iff_example :
    (validate_list_child_name (codes "a b") ≡ ok tt) ↔ IsChildName (codes "a b")
validate_list_child_name_iff_example = validate_list_child_name_iff (codes "a b")

parse_list_lines-IsChildOf_example : All (IsChildOf (codes "/d")) (files_of parsed)
parse_list_lines-IsChildOf_example =
    parse_list_lines-IsChildOf (codes "/d") refl rows (files_of parsed) rows_parse

rows-IsRow : All IsRow rows
unfolding is_utf8
rows-IsRow = (
  record {
    utf8 = refl;
    some_text = refl;
    one_line = (refl, (refl, (refl, (refl, (refl, (refl, (refl, tt)))))));
  },
  (
    record { utf8 = refl; some_text = refl; one_line = (refl, (refl, tt)) },
    (record { utf8 = refl; some_text = refl; one_line = (refl, (refl, tt)) }, tt),
  ),
)

decode_list_bytes-encode_lines_example : decode_list_bytes (encode_lines rows) ≡ ok rows
decode_list_bytes-encode_lines_example = decode_list_bytes-encode_lines rows rows-IsRow

parse_list_lines-IsReadAs_example :
    ((is_total (codes "total 8") ≡ true)
      × IsReadAs (codes "/d") (codes "-a" ∷ codes "db" ∷ []) (files_of parsed))
    ⊎ ((is_total (codes "total 8") ≡ false) × IsReadAs (codes "/d") rows (files_of parsed))
parse_list_lines-IsReadAs_example =
    parse_list_lines-IsReadAs (codes "/d") (codes "total 8") (codes "-a" ∷ codes "db" ∷ [])
      (files_of parsed) rows_parse
