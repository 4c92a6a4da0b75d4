-- ===== src/Listing/Reject.antt =====
-- src/client/list.rs: the checks that refuse a LIST line whose file name cannot be read exactly.
use mathlib.Core.Option
use remotefs_rs_ftp.Base.{
  ℕ, ◌+◌, Bool, false, ◌&&◌, ◌||◌, not, List, [], ◌∷◌, Option, none, some, String, ◌==◌,
  if◌then◌else◌, length, get_elem?, take, drop, any, all, ltb, ok, err, ◌>>◌,
}
use remotefs_rs_ftp.Error.{with_message, protocol_error}
use remotefs_rs_ftp.Text.{
  Bytes, bytes_eq, is_ascii_whitespace, is_ascii_digit, is_whitespace, chars,
}
use remotefs_rs_ftp.Text.Search.{
  find_by, find, count_matches, nth_char_index, trim_start, count_padding,
}
use remotefs_rs_ftp.Remotefs.{RemoteResult}
use remotefs_rs_ftp.Listing.Fields.{
  Span, field_spans, first_is, is_special_byte, normalize_special_posix_line,
}

abbrev pub Checked : Type 0
Checked = RemoteResult (Unit {0})

-- `if c { return Err(...) }`.
abbrev pub refuse_if : Bool → String → Checked
refuse_if c text = if c then err (with_message protocol_error text) else ok tt

-- Whitespace that is no ASCII padding.
abbrev pub is_unicode_whitespace : ℕ → Bool
is_unicode_whitespace c = is_whitespace c && not (is_ascii_whitespace c)

unfoldable pub has_unicode_whitespace_after_ascii_padding : Bytes → Bool
unfolding trim_start chars
has_unicode_whitespace_after_ascii_padding text = elim (chars (trim_start text)) [
  | [] ↦ false
  | c ∷ _ ↦ is_whitespace c
]

unfoldable pub contains_unicode_whitespace : Bytes → Bool
unfolding chars
contains_unicode_whitespace text = any is_unicode_whitespace (chars text)

abbrev pub is_posix_byte : ℕ → Bool
is_posix_byte b = b == b'-' || b == b'l' || b == b'd' || is_special_byte b

-- Where the field number 7, the last before the name, ends.
abbrev pub metadata_end : List Span → Option ℕ
metadata_end spans = Option.map (λ s. s.1) (get_elem? spans 7)

abbrev pub has_wide_gap : Option Span → Option Span → Bool
has_wide_gap (some before) (some name) = ltb (before.1 + 1) name.0
has_wide_gap _ _ = false

abbrev pub is_blank : Bytes → Bool
is_blank s = not (bytes_eq s []) && all is_whitespace (chars s)

-- The checks of a POSIX line, once normalised.
posix_boundary : Bytes → List Span → Checked
unfolding contains_unicode_whitespace has_unicode_whitespace_after_ascii_padding chars
posix_boundary normalized spans = do
  refuse_if (has_wide_gap (get_elem? spans 7) (get_elem? spans 8))
      "LIST returned a filename with an ambiguous leading-space boundary"
  refuse_if
      (elim (metadata_end spans) [
        | none ↦ false
        | some end ↦ contains_unicode_whitespace (take end normalized)
      ])
      "LIST returned Unicode whitespace in its POSIX metadata"
  refuse_if (elim (metadata_end spans) [ none ↦ false | some end ↦ is_blank (drop end normalized) ])
      "LIST returned a filename made only of whitespace"
  refuse_if
      (elim (metadata_end spans) [
        | none ↦ false
        | some end ↦ has_unicode_whitespace_after_ascii_padding (drop end normalized)
      ])
      "LIST returned a filename with an ambiguous Unicode-whitespace boundary"

unfoldable pub reject_ambiguous_posix_name_boundary : Bytes → Checked
unfolding posix_boundary field_spans normalize_special_posix_line
reject_ambiguous_posix_name_boundary line =
    let normalized =
      if first_is is_special_byte line then normalize_special_posix_line line else line in
    if first_is is_posix_byte line
    then posix_boundary normalized (field_spans normalized)
    else ok tt

-- `DD-DD-DD`, in bytes.
unfoldable pub looks_like_dos_listing : Bytes → Bool
looks_like_dos_listing (a ∷ b ∷ c ∷ d ∷ e ∷ f ∷ g ∷ h ∷ rest) =
    c == b'-'
    && f == b'-'
    && is_ascii_digit a
    && is_ascii_digit b
    && is_ascii_digit d
    && is_ascii_digit e
    && is_ascii_digit g
    && is_ascii_digit h
looks_like_dos_listing _ = false

abbrev pub padded_metadata_column : ℕ
padded_metadata_column = 24

abbrev pub padded_name_column : ℕ
padded_name_column = 39

abbrev pub dir_token : Bytes
dir_token = b'<' ∷ b'D' ∷ b'I' ∷ b'R' ∷ b'>' ∷ []

abbrev pub not_padding : ℕ → Bool
not_padding b = not (is_ascii_whitespace b)

abbrev pub index_or : Option ℕ → ℕ → ℕ
index_or none d = d
index_or (some i) d = i

-- The first `AM`, or else the first `PM`, of the timestamp's first eight characters; its end.
unfoldable pub marker_end : Bytes → Option ℕ
unfolding find nth_char_index
marker_end timestamp =
    let prefix = take (index_or (nth_char_index 8 timestamp) (length timestamp)) timestamp in
    elim (find (b'A' ∷ b'M' ∷ []) prefix) [
      | some i ↦ some (i + 2)
      | none ↦ Option.map (λ i. i + 2) (find (b'P' ∷ b'M' ∷ []) prefix)
    ]

-- The checks behind the timestamp: the metadata field, `<DIR>` or a size, starts at
-- `metadata_start` in `rest`, which starts at the byte `time_end` of the line.
dos_metadata : ℕ → Bytes → ℕ → Checked
unfolding find_by has_unicode_whitespace_after_ascii_padding count_padding chars
dos_metadata time_end rest metadata_start = do
  let metadata = drop metadata_start rest
  let metadata_end = index_or (find_by is_ascii_whitespace metadata) (length metadata)
  let after_metadata = drop metadata_end metadata
  refuse_if (any is_whitespace (chars after_metadata) && all is_whitespace (chars after_metadata))
      "LIST returned a filename made only of whitespace"
  refuse_if (has_unicode_whitespace_after_ascii_padding after_metadata)
      "LIST returned a filename with an ambiguous Unicode-whitespace boundary"
  let separator = count_padding after_metadata
  let metadata_column = time_end + metadata_start
  let name_start = time_end + metadata_start + metadata_end + separator
  let is_supported_padded_layout =
      bytes_eq (take metadata_end metadata) dir_token
      && metadata_column == padded_metadata_column
      && name_start == padded_name_column
  refuse_if (ltb 1 separator && not is_supported_padded_layout)
      "LIST returned a DOS filename with an ambiguous leading-space boundary"

dos_rest : ℕ → Bytes → Checked
unfolding dos_metadata find_by chars
dos_rest time_end rest = do
  refuse_if (elim (chars rest) [ [] ↦ false | c ∷ _ ↦ is_unicode_whitespace c ])
      "LIST returned a DOS filename with an ambiguous Unicode-whitespace boundary"
  elim (find_by not_padding rest) [
    | none ↦ ok tt
    | some metadata_start ↦ dos_metadata time_end rest metadata_start
  ]

dos_timestamp : Bytes → ℕ → Checked
unfolding dos_rest marker_end
dos_timestamp line time_start = elim (marker_end (drop time_start line)) [
  | none ↦ err (with_message protocol_error "LIST returned an unsupported DOS timestamp")
  | some end ↦ dos_rest (time_start + end) (drop (time_start + end) line)
]

-- Called on lines that look like a DOS listing, whose first eight bytes are ASCII.
unfoldable pub reject_ambiguous_dos_name_boundary : Bytes → Checked
unfolding dos_timestamp find_by
reject_ambiguous_dos_name_boundary line = elim (find_by not_padding (drop 8 line)) [
  | none ↦ ok tt
  | some index ↦ dos_timestamp line (index + 8)
]

abbrev pub arrow : Bytes
arrow = b' ' ∷ b'-' ∷ b'>' ∷ b' ' ∷ []

abbrev pub is_plain_posix_byte : ℕ → Bool
is_plain_posix_byte b = b == b'-' || b == b'l' || b == b'd'

unfoldable pub reject_ambiguous_list_name : Bytes → Checked
unfolding reject_ambiguous_posix_name_boundary looks_like_dos_listing
    reject_ambiguous_dos_name_boundary count_matches
reject_ambiguous_list_name line = do
  reject_ambiguous_posix_name_boundary line
  refuse_if (first_is (λ b. b == b'l') line && ltb 1 (count_matches arrow line))
      "LIST returned a symlink name or target containing multiple ` -> ` separators"
  if not (first_is is_plain_posix_byte line) && looks_like_dos_listing line
      then reject_ambiguous_dos_name_boundary line
      else ok tt
