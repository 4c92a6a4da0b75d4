-- ===== src/Listing/Lines.antt =====
-- From the bytes of a transfer to lines, and from lines to the files of a listing
-- (src/client/list.rs).
use mathlib.Core.List.{append_assoc}
use remotefs_rs_ftp.Base.{
  none, subst, ◌||◌, Option-cases, Result, err, map_err, ◌∙◌, ℕ, suc, ◌≡◌, refl, ap, ◌⊎◌, inl, inr,
  true, false, List, [], ◌∷◌, ◌++◌, some, ok, ◌==◌, All, arith, Bool-cases, if◌then◌else◌, bind_ok,
}
use remotefs_rs_ftp.Text.{Bytes, bytes_eq, is_utf8}
use remotefs_rs_ftp.Text.Utf8Laws.{is_utf8-append}
use remotefs_rs_ftp.Text.Search.{strip_suffix}
use remotefs_rs_ftp.Listing.Reject.{reject_ambiguous_list_name}
use remotefs_rs_ftp.FilePath.{FilePath, dot, dot_dot}
use remotefs_rs_ftp.Remotefs.{Remotefs, File}
use remotefs_rs_ftp.Listing.{
  ListParser, split_inclusive, strip_ending, nonempty_lines, decode_list_bytes, is_total, FtpFile,
  parse_list_entry, entry_of, entry_lines, parse_line, parse_entries, parse_list_lines,
}

abbrev pub crlf : Bytes
crlf = 0x0d ∷ 0x0a ∷ []

-- A line as a server sends it.
abbrev pub encode_lines : List Bytes → Bytes
encode_lines [] = []
encode_lines (line ∷ lines) = (line ++ crlf) ++ encode_lines lines

abbrev NoLineFeed : Bytes → Type 0
NoLineFeed = All (λ b. (b == 0x0a) ≡ false)

-- A row that a server can send: text that is not empty and holds no line feed.
pub record IsRow (line : Bytes) : Type 0 where
  pub utf8 : is_utf8 line ≡ true
  pub some_text : bytes_eq line [] ≡ false
  pub one_line : All (λ b. (b == 0x0a) ≡ false) line

split_inclusive-append :
    (line rest : Bytes)
    → NoLineFeed line
    → split_inclusive ((line ++ crlf) ++ rest) ≡ (line ++ crlf) ∷ split_inclusive rest
unfolding split_inclusive
split_inclusive-append [] rest h = refl
split_inclusive-append (b ∷ bs) rest h = rw (h.0, split_inclusive-append bs rest h.1)

strip_suffix-snoc : (c : ℕ) (s : Bytes) → (c == c) ≡ true → strip_suffix c (s ++ c ∷ []) ≡ some s
unfolding strip_suffix
strip_suffix-snoc c [] h = rw h
strip_suffix-snoc c (b ∷ []) h = rw h
strip_suffix-snoc c (b ∷ d ∷ ds) h = rw (strip_suffix-snoc c (d ∷ ds) h)

strip_ending-crlf : (line : Bytes) → strip_ending (line ++ crlf) ≡ line
unfolding strip_ending
strip_ending-crlf line = rw (← append_assoc line (0x0d ∷ []) (0x0a ∷ [])) (
    rw (
      strip_suffix-snoc 0x0a (line ++ 0x0d ∷ []) refl,
      strip_suffix-snoc 0x0d line refl,
      strip_ending,
    ))

nonempty_lines-encode :
    (lines : List Bytes)
    → All IsRow lines
    → nonempty_lines (split_inclusive (encode_lines lines)) ≡ lines
unfolding nonempty_lines split_inclusive
nonempty_lines-encode [] h = refl
nonempty_lines-encode (line ∷ lines) h =
    rw
      (
        split_inclusive-append line (encode_lines lines) (h.0).one_line,
        strip_ending-crlf line,
        (h.0).some_text,
      )
      (ap (λ t. line ∷ t) (nonempty_lines-encode lines h.1))

is_utf8-encode : (lines : List Bytes) → All IsRow lines → is_utf8 (encode_lines lines) ≡ true
unfolding is_utf8
is_utf8-encode [] h = refl
is_utf8-encode (line ∷ lines) h =
    is_utf8-append (line ++ crlf) (encode_lines lines) (is_utf8-append line crlf (h.0).utf8 refl)
      (is_utf8-encode lines h.1)

-- The rows that a server sends, each ended by CR LF, come back as they were.
pub decode_list_bytes-encode_lines :
    (lines : List Bytes) → All IsRow lines → decode_list_bytes (encode_lines lines) ≡ ok lines
unfolding decode_list_bytes
decode_list_bytes-encode_lines lines h = rw (is_utf8-encode lines h, nonempty_lines-encode lines h)

map_err-ok : {A E F : Type 0} (r : Result A E) (f : E → F) {a : A} → map_err f r ≡ ok a → r ≡ ok a
map_err-ok (ok b) f h = cc
map_err-ok (err e) f h = cc

suc-ne-zero : (i : ℕ) → (suc i == 0) ≡ false
suc-ne-zero i = ground arith

entry_lines-later : (i : ℕ) (lines : List Bytes) → entry_lines (suc i) lines ≡ lines
unfolding entry_lines
entry_lines-later i [] = refl
entry_lines-later i (line ∷ lines) =
    rw (suc-ne-zero i) (ap (λ t. line ∷ t) (entry_lines-later (suc i) lines))

entry_lines-cons :
    (line : Bytes) (lines : List Bytes)
    → entry_lines 0 (line ∷ lines) ≡ (if is_total line then lines else line ∷ lines)
unfolding entry_lines
entry_lines-cons line lines = ground (arith, entry_lines-later 0 lines)

module _ ⦃R : Remotefs⦄ ⦃P : ListParser⦄ (path : FilePath) where
  -- A row that names the directory itself or its parent.
  abbrev pub IsDotRow : Bytes → Type 0
  IsDotRow line =
      (f : FtpFile) × (parse_list_entry line ≡ ok f)
      × ((bytes_eq f.name dot || bytes_eq f.name dot_dot) ≡ true)

  -- The files are those of the rows, row by row and in order; only a dot row has none.
  abbrev pub IsReadAs : List Bytes → List File → Type 0
  IsReadAs [] files = files ≡ []
  IsReadAs (line ∷ lines) files =
      (IsDotRow line × IsReadAs lines files)
      ⊎ ((file : File) × (others : List File) × (parse_line path line ≡ ok (some file))
          × (files ≡ file ∷ others)
          × IsReadAs lines others)

  parse_line-IsDotRow : (line : Bytes) → parse_line path line ≡ ok none → IsDotRow line
  unfolding parse_line entry_of
  parse_line-IsDotRow line h =
      let (u, named, parsing) = bind_ok (reject_ambiguous_list_name line) _ h in
      let (f, parsed, built) = bind_ok (map_err _ (parse_list_entry line)) _ parsing in
      (f, map_err-ok (parse_list_entry line) _ parsed, ground (arith, built))

  parse_entries-IsReadAs :
      (lines : List Bytes) (files : List File)
      → parse_entries path lines ≡ ok files
      → IsReadAs lines files
  unfolding parse_entries
  parse_entries-IsReadAs [] files h = cc
  parse_entries-IsReadAs (line ∷ lines) files h =
      let (entry, first, rest) = bind_ok (parse_line path line) _ h in
      let (others, parsed, joined) = bind_ok (parse_entries path lines) _ rest in
      let later : IsReadAs lines others = parse_entries-IsReadAs lines others parsed in
      elim (Option-cases entry) [
        | inl dotted ↦
            let same : others ≡ files = ground (arith, dotted, joined) in
            inl (parse_line-IsDotRow line (first ∙ ap ok dotted), subst (IsReadAs lines) same later)
        | inr (file, listed) ↦
            let same : files ≡ file ∷ others = ground (arith, listed, joined) in
            inr (file, others, first ∙ ap ok listed, same, later)
      ]

  -- A listing that succeeds has dropped no row in silence: its files are those of its rows, one for
  -- each row and in their order, but for the rows that name `.` or `..`, and for a block count in the
  -- first row. A later row that looks like a block count is read as any other.
  pub parse_list_lines-IsReadAs :
      (line : Bytes) (lines : List Bytes) (files : List File)
      → parse_list_lines path (line ∷ lines) ≡ ok files
      → ((is_total line ≡ true) × IsReadAs lines files)
        ⊎ ((is_total line ≡ false) × IsReadAs (line ∷ lines) files)
  unfolding parse_list_lines
  parse_list_lines-IsReadAs line lines files h = elim (Bool-cases (is_total line)) [
    | inl total ↦
        inl
          (total, parse_entries-IsReadAs lines files (rw (entry_lines-cons line lines, total) at h))
    | inr row ↦ inr (
      row,
      parse_entries-IsReadAs (line ∷ lines) files (rw (entry_lines-cons line lines, row) at h),
    )
  ]
