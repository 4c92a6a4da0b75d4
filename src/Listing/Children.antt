-- ===== src/Listing/Children.antt =====
-- The names that a server may list (src/client/list.rs), and where the listed files lie.
use remotefs_rs_ftp.Base.{
  ◌≡◌, refl, ◌↔◌, true, false, List, [], ◌∷◌, ◌++◌, Option, none, some, ok, ◌==◌, any, All, arith,
  map_err, bind_ok,
}
use remotefs_rs_ftp.Text.{Bytes, bytes_eq, is_ascii_control}
use remotefs_rs_ftp.FilePath.{FilePath, normal, is_skipped, dot_dot, is_absolute, components, join}
use remotefs_rs_ftp.FilePath.Segments.{NoSlash, segments-plain}
use remotefs_rs_ftp.FilePath.Joins.{IsPlainName, components-join, plain_not_absolute}
use remotefs_rs_ftp.Wire.Safety.{IsPrintable, IsPrintable-iff}
use remotefs_rs_ftp.Remotefs.{Remotefs, File}
use remotefs_rs_ftp.Listing.{
  FtpFile, ListParser, is_direct_child, validate_list_child_name, entry_of, parse_line,
  parse_list_entry, parse_entries, entry_lines, parse_list_lines, cons_entry,
}
use remotefs_rs_ftp.Listing.Reject.{reject_ambiguous_list_name}

-- A plain name with no control characters.
pub record IsChildName (name : Bytes) : Type 0 where
  pub plain : IsPlainName name
  pub printable : All IsPrintable name

NoSlash-iff : (s : Bytes) → (any (λ b. b == b'/') s ≡ false) ↔ NoSlash s
NoSlash-iff [] = (λ _. tt, λ _. refl)
NoSlash-iff (b ∷ bs) =
    let rest = NoSlash-iff bs in
    (λ h. (ground arith, rest.0 (ground arith)), λ h. ground (arith, rest.1 h.1))

-- A plain name has one component, itself.
components-plain : (name : Bytes) → IsPlainName name → components name ≡ normal name ∷ []
unfolding components is_skipped
components-plain name n = ground (
  arith,
  n.proper,
  n.no_parent,
  segments-plain name n.no_slash,
  plain_not_absolute name n.no_slash,
)

direct_child_tests :
    (name : Bytes)
    → is_direct_child name ≡ true
    → (is_skipped name ≡ false)
      × (bytes_eq name dot_dot ≡ false)
      × (any is_ascii_control name ≡ false)
      × (any (λ b. b == b'/') name ≡ false)
unfolding is_direct_child is_skipped
direct_child_tests name h = ground arith

direct_child_from :
    (name : Bytes)
    → is_skipped name ≡ false
    → bytes_eq name dot_dot ≡ false
    → any is_ascii_control name ≡ false
    → any (λ b. b == b'/') name ≡ false
    → components name ≡ normal name ∷ []
    → is_direct_child name ≡ true
unfolding is_direct_child is_skipped
direct_child_from name a b c d e = ground arith

is_direct_child_iff : (name : Bytes) → (is_direct_child name ≡ true) ↔ IsChildName name
is_direct_child_iff name = (
  λ h.
      let (proper, no_parent, no_control, no_slash) = direct_child_tests name h in
      record {
        plain = record {
          no_slash = (NoSlash-iff name).0 no_slash;
          proper = proper;
          no_parent = no_parent;
        };
        printable = (IsPrintable-iff name).0 no_control;
      },
  λ h.
      let n = h.plain in
      direct_child_from name n.proper n.no_parent ((IsPrintable-iff name).1 h.printable)
        ((NoSlash-iff name).1 n.no_slash) (components-plain name n),
)

-- A listed name is accepted exactly if it is neither empty nor `.` nor `..`, and holds no slash and
-- no ASCII control character.
pub validate_list_child_name_iff :
    (name : Bytes) → (validate_list_child_name name ≡ ok tt) ↔ IsChildName name
unfolding validate_list_child_name
validate_list_child_name_iff name = (
  λ h. (is_direct_child_iff name).0 (ground arith),
  λ h. let direct = (is_direct_child_iff name).1 h in ground arith,
)

-- A file directly below a directory, under a name that a server may list.
abbrev pub IsChildOf : FilePath → File → Type 0
IsChildOf path file =
    (name : Bytes) × IsChildName name × (components file.path ≡ components path ++ normal name ∷ [])

abbrev IsEntryOf : FilePath → Option File → Type 0
IsEntryOf path none = Unit
IsEntryOf path (some file) = IsChildOf path file

module _ ⦃R : Remotefs⦄ ⦃P : ListParser⦄ (path : FilePath)
    (absolute : is_absolute path ≡ true) where
  entry_of-IsEntryOf :
      (f : FtpFile) (entry : Option File) → entry_of path f ≡ ok entry → IsEntryOf path entry
  unfolding entry_of
  entry_of-IsEntryOf f none h = tt
  entry_of-IsEntryOf f (some file) h =
      let valid : validate_list_child_name f.name ≡ ok tt = ground arith in
      let same : file.path ≡ join path f.name = ground arith in
      let child = (validate_list_child_name_iff f.name).0 valid in
      (f.name, child, rw same (components-join path f.name absolute child.plain))

  parse_line-IsEntryOf :
      (line : Bytes) (entry : Option File) → parse_line path line ≡ ok entry → IsEntryOf path entry
  unfolding parse_line
  parse_line-IsEntryOf line entry h =
      let (u, named, parsing) = bind_ok (reject_ambiguous_list_name line) _ h in
      let (f, parsed, built) = bind_ok (map_err _ (parse_list_entry line)) _ parsing in
      entry_of-IsEntryOf f entry built

  cons_entry-IsChildOf :
      (entry : Option File) (files : List File)
      → IsEntryOf path entry
      → All (IsChildOf path) files
      → All (IsChildOf path) (cons_entry entry files)
  cons_entry-IsChildOf none files e h = h
  cons_entry-IsChildOf (some file) files e h = (e, h)

  parse_entries-IsChildOf :
      (lines : List Bytes) (files : List File)
      → parse_entries path lines ≡ ok files
      → All (IsChildOf path) files
  unfolding parse_entries
  parse_entries-IsChildOf [] files h = let none_listed : [] ≡ files = cc in rw (← none_listed) tt
  parse_entries-IsChildOf (line ∷ lines) files h =
      let (entry, first, rest) = bind_ok (parse_line path line) _ h in
      let (others, parsed, joined) = bind_ok (parse_entries path lines) _ rest in
      let same : cons_entry entry others ≡ files = cc in
      rw (← same) (
        cons_entry-IsChildOf entry others (parse_line-IsEntryOf line entry first)
          (parse_entries-IsChildOf lines others parsed))

  -- A server cannot list a file outside the directory: each file that a listing of an absolute path
  -- yields lies directly below it, under a name with no slash or control character that is neither
  -- empty nor a dot name.
  pub parse_list_lines-IsChildOf :
      (lines : List Bytes) (files : List File)
      → parse_list_lines path lines ≡ ok files
      → All (IsChildOf path) files
  unfolding parse_list_lines
  parse_list_lines-IsChildOf lines files h = parse_entries-IsChildOf (entry_lines 0 lines) files h
