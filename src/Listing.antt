-- ===== src/Listing.antt =====
-- src/client/list.rs: from the bytes of a `LIST` transfer to the files of a directory.
--
-- The parsers of POSIX and DOS lines belong to the FTP library and are an interface.
pub mod Fields
pub mod Reject
pub mod Children
pub mod Lines
mod Tests
use mathlib.Core.Option
use remotefs_rs_ftp.Base.{
  ℕ, zero, suc, Bool, true, false, ◌&&◌, ◌||◌, not, List, [], ◌∷◌, ◌++◌, Option, none, some, ◌==◌,
  if◌then◌else◌, length, drop, any, all, Result, ok, err, ◌>>=◌, ◌>>◌, map_err,
}
use remotefs_rs_ftp.Error.{
  FtpError, bad_response, RemoteError, with_message, with_source, foreign, protocol_error,
}
use remotefs_rs_ftp.Text.{Bytes, bytes_eq, is_utf8, is_ascii_control, is_ascii_digit}
use remotefs_rs_ftp.Text.Search.{starts_with, strip_suffix}
use remotefs_rs_ftp.FilePath.{
  FilePath, Component, normal, push_byte, dot, dot_dot, components, join, absolutize,
}
use remotefs_rs_ftp.Remotefs.{
  Remotefs, RemoteResult, FileType, regular, directory, link, UnixPexClass, UnixPex, Metadata, File,
}
use remotefs_rs_ftp.Listing.Fields.{first_is, is_special_byte, normalize_special_posix_line}
use remotefs_rs_ftp.Listing.Reject.{reject_ambiguous_list_name}

-- What a parsed line answers.
pub data PosixPexQuery : Type 0 where
  owner group others : PosixPexQuery

pub record FtpFile : Type 0 where
  pub name : Bytes
  pub is_symlink : Bool
  pub is_directory : Bool
  pub size : ℕ
  pub modified : ℕ
  pub gid : Option ℕ
  pub uid : Option ℕ
  pub symlink : Option FilePath
  pub can_read : PosixPexQuery → Bool
  pub can_write : PosixPexQuery → Bool
  pub can_execute : PosixPexQuery → Bool

-- The two parsers of the library; an error is opaque.
pub record ListParser : Type 0 where
  pub parse_posix : Bytes → Result FtpFile ℕ
  pub parse_dos : Bytes → Result FtpFile ℕ

-- `split_inclusive('\n')`: each piece but the last ends in a line feed.
unfoldable pub split_inclusive : Bytes → List Bytes
split_inclusive [] = []
split_inclusive (c ∷ cs) =
    let rest = split_inclusive cs in if c == 0x0a then (c ∷ []) ∷ rest else push_byte c rest

-- A line without its ending, `\n` or `\r\n`.
unfoldable pub strip_ending : Bytes → Bytes
unfolding strip_suffix
strip_ending piece = elim (strip_suffix 0x0a piece) [
  | none ↦ piece
  | some l ↦ elim (strip_suffix 0x0d l) [ none ↦ l | some m ↦ m ]
]

-- `listing.lines().filter(|line| !line.is_empty())`.
unfoldable pub nonempty_lines : List Bytes → List Bytes
unfolding strip_ending
nonempty_lines [] = []
nonempty_lines (piece ∷ pieces) =
    let rest = nonempty_lines pieces in
    if bytes_eq (strip_ending piece) [] then rest else strip_ending piece ∷ rest

unfoldable pub decode_list_bytes : Bytes → Result (List Bytes) FtpError
unfolding nonempty_lines split_inclusive is_utf8
decode_list_bytes bytes =
    if is_utf8 bytes then ok (nonempty_lines (split_inclusive bytes)) else err bad_response

abbrev pub total_prefix : Bytes
total_prefix = b't' ∷ b'o' ∷ b't' ∷ b'a' ∷ b'l' ∷ b' ' ∷ []

-- The POSIX block count.
unfoldable pub is_total : Bytes → Bool
is_total line =
    starts_with total_prefix line
    && not (bytes_eq (drop 6 line) [])
    && all is_ascii_digit (drop 6 line)

-- `enumerate` and `filter`.
unfoldable pub entry_lines : ℕ → List Bytes → List Bytes
unfolding is_total
entry_lines index [] = []
entry_lines index (line ∷ lines) =
    let rest = entry_lines (suc index) lines in
    if index == 0 && is_total line then rest else line ∷ rest

or_else : Result FtpFile ℕ → Result FtpFile ℕ → Result FtpFile ℕ
or_else (ok f) other = ok f
or_else (err e) other = other

is_normal : List Component → Bool
is_normal (normal s ∷ cs) = true
is_normal _ = false

unfoldable pub is_direct_child : Bytes → Bool
unfolding components is_normal
is_direct_child name =
    not (bytes_eq name [])
    && not (bytes_eq name dot)
    && not (bytes_eq name dot_dot)
    && not (any is_ascii_control name)
    && not (any (λ b. b == b'/') name)
    && length (components name) == 1
    && is_normal (components name)

unfoldable pub validate_list_child_name : Bytes → RemoteResult (Unit {0})
unfolding is_direct_child
validate_list_child_name name =
    if is_direct_child name
    then ok tt
    else err (with_message protocol_error "LIST returned an unsafe child name")

query_class : FtpFile → PosixPexQuery → UnixPexClass
query_class f who = record {
  readable = f.can_read who;
  writable = f.can_write who;
  executable = f.can_execute who;
}

unfoldable pub query_unix_pex : FtpFile → UnixPex
unfolding query_class
query_unix_pex f = record {
  owner = query_class f owner;
  group = query_class f group;
  others = query_class f others;
}

file_type_of : FtpFile → FileType
file_type_of f = if f.is_symlink then link else if f.is_directory then directory else regular

-- A value that the line gives, or the default.
abbrev pub or_default {ℓ} : {A : Type ℓ} → Option A → Option A → Option A
or_default none d = d
or_default (some a) d = some a

module _ ⦃R : Remotefs⦄ ⦃P : ListParser⦄ where
  unfoldable pub parse_list_entry : Bytes → Result FtpFile ℕ
  unfolding or_else normalize_special_posix_line
  parse_list_entry line =
      if first_is is_special_byte line
      then or_else (P.parse_posix (b'-' ∷ drop 1 (normalize_special_posix_line line)))
          (P.parse_dos line)
      else or_else (P.parse_posix line) (P.parse_dos line)

  metadata_of : FilePath → FtpFile → Metadata
  unfolding file_type_of query_unix_pex absolutize
  metadata_of path f = record {
    file_type = file_type_of f;
    size = f.size;
    modified = f.modified;
    mode = some (query_unix_pex f);
    gid = or_default f.gid R.default_metadata.gid;
    uid = or_default f.uid R.default_metadata.uid;
    symlink =
        or_default (Option.map (λ target. absolutize path target) f.symlink)
          R.default_metadata.symlink;
  }

  -- A parsed line as a file of the directory; `.` and `..` are left out.
  unfoldable pub entry_of : FilePath → FtpFile → RemoteResult (Option File)
  unfolding validate_list_child_name metadata_of join
  entry_of path f =
      if bytes_eq f.name dot || bytes_eq f.name dot_dot
      then ok none
      else validate_list_child_name f.name
        >> ok (some (record { path = join path f.name; metadata = metadata_of path f }))

  unfoldable pub parse_line : FilePath → Bytes → RemoteResult (Option File)
  parse_line path line = do
    reject_ambiguous_list_name line
    f ← map_err (λ e. with_source protocol_error (foreign e)) (parse_list_entry line)
    entry_of path f

  abbrev cons_entry : Option File → List File → List File
  cons_entry none files = files
  cons_entry (some file) files = file ∷ files

  -- `collect` stops at the first error.
  unfoldable pub parse_entries : FilePath → List Bytes → RemoteResult (List File)
  parse_entries path [] = ok []
  parse_entries path (line ∷ lines) = do
    entry ← parse_line path line
    files ← parse_entries path lines
    ok (cons_entry entry files)

  unfoldable pub parse_list_lines : FilePath → List Bytes → RemoteResult (List File)
  parse_list_lines path lines = parse_entries path (entry_lines 0 lines)
