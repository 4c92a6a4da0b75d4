-- ===== src/Wire.antt =====
-- src/client/path.rs on POSIX systems: the wire form of a path.
pub mod Safety
mod Tests
use remotefs_rs_ftp.Base.{
  ℕ, Bool, true, false, ◌&&◌, ◌||◌, not, List, [], ◌∷◌, Result, ok, err, ◌>>=◌, ◌>>◌, any, ◌==◌,
  if◌then◌else◌,
}
use remotefs_rs_ftp.Error.{RemoteError, with_message, invalid_path}
use remotefs_rs_ftp.Text.{Bytes, is_utf8, is_ascii_control}
use remotefs_rs_ftp.FilePath.{FilePath, Component, parent_dir, is_absolute, components}
use remotefs_rs_ftp.Remotefs.{Remotefs, RemoteResult}

unfoldable pub starts_with_two_slashes : Bytes → Bool
starts_with_two_slashes (c ∷ d ∷ ds) = c == b'/' && d == b'/'
starts_with_two_slashes _ = false

unfoldable pub is_parent_dir : Component → Bool
is_parent_dir parent_dir = true
is_parent_dir _ = false

-- The test that refuses a path.
unfoldable pub is_refused : Bytes → Bool
unfolding starts_with_two_slashes is_parent_dir
is_refused path =
    not (is_absolute path)
    || starts_with_two_slashes path
    || any is_ascii_control path
    || any is_parent_dir (components path)

to_str : FilePath → RemoteResult Bytes
to_str path =
    if is_utf8 path
    then ok path
    else err (with_message invalid_path "FTP paths must contain valid UTF-8")

check_root : Bytes → RemoteResult Bytes
unfolding is_refused
check_root path =
    if is_refused path
    then err (with_message invalid_path "FTP paths must use a POSIX absolute root")
    else ok path

module _ ⦃R : Remotefs⦄ where
  unfoldable pub remote_path : FilePath → RemoteResult Bytes
  unfolding to_str check_root
  remote_path path = do R.ensure_absolute path; text ← to_str path; check_root text

-- `resolve` changes nothing on POSIX systems.
abbrev pub resolve : FilePath → FilePath
resolve p = p
