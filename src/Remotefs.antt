-- ===== src/Remotefs.antt =====
-- What the client takes from the crate `remotefs`: the plain values that it builds, and an interface
-- for the functions that it calls.
use remotefs_rs_ftp.Base.{ℕ, ◌≡◌, ◌↔◌, Bool, true, Option, Result, ok}
use remotefs_rs_ftp.Error.{RemoteError}
use remotefs_rs_ftp.Text.{Bytes}
use remotefs_rs_ftp.FilePath.{FilePath, is_absolute}

abbrev pub RemoteResult {ℓ} : Type ℓ → Type ℓ
RemoteResult A = Result A RemoteError

pub data FileType : Type 0 where
  regular directory link : FileType

pub record UnixPexClass : Type 0 where
  pub readable : Bool
  pub writable : Bool
  pub executable : Bool

pub record UnixPex : Type 0 where
  pub owner : UnixPexClass
  pub group : UnixPexClass
  pub others : UnixPexClass

pub record Metadata : Type 0 where
  pub file_type : FileType
  pub size : ℕ
  pub modified : ℕ
  pub mode : Option UnixPex
  pub gid : Option ℕ
  pub uid : Option ℕ
  pub symlink : Option FilePath

pub record File : Type 0 where
  pub path : FilePath
  pub metadata : Metadata

-- The functions of the crate that the client calls: the check of an absolute path, the accessors of
-- a file, the conversion of an I/O error, and the default metadata.
pub record Remotefs : Type 0 where
  pub ensure_absolute : FilePath → RemoteResult (Unit {0})
  pub name : File → Bytes
  pub is_file : File → Bool
  pub is_dir : File → Bool
  pub from_io : ℕ → RemoteError
  pub default_metadata : Metadata

-- The documented check: a path passes exactly if it is absolute.
abbrev pub ChecksAbsolute : Remotefs → Type 0
ChecksAbsolute r = (p : FilePath) → (r.ensure_absolute p ≡ ok tt) ↔ (is_absolute p ≡ true)
