-- ===== src/Client/Stat.antt =====
-- src/client/sync.rs: the metadata that the client reads out of listings.
--
-- `stat` calls itself on the parent of its path: the fuel is one more than the depth of the path.
pub mod Ends
use remotefs_rs_ftp.Base.{
  ℕ, zero, suc, Bool, true, false, not, ◌&&◌, List, [], ◌∷◌, Option, none, some, Result, ok, err,
  ◌==◌, if◌then◌else◌,
}
use remotefs_rs_ftp.Error.{
  RemoteError, RemoteErrorType, new, with_message, kind, bad_file, permission_denied,
  no_such_file_or_directory,
}
use remotefs_rs_ftp.Text.{Bytes, bytes_eq}
use remotefs_rs_ftp.FilePath.{FilePath, path_eq, file_name, parent}
use remotefs_rs_ftp.FilePath.Parents.{root, depth}
use remotefs_rs_ftp.Remotefs.{Remotefs, RemoteResult, File, directory}
use remotefs_rs_ftp.Wire.{remote_path}
use remotefs_rs_ftp.Listing.{ListParser}
use remotefs_rs_ftp.Suppaftp.{Suppaftp}
use remotefs_rs_ftp.Session.{
  State, Outcome, panic, out_of_fuel, Action, ◌>>=◌, ◌>>◌, pure, raise, fail, lift, attempt,
}
use remotefs_rs_ftp.Client.Access.{with_stream}
use remotefs_rs_ftp.Client.Probe.{list_or_classify}

unfoldable pub is_no_such_file : RemoteErrorType → Bool
is_no_such_file no_such_file_or_directory = true
is_no_such_file _ = false

unfoldable pub is_permission_denied : RemoteErrorType → Bool
is_permission_denied permission_denied = true
is_permission_denied _ = false

module _ ⦃E : Suppaftp⦄ ⦃R : Remotefs⦄ ⦃P : ListParser⦄ where
  -- `parent_is_ambiguous_file_listing`, and `target_is_file` in `list_dir`: the listing of a path
  -- is the one file of its own name.
  unfoldable pub lists_itself : FilePath → List File → Bool
  unfolding file_name
  lists_itself path (entry ∷ []) = elim (file_name path) [
    | none ↦ false
    | some name ↦ bytes_eq (R.name entry) name && R.is_file entry
  ]
  lists_itself path _ = false

  unfoldable pub find_entry : FilePath → List File → Action File
  find_entry path [] = raise (new no_such_file_or_directory)
  find_entry path (entry ∷ entries) =
      let rest = find_entry path entries in if path_eq entry.path path then pure entry else rest

  -- What `stat` of the parent says, where the parent may be a file.
  unfoldable pub check_parent : RemoteResult File → Action (Unit {0})
  unfolding is_permission_denied
  check_parent (ok parent_entry) =
      if R.is_file parent_entry
      then raise (with_message bad_file "the parent path is a regular file")
      else pure tt
  check_parent (err error) = if is_permission_denied (kind error) then pure tt else raise error

  abbrev pub root_entry : FilePath → File
  root_entry path = record {
    path = path;
    metadata = record R.default_metadata { file_type = directory };
  }

  -- The entry of `path` in the listing of its parent; `stat_parent` is the call on the parent.
  unfoldable pub stat_below : FilePath → FilePath → Action File → Action File
  unfolding list_or_classify lists_itself find_entry check_parent
  stat_below path above stat_parent = do
    remote_parent ← lift (remote_path above)
    entries ← list_or_classify above remote_parent
    elim (lists_itself above entries) [
      | true ↦ do
        parent_entry ← attempt stat_parent
        check_parent parent_entry
        find_entry path entries
      | false ↦ find_entry path entries
    ]

  unfoldable pub stat_from : ℕ → FilePath → Action File
  unfolding with_stream
  stat_from zero path = fail out_of_fuel
  stat_from (suc fuel) path = do
    remote ← lift (remote_path path)
    elim (path_eq path root) [
      | true ↦ with_stream (λ _. pure (root_entry path))
      | false ↦ elim (parent path) [
        | none ↦ fail panic
        | some above ↦ stat_below path above (stat_from fuel above)
      ]
    ]

  unfoldable pub stat : FilePath → Action File
  stat path = stat_from (suc (depth path)) path

  unfoldable pub is_file_result : RemoteResult File → Bool
  is_file_result (ok entry) = R.is_file entry
  is_file_result (err error) = false

  abbrev pub not_a_directory : RemoteError
  not_a_directory = with_message bad_file "LIST requires a directory path"

  -- A listing of a file, asked for as a directory: `stat` settles it.
  unfoldable pub refuse_file : FilePath → Bool → Action (Unit {0})
  unfolding is_file_result
  refuse_file path false = pure tt
  refuse_file path true = do
    found ← attempt (stat path)
    if is_file_result found then raise not_a_directory else pure tt

  abbrev pub is_nil : List File → Bool
  is_nil [] = true
  is_nil (entry ∷ entries) = false

  -- The entries, unless they turn out to be a file's.
  unfoldable pub directory_entries : FilePath → List File → Action (List File)
  unfolding refuse_file lists_itself
  directory_entries path entries = do
    let is_root = path_eq path root
    refuse_file path (not is_root && lists_itself path entries)
    refuse_file path (not is_root && is_nil entries)
    pure entries

  unfoldable pub list_dir : FilePath → Action (List File)
  unfolding list_or_classify directory_entries
  list_dir path = do
    remote ← lift (remote_path path)
    entries ← list_or_classify path remote
    directory_entries path entries

  unfoldable pub exists : FilePath → Action Bool
  unfolding is_no_such_file
  exists path = do
    found ← attempt (stat path)
    elim found [
      | ok entry ↦ pure true
      | err error ↦ if is_no_such_file (kind error) then pure false else raise error
    ]
