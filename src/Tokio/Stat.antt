-- ===== src/Tokio/Stat.antt =====
-- src/client/tokio.rs: the metadata that the client reads out of listings.
--
-- `stat` calls itself on the parent of its path: the fuel is one more than the depth of the path.
use remotefs_rs_ftp.Base.{
  ℕ, zero, suc, Bool, true, false, not, ◌&&◌, List, [], ◌∷◌, none, some, ok, err, if◌then◌else◌,
}
use remotefs_rs_ftp.Error.{new, with_message, kind, bad_file, no_such_file_or_directory}
use remotefs_rs_ftp.FilePath.{FilePath, path_eq, parent}
use remotefs_rs_ftp.FilePath.Parents.{root, depth}
use remotefs_rs_ftp.Remotefs.{Remotefs, RemoteResult, File}
use remotefs_rs_ftp.Wire.{remote_path}
use remotefs_rs_ftp.Listing.{ListParser}
use remotefs_rs_ftp.Suppaftp.{Suppaftp}
use remotefs_rs_ftp.Session.{panic, out_of_fuel}
use remotefs_rs_ftp.Client.Stat.{
  is_no_such_file, is_permission_denied, lists_itself, root_entry, is_file_result, not_a_directory,
  is_nil,
}
use remotefs_rs_ftp.Tokio.Runtime.{Tokio}
use remotefs_rs_ftp.Tokio.Task.{Task, pure, raise, fail, ◌>>=◌, ◌>>◌, lift, attempt}
use remotefs_rs_ftp.Tokio.Access.{with_lock}
use remotefs_rs_ftp.Tokio.Probe.{list_or_classify}

module _ ⦃E : Suppaftp⦄ ⦃T : Tokio E⦄ ⦃R : Remotefs⦄ ⦃P : ListParser⦄ where
  unfoldable pub find_entry : FilePath → List File → Task File
  find_entry path [] = raise (new no_such_file_or_directory)
  find_entry path (entry ∷ entries) =
      let rest = find_entry path entries in if path_eq entry.path path then pure entry else rest

  -- What `stat` of the parent says, where the parent may be a file.
  unfoldable pub check_parent : RemoteResult File → Task (Unit {0})
  unfolding is_permission_denied
  check_parent (ok parent_entry) =
      if R.is_file parent_entry
      then raise (with_message bad_file "the parent path is a regular file")
      else pure tt
  check_parent (err error) = if is_permission_denied (kind error) then pure tt else raise error

  -- The entry of `path` in the listing of its parent; `stat_parent` is the call on the parent.
  unfoldable pub stat_below : FilePath → FilePath → Task File → Task File
  unfolding list_or_classify lists_itself find_entry check_parent
  stat_below path above stat_parent = do
    remote_parent ← lift (remote_path above)
    entries ← list_or_classify above remote_parent
    elim (lists_itself above entries) [
      | true ↦ do
        parent_entry ← attempt stat_parent
        check_parent parent_entry
        find_entry path entries
      | false ↦ find_entry path entries
    ]

  unfoldable pub stat_from : ℕ → FilePath → Task File
  unfolding with_lock
  stat_from zero path = fail out_of_fuel
  stat_from (suc fuel) path = do
    remote ← lift (remote_path path)
    elim (path_eq path root) [
      | true ↦ with_lock (λ _. pure (root_entry path))
      | false ↦ elim (parent path) [
        | none ↦ fail panic
        | some above ↦ stat_below path above (stat_from fuel above)
      ]
    ]

  unfoldable pub stat : FilePath → Task File
  stat path = stat_from (suc (depth path)) path

  -- A listing of a file, asked for as a directory: `stat` settles it.
  unfoldable pub refuse_file : FilePath → Bool → Task (Unit {0})
  unfolding is_file_result stat
  refuse_file path false = pure tt
  refuse_file path true = do
    found ← attempt (stat path)
    if is_file_result found then raise not_a_directory else pure tt

  -- The entries, unless they turn out to be a file's.
  unfoldable pub directory_entries : FilePath → List File → Task (List File)
  unfolding refuse_file lists_itself
  directory_entries path entries = do
    let is_root = path_eq path root
    refuse_file path (not is_root && lists_itself path entries)
    refuse_file path (not is_root && is_nil entries)
    pure entries

  unfoldable pub list_dir : FilePath → Task (List File)
  unfolding list_or_classify directory_entries
  list_dir path = do
    remote ← lift (remote_path path)
    entries ← list_or_classify path remote
    directory_entries path entries

  unfoldable pub exists : FilePath → Task Bool
  unfolding is_no_such_file
  exists path = do
    found ← attempt (stat path)
    elim found [
      | ok entry ↦ pure true
      | err error ↦ if is_no_such_file (kind error) then pure false else raise error
    ]
