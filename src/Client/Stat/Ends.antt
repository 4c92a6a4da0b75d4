-- ===== src/Client/Stat/Ends.antt =====
-- How `stat`, `list_dir` and `exists` of src/client/sync.rs end, and what they leave of the client.
use remotefs_rs_ftp.Base.{
  ℕ, zero, suc, ◌<◌, ◌≡◌, Bool, true, false, not, ◌&&◌, List, [], ◌∷◌, ok, err, arith,
}
use remotefs_rs_ftp.Error.{kind}
use remotefs_rs_ftp.FilePath.{FilePath, path_eq, parent, is_absolute}
use remotefs_rs_ftp.FilePath.Parents.{root, depth, depth-parent-lt, parent-of_not_root}
use remotefs_rs_ftp.Remotefs.{Remotefs, RemoteResult, File, ChecksAbsolute}
use remotefs_rs_ftp.Wire.{remote_path}
use remotefs_rs_ftp.Wire.Safety.{remote_path_iff}
use remotefs_rs_ftp.Listing.{ListParser}
use remotefs_rs_ftp.Suppaftp.{Suppaftp, IsFinite}
use remotefs_rs_ftp.Session.{Action, fail, panic}
use remotefs_rs_ftp.Client.Quiet.{
  AlwaysQuiet, pure-Quiet, raise-Quiet, lift-Quiet, bind-Quiet, attempt-Quiet, if-Quiet,
  option-Quiet, bool-Quiet, result-Quiet, lift_bind-Quiet,
}
use remotefs_rs_ftp.Client.Quiet.Accessors.{with_stream-Quiet}
use remotefs_rs_ftp.Client.Probe.Ends.{list_or_classify-Quiet}
use remotefs_rs_ftp.Client.Stat.{
  lists_itself, find_entry, check_parent, root_entry, stat_below, stat_from, stat, is_file_result,
  not_a_directory, refuse_file, is_nil, list_dir, exists, is_no_such_file,
}

module _ ⦃E : Suppaftp⦄ ⦃R : Remotefs⦄ ⦃P : ListParser⦄ where
  find_entry-Quiet : (path : FilePath) (entries : List File) → AlwaysQuiet (find_entry path entries)
  unfolding find_entry
  find_entry-Quiet path [] = raise-Quiet _
  find_entry-Quiet path (entry ∷ entries) =
      if-Quiet _ (pure-Quiet entry) (find_entry-Quiet path entries)

  check_parent-Quiet : (found : RemoteResult File) → AlwaysQuiet (check_parent found)
  unfolding check_parent
  check_parent-Quiet (ok entry) = if-Quiet _ (raise-Quiet _) (pure-Quiet tt)
  check_parent-Quiet (err error) = if-Quiet _ (pure-Quiet tt) (raise-Quiet error)

module _ ⦃E : Suppaftp⦄ ⦃R : Remotefs⦄ ⦃P : ListParser⦄ (finite : IsFinite E)
    (checks : ChecksAbsolute R) where
  stat_below-Quiet :
      (path above : FilePath) {stat_parent : Action File}
      → AlwaysQuiet stat_parent
      → AlwaysQuiet (stat_below path above stat_parent)
  unfolding stat_below
  stat_below-Quiet path above p = bind-Quiet (lift-Quiet (remote_path above)) λ remote_parent.
      bind-Quiet (list_or_classify-Quiet finite above remote_parent) λ entries.
        bool-Quiet (lists_itself above entries)
          (λ _.
            bind-Quiet (attempt-Quiet p)
              λ found. bind-Quiet (check_parent-Quiet found) λ _. find_entry-Quiet path entries)
          (λ _. find_entry-Quiet path entries)

  -- The depth of the path bounds the calls on parents.
  stat_from-Quiet :
      (fuel : ℕ) (path : FilePath) → depth path < fuel → AlwaysQuiet (stat_from fuel path)
  unfolding stat_from
  stat_from-Quiet zero path h = absurd (omega arith)
  stat_from-Quiet (suc fuel) path h = lift_bind-Quiet (remote_path path) λ remote sent.
      let absolute : is_absolute path ≡ true =
        (((remote_path_iff checks path remote).0 sent).1).absolute in
      bool-Quiet (path_eq path root) (λ _. with_stream-Quiet (λ _. pure-Quiet (root_entry path)))
        λ below.
          option-Quiet (parent path) {m = fail panic}
            (λ missing.
              let (q, e) = parent-of_not_root path absolute below in absurd (ground arith))
            λ above e.
              let (_, less) = depth-parent-lt path above absolute e in
              stat_below-Quiet path above (stat_from-Quiet fuel above (omega arith))

  pub stat-Quiet : (path : FilePath) → AlwaysQuiet (stat path)
  unfolding stat
  stat-Quiet path = stat_from-Quiet (suc (depth path)) path (omega arith)

  refuse_file-Quiet : (path : FilePath) (b : Bool) → AlwaysQuiet (refuse_file path b)
  unfolding refuse_file
  refuse_file-Quiet path false = pure-Quiet tt
  refuse_file-Quiet path true =
      bind-Quiet (attempt-Quiet (stat-Quiet path))
        λ found. if-Quiet (is_file_result found) (raise-Quiet not_a_directory) (pure-Quiet tt)

  pub list_dir-Quiet : (path : FilePath) → AlwaysQuiet (list_dir path)
  unfolding list_dir
  list_dir-Quiet path = bind-Quiet (lift-Quiet (remote_path path)) λ remote.
      bind-Quiet (list_or_classify-Quiet finite path remote) λ entries.
        bind-Quiet (refuse_file-Quiet path (not (path_eq path root) && lists_itself path entries))
          λ _.
            bind-Quiet (refuse_file-Quiet path (not (path_eq path root) && is_nil entries))
              λ _. pure-Quiet entries

  pub exists-Quiet : (path : FilePath) → AlwaysQuiet (exists path)
  unfolding exists
  exists-Quiet path = bind-Quiet (attempt-Quiet (stat-Quiet path)) λ found.
      result-Quiet found (λ _ _. pure-Quiet true)
        λ error. if-Quiet (is_no_such_file (kind error)) (pure-Quiet false) (raise-Quiet error)
