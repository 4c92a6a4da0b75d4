-- ===== src/Tokio/Twins/Lookups.antt =====
-- The lookups and the classification of refusals in src/client/tokio.rs, beside those of
-- src/client/sync.rs.
use remotefs_rs_ftp.Base.{ℕ, zero, suc, Bool, true, false, not, ◌&&◌, List, [], ◌∷◌, ok, err}
use remotefs_rs_ftp.Error.{kind, is_ambiguous_path_refusal, new, no_such_file_or_directory}
use remotefs_rs_ftp.Text.{Bytes}
use remotefs_rs_ftp.FilePath.{FilePath, path_eq, parent}
use remotefs_rs_ftp.FilePath.Parents.{root, depth}
use remotefs_rs_ftp.Remotefs.{Remotefs, RemoteResult, File}
use remotefs_rs_ftp.Wire.Safety.{IsOneLine}
use remotefs_rs_ftp.Listing.{ListParser}
use remotefs_rs_ftp.Suppaftp.{Suppaftp}
use remotefs_rs_ftp.Session.{Action, panic, out_of_fuel}
use remotefs_rs_ftp.Client.Probe
use remotefs_rs_ftp.Client.Probe.{settled}
use remotefs_rs_ftp.Client.Stat
use remotefs_rs_ftp.Client.Stat.{
  is_no_such_file, is_permission_denied, lists_itself, root_entry, is_file_result, not_a_directory,
  is_nil,
}
use remotefs_rs_ftp.Tokio.Runtime.{Tokio}
use remotefs_rs_ftp.Tokio.Task.{Task}
use remotefs_rs_ftp.Tokio.Probe.{
  probed, probe_ancestors, ancestor_proves_absent, classify_listing, list_or_classify,
}
use remotefs_rs_ftp.Tokio.Stat.{
  find_entry, check_parent, stat_below, stat_from, stat, refuse_file, directory_entries, list_dir,
  exists,
}
use remotefs_rs_ftp.Tokio.Twins.{
  Relation, IsChained, IsCommanded, chain, sent, tried, on_if, on_bool, on_option, on_result,
}

module _ ⦃E : Suppaftp⦄ ⦃T : Tokio E⦄ ⦃R : Remotefs⦄ ⦃P : ListParser⦄ {Q : Relation}
    (chained : IsChained Q) (commanded : IsCommanded Q) where
  probed-Twins :
      (path : FilePath) (listed : RemoteResult (List File)) {further : Task Bool}
      {further' : Action Bool}
      → Q Bool further further'
      → Q Bool (probed further path listed) (Probe.probed further' path listed)
  unfolding probed Probe.probed
  probed-Twins path (ok entries) p = chained.pure_ Bool _
  probed-Twins path (err error) p =
      on_if Q (is_ambiguous_path_refusal error) p (chained.pure_ Bool false)

  probe_ancestors-Twins :
      (rounds : ℕ) (path : FilePath)
      → Q Bool (probe_ancestors rounds path) (Probe.probe_ancestors rounds path)
  unfolding probe_ancestors Probe.probe_ancestors
  probe_ancestors-Twins zero path = chained.pure_ Bool false
  probe_ancestors-Twins (suc rounds) path =
      on_option Q (parent path) (chained.pure_ Bool false) λ above.
        sent chained above λ remote one_remote.
          chain chained (tried chained (commanded.raw above remote one_remote))
            λ listed. probed-Twins path listed (probe_ancestors-Twins rounds above)

  classify_listing-Twins :
      (path : FilePath) (listed : RemoteResult (List File))
      → Q (List File) (classify_listing path listed) (Probe.classify_listing path listed)
  unfolding classify_listing Probe.classify_listing ancestor_proves_absent
      Probe.ancestor_proves_absent
  classify_listing-Twins path (ok entries) = chained.pure_ (List File) entries
  classify_listing-Twins path (err error) =
      on_if Q (is_ambiguous_path_refusal error)
        (chain chained (probe_ancestors-Twins 8 path)
          λ absent. chained.raise_ (List File) (settled error absent))
        (chained.raise_ (List File) error)

  list_or_classify-Twins :
      (path : FilePath) (remote : Bytes)
      → IsOneLine remote
      → Q (List File) (list_or_classify path remote) (Probe.list_or_classify path remote)
  unfolding list_or_classify Probe.list_or_classify
  list_or_classify-Twins path remote one_remote =
      chain chained (tried chained (commanded.raw path remote one_remote))
        (classify_listing-Twins path)

  find_entry-Twins :
      (path : FilePath) (entries : List File)
      → Q File (find_entry path entries) (Stat.find_entry path entries)
  unfolding find_entry Stat.find_entry
  find_entry-Twins path [] = chained.raise_ File (new no_such_file_or_directory)
  find_entry-Twins path (entry ∷ entries) =
      on_if Q (path_eq entry.path path) (chained.pure_ File entry) (find_entry-Twins path entries)

  check_parent-Twins :
      (found : RemoteResult File) → Q (Unit {0}) (check_parent found) (Stat.check_parent found)
  unfolding check_parent Stat.check_parent
  check_parent-Twins (ok entry) =
      on_if Q (R.is_file entry) (chained.raise_ (Unit {0}) _) (chained.pure_ (Unit {0}) tt)
  check_parent-Twins (err error) =
      on_if Q (is_permission_denied (kind error)) (chained.pure_ (Unit {0}) tt)
        (chained.raise_ (Unit {0}) error)

  stat_below-Twins :
      (path above : FilePath) {t : Task File} {m : Action File}
      → Q File t m
      → Q File (stat_below path above t) (Stat.stat_below path above m)
  unfolding stat_below Stat.stat_below
  stat_below-Twins path above p = sent chained above λ remote one_remote.
      chain chained (list_or_classify-Twins above remote one_remote) λ entries.
        on_bool Q (lists_itself above entries)
          (chain chained (tried chained p)
            λ found. chain chained (check_parent-Twins found) λ _. find_entry-Twins path entries)
          (find_entry-Twins path entries)

  stat_from-Twins :
      (fuel : ℕ) (path : FilePath) → Q File (stat_from fuel path) (Stat.stat_from fuel path)
  unfolding stat_from Stat.stat_from
  stat_from-Twins zero path = chained.fail_ File out_of_fuel
  stat_from-Twins (suc fuel) path = sent chained path λ remote one_remote.
      on_bool Q (path_eq path root) (commanded.idle File (root_entry path)) (
        on_option Q (parent path) (chained.fail_ File panic)
          λ above. stat_below-Twins path above (stat_from-Twins fuel above))

  pub stat-Twins : (path : FilePath) → Q File (stat path) (Stat.stat path)
  unfolding stat Stat.stat
  stat-Twins path = stat_from-Twins (suc (depth path)) path

  refuse_file-Twins :
      (path : FilePath) (b : Bool) → Q (Unit {0}) (refuse_file path b) (Stat.refuse_file path b)
  unfolding refuse_file Stat.refuse_file
  refuse_file-Twins path false = chained.pure_ (Unit {0}) tt
  refuse_file-Twins path true = chain chained (tried chained (stat-Twins path)) λ found.
      on_if Q (is_file_result found) (chained.raise_ (Unit {0}) not_a_directory)
        (chained.pure_ (Unit {0}) tt)

  pub list_dir-Twins : (path : FilePath) → Q (List File) (list_dir path) (Stat.list_dir path)
  unfolding list_dir Stat.list_dir directory_entries Stat.directory_entries
  list_dir-Twins path = sent chained path λ remote one_remote.
      chain chained (list_or_classify-Twins path remote one_remote) λ entries.
        let is_root : Bool = path_eq path root in
        chain chained (refuse_file-Twins path (not is_root && lists_itself path entries)) λ _.
          chain chained (refuse_file-Twins path (not is_root && is_nil entries))
            λ _. chained.pure_ (List File) entries

  pub exists-Twins : (path : FilePath) → Q Bool (exists path) (Stat.exists path)
  unfolding exists Stat.exists
  exists-Twins path = chain chained (tried chained (stat-Twins path)) λ found.
      on_result Q found (λ entry. chained.pure_ Bool true)
        λ error.
          on_if Q (is_no_such_file (kind error)) (chained.pure_ Bool false)
            (chained.raise_ Bool error)
