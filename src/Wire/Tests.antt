-- ===== src/Wire/Tests.antt =====
-- Tests of the paths that are sent.
use remotefs_rs_ftp.Base.{◌≡◌, refl, ◌↔◌, true, false, ◌∷◌, ok, ◌++◌}
use remotefs_rs_ftp.Text.{codes}
use remotefs_rs_ftp.FilePath.{components}
use remotefs_rs_ftp.Wire.{is_refused, remote_path}
use remotefs_rs_ftp.Wire.Safety.{IsWirePath, remote_path_iff}
use remotefs_rs_ftp.Fake.{fake_paths, fake_paths-ChecksAbsolute}

refusals :
    (is_refused (codes "/a/b") ≡ false)
    × (is_refused (codes "a/b") ≡ true)
    × (is_refused (codes "//host/b") ≡ true)
    × (is_refused (codes "/a/../b") ≡ true)
    × (is_refused (codes "/a" ++ 0x0a ∷ codes "DELE b") ≡ true)
unfolding is_refused components
refusals = (refl, refl, refl, refl, refl)

remote_path_iff_example :
    (remote_path (codes "/a/b") ≡ ok (codes "/a/b"))
    ↔ ((codes "/a/b" ≡ codes "/a/b") × IsWirePath (codes "/a/b"))
remote_path_iff_example = remote_path_iff fake_paths-ChecksAbsolute (codes "/a/b") (codes "/a/b")
