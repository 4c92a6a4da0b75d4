-- ===== src/FilePath/Tests.antt =====
-- Tests of the path functions.
use remotefs_rs_ftp.Base.{◌++◌, ◌≡◌, refl, true, false, [], ◌∷◌, none, some}
use remotefs_rs_ftp.Text.{codes}
use remotefs_rs_ftp.FilePath.{
  is_absolute, root_dir, cur_dir, parent_dir, normal, components, path_eq, file_name, parent, join,
  absolutize, body_components, segments,
}
use remotefs_rs_ftp.FilePath.Joins.{components-absolutize}

parents :
    (parent (codes "/a/b") ≡ some (codes "/a"))
    × (parent (codes "/a//./b/") ≡ some (codes "/a"))
    × (parent (codes "/a/./b/c") ≡ some (codes "/a/./b"))
    × (parent (codes "/a") ≡ some (codes "/"))
    × (parent (codes "/.") ≡ none)
    × (parent (codes "a") ≡ some [])
    × (parent (codes "./a") ≡ some (codes "."))
    × (parent (codes ".") ≡ some [])
unfolding parent
parents = (refl, refl, refl, refl, refl, refl, refl, refl)

splits :
    (components (codes "/a/../b.")
      ≡ root_dir ∷ normal (codes "a") ∷ parent_dir ∷ normal (codes "b.") ∷ [])
    × (components (codes "./a/.") ≡ cur_dir ∷ normal (codes "a") ∷ [])
    × (path_eq (codes "/./") (codes "/") ≡ true)
    × (path_eq (codes "/a//b") (codes "/a/b/") ≡ true)
    × (path_eq (codes "/a/b") (codes "/a/c") ≡ false)
    × (file_name (codes "/a/b/") ≡ some (codes "b"))
    × (file_name (codes "/") ≡ none)
unfolding components path_eq file_name
splits = (refl, refl, refl, refl, refl, refl, refl)

joins :
    (join (codes "/") (codes "x") ≡ codes "/x")
    × (join (codes "/d") (codes "x") ≡ codes "/d/x")
    × (absolutize (codes "/home/omar") (codes "readme.txt") ≡ codes "/home/omar/readme.txt")
    × (absolutize (codes "/home/omar") (codes "/tmp/readme.txt") ≡ codes "/tmp/readme.txt")
unfolding join absolutize
joins = (refl, refl, refl, refl)

components-absolutize_example :
    (is_absolute (codes "./a") ≡ false
      → (is_absolute (absolutize (codes "/d") (codes "./a")) ≡ true)
        × (components (absolutize (codes "/d") (codes "./a"))
            ≡ components (codes "/d") ++ body_components (segments (codes "./a"))))
    × (is_absolute (codes "./a") ≡ true → absolutize (codes "/d") (codes "./a") ≡ codes "./a")
components-absolutize_example = components-absolutize (codes "/d") (codes "./a") refl
