-- ===== src/FilePath/Parents.antt =====
-- The parents of absolute paths.
use remotefs_rs_ftp.Base.{
  List-cases, Option-cases, ◌⊎◌, ℕ, ◌<◌, ◌≡◌, refl, true, false, List, [], ◌∷◌, none, some, ◌==◌,
  All, length, arith, inl, inr, ap, ◌∙◌, sym,
}
use remotefs_rs_ftp.Text.{Bytes}
use remotefs_rs_ftp.FilePath.{
  FilePath, segments, join_segments, trim_right, drop_last, parent, parent_segments, is_absolute,
  path_eq, body_components,
}
use remotefs_rs_ftp.FilePath.Segments.{
  NoSlash, segments-NoSlash, segments-join_segments, All-trim_right, All-drop_last,
  length-trim_right-le, length-drop_last, trim_right_idem, body_components-trim_right,
}

abbrev pub root : FilePath
root = b'/' ∷ []

-- How many parts follow the root, once the end is trimmed.
unfoldable pub depth : FilePath → ℕ
unfolding trim_right segments
depth [] = 0
depth (c ∷ cs) = length (trim_right (segments cs))

-- Trimmed parts come back from their joined form.
trimmed_back :
    (ss : List Bytes)
    → All NoSlash ss
    → trim_right ss ≡ ss
    → trim_right (segments (join_segments ss)) ≡ ss
unfolding trim_right join_segments segments
trimmed_back [] h e = refl
trimmed_back (s ∷ ss) h e = rw (segments-join_segments s ss h) e

parent_segments_cases :
    (ss : List Bytes)
    → ((trim_right ss ≡ []) × (parent_segments ss ≡ none))
      ⊎ ((t : Bytes) × (ts : List Bytes) × (trim_right ss ≡ t ∷ ts)
          × (parent_segments ss ≡ some (trim_right (drop_last (t ∷ ts)))))
unfolding parent_segments
parent_segments_cases ss = elim (List-cases (trim_right ss)) [
  | inl e ↦ inl (e, rw (e, parent_segments) refl)
  | inr (t, ts, e) ↦ inr (t, ts, e, rw (e, parent_segments) refl)
]

-- The parts of a parent are trimmed, and fewer.
parent_segments-Trimmed :
    (ss ts : List Bytes)
    → All NoSlash ss
    → parent_segments ss ≡ some ts
    → (length ts < length (trim_right ss)) × All NoSlash ts × (trim_right ts ≡ ts)
parent_segments-Trimmed ss ts h e = elim (parent_segments_cases ss) [
  | inl (empty, p) ↦ cc
  | inr (u, us, trimmed, p) ↦
      let kept = trim_right (drop_last (u ∷ us)) in
      let same : kept ≡ ts = cc in
      rw (← same) (
        omega (
          arith,
          ap length trimmed,
          length-trim_right-le (drop_last (u ∷ us)),
          length-drop_last u us,
        ),
        All-trim_right NoSlash (drop_last (u ∷ us))
            (All-drop_last NoSlash (u ∷ us) (rw trimmed at (All-trim_right NoSlash ss h))),
        trim_right_idem (drop_last (u ∷ us)),
      )
]

module _ (c : ℕ) (cs : Bytes) (slash : (c == b'/') ≡ true) where
  parent_absolute :
      (q : FilePath)
      → parent (c ∷ cs) ≡ some q
      → (ts : List Bytes) × (parent_segments (segments cs) ≡ some ts)
        × (q ≡ b'/' ∷ join_segments ts)
  unfolding parent
  parent_absolute q e = elim (Option-cases (parent_segments (segments cs))) [
    | inl missing ↦ ground arith
    | inr (ts, found) ↦ (ts, found, ground arith)
  ]

-- The parent of an absolute path is absolute and less deep.
pub depth-parent-lt :
    (p q : FilePath)
    → is_absolute p ≡ true
    → parent p ≡ some q
    → (is_absolute q ≡ true) × (depth q < depth p)
unfolding depth
depth-parent-lt [] q h e = cc
depth-parent-lt (c ∷ cs) q h e =
    let (ts, found, same) = parent_absolute c cs h q e in
    let (fewer, plain, trimmed) =
      parent_segments-Trimmed (segments cs) ts (segments-NoSlash cs) found in
    rw same (refl, rw (trimmed_back ts plain trimmed) fewer)

no_body : (ss : List Bytes) → trim_right ss ≡ [] → body_components ss ≡ []
unfolding body_components
no_body ss e = sym (body_components-trim_right ss) ∙ ap body_components e

root_of_no_body :
    (c : ℕ) (cs : Bytes)
    → (c == b'/') ≡ true
    → body_components (segments cs) ≡ []
    → path_eq (c ∷ cs) root ≡ true
unfolding path_eq
root_of_no_body c cs h e = ground arith

-- A path that is absolute and is not the root has a parent.
pub parent-of_not_root :
    (p : FilePath)
    → is_absolute p ≡ true
    → path_eq p root ≡ false
    → (q : FilePath) × (parent p ≡ some q)
unfolding parent
parent-of_not_root [] h ne = cc
parent-of_not_root (c ∷ cs) h ne = elim (parent_segments_cases (segments cs)) [
  | inl (empty, p) ↦ cc (root_of_no_body c cs h (no_body (segments cs) empty))
  | inr (u, us, trimmed, p) ↦ (b'/' ∷ join_segments (trim_right (drop_last (u ∷ us))), ground arith)
]
