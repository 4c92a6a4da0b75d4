-- ===== src/FilePath/Segments.antt =====
-- The laws of splitting at slashes and of trimming parts that are no components.
use remotefs_rs_ftp.Base.{
  ℕ, suc, ◌≤◌, ◌≡◌, refl, false, List, [], ◌∷◌, ◌++◌, ◌==◌, All, length, arith, Bool-cases, inl,
  inr, ap, ◌∙◌,
}
use remotefs_rs_ftp.Text.{Bytes}
use remotefs_rs_ftp.FilePath.{
  push_byte, segments, join_segments, body_components, trim_right, drop_last,
}

abbrev pub NoSlash : Bytes → Type 0
NoSlash = All (λ b. (b == b'/') ≡ false)

push_byte-NoSlash :
    (c : ℕ) (ss : List Bytes) → (c == b'/') ≡ false → All NoSlash ss → All NoSlash (push_byte c ss)
push_byte-NoSlash c [] h a = ((h, tt), tt)
push_byte-NoSlash c (s ∷ ss) h a = ((h, a.0), a.1)

-- No part holds a slash.
pub segments-NoSlash : (p : Bytes) → All NoSlash (segments p)
unfolding segments
segments-NoSlash [] = (tt, tt)
segments-NoSlash (c ∷ cs) = elim (Bool-cases (c == b'/')) [
  | inl slash ↦ rw slash (tt, segments-NoSlash cs)
  | inr plain ↦ rw plain (push_byte-NoSlash c (segments cs) plain (segments-NoSlash cs))
]

pub segments-plain : (s : Bytes) → NoSlash s → segments s ≡ s ∷ []
unfolding segments
segments-plain [] h = refl
segments-plain (c ∷ cs) h = rw (h.0, segments-plain cs h.1)

segments-append : (s r : Bytes) → NoSlash s → segments (s ++ b'/' ∷ r) ≡ s ∷ segments r
unfolding segments
segments-append [] r h = refl
segments-append (c ∷ cs) r h = rw (h.0, segments-append cs r h.1)

-- Splitting undoes joining.
pub segments-join_segments :
    (s : Bytes) (ss : List Bytes)
    → All NoSlash (s ∷ ss)
    → segments (join_segments (s ∷ ss)) ≡ s ∷ ss
unfolding join_segments
segments-join_segments s [] h = segments-plain s h.0
segments-join_segments s (t ∷ ss) h =
    segments-append s (join_segments (t ∷ ss)) h.0
    ∙ ap (λ ts. s ∷ ts) (segments-join_segments t ss h.1)

module _ (P : Bytes → Type 0) where
  pub All-trim_right : (ss : List Bytes) → All P ss → All P (trim_right ss)
  unfolding trim_right
  All-trim_right [] h = tt
  All-trim_right (s ∷ ss) h = ground (arith, All-trim_right ss h.1)

  pub All-drop_last : (ss : List Bytes) → All P ss → All P (drop_last ss)
  unfolding drop_last
  All-drop_last [] h = tt
  All-drop_last (s ∷ []) h = tt
  All-drop_last (s ∷ t ∷ ss) h = (h.0, All-drop_last (t ∷ ss) h.1)

pub length-trim_right-le : (ss : List Bytes) → length (trim_right ss) ≤ length ss
unfolding trim_right
length-trim_right-le [] = omega arith
length-trim_right-le (s ∷ ss) = ground (arith, length-trim_right-le ss)

pub length-drop_last : (s : Bytes) (ss : List Bytes) → length (drop_last (s ∷ ss)) ≡ length ss
unfolding drop_last
length-drop_last s [] = refl
length-drop_last s (t ∷ ss) = ap suc (length-drop_last t ss)

pub trim_right_idem : (ss : List Bytes) → trim_right (trim_right ss) ≡ trim_right ss
unfolding trim_right
trim_right_idem [] = refl
trim_right_idem (s ∷ ss) = ground (arith, trim_right_idem ss)

-- What is trimmed holds no component.
pub body_components-trim_right :
    (ss : List Bytes) → body_components (trim_right ss) ≡ body_components ss
unfolding trim_right body_components
body_components-trim_right [] = refl
body_components-trim_right (s ∷ ss) = ground (arith, body_components-trim_right ss)
