-- ===== src/FilePath/Joins.antt =====
-- Joining names and paths to an absolute path (src/utils/path.rs).
use mathlib.Core.List.{append_assoc, append-nil}
use remotefs_rs_ftp.Base.{
  ℕ, ◌≡◌, refl, true, false, List, [], ◌∷◌, ◌++◌, ◌==◌, arith, Bool-cases, inl, inr, ap, subst, sym,
  ◌∙◌,
}
use remotefs_rs_ftp.Text.{Bytes}
use remotefs_rs_ftp.FilePath.{
  FilePath, normal, segments, is_skipped, body_components, dot_dot, is_absolute, components,
  ends_with_slash, join, absolutize,
}
use remotefs_rs_ftp.Text.{bytes_eq}
use remotefs_rs_ftp.FilePath.Segments.{NoSlash, segments-plain}

segments_nonempty : (p : Bytes) → (s : Bytes) × (ss : List Bytes) × (segments p ≡ s ∷ ss)
unfolding segments
segments_nonempty [] = ([], [], refl)
segments_nonempty (c ∷ cs) = elim (Bool-cases (c == b'/')) [
  | inl slash ↦ ([], segments cs, rw slash)
  | inr plain ↦ let (s, ss, e) = segments_nonempty cs in (c ∷ s, ss, rw (plain, e))
]

segments-append_any : (p r : Bytes) → segments (p ++ b'/' ∷ r) ≡ segments p ++ segments r
unfolding segments
segments-append_any [] r = refl
segments-append_any (c ∷ cs) r = elim (Bool-cases (c == b'/')) [
  | inl slash ↦ rw (slash, segments-append_any cs r)
  | inr plain ↦ let (s, ss, e) = segments_nonempty cs in rw (plain, segments-append_any cs r, e)
]

pub body_components-append :
    (ss ts : List Bytes) → body_components (ss ++ ts) ≡ body_components ss ++ body_components ts
unfolding body_components
body_components-append [] ts = refl
body_components-append (s ∷ ss) ts = elim (Bool-cases (is_skipped s)) [
  | inl skip ↦ rw (skip, body_components-append ss ts)
  | inr keep ↦ rw (keep, body_components-append ss ts)
]

ends_with_slash_split :
    (p : Bytes) (c : ℕ) → ends_with_slash (c ∷ p) ≡ true → (q : Bytes) × (c ∷ p ≡ q ++ b'/' ∷ [])
unfolding ends_with_slash
ends_with_slash_split [] c h = ([], ground arith)
ends_with_slash_split (d ∷ ds) c h =
    let (q, e) = ends_with_slash_split ds d h in (c ∷ q, ap (λ t. c ∷ t) e)

body-join_closed :
    (q name : Bytes)
    → body_components (segments ((q ++ b'/' ∷ []) ++ name))
      ≡ body_components (segments (q ++ b'/' ∷ [])) ++ body_components (segments name)
unfolding body_components segments
body-join_closed q name =
    rw (append_assoc q (b'/' ∷ []) name, segments-append_any q name, segments-append_any q [])
      (rw (
        body_components-append (segments q) (segments name),
        body_components-append (segments q) ([] ∷ []),
        append-nil (body_components (segments q)),
      ))

-- The body of a joined path, whether or not a separator is added.
body-join :
    (p name : Bytes)
    → is_absolute p ≡ true
    → is_absolute name ≡ false
    → body_components (segments (join p name))
      ≡ body_components (segments p) ++ body_components (segments name)
unfolding join
body-join [] name h plain = cc
body-join (c ∷ cs) name h plain = elim (Bool-cases (ends_with_slash (c ∷ cs))) [
  | inl ends ↦
      let (q, e) = ends_with_slash_split cs c ends in
      rw (plain, ends)
        (subst
          (λ t.
            body_components (segments (t ++ name))
            ≡ body_components (segments t) ++ body_components (segments name))
          (sym e) (body-join_closed q name))
  | inr open_end ↦
      rw (plain, open_end, segments-append_any (c ∷ cs) name)
        (body_components-append (segments (c ∷ cs)) (segments name))
]

pub is_absolute-join : (p q : FilePath) → is_absolute p ≡ true → is_absolute (join p q) ≡ true
unfolding join
is_absolute-join [] q h = cc
is_absolute-join (c ∷ cs) q h = ground arith

-- A name that can stand as the one component below a directory.
pub record IsPlainName (name : Bytes) : Type 0 where
  pub no_slash : NoSlash name
  pub proper : is_skipped name ≡ false
  pub no_parent : bytes_eq name dot_dot ≡ false

pub plain_not_absolute : (name : Bytes) → NoSlash name → is_absolute name ≡ false
plain_not_absolute [] h = refl
plain_not_absolute (c ∷ cs) h = h.0

pub body_components-plain :
    (name : Bytes) → IsPlainName name → body_components (segments name) ≡ normal name ∷ []
unfolding body_components
body_components-plain name n = rw (segments-plain name n.no_slash, n.proper, n.no_parent)

-- Joining a plain name to an absolute directory adds exactly that component.
pub components-join :
    (p name : FilePath)
    → is_absolute p ≡ true
    → IsPlainName name
    → components (join p name) ≡ components p ++ normal name ∷ []
unfolding components
components-join p name h n =
    rw (h, is_absolute-join p name h, body-join p name h (plain_not_absolute name n.no_slash))
      (rw (body_components-plain name n))

absolutize-join :
    (wrkdir target : FilePath)
    → is_absolute target ≡ false
    → absolutize wrkdir target ≡ join wrkdir target
unfolding absolutize join
absolutize-join wrkdir target relative = rw relative refl

components-join_relative :
    (p q : FilePath)
    → is_absolute p ≡ true
    → is_absolute q ≡ false
    → components (join p q) ≡ components p ++ body_components (segments q)
unfolding components
components-join_relative p q h relative =
    rw (h, is_absolute-join p q h, body-join p q h relative) refl

-- Below an absolute working directory, a relative target becomes an absolute path, whose components
-- are those of the directory and then those of the target, less its empty and dot segments; an
-- absolute target is kept.
pub components-absolutize :
    (wrkdir target : FilePath)
    → is_absolute wrkdir ≡ true
    → (is_absolute target ≡ false
        → (is_absolute (absolutize wrkdir target) ≡ true)
          × (components (absolutize wrkdir target)
              ≡ components wrkdir ++ body_components (segments target)))
      × (is_absolute target ≡ true → absolutize wrkdir target ≡ target)
unfolding absolutize
components-absolutize wrkdir target h = (
  λ relative.
      let same : absolutize wrkdir target ≡ join wrkdir target =
        absolutize-join wrkdir target relative in
      (
        ap is_absolute same ∙ is_absolute-join wrkdir target h,
        ap components same ∙ components-join_relative wrkdir target h relative,
      ),
  λ t. ground arith,
)
