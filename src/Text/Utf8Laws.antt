-- ===== src/Text/Utf8Laws.antt =====
-- Decoding UTF-8 text piece by piece.
use mathlib.Core.Option
use remotefs_rs_ftp.Base.{
  ℕ, ◌≡◌, refl, sym, ◌∙◌, true, List, [], ◌∷◌, ◌++◌, Option, none, some, arith, Option-cases, inl,
  inr,
}
use remotefs_rs_ftp.Text.{Bytes, Utf8, start, more, utf8_step, decode_from, is_utf8}

abbrev prepend_chars : List ℕ → Option (List ℕ) → Option (List ℕ)
prepend_chars cs = Option.map (λ ds. cs ++ ds)

prepend_chars-nil : (o : Option (List ℕ)) → Option.map (λ ds. [] ++ ds) o ≡ o
prepend_chars-nil none = refl
prepend_chars-nil (some ds) = refl

prepend_chars-cons :
    (c : ℕ) (cs : List ℕ) (o : Option (List ℕ))
    → Option.map (λ ds. c ∷ ds) (prepend_chars cs o) ≡ prepend_chars (c ∷ cs) o
prepend_chars-cons c cs none = refl
prepend_chars-cons c cs (some ds) = refl

map-eq-some :
    (c : ℕ) (o : Option (List ℕ)) (cs : List ℕ)
    → Option.map (λ ds. c ∷ ds) o ≡ some cs
    → (ds : List ℕ) × (o ≡ some ds) × (c ∷ ds ≡ cs)
map-eq-some c none cs h = cc
map-eq-some c (some ds) cs h = (ds, refl, cc)

-- A text that decodes leaves the decoder at the start for what follows.
decode_from-append :
    (xs ys : Bytes) (s : Utf8) (cs : List ℕ)
    → decode_from s xs ≡ some cs
    → decode_from s (xs ++ ys) ≡ prepend_chars cs (decode_from start ys)
unfolding decode_from
decode_from-append [] ys start cs h =
    let none_read : [] ≡ cs = cc in
    rw (← none_read) (sym (prepend_chars-nil (decode_from start ys)))
decode_from-append [] ys (more n acc lo hi) cs h = cc
decode_from-append (b ∷ bs) ys s cs h = elim (Option-cases (utf8_step s b)) [
  | inl bad ↦ cc (rw (bad, decode_from) at h)
  | inr ((none, s'), good) ↦
      rw (good, decode_from) (decode_from-append bs ys s' cs (rw (good, decode_from) at h))
  | inr ((some c, s'), good) ↦
      let (ds, tail, same) = map-eq-some c (decode_from s' bs) cs (rw (good, decode_from) at h) in
      rw (good, decode_from, decode_from-append bs ys s' ds tail, ← same)
        (prepend_chars-cons c ds (decode_from start ys))
]

is_utf8-cases : (s : Bytes) → is_utf8 s ≡ true → (cs : List ℕ) × (decode_from start s ≡ some cs)
unfolding is_utf8
is_utf8-cases s h = ground arith

is_utf8-of : (s : Bytes) (cs : List ℕ) → decode_from start s ≡ some cs → is_utf8 s ≡ true
unfolding is_utf8
is_utf8-of s cs h = ground arith

-- The texts are closed under concatenation.
pub is_utf8-append :
    (xs ys : Bytes) → is_utf8 xs ≡ true → is_utf8 ys ≡ true → is_utf8 (xs ++ ys) ≡ true
is_utf8-append xs ys h k =
    let (cs, left) = is_utf8-cases xs h in
    let (ds, right) = is_utf8-cases ys k in
    is_utf8-of (xs ++ ys) (cs ++ ds) (decode_from-append xs ys start cs left ∙ rw right refl)
