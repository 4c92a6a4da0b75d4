-- ===== src/Listing/Fields/Words.antt =====
-- The spans of `field_spans` (src/client/list.rs), read as texts, beside the words of the line.
use mathlib.Core.List.{append_assoc, append-nil}
use remotefs_rs_ftp.Base.{
  ℕ, suc, ◌+◌, ◌-◌, ◌≡◌, refl, sym, ap, ◌∙◌, List, [], ◌∷◌, ◌++◌, map, none, some, if◌then◌else◌,
  length, length-append, take, drop, arith, Bool-cases, inl, inr,
}
use remotefs_rs_ftp.Text.{Bytes, is_ascii_whitespace}
use remotefs_rs_ftp.Text.Search.{slice}
use remotefs_rs_ftp.FilePath.{push_byte}
use remotefs_rs_ftp.Listing.Fields.{Span, field_spans_from, field_spans}

-- The pieces between single whitespace bytes, the empty ones too.
unfoldable pub pieces : Bytes → List Bytes
pieces [] = [] ∷ []
pieces (b ∷ bs) =
    let rest = pieces bs in if is_ascii_whitespace b then [] ∷ rest else push_byte b rest

unfoldable pub nonempty : List Bytes → List Bytes
nonempty [] = []
nonempty ([] ∷ ss) = nonempty ss
nonempty ((b ∷ bs) ∷ ss) = (b ∷ bs) ∷ nonempty ss

-- `split_ascii_whitespace`.
unfoldable pub words : Bytes → List Bytes
unfolding pieces nonempty
words s = nonempty (pieces s)

abbrev prepend : Bytes → List Bytes → List Bytes
prepend w [] = w ∷ []
prepend w (s ∷ ss) = (w ++ s) ∷ ss

prepend-push_byte :
    (w : Bytes) (b : ℕ) (ss : List Bytes) → prepend w (push_byte b ss) ≡ prepend (w ++ b ∷ []) ss
prepend-push_byte w b [] = refl
prepend-push_byte w b (s ∷ ss) = rw (append_assoc w (b ∷ []) s) refl

nonempty-prepend :
    (w : Bytes) (b : ℕ) (ss : List Bytes)
    → nonempty (prepend (w ++ b ∷ []) ([] ∷ ss)) ≡ (w ++ b ∷ []) ∷ nonempty ss
unfolding nonempty
nonempty-prepend [] b ss = refl
nonempty-prepend (c ∷ cs) b ss = rw (append-nil (cs ++ b ∷ [])) refl

take-append : (w r : Bytes) → take (length w) (w ++ r) ≡ w
take-append [] r = refl
take-append (b ∷ bs) r = ap (λ t. b ∷ t) (take-append bs r)

drop-append : (w r : Bytes) → drop (length w) (w ++ r) ≡ r
drop-append [] r = refl
drop-append (b ∷ bs) r = drop-append bs r

slice-middle :
    (pre w post : Bytes) (i : ℕ)
    → i ≡ length pre + length w
    → slice (pre ++ w ++ post) (length pre) i ≡ w
slice-middle pre w post i e =
    let width : i - length pre ≡ length w = omega arith in
    rw (append_assoc pre w post, drop-append pre (w ++ post), width) (take-append w post)

abbrev read : Bytes → List Span → List Bytes
read line = map (λ s. slice line s.0 s.1)

push_byte-eq-prepend : (b : ℕ) (ss : List Bytes) → push_byte b ss ≡ prepend (b ∷ []) ss
push_byte-eq-prepend b [] = refl
push_byte-eq-prepend b (s ∷ ss) = refl

length-snoc : (w : Bytes) (b : ℕ) → length (w ++ b ∷ []) ≡ suc (length w)
length-snoc w b = omega (arith, length-append w (b ∷ []))

-- From the byte `i` on, between two fields and inside one: `line` is what lies behind and `bs`.
abbrev Between : Bytes → Type 0
Between bs =
    (line pre : Bytes) (i : ℕ)
    → line ≡ pre ++ bs
    → i ≡ length pre
    → read line (field_spans_from i none bs) ≡ nonempty (pieces bs)

abbrev Inside : Bytes → Type 0
Inside bs =
    (line pre w : Bytes) (c i : ℕ)
    → line ≡ pre ++ (w ++ c ∷ []) ++ bs
    → i ≡ length pre + length (w ++ c ∷ [])
    → read line (field_spans_from i (some (length pre)) bs)
      ≡ nonempty (prepend (w ++ c ∷ []) (pieces bs))

Between-step : (b : ℕ) (bs : Bytes) → Between bs → Inside bs → Between (b ∷ bs)
unfolding field_spans_from pieces nonempty
Between-step b bs between inside line pre i e h = elim (Bool-cases (is_ascii_whitespace b)) [
  | inl space ↦ rw space (
      between line (pre ++ b ∷ []) (suc i) (e ∙ sym (append_assoc pre (b ∷ []) bs))
        (omega (arith, length-snoc pre b)))
  | inr plain ↦
      rw (plain, push_byte-eq-prepend b (pieces bs), h)
        (inside line pre [] b (suc (length pre)) (e ∙ sym (append_assoc pre (b ∷ []) bs))
          (omega arith))
]

Inside-step : (b : ℕ) (bs : Bytes) → Between bs → Inside bs → Inside (b ∷ bs)
unfolding field_spans_from pieces
Inside-step b bs between inside line pre w c i e h = elim (Bool-cases (is_ascii_whitespace b)) [
  | inl space ↦
      let first : slice line (length pre) i ≡ w ++ c ∷ [] =
        rw e (slice-middle pre (w ++ c ∷ []) (b ∷ bs) i h) in
      rw (space, nonempty-prepend w c (pieces bs), first)
        (ap (λ t. (w ++ c ∷ []) ∷ t)
          (between line (pre ++ (w ++ c ∷ []) ++ b ∷ []) (suc i)
            (e ∙ sym (append_assoc (pre ++ (w ++ c ∷ [])) (b ∷ []) bs))
            (omega (arith, length-snoc (pre ++ (w ++ c ∷ [])) b, length-append pre (w ++ c ∷ [])))))
  | inr plain ↦
      rw (plain, prepend-push_byte (w ++ c ∷ []) b (pieces bs))
        (inside line pre (w ++ c ∷ []) b (suc i) (e ∙ simp append_assoc)
          (omega (arith, length-snoc (w ++ c ∷ []) b)))
]

spans_read : (bs : Bytes) → Between bs × Inside bs
unfolding field_spans_from pieces nonempty
spans_read [] = (
  λ line pre i e h. refl,
  λ line pre w c i e h. rw (nonempty-prepend w c [], e, slice-middle pre (w ++ c ∷ []) [] i h),
)
spans_read (b ∷ bs) =
    let (between, inside) = spans_read bs in
    (Between-step b bs between inside, Inside-step b bs between inside)

-- Cutting a line at the spans gives its words, the maximal runs of bytes that are no whitespace,
-- in order.
pub map-slice-field_spans :
    (line : Bytes) → map (λ s. slice line s.0 s.1) (field_spans line) ≡ words line
unfolding field_spans words
map-slice-field_spans line = (spans_read line).0 line [] 0 refl refl
