-- ===== src/Text/Search.antt =====
-- What the client uses of Rust's `str` searches. Positions are byte indices.
use mathlib.Core.Option
use remotefs_rs_ftp.Base.{
  ℕ, zero, suc, ◌-◌, Bool, true, false, ◌&&◌, [], ◌∷◌, Option, none, some, leb, ◌==◌, if◌then◌else◌,
  length, take, drop,
}
use remotefs_rs_ftp.Text.{Bytes, is_ascii_whitespace}

-- `&s[a..b]`.
abbrev pub slice : Bytes → ℕ → ℕ → Bytes
slice s a b = take (b - a) (drop a s)

abbrev pub starts_with : Bytes → Bytes → Bool
starts_with [] s = true
starts_with (p ∷ ps) [] = false
starts_with (p ∷ ps) (b ∷ bs) = p == b && starts_with ps bs

-- `str::find` of an ASCII predicate.
unfoldable pub find_by : (ℕ → Bool) → Bytes → Option ℕ
find_by p [] = none
find_by p (b ∷ bs) = let rest = Option.map suc (find_by p bs) in if p b then some 0 else rest

-- `str::find` of a text.
unfoldable pub find : Bytes → Bytes → Option ℕ
find pattern_text [] = if starts_with pattern_text [] then some 0 else none
find pattern_text (b ∷ bs) =
    let rest = Option.map suc (find pattern_text bs) in
    if starts_with pattern_text (b ∷ bs) then some 0 else rest

-- `str::matches(…).count()`: matches do not overlap; `skip` bytes belong to the last one.
unfoldable pub count_matches_from : ℕ → Bytes → Bytes → ℕ
count_matches_from skip pattern_text [] = 0
count_matches_from (suc skip) pattern_text (b ∷ bs) = count_matches_from skip pattern_text bs
count_matches_from zero pattern_text (b ∷ bs) =
    let hit = starts_with pattern_text (b ∷ bs) in
    let rest = count_matches_from (if hit then length pattern_text - 1 else 0) pattern_text bs in
    if hit then suc rest else rest

unfoldable pub count_matches : Bytes → Bytes → ℕ
unfolding count_matches_from
count_matches = count_matches_from 0

abbrev pub is_continuation : ℕ → Bool
is_continuation b = leb 0x80 b && leb b 0xbf

-- `char_indices().nth(n)`: where the character number `n` starts.
unfoldable pub nth_char_index : ℕ → Bytes → Option ℕ
nth_char_index n [] = none
nth_char_index zero (b ∷ bs) =
    let rest = Option.map suc (nth_char_index zero bs) in if is_continuation b then rest else some 0
nth_char_index (suc n) (b ∷ bs) =
    Option.map suc (nth_char_index (if is_continuation b then suc n else n) bs)

-- `trim_start_matches(is_ascii_whitespace)`.
unfoldable pub trim_start : Bytes → Bytes
trim_start [] = []
trim_start (b ∷ bs) = let rest = trim_start bs in if is_ascii_whitespace b then rest else b ∷ bs

-- `take_while(is_ascii_whitespace).count()`.
unfoldable pub count_padding : Bytes → ℕ
count_padding [] = 0
count_padding (b ∷ bs) =
    let rest = suc (count_padding bs) in if is_ascii_whitespace b then rest else 0

-- `strip_suffix` of one ASCII character.
unfoldable pub strip_suffix : ℕ → Bytes → Option Bytes
strip_suffix c [] = none
strip_suffix c (b ∷ []) = if b == c then some [] else none
strip_suffix c (b ∷ d ∷ ds) = Option.map (λ s. b ∷ s) (strip_suffix c (d ∷ ds))

-- `trim_end_matches` of one ASCII character.
unfoldable pub trim_end_matches : ℕ → Bytes → Bytes
trim_end_matches c [] = []
trim_end_matches c (b ∷ bs) = elim (trim_end_matches c bs) [
  | [] ↦ if b == c then [] else b ∷ []
  | d ∷ ds ↦ b ∷ d ∷ ds
]
