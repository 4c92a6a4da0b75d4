-- ===== src/Text.antt =====
-- What the client uses of Rust's `str`: a text is its UTF-8 bytes.
pub mod Search
pub mod Utf8Laws
use mathlib.Core.Option
use Prim.Native.Char.{code}
use remotefs_rs_ftp.Base.{
  String, ℕ, zero, suc, ◌+◌, ◌-◌, ◌*◌, ◌≡◌, refl, Bool, true, false, ◌&&◌, ◌||◌, not, List, [], ◌∷◌,
  Option, none, some, ltb, leb, ◌==◌, if◌then◌else◌,
}

abbrev pub Bytes : Type 0
Bytes = List ℕ

-- The bytes of an ASCII literal.
abbrev pub codes : String → Bytes
codes String.[] = []
codes (String.◌∷◌ c s) = code c ∷ codes s

abbrev pub bytes_eq : Bytes → Bytes → Bool
bytes_eq [] [] = true
bytes_eq [] (y ∷ ys) = false
bytes_eq (x ∷ xs) [] = false
bytes_eq (x ∷ xs) (y ∷ ys) = x == y && bytes_eq xs ys

abbrev pub is_ascii_whitespace : ℕ → Bool
is_ascii_whitespace c = c == 0x20 || c == 0x09 || c == 0x0a || c == 0x0c || c == 0x0d

abbrev pub is_ascii_control : ℕ → Bool
is_ascii_control c = ltb c 0x20 || c == 0x7f

abbrev pub is_ascii_digit : ℕ → Bool
is_ascii_digit c = leb b'0' c && leb c b'9'

-- The characters with the Unicode property `White_Space`.
abbrev pub is_whitespace : ℕ → Bool
is_whitespace c =
    (leb 0x09 c && leb c 0x0d)
    || c == 0x20
    || c == 0x85
    || c == 0xa0
    || c == 0x1680
    || (leb 0x2000 c && leb c 0x200a)
    || c == 0x2028
    || c == 0x2029
    || c == 0x202f
    || c == 0x205f
    || c == 0x3000

-- The state of a UTF-8 decoder: `more n acc lo hi` wants `suc n` continuation bytes, the next one
-- between `lo` and `hi`.
pub data Utf8 : Type 0 where
  start : Utf8
  more : ℕ → ℕ → ℕ → ℕ → Utf8

-- One byte: the character that it completes, if any, and the next state; `none` is an error.
unfoldable pub utf8_step : Utf8 → ℕ → Option (Option ℕ × Utf8)
utf8_step start b =
    if ltb b 0x80
    then some (some b, start)
    else if leb 0xc2 b && leb b 0xdf
    then some (none, more 0 (b - 0xc0) 0x80 0xbf)
    else if b == 0xe0
    then some (none, more 1 0 0xa0 0xbf)
    else if b == 0xed
    then some (none, more 1 0xd 0x80 0x9f)
    else if leb 0xe1 b && leb b 0xef
    then some (none, more 1 (b - 0xe0) 0x80 0xbf)
    else if b == 0xf0
    then some (none, more 2 0 0x90 0xbf)
    else if b == 0xf4
    then some (none, more 2 4 0x80 0x8f)
    else if leb 0xf1 b && leb b 0xf3
    then some (none, more 2 (b - 0xf0) 0x80 0xbf)
    else none
utf8_step (more zero acc lo hi) b =
    if leb lo b && leb b hi then some (some (acc * 64 + (b - 0x80)), start) else none
utf8_step (more (suc n) acc lo hi) b =
    if leb lo b && leb b hi then some (none, more n (acc * 64 + (b - 0x80)) 0x80 0xbf) else none

utf8_end : Utf8 → Option (List ℕ)
utf8_end start = some []
utf8_end (more n acc lo hi) = none

unfoldable pub decode_from : Utf8 → Bytes → Option (List ℕ)
unfolding utf8_step utf8_end
decode_from s [] = utf8_end s
decode_from s (b ∷ bs) = elim (utf8_step s b) [
  | none ↦ none
  | some (none, s') ↦ decode_from s' bs
  | some (some c, s') ↦ Option.map (λ cs. c ∷ cs) (decode_from s' bs)
]

-- `str::from_utf8`, as the characters of the text.
unfoldable pub decode_utf8 : Bytes → Option (List ℕ)
unfolding decode_from
decode_utf8 = decode_from start

unfoldable pub is_utf8 : Bytes → Bool
unfolding decode_utf8
is_utf8 s = elim (decode_utf8 s) [ none ↦ false | some _ ↦ true ]

-- `str::chars`. The bytes of a `str` are valid.
unfoldable pub chars : Bytes → List ℕ
unfolding decode_utf8
chars s = elim (decode_utf8 s) [ none ↦ [] | some cs ↦ cs ]
