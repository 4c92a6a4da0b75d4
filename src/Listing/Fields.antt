-- ===== src/Listing/Fields.antt =====
-- src/client/list.rs: the fields of a LIST line, and device nodes.
pub mod Words
use remotefs_rs_ftp.Base.{
  ℕ, suc, Bool, true, false, ◌&&◌, ◌||◌, not, List, [], ◌∷◌, ◌++◌, Option, none, some, ◌==◌,
  if◌then◌else◌, length, get_elem?, take, drop, all, ltb,
}
use remotefs_rs_ftp.Text.{Bytes, is_ascii_whitespace, is_ascii_digit}
use remotefs_rs_ftp.Text.Search.{slice, strip_suffix, trim_end_matches}

abbrev pub Span : Type 0
Span = ℕ × ℕ

-- The pending start is `none` between two fields.
abbrev pub closes : Option ℕ → ℕ → List Span
closes none index = []
closes (some start) index = (start, index) ∷ []

abbrev pub opens : Option ℕ → ℕ → Option ℕ
opens none index = some index
opens (some start) index = some start

-- The loop over the bytes, from a byte index and the pending start.
unfoldable pub field_spans_from : ℕ → Option ℕ → Bytes → List Span
field_spans_from index start [] = closes start index
field_spans_from index start (byte ∷ bytes) =
    if is_ascii_whitespace byte
    then closes start index ++ field_spans_from (suc index) none bytes
    else field_spans_from (suc index) (opens start index) bytes

unfoldable pub field_spans : Bytes → List Span
unfolding field_spans_from
field_spans = field_spans_from 0 none

abbrev pub first_is : (ℕ → Bool) → Bytes → Bool
first_is p [] = false
first_is p (b ∷ bs) = p b

abbrev pub is_device_byte : ℕ → Bool
is_device_byte b = b == b'b' || b == b'c'

abbrev pub is_special_byte : ℕ → Bool
is_special_byte b = b == b'b' || b == b'c' || b == b'p' || b == b's' || b == b'D'

abbrev pub ends_with_comma : Bytes → Bool
ends_with_comma s = elim (strip_suffix b',' s) [ none ↦ false | some _ ↦ true ]

-- The fields number 4 and 5 of a device node are `MAJOR,` and `MINOR`.
unfoldable pub is_device : Bytes → Span → Span → Bool
is_device line major minor =
    first_is is_device_byte line
    && ends_with_comma (slice line major.0 major.1)
    && all is_ascii_digit (trim_end_matches b',' (slice line major.0 major.1))
    && all is_ascii_digit (slice line minor.0 minor.1)

abbrev pub replace_range : Bytes → ℕ → ℕ → Bytes → Bytes
replace_range s a b t = take a s ++ (t ++ drop b s)

normalize_fields : Bytes → Option Span → Option Span → Bytes
normalize_fields line (some major) (some minor) =
    if is_device line major minor then replace_range line major.0 minor.1 (b'0' ∷ []) else line
normalize_fields line _ _ = line

-- `spans.len() > 5` is the presence of the field number 5.
unfoldable pub normalize_special_posix_line : Bytes → Bytes
unfolding field_spans is_device normalize_fields
normalize_special_posix_line line =
    let spans = field_spans line in normalize_fields line (get_elem? spans 4) (get_elem? spans 5)
