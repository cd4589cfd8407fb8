-- ===== src/Ranges/Bounds.antt =====
-- Of parseByteRange: the bounds of a range that is served.
use labaiacinghiala.Common.{
  inl, inr, ◌||◌, ℕ, ◌+◌, ◌-◌, ◌≤◌, ◌<◌, Bool, true, false, Option, none, some, Text, ◌≡◌, arith,
  ltb, leb, Bool-cases, is_empty, if◌then◌else◌, trim, ◌==◌,
}
use labaiacinghiala.Ranges.{
  ByteRange, whole, invalid, part, checked, suffix, from_start, ranged, of_match, match_bytes,
  parse_int, parse_byte_range,
}

-- A part that may be read from a file of the size: it starts and ends inside, and has its length.
pub Inside : ℕ → ByteRange → Type 0
Inside size whole = Unit
Inside size invalid = Unit
Inside size (part start last length) = (start ≤ last) × (last < size) × (start + length ≡ last + 1)

Inside-if :
    (size : ℕ) (b : Bool) (r q : ByteRange)
    → Inside size r
    → Inside size q
    → Inside size (if b then r else q)
Inside-if size true r q h k = h
Inside-if size false r q h k = k

checked-Inside : (start last size : ℕ) → Inside size (checked start last size)
unfolding checked Inside
checked-Inside start last size = elim (Bool-cases (ltb last start || leb size start)) [
  | inl refused ↦ rw refused tt
  | inr inside ↦ rw inside (ground arith, ground arith, ground arith)
]

suffix-Inside : (size : ℕ) (length : Option ℕ) → Inside size (suffix size length)
unfolding suffix Inside
suffix-Inside size none = tt
suffix-Inside size (some length) =
    Inside-if size (length == 0) _ _ tt (checked-Inside (size - length) (size - 1) size)

from_start-Inside : (size : ℕ) (start last : Option ℕ) → Inside size (from_start size start last)
unfolding from_start Inside
from_start-Inside size none last = tt
from_start-Inside size (some start) none = tt
from_start-Inside size (some start) (some last) = checked-Inside start last size

of_match-Inside : (size : ℕ) (groups : Option (Text × Text)) → Inside size (of_match size groups)
unfolding of_match ranged Inside
of_match-Inside size none = tt
of_match-Inside size (some (start_text, end_text)) =
    Inside-if size (is_empty start_text) _ _
      (Inside-if size (is_empty end_text) _ _ tt (suffix-Inside size (parse_int end_text)))
      (from_start-Inside size (parse_int start_text) _)

-- For every header and every file size, a range that parseByteRange gives starts at or before its
-- end, ends inside the file, and has the length from its start to its end.
pub parse_byte_range-Inside :
    (header : Option Text) (size : ℕ) → Inside size (parse_byte_range header (some size))
unfolding parse_byte_range Inside
parse_byte_range-Inside none size = tt
parse_byte_range-Inside (some header) size =
    Inside-if size (is_empty header) _ _ tt (of_match-Inside size (match_bytes (trim header)))
