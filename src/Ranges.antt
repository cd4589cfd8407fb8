-- ===== src/Ranges.antt =====
-- src/utils/range.js: the part of a file that an HTTP Range header asks for. A number is exact up to
-- the greatest double: a file is too small for the rounding of a greater one to matter.
pub mod Bounds
mod Tests
use labaiacinghiala.Common.{
  ℕ, zero, suc, ◌+◌, ◌-◌, ◌*◌, min, Bool, true, false, not, ◌&&◌, ◌||◌, Option, none, some, List,
  [], ◌∷◌, Text, codes, is_empty, trim, starts_with, ltb, leb, ◌==◌, if◌then◌else◌, JsNumber,
  not_finite, negative, amount,
}

-- null, { invalid: true } and { start, end, length }.
pub data ByteRange : Type 0 where
  whole invalid : ByteRange
  part : ℕ → ℕ → ℕ → ByteRange

unfoldable pub is_digit : ℕ → Bool
is_digit c = leb b'0' c && leb c b'9'

-- \d* at the start of a text, and what follows it.
unfoldable pub leading_digits : Text → Text
unfolding is_digit
leading_digits [] = []
leading_digits (c ∷ s) = let rest = leading_digits s in if is_digit c then c ∷ rest else []

unfoldable pub after_digits : Text → Text
unfolding is_digit
after_digits [] = []
after_digits (c ∷ s) = let rest = after_digits s in if is_digit c then rest else c ∷ s

unfoldable pub drop_text : ℕ → Text → Text
drop_text zero s = s
drop_text (suc n) [] = []
drop_text (suc n) (c ∷ s) = drop_text n s

-- /^bytes=(\d*)-(\d*)$/: the two groups, where it matches.
pub match_bytes : Text → Option (Text × Text)
unfolding leading_digits after_digits drop_text starts_with
match_bytes header =
    let body = drop_text 6 header in
    let rest = after_digits body in
    let last = drop_text 1 rest in
    if starts_with header (codes "bytes=")
      && starts_with rest (codes "-")
      && is_empty (after_digits last)
    then some (leading_digits body, leading_digits last)
    else none

-- Number.parseInt(text, 10) of digits, from the value of those before: not finite from the first
-- number that is rounded to infinity.
unfoldable pub value_of : ℕ → Text → ℕ
value_of n [] = n
value_of n (c ∷ s) = value_of (n * 10 + (c - b'0')) s

pub parse_int : Text → Option ℕ
unfolding value_of
parse_int text =
    let n = value_of 0 text in
    if leb
      179769313486231580793728971405303415079934132710037826936173778980444968292764750946649017977587207096330286416692887910946555547851940402630657488671505820681908902000708383676273854845817711531764475730270069855571366959622842914819860834936475292719074168444365510704342711559699508093042880177904174497792
      n
    then none
    else some n

-- The last checks and the length.
pub checked : ℕ → ℕ → ℕ → ByteRange
checked start last size =
    if ltb last start || leb size start
    then invalid
    else (let end_at = min last (size - 1) in part start end_at (end_at - start + 1))

pub suffix : ℕ → Option ℕ → ByteRange
unfolding checked
suffix size none = invalid
suffix size (some length) = if length == 0 then invalid else checked (size - length) (size - 1) size

pub from_start : ℕ → Option ℕ → Option ℕ → ByteRange
unfolding checked
from_start size none last = invalid
from_start size (some start) none = invalid
from_start size (some start) (some last) = checked start last size

-- With no end the file's last byte is the end; of an empty file it would be -1, and no start is below
-- its size.
pub ranged : ℕ → Text → Text → ByteRange
unfolding suffix from_start parse_int
ranged size start_text end_text =
    if is_empty start_text
    then (if is_empty end_text then invalid else suffix size (parse_int end_text))
    else from_start size (parse_int start_text)
        (if is_empty end_text then some (size - 1) else parse_int end_text)

pub of_match : ℕ → Option (Text × Text) → ByteRange
unfolding ranged
of_match size none = invalid
of_match size (some (start_text, end_text)) = ranged size start_text end_text

-- A file size that is no integer, or is negative, is `none`.
pub parse_byte_range : Option Text → Option ℕ → ByteRange
unfolding of_match match_bytes trim
parse_byte_range none size = whole
parse_byte_range (some header) none = if is_empty header then whole else invalid
parse_byte_range (some header) (some size) =
    if is_empty header then whole else of_match size (match_bytes (trim header))
