-- ===== src/Ranges/Tests.antt =====
-- Headers of each form.
use labaiacinghiala.Common.{some, codes, ◌≡◌, refl}
use labaiacinghiala.Ranges.{part, invalid, parse_byte_range}
use labaiacinghiala.Ranges.Bounds.{Inside, parse_byte_range-Inside}

first_bytes : parse_byte_range (some (codes "bytes=0-99")) (some 1000) ≡ part 0 99 100
unfolding parse_byte_range
first_bytes = refl

last_bytes : parse_byte_range (some (codes " bytes=-30 ")) (some 1000) ≡ part 970 999 30
unfolding parse_byte_range
last_bytes = refl

open_end : parse_byte_range (some (codes "bytes=10-")) (some 1000) ≡ part 10 999 990
unfolding parse_byte_range
open_end = refl

past_end : parse_byte_range (some (codes "bytes=1000-")) (some 1000) ≡ invalid
unfolding parse_byte_range
past_end = refl

parse_byte_range-Inside_example :
    Inside 1000 (parse_byte_range (some (codes "bytes=10-")) (some 1000))
parse_byte_range-Inside_example = parse_byte_range-Inside (some (codes "bytes=10-")) 1000
