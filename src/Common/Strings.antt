-- ===== src/Common/Strings.antt =====
-- Text as the list of its UTF-16 code units, with the String methods that the source calls: trim,
-- startsWith, endsWith, toLowerCase, ===.
use Prim.Native.Nat.{ℕ, zero, suc, ◌-◌, ◌+◌}
use Prim.Native.Char.{code}
use Prim.Native.String.{String}
use mathlib.Core.Path.{◌≡◌, refl, subst}
use mathlib.Core.Logic.{◌↔◌, ◌≢◌}
use mathlib.Core.Bool.{Bool, true, false, ◌&&◌, ◌||◌}
use mathlib.Core.List.{List, [], ◌∷◌, ◌++◌, map, reverse}
use native.Mathlib.Omega.{arith}
use labaiacinghiala.Common.Lists.{all}
use labaiacinghiala.Common.Tests.{leb, ◌==◌, if◌then◌else◌}

abbrev pub Text : Type 0
Text = List ℕ

-- A literal of the source, which is ASCII.
abbrev pub codes : String → Text
codes String.[] = []
codes (String.◌∷◌ c s) = code c ∷ codes s

unfoldable pub text_eq : Text → Text → Bool
text_eq [] [] = true
text_eq [] (d ∷ t) = false
text_eq (c ∷ s) [] = false
text_eq (c ∷ s) (d ∷ t) = c == d && text_eq s t

pub text_eq_iff : (s t : Text) → (text_eq s t ≡ true) ↔ (s ≡ t)
unfolding text_eq
text_eq_iff [] [] = ground arith
text_eq_iff [] (d ∷ t) = ground arith
text_eq_iff (c ∷ s) [] = ground arith
text_eq_iff (c ∷ s) (d ∷ t) = ground (arith, text_eq_iff s t)

pub text_eq_refl : (s : Text) → text_eq s s ≡ true
text_eq_refl s = (text_eq_iff s s).1 refl

pub text_eq-ne : (s t : Text) → s ≢ t → text_eq s t ≡ false
text_eq-ne s t h = ground (arith, text_eq_iff s t)

abbrev pub is_empty : Text → Bool
is_empty [] = true
is_empty (c ∷ s) = false

-- WhiteSpace and LineTerminator of ECMAScript, which trim removes.
unfoldable pub is_space : ℕ → Bool
is_space c =
    (leb 9 c && leb c 13)
    || c == 32
    || c == 0xA0
    || c == 0x1680
    || (leb 0x2000 c && leb c 0x200A)
    || c == 0x2028
    || c == 0x2029
    || c == 0x202F
    || c == 0x205F
    || c == 0x3000
    || c == 0xFEFF

unfoldable pub drop_space : Text → Text
drop_space [] = []
drop_space (c ∷ s) = if is_space c then drop_space s else c ∷ s

unfoldable pub trim : Text → Text
unfolding drop_space is_space
trim s = reverse (drop_space (reverse (drop_space s)))

unfoldable pub starts_with : Text → Text → Bool
starts_with s [] = true
starts_with [] (d ∷ p) = false
starts_with (c ∷ s) (d ∷ p) = c == d && starts_with s p

unfoldable pub ends_with : Text → Text → Bool
unfolding starts_with
ends_with s p = starts_with (reverse s) (reverse p)

-- The case folding of SQLite's NOCASE.
unfoldable pub ascii_lower : ℕ → ℕ
ascii_lower c = if leb b'A' c && leb c b'Z' then c + 32 else c

-- toLowerCase, for a comparison with ASCII words: outside ASCII only the Kelvin sign has an ASCII
-- letter for its lower case.
unfoldable pub lower : ℕ → ℕ
lower c = if leb b'A' c && leb c b'Z' then c + 32 else if c == 0x212A then b'k' else c

unfoldable pub to_lower : Text → Text
unfolding lower
to_lower s = map lower s

-- toUpperCase, for a comparison with ASCII words: outside ASCII the characters whose upper case is
-- made of ASCII letters, and those whose is not are left as they are.
unfoldable pub upper : ℕ → Text
upper c =
    if leb b'a' c && leb c b'z'
    then (c - 32) ∷ []
    else if c == 0xDF
    then codes "SS"
    else if c == 0x131
    then codes "I"
    else if c == 0x17F
    then codes "S"
    else if c == 0xFB00
    then codes "FF"
    else if c == 0xFB01
    then codes "FI"
    else if c == 0xFB02
    then codes "FL"
    else if c == 0xFB03
    then codes "FFI"
    else if c == 0xFB04
    then codes "FFL"
    else if c == 0xFB05 || c == 0xFB06
    then codes "ST"
    else c ∷ []

unfoldable pub to_upper : Text → Text
unfolding upper
to_upper [] = []
to_upper (c ∷ s) = upper c ++ to_upper s

-- Array.prototype.join.
unfoldable pub join : Text → List Text → Text
join sep [] = []
join sep (t ∷ []) = t
join sep (t ∷ u ∷ ts) = t ++ sep ++ join sep (u ∷ ts)

-- A regular expression that is a sequence of character classes, anchored at both ends.
unfoldable pub matches : List (ℕ → Bool) → Text → Bool
matches [] [] = true
matches [] (c ∷ s) = false
matches (p ∷ ps) [] = false
matches (p ∷ ps) (c ∷ s) = p c && matches ps s

unfoldable pub is_hex : ℕ → Bool
is_hex c = (leb b'0' c && leb c b'9') || (leb b'a' c && leb c b'f') || (leb b'A' c && leb c b'F')

abbrev hex_digits : ℕ → List (ℕ → Bool) → List (ℕ → Bool)
hex_digits zero rest = rest
hex_digits (suc n) rest = is_hex ∷ hex_digits n rest

abbrev is_dash : ℕ → Bool
is_dash c = c == b'-'

-- [1-8] and [89ab], without regard to case.
abbrev is_version : ℕ → Bool
is_version c = leb b'1' c && leb c b'8'

abbrev is_variant : ℕ → Bool
is_variant c = c == b'8' || c == b'9' || c == b'a' || c == b'b' || c == b'A' || c == b'B'

-- The groups of a UUID after the first, each with the dash before it.
abbrev fifth_group : List (ℕ → Bool)
fifth_group = is_dash ∷ hex_digits 12 []

abbrev fourth_group : List (ℕ → Bool)
fourth_group = is_dash ∷ is_variant ∷ hex_digits 3 fifth_group

abbrev third_group : List (ℕ → Bool)
third_group = is_dash ∷ is_version ∷ hex_digits 3 fourth_group

abbrev second_group : List (ℕ → Bool)
second_group = is_dash ∷ hex_digits 4 third_group

-- isUuid of pairing-service.js and device-auth-service.js.
unfoldable pub is_uuid : Text → Bool
unfolding matches is_hex
is_uuid = matches (hex_digits 8 second_group)

unfoldable pub contains : List Text → Text → Bool
contains [] s = false
contains (t ∷ ts) s = text_eq t s || contains ts s

-- Whether each class of a regular expression lies in another.
Each : (ℕ → Bool) → List (ℕ → Bool) → Type 0
Each q [] = Unit
Each q (p ∷ ps) = ((c : ℕ) → p c ≡ true → q c ≡ true) × Each q ps

matches-all :
    (q : ℕ → Bool) (ps : List (ℕ → Bool)) (s : Text)
    → Each q ps
    → matches ps s ≡ true
    → all q s ≡ true
unfolding matches Each
matches-all q [] [] e h = refl
matches-all q [] (c ∷ s) e h = cc
matches-all q (p ∷ ps) [] e h = cc
matches-all q (p ∷ ps) (c ∷ s) e h = ground (arith, e.0 c, matches-all q ps s e.1)

hex_digits-Each :
    (q : ℕ → Bool)
    → ((c : ℕ) → is_hex c ≡ true → q c ≡ true)
    → (n : ℕ) (rest : List (ℕ → Bool)) → Each q rest
    → Each q (hex_digits n rest)
unfolding Each
hex_digits-Each q h zero rest e = e
hex_digits-Each q h (suc n) rest e = (h, hex_digits-Each q h n rest e)

dash_only : (q : ℕ → Bool) (c : ℕ) → is_dash c ≡ true → q b'-' ≡ true → q c ≡ true
dash_only q c e dash = let same : b'-' ≡ c = ground arith in subst (λ d. q d ≡ true) same dash

version_hex : (c : ℕ) → is_version c ≡ true → is_hex c ≡ true
unfolding is_hex
version_hex c e = ground arith

variant_hex : (c : ℕ) → is_variant c ≡ true → is_hex c ≡ true
unfolding is_hex
variant_hex c e = ground arith

-- The characters of a UUID are hexadecimal digits and dashes.
pub is_uuid-all :
    (q : ℕ → Bool)
    → ((c : ℕ) → is_hex c ≡ true → q c ≡ true)
    → q b'-' ≡ true
    → (s : Text) → is_uuid s ≡ true
    → all q s ≡ true
unfolding is_uuid Each is_hex
is_uuid-all q hex dash s h =
    let dashes = λ (c : ℕ) (e : is_dash c ≡ true). dash_only q c e dash in
    let fifth : Each q fifth_group = (dashes, hex_digits-Each q hex 12 [] tt) in
    let fourth : Each q fourth_group =
      (dashes, ((λ c e. hex c (variant_hex c e)), hex_digits-Each q hex 3 fifth_group fifth)) in
    let third : Each q third_group =
      (dashes, ((λ c e. hex c (version_hex c e)), hex_digits-Each q hex 3 fourth_group fourth)) in
    let second : Each q second_group = (dashes, hex_digits-Each q hex 4 third_group third) in
    matches-all q (hex_digits 8 second_group) s (hex_digits-Each q hex 8 second_group second) h

abbrev pub prepend : ℕ → List Text → List Text
prepend c [] = (c ∷ []) ∷ []
prepend c (p ∷ ps) = (c ∷ p) ∷ ps

-- split of a one-character separator.
unfoldable pub split : ℕ → Text → List Text
split sep [] = [] ∷ []
split sep (c ∷ s) = let rest = split sep s in if c == sep then [] ∷ rest else prepend c rest

-- replace(/[…]+/g, ' '): each run of the class becomes one space. `inside` tells whether the unit
-- before was of the class.
unfoldable pub collapse : (ℕ → Bool) → Bool → Text → Text
collapse p inside [] = []
collapse p inside (c ∷ s) =
    let rest = collapse p (p c) s in if p c then (if inside then rest else 32 ∷ rest) else c ∷ rest
