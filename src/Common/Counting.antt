-- ===== src/Common/Counting.antt =====
-- How often a number stands in a list: the laws by which a list of indices is shown to hold each
-- index once.
use Prim.Native.Nat.{ℕ, zero, suc, ◌+◌, ◌-◌, ◌<◌}
use mathlib.Core.Path.{◌≡◌, refl}
use mathlib.Core.Bool.{Bool, not}
use mathlib.Core.List.{List, [], ◌∷◌, ◌++◌, map}
use mathlib.Core.Option.{some}
use native.Mathlib.Omega.{arith}
use labaiacinghiala.Common.Tests.{ltb, ◌==◌, if◌then◌else◌}
use labaiacinghiala.Common.Lists.{length, get_elem?, set, keep}

abbrev pub count : ℕ → List ℕ → ℕ
count wanted [] = 0
count wanted (first ∷ rest) = (if first == wanted then 1 else 0) + count wanted rest

-- from, from + 1, …, n of them.
abbrev pub range_from : ℕ → ℕ → List ℕ
range_from from zero = []
range_from from (suc n) = from ∷ range_from (suc from) n

pub length-range_from : (from n : ℕ) → length (range_from from n) ≡ n
length-range_from from zero = refl
length-range_from from (suc n) = omega (arith, length-range_from (suc from) n)

pub get_elem?-range_from :
    (from n i : ℕ) → i < n → get_elem? (range_from from n) i ≡ some (from + i)
get_elem?-range_from from zero i h = elim h [ ]
get_elem?-range_from from (suc n) zero h = ground arith
get_elem?-range_from from (suc n) (suc i) h = ground (arith, get_elem?-range_from (suc from) n i)

pub get_elem?-range_zero : (n i : ℕ) → i < n → get_elem? (range_from 0 n) i ≡ some i
get_elem?-range_zero n i h = ground (arith, get_elem?-range_from 0 n i)

pub count-append :
    (wanted : ℕ) (front back : List ℕ)
    → count wanted (front ++ back) ≡ count wanted front + count wanted back
count-append wanted [] back = omega arith
count-append wanted (first ∷ rest) back = omega (arith, count-append wanted rest back)

pub count-range_from :
    (a from n : ℕ)
    → count a (range_from from n) ≡ (if ltb a from then 0 else if ltb a (from + n) then 1 else 0)
count-range_from a from zero = ground arith
count-range_from a from (suc n) = ground (arith, count-range_from a (suc from) n)

-- A write at a place that held `x` gains one `v` and loses one `x`.
pub count-set :
    (a : ℕ) (xs : List ℕ) (i v : ℕ) {x : ℕ}
    → get_elem? xs i ≡ some x
    → count a (set xs i v) + (if x == a then 1 else 0) ≡ count a xs + (if v == a then 1 else 0)
count-set a [] i v h = absurd (cc)
count-set a (y ∷ xs) zero v h = ground arith
count-set a (y ∷ xs) (suc i) v h = omega (arith, count-set a xs i v h)

pub count-keep :
    (a : ℕ) (p : ℕ → Bool) (xs : List ℕ) → count a (keep p xs) ≡ (if p a then count a xs else 0)
count-keep a p [] = ground arith
count-keep a p (x ∷ xs) = ground (arith, count-keep a p xs)

-- An element that stands at a place is counted.
pub count-pos : (xs : List ℕ) (i : ℕ) {a : ℕ} → get_elem? xs i ≡ some a → 0 < count a xs
count-pos [] i h = absurd (cc)
count-pos (x ∷ xs) zero h = ground arith
count-pos (x ∷ xs) (suc i) h = omega (arith, count-pos xs i h)

-- Without `k`, the numbers above it move down by one.
abbrev pub shift_down : ℕ → ℕ → ℕ
shift_down k x = if ltb k x then x - 1 else x

pub count-shift_down :
    (a k : ℕ) (xs : List ℕ)
    → count a (map (shift_down k) (keep (λ x. not (x == k)) xs))
      ≡ (if ltb a k then count a xs else count (suc a) xs)
count-shift_down a k [] = ground arith
count-shift_down a k (x ∷ xs) = ground (arith, count-shift_down a k xs)
