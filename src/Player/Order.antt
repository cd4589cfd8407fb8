-- ===== src/Player/Order.antt =====
-- The playing order as a rearrangement of the queue's indices: what shuffle and rebuildOrder keep.
use labaiacinghiala.Common.{
  JsNumber, non_negative, ℕ, zero, suc, ◌+◌, ◌-◌, ◌*◌, ◌<◌, ◌≤◌, min, not, some, List, [], ◌∷◌, ◌≡◌,
  refl, ◌∙◌, inl, inr, arith, length, get_elem?, set, length-set, keep, count, count-set,
  count-keep, range_from, count-range_from, ltb, ◌==◌, if◌then◌else◌, Option-cases,
}
use labaiacinghiala.Player.{draw_below, swap, shuffle_from, shuffle}

get_elem?-set_hit :
    (xs : List ℕ) (i v : ℕ) {x : ℕ} → get_elem? xs i ≡ some x → get_elem? (set xs i v) i ≡ some v
get_elem?-set_hit [] i v h = absurd (cc)
get_elem?-set_hit (y ∷ xs) zero v h = refl
get_elem?-set_hit (y ∷ xs) (suc i) v h = get_elem?-set_hit xs i v h

-- Whatever stands at `j` afterwards: the write at `i` of the value that stood at `j` keeps it.
get_elem?-set_same :
    (xs : List ℕ) (i j v : ℕ) → get_elem? xs j ≡ some v → get_elem? (set xs i v) j ≡ some v
get_elem?-set_same [] i j v h = absurd (cc)
get_elem?-set_same (y ∷ xs) zero zero v h = refl
get_elem?-set_same (y ∷ xs) zero (suc j) v h = h
get_elem?-set_same (y ∷ xs) (suc i) zero v h = h
get_elem?-set_same (y ∷ xs) (suc i) (suc j) v h = get_elem?-set_same xs i j v h

pub count-swap : (a : ℕ) (xs : List ℕ) (i j : ℕ) → count a (swap xs i j) ≡ count a xs
unfolding swap
count-swap a xs i j = elim (Option-cases (get_elem? xs i)) [
  | inl e ↦ rw (e, swap)
  | inr (x, e) ↦ elim (Option-cases (get_elem? xs j)) [
    | inl f ↦ rw (e, f, swap)
    | inr (y, f) ↦
        rw (e, f, swap)
          (omega (
            arith,
            count-set a xs i y e,
            count-set a (set xs i y) j x (get_elem?-set_same xs i j y f),
          ))
  ]
]

pub length-swap : (xs : List ℕ) (i j : ℕ) → length (swap xs i j) ≡ length xs
unfolding swap
length-swap xs i j = elim (Option-cases (get_elem? xs i)) [
  | inl e ↦ rw (e, swap)
  | inr (x, e) ↦ elim (Option-cases (get_elem? xs j)) [
    | inl f ↦ rw (e, f, swap)
    | inr (y, f) ↦ rw (e, f, swap) (length-set (set xs i y) j x ∙ length-set xs i y)
  ]
]

count-shuffle_from :
    (random : ℕ → JsNumber) (draws index a : ℕ) (xs : List ℕ)
    → count a (shuffle_from random draws index xs) ≡ count a xs
unfolding shuffle_from
count-shuffle_from random draws zero a xs = refl
count-shuffle_from random draws (suc index) a xs =
    count-shuffle_from random (suc draws) index a _ ∙ count-swap a xs _ _

length-shuffle_from :
    (random : ℕ → JsNumber) (draws index : ℕ) (xs : List ℕ)
    → length (shuffle_from random draws index xs) ≡ length xs
unfolding shuffle_from
length-shuffle_from random draws zero xs = refl
length-shuffle_from random draws (suc index) xs =
    length-shuffle_from random (suc draws) index _ ∙ length-swap xs _ _

-- Whatever the random numbers are, the shuffled list has the same entries, each as often.
pub count-shuffle :
    (random : ℕ → JsNumber) (draws a : ℕ) (xs : List ℕ)
    → count a (shuffle random draws xs) ≡ count a xs
unfolding shuffle
count-shuffle random draws a xs = count-shuffle_from random draws (length xs - 1) a xs

pub length-shuffle :
    (random : ℕ → JsNumber) (draws : ℕ) (xs : List ℕ) → length (shuffle random draws xs) ≡ length xs
unfolding shuffle
length-shuffle random draws xs = length-shuffle_from random draws (length xs - 1) xs

mul_mono : (a b c : ℕ) → a ≤ b → a * c ≤ b * c
mul_mono a b c h = grind arith

-- The target of a round is at most its index, so no write of a round is out of bounds.
pub draw_below-le : (candidate : JsNumber) (index : ℕ) → draw_below candidate index ≤ index
unfolding draw_below
draw_below-le candidate index =
    omega
      (arith, mul_mono (min (non_negative candidate) 999999999) 999999999 (index + 1) (omega arith))

-- An order of n indices: each index below n once, and nothing else.
abbrev pub IsOrder : ℕ → List ℕ → Type 0
IsOrder n order = (a : ℕ) → count a order ≡ (if ltb a n then 1 else 0)

pub range_from-IsOrder : (n : ℕ) → IsOrder n (range_from 0 n)
range_from-IsOrder n a = ground (arith, count-range_from a 0 n)

length-keep_once :
    (k from n : ℕ)
    → length (keep (λ i. not (i == k)) (range_from from n))
      ≡ (if ltb k from then n else if ltb k (from + n) then n - 1 else n)
length-keep_once k from zero = ground arith
length-keep_once k from (suc n) = ground (arith, length-keep_once k (suc from) n)

module _ (random : ℕ → JsNumber) (draws n k : ℕ) (h : k < n) where
  pub active_first-IsOrder :
      IsOrder n (k ∷ shuffle random draws (keep (λ i. not (i == k)) (range_from 0 n)))
  active_first-IsOrder a = ground (
    arith,
    count-shuffle random draws a (keep (λ i. not (i == k)) (range_from 0 n)),
    count-keep a (λ i. not (i == k)) (range_from 0 n),
    count-range_from a 0 n,
  )

  pub length-active_first :
      suc (length (shuffle random draws (keep (λ i. not (i == k)) (range_from 0 n)))) ≡ n
  length-active_first = ground (
    arith,
    length-shuffle random draws (keep (λ i. not (i == k)) (range_from 0 n)),
    length-keep_once k 0 n,
  )
