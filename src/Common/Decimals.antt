-- ===== src/Common/Decimals.antt =====
-- The decimal text of a number determines it.
use Prim.Native.Nat.{ℕ, zero, suc, ◌+◌, ◌-◌, ◌*◌, ◌/◌, ◌%◌, ◌<◌}
use mathlib.Core.Path.{◌≡◌, refl, ap, sym, ◌∙◌}
use mathlib.Core.Logic.{inl, inr}
use mathlib.Core.Bool.{Bool, true}
use mathlib.Core.List.{[], ◌∷◌, ◌++◌}
use native.Mathlib.Omega.{arith}
use labaiacinghiala.Common.Tests.{ltb, Bool-cases}
use labaiacinghiala.Common.Lists.{all}
use labaiacinghiala.Common.Strings.{Text}
use labaiacinghiala.Common.Numbers.{decimal, decimal_from}

-- The number that digits write, after one that is written before them.
read_from : ℕ → Text → ℕ
read_from n [] = n
read_from n (c ∷ s) = read_from (n * 10 + (c - b'0')) s

read_from-append :
    (n : ℕ) (s : Text) (c : ℕ) → read_from n (s ++ c ∷ []) ≡ read_from n s * 10 + (c - b'0')
unfolding read_from
read_from-append n [] c = refl
read_from-append n (d ∷ s) c = read_from-append (n * 10 + (d - b'0')) s c

read_from-decimal : (fuel n : ℕ) → n < fuel → read_from 0 (decimal_from fuel n) ≡ n
unfolding read_from decimal_from
read_from-decimal zero n h = absurd (omega arith)
read_from-decimal (suc fuel) n h = elim (Bool-cases (ltb n 10)) [
  | inl small ↦ rw small (omega arith)
  | inr large ↦
      let rest = read_from-decimal fuel (n / 10) (ground (arith, large)) in
      rw large
        (rw (read_from-append 0 (decimal_from fuel (n / 10)) (b'0' + n % 10), rest) (omega arith))
]

pub decimal-inj : (m n : ℕ) → decimal m ≡ decimal n → m ≡ n
unfolding decimal
decimal-inj m n h =
    sym (read_from-decimal (suc m) m (omega arith))
    ∙ ap (read_from 0) h
    ∙ read_from-decimal (suc n) n (omega arith)

all-append_last :
    (p : ℕ → Bool) (s : Text) (c : ℕ) → all p s ≡ true → p c ≡ true → all p (s ++ c ∷ []) ≡ true
all-append_last p [] c h k = rw k refl
all-append_last p (d ∷ s) c h k = ground (arith, all-append_last p s c)

decimal_from-all :
    (p : ℕ → Bool)
    → ((d : ℕ) → d < 10 → p (b'0' + d) ≡ true)
    → (fuel n : ℕ) → all p (decimal_from fuel n) ≡ true
unfolding decimal_from
decimal_from-all p h zero n = refl
decimal_from-all p h (suc fuel) n = elim (Bool-cases (ltb n 10)) [
  | inl small ↦ rw (small, h n (ground (arith, small))) refl
  | inr large ↦ rw large (
      all-append_last p (decimal_from fuel (n / 10)) (b'0' + n % 10)
        (decimal_from-all p h fuel (n / 10)) (h (n % 10) (omega arith)))
]

-- A decimal text has digits only.
pub decimal-all :
    (p : ℕ → Bool) → ((d : ℕ) → d < 10 → p (b'0' + d) ≡ true) → (n : ℕ) → all p (decimal n) ≡ true
unfolding decimal
decimal-all p h n = decimal_from-all p h (suc n) n
