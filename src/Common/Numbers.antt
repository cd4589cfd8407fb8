-- ===== src/Common/Numbers.antt =====
-- Numbers as the source reads them, and their decimal text.
use Prim.Native.Nat.{ℕ, zero, suc, ◌+◌, ◌/◌, ◌%◌}
use mathlib.Core.List.{[], ◌∷◌, ◌++◌}
use labaiacinghiala.Common.Tests.{ltb, if◌then◌else◌}
use labaiacinghiala.Common.Strings.{Text}

-- A number: not finite, negative, or an amount of the unit at hand.
pub data JsNumber : Type 0 where
  not_finite : JsNumber
  negative : ℕ → JsNumber
  amount : ℕ → JsNumber

-- Number.isFinite(n) ? Math.max(0, n) : 0.
abbrev pub non_negative : JsNumber → ℕ
non_negative not_finite = 0
non_negative (negative n) = 0
non_negative (amount n) = n

unfoldable pub decimal_from : ℕ → ℕ → Text
decimal_from zero n = []
decimal_from (suc fuel) n =
    let rest = decimal_from fuel (n / 10) ++ (b'0' + n % 10) ∷ [] in
    if ltb n 10 then (b'0' + n) ∷ [] else rest

-- String(n): a number has fewer digits than it counts.
unfoldable pub decimal : ℕ → Text
unfolding decimal_from
decimal n = decimal_from (suc n) n
