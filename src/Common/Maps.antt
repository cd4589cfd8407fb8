-- ===== src/Common/Maps.antt =====
-- A JavaScript Map with text keys, as the list of its entries in the order of insertion.
use mathlib.Core.Path.{◌≡◌, refl}
use mathlib.Core.Logic.{inl, inr}
use mathlib.Core.Bool.{Bool, true, false}
use mathlib.Core.List.{List, [], ◌∷◌}
use mathlib.Core.Option.{Option, none, some}
use native.Mathlib.Omega.{arith}
use labaiacinghiala.Common.Tests.{if◌then◌else◌, Bool-cases}
use labaiacinghiala.Common.Lists.{keep}
use labaiacinghiala.Common.Strings.{Text, text_eq, text_eq_iff, text_eq_refl}

module _ {ℓ} {A : Type ℓ} where
  -- Map.prototype.get, set and delete.
  unfoldable pub map_get : Text → List (Text × A) → Option A
  unfolding text_eq
  map_get key [] = none
  map_get key ((k, v) ∷ entries) =
      let rest = map_get key entries in if text_eq k key then some v else rest

  unfoldable pub map_set : Text → A → List (Text × A) → List (Text × A)
  unfolding text_eq
  map_set key v [] = (key, v) ∷ []
  map_set key v ((k, w) ∷ entries) =
      let rest = map_set key v entries in
      if text_eq k key then (key, v) ∷ entries else (k, w) ∷ rest

  unfoldable pub map_delete : Text → List (Text × A) → List (Text × A)
  unfolding text_eq
  map_delete key [] = []
  map_delete key ((k, v) ∷ entries) =
      let rest = map_delete key entries in if text_eq k key then rest else (k, v) ∷ rest

  pub map_get-map_set :
      (key : Text) (v : A) (entries : List (Text × A))
      → map_get key (map_set key v entries) ≡ some v
  unfolding map_get map_set
  map_get-map_set key v [] = rw (text_eq_refl key) refl
  map_get-map_set key v ((k, w) ∷ entries) =
      ground (arith, text_eq_refl key, map_get-map_set key v entries)

  pub map_get-map_set_other :
      (key j : Text) (v : A) (entries : List (Text × A))
      → text_eq j key ≡ false
      → map_get key (map_set j v entries) ≡ map_get key entries
  unfolding map_get map_set
  map_get-map_set_other key j v [] h = rw h refl
  map_get-map_set_other key j v ((k, w) ∷ entries) h =
      ground (arith, text_eq_iff k j, map_get-map_set_other key j v entries h)

  -- A cleaning pass that looks at the values.
  abbrev pub keep_values : (A → Bool) → List (Text × A) → List (Text × A)
  keep_values p = keep (λ (entry : Text × A). p entry.1)

  -- It keeps the value of a key, if its test holds of it, and brings no key in.
  pub map_get-keep_values :
      (key : Text) (p : A → Bool) (entries : List (Text × A)) (v : A)
      → map_get key entries ≡ some v
      → p v ≡ true
      → map_get key (keep_values p entries) ≡ some v
  unfolding map_get
  map_get-keep_values key p [] v h k = cc
  map_get-keep_values key p ((j, w) ∷ entries) v h k = elim (Bool-cases (text_eq j key)) [
    | inl same ↦ let value : w ≡ v = ground (arith, same) in rw (value, k, same) refl
    | inr other ↦ ground (arith, other, map_get-keep_values key p entries v)
  ]

  pub map_get-keep_values-none :
      (key : Text) (p : A → Bool) (entries : List (Text × A))
      → map_get key entries ≡ none
      → map_get key (keep_values p entries) ≡ none
  unfolding map_get
  map_get-keep_values-none key p [] h = refl
  map_get-keep_values-none key p ((j, w) ∷ entries) h = elim (Bool-cases (text_eq j key)) [
    | inl same ↦ absurd (ground (arith, same))
    | inr other ↦ ground (arith, other, map_get-keep_values-none key p entries)
  ]
