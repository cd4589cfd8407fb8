-- ===== src/Access/Paths.antt =====
-- The id in a path that is spelled as a slash, digits and the rest of a route.
use labaiacinghiala.Common.{
  Bool, true, false, ◌||◌, some, [], ◌∷◌, ◌++◌, ◌≡◌, refl, inl, inr, not, all, Text, codes,
  starts_with, is_empty, text_eq, Bool-cases, ap,
}
use labaiacinghiala.Ranges.{leading_digits, after_digits, drop_text, is_digit, value_of}
use labaiacinghiala.Access.{after_id, resource_id, is_similar}

-- The text does not go on with a digit.
unfoldable pub stops : Text → Bool
stops [] = true
stops (c ∷ rest) = not (is_digit c)

digits_lem :
    (digits rest : Text)
    → all is_digit digits ≡ true
    → stops rest ≡ true
    → (leading_digits (digits ++ rest) ≡ digits) × (after_digits (digits ++ rest) ≡ rest)
unfolding leading_digits after_digits stops
digits_lem [] [] d h = (refl, refl)
digits_lem [] (c ∷ rest) d h = elim (Bool-cases (is_digit c)) [
  | inl e ↦ let no : false ≡ true = rw e at h in absurd (cc no)
  | inr e ↦ (rw (e, leading_digits) refl, rw (e, after_digits) refl)
]
digits_lem (c ∷ digits) rest d h = elim (Bool-cases (is_digit c)) [
  | inr e ↦ let no : false ≡ true = rw e at d in absurd (cc no)
  | inl e ↦
      let others : all is_digit digits ≡ true = rw e at d in
      let (leading, after) = digits_lem digits rest others h in
      (rw (e, leading_digits) (ap (λ ds. c ∷ ds) leading), rw (e, after_digits) after)
]

module _ (digits rest : Text) (filled : is_empty digits ≡ false)
    (decimal : all is_digit digits ≡ true) (stop : stops rest ≡ true) where
  pub spelled-resource_id :
      (is_empty rest || starts_with rest (codes "/")) ≡ true
      → resource_id (b'/' ∷ digits ++ rest) ≡ some (value_of 0 digits)
  unfolding resource_id after_id drop_text starts_with
  spelled-resource_id ends =
      let (leading, after) = digits_lem digits rest decimal stop in
      rw (leading, after, filled, ends, resource_id, after_id) refl

  pub spelled-is_similar :
      is_similar (b'/' ∷ digits ++ rest)
      ≡ text_eq rest (codes "/similar") || text_eq rest (codes "/similar/")
  unfolding is_similar after_id drop_text
  spelled-is_similar = let (leading, after) = digits_lem digits rest decimal stop in rw after refl
