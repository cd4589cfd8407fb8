-- ===== src/PlayHistory/Rows.antt =====
-- How an UPDATE of one row changes a count.
use labaiacinghiala.Common.{
  ◌+◌, ◌≤◌, Bool, some, List, [], ◌∷◌, ◌≡◌, refl, inl, inr, arith, find, update_rows, count_rows,
  Bool-cases, sym,
}
use labaiacinghiala.PlayHistory.{one_if}

module _ {ℓ} {A : Type ℓ} (p is : A → Bool) (change : A → A) where
  untouched :
      (rows : List A)
      → count_rows is rows ≡ 0
      → count_rows p (update_rows is change rows) ≡ count_rows p rows
  untouched [] h = refl
  untouched (row ∷ rows) h = ground (arith, untouched rows)

  -- The row that the UPDATE finds changes the count by itself.
  pub count_rows-update_only :
      (rows : List A) (row : A)
      → find is rows ≡ some row
      → count_rows is rows ≤ 1
      → count_rows p (update_rows is change rows) + one_if (p row)
        ≡ count_rows p rows + one_if (p (change row))
  count_rows-update_only [] row h u = cc
  count_rows-update_only (r ∷ rows) row h u = elim (Bool-cases (is r)) [
    | inl found ↦
        let rest = untouched rows (ground (arith, found, u)) in
        let same : r ≡ row = ground (arith, found, h) in
        rw (sym same) (rw found (omega (arith, rest)))
    | inr other ↦
        let rest = count_rows-update_only rows row (rw other at h) (ground (arith, other, u)) in
        rw other (omega (arith, rest))
  ]
