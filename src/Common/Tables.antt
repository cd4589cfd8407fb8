-- ===== src/Common/Tables.antt =====
-- Tables as lists of rows: UPDATE … WHERE, how many rows a test holds of, and what a lookup finds
-- after an UPDATE.
use Prim.Native.Nat.{ℕ, ◌+◌, ◌≤◌}
use mathlib.Core.Path.{◌≡◌, refl}
use mathlib.Core.Logic.{inl, inr}
use mathlib.Core.Bool.{Bool, true, false}
use mathlib.Core.List.{List, [], ◌∷◌, ◌++◌}
use mathlib.Core.Option.{none, some}
use native.Mathlib.Omega.{arith}
use labaiacinghiala.Common.Tests.{if◌then◌else◌, Bool-cases}
use labaiacinghiala.Common.Lists.{find, any, keep}

module _ {ℓ} {A : Type ℓ} where
  -- UPDATE … SET … WHERE.
  abbrev pub update_rows : (A → Bool) → (A → A) → List A → List A
  update_rows p change [] = []
  update_rows p change (row ∷ rows) =
      (if p row then change row else row) ∷ update_rows p change rows

  -- How many rows the test holds of: `changes` of an UPDATE with that WHERE.
  abbrev pub count_rows : (A → Bool) → List A → ℕ
  count_rows p [] = 0
  count_rows p (row ∷ rows) = (if p row then 1 else 0) + count_rows p rows

  pub count_rows-append :
      (p : A → Bool) (front back : List A)
      → count_rows p (front ++ back) ≡ count_rows p front + count_rows p back
  count_rows-append p [] back = omega arith
  count_rows-append p (row ∷ rows) back = omega (arith, count_rows-append p rows back)

  pub count_rows-keep :
      (p q : A → Bool) (rows : List A) → count_rows p (keep q rows) ≤ count_rows p rows
  count_rows-keep p q [] = omega arith
  count_rows-keep p q (row ∷ rows) = ground (arith, count_rows-keep p q rows)

  pub count_rows-any : (p : A → Bool) (rows : List A) → any p rows ≡ false → count_rows p rows ≡ 0
  count_rows-any p [] h = refl
  count_rows-any p (row ∷ rows) h = ground (arith, count_rows-any p rows)

  pub count_rows-find : (p : A → Bool) (rows : List A) → find p rows ≡ none → count_rows p rows ≡ 0
  count_rows-find p [] h = refl
  count_rows-find p (row ∷ rows) h = ground (arith, count_rows-find p rows)

  pub count_rows-zero : (p : A → Bool) (rows : List A) → count_rows p rows ≡ 0 → find p rows ≡ none
  count_rows-zero p [] h = refl
  count_rows-zero p (row ∷ rows) h = ground (arith, count_rows-zero p rows)

  pub any-find : (p : A → Bool) (rows : List A) → any p rows ≡ false → find p rows ≡ none
  any-find p [] h = refl
  any-find p (row ∷ rows) h = ground (arith, any-find p rows)

  pub find-holds : (p : A → Bool) (rows : List A) {a : A} → find p rows ≡ some a → p a ≡ true
  find-holds p [] h = cc
  find-holds p (row ∷ rows) {a} h = elim (Bool-cases (p row)) [
    | inl is ↦ ground (arith, is)
    | inr other ↦ find-holds p rows {a = a} (ground (arith, other))
  ]

  pub find-append :
      (p : A → Bool) (front back : List A) {a : A}
      → find p front ≡ some a
      → find p (front ++ back) ≡ some a
  find-append p [] back h = cc
  find-append p (row ∷ rows) back {a} h = elim (Bool-cases (p row)) [
    | inl is ↦ ground (arith, is)
    | inr other ↦ rw other (find-append p rows back {a = a} (ground (arith, other)))
  ]

  pub find-append_new :
      (p : A → Bool) (rows : List A) (a : A)
      → find p rows ≡ none
      → p a ≡ true
      → find p (rows ++ a ∷ []) ≡ some a
  find-append_new p [] a h is = rw is refl
  find-append_new p (row ∷ rows) a h is = elim (Bool-cases (p row)) [
    | inl found ↦ absurd (ground (arith, found))
    | inr other ↦ rw other (find-append_new p rows a (ground (arith, other)) is)
  ]

  -- A row that is found by one test is found by another that holds of it alone.
  pub find_unique :
      (p q : A → Bool) (rows : List A) (a : A)
      → find p rows ≡ some a
      → q a ≡ true
      → count_rows q rows ≤ 1
      → find q rows ≡ some a
  find_unique p q [] a h is u = cc
  find_unique p q (row ∷ rows) a h is u = elim (Bool-cases (p row)) [
    | inl same ↦ ground (arith, same, is)
    | inr other ↦
        let rest = find_unique p q rows a (ground (arith, other)) is (ground arith) in
        elim (Bool-cases (q row)) [
          | inl too ↦ absurd (cc (rest, count_rows-zero q rows (ground (arith, too))))
          | inr next ↦ rw next rest
        ]
  ]

  -- An UPDATE that does not change the columns of a test changes nothing in what the test finds but
  -- the row itself.
  module _ (p q : A → Bool) (change : A → A) (same : (a : A) → p (change a) ≡ p a) where
    pub find-update_rows :
        (rows : List A) (a : A)
        → find p rows ≡ some a
        → find p (update_rows q change rows) ≡ some (if q a then change a else a)
    find-update_rows [] a h = cc
    find-update_rows (row ∷ rows) a h = elim (Bool-cases (p row)) [
      | inl is ↦ ground (arith, is, same row)
      | inr other ↦ ground (arith, other, same row, find-update_rows rows a)
    ]

    pub find-update_rows-none :
        (rows : List A) → find p rows ≡ none → find p (update_rows q change rows) ≡ none
    find-update_rows-none [] h = refl
    find-update_rows-none (row ∷ rows) h = ground (arith, same row, find-update_rows-none rows)

    pub count_rows-update_rows :
        (rows : List A) → count_rows p (update_rows q change rows) ≡ count_rows p rows
    count_rows-update_rows [] = refl
    count_rows-update_rows (row ∷ rows) = ground (arith, same row, count_rows-update_rows rows)

  -- A test that implies another holds of no more rows; where the other holds of one row at most, the
  -- row that it finds is the one that the first holds of.
  module _ (q p : A → Bool) (implied : (a : A) → q a ≡ true → p a ≡ true) where
    pub count_rows-le : (rows : List A) → count_rows q rows ≤ count_rows p rows
    count_rows-le [] = omega arith
    count_rows-le (row ∷ rows) = ground (arith, implied row, count_rows-le rows)

    pub find-only :
        (rows : List A)
        → count_rows q rows ≡ 1
        → count_rows p rows ≤ 1
        → (a : A) × (find p rows ≡ some a) × (q a ≡ true)
    find-only [] h k = absurd (ground arith)
    find-only (row ∷ rows) h k = elim (Bool-cases (q row)) [
      | inl is ↦ (row, rw (implied row is) refl, is)
      | inr other ↦ elim (Bool-cases (p row)) [
        | inl only ↦ absurd (ground (arith, other, only, count_rows-le rows))
        | inr next ↦
            let (a, found, is) = find-only rows (ground (arith, other)) (ground (arith, next)) in
            (a, rw next found, is)
      ]
    ]
