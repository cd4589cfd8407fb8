-- ===== src/Accounts/Archived.antt =====
-- The name under which a deleted account is kept: availableDeletedUsername finds one that is free.
use labaiacinghiala.Common.{
  some-inj, ℕ, zero, suc, ◌+◌, ◌-◌, ◌≤◌, ◌<◌, Bool, true, false, not, ◌&&◌, ◌||◌, none, some, List,
  [], ◌∷◌, ◌++◌, ◌≡◌, refl, inl, inr, arith, Text, text_eq, text_eq_iff, all, any, take, length,
  decimal, decimal-inj, decimal-all, count_rows, ltb, leb, ◌==◌, if◌then◌else◌, Bool-cases,
  Option-cases, ok, ap, sym, ◌∙◌, subst,
}
use labaiacinghiala.Store.{Account, Db}
use labaiacinghiala.Accounts.{comparison_key, free_tombstone, archive, soft_delete_account}
use labaiacinghiala.Accounts.Rows.{
  Unicode, username_taken, tombstone, update_accounts, set_deleted, assert_account_exists,
  assert_can_remove_active_admin,
}

-- The candidate with a number.
numbered : Text → ℕ → Text
numbered base suffix = let text = b'-' ∷ decimal suffix in take (64 - length text) base ++ text

has_dash : Text → Bool
has_dash t = any (λ c. c == b'-') t

-- What follows the last dash.
after_dash : Text → Text
after_dash [] = []
after_dash (c ∷ s) =
    let rest = after_dash s in if has_dash s then rest else if c == b'-' then s else c ∷ s

dash_inside : (s t : Text) → has_dash (s ++ b'-' ∷ t) ≡ true
unfolding has_dash
dash_inside [] t = refl
dash_inside (c ∷ s) t = ground (arith, dash_inside s t)

after_dash-append : (s t : Text) → has_dash t ≡ false → after_dash (s ++ b'-' ∷ t) ≡ t
unfolding after_dash
after_dash-append [] t h = rw h refl
after_dash-append (c ∷ s) t h = rw (dash_inside s t) (after_dash-append s t h)

no_dash : (s : Text) → all (λ c. not (c == b'-')) s ≡ true → has_dash s ≡ false
unfolding has_dash
no_dash [] h = refl
no_dash (c ∷ s) h = ground (arith, no_dash s)

numbered-inj : (base : Text) (m n : ℕ) → numbered base m ≡ numbered base n → m ≡ n
unfolding numbered
numbered-inj base m n h =
    let plain = λ (k : ℕ).
      no_dash (decimal k) (decimal-all (λ c. not (c == b'-')) (λ d small. ground arith) k) in
    decimal-inj m n (
      sym (after_dash-append _ (decimal m) (plain m))
      ∙ ap after_dash h
      ∙ after_dash-append _ (decimal n) (plain n))

-- Rows whose name is one of the first keys, of keys that differ.
module _ (key : ℕ → Text) (differ : (i j : ℕ) → key i ≡ key j → i ≡ j) where
  abbrev is_named : Text → Account → Bool
  is_named name a = text_eq a.username_normalized name

  within : ℕ → Account → Bool
  within zero a = false
  within (suc n) a = is_named (key n) a || within n a

  apart_from : (n m : ℕ) (a : Account) → m ≤ n → is_named (key n) a ≡ true → within m a ≡ false
  unfolding within
  apart_from n zero a h is = refl
  apart_from n (suc m) a h is = elim (Bool-cases (is_named (key m) a)) [
    | inl too ↦
        let same = differ n m (
          sym ((text_eq_iff a.username_normalized (key n)).0 is)
          ∙ (text_eq_iff a.username_normalized (key m)).0 too) in
        absurd (omega (arith, same))
    | inr other ↦ rw other (apart_from n m a (omega arith) is)
  ]

  within-suc :
      (n : ℕ) (rows : List Account)
      → count_rows (within (suc n)) rows
        ≡ count_rows (is_named (key n)) rows + count_rows (within n) rows
  unfolding within
  within-suc n [] = refl
  within-suc n (a ∷ rows) = elim (Bool-cases (is_named (key n) a)) [
    | inl is ↦ rw (is, apart_from n n a (omega arith) is) (omega (arith, within-suc n rows))
    | inr other ↦ rw other (omega (arith, within-suc n rows))
  ]

  count_rows-length : (p : Account → Bool) (rows : List Account) → count_rows p rows ≤ length rows
  count_rows-length p [] = omega arith
  count_rows-length p (a ∷ rows) = ground (arith, count_rows-length p rows)

  -- As many different keys as are all in use are no more than the rows.
  in_use-le :
      (n : ℕ) (rows : List Account)
      → ((i : ℕ) → i < n → 1 ≤ count_rows (is_named (key i)) rows)
      → n ≤ count_rows (within n) rows
  in_use-le zero rows h = omega arith
  in_use-le (suc n) rows h = omega (
    arith,
    within-suc n rows,
    h n (omega arith),
    in_use-le n rows (λ i small. h i (omega (arith, small))),
  )

taken_counts :
    (id name : Text) (rows : List Account)
    → username_taken id name rows ≡ true
    → 1 ≤ count_rows (λ (a : Account). text_eq a.username_normalized name) rows
unfolding username_taken
taken_counts id name [] h = cc
taken_counts id name (a ∷ rows) h = ground (arith, taken_counts id name rows)

module _ (unicode : Unicode) (id base : Text) (rows : List Account) where
  step_none :
      (fuel : ℕ) (candidate : Text) (suffix : ℕ)
      → free_tombstone unicode (suc fuel) id base candidate suffix rows ≡ none
      → (username_taken id (comparison_key unicode candidate) rows ≡ true)
        × (free_tombstone unicode fuel id base (numbered base suffix) (suffix + 1) rows ≡ none)
  unfolding free_tombstone numbered
  step_none fuel candidate suffix h =
      elim (Bool-cases (username_taken id (comparison_key unicode candidate) rows)) [
        | inl taken ↦ (taken, rw taken at h)
        | inr free ↦ absurd (cc (rw free at h))
      ]

  -- A loop that ends without a name tried all the candidates.
  all_taken :
      (fuel : ℕ) (candidate : Text) (suffix i : ℕ)
      → free_tombstone unicode fuel id base candidate suffix rows ≡ none
      → i + 1 < fuel
      → username_taken id (comparison_key unicode (numbered base (suffix + i))) rows ≡ true
  all_taken zero candidate suffix i h small = absurd (omega arith)
  all_taken (suc zero) candidate suffix i h small = absurd (omega arith)
  all_taken (suc (suc fuel)) candidate suffix zero h small =
      let (_, rest) = step_none (suc fuel) candidate suffix h in
      let (taken, _) = step_none fuel (numbered base suffix) (suffix + 1) rest in
      subst (λ k. username_taken id (comparison_key unicode (numbered base k)) rows ≡ true)
        (omega arith) taken
  all_taken (suc (suc fuel)) candidate suffix (suc i) h small =
      let (_, rest) = step_none (suc fuel) candidate suffix h in
      subst (λ k. username_taken id (comparison_key unicode (numbered base k)) rows ≡ true)
        (omega arith)
        (all_taken (suc fuel) (numbered base suffix) (suffix + 1) i rest (omega (arith, small)))

  found_free :
      (fuel : ℕ) (candidate : Text) (suffix : ℕ) {name : Text}
      → free_tombstone unicode fuel id base candidate suffix rows ≡ some name
      → username_taken id (comparison_key unicode name) rows ≡ false
  unfolding free_tombstone
  found_free zero candidate suffix h = cc
  found_free (suc fuel) candidate suffix {name} h =
      elim (Bool-cases (username_taken id (comparison_key unicode candidate) rows)) [
        | inl taken ↦ found_free fuel _ (suffix + 1) {name = name} (rw taken at h)
        | inr free ↦
            subst (λ t. username_taken id (comparison_key unicode t) rows ≡ false)
              (some-inj (rw free at h)) free
      ]

  -- One try more than there are rows, besides the first, finds a name, as long as the candidates have
  -- different keys.
  free_tombstone-total :
      (fuel : ℕ) (candidate : Text) (suffix : ℕ)
      → ((i j : ℕ)
          → comparison_key unicode (numbered base (suffix + i))
            ≡ comparison_key unicode (numbered base (suffix + j))
          → i ≡ j)
      → length rows + 1 < fuel
      → (name : Text) × (free_tombstone unicode fuel id base candidate suffix rows ≡ some name)
  free_tombstone-total fuel candidate suffix differ enough =
      elim (Option-cases (free_tombstone unicode fuel id base candidate suffix rows)) [
        | inr found ↦ found
        | inl none_free ↦
            let key = λ (i : ℕ). comparison_key unicode (numbered base (suffix + i)) in
            let used = in_use-le key differ (length rows + 1) rows (λ i small.
              taken_counts id (key i) rows
                (all_taken fuel candidate suffix i none_free (omega (arith, enough, small)))) in
            absurd (
              omega (
                arith,
                used,
                count_rows-length key differ (within key differ (length rows + 1)) rows,
              ))
      ]

-- ASCII without capital letters.
unfoldable pub is_plain : ℕ → Bool
is_plain c = ltb c 128 && not (leb b'A' c && leb c b'Z')

all-take : (p : ℕ → Bool) (n : ℕ) (s : Text) → all p s ≡ true → all p (take n s) ≡ true
all-take p zero s h = refl
all-take p (suc n) [] h = refl
all-take p (suc n) (c ∷ s) h = ground (arith, h, all-take p n s)

all-append : (p : ℕ → Bool) (s t : Text) → all p s ≡ true → all p t ≡ true → all p (s ++ t) ≡ true
all-append p [] t h k = k
all-append p (c ∷ s) t h k = ground (arith, h, all-append p s t)

numbered-plain :
    (base : Text) (n : ℕ) → all is_plain base ≡ true → all is_plain (numbered base n) ≡ true
unfolding numbered is_plain
numbered-plain base n h =
    all-append is_plain (take (64 - length (b'-' ∷ decimal n)) base) (b'-' ∷ decimal n)
      (all-take is_plain _ base h) (decimal-all is_plain (λ d small. ground arith) n)

-- Where Unicode normalisation and lower case leave ASCII without capital letters as it is, and the
-- archived name of the id is such a text, the deletion of an account that passes the guards succeeds
-- on fuel for two tries more than there are accounts, under a name that no other account has.
pub soft_delete_account_total :
    (unicode : Unicode) (fuel : ℕ) (id : Text) (now : ℕ) (db : Db) (current : Account)
    → ((t : Text) → all is_plain t ≡ true → unicode.nfkc t ≡ t)
    → ((t : Text) → all is_plain t ≡ true → unicode.lower_case t ≡ t)
    → all is_plain (tombstone id) ≡ true
    → length db.accounts + 1 < fuel
    → assert_account_exists db id ≡ ok current
    → assert_can_remove_active_admin db current ≡ ok tt
    → (name : Text) × (username_taken id (comparison_key unicode name) db.accounts ≡ false)
      × (soft_delete_account unicode fuel id now db
          ≡ ok (record db {
            accounts =
                update_accounts id (set_deleted name (comparison_key unicode name) now) db.accounts;
          }))
unfolding soft_delete_account archive comparison_key
soft_delete_account_total unicode fuel id now db current nfkc lower plain enough exists removable =
    let base = tombstone id in
    let kept = λ (k : ℕ).
      let is = numbered-plain base k plain in
      ap unicode.lower_case (nfkc (numbered base k) is) ∙ lower (numbered base k) is in
    let differ : (i j : ℕ)
        → comparison_key unicode (numbered base (2 + i))
          ≡ comparison_key unicode (numbered base (2 + j))
        → i ≡ j =
      λ i j same.
        omega
          (arith, numbered-inj base (2 + i) (2 + j) (sym (kept (2 + i)) ∙ same ∙ kept (2 + j))) in
    let (name, found) =
      free_tombstone-total unicode id base db.accounts fuel base 2 differ enough in
    (
      name,
      found_free unicode id base db.accounts fuel base 2 {name = name} found,
      rw (exists, removable, found) refl,
    )
