-- ===== src/Access/Granted.antt =====
-- Whose requests pass: the sections granted to an account decide, and an administrator has them all.
use labaiacinghiala.Common.{
  ==_iff, ℕ, Bool, true, false, not, ◌&&◌, ◌||◌, Option, none, some, List, [], ◌∷◌, ◌++◌, map, ◌≡◌,
  refl, inl, inr, arith, Text, codes, text_eq, text_eq_refl, any, keep, ◌==◌, if◌then◌else◌,
  Bool-cases, Result, ok, require, ap, sym, ◌∙◌,
}
use labaiacinghiala.Store.{
  Section, films, series, music, books, comics, manga, Grant, Account, administrator, user,
}
use labaiacinghiala.Accounts.Sections.{
  section_eq, section_index, section_keys, effective_sections, dedupe, sort_sections,
  insert_section, account_sections, replace_grants,
}
use labaiacinghiala.Access.{
  section_denied, Request, Item, account_section_set, has_section, assert_section_access,
  assert_all_sections_access, requested_movie_list_sections, assert_known, movie_item, movie_access,
  reading_item, reading_access, relative_path, is_front, resource_id, kind_of, media_type_section,
  reading_section, is_similar,
}

has_section-insert_section :
    (s t : Section) (sections : List Section)
    → has_section s (insert_section t sections) ≡ (section_eq s t || has_section s sections)
unfolding has_section insert_section
has_section-insert_section s t [] = refl
has_section-insert_section s t (u ∷ rest) = ground (arith, has_section-insert_section s t rest)

has_section-sort_sections :
    (s : Section) (sections : List Section)
    → has_section s (sort_sections sections) ≡ has_section s sections
unfolding sort_sections has_section
has_section-sort_sections s [] = refl
has_section-sort_sections s (t ∷ rest) =
    has_section-insert_section s t (sort_sections rest)
    ∙ ap (λ b. section_eq s t || b) (has_section-sort_sections s rest)

has_section-keep :
    (s t : Section) (sections : List Section)
    → section_eq s t ≡ false
    → has_section s (keep (λ u. not (section_eq t u)) sections) ≡ has_section s sections
unfolding has_section
has_section-keep s t [] other = refl
has_section-keep s t (u ∷ rest) other = ground (arith, has_section-keep s t rest other)

has_section-dedupe :
    (s : Section) (sections : List Section)
    → has_section s (dedupe sections) ≡ has_section s sections
unfolding dedupe has_section
has_section-dedupe s [] = refl
has_section-dedupe s (t ∷ rest) = elim (Bool-cases (section_eq s t)) [
  | inl same ↦ rw same refl
  | inr other ↦ rw other (has_section-keep s t (dedupe rest) other ∙ has_section-dedupe s rest)
]

-- Order and repetition of the stored sections do not matter.
pub has_section-effective_sections :
    (s : Section) (stored : List Section)
    → has_section s (effective_sections user stored) ≡ has_section s stored
unfolding effective_sections
has_section-effective_sections s stored =
    has_section-sort_sections s (dedupe stored) ∙ has_section-dedupe s stored

has_section-section_keys : (s : Section) → has_section s section_keys ≡ true
unfolding has_section
has_section-section_keys films = refl
has_section-section_keys series = refl
has_section-section_keys music = refl
has_section-section_keys books = refl
has_section-section_keys comics = refl
has_section-section_keys manga = refl

-- What one section's check answers, for a request whose account is known.
section_answer :
    (req : Request) (account : Account) (stored : List Section) (s : Section)
    → req.account ≡ some (account, stored)
    → assert_section_access req s
      ≡ require (has_section s (effective_sections account.role stored)) (section_denied s)
unfolding assert_section_access account_section_set
section_answer req account stored s known = rw known refl

-- Sections all of which pass.
all_pass :
    (req : Request) (sections : List Section)
    → ((s : Section) → assert_section_access req s ≡ ok tt)
    → assert_all_sections_access req sections ≡ ok tt
unfolding assert_all_sections_access
all_pass req [] pass = refl
all_pass req (s ∷ rest) pass = rw (pass s) (all_pass req rest pass)

known_pass :
    (req : Request) (o : Option Section)
    → ((s : Section) → assert_section_access req s ≡ ok tt)
    → assert_known req o ≡ ok tt
unfolding assert_known
known_pass req none pass = refl
known_pass req (some s) pass = pass s

movie_pass :
    (items : List Item) (req : Request) (path : Text) (o : Option ℕ)
    → ((s : Section) → assert_section_access req s ≡ ok tt)
    → movie_item items req path o ≡ ok tt
unfolding movie_item
movie_pass items req path none pass = refl
movie_pass items req path (some id) pass = elim (Bool-cases (is_similar path)) [
  | inl similar ↦ rw similar (pass films)
  | inr other ↦ rw other (known_pass req (media_type_section (kind_of items id)) pass)
]

reading_pass :
    (items : List Item) (req : Request) (o : Option ℕ)
    → ((s : Section) → assert_section_access req s ≡ ok tt)
    → reading_item items req o ≡ ok tt
unfolding reading_item
reading_pass items req none pass = refl
reading_pass items req (some id) pass = known_pass req (reading_section (kind_of items id)) pass

if_passes :
    {E : Type 0} (b : Bool) (m n : Result E (Unit {0}))
    → m ≡ ok tt
    → n ≡ ok tt
    → (if b then m else n) ≡ ok tt
if_passes true m n h k = h
if_passes false m n h k = k

-- An administrator passes every path of films, series and reading, whatever sections are stored.
pub administrator_passes :
    (films_table reading_table : List Item) (req : Request) (account : Account)
    (stored : List Section)
    → req.account ≡ some (account, stored)
    → account.role ≡ administrator
    → (movie_access films_table req ≡ ok tt) × (reading_access reading_table req ≡ ok tt)
unfolding movie_access reading_access effective_sections
administrator_passes films_table reading_table req account stored known admin =
    let pass : (s : Section) → assert_section_access req s ≡ ok tt = λ s.
      section_answer req account stored s known
      ∙ rw admin (ap (λ b. require b (section_denied s)) (has_section-section_keys s)) in
    let path = relative_path req in
    (
      if_passes (is_front path) _ _ (pass films) (
          if_passes (text_eq path (codes "/")) _ _
            (all_pass req (requested_movie_list_sections req) pass)
            (movie_pass films_table req path (resource_id path) pass)),
      if_passes (text_eq path (codes "/") || is_front path) _ _
          (known_pass req (reading_section req.category_query) pass)
          (reading_pass reading_table req (resource_id path) pass),
    )

grant_of : Text → Section → Grant → Bool
grant_of id s g = text_eq g.account_id id && section_eq g.section s

any-append :
    (p : Grant → Bool) (front back : List Grant)
    → any p (front ++ back) ≡ (any p front || any p back)
any-append p [] back = refl
any-append p (g ∷ rest) back = ground (arith, any-append p rest back)

kept_grants :
    (id : Text) (s : Section) (grants : List Grant)
    → any (grant_of id s) (keep (λ (g : Grant). not (text_eq g.account_id id)) grants) ≡ false
unfolding grant_of
kept_grants id s [] = refl
kept_grants id s (g ∷ rest) = ground (arith, kept_grants id s rest)

section_eq_sym : (s t : Section) → section_eq s t ≡ section_eq t s
section_eq_sym s t = ground arith

new_grants :
    (id : Text) (s : Section) (sections : List Section)
    → any (grant_of id s) (map (λ t. record { account_id = id; section = t }) sections)
      ≡ has_section s sections
unfolding grant_of has_section
new_grants id s [] = refl
new_grants id s (t ∷ rest) =
    rw (text_eq_refl id, section_eq_sym t s) (ap (λ b. section_eq s t || b) (new_grants id s rest))

granted :
    (id : Text) (s : Section) (sections : List Section) (grants : List Grant)
    → any (grant_of id s) (replace_grants id sections grants) ≡ has_section s sections
unfolding replace_grants
granted id s sections grants =
    any-append (grant_of id s) (keep (λ (g : Grant). not (text_eq g.account_id id)) grants) _
    ∙ rw (kept_grants id s grants) (new_grants id s sections)

section_at : ℕ → Section
section_at i =
    if i == 0
    then films
    else if i == 1
    then series
    else if i == 2
    then music
    else if i == 3
    then books
    else if i == 4
    then comics
    else manga

section_at-section_index : (s : Section) → section_at (section_index s) ≡ s
unfolding section_at
section_at-section_index films = refl
section_at-section_index series = refl
section_at-section_index music = refl
section_at-section_index books = refl
section_at-section_index comics = refl
section_at-section_index manga = refl

pub section_eq_sound : (s t : Section) → section_eq s t ≡ true → s ≡ t
section_eq_sound s t h =
    sym (section_at-section_index s)
    ∙ ap section_at ((==_iff (section_index s) (section_index t)).0 h)
    ∙ section_at-section_index t

has_section-keep_test :
    (p : Section → Bool) (s : Section) (sections : List Section)
    → has_section s (keep p sections) ≡ (p s && has_section s sections)
unfolding has_section
has_section-keep_test p s [] = ground arith
has_section-keep_test p s (t ∷ rest) = elim (Bool-cases (section_eq s t)) [
  | inl same ↦
      ground (arith, same, ap p (section_eq_sound s t same), has_section-keep_test p s rest)
  | inr other ↦ ground (arith, other, has_section-keep_test p s rest)
]

has_section-account_sections :
    (id : Text) (s : Section) (grants : List Grant)
    → has_section s (account_sections grants id) ≡ any (grant_of id s) grants
unfolding account_sections grant_of
has_section-account_sections id s grants =
    has_section-keep_test
      (λ t. any (λ (g : Grant). text_eq g.account_id id && section_eq g.section t) grants) s
      section_keys
    ∙ rw (has_section-section_keys s) (ground arith)

-- After the sections of a user were replaced, the user passes the check of a section exactly when
-- it is among the new ones.
pub assert_section_access-replace_grants :
    (req : Request) (account : Account) (sections : List Section) (grants : List Grant)
    (s : Section)
    → account.role ≡ user
    → req.account
      ≡ some (account, account_sections (replace_grants account.id sections grants) account.id)
    → assert_section_access req s ≡ require (has_section s sections) (section_denied s)
assert_section_access-replace_grants req account sections grants s role known =
    section_answer req account _ s known
    ∙ rw role (
        ap (λ b. require b (section_denied s))
          (has_section-effective_sections s _
            ∙ has_section-account_sections account.id s (replace_grants account.id sections grants)
            ∙ granted account.id s sections grants))
