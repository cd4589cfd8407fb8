-- ===== src/Accounts/Sections.antt =====
-- src/services/account-section-service.js: the sections of an account.
use labaiacinghiala.Common.{
  ℕ, Bool, true, false, not, ◌&&◌, List, [], ◌∷◌, ◌++◌, map, Text, codes, text_eq, trim, to_lower,
  any, keep, leb, ◌==◌, if◌then◌else◌, Result, ok, err, ◌>>=◌,
}
use labaiacinghiala.Store.{
  Section, films, series, music, books, comics, manga, Grant, Role, user, administrator,
}

pub data AccountError : Type 0 where
  username_invalid username_exists role_invalid password_hash_required : AccountError
  account_key_invalid account_key_exists account_not_found account_disabled_invalid : AccountError
  last_admin_required section_invalid database_error : AccountError

abbrev pub section_keys : List Section
section_keys = films ∷ series ∷ music ∷ books ∷ comics ∷ manga ∷ []

-- SECTION_KEYS.indexOf.
abbrev pub section_index : Section → ℕ
section_index films = 0
section_index series = 1
section_index music = 2
section_index books = 3
section_index comics = 4
section_index manga = 5

abbrev pub section_eq : Section → Section → Bool
section_eq s t = section_index s == section_index t

unfoldable pub section_list_eq : List Section → List Section → Bool
section_list_eq [] [] = true
section_list_eq [] (t ∷ ts) = false
section_list_eq (s ∷ ss) [] = false
section_list_eq (s ∷ ss) (t ∷ ts) = section_eq s t && section_list_eq ss ts

pub normalize_section_key : Text → Result AccountError Section
unfolding text_eq trim to_lower
normalize_section_key value =
    let key = to_lower (trim value) in
    if text_eq key (codes "films")
    then ok films
    else if text_eq key (codes "series")
    then ok series
    else if text_eq key (codes "music")
    then ok music
    else if text_eq key (codes "books")
    then ok books
    else if text_eq key (codes "comics")
    then ok comics
    else if text_eq key (codes "manga")
    then ok manga
    else err section_invalid

pub normalize_each : List Text → Result AccountError (List Section)
unfolding normalize_section_key
normalize_each [] = ok []
normalize_each (v ∷ rest) = do s ← normalize_section_key v; ss ← normalize_each rest; ok (s ∷ ss)

-- new Set(…), in the order of first occurrence.
unfoldable pub dedupe : List Section → List Section
dedupe [] = []
dedupe (s ∷ ss) = s ∷ keep (λ t. not (section_eq s t)) (dedupe ss)

unfoldable pub insert_section : Section → List Section → List Section
insert_section s [] = s ∷ []
insert_section s (t ∷ ts) =
    if leb (section_index s) (section_index t) then s ∷ t ∷ ts else t ∷ insert_section s ts

unfoldable pub sort_sections : List Section → List Section
unfolding insert_section
sort_sections [] = []
sort_sections (s ∷ ss) = insert_section s (sort_sections ss)

unfoldable pub normalize_section_keys : List Text → Result AccountError (List Section)
unfolding normalize_each dedupe sort_sections
normalize_section_keys values = do
  sections ← normalize_each values
  ok (sort_sections (dedupe sections))

-- getAccountSections: the rows of the account, by the rank of the section; the primary key of the
-- table keeps a row from standing twice.
unfoldable pub account_sections : List Grant → Text → List Section
unfolding text_eq
account_sections grants id =
    keep (λ s. any (λ (g : Grant). text_eq g.account_id id && section_eq g.section s) grants)
      section_keys

unfoldable pub replace_grants : Text → List Section → List Grant → List Grant
unfolding text_eq
replace_grants id sections grants =
    keep (λ (g : Grant). not (text_eq g.account_id id)) grants
    ++ map (λ s. record { account_id = id; section = s }) sections

-- effectiveAccountSections.
unfoldable pub effective_sections : Role → List Section → List Section
unfolding dedupe sort_sections
effective_sections administrator stored = section_keys
effective_sections user stored = sort_sections (dedupe stored)
