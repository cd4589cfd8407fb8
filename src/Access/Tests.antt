-- ===== src/Access/Tests.antt =====
-- The theorems on access at requests of an administrator and of a user with films only.
use labaiacinghiala.Common.{
  false, none, some, List, [], ◌∷◌, Text, codes, text_eq, starts_with, split, ◌≡◌, refl, ok, err,
  require, drop_space, is_space, lower, to_lower, trim,
}
use labaiacinghiala.Store.{Section, films, series, Role, user}
use labaiacinghiala.Accounts.Sections.{
  effective_sections, account_sections, replace_grants, sort_sections, insert_section, dedupe,
}
use labaiacinghiala.Ranges.{leading_digits, after_digits, drop_text, is_digit, value_of}
use labaiacinghiala.Access.{
  assert_all_sections_access, given, manga, Request, Item, section_denied, account_section_set,
  has_section, assert_section_access, movie_access, movie_item, assert_known, relative_path,
  given_path, first_part, with_slash, is_front, resource_id, after_id, is_similar, kind_of,
  media_type_section, reading_section, requested_movie_list_sections,
}
use labaiacinghiala.Access.Granted.{assert_section_access-replace_grants}
use labaiacinghiala.Access.Routes.{parse_media_type, stream, subpath, media_of}
use labaiacinghiala.Access.Shown.{Shows, item, movie_access-Shows}
use labaiacinghiala.Samples.{account}

abbrev request : Role → List Section → Text → Request
request role sections path = record {
  account = some (account (codes "id") role, sections);
  local_access = false;
  path = path;
  url = path;
  type_query = none;
  category_query = none;
}

abbrev table : List Item
table =
    record { id = 7; kind = some (codes "movie") }
    ∷ record { id = 12; kind = some (codes "series") }
    ∷ []

abbrev granted_films : Request
granted_films =
    request user (account_sections (replace_grants (codes "id") (films ∷ []) []) (codes "id"))
      (codes "/7")

assert_section_access-replace_grants_example :
    assert_section_access granted_films series
    ≡ require (has_section series (films ∷ [])) (section_denied series)
assert_section_access-replace_grants_example =
    assert_section_access-replace_grants granted_films (account (codes "id") user) (films ∷ []) []
      series refl refl

film : movie_access table (request user (films ∷ []) (codes "/7/stream?start=1")) ≡ ok tt
unfolding movie_access movie_item assert_known relative_path given_path first_part with_slash split
    starts_with is_front resource_id after_id is_similar kind_of media_type_section leading_digits
    after_digits drop_text is_digit value_of assert_section_access account_section_set
    effective_sections sort_sections insert_section dedupe has_section text_eq
film = refl

refused : movie_access table (request user (films ∷ []) (codes "/12")) ≡ err (section_denied series)
unfolding movie_access movie_item assert_known relative_path given_path first_part with_slash split
    starts_with is_front resource_id after_id is_similar kind_of media_type_section leading_digits
    after_digits drop_text is_digit value_of assert_section_access account_section_set
    effective_sections sort_sections insert_section dedupe has_section text_eq
refused = refl

film_shown : Shows table (request user (films ∷ []) (codes "/7/stream?start=1")) films
unfolding subpath media_of relative_path given_path first_part with_slash split starts_with
    resource_id after_id is_similar kind_of media_type_section leading_digits after_digits drop_text
    is_digit value_of text_eq
film_shown = item (codes "7") stream films (codes "movie") refl refl refl refl refl

movie_access-Shows_example :
    assert_section_access (request user (films ∷ []) (codes "/7/stream?start=1")) films ≡ ok tt
unfolding given trim
movie_access-Shows_example =
    movie_access-Shows table (request user (films ∷ []) (codes "/7/stream?start=1")) films refl film
      film_shown

-- Paths that the routes take for the start page and for the film 7 but that the check does not
-- know: they pass without a section.
home_with_slash : movie_access table (request user [] (codes "/home/")) ≡ ok tt
unfolding movie_access is_front text_eq relative_path with_slash starts_with first_part split
    given_path movie_item resource_id leading_digits drop_text
home_with_slash = refl

film_with_fraction : movie_access table (request user [] (codes "/7.0/stream")) ≡ ok tt
unfolding movie_access is_front text_eq relative_path with_slash starts_with first_part split
    given_path movie_item resource_id leading_digits drop_text after_id after_digits
film_with_fraction = refl

abbrev spaced_type : Request
spaced_type = record (request user (films ∷ []) (codes "/")) { type_query = some (codes " movie") }

-- The check asks for films only, and the list shows films and series.
asked_films : movie_access table spaced_type ≡ ok tt
unfolding movie_access is_front text_eq relative_path with_slash starts_with first_part split
    given_path assert_all_sections_access requested_movie_list_sections to_lower trim given
    assert_section_access account_section_set has_section effective_sections after_id assert_known
    is_similar kind_of media_type_section movie_item resource_id dedupe insert_section sort_sections
    drop_space is_space lower after_digits drop_text is_digit leading_digits value_of
asked_films = refl

listed_all : parse_media_type spaced_type.type_query ≡ codes "all"
unfolding parse_media_type text_eq to_lower given
listed_all = refl

asks_series :
    requested_movie_list_sections
      (record (request user [] (codes "/")) { type_query = some (codes " Series") })
    ≡ series ∷ []
unfolding requested_movie_list_sections to_lower lower trim drop_space is_space text_eq given
asks_series = refl

asks_manga : reading_section (some (codes "MANGA")) ≡ some manga
unfolding reading_section to_lower lower trim drop_space is_space text_eq given
asks_manga = refl
