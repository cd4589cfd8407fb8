-- ===== src/Access.antt =====
-- src/middleware/account-access.js: which requests of an account the routes let through. The request is
-- what the middleware reads of it; the tables of films and of reading items are lists of rows.
pub mod Granted
pub mod Paths
pub mod Routes
pub mod Shown
mod Tests
use labaiacinghiala.Common.{
  ℕ, Bool, true, false, not, ◌&&◌, ◌||◌, Option, none, some, List, [], ◌∷◌, Text, codes, text_eq,
  is_empty, starts_with, split, trim, to_lower, any, find, ◌==◌, if◌then◌else◌, Result, ok, err,
  ◌>>=◌, ◌>>◌, require,
}
use labaiacinghiala.Store.{
  Section, films, series, books, comics, manga, Account, administrator, user,
}
use labaiacinghiala.Accounts.Rows.{is_admin}
use labaiacinghiala.Accounts.Sections.{section_eq, effective_sections}
use labaiacinghiala.Ranges.{leading_digits, after_digits, drop_text, value_of}

-- The codes of AccountAccessError.
pub data AccessError : Type 0 where
  account_required password_change_required admin_required local_admin_required : AccessError
  section_denied : Section → AccessError

-- The account with the sections stored for it, and what the paths are decided by.
pub record Request : Type 0 where
  pub account : Option (Account × List Section)
  pub local_access : Bool
  pub path : Text
  pub url : Text
  pub type_query : Option Text
  pub category_query : Option Text

-- A row of movies or of reading_items: the id, and the media type or the category.
pub record Item : Type 0 where
  pub id : ℕ
  pub kind : Option Text

unfoldable pub account_section_set : Request → Result AccessError (List Section)
account_section_set req = elim req.account [
  | none ↦ err account_required
  | some (account, stored) ↦ ok (effective_sections account.role stored)
]

unfoldable pub has_section : Section → List Section → Bool
has_section s sections = any (section_eq s) sections

unfoldable pub assert_section_access : Request → Section → Result AccessError (Unit {0})
assert_section_access req section = do
  sections ← account_section_set req
  require (has_section section sections) (section_denied section)

pub assert_all_sections_access : Request → List Section → Result AccessError (Unit {0})
assert_all_sections_access req [] = ok tt
assert_all_sections_access req (s ∷ rest) = do
  assert_section_access req s
  assert_all_sections_access req rest

unfoldable pub assert_password_change_completed : Request → Result AccessError (Unit {0})
assert_password_change_completed req = elim req.account [
  | none ↦ err account_required
  | some (account, stored) ↦ require (not account.must_change_password) password_change_required
]

unfoldable pub is_administrator : Request → Bool
is_administrator req = elim req.account [
  | none ↦ false
  | some (account, stored) ↦ is_admin account.role
]

unfoldable pub assert_admin_access : Request → Result AccessError (Unit {0})
assert_admin_access req = require (is_administrator req) admin_required

unfoldable pub assert_local_admin_browser_access : Request → Result AccessError (Unit {0})
assert_local_admin_browser_access req =
    require (req.local_access && is_administrator req) local_admin_required

-- The first part of a split that is cut off after one.
unfoldable pub first_part : List Text → Text
first_part [] = []
first_part (t ∷ ts) = t

unfoldable pub with_slash : Text → Text
with_slash t = if starts_with t (codes "/") then t else b'/' ∷ t

unfoldable pub given_path : Request → Text
given_path req =
    if not (is_empty req.path)
    then req.path
    else if not (is_empty req.url)
    then req.url
    else codes "/"

-- An empty value is `/` too.
unfoldable pub relative_path : Request → Text
relative_path req = with_slash (first_part (split b'?' (given_path req)))

pub given : Text → Option Text → Text
given default none = default
given default (some t) = if is_empty t then default else t

pub requested_movie_list_sections : Request → List Section
requested_movie_list_sections req =
    let kind = to_lower (trim (given (codes "all") req.type_query)) in
    if text_eq kind (codes "movie")
    then films ∷ []
    else if text_eq kind (codes "series")
    then series ∷ []
    else films ∷ series ∷ []

pub media_type_section : Option Text → Option Section
media_type_section none = none
media_type_section (some t) =
    if text_eq t (codes "movie")
    then some films
    else if text_eq t (codes "series")
    then some series
    else none

-- What follows the digits of ^\/\d+.
pub after_id : Text → Text
after_id path = after_digits (drop_text 1 path)

-- ^\/(\d+)(?:\/|$): the id, where it matches.
pub resource_id : Text → Option ℕ
resource_id path =
    if starts_with path (codes "/")
      && not (is_empty (leading_digits (drop_text 1 path)))
      && (is_empty (after_id path) || starts_with (after_id path) (codes "/"))
    then some (value_of 0 (leading_digits (drop_text 1 path)))
    else none

-- ^\/\d+\/similar\/?$, of a path that the former matches.
pub is_similar : Text → Bool
is_similar path =
    text_eq (after_id path) (codes "/similar") || text_eq (after_id path) (codes "/similar/")

-- The column of the row with that id.
pub kind_of : List Item → ℕ → Option Text
kind_of [] id = none
kind_of (item ∷ rest) id = if item.id == id then item.kind else kind_of rest id

pub assert_known : Request → Option Section → Result AccessError (Unit {0})
assert_known req none = ok tt
assert_known req (some s) = assert_section_access req s

pub movie_item : List Item → Request → Text → Option ℕ → Result AccessError (Unit {0})
movie_item items req path none = ok tt
movie_item items req path (some id) =
    if is_similar path
    then assert_section_access req films
    else assert_known req (media_type_section (kind_of items id))

unfoldable pub is_front : Text → Bool
is_front path = text_eq path (codes "/filters") || text_eq path (codes "/home")

-- createMovieAccess.
unfoldable pub movie_access : List Item → Request → Result AccessError (Unit {0})
movie_access items req =
    let path = relative_path req in
    if is_front path
    then assert_section_access req films
    else if text_eq path (codes "/")
    then assert_all_sections_access req (requested_movie_list_sections req)
    else movie_item items req path (resource_id path)

-- A category that READING_SECTION_KEYS includes.
pub reading_section : Option Text → Option Section
reading_section value =
    let category = to_lower (trim (given [] value)) in
    if text_eq category (codes "books")
    then some books
    else if text_eq category (codes "comics")
    then some comics
    else if text_eq category (codes "manga")
    then some manga
    else none

pub reading_item : List Item → Request → Option ℕ → Result AccessError (Unit {0})
reading_item items req none = ok tt
reading_item items req (some id) = assert_known req (reading_section (kind_of items id))

-- createReadingAccess.
pub reading_access : List Item → Request → Result AccessError (Unit {0})
reading_access items req =
    let path = relative_path req in
    if text_eq path (codes "/") || is_front path
    then assert_known req (reading_section req.category_query)
    else reading_item items req (resource_id path)
