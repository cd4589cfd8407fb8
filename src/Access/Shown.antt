-- ===== src/Access/Shown.antt =====
-- What the routes of films and series show at a path, and that a request which passes the check
-- before them has been granted it: routes/movies.js and createMovieAccess of
-- src/middleware/account-access.js.
use labaiacinghiala.Common.{
  ℕ, true, false, none, some, List, [], ◌∷◌, ◌++◌, ◌≡◌, refl, inl, inr, all, Text, codes,
  starts_with, is_empty, text_eq, text_eq_iff, trim, Bool-cases, ok, >>=-eq-ok, ap, ◌∙◌,
}
use labaiacinghiala.Store.{Section, films}
use labaiacinghiala.Accounts.Sections.{section_eq}
use labaiacinghiala.Access.Granted.{section_eq_sound}
use labaiacinghiala.Ranges.{leading_digits, after_digits, drop_text, is_digit, value_of}
use labaiacinghiala.Access.{
  given, after_id, Request, Item, has_section, assert_section_access, assert_all_sections_access,
  requested_movie_list_sections, assert_known, movie_item, movie_access, relative_path, is_front,
  resource_id, kind_of, is_similar,
}
use labaiacinghiala.Access.Paths.{stops, spelled-resource_id, spelled-is_similar}
use labaiacinghiala.Access.Routes.{
  parse_media_type, media_of, lists, ItemRoute, subpath, subpath_lem, media_of-media_type_section,
  lists-requested,
}

-- The sections of which the routes show something at a path. The path is spelled as the routes are
-- declared, and an id as digits.
pub data Shows (items : List Item) (req : Request) : Section → Type 0 where
  filters : relative_path req ≡ codes "/filters" → Shows items req films
  home : relative_path req ≡ codes "/home" → Shows items req films
  listed :
      (s : Section)
      → relative_path req ≡ codes "/"
      → lists (parse_media_type req.type_query) s ≡ true
      → Shows items req s
  similar :
      (digits : Text)
      → is_empty digits ≡ false
      → all is_digit digits ≡ true
      → relative_path req ≡ b'/' ∷ digits ++ codes "/similar"
      → Shows items req films
  item :
      (digits : Text) (route : ItemRoute) (s : Section) (media : Text)
      → is_empty digits ≡ false
      → all is_digit digits ≡ true
      → relative_path req ≡ b'/' ∷ digits ++ subpath route
      → media_of s ≡ some media
      → kind_of items (value_of 0 digits) ≡ some media
      → Shows items req s

all_given :
    (req : Request) (s : Section) (sections : List Section)
    → assert_all_sections_access req sections ≡ ok tt
    → has_section s sections ≡ true
    → assert_section_access req s ≡ ok tt
unfolding assert_all_sections_access has_section
all_given req s [] h has = cc
all_given req s (t ∷ rest) h has =
    let (_, first, others) = >>=-eq-ok (assert_section_access req t) _ h in
    elim (Bool-cases (section_eq s t)) [
      | inl same ↦ ap (assert_section_access req) (section_eq_sound s t same) ∙ first
      | inr other ↦ all_given req s rest others (rw other at has)
    ]

not_text :
    (path t : Text) {id : ℕ}
    → resource_id path ≡ some id
    → resource_id t ≡ none
    → text_eq path t ≡ false
not_text path t {id} h no_id = elim (Bool-cases (text_eq path t)) [
  | inl same ↦ absurd (cc (h, no_id, ap resource_id ((text_eq_iff path t).0 same)))
  | inr other ↦ other
]

no_filters : resource_id (codes "/filters") ≡ none
unfolding resource_id leading_digits after_digits drop_text is_digit after_id starts_with
no_filters = refl

no_home : resource_id (codes "/home") ≡ none
unfolding resource_id leading_digits after_digits drop_text is_digit after_id starts_with
no_home = refl

no_root : resource_id (codes "/") ≡ none
unfolding resource_id leading_digits after_digits drop_text is_digit after_id starts_with
no_root = refl

-- A path with an id is neither the list nor the start page.
resource_elsewhere :
    (path : Text) {id : ℕ}
    → resource_id path ≡ some id
    → (is_front path ≡ false) × (text_eq path (codes "/") ≡ false)
unfolding is_front
resource_elsewhere path {id} h =
    let apart = λ (t : Text) (no_id : resource_id t ≡ none). not_text path t {id = id} h no_id in
    (
      rw (apart (codes "/filters") no_filters, apart (codes "/home") no_home) refl,
      apart (codes "/") no_root,
    )

movie_item-given :
    (items : List Item) (req : Request) {id : ℕ}
    → resource_id (relative_path req) ≡ some id
    → movie_access items req ≡ ok tt
    → movie_item items req (relative_path req) (some id) ≡ ok tt
unfolding movie_access
movie_item-given items req h passes =
    let (not_front, not_root) = resource_elsewhere (relative_path req) h in
    rw (not_front, not_root, h) at passes

-- A request that passes the check of films and series has an account to which every section is
-- granted of which the routes show something at its path. The query's type has no space around it,
-- since the list reads such a type as none while the check does not.
pub movie_access-Shows :
    (items : List Item) (req : Request) (s : Section)
    → trim (given (codes "all") req.type_query) ≡ given (codes "all") req.type_query
    → movie_access items req ≡ ok tt
    → Shows items req s
    → assert_section_access req s ≡ ok tt
unfolding movie_access movie_item assert_known is_front text_eq stops is_digit starts_with
movie_access-Shows items req _ plain passes (filters path) = rw path at passes
movie_access-Shows items req _ plain passes (home path) = rw path at passes
movie_access-Shows items req _ plain passes (listed s path shown) =
    all_given req s (requested_movie_list_sections req) (rw path at passes)
      (lists-requested req s plain shown)
movie_access-Shows items req _ plain passes (similar digits filled decimal path) =
    let rest = codes "/similar" in
    let id = ap resource_id path ∙ spelled-resource_id digits rest filled decimal refl refl in
    let is = ap is_similar path ∙ spelled-is_similar digits rest filled decimal refl in
    rw is at (movie_item-given items req id passes)
movie_access-Shows items req _ plain passes
      (item digits route s media filled decimal path named kind) =
    let (stop, ends, other) = subpath_lem route in
    let id =
      ap resource_id path ∙ spelled-resource_id digits (subpath route) filled decimal stop ends in
    let is =
      ap is_similar path ∙ spelled-is_similar digits (subpath route) filled decimal stop ∙ other in
    rw (is, kind, media_of-media_type_section s media named) at
      (movie_item-given items req id passes)
