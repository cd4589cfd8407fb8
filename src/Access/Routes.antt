-- ===== src/Access/Routes.antt =====
-- The routes of films and series, as src/routes/movies.js and src/routes/user-state.js declare them:
-- what the list has rows of, and the routes of one film or episode.
use labaiacinghiala.Common.{
  Bool, true, false, ◌||◌, Option, none, some, some-inj, [], ◌∷◌, ◌≡◌, refl, inl, inr,
  if◌then◌else◌, Option-cases, Text, codes, starts_with, is_empty, text_eq, text_eq_iff, to_lower,
  trim, Bool-cases, subst,
}
use labaiacinghiala.Store.{Section, films, series, music, books, comics, manga}
use labaiacinghiala.Ranges.{is_digit}
use labaiacinghiala.Access.{
  given, Request, has_section, requested_movie_list_sections, media_type_section,
}
use labaiacinghiala.Access.Paths.{stops}

-- parseMediaType of the route of the list.
unfoldable pub parse_media_type : Option Text → Text
parse_media_type value =
    let requested = to_lower (given (codes "all") value) in
    if text_eq requested (codes "movie") || text_eq requested (codes "series")
    then requested
    else codes "all"

-- The media type of the rows of a section.
unfoldable pub media_of : Section → Option Text
media_of films = some (codes "movie")
media_of series = some (codes "series")
media_of music = none
media_of books = none
media_of comics = none
media_of manga = none

-- Whether the list has rows of a section: ? = 'all' OR m.media_type = ?.
pub lists : Text → Section → Bool
lists wanted s = elim (media_of s) [
  | none ↦ false
  | some media ↦ text_eq wanted (codes "all") || text_eq wanted media
]

-- The routes of one film or episode, with those of its progress and its favourite mark.
pub data ItemRoute : Type 0 where
  details poster stream progress favorite : ItemRoute

unfoldable pub subpath : ItemRoute → Text
subpath details = []
subpath poster = codes "/poster"
subpath stream = codes "/stream"
subpath progress = codes "/progress"
subpath favorite = codes "/favorite"

pub subpath_lem :
    (route : ItemRoute)
    → (stops (subpath route) ≡ true)
      × ((is_empty (subpath route) || starts_with (subpath route) (codes "/")) ≡ true)
      × ((text_eq (subpath route) (codes "/similar") || text_eq (subpath route) (codes "/similar/"))
          ≡ false)
unfolding subpath stops is_digit starts_with text_eq
subpath_lem details = (refl, refl, refl)
subpath_lem poster = (refl, refl, refl)
subpath_lem stream = (refl, refl, refl)
subpath_lem progress = (refl, refl, refl)
subpath_lem favorite = (refl, refl, refl)

pub media_of-media_type_section :
    (s : Section) (media : Text)
    → media_of s ≡ some media
    → media_type_section (some media) ≡ some s
unfolding media_of media_type_section text_eq
media_of-media_type_section films media h =
    subst (λ m. media_type_section (some m) ≡ some films) (some-inj h) refl
media_of-media_type_section series media h =
    subst (λ m. media_type_section (some m) ≡ some series) (some-inj h) refl
media_of-media_type_section music media h = absurd (cc h)
media_of-media_type_section books media h = absurd (cc h)
media_of-media_type_section comics media h = absurd (cc h)
media_of-media_type_section manga media h = absurd (cc h)

all-has_section :
    (s : Section) (m : Text) → media_of s ≡ some m → has_section s (films ∷ series ∷ []) ≡ true
unfolding media_of has_section
all-has_section films m h = refl
all-has_section series m h = refl
all-has_section music m h = absurd (cc h)
all-has_section books m h = absurd (cc h)
all-has_section comics m h = absurd (cc h)
all-has_section manga m h = absurd (cc h)

movie-has_section :
    (s : Section) → lists (codes "movie") s ≡ true → has_section s (films ∷ []) ≡ true
unfolding lists media_of has_section text_eq
movie-has_section films h = refl
movie-has_section series h = absurd (cc h)
movie-has_section music h = absurd (cc h)
movie-has_section books h = absurd (cc h)
movie-has_section comics h = absurd (cc h)
movie-has_section manga h = absurd (cc h)

series-has_section :
    (s : Section) → lists (codes "series") s ≡ true → has_section s (series ∷ []) ≡ true
unfolding lists media_of has_section text_eq
series-has_section films h = absurd (cc h)
series-has_section series h = refl
series-has_section music h = absurd (cc h)
series-has_section books h = absurd (cc h)
series-has_section comics h = absurd (cc h)
series-has_section manga h = absurd (cc h)

any-has_section :
    (wanted : Text) (s : Section)
    → lists wanted s ≡ true
    → has_section s (films ∷ series ∷ []) ≡ true
unfolding lists
any-has_section wanted s h = elim (Option-cases (media_of s)) [
  | inl e ↦ let no : false ≡ true = rw (e, lists) at h in absurd (cc no)
  | inr (m, e) ↦ all-has_section s m e
]

-- The check asks for each section that the list has rows of.
pub lists-requested :
    (req : Request) (s : Section)
    → trim (given (codes "all") req.type_query) ≡ given (codes "all") req.type_query
    → lists (parse_media_type req.type_query) s ≡ true
    → has_section s (requested_movie_list_sections req) ≡ true
unfolding parse_media_type requested_movie_list_sections
lists-requested req s plain h =
    let kind = to_lower (given (codes "all") req.type_query) in
    rw plain (elim (Bool-cases (text_eq kind (codes "movie"))) [
      | inl m ↦
          let same = (text_eq_iff kind (codes "movie")).0 m in
          rw m (movie-has_section s (subst (λ k. lists k s ≡ true) same (rw m at h)))
      | inr m ↦ elim (Bool-cases (text_eq kind (codes "series"))) [
        | inl t ↦
            let same = (text_eq_iff kind (codes "series")).0 t in
            rw (m, t) (series-has_section s (subst (λ k. lists k s ≡ true) same (rw (m, t) at h)))
        | inr t ↦ rw (m, t) (any-has_section (codes "all") s (rw (m, t) at h))
      ]
    ])
