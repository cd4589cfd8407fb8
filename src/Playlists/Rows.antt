-- ===== src/Playlists/Rows.antt =====
-- The rows of a playlist: each link of it once at most, and no other.
use labaiacinghiala.Common.{
  ℕ, suc, ◌+◌, ◌≤◌, false, Option, none, some, List, [], ◌∷◌, ◌≡◌, refl, inl, inr, arith, length,
  count, find, count_rows, count_rows-any, ◌==◌, if◌then◌else◌, Bool-cases, ap,
}
use labaiacinghiala.Playlists.{Link, Track}
use labaiacinghiala.Playlists.Edits.{
  Row, is_link, has_track_id, insert_row, joined, list_rows, row_tracks, without_link,
}
use labaiacinghiala.Playlists.Positions.{is_linked, Linked}

-- The primary key of music_playlist_tracks.
abbrev pub Keyed : ℕ → List Link → Type 0
Keyed playlist links = (t : ℕ) → count_rows (is_link playlist t) links ≤ 1

count-insert_row :
    (t : ℕ) (r : Row) (rows : List Row)
    → count t (row_tracks (insert_row r rows)) ≡ count t (row_tracks (r ∷ rows))
unfolding insert_row
count-insert_row t r [] = refl
count-insert_row t r (q ∷ rest) = ground (arith, count-insert_row t r rest)

pub length-insert_row : (r : Row) (rows : List Row) → length (insert_row r rows) ≡ suc (length rows)
unfolding insert_row
length-insert_row r [] = refl
length-insert_row r (q ∷ rest) = ground (arith, length-insert_row r rest)

pub length-row_tracks : (rows : List Row) → length (row_tracks rows) ≡ length rows
length-row_tracks [] = refl
length-row_tracks (r ∷ rest) = ap suc (length-row_tracks rest)

joined-le :
    (t : ℕ) (l : Link) (o : Option Track) (rows : List Row)
    → count t (row_tracks (joined l o rows))
      ≤ (if l.track == t then 1 else 0) + count t (row_tracks rows)
unfolding joined
joined-le t l none rows = omega arith
joined-le t l (some track) rows = omega (
  arith,
  count-insert_row t (record { track = l.track; uuid = track.uuid; position = l.position }) rows,
)

pub list_rows-le :
    (playlist t : ℕ) (tracks : List Track) (links : List Link)
    → count t (row_tracks (list_rows playlist tracks links)) ≤ count_rows (is_link playlist t) links
unfolding list_rows is_link
list_rows-le playlist t tracks [] = omega arith
list_rows-le playlist t tracks (l ∷ links) = ground (
  arith,
  list_rows-le playlist t tracks links,
  joined-le t l (find (has_track_id l.track) tracks) (list_rows playlist tracks links),
)

length-joined :
    (l : Link) (o : Option Track) (rows : List Row) → length (joined l o rows) ≤ suc (length rows)
unfolding joined
length-joined l none rows = omega arith
length-joined l (some track) rows = omega (
  arith,
  length-insert_row (record { track = l.track; uuid = track.uuid; position = l.position }) rows,
)

pub length-list_rows :
    (playlist : ℕ) (tracks : List Track) (links : List Link)
    → length (list_rows playlist tracks links) ≤ length links
unfolding list_rows
length-list_rows playlist tracks [] = omega arith
length-list_rows playlist tracks (l ∷ links) = ground (
  arith,
  length-list_rows playlist tracks links,
  length-joined l (find (has_track_id l.track) tracks) (list_rows playlist tracks links),
)

pub without-le :
    (playlist t u : ℕ) (links : List Link)
    → count_rows (is_link playlist u) (without_link playlist t links)
      ≤ count_rows (is_link playlist u) links
unfolding without_link
without-le playlist t u [] = omega arith
without-le playlist t u (l ∷ links) = ground (arith, without-le playlist t u links)

pub length-without_link :
    (playlist t : ℕ) (links : List Link) → length (without_link playlist t links) ≤ length links
unfolding without_link
length-without_link playlist t [] = omega arith
length-without_link playlist t (l ∷ links) = ground (arith, length-without_link playlist t links)

pub is_linked-without_link :
    (playlist t : ℕ) (links : List Link)
    → is_linked playlist t (without_link playlist t links) ≡ false
unfolding without_link
is_linked-without_link playlist t [] = refl
is_linked-without_link playlist t (l ∷ links) =
    ground (arith, is_linked-without_link playlist t links)

pub list_rows-Linked :
    (playlist : ℕ) (tracks : List Track) (links : List Link)
    → Linked playlist (row_tracks (list_rows playlist tracks links)) links
list_rows-Linked playlist tracks links t h = elim (Bool-cases (is_linked playlist t links)) [
  | inl linked ↦ linked
  | inr alone ↦ absurd (
      omega (
        arith,
        h,
        list_rows-le playlist t tracks links,
        count_rows-any (is_link playlist t) links alone,
      ))
]
