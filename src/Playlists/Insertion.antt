-- ===== src/Playlists/Insertion.antt =====
-- addMusicPlaylistTracks puts new tracks at the end, where no position is taken.
use labaiacinghiala.Common.{
  ℕ, suc, ◌-◌, ◌≤◌, ◌<◌, Bool, true, false, Option, none, some, List, [], ◌∷◌, ◌++◌, ◌≡◌, refl, inl,
  inr, arith, length, any, all, find, count_rows, ltb, ◌==◌, Bool-cases, ap, ◌∙◌, max,
  count_rows-append, ==_iff, ltb_iff,
}
use labaiacinghiala.Playlists.{Link, Track}
use labaiacinghiala.Playlists.Edits.{
  is_link, has_track_id, list_rows, insert_row, joined, Row, next_position, insert_tracks,
  is_ignored,
}
use labaiacinghiala.Playlists.Rows.{length-insert_row}
use labaiacinghiala.Playlists.Dense.{is_of}
use labaiacinghiala.Playlists.Offset.{stands}
use labaiacinghiala.Playlists.Ordered.{is_track_of, Ordered, Known}

find-any :
    (t : ℕ) (tracks : List Track)
    → is_track_of tracks t ≡ true
    → (a : Track) × (find (has_track_id t) tracks ≡ some a)
find-any t [] h = cc
find-any t (a ∷ tracks) h = elim (Bool-cases (has_track_id t a)) [
  | inl is ↦ (a, rw is refl)
  | inr other ↦ let (b, found) = find-any t tracks (rw other at h) in (b, rw other found)
]

next_position-insert_row :
    (r : Row) (rows : List Row)
    → next_position (insert_row r rows) ≡ max (suc r.position) (next_position rows)
unfolding next_position insert_row
next_position-insert_row r [] = refl
next_position-insert_row r (q ∷ rest) = ground (arith, next_position-insert_row r rest)

joined-found :
    (l : Link) (o : Option Track) (rows : List Row) {t : Track}
    → o ≡ some t
    → (length (joined l o rows) ≡ suc (length rows))
      × (next_position (joined l o rows) ≡ max (suc l.position) (next_position rows))
unfolding joined
joined-found l none rows h = cc
joined-found l (some t) rows h = (length-insert_row _ rows, next_position-insert_row _ rows)

joined-le :
    (l : Link) (o : Option Track) (rows : List Row)
    → next_position (joined l o rows) ≤ max (suc l.position) (next_position rows)
unfolding joined
joined-le l none rows = omega arith
joined-le l (some t) rows = omega (
  arith,
  next_position-insert_row (record { track = l.track; uuid = t.uuid; position = l.position }) rows,
)

pub length-list_rows-Known :
    (p : ℕ) (tracks : List Track) (links : List Link)
    → Known tracks links
    → length (list_rows p tracks links) ≡ count_rows (is_of p) links
unfolding list_rows
length-list_rows-Known p tracks [] known = refl
length-list_rows-Known p tracks (l ∷ links) known =
    let (t, found) = find-any l.track tracks (ground (arith, known)) in
    let (longer, next) = joined-found l _ (list_rows p tracks links) {t = t} found in
    ground (arith, longer, length-list_rows-Known p tracks links)

next_position-le :
    (p n : ℕ) (tracks : List Track) (links : List Link)
    → ((k : ℕ) → n ≤ k → count_rows (stands p k) links ≡ 0)
    → next_position (list_rows p tracks links) ≤ n
unfolding list_rows next_position
next_position-le p n tracks [] free = omega arith
next_position-le p n tracks (l ∷ links) free = ground (
  arith,
  free l.position,
  next_position-le p n tracks links (λ k h. omega (arith, free k h)),
  joined-le l (find (has_track_id l.track) tracks) (list_rows p tracks links),
)

le-next_position :
    (p k : ℕ) (tracks : List Track) (links : List Link)
    → Known tracks links
    → 0 < count_rows (stands p k) links
    → suc k ≤ next_position (list_rows p tracks links)
unfolding list_rows
le-next_position p k tracks [] known h = absurd (omega (arith, h))
le-next_position p k tracks (l ∷ links) known h =
    let (t, found) = find-any l.track tracks (ground (arith, known)) in
    let (longer, next) = joined-found l _ (list_rows p tracks links) {t = t} found in
    ground (arith, next, h, le-next_position p k tracks links)

pub next_position-Ordered :
    (p : ℕ) (tracks : List Track) (links : List Link)
    → Ordered tracks links
    → next_position (list_rows p tracks links) ≡ count_rows (is_of p) links
next_position-Ordered p tracks links o =
    let n = count_rows (is_of p) links in
    let upper = next_position-le p n tracks links (λ k h. o.dense p k ∙ ground (arith, h)) in
    elim (Bool-cases (ltb 0 n)) [
      | inl some_of ↦ omega (
        arith,
        upper,
        le-next_position p (n - 1) tracks links o.known
            (ground (arith, o.dense p (n - 1), some_of)),
        (ltb_iff 0 n).0 some_of,
      )
      | inr none_of ↦ ground (arith, upper, none_of)
    ]

not_there :
    (p t k : ℕ) (links : List Link)
    → any (is_ignored p t k) links ≡ false
    → count_rows (is_link p t) links ≡ 0
unfolding is_ignored is_link
not_there p t k [] h = refl
not_there p t k (l ∷ links) h = ground (arith, not_there p t k links)

abbrev new_link : ℕ → ℕ → ℕ → Link
new_link p t k = record { playlist = p; track = t; position = k }

all-append :
    (f : Link → Bool) (links : List Link) (l : Link)
    → all f links ≡ true
    → f l ≡ true
    → all f (links ++ l ∷ []) ≡ true
all-append f [] l h is = ground (arith, is)
all-append f (m ∷ links) l h is = ground (arith, all-append f links l, is)

append-Ordered :
    (p t k : ℕ) (tracks : List Track) (links : List Link)
    → is_track_of tracks t ≡ true
    → any (is_ignored p t k) links ≡ false
    → k ≡ count_rows (is_of p) links
    → Ordered tracks links
    → Ordered tracks (links ++ new_link p t k ∷ [])
unfolding is_link
append-Ordered p t k tracks links is new end o = record {
  keyed = λ q u.
      let old = count_rows-append (is_link q u) links (new_link p t k ∷ []) in
      elim (Bool-cases (is_link q u (new_link p t k))) [
        | inl this ↦
            let none_of : count_rows (is_link q u) links ≡ 0 = cc (
              not_there p t k links new,
              (==_iff p q).0 (ground (arith, this)),
              (==_iff t u).0 (ground (arith, this)),
            ) in
            ground (arith, old, none_of)
        | inr other ↦ ground (arith, old, other, o.keyed q u)
      ];
  known = all-append (λ l. is_track_of tracks l.track) links (new_link p t k) o.known is;
  dense = λ q j. elim (Bool-cases (p == q)) [
    | inl same ↦
        let size : k ≡ count_rows (is_of q) links =
          end ∙ ap (λ v. count_rows (is_of v) links) ((==_iff p q).0 same) in
        ground (
          arith,
          same,
          size,
          o.dense q j,
          count_rows-append (stands q j) links (new_link p t k ∷ []),
          count_rows-append (is_of q) links (new_link p t k ∷ []),
        )
    | inr apart ↦ ground (
      arith,
      apart,
      o.dense q j,
      count_rows-append (stands q j) links (new_link p t k ∷ []),
      count_rows-append (is_of q) links (new_link p t k ∷ []),
    )
  ];
}

pub insert_tracks-Ordered :
    (p k : ℕ) (ids : List ℕ) (tracks : List Track) (links : List Link)
    → all (is_track_of tracks) ids ≡ true
    → k ≡ count_rows (is_of p) links
    → Ordered tracks links
    → Ordered tracks (insert_tracks p k ids links)
unfolding insert_tracks
insert_tracks-Ordered p k [] tracks links are end o = o
insert_tracks-Ordered p k (t ∷ rest) tracks links are end o =
    elim (Bool-cases (any (is_ignored p t k) links)) [
      | inl ignored ↦
          rw ignored (insert_tracks-Ordered p k rest tracks links (ground (arith, are)) end o)
      | inr new ↦ rw new (
          insert_tracks-Ordered p (suc k) rest tracks (links ++ new_link p t k ∷ [])
            (ground (arith, are))
            (ground (arith, end, count_rows-append (is_of p) links (new_link p t k ∷ [])))
            (append-Ordered p t k tracks links (ground (arith, are)) new end o))
    ]
