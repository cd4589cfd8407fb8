-- ===== src/Favorites/Marks.antt =====
-- Which tracks are favourites after an album was marked or cleared.
use labaiacinghiala.Common.{
  ℕ, Bool, true, false, not, ◌&&◌, ◌||◌, some, some-inj, List, [], ◌∷◌, ◌++◌, ◌≡◌, refl, inl, inr,
  arith, Text, text_eq, text_eq_iff, text_eq_refl, any, find, count_rows, ◌==◌, ==_iff,
  if◌then◌else◌, Bool-cases, Option-cases, trim, ap, ◌∙◌, subst,
}
use labaiacinghiala.PlayHistory.Reports.{normalize_profile_key}
use labaiacinghiala.Favorites.{
  AlbumTrack, Album, Favorite, FavoriteDb, AlbumState, is_mark, is_favorite, add_favorite, is_of,
  is_playable_of, add_album_favorites, has_track, remove_album_favorites, track_count,
  favorite_track_count, album_state, update_album_favorites, mark_album, set_music_album_favorite,
}

is_favorite-append :
    (t : ℕ) (k : Text) (rows : List Favorite) (row : Favorite)
    → is_favorite t k (rows ++ row ∷ []) ≡ (is_favorite t k rows || is_mark t k row)
unfolding is_favorite
is_favorite-append t k [] row = ground arith
is_favorite-append t k (r ∷ rows) row = ground (arith, is_favorite-append t k rows row)

is_mark-eq :
    (t : ℕ) (k : Text) (i : ℕ) (key : Text) → is_mark t k (i, key) ≡ true → (i ≡ t) × (key ≡ k)
unfolding is_mark
is_mark-eq t k i key h =
    ((==_iff i t).0 (ground (arith, h)), (text_eq_iff key k).0 (ground (arith, h)))

is_favorite-add :
    (t : ℕ) (k key : Text) (i : ℕ) (rows : List Favorite)
    → is_favorite t k (add_favorite key i rows) ≡ (is_favorite t k rows || is_mark t k (i, key))
unfolding add_favorite
is_favorite-add t k key i rows = elim (Bool-cases (is_favorite i key rows)) [
  | inr new ↦ rw new (is_favorite-append t k rows (i, key))
  | inl old ↦ rw old (elim (Bool-cases (is_mark t k (i, key))) [
    | inr other ↦ rw other (ground arith)
    | inl is ↦
        let (same, also) = is_mark-eq t k i key is in
        let marked : is_favorite t k rows ≡ true =
          subst (λ j. is_favorite j k rows ≡ true) same
            (subst (λ l. is_favorite i l rows ≡ true) also old) in
        rw (is, marked) refl
  ])
]

-- Whether an available track of the album has the id.
pub has_playable : ℕ → ℕ → List AlbumTrack → Bool
has_playable album id tracks = any (λ track. is_playable_of album track && track.id == id) tracks

is_favorite-add_album :
    (key : Text) (album t : ℕ) (k : Text) (tracks : List AlbumTrack) (rows : List Favorite)
    → is_favorite t k (add_album_favorites key album tracks rows)
      ≡ (is_favorite t k rows || (text_eq key k && has_playable album t tracks))
unfolding add_album_favorites has_playable is_mark
is_favorite-add_album key album t k [] rows = ground arith
is_favorite-add_album key album t k (track ∷ rest) rows =
    elim (Bool-cases (is_playable_of album track)) [
      | inl is ↦ rw is (
          ground (
            arith,
            is_favorite-add_album key album t k rest (add_favorite key track.id rows),
            is_favorite-add t k key track.id rows,
          ))
      | inr other ↦ rw other (ground (arith, is_favorite-add_album key album t k rest rows))
    ]

is_favorite-remove_album :
    (key : Text) (album t : ℕ) (k : Text) (tracks : List AlbumTrack) (rows : List Favorite)
    → is_favorite t k (remove_album_favorites key album tracks rows)
      ≡ (is_favorite t k rows && not (text_eq k key && has_track album t tracks))
unfolding remove_album_favorites is_favorite
is_favorite-remove_album key album t k tracks [] = refl
is_favorite-remove_album key album t k tracks ((i, l) ∷ rows) =
    elim (Bool-cases (is_mark t k (i, l))) [
      | inr other ↦ ground (arith, other, is_favorite-remove_album key album t k tracks rows)
      | inl is ↦
          let (same, also) = is_mark-eq t k i l is in
          let covered =
            ap (λ j. text_eq l key && has_track album j tracks) same
            ∙ ap (λ m. text_eq m key && has_track album t tracks) also in
          ground (arith, is, covered, is_favorite-remove_album key album t k tracks rows)
    ]

all_marked :
    (album : ℕ) (marked : ℕ → Bool) (part : List AlbumTrack)
    → ((i : ℕ) → has_playable album i part ≡ true → marked i ≡ true)
    → count_rows (λ track. is_playable_of album track && marked track.id) part
      ≡ count_rows (is_playable_of album) part
unfolding has_playable
all_marked album marked [] h = refl
all_marked album marked (track ∷ rest) h = elim (Bool-cases (is_playable_of album track)) [
  | inr other ↦ rw other (omega (arith, all_marked album marked rest (λ i e. h i (rw other e))))
  | inl is ↦
      let same : (track.id == track.id) ≡ true = (==_iff track.id track.id).1 refl in
      let here = h track.id (rw (is, same) refl) in
      rw (is, here) (omega (arith, all_marked album marked rest (λ i e. h i (ground (arith, e)))))
]

none_marked :
    (album : ℕ) (marked : ℕ → Bool) (part : List AlbumTrack)
    → ((i : ℕ) → has_track album i part ≡ true → marked i ≡ false)
    → count_rows (λ track. is_playable_of album track && marked track.id) part ≡ 0
unfolding has_track is_playable_of
none_marked album marked [] h = refl
none_marked album marked (track ∷ rest) h = elim (Bool-cases (is_of album track)) [
  | inr other ↦ rw other (omega (arith, none_marked album marked rest (λ i e. h i (rw other e))))
  | inl is ↦
      let same : (track.id == track.id) ≡ true = (==_iff track.id track.id).1 refl in
      let here = h track.id (rw (is, same) refl) in
      rw here (ground (arith, none_marked album marked rest (λ i e. h i (ground (arith, e)))))
]

-- What a change of an album leaves: for each track and profile whether it is a favourite, and what the
-- answer counts.
pub record Settled (profile id : Text) (favorite : Bool) (before after : FavoriteDb)
    (state : AlbumState) (t : ℕ) (k : Text) : Type 0 where
  album : Album
  found : find (λ (a : Album). text_eq a.album_id (trim id)) before.albums ≡ some album
  marks : is_favorite t k after.favorites ≡ (
      if favorite
      then is_favorite t k before.favorites
        || (text_eq (normalize_profile_key profile) k && has_playable album.id t before.tracks)
      else is_favorite t k before.favorites
        && not (text_eq k (normalize_profile_key profile) && has_track album.id t before.tracks))
  counts : state.favorite_track_count ≡ (if favorite then state.track_count else 0)

marked_all :
    (key : Text) (album i : ℕ) (tracks : List AlbumTrack) (rows : List Favorite)
    → has_playable album i tracks ≡ true
    → is_favorite i key (add_album_favorites key album tracks rows) ≡ true
marked_all key album i tracks rows h =
    is_favorite-add_album key album i key tracks rows ∙ rw (h, text_eq_refl key) (ground arith)

cleared_all :
    (key : Text) (album i : ℕ) (tracks : List AlbumTrack) (rows : List Favorite)
    → has_track album i tracks ≡ true
    → is_favorite i key (remove_album_favorites key album tracks rows) ≡ false
cleared_all key album i tracks rows h =
    is_favorite-remove_album key album i key tracks rows ∙ rw (h, text_eq_refl key) (ground arith)

updated-Settled :
    (profile id : Text) (db : FavoriteDb) (album : Album) (t : ℕ) (k : Text)
    → find (λ (a : Album). text_eq a.album_id (trim id)) db.albums ≡ some album
    → (favorite : Bool)
    → let key = normalize_profile_key profile in
      let after = update_album_favorites key album.id favorite db in
      Settled profile id favorite db after (album_state key album.id (some album) after) t k
unfolding update_album_favorites album_state favorite_track_count track_count
updated-Settled profile id db album t k found true =
    let key = normalize_profile_key profile in
    record {
      album = album;
      found = found;
      marks = is_favorite-add_album key album.id t k db.tracks db.favorites;
      counts =
          all_marked album.id _ db.tracks
            (λ i e. marked_all key album.id i db.tracks db.favorites e);
    }
updated-Settled profile id db album t k found false =
    let key = normalize_profile_key profile in
    record {
      album = album;
      found = found;
      marks = is_favorite-remove_album key album.id t k db.tracks db.favorites;
      counts =
          none_marked album.id _ db.tracks
            (λ i e. cleared_all key album.id i db.tracks db.favorites e);
    }

-- An album that is found is marked or cleared as a whole: of the profile, the album's available tracks
-- are favourites, or none of its tracks is; all other favourites stay as they were, and the answer
-- counts all of the available tracks, or none.
pub set_music_album_favorite-Settled :
    (profile id : Text) (favorite : Bool) (db after : FavoriteDb) (state : AlbumState) (t : ℕ)
    (k : Text)
    → set_music_album_favorite profile id favorite db ≡ some (after, state)
    → Settled profile id favorite db after state t k
unfolding set_music_album_favorite mark_album
set_music_album_favorite-Settled profile id favorite db after state t k h =
    elim (Option-cases (find (λ (a : Album). text_eq a.album_id (trim id)) db.albums)) [
      | inl gone ↦ absurd (cc (rw gone at h))
      | inr (album, found) ↦
          subst (λ (out : FavoriteDb × AlbumState). Settled profile id favorite db out.0 out.1 t k)
            (some-inj (rw found at h)) (updated-Settled profile id db album t k found favorite)
    ]
