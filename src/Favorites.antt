-- ===== src/Favorites.antt =====
-- src/services/music-favorite-service.js: the tracks that a profile marked as favourites, one by one
-- or by album.
pub mod Marks
mod Tests
use labaiacinghiala.Common.{
  ℕ, Bool, true, false, not, ◌&&◌, ◌||◌, Option, none, some, List, [], ◌∷◌, ◌++◌, Text, text_eq,
  trim, any, keep, find, count_rows, ltb, ◌==◌, if◌then◌else◌,
}
use labaiacinghiala.PlayHistory.Reports.{normalize_profile_key}

pub record AlbumTrack : Type 0 where
  pub id : ℕ
  pub track_id : Text
  pub album : ℕ
  pub available : Bool

pub record Album : Type 0 where
  pub id : ℕ
  pub album_id : Text

-- A row of music_track_favorites: the track and the profile.
abbrev pub Favorite : Type 0
Favorite = ℕ × Text

pub record FavoriteDb : Type 0 where
  pub albums : List Album
  pub tracks : List AlbumTrack
  pub favorites : List Favorite

pub is_mark : ℕ → Text → Favorite → Bool
is_mark track key row = row.0 == track && text_eq row.1 key

pub is_favorite : ℕ → Text → List Favorite → Bool
is_favorite track key rows = any (is_mark track key) rows

-- INSERT OR IGNORE.
pub add_favorite : Text → ℕ → List Favorite → List Favorite
add_favorite key track rows = if is_favorite track key rows then rows else rows ++ (track, key) ∷ []

pub remove_favorite : Text → ℕ → List Favorite → List Favorite
remove_favorite key track rows = keep (λ row. not (is_mark track key row)) rows

pub is_of : ℕ → AlbumTrack → Bool
is_of album track = track.album == album

pub is_playable_of : ℕ → AlbumTrack → Bool
is_playable_of album track = is_of album track && track.available

pub add_album_favorites : Text → ℕ → List AlbumTrack → List Favorite → List Favorite
add_album_favorites key album [] rows = rows
add_album_favorites key album (track ∷ rest) rows =
    add_album_favorites key album rest
      (if is_playable_of album track then add_favorite key track.id rows else rows)

-- Whether a track of the album has the id.
pub has_track : ℕ → ℕ → List AlbumTrack → Bool
has_track album id tracks = any (λ track. is_of album track && track.id == id) tracks

pub remove_album_favorites : Text → ℕ → List AlbumTrack → List Favorite → List Favorite
remove_album_favorites key album tracks rows =
    keep (λ row. not (text_eq row.1 key && has_track album row.0 tracks)) rows

-- getAlbumFavoriteState: how many tracks of the album are available, and how many of them favourites.
pub track_count : ℕ → FavoriteDb → ℕ
track_count album db = count_rows (is_playable_of album) db.tracks

pub favorite_track_count : Text → ℕ → FavoriteDb → ℕ
favorite_track_count key album db =
    count_rows (λ track. is_playable_of album track && is_favorite track.id key db.favorites)
      db.tracks

-- The album's public id is there by the foreign key of its tracks.
pub record AlbumState : Type 0 where
  pub album_id : Option Text
  pub favorite : Bool
  pub fully_favorite : Bool
  pub favorite_track_count : ℕ
  pub track_count : ℕ

pub public_id : Option Album → Option Text
public_id none = none
public_id (some album) = some album.album_id

pub album_state : Text → ℕ → Option Album → FavoriteDb → AlbumState
album_state key album row db =
    let total = track_count album db in
    let marked = favorite_track_count key album db in
    record {
      album_id = public_id row;
      favorite = ltb 0 marked;
      fully_favorite = ltb 0 total && marked == total;
      favorite_track_count = marked;
      track_count = total;
    }

pub mark_track : Text → Bool → FavoriteDb → Option AlbumTrack → Option (FavoriteDb × AlbumState)
mark_track key favorite db none = none
mark_track key favorite db (some track) =
    let after : FavoriteDb = record db {
      favorites =
          if favorite
          then add_favorite key track.id db.favorites
          else remove_favorite key track.id db.favorites;
    } in
    some (
      after,
      album_state key track.album (find (λ (a : Album). a.id == track.album) db.albums) after,
    )

-- The tables and the state of the track's album; `none` where there is no such track.
pub set_music_track_favorite : Text → Text → Bool → FavoriteDb → Option (FavoriteDb × AlbumState)
set_music_track_favorite profile id favorite db =
    mark_track (normalize_profile_key profile) favorite db
      (find (λ (t : AlbumTrack). text_eq t.track_id (trim id) && t.available) db.tracks)

pub update_album_favorites : Text → ℕ → Bool → FavoriteDb → FavoriteDb
update_album_favorites key album favorite db = record db {
  favorites =
      if favorite
      then add_album_favorites key album db.tracks db.favorites
      else remove_album_favorites key album db.tracks db.favorites;
}

pub mark_album : Text → Bool → FavoriteDb → Option Album → Option (FavoriteDb × AlbumState)
mark_album key favorite db none = none
mark_album key favorite db (some album) =
    let after = update_album_favorites key album.id favorite db in
    some (after, album_state key album.id (some album) after)

pub set_music_album_favorite : Text → Text → Bool → FavoriteDb → Option (FavoriteDb × AlbumState)
set_music_album_favorite profile id favorite db =
    mark_album (normalize_profile_key profile) favorite db
      (find (λ (a : Album). text_eq a.album_id (trim id)) db.albums)
