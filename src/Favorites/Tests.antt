-- ===== src/Favorites/Tests.antt =====
-- An album of two tracks, of which one is not available.
use labaiacinghiala.Common.{
  none, true, false, some, [], ◌∷◌, codes, ◌≡◌, refl, drop_space, is_space, text_eq, trim,
}
use labaiacinghiala.Favorites.{
  FavoriteDb, AlbumState, set_music_album_favorite, add_album_favorites, add_favorite, album_state,
  favorite_track_count, is_favorite, is_mark, is_of, is_playable_of, mark_album, public_id,
  track_count, update_album_favorites, mark_track, remove_favorite, set_music_track_favorite,
}
use labaiacinghiala.Favorites.Marks.{Settled, set_music_album_favorite-Settled}
use labaiacinghiala.PlayHistory.Reports.{normalize_profile_key}

abbrev unmarked : FavoriteDb
unmarked = record {
  albums = record { id = 1; album_id = codes "album" } ∷ [];
  tracks =
      record { id = 5; track_id = codes "five"; album = 1; available = true }
      ∷ record { id = 6; track_id = codes "six"; album = 1; available = false }
      ∷ [];
  favorites = (5, codes "other") ∷ [];
}

abbrev marked : FavoriteDb
marked = record unmarked { favorites = (5, codes "other") ∷ (5, codes "home") ∷ [] }

abbrev full : AlbumState
full = record {
  album_id = some (codes "album");
  favorite = true;
  fully_favorite = true;
  favorite_track_count = 1;
  track_count = 1;
}

marks_album :
    set_music_album_favorite (codes "home") (codes "album") true unmarked ≡ some (marked, full)
unfolding set_music_album_favorite mark_album update_album_favorites album_state
    favorite_track_count track_count add_album_favorites add_favorite is_favorite is_mark
    is_playable_of is_of public_id normalize_profile_key trim drop_space is_space text_eq
marks_album = refl

set_music_album_favorite-Settled_example :
    Settled (codes "home") (codes "album") true unmarked marked full 5 (codes "home")
set_music_album_favorite-Settled_example =
    set_music_album_favorite-Settled (codes "home") (codes "album") true unmarked marked full 5
      (codes "home") marks_album

-- One track is cleared; a track that is not available is not found.
clears_track :
    set_music_track_favorite (codes "home") (codes " five") false marked
    ≡ some (
      unmarked,
      record full { favorite = false; fully_favorite = false; favorite_track_count = 0 },
    )
unfolding set_music_track_favorite mark_track remove_favorite album_state favorite_track_count
    track_count is_favorite is_mark is_playable_of is_of public_id normalize_profile_key trim
    drop_space is_space text_eq
clears_track = refl

unavailable : set_music_track_favorite (codes "home") (codes "six") true marked ≡ none
unfolding set_music_track_favorite mark_track trim drop_space is_space text_eq
unavailable = refl
