-- ===== src/Playlists/Actions.antt =====
-- The operations of src/services/music-playlist-service.js one after the other.
use labaiacinghiala.Common.{
  ℕ, Option, none, some, List, [], ◌∷◌, Text, ◌>>=◌, Result, ok, err, Returns, Returns->>=,
  Returns-ok,
}
use labaiacinghiala.Playlists.{
  Music, Payload, PlaylistError, create_music_playlist, update_music_playlist,
  delete_music_playlist, find_playlist,
}
use labaiacinghiala.Playlists.Edits.{
  add_music_playlist_tracks, remove_music_playlist_track, reorder_music_playlist_tracks,
}
use labaiacinghiala.Playlists.Ordered.{Ordered}
use labaiacinghiala.Playlists.Preserved.{
  add_found-Ordered, remove_found-Ordered, reorder_found-Ordered, delete_found-Ordered,
  update_found-Ordered, create_music_playlist-Ordered, OrderedIn,
}

-- A call with its arguments.
pub data Action : Type 0 where
  create : Text → Payload → Text → ℕ → Action
  update : Text → Text → Payload → ℕ → Action
  delete : Text → Text → Action
  add : Text → Text → Option (List Text) → ℕ → Action
  remove : Text → Text → Text → ℕ → Action
  reorder : Text → Text → Option (List Text) → ℕ → Action

-- The tables after a call: the old ones where there was no such playlist or an error.
unfoldable pub written : Music → Option Music → Music
written music none = music
written music (some after) = after

unfoldable pub commit : Music → Result PlaylistError (Option Music) → Music
commit music (ok after) = written music after
commit music (err e) = music

unfoldable pub perform : Music → Action → Music
perform music (create profile payload uuid now) =
    commit music (do made ← create_music_playlist profile payload uuid now music; ok (some made))
perform music (update profile uuid payload now) =
    commit music (update_music_playlist profile uuid payload now music)
perform music (delete profile uuid) = written music (delete_music_playlist profile uuid music)
perform music (add profile uuid ids now) =
    commit music (add_music_playlist_tracks profile uuid ids now music)
perform music (remove profile uuid id now) =
    commit music (remove_music_playlist_track profile uuid id now music)
perform music (reorder profile uuid ids now) =
    commit music (reorder_music_playlist_tracks profile uuid ids now music)

unfoldable pub run : Music → List Action → Music
run music [] = music
run music (action ∷ rest) = run (perform music action) rest

written-Ordered :
    (music : Music) (after : Option Music)
    → Ordered music.tracks music.links
    → OrderedIn after
    → Ordered (written music after).tracks (written music after).links
unfolding written
written-Ordered music none o h = o
written-Ordered music (some after) o h = h

commit-Ordered :
    (music : Music) (m : Result PlaylistError (Option Music))
    → Ordered music.tracks music.links
    → Returns OrderedIn m
    → Ordered (commit music m).tracks (commit music m).links
unfolding commit
commit-Ordered music (ok after) o h = written-Ordered music after o h
commit-Ordered music (err e) o h = o

perform-Ordered :
    (music : Music) (action : Action)
    → Ordered music.tracks music.links
    → Ordered (perform music action).tracks (perform music action).links
unfolding perform update_music_playlist delete_music_playlist add_music_playlist_tracks
    remove_music_playlist_track reorder_music_playlist_tracks
perform-Ordered music (create profile payload uuid now) o = commit-Ordered music _ o (
    Returns->>= OrderedIn (create_music_playlist profile payload uuid now music)
      (λ made. ok (some made))
      λ made e.
        Returns-ok (λ after. Ordered after.tracks after.links)
          (create_music_playlist profile payload uuid now music)
          (create_music_playlist-Ordered profile payload uuid now music o) e)
perform-Ordered music (update profile uuid payload now) o =
    commit-Ordered music _ o
      (update_found-Ordered profile payload now music (find_playlist profile uuid music) o)
perform-Ordered music (delete profile uuid) o =
    written-Ordered music _ o (delete_found-Ordered music (find_playlist profile uuid music) o)
perform-Ordered music (add profile uuid ids now) o =
    commit-Ordered music _ o (add_found-Ordered ids now music (find_playlist profile uuid music) o)
perform-Ordered music (remove profile uuid id now) o =
    commit-Ordered music _ o
      (remove_found-Ordered id now music (find_playlist profile uuid music) o)
perform-Ordered music (reorder profile uuid ids now) o =
    commit-Ordered music _ o
      (reorder_found-Ordered ids now music (find_playlist profile uuid music) o)

-- In tables whose links are of known tracks, each at most once in a playlist, and where the positions
-- of each playlist are 0, 1, 2, … without gaps, all this holds after any sequence of playlist
-- creations, updates, deletions, additions, removals and reorderings, refused ones included.
pub run-Ordered :
    (music : Music) (actions : List Action)
    → Ordered music.tracks music.links
    → Ordered (run music actions).tracks (run music actions).links
unfolding run
run-Ordered music [] o = o
run-Ordered music (action ∷ rest) o =
    run-Ordered (perform music action) rest (perform-Ordered music action o)
