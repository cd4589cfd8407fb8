-- ===== src/Playlists/Adding.antt =====
-- addMusicPlaylistTracks: the tracks that are there stay where they are.
use labaiacinghiala.Common.{
  ℕ, suc, Bool, true, false, Option, none, some, List, [], ◌∷◌, ◌++◌, ◌≡◌, refl, inl, inr, Text,
  any, if◌then◌else◌, Bool-cases, ok, Returns, Returns->>=, Returns-ok, ◌∙◌,
}
use labaiacinghiala.Playlists.{Playlist, Link, Music, find_playlist, normalize_track_ids}
use labaiacinghiala.Playlists.Edits.{
  is_link, is_ignored, insert_tracks, committed, resolve_available_tracks, next_position, list_rows,
  add_found, add_music_playlist_tracks,
}
use labaiacinghiala.Playlists.Positions.{position_of, is_linked}

position_of-append :
    (playlist t : ℕ) (links more : List Link)
    → is_linked playlist t links ≡ true
    → (position_of playlist t (links ++ more) ≡ position_of playlist t links)
      × (is_linked playlist t (links ++ more) ≡ true)
position_of-append playlist t [] more h = cc
position_of-append playlist t (l ∷ links) more h = elim (Bool-cases (is_link playlist t l)) [
  | inl here ↦ rw here (refl, refl)
  | inr other ↦ rw other (position_of-append playlist t links more (rw other at h))
]

-- The track stands where it stood.
Keeps : ℕ → ℕ → List Link → List Link → Type 0
Keeps playlist t before after = position_of playlist t after ≡ position_of playlist t before

if-Keeps :
    (playlist t : ℕ) (before : List Link) (b : Bool) (m n : List Link)
    → Keeps playlist t before m
    → Keeps playlist t before n
    → Keeps playlist t before (if b then m else n)
if-Keeps playlist t before true m n h k = h
if-Keeps playlist t before false m n h k = k

insert_tracks-Keeps :
    (playlist t position : ℕ) (ids : List ℕ) (links : List Link)
    → is_linked playlist t links ≡ true
    → Keeps playlist t links (insert_tracks playlist position ids links)
unfolding insert_tracks Keeps
insert_tracks-Keeps playlist t position [] links h = refl
insert_tracks-Keeps playlist t position (id ∷ rest) links h =
    let new : List Link = record { playlist = playlist; track = id; position = position } ∷ [] in
    let (same, linked) = position_of-append playlist t links new h in
    if-Keeps playlist t links (any (is_ignored playlist id position) links) _ _
      (insert_tracks-Keeps playlist t position rest links h)
      (insert_tracks-Keeps playlist t (suc position) rest (links ++ new) linked ∙ same)

KeptIn : ℕ → ℕ → List Link → Option Music → Type 0
KeptIn playlist t before none = Unit
KeptIn playlist t before (some after) = Keeps playlist t before after.links

add_found-KeptIn :
    (track_ids : Option (List Text)) (now : ℕ) (music : Music) (playlist : Playlist) (t : ℕ)
    → is_linked playlist.id t music.links ≡ true
    → Returns (KeptIn playlist.id t music.links) (add_found track_ids now music (some playlist))
unfolding add_found committed KeptIn
add_found-KeptIn track_ids now music playlist t linked =
    Returns->>= _ (normalize_track_ids false track_ids) _ λ ids _.
      Returns->>= _ (resolve_available_tracks music.tracks ids) _ λ tracks _.
        insert_tracks-Keeps playlist.id t
          (next_position (list_rows playlist.id music.tracks music.links)) tracks music.links linked

-- When tracks were added to a playlist, each track that was in it before stands at the position that
-- it had.
pub add_music_playlist_tracks_keeps :
    (profile uuid : Text) (track_ids : Option (List Text)) (now : ℕ) (music after : Music)
    (playlist : Playlist) (t : ℕ)
    → find_playlist profile uuid music ≡ some playlist
    → is_linked playlist.id t music.links ≡ true
    → add_music_playlist_tracks profile uuid track_ids now music ≡ ok (some after)
    → position_of playlist.id t after.links ≡ position_of playlist.id t music.links
unfolding add_music_playlist_tracks Keeps KeptIn
add_music_playlist_tracks_keeps profile uuid track_ids now music after playlist t found linked h =
    Returns-ok (KeptIn playlist.id t music.links) (add_found track_ids now music (some playlist))
      (add_found-KeptIn track_ids now music playlist t linked) (rw found at h)
