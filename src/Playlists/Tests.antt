-- ===== src/Playlists/Tests.antt =====
-- The theorems on playlists at one of three tracks.
use labaiacinghiala.Common.{
  ◌++◌, ℕ, true, none, some, List, [], ◌∷◌, Text, codes, text_eq, trim, map, range_from, find, ◌≡◌,
  refl, arith, ok, err, collapse, drop_space, is_space, ascii_lower,
}
use labaiacinghiala.Playlists.{
  Payload, create_music_playlist, has_playlist_id, Playlist, Link, Track, Music,
  track_not_in_playlist, database_error, find_playlist, normalize_track_ids, collect_ids,
  delete_found, delete_music_playlist, update_music_playlist, update_found,
  normalize_playlist_input, normalize_text, or_else, description_of, name_taken, name_of, same_name,
  write_input,
}
use labaiacinghiala.Playlists.Edits.{
  raised, offset_rows, add_music_playlist_tracks, add_found, committed, touch,
  resolve_available_tracks, available_or_error, is_available, insert_tracks, is_ignored,
  next_position, Row, has_track_id, insert_row, joined, list_rows, is_link, current_row, has_uuid,
  remove_music_playlist_track, remove_found, at_position, compact_playlist_positions, in_the_way,
  offset, set_position, set_positions, without_link, is_reordering, reorder_music_playlist_tracks,
}
use labaiacinghiala.Playlists.Offset.{Spaced}
use labaiacinghiala.Playlists.Rows.{Keyed}
use labaiacinghiala.Playlists.Reordering.{place, reorder_music_playlist_tracks-place}
use labaiacinghiala.Playlists.Ordered.{Ordered}
use labaiacinghiala.Playlists.Actions.{
  Action, create, update, delete, add, remove, perform, commit, written, run, run-Ordered,
}

abbrev playlist : Playlist
playlist = record {
  id = 1;
  uuid = codes "list";
  profile_key = codes "anna";
  name = codes "Sea";
  description = [];
  updated_at = 5;
}

abbrev link : ℕ → ℕ → ℕ → Link
link p t k = record { playlist = p; track = t; position = k }

abbrev track : ℕ → Text → Track
track id uuid = record { id = id; uuid = uuid; available = true }

abbrev music : Music
music = record {
  next_id = 3;
  playlists = playlist ∷ [];
  links = link 1 30 2 ∷ link 2 20 0 ∷ link 1 10 0 ∷ link 1 20 1 ∷ [];
  tracks = track 10 (codes "a") ∷ track 20 (codes "b") ∷ track 30 (codes "c") ∷ [];
}

keyed : Keyed 1 music.links
unfolding is_link
keyed = λ t. ground arith

spaced : Spaced 1 music.links
spaced = λ k. ground arith

found : find_playlist (codes "anna") (codes "list") music ≡ some playlist
unfolding find_playlist text_eq trim
found = refl

abbrev row_b : Row
row_b = record { track = 20; uuid = codes "b"; position = 1 }

-- A track that the playlist does not have.
missing :
    remove_music_playlist_track (codes "anna") (codes "list") (codes "d") 9 music
    ≡ err track_not_in_playlist
unfolding remove_music_playlist_track remove_found find_playlist current_row list_rows joined
    insert_row has_track_id has_uuid text_eq trim
missing = refl

abbrev order : List Text
order = codes "c" ∷ codes "a" ∷ codes "b" ∷ []

normal :
    normalize_track_ids true (some (codes " c" ∷ codes "a" ∷ codes "b" ∷ codes "a" ∷ [])) ≡ ok order
unfolding normalize_track_ids collect_ids text_eq trim
normal = refl

reordering : is_reordering order (list_rows 1 music.tracks music.links) ≡ true
unfolding is_reordering list_rows joined insert_row has_track_id has_uuid text_eq
reordering = refl

reorder_music_playlist_tracks-place_example :
    (after : Music) × (reorder_music_playlist_tracks
        (codes "anna")
        (codes "list")
        (some (codes " c" ∷ codes "a" ∷ codes "b" ∷ codes "a" ∷ []))
        9
        music
      ≡ ok (some after))
    × (map
          (λ u. place 1 after.links (find (has_uuid u) (list_rows 1 music.tracks music.links)))
          order
        ≡ map some (range_from 0 3))
reorder_music_playlist_tracks-place_example =
    reorder_music_playlist_tracks-place (codes "anna") (codes "list")
      (some (codes " c" ∷ codes "a" ∷ codes "b" ∷ codes "a" ∷ [])) 9 music playlist order spaced
      (omega arith) found normal reordering

abbrev longer : Music
longer = record music {
  playlists = record playlist { updated_at = 9 } ∷ [];
  links = music.links ++ link 1 40 3 ∷ [];
  tracks = music.tracks ++ track 40 (codes "d") ∷ [];
}

abbrev with_new : Music
with_new = record music { tracks = music.tracks ++ track 40 (codes "d") ∷ [] }

-- One track that is there and one that is new.
added :
    add_music_playlist_tracks
      (codes "anna")
      (codes "list")
      (some (codes "b" ∷ codes "d" ∷ []))
      9
      with_new
    ≡ ok (some longer)
unfolding add_music_playlist_tracks add_found committed touch has_playlist_id find_playlist
    normalize_track_ids collect_ids resolve_available_tracks available_or_error is_available
    insert_tracks is_ignored next_position list_rows joined insert_row has_track_id text_eq trim
added = refl

abbrev named : Text → Payload
named name = record { name = some (some name); description = none }

-- A second playlist, a name that is taken, a new name, a playlist without tracks, and edits.
abbrev actions : List Action
actions =
    create (codes "anna") (named (codes "Sky")) (codes "new") 6
    ∷ create (codes "anna") (named (codes " SKY ")) (codes "again") 7
    ∷ update (codes "anna") (codes "new") (named (codes "Air")) 8
    ∷ remove (codes "anna") (codes "list") (codes "b") 9
    ∷ add (codes "anna") (codes "list") (some (codes "b" ∷ [])) 10
    ∷ delete (codes "anna") (codes "new")
    ∷ []

ordered : Ordered music.tracks music.links
unfolding is_link has_track_id
ordered = record { keyed = λ p t. ground arith; known = refl; dense = λ p k. ground arith }

performed : run music actions ≡ record {
  next_id = 4;
  playlists = record playlist { updated_at = 10 } ∷ [];
  links = link 1 30 1 ∷ link 2 20 0 ∷ link 1 10 0 ∷ link 1 20 2 ∷ [];
  tracks = music.tracks;
}
unfolding run perform commit written create_music_playlist delete_music_playlist delete_found
    find_playlist add_music_playlist_tracks add_found remove_music_playlist_track remove_found
    update_music_playlist update_found normalize_playlist_input normalize_text trim collapse or_else
    description_of text_eq name_taken drop_space is_space at_position available_or_error committed
    compact_playlist_positions current_row has_track_id has_uuid in_the_way insert_row insert_tracks
    is_available is_ignored is_link joined list_rows next_position offset resolve_available_tracks
    set_position set_positions touch without_link collect_ids has_playlist_id name_of
    normalize_track_ids same_name write_input ascii_lower offset_rows raised
performed = refl

run-Ordered_example : Ordered (run music actions).tracks (run music actions).links
run-Ordered_example = run-Ordered music actions ordered

-- Positions a million apart, which UNIQUE refuses.
blocked :
    remove_music_playlist_track
      (codes "anna")
      (codes "list")
      (codes "c")
      9
      (record music { links = link 1 10 0 ∷ link 1 20 1000000 ∷ link 1 30 5 ∷ [] })
    ≡ err database_error
unfolding remove_music_playlist_track remove_found find_playlist text_eq trim current_row list_rows
    joined has_track_id insert_row has_uuid compact_playlist_positions offset offset_rows
    without_link is_link in_the_way
blocked = refl
