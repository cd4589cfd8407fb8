-- ===== src/Playlists/Edits.antt =====
-- src/services/music-playlist-service.js: the tracks of a playlist are added, removed and put in order.
-- A transaction that fails leaves the tables as they were.
use labaiacinghiala.Common.{
  ℕ, suc, ◌+◌, max, Bool, true, false, not, ◌&&◌, ◌||◌, Option, none, some, List, [], ◌∷◌, ◌++◌,
  map, Text, text_eq, trim, length, all, any, find, keep, update_rows, leb, ◌==◌, if◌then◌else◌,
  Result, ok, err, ◌>>=◌, ◌>>◌, require,
}
use labaiacinghiala.Playlists.{
  PlaylistError, track_not_found, track_not_in_playlist, order_mismatch, database_error, Playlist,
  Link, Track, Music, find_playlist, has_playlist_id, normalize_track_ids,
}

-- A row of listPlaylistTrackRows.
pub record Row : Type 0 where
  pub track : ℕ
  pub uuid : Text
  pub position : ℕ

unfoldable pub is_link : ℕ → ℕ → Link → Bool
is_link playlist track l = l.playlist == playlist && l.track == track

unfoldable pub has_track_id : ℕ → Track → Bool
has_track_id id t = t.id == id

-- ORDER BY position.
unfoldable pub insert_row : Row → List Row → List Row
insert_row r [] = r ∷ []
insert_row r (q ∷ rest) =
    let others = insert_row r rest in if leb r.position q.position then r ∷ q ∷ rest else q ∷ others

-- The JOIN with music_tracks.
unfoldable pub joined : Link → Option Track → List Row → List Row
joined l none rest = rest
joined l (some t) rest =
    insert_row (record { track = l.track; uuid = t.uuid; position = l.position }) rest

unfoldable pub list_rows : ℕ → List Track → List Link → List Row
list_rows playlist tracks [] = []
list_rows playlist tracks (l ∷ links) =
    let rest = list_rows playlist tracks links in
    if l.playlist == playlist then joined l (find (has_track_id l.track) tracks) rest else rest

unfoldable pub at_position : ℕ → Link → Link
at_position position l = record l { position = position }

-- Another track of the playlist at the position, which UNIQUE refuses.
unfoldable pub in_the_way : ℕ → ℕ → ℕ → Link → Bool
in_the_way playlist position track l =
    l.playlist == playlist && l.position == position && not (l.track == track)

unfoldable pub raised : ℕ → Link → Link
raised playlist l =
    if l.playlist == playlist then record l { position = l.position + 1000000 } else l

-- offsetPlaylistPositions row by row, in the order of the list; each row is checked against the rows
-- before it, which are written, and those after it.
unfoldable pub offset_rows : ℕ → List Link → List Link → Result PlaylistError (List Link)
offset_rows playlist before [] = ok before
offset_rows playlist before (l ∷ rest) =
    let others = offset_rows playlist (before ++ raised playlist l ∷ []) rest in
    if l.playlist == playlist
      && any (in_the_way playlist (l.position + 1000000) l.track) (before ++ rest)
    then err database_error
    else others

unfoldable pub offset : ℕ → List Link → Result PlaylistError (List Link)
offset playlist links = offset_rows playlist [] links

unfoldable pub set_position : ℕ → ℕ → ℕ → List Link → Result PlaylistError (List Link)
set_position playlist position track links =
    if any (in_the_way playlist position track) links
    then err database_error
    else ok (update_rows (is_link playlist track) (at_position position) links)

unfoldable pub set_positions : ℕ → ℕ → List ℕ → List Link → Result PlaylistError (List Link)
set_positions playlist position [] links = ok links
set_positions playlist position (track ∷ rest) links =
    set_position playlist position track links >>= set_positions playlist (suc position) rest

unfoldable pub compact_playlist_positions :
    ℕ → List ℕ → List Link → Result PlaylistError (List Link)
compact_playlist_positions playlist ids links =
    offset playlist links >>= set_positions playlist 0 ids

unfoldable pub touch : ℕ → ℕ → List Playlist → List Playlist
touch id now = update_rows (has_playlist_id id) (λ (p : Playlist). record p { updated_at = now })

-- The links of a playlist written, and the playlist touched.
unfoldable pub committed : Playlist → ℕ → Music → List Link → Music
committed playlist now music links = record music {
  links = links;
  playlists = touch playlist.id now music.playlists;
}

unfoldable pub is_available : Text → Track → Bool
is_available uuid t = text_eq t.uuid uuid && t.available

unfoldable pub available_or_error : Option Track → Result PlaylistError Track
available_or_error none = err track_not_found
available_or_error (some t) = ok t

unfoldable pub resolve_available_tracks : List Track → List Text → Result PlaylistError (List ℕ)
resolve_available_tracks tracks [] = ok []
resolve_available_tracks tracks (uuid ∷ rest) = do
  track ← available_or_error (find (is_available uuid) tracks)
  others ← resolve_available_tracks tracks rest
  ok (track.id ∷ others)

-- Math.max(…) + 1, or 0 of no rows.
unfoldable pub next_position : List Row → ℕ
next_position [] = 0
next_position (r ∷ rest) = max (suc r.position) (next_position rest)

-- INSERT OR IGNORE: a track that is there, or a position that is taken, is ignored.
unfoldable pub is_ignored : ℕ → ℕ → ℕ → Link → Bool
is_ignored playlist track position l =
    l.playlist == playlist && (l.track == track || l.position == position)

unfoldable pub insert_tracks : ℕ → ℕ → List ℕ → List Link → List Link
insert_tracks playlist position [] links = links
insert_tracks playlist position (track ∷ rest) links =
    let ignored = insert_tracks playlist position rest links in
    let inserted =
      insert_tracks playlist (suc position) rest
        (links ++ record { playlist = playlist; track = track; position = position } ∷ []) in
    if any (is_ignored playlist track position) links then ignored else inserted

unfoldable pub add_found :
    Option (List Text) → ℕ → Music → Option Playlist → Result PlaylistError (Option Music)
add_found track_ids now music none = ok none
add_found track_ids now music (some playlist) = do
  ids ← normalize_track_ids false track_ids
  tracks ← resolve_available_tracks music.tracks ids
  ok (
      some (
        committed playlist now music (
          insert_tracks playlist.id (next_position (list_rows playlist.id music.tracks music.links))
            tracks music.links)))

unfoldable pub add_music_playlist_tracks :
    Text → Text → Option (List Text) → ℕ → Music → Result PlaylistError (Option Music)
add_music_playlist_tracks profile uuid track_ids now music =
    add_found track_ids now music (find_playlist profile uuid music)

unfoldable pub has_uuid : Text → Row → Bool
has_uuid uuid r = text_eq r.uuid uuid

-- findPlaylistTrack and its error.
unfoldable pub current_row : Text → List Row → Result PlaylistError Row
current_row track_id rows = elim (find (has_uuid (trim track_id)) rows) [
  | none ↦ err track_not_in_playlist
  | some r ↦ ok r
]

unfoldable pub without_link : ℕ → ℕ → List Link → List Link
without_link playlist track = keep (λ l. not (is_link playlist track l))

abbrev pub row_tracks : List Row → List ℕ
row_tracks = map (λ (r : Row). r.track)

unfoldable pub remove_found :
    Text → ℕ → Music → Option Playlist → Result PlaylistError (Option Music)
remove_found track_id now music none = ok none
remove_found track_id now music (some playlist) = do
  current ← current_row track_id (list_rows playlist.id music.tracks music.links)
  let remaining = without_link playlist.id current.track music.links
  links ←
      compact_playlist_positions playlist.id
        (row_tracks (list_rows playlist.id music.tracks remaining)) remaining
  ok (some (committed playlist now music links))

unfoldable pub remove_music_playlist_track :
    Text → Text → Text → ℕ → Music → Result PlaylistError (Option Music)
remove_music_playlist_track profile uuid track_id now music =
    remove_found track_id now music (find_playlist profile uuid music)

-- The guard of reorderMusicPlaylistTracks.
unfoldable pub is_reordering : List Text → List Row → Bool
is_reordering ids rows = length ids == length rows && all (λ id. any (has_uuid id) rows) ids

unfoldable pub put_id : Option Row → List ℕ → List ℕ
put_id none ids = ids
put_id (some r) ids = r.track ∷ ids

-- internalByUuid.get of each id. The guard leaves no id without a row.
unfoldable pub internal_ids : List Row → List Text → List ℕ
internal_ids rows [] = []
internal_ids rows (id ∷ rest) = put_id (find (has_uuid id) rows) (internal_ids rows rest)

unfoldable pub reorder_found :
    Option (List Text) → ℕ → Music → Option Playlist → Result PlaylistError (Option Music)
reorder_found track_ids now music none = ok none
reorder_found track_ids now music (some playlist) = do
  ids ← normalize_track_ids true track_ids
  let rows = list_rows playlist.id music.tracks music.links
  require (is_reordering ids rows) order_mismatch
  links ← compact_playlist_positions playlist.id (internal_ids rows ids) music.links
  ok (some (committed playlist now music links))

unfoldable pub reorder_music_playlist_tracks :
    Text → Text → Option (List Text) → ℕ → Music → Result PlaylistError (Option Music)
reorder_music_playlist_tracks profile uuid track_ids now music =
    reorder_found track_ids now music (find_playlist profile uuid music)
