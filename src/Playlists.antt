-- ===== src/Playlists.antt =====
-- src/services/music-playlist-service.js: the playlists of a profile and the order of their tracks. The
-- profile key is the one that utils/profile-key.js made; times are a clock's readings.
pub mod Edits
pub mod Offset
pub mod Positions
pub mod Dense
pub mod Compaction
pub mod Ordered
pub mod Insertion
pub mod Deletions
pub mod Preserved
pub mod Actions
pub mod Rows
pub mod Adding
pub mod Removal
pub mod Ids
pub mod Lookups
pub mod Reordering
mod Tests
use labaiacinghiala.Common.{
  ℕ, ◌+◌, Bool, true, false, not, ◌&&◌, ◌||◌, Option, none, some, List, [], ◌∷◌, ◌++◌, map, Text,
  text_eq, is_empty, is_space, trim, collapse, ascii_lower, length, any, find, keep, update_rows,
  ltb, ◌==◌, if◌then◌else◌, Result, ok, err, ◌>>=◌, ◌>>◌, require,
}

-- The codes of MusicPlaylistError, and a constraint of the tables.
pub data PlaylistError : Type 0 where
  invalid_name field_too_long invalid_tracks too_many_tracks invalid_track empty_tracks :
      PlaylistError
  name_conflict track_not_found track_not_in_playlist order_mismatch database_error : PlaylistError

-- Rows of music_playlists, music_playlist_tracks and music_tracks.
pub record Playlist : Type 0 where
  pub id : ℕ
  pub uuid : Text
  pub profile_key : Text
  pub name : Text
  pub description : Text
  pub updated_at : ℕ

pub record Link : Type 0 where
  pub playlist : ℕ
  pub track : ℕ
  pub position : ℕ

pub record Track : Type 0 where
  pub id : ℕ
  pub uuid : Text
  pub available : Bool

-- `next_id` is what AUTOINCREMENT gives next.
pub record Music : Type 0 where
  pub next_id : ℕ
  pub playlists : List Playlist
  pub links : List Link
  pub tracks : List Track

abbrev pub given : Option Text → Text
given none = []
given (some t) = t

pub normalize_text : Bool → ℕ → Option Text → Result PlaylistError Text
normalize_text required maximum value =
    let text = trim (collapse is_space false (given value)) in
    if required && is_empty text
    then err invalid_name
    else if ltb maximum (length text)
    then err field_too_long
    else ok text

-- A field is absent, null or a text.
pub record Payload : Type 0 where
  pub name : Option (Option Text)
  pub description : Option (Option Text)

pub record Input : Type 0 where
  pub name : Text
  pub description : Text

pub or_else : Option (Option Text) → Option Text → Option Text
or_else none current = current
or_else (some value) current = value

pub name_of : Option Playlist → Option Text
name_of none = none
name_of (some p) = some p.name

pub description_of : Option Playlist → Option Text
description_of none = none
description_of (some p) = some p.description

pub normalize_playlist_input : Payload → Option Playlist → Result PlaylistError Input
normalize_playlist_input payload current = do
  name ← normalize_text true 100 (or_else payload.name (name_of current))
  description ← normalize_text false 500 (or_else payload.description (description_of current))
  ok (record { name = name; description = description })

-- The loop of normalizeTrackIds: `seen` are the ids in the result.
pub collect_ids : List Text → List Text → Result PlaylistError (List Text)
collect_ids seen [] = ok []
collect_ids seen (raw ∷ rest) =
    let id = trim raw in
    let again = collect_ids seen rest in
    let others = collect_ids (id ∷ seen) rest in
    if is_empty id || ltb 128 (length id)
    then err invalid_track
    else if any (text_eq id) seen
    then again
    else (do ids ← others; ok (id ∷ ids))

-- `none` is a value that is not an array.
pub normalize_track_ids : Bool → Option (List Text) → Result PlaylistError (List Text)
normalize_track_ids allow_empty none = err invalid_tracks
normalize_track_ids allow_empty (some values) = do
  require (not (ltb 500 (length values))) too_many_tracks
  ids ← collect_ids [] values
  require (allow_empty || not (length ids == 0)) empty_tracks
  ok ids

pub find_playlist : Text → Text → Music → Option Playlist
find_playlist profile uuid music =
    find (λ (p : Playlist). text_eq p.profile_key profile && text_eq p.uuid (trim uuid))
      music.playlists

pub same_name : Text → Text → Bool
same_name a b = text_eq (map ascii_lower a) (map ascii_lower b)

-- idx_music_playlists_profile_name, of the rows but that with the id.
pub name_taken : Text → Text → List Playlist → Bool
name_taken profile name playlists =
    any (λ (p : Playlist). text_eq p.profile_key profile && same_name p.name name) playlists

pub create_music_playlist : Text → Payload → Text → ℕ → Music → Result PlaylistError Music
create_music_playlist profile payload uuid now music = do
  input ← normalize_playlist_input payload none
  require (not (any (λ (p : Playlist). text_eq p.uuid uuid) music.playlists)) database_error
  require (not (name_taken profile input.name music.playlists)) name_conflict
  ok (record music {
    next_id = music.next_id + 1;
    playlists =
        music.playlists
        ++ record {
          id = music.next_id;
          uuid = uuid;
          profile_key = profile;
          name = input.name;
          description = input.description;
          updated_at = now;
        }
          ∷ [];
  })

pub has_playlist_id : ℕ → Playlist → Bool
has_playlist_id id p = p.id == id

pub write_input : Input → ℕ → Playlist → Playlist
write_input input now p = record p {
  name = input.name;
  description = input.description;
  updated_at = now;
}

pub update_found :
    Text → Payload → ℕ → Music → Option Playlist → Result PlaylistError (Option Music)
update_found profile payload now music none = ok none
update_found profile payload now music (some current) = do
  input ← normalize_playlist_input payload (some current)
  require
      (not (
        name_taken profile input.name
          (keep (λ (p : Playlist). not (p.id == current.id)) music.playlists)))
      name_conflict
  ok (
      some (record music {
        playlists =
            update_rows (has_playlist_id current.id) (write_input input now) music.playlists;
      }))

-- `none` where there is no such playlist.
pub update_music_playlist : Text → Text → Payload → ℕ → Music → Result PlaylistError (Option Music)
update_music_playlist profile uuid payload now music =
    update_found profile payload now music (find_playlist profile uuid music)

-- ON DELETE CASCADE takes the links with it.
pub delete_found : Music → Option Playlist → Option Music
delete_found music none = none
delete_found music (some current) = some (record music {
  playlists = keep (λ (p : Playlist). not (p.id == current.id)) music.playlists;
  links = keep (λ (l : Link). not (l.playlist == current.id)) music.links;
})

pub delete_music_playlist : Text → Text → Music → Option Music
delete_music_playlist profile uuid music = delete_found music (find_playlist profile uuid music)
