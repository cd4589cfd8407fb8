-- ===== src/Player/Tracks.antt =====
-- public/js/music-player-state.js: normalizeText, normalizeTrack and the context of a queue. A
-- field of the page's data is a string or missing; a number is `JsNumber`.
use labaiacinghiala.Common.{
  JsNumber, non_negative, ℕ, Bool, ◌&&◌, not, Option, none, some, List, [], ◌∷◌, Text, codes,
  is_empty, trim, starts_with, ends_with, if◌then◌else◌,
}

pub record RawArtist : Type 0 where
  pub artist_id : Option Text
  pub name : Option Text

-- What the page hands over; `artists` is `none` where it is no array.
pub record RawTrack : Type 0 where
  pub track_id : Option Text
  pub stream_url : Option Text
  pub title : Option Text
  pub artists : Option (List RawArtist)
  pub album_id : Option Text
  pub album_title : Option Text
  pub cover_url : Option Text
  pub duration : JsNumber

pub record Artist : Type 0 where
  pub artist_id : Option Text
  pub name : Text

pub record Track : Type 0 where
  pub track_id : Text
  pub title : Text
  pub artists : List Artist
  pub album_id : Option Text
  pub album_title : Text
  pub cover_url : Option Text
  pub stream_url : Text
  pub duration : ℕ

unfoldable pub normalize_text : Option Text → Text
unfolding trim
normalize_text none = []
normalize_text (some t) = trim t

-- normalizeText(value) || null.
pub text_or_null : Text → Option Text
text_or_null t = if is_empty t then none else some t

abbrev untitled : Text
untitled = codes "Brano senza titolo"

pub normalize_artists : List RawArtist → List Artist
unfolding normalize_text text_or_null
normalize_artists [] = []
normalize_artists (a ∷ rest) =
    let artist : Artist = record {
      artist_id = text_or_null (normalize_text a.artist_id);
      name = normalize_text a.name;
    } in
    if is_empty (normalize_text a.name)
    then normalize_artists rest
    else artist ∷ normalize_artists rest

pub artists_of : Option (List RawArtist) → List Artist
unfolding normalize_artists
artists_of none = []
artists_of (some l) = normalize_artists l

pub is_playable : Text → Text → Bool
unfolding starts_with ends_with
is_playable track_id stream_url =
    not (is_empty track_id)
    && starts_with stream_url (codes "/api/music/tracks/")
    && ends_with stream_url (codes "/stream")

pub track_of : RawTrack → Track
unfolding normalize_text text_or_null artists_of
track_of v =
    let title = normalize_text v.title in
    record {
      track_id = normalize_text v.track_id;
      title = if is_empty title then untitled else title;
      artists = artists_of v.artists;
      album_id = text_or_null (normalize_text v.album_id);
      album_title = normalize_text v.album_title;
      cover_url = text_or_null (normalize_text v.cover_url);
      stream_url = normalize_text v.stream_url;
      duration = non_negative v.duration;
    }

-- `none` among the values is one that is no object; `none` as the result is `null`.
unfoldable pub normalize_track : Option RawTrack → Option Track
unfolding track_of is_playable normalize_text
normalize_track none = none
normalize_track (some v) =
    if is_playable (normalize_text v.track_id) (normalize_text v.stream_url)
    then some (track_of v)
    else none

pub record RawContext : Type 0 where
  pub kind : Option Text
  pub id : Option Text
  pub title : Option Text

pub record Context : Type 0 where
  pub kind : Text
  pub id : Option Text
  pub title : Text

unfoldable pub normalize_context : Option RawContext → Context
unfolding normalize_text text_or_null
normalize_context none = record { kind = codes "selection"; id = none; title = [] }
normalize_context (some c) =
    let kind = normalize_text c.kind in
    record {
      kind = if is_empty kind then codes "selection" else kind;
      id = text_or_null (normalize_text c.id);
      title = normalize_text c.title;
    }
