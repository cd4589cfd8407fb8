-- ===== src/Playlists/Reordering.antt =====
-- reorderMusicPlaylistTracks: the tracks stand in the order that was asked for.
use labaiacinghiala.Common.{
  ==_iff, ℕ, ◌≤◌, true, Option, none, some, List, [], ◌≡◌, refl, arith, Text, length, map,
  range_from, find, ok, Returns-ok, ap, ◌∙◌,
}
use labaiacinghiala.Playlists.{Playlist, Link, Music, find_playlist, normalize_track_ids}
use labaiacinghiala.Playlists.Edits.{
  Row, has_track_id, list_rows, has_uuid, committed, is_reordering, internal_ids, reorder_found,
  reorder_music_playlist_tracks,
}
use labaiacinghiala.Playlists.Positions.{
  position_of, Compacted, map_indexed_zero, compact_playlist_positions-Compacted,
}
use labaiacinghiala.Playlists.Offset.{Spaced}
use labaiacinghiala.Playlists.Rows.{length-list_rows, list_rows-Linked}
use labaiacinghiala.Playlists.Ids.{Fresh, normalize_track_ids-Fresh}
use labaiacinghiala.Playlists.Lookups.{
  known-list_rows, internal-le, internal_member, named_once, internal_at, length-internal_ids,
}

module _ (playlist : ℕ) (music : Music) (ids : List Text) where
  rows : List Row
  rows = list_rows playlist music.tracks music.links

  ids-Compacted :
      Spaced playlist music.links
      → length music.links ≤ 1000000
      → Fresh [] ids
      → is_reordering ids rows ≡ true
      → Compacted playlist (internal_ids rows ids) music.links
  unfolding rows is_reordering
  ids-Compacted spaced few fresh is =
      let same_length : length ids ≡ length rows =
        (==_iff (length ids) (length rows)).0 (ground arith) in
      compact_playlist_positions-Compacted playlist (internal_ids rows ids) music.links spaced
        (omega (
          arith,
          few,
          same_length,
          length-internal_ids rows ids,
          length-list_rows playlist music.tracks music.links,
        ))
        (λ t. omega (
          arith,
          internal-le music.tracks rows t ids (known-list_rows playlist music.tracks music.links),
          named_once (find (has_track_id t) music.tracks) ids fresh,
        ))
        (λ t h. list_rows-Linked playlist music.tracks music.links t (
          internal_member music.tracks rows t ids
            (known-list_rows playlist music.tracks music.links) h))

-- Where the track stands that a row names.
pub place : ℕ → List Link → Option Row → Option ℕ
place playlist links none = none
place playlist links (some r) = position_of playlist r.track links

-- In tables of at most a million links, where the positions of the playlist are distinct and below a
-- million, an order that names each track of the playlist once is written, and the tracks named stand
-- at 0, 1, 2, … in that order.
pub reorder_music_playlist_tracks-place :
    (profile uuid : Text) (track_ids : Option (List Text)) (now : ℕ) (music : Music)
    (playlist : Playlist) (ids : List Text)
    → Spaced playlist.id music.links
    → length music.links ≤ 1000000
    → find_playlist profile uuid music ≡ some playlist
    → normalize_track_ids true track_ids ≡ ok ids
    → is_reordering ids (list_rows playlist.id music.tracks music.links) ≡ true
    → (after : Music) × (reorder_music_playlist_tracks profile uuid track_ids now music
        ≡ ok (some after))
      × (map
            (λ u.
              place playlist.id after.links
                (find (has_uuid u) (list_rows playlist.id music.tracks music.links)))
            ids
          ≡ map some (range_from 0 (length ids)))
unfolding reorder_music_playlist_tracks reorder_found committed rows is_reordering place
reorder_music_playlist_tracks-place profile uuid track_ids now music playlist ids spaced few found
      normal is =
    let c =
      ids-Compacted playlist.id music ids spaced few
        (Returns-ok (Fresh []) _ (normalize_track_ids-Fresh true track_ids) normal) is in
    (
      committed playlist now music c.result,
      rw (found, normal, is, c.run_lem) refl,
      map_indexed_zero _ ids λ i u e.
          let (r, row, at) =
            internal_at (list_rows playlist.id music.tracks music.links) ids i {u = u}
              (ground arith) e in
          ap (place playlist.id c.result) row ∙ c.indexed i r.track at,
    )
