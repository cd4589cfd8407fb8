-- ===== src/Playlists/Removal.antt =====
-- removeMusicPlaylistTrack: the other tracks close the gap.
use labaiacinghiala.Common.{ℕ, ◌≤◌, none, some, List, ◌≡◌, length, map, range_from}
use labaiacinghiala.Playlists.{Link, Music}
use labaiacinghiala.Playlists.Edits.{list_rows, row_tracks, without_link}
use labaiacinghiala.Playlists.Positions.{position_of}
use labaiacinghiala.Playlists.Offset.{Spaced}
use labaiacinghiala.Playlists.Rows.{Keyed}

-- The tracks that a playlist has without one of them, in the order of their positions.
abbrev pub others : ℕ → ℕ → Music → List ℕ
others playlist track music =
    row_tracks (list_rows playlist music.tracks (without_link playlist track music.links))

-- The tables after a track was taken out of a playlist: it has no position, and the others stand at
-- 0, 1, 2, … in their order.
pub record Closed (playlist track : ℕ) (before after : Music) : Type 0 where
  pub gone : position_of playlist track after.links ≡ none
  pub closed_up :
      map (λ t. position_of playlist t after.links) (others playlist track before)
      ≡ map some (range_from 0 (length (others playlist track before)))

module _ (playlist track : ℕ) (music : Music) (keyed : Keyed playlist music.links)
    (spaced : Spaced playlist music.links) (few : length music.links ≤ 1000000) where
  remaining : List Link
  remaining = without_link playlist track music.links

  rows_left : List ℕ
  rows_left = row_tracks (list_rows playlist music.tracks remaining)
