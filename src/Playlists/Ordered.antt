-- ===== src/Playlists/Ordered.antt =====
-- Tables whose playlists are in order, and what compactPlaylistPositions and the insertion of tracks
-- make of them.
use labaiacinghiala.Common.{
  ℕ, Bool, true, false, List, ◌≡◌, inl, inr, arith, any, all, count_rows, ltb, ◌==◌, if◌then◌else◌,
  Bool-cases, ap, sym, ◌∙◌, subst, ==_iff,
}
use labaiacinghiala.Playlists.{Link, Track}
use labaiacinghiala.Playlists.Edits.{has_track_id}
use labaiacinghiala.Playlists.Rows.{Keyed}
use labaiacinghiala.Playlists.Dense.{is_of, Dense}
use labaiacinghiala.Playlists.Offset.{stands}
use labaiacinghiala.Playlists.Compaction.{Compact}

-- A foreign key of music_playlist_tracks.
abbrev pub is_track_of : List Track → ℕ → Bool
is_track_of tracks t = any (has_track_id t) tracks

abbrev pub Known : List Track → List Link → Type 0
Known tracks links = all (λ (l : Link). is_track_of tracks l.track) links ≡ true

-- Each track at most once in each playlist, each in the table of tracks, and the positions of each
-- playlist without gaps.
pub record Ordered (tracks : List Track) (links : List Link) : Type 0 where
  pub keyed : (p : ℕ) → Keyed p links
  pub known : all (λ (l : Link). is_track_of tracks l.track) links ≡ true
  pub dense : (p : ℕ) → Dense p links

pub Dense-elsewhere :
    (p playlist : ℕ) (links result : List Link)
    → count_rows (is_of p) result ≡ count_rows (is_of p) links
    → ((k : ℕ) → count_rows (stands p k) result ≡ count_rows (stands p k) links)
    → Dense p links
    → Dense p result
Dense-elsewhere p playlist links result size same dense k =
    same k ∙ dense k ∙ ap (λ n. if ltb k n then 1 else 0) (sym size)

-- Compacting one playlist where the others are in order.
pub compact-Ordered :
    (playlist : ℕ) (tracks : List Track) (links result : List Link)
    → ((p : ℕ) → Keyed p links)
    → all (λ (l : Link). is_track_of tracks l.track) links ≡ true
    → ((p : ℕ) → (p == playlist) ≡ false → Dense p links)
    → Compact playlist links result
    → Ordered tracks result
compact-Ordered playlist tracks links result keyed known dense c = record {
  keyed = λ p t. omega (arith, c.moved.rows p t, keyed p t);
  known = c.moved.tracks (is_track_of tracks) ∙ known;
  dense = λ p. elim (Bool-cases (p == playlist)) [
    | inl same ↦ subst (λ q. Dense q result) (sym ((==_iff p playlist).0 same)) c.dense
    | inr apart ↦
        Dense-elsewhere p playlist links result (c.moved.sizes p) (λ k. c.moved.elsewhere p k apart)
          (dense p apart)
  ];
}
