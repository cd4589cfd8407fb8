-- ===== src/Playlists/Deletions.antt =====
-- DELETE of rows of music_playlist_tracks: what it leaves in order.
use labaiacinghiala.Common.{
  ℕ, Bool, true, false, not, List, [], ◌∷◌, ◌≡◌, refl, arith, count_rows, count_rows-keep, ◌==◌,
  keep,
}
use labaiacinghiala.Playlists.{Link, Track}
use labaiacinghiala.Playlists.Edits.{is_link}
use labaiacinghiala.Playlists.Rows.{Keyed}
use labaiacinghiala.Playlists.Dense.{is_of, Dense}
use labaiacinghiala.Playlists.Offset.{stands}
use labaiacinghiala.Playlists.Ordered.{Known, Dense-elsewhere}

-- A DELETE of links of one playlist.
module _ (playlist : ℕ) (gone : Link → Bool)
    (only : (l : Link) → gone l ≡ true → (l.playlist == playlist) ≡ true) where
  abbrev pub left : List Link → List Link
  left links = keep (λ l. not (gone l)) links

  pub left-Keyed : (p : ℕ) (links : List Link) → Keyed p links → Keyed p (left links)
  left-Keyed p links keyed t =
      omega (arith, keyed t, count_rows-keep (is_link p t) (λ l. not (gone l)) links)

  pub left-Known :
      (tracks : List Track) (links : List Link) → Known tracks links → Known tracks (left links)
  left-Known tracks [] known = refl
  left-Known tracks (l ∷ links) known = ground (arith, left-Known tracks links)

  left-elsewhere :
      (p k : ℕ) (links : List Link)
      → (p == playlist) ≡ false
      → (count_rows (stands p k) (left links) ≡ count_rows (stands p k) links)
        × (count_rows (is_of p) (left links) ≡ count_rows (is_of p) links)
  left-elsewhere p k [] apart = (refl, refl)
  left-elsewhere p k (l ∷ links) apart =
      let (standing, size) = left-elsewhere p k links apart in
      (ground (arith, only l, standing), ground (arith, only l, size))

  pub left-Dense :
      (p : ℕ) (links : List Link) → (p == playlist) ≡ false → Dense p links → Dense p (left links)
  left-Dense p links apart =
      Dense-elsewhere p playlist links (left links) (left-elsewhere p 0 links apart).1
        (λ k. (left-elsewhere p k links apart).0)

none_left :
    (p k : ℕ) (links : List Link)
    → (count_rows (stands p k) (keep (λ l. not (is_of p l)) links) ≡ 0)
      × (count_rows (is_of p) (keep (λ l. not (is_of p l)) links) ≡ 0)
none_left p k [] = (refl, refl)
none_left p k (l ∷ links) =
    let (standing, size) = none_left p k links in (ground (arith, standing), ground (arith, size))

pub none_left-Dense : (p : ℕ) (links : List Link) → Dense p (keep (λ l. not (is_of p l)) links)
none_left-Dense p links k =
    let (standing, size) = none_left p k links in ground (arith, standing, size)
