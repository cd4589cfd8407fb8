-- ===== src/Playlists/Dense.antt =====
-- The positions of a playlist without gaps, counted, and what compactPlaylistPositions makes of them.
use labaiacinghiala.Common.{
  ==_iff, ℕ, zero, suc, ◌+◌, ◌≤◌, ◌<◌, Bool, ◌&&◌, some, List, [], ◌∷◌, ◌≡◌, refl, inl, inr, arith,
  count_rows, ltb, ◌==◌, if◌then◌else◌, Bool-cases, ap,
}
use labaiacinghiala.Playlists.{Link}
use labaiacinghiala.Playlists.Edits.{is_link}
use labaiacinghiala.Playlists.Offset.{stands}
use labaiacinghiala.Playlists.Positions.{position_of}

abbrev pub is_of : ℕ → Link → Bool
is_of playlist l = l.playlist == playlist

-- The positions of a playlist's n links are 0, …, n - 1, each once.
abbrev pub Dense : ℕ → List Link → Type 0
Dense playlist links =
    (k : ℕ)
    → count_rows (stands playlist k) links
      ≡ (if ltb k (count_rows (is_of playlist) links) then 1 else 0)

abbrev below : ℕ → ℕ → Link → Bool
below playlist n l = l.playlist == playlist && ltb l.position n

below-suc :
    (playlist n : ℕ) (links : List Link)
    → count_rows (below playlist (suc n)) links
      ≡ count_rows (below playlist n) links + count_rows (stands playlist n) links
below-suc playlist n [] = refl
below-suc playlist n (l ∷ links) = ground (arith, below-suc playlist n links)

below-le :
    (playlist n m : ℕ) (links : List Link)
    → n ≤ m
    → count_rows (below playlist n) links + count_rows (stands playlist m) links
      ≤ count_rows (is_of playlist) links
below-le playlist n m [] h = omega arith
below-le playlist n m (l ∷ links) h = ground (arith, below-le playlist n m links)

module _ (playlist : ℕ) (links : List Link) where
  -- Each of the first n positions is taken.
  abbrev Taken : ℕ → Type 0
  Taken n = (i : ℕ) → i < n → 0 < count_rows (stands playlist i) links

  below-Taken : (n : ℕ) → Taken n → n ≤ count_rows (below playlist n) links
  below-Taken zero taken = omega arith
  below-Taken (suc n) taken = omega (
    arith,
    below-suc playlist n links,
    below-Taken n (λ i h. taken i (omega (arith, h))),
    taken n (omega arith),
  )

  Taken-once :
      (n j : ℕ)
      → Taken n
      → j < n
      → n + count_rows (stands playlist j) links ≤ count_rows (below playlist n) links + 1
  Taken-once zero j taken h = elim h [ ]
  Taken-once (suc n) j taken h = elim (Bool-cases (j == n)) [
    | inl last ↦
        let same : j ≡ n = (==_iff j n).0 last in
        omega (
          arith,
          below-suc playlist n links,
          below-Taken n (λ i h. taken i (omega (arith, h))),
          ap (λ i. count_rows (stands playlist i) links) same,
        )
    | inr before ↦ omega (
      arith,
      below-suc playlist n links,
      Taken-once n j (λ i h. taken i (omega (arith, h))) (ground (arith, h, before)),
      taken n (omega arith),
    )
  ]

  pub Taken-Dense : Taken (count_rows (is_of playlist) links) → Dense playlist links
  Taken-Dense taken k = elim (Bool-cases (ltb k (count_rows (is_of playlist) links))) [
    | inl inside ↦ rw inside (
        omega (
          arith,
          taken k (ground (arith, inside)),
          Taken-once (count_rows (is_of playlist) links) k taken (ground (arith, inside)),
          below-le playlist (count_rows (is_of playlist) links) (count_rows (is_of playlist) links)
              links (omega arith),
        ))
    | inr outside ↦ rw outside (
        omega (
          arith,
          below-Taken (count_rows (is_of playlist) links) taken,
          below-le playlist (count_rows (is_of playlist) links) k links (ground (arith, outside)),
        ))
  ]

pub position_of-stands :
    (playlist t k : ℕ) (links : List Link)
    → position_of playlist t links ≡ some k
    → 0 < count_rows (stands playlist k) links
unfolding is_link
position_of-stands playlist t k [] h = cc
position_of-stands playlist t k (l ∷ links) h = elim (Bool-cases (is_link playlist t l)) [
  | inl here ↦ ground (arith, here, h)
  | inr other ↦ omega (arith, position_of-stands playlist t k links (rw other at h))
]
