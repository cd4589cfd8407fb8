-- ===== src/Playlists/Offset.antt =====
-- offsetPlaylistPositions: where it succeeds it moves all positions of a playlist a million further,
-- and it succeeds where the positions are distinct and below a million.
use labaiacinghiala.Common.{
  ℕ, ◌+◌, ◌≤◌, Bool, false, ◌&&◌, List, [], ◌∷◌, ◌++◌, ◌≡◌, refl, inl, inr, arith, any, count_rows,
  count_rows-append, ltb, ◌==◌, if◌then◌else◌, Bool-cases, ok, Returns, ap, sym, ◌∙◌,
}
use labaiacinghiala.Playlists.{Link}
use labaiacinghiala.Playlists.Edits.{raised, offset_rows, offset, in_the_way}

abbrev pub stands : ℕ → ℕ → Link → Bool
stands playlist k l = l.playlist == playlist && l.position == k

-- The positions of a playlist are distinct, as UNIQUE (playlist_id, position) has it, and below a
-- million.
abbrev pub Spaced : ℕ → List Link → Type 0
Spaced playlist links =
    (k : ℕ) → count_rows (stands playlist k) links ≤ (if ltb k 1000000 then 1 else 0)

-- All links of a playlist a million further.
abbrev pub shifted : ℕ → List Link → List Link
shifted playlist [] = []
shifted playlist (l ∷ links) = raised playlist l ∷ shifted playlist links

append_nil : (links : List Link) → links ++ [] ≡ links
append_nil [] = refl
append_nil (l ∷ links) = ap (λ rest. l ∷ rest) (append_nil links)

append_cons :
    (before : List Link) (l : Link) (rest : List Link)
    → (before ++ l ∷ []) ++ rest ≡ before ++ l ∷ rest
append_cons [] l rest = refl
append_cons (m ∷ before) l rest = ap (λ others. m ∷ others) (append_cons before l rest)

offset_rows-shifted :
    (playlist : ℕ) (before rest : List Link)
    → Returns (λ r. r ≡ before ++ shifted playlist rest) (offset_rows playlist before rest)
unfolding offset_rows
offset_rows-shifted playlist before [] = sym (append_nil before)
offset_rows-shifted playlist before (l ∷ rest) =
    elim (Bool-cases (
      l.playlist == playlist
      && any (in_the_way playlist (l.position + 1000000) l.track) (before ++ rest))) [
        | inl blocked ↦ rw blocked tt
        | inr free ↦
            rw (free, sym (append_cons before (raised playlist l) (shifted playlist rest)))
              (offset_rows-shifted playlist (before ++ raised playlist l ∷ []) rest)
      ]

pub offset-shifted :
    (playlist : ℕ) (links : List Link)
    → Returns (λ r. r ≡ shifted playlist links) (offset playlist links)
unfolding offset
offset-shifted playlist links = offset_rows-shifted playlist [] links

nothing_in_the_way :
    (playlist k track : ℕ) (links : List Link)
    → count_rows (stands playlist k) links ≡ 0
    → any (in_the_way playlist k track) links ≡ false
unfolding in_the_way
nothing_in_the_way playlist k track [] h = refl
nothing_in_the_way playlist k track (l ∷ links) h =
    ground (arith, nothing_in_the_way playlist k track links)

-- The rows that are written and those that are left never meet.
abbrev Free : ℕ → List Link → List Link → Type 0
Free playlist before rest =
    (k : ℕ)
    → count_rows (stands playlist (k + 1000000)) before + count_rows (stands playlist k) rest
      ≤ (if ltb k 1000000 then 1 else 0)

Free-next :
    (playlist : ℕ) (before : List Link) (l : Link) (rest : List Link)
    → Free playlist before (l ∷ rest)
    → Free playlist (before ++ raised playlist l ∷ []) rest
unfolding raised
Free-next playlist before l rest free k = ground (
  arith,
  free k,
  count_rows-append (stands playlist (k + 1000000)) before (raised playlist l ∷ []),
)

Free-way :
    (playlist : ℕ) (before : List Link) (l : Link) (rest : List Link)
    → Free playlist before (l ∷ rest)
    → (l.playlist == playlist
        && any (in_the_way playlist (l.position + 1000000) l.track) (before ++ rest))
      ≡ false
Free-way playlist before l rest free = elim (Bool-cases (l.playlist == playlist)) [
  | inr other ↦ rw other refl
  | inl of ↦
      let here = free l.position in
      let there = free (l.position + 1000000) in
      let both = count_rows-append (stands playlist (l.position + 1000000)) before rest in
      rw of (
        nothing_in_the_way playlist (l.position + 1000000) l.track (before ++ rest)
          (ground (arith, of, here, there, both)))
]

offset_rows-total :
    (playlist : ℕ) (before rest : List Link)
    → Free playlist before rest
    → offset_rows playlist before rest ≡ ok (before ++ shifted playlist rest)
unfolding offset_rows
offset_rows-total playlist before [] free = ap ok (sym (append_nil before))
offset_rows-total playlist before (l ∷ rest) free = rw (Free-way playlist before l rest free) (
    offset_rows-total playlist (before ++ raised playlist l ∷ []) rest
      (Free-next playlist before l rest free)
    ∙ ap ok (append_cons before (raised playlist l) (shifted playlist rest)))

pub offset-total :
    (playlist : ℕ) (links : List Link)
    → Spaced playlist links
    → offset playlist links ≡ ok (shifted playlist links)
unfolding offset
offset-total playlist links spaced =
    offset_rows-total playlist [] links (λ k. ground (arith, spaced k))
