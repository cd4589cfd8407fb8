-- ===== src/Playlists/Compaction.antt =====
-- Where compactPlaylistPositions succeeds, it leaves no gaps, and changes no more than positions.
use labaiacinghiala.Common.{
  ℕ, suc, ◌+◌, Bool, true, false, some, List, [], ◌∷◌, ◌≡◌, refl, inl, inr, arith, length,
  get_elem?, any, all, update_rows, count_rows-update_rows, Returns, Returns-weaken, Returns->>=,
  Returns-ok, subst, count, count_rows, ◌==◌, Bool-cases, ap, ◌∙◌, get_elem?-total,
}
use labaiacinghiala.Playlists.{Link}
use labaiacinghiala.Playlists.Edits.{
  is_link, raised, in_the_way, offset, at_position, set_position, set_positions,
  compact_playlist_positions,
}
use labaiacinghiala.Playlists.Positions.{
  Distinct, Linked, position_of, placed, position_of-placed, position_of-placed_other,
  is_linked-placed, is_linked-shifted, first_absent, count_self, rest-le, apart_count, indexed_from,
}
use labaiacinghiala.Playlists.Dense.{is_of, Dense, Taken-Dense, position_of-stands}
use labaiacinghiala.Playlists.Offset.{stands, shifted, offset-shifted}

-- Only positions of one playlist changed.
pub record Moved (playlist : ℕ) (before after : List Link) : Type 0 where
  pub rows : (p t : ℕ) → count_rows (is_link p t) after ≡ count_rows (is_link p t) before
  pub sizes : (p : ℕ) → count_rows (is_of p) after ≡ count_rows (is_of p) before
  pub tracks :
      (f : ℕ → Bool) → all (λ (l : Link). f l.track) after ≡ all (λ (l : Link). f l.track) before
  pub elsewhere :
      (p k : ℕ)
      → (p == playlist) ≡ false
      → count_rows (stands p k) after ≡ count_rows (stands p k) before

Moved-trans :
    (playlist : ℕ) (a b c : List Link)
    → Moved playlist a b
    → Moved playlist b c
    → Moved playlist a c
Moved-trans playlist a b c f g = record {
  rows = λ p t. g.rows p t ∙ f.rows p t;
  sizes = λ p. g.sizes p ∙ f.sizes p;
  tracks = λ h. g.tracks h ∙ f.tracks h;
  elsewhere = λ p k apart. g.elsewhere p k apart ∙ f.elsewhere p k apart;
}

-- An UPDATE of the links of one playlist that keeps playlists and tracks.
module _ (playlist : ℕ) (q : Link → Bool) (change : Link → Link)
    (only : (l : Link) → q l ≡ true → (l.playlist == playlist) ≡ true)
    (same_playlist : (l : Link) → (change l).playlist ≡ l.playlist)
    (same_track : (l : Link) → (change l).track ≡ l.track) where
  update-elsewhere :
      (p k : ℕ) (links : List Link)
      → (p == playlist) ≡ false
      → count_rows (stands p k) (update_rows q change links) ≡ count_rows (stands p k) links
  update-elsewhere p k [] apart = refl
  update-elsewhere p k (l ∷ links) apart =
      ground (arith, only l, same_playlist l, update-elsewhere p k links apart)

  update-all :
      (f : ℕ → Bool) (links : List Link)
      → all (λ (l : Link). f l.track) (update_rows q change links)
        ≡ all (λ (l : Link). f l.track) links
  update-all f [] = refl
  update-all f (l ∷ links) = ground (arith, ap f (same_track l), update-all f links)

  update-Moved : (links : List Link) → Moved playlist links (update_rows q change links)
  unfolding is_link
  update-Moved links = record {
    rows = λ p t.
        count_rows-update_rows (is_link p t) q change (λ l. cc (same_playlist l, same_track l))
          links;
    sizes = λ p. count_rows-update_rows (is_of p) q change (λ l. cc (same_playlist l)) links;
    tracks = λ f. update-all f links;
    elsewhere = λ p k apart. update-elsewhere p k links apart;
  }

raised_rows :
    (playlist : ℕ) (links : List Link)
    → update_rows (is_of playlist) (λ l. record l { position = l.position + 1000000 }) links
      ≡ shifted playlist links
unfolding raised
raised_rows playlist [] = refl
raised_rows playlist (l ∷ links) =
    ap (λ rest. raised playlist l ∷ rest) (raised_rows playlist links)

shifted-Moved : (playlist : ℕ) (links : List Link) → Moved playlist links (shifted playlist links)
shifted-Moved playlist links = subst (Moved playlist links) (raised_rows playlist links) (
    update-Moved playlist (is_of playlist) (λ l. record l { position = l.position + 1000000 })
      (λ l h. h) (λ l. refl) (λ l. refl) links)

placed-Moved :
    (playlist n t : ℕ) (links : List Link) → Moved playlist links (placed playlist n t links)
unfolding is_link at_position
placed-Moved playlist n t links =
    update-Moved playlist (is_link playlist t) (at_position n) (λ l h. ground (arith, h))
      (λ l. refl) (λ l. refl) links

-- What set_positions did to the links when it met no constraint.
record Written (playlist k : ℕ) (ids : List ℕ) (links result : List Link) : Type 0 where
  indexed : (i t : ℕ) → get_elem? ids i ≡ some t → position_of playlist t result ≡ some (k + i)
  others : (t : ℕ) → count t ids ≡ 0 → position_of playlist t result ≡ position_of playlist t links
  moved : Moved playlist links result

Moved-refl : (playlist : ℕ) (links : List Link) → Moved playlist links links
Moved-refl playlist links = record {
  rows = λ p t. refl;
  sizes = λ p. refl;
  tracks = λ f. refl;
  elsewhere = λ p k apart. refl;
}

set_positions-Written :
    (playlist k : ℕ) (ids : List ℕ) (links : List Link)
    → Distinct ids
    → Linked playlist ids links
    → Returns (Written playlist k ids links) (set_positions playlist k ids links)
unfolding set_positions set_position
set_positions-Written playlist k [] links distinct linked = record {
  indexed = λ i t h. cc;
  others = λ t h. refl;
  moved = Moved-refl playlist links;
}
set_positions-Written playlist k (t ∷ rest) links distinct linked =
    elim (Bool-cases (any (in_the_way playlist k t) links)) [
      | inl blocked ↦ rw blocked tt
      | inr free ↦
          let links2 = placed playlist k t links in
          rw free (
            Returns-weaken (Written playlist (suc k) rest links2)
              (Written playlist k (t ∷ rest) links) (set_positions playlist (suc k) rest links2)
              (λ result w. record {
                indexed =
                    indexed_from playlist k t rest result
                      (w.others t (first_absent t rest distinct)
                        ∙ position_of-placed playlist k t links
                            (linked t (omega (arith, count_self t rest))))
                      w.indexed;
                others = λ u h.
                    let (apart, absent) = apart_count t u rest h in
                    w.others u absent ∙ position_of-placed_other playlist k t u links apart;
                moved =
                    Moved-trans playlist links links2 result (placed-Moved playlist k t links)
                      w.moved;
              })
              (set_positions-Written playlist (suc k) rest links2
                (λ u. omega (arith, distinct u, rest-le t u rest))
                λ u h.
                  is_linked-placed playlist k t u links
                  ∙ linked u (omega (arith, h, rest-le t u rest))))
    ]

-- Where compactPlaylistPositions succeeds with all tracks of a playlist, its positions have no gaps.
pub record Compact (playlist : ℕ) (links result : List Link) : Type 0 where
  pub dense : Dense playlist result
  pub moved : Moved playlist links result

pub compact_playlist_positions-Compact :
    (playlist : ℕ) (ids : List ℕ) (links : List Link)
    → length ids ≡ count_rows (is_of playlist) links
    → Distinct ids
    → Linked playlist ids links
    → Returns (Compact playlist links) (compact_playlist_positions playlist ids links)
unfolding compact_playlist_positions
compact_playlist_positions-Compact playlist ids links whole distinct linked =
    Returns->>= (Compact playlist links) (offset playlist links) (set_positions playlist 0 ids)
      λ raised_links e.
        let same : raised_links ≡ shifted playlist links =
          Returns-ok (λ r. r ≡ shifted playlist links) (offset playlist links)
            (offset-shifted playlist links) e in
        rw same (
          Returns-weaken (Written playlist 0 ids (shifted playlist links)) (Compact playlist links)
            (set_positions playlist 0 ids (shifted playlist links))
            (λ result w.
              let moved =
                Moved-trans playlist links (shifted playlist links) result
                  (shifted-Moved playlist links) w.moved in
              record {
                dense = Taken-Dense playlist result λ i h.
                    let (t, at) =
                      get_elem?-total ids i (omega (arith, h, whole, moved.sizes playlist)) in
                    position_of-stands playlist t i result
                      (w.indexed i t at ∙ ap some (omega arith));
                moved = moved;
              })
            (set_positions-Written playlist 0 ids (shifted playlist links) distinct
              λ t h. is_linked-shifted playlist t links ∙ linked t h))
