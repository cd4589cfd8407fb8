-- ===== src/Playlists/Positions.antt =====
-- compactPlaylistPositions gives each track its index in the list, and meets no constraint.
use labaiacinghiala.Common.{
  ℕ, zero, suc, ◌+◌, ◌≤◌, ◌<◌, Bool, true, false, not, ◌||◌, Option, none, some, List, [], ◌∷◌, ◌≡◌,
  refl, arith, length, get_elem?, map, range_from, all, any, count, update_rows, ltb, leb, ◌==◌,
  if◌then◌else◌, ok, ap, ◌∙◌,
}
use labaiacinghiala.Playlists.{Link}
use labaiacinghiala.Playlists.Edits.{
  is_link, raised, at_position, in_the_way, set_position, set_positions, compact_playlist_positions,
}
use labaiacinghiala.Playlists.Offset.{Spaced, shifted, offset-total}

-- Where a track stands in a playlist.
abbrev pub position_of : ℕ → ℕ → List Link → Option ℕ
position_of playlist track [] = none
position_of playlist track (l ∷ links) =
    if is_link playlist track l then some l.position else position_of playlist track links

abbrev pub is_linked : ℕ → ℕ → List Link → Bool
is_linked playlist track links = any (is_link playlist track) links

-- The positions from `k` to a million are free.
abbrev Room : ℕ → ℕ → List Link → Type 0
Room playlist k links =
    all (λ (l : Link). not (l.playlist == playlist) || (ltb l.position k || leb 1000000 l.position))
      links
    ≡ true

Room-shifted : (playlist : ℕ) (links : List Link) → Room playlist 0 (shifted playlist links)
unfolding raised
Room-shifted playlist [] = refl
Room-shifted playlist (l ∷ links) = ground (arith, Room-shifted playlist links)

any-in_the_way :
    (playlist k track : ℕ) (links : List Link)
    → k < 1000000
    → Room playlist k links
    → any (in_the_way playlist k track) links ≡ false
unfolding in_the_way
any-in_the_way playlist k track [] h room = refl
any-in_the_way playlist k track (l ∷ links) h room =
    ground (arith, any-in_the_way playlist k track links h)

abbrev pub placed : ℕ → ℕ → ℕ → List Link → List Link
placed playlist k track links = update_rows (is_link playlist track) (at_position k) links

Room-placed :
    (playlist k track : ℕ) (links : List Link)
    → Room playlist k links
    → Room playlist (suc k) (placed playlist k track links)
unfolding is_link at_position
Room-placed playlist k track [] room = refl
Room-placed playlist k track (l ∷ links) room = ground (arith, Room-placed playlist k track links)

pub position_of-placed :
    (playlist k track : ℕ) (links : List Link)
    → is_linked playlist track links ≡ true
    → position_of playlist track (placed playlist k track links) ≡ some k
unfolding is_link at_position
position_of-placed playlist k track [] linked = cc
position_of-placed playlist k track (l ∷ links) linked =
    ground (arith, position_of-placed playlist k track links)

pub position_of-placed_other :
    (playlist k track other : ℕ) (links : List Link)
    → (track == other) ≡ false
    → position_of playlist other (placed playlist k track links) ≡ position_of playlist other links
unfolding is_link at_position
position_of-placed_other playlist k track other [] apart = refl
position_of-placed_other playlist k track other (l ∷ links) apart =
    ground (arith, position_of-placed_other playlist k track other links apart)

pub is_linked-placed :
    (playlist k track other : ℕ) (links : List Link)
    → is_linked playlist other (placed playlist k track links) ≡ is_linked playlist other links
unfolding is_link at_position
is_linked-placed playlist k track other [] = refl
is_linked-placed playlist k track other (l ∷ links) =
    ground (arith, is_linked-placed playlist k track other links)

pub is_linked-shifted :
    (playlist other : ℕ) (links : List Link)
    → is_linked playlist other (shifted playlist links) ≡ is_linked playlist other links
unfolding is_link raised
is_linked-shifted playlist other [] = refl
is_linked-shifted playlist other (l ∷ links) =
    ground (arith, is_linked-shifted playlist other links)

-- The links after the tracks `ids` got the positions from `k` on.
pub record Placed (playlist k : ℕ) (ids : List ℕ) (links : List Link) : Type 0 where
  pub result : List Link
  pub run_lem : set_positions playlist k ids links ≡ ok result
  pub indexed : (i t : ℕ) → get_elem? ids i ≡ some t → position_of playlist t result ≡ some (k + i)
  pub others :
      (t : ℕ) → count t ids ≡ 0 → position_of playlist t result ≡ position_of playlist t links

-- Each track at most once.
abbrev pub Distinct : List ℕ → Type 0
Distinct ids = (t : ℕ) → count t ids ≤ 1

-- Each track is in the playlist.
abbrev pub Linked : ℕ → List ℕ → List Link → Type 0
Linked playlist ids links = (t : ℕ) → 0 < count t ids → is_linked playlist t links ≡ true

pub count_self : (t : ℕ) (rest : List ℕ) → count t (t ∷ rest) ≡ suc (count t rest)
count_self t rest = ground arith

pub first_absent : (t : ℕ) (rest : List ℕ) → Distinct (t ∷ rest) → count t rest ≡ 0
first_absent t rest distinct = omega (arith, distinct t, count_self t rest)

pub rest-le : (t u : ℕ) (rest : List ℕ) → count u rest ≤ count u (t ∷ rest)
rest-le t u rest = omega arith

pub apart_count :
    (t u : ℕ) (rest : List ℕ) → count u (t ∷ rest) ≡ 0 → ((t == u) ≡ false) × (count u rest ≡ 0)
apart_count t u rest h = (ground arith, omega (arith, h))

pub indexed_from :
    (playlist k t : ℕ) (rest : List ℕ) (result : List Link)
    → position_of playlist t result ≡ some k
    → ((i u : ℕ) → get_elem? rest i ≡ some u → position_of playlist u result ≡ some (suc k + i))
    → (i u : ℕ) → get_elem? (t ∷ rest) i ≡ some u
    → position_of playlist u result ≡ some (k + i)
indexed_from playlist k t rest result first later zero u h =
    ap (λ v. position_of playlist v result) (ground (arith, h)) ∙ first ∙ ap some (omega arith)
indexed_from playlist k t rest result first later (suc i) u h = later i u h ∙ ap some (omega arith)

set_positions-Placed :
    (playlist k : ℕ) (ids : List ℕ) (links : List Link)
    → k + length ids ≤ 1000000
    → Room playlist k links
    → Distinct ids
    → Linked playlist ids links
    → Placed playlist k ids links
unfolding set_positions set_position
set_positions-Placed playlist k [] links fits room distinct linked = record {
  result = links;
  run_lem = refl;
  indexed = λ i t h. cc;
  others = λ t h. refl;
}
set_positions-Placed playlist k (t ∷ rest) links fits room distinct linked =
    let next =
      set_positions-Placed playlist (suc k) rest (placed playlist k t links) (omega (arith, fits))
        (Room-placed playlist k t links room) (λ u. omega (arith, distinct u, rest-le t u rest))
        (λ u h.
          is_linked-placed playlist k t u links ∙ linked u (omega (arith, h, rest-le t u rest))) in
    record {
      result = next.result;
      run_lem = rw (any-in_the_way playlist k t links (omega (arith, fits)) room) next.run_lem;
      indexed =
          indexed_from playlist k t rest next.result
            (next.others t (first_absent t rest distinct)
              ∙ position_of-placed playlist k t links (linked t (omega (arith, count_self t rest))))
            next.indexed;
      others = λ u h.
          let (apart, absent) = apart_count t u rest h in
          next.others u absent ∙ position_of-placed_other playlist k t u links apart;
    }

-- What compactPlaylistPositions leaves: each track of the list at its index, and no other moved into
-- a place of its own.
pub record Compacted (playlist : ℕ) (ids : List ℕ) (links : List Link) : Type 0 where
  pub result : List Link
  pub run_lem : compact_playlist_positions playlist ids links ≡ ok result
  pub indexed : (i t : ℕ) → get_elem? ids i ≡ some t → position_of playlist t result ≡ some i
  pub absent :
      (t : ℕ)
      → count t ids ≡ 0
      → is_linked playlist t links ≡ false
      → position_of playlist t result ≡ none

position_of-unlinked :
    (playlist t : ℕ) (links : List Link)
    → is_linked playlist t links ≡ false
    → position_of playlist t links ≡ none
position_of-unlinked playlist t [] h = refl
position_of-unlinked playlist t (l ∷ links) h =
    ground (arith, position_of-unlinked playlist t links)

-- Where the positions are distinct and below a million, a list of at most a million distinct tracks of
-- the playlist is written without meeting the UNIQUE
-- constraint on positions, and each track gets its index.
pub compact_playlist_positions-Compacted :
    (playlist : ℕ) (ids : List ℕ) (links : List Link)
    → Spaced playlist links
    → length ids ≤ 1000000
    → Distinct ids
    → Linked playlist ids links
    → Compacted playlist ids links
unfolding compact_playlist_positions
compact_playlist_positions-Compacted playlist ids links spaced fits distinct linked =
    let p =
      set_positions-Placed playlist 0 ids (shifted playlist links) (omega (arith, fits))
        (Room-shifted playlist links) distinct
        (λ t h. is_linked-shifted playlist t links ∙ linked t h) in
    record {
      result = p.result;
      run_lem = rw (offset-total playlist links spaced) p.run_lem;
      indexed = λ i t h. p.indexed i t h ∙ ap some (omega arith);
      absent = λ t none_of alone.
          p.others t none_of
          ∙ position_of-unlinked playlist t (shifted playlist links)
              (is_linked-shifted playlist t links ∙ alone);
    }

-- A list whose i-th element is sent to k + i is sent to k, k + 1, ….
map_indexed :
    {A : Type 0} (f : A → Option ℕ) (k : ℕ) (xs : List A)
    → ((i : ℕ) (a : A) → get_elem? xs i ≡ some a → f a ≡ some (k + i))
    → map f xs ≡ map some (range_from k (length xs))
map_indexed f k [] h = refl
map_indexed f k (x ∷ xs) h =
    let first : f x ≡ some k = h 0 x refl ∙ ap some (omega arith) in
    rw first (
      ap (λ rest. some k ∷ rest)
        (map_indexed f (suc k) xs (λ i a e. h (suc i) a e ∙ ap some (omega arith))))

pub map_indexed_zero :
    {A : Type 0} (f : A → Option ℕ) (xs : List A)
    → ((i : ℕ) (a : A) → get_elem? xs i ≡ some a → f a ≡ some i)
    → map f xs ≡ map some (range_from 0 (length xs))
map_indexed_zero f xs h = map_indexed f 0 xs (λ i a e. h i a e ∙ ap some (omega arith))
