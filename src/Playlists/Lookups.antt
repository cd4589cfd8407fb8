-- ===== src/Playlists/Lookups.antt =====
-- The tracks that the ids of an order stand for: each is a row's, and none stands twice.
use labaiacinghiala.Common.{
  ==_iff, ℕ, zero, suc, ◌+◌, ◌≤◌, ◌<◌, Bool, true, false, Option, none, some, List, [], ◌∷◌, ◌≡◌,
  refl, inl, inr, arith, Text, text_eq, text_eq_iff, length, get_elem?, all, any, count, find,
  count_rows, ◌==◌, if◌then◌else◌, Bool-cases, ap, sym, ◌∙◌, subst,
}
use labaiacinghiala.Playlists.{Link, Track}
use labaiacinghiala.Playlists.Edits.{
  Row, has_track_id, insert_row, joined, list_rows, row_tracks, has_uuid, put_id, internal_ids,
}
use labaiacinghiala.Playlists.Ids.{Fresh}

-- Whether a track has a uuid.
pub names : Option Track → Text → Bool
names none uuid = false
names (some t) uuid = text_eq t.uuid uuid

abbrev pub named : List Track → ℕ → Text → Bool
named tracks t uuid = names (find (has_track_id t) tracks) uuid

abbrev pub known : List Track → List Row → Bool
known tracks rows = all (λ (r : Row). named tracks r.track r.uuid) rows

known-insert_row :
    (tracks : List Track) (r : Row) (rows : List Row)
    → known tracks (r ∷ rows) ≡ true
    → known tracks (insert_row r rows) ≡ true
unfolding insert_row
known-insert_row tracks r [] h = h
known-insert_row tracks r (q ∷ rest) h = ground (arith, known-insert_row tracks r rest)

known-joined :
    (tracks : List Track) (l : Link) (o : Option Track) (rows : List Row)
    → find (has_track_id l.track) tracks ≡ o
    → known tracks rows ≡ true
    → known tracks (joined l o rows) ≡ true
unfolding joined names
known-joined tracks l none rows e h = h
known-joined tracks l (some t) rows e h =
    known-insert_row tracks (record { track = l.track; uuid = t.uuid; position = l.position }) rows
      (rw (e, (text_eq_iff t.uuid t.uuid).1 refl) h)

pub known-list_rows :
    (playlist : ℕ) (tracks : List Track) (links : List Link)
    → known tracks (list_rows playlist tracks links) ≡ true
unfolding list_rows
known-list_rows playlist tracks [] = refl
known-list_rows playlist tracks (l ∷ links) = ground (
  arith,
  known-list_rows playlist tracks links,
  known-joined tracks l (find (has_track_id l.track) tracks) (list_rows playlist tracks links) refl,
)

-- The row that an id finds: of a track that has it, and one of the rows.
row_known :
    (tracks : List Track) (u : Text) (rows : List Row) {r : Row}
    → known tracks rows ≡ true
    → find (has_uuid u) rows ≡ some r
    → (named tracks r.track u ≡ true) × (0 < count r.track (row_tracks rows))
unfolding has_uuid
row_known tracks u [] h f = cc
row_known tracks u (q ∷ rest) {r} h f = elim (Bool-cases (has_uuid u q)) [
  | inl is ↦
      let same : q ≡ r = ground (arith, f, is) in
      let here : named tracks q.track q.uuid ≡ true = ground arith in
      subst (λ x. (named tracks x.track u ≡ true) × (0 < count x.track (row_tracks (q ∷ rest))))
        same (ap (named tracks q.track) (sym ((text_eq_iff q.uuid u).0 is)) ∙ here, ground arith)
  | inr other ↦
      let (has, counted) = row_known tracks u rest {r = r} (ground arith) (rw other at f) in
      (has, omega (arith, counted))
]

count-put_id :
    (t : ℕ) (o : Option Row) (ids : List ℕ)
    → count t (put_id o ids) ≡ count t (put_id o []) + count t ids
unfolding put_id
count-put_id t none ids = omega arith
count-put_id t (some r) ids = omega arith

put_id-le :
    (tracks : List Track) (rows : List Row) (t : ℕ) (u : Text) (o : Option Row)
    → known tracks rows ≡ true
    → find (has_uuid u) rows ≡ o
    → (count t (put_id o []) ≤ (if named tracks t u then 1 else 0))
      × (count t (put_id o []) ≤ count t (row_tracks rows))
unfolding put_id
put_id-le tracks rows t u none h found = (omega arith, omega arith)
put_id-le tracks rows t u (some r) h found =
    let (has, counted) = row_known tracks u rows {r = r} h found in
    elim (Bool-cases (r.track == t)) [
      | inl same ↦
          let e : r.track ≡ t = (==_iff r.track t).0 same in
          let has_t = subst (λ x. named tracks x u ≡ true) e has in
          let counted_t = subst (λ x. 0 < count x (row_tracks rows)) e counted in
          (ground (arith, same, has_t), ground (arith, counted_t, same))
      | inr apart ↦ (ground (arith, apart), ground (arith, apart))
    ]

pub internal-le :
    (tracks : List Track) (rows : List Row) (t : ℕ) (ids : List Text)
    → known tracks rows ≡ true
    → count t (internal_ids rows ids) ≤ count_rows (named tracks t) ids
unfolding internal_ids
internal-le tracks rows t [] h = omega arith
internal-le tracks rows t (u ∷ rest) h = omega (
  arith,
  count-put_id t (find (has_uuid u) rows) (internal_ids rows rest),
  (put_id-le tracks rows t u (find (has_uuid u) rows) h refl).0,
  internal-le tracks rows t rest h,
)

pub internal_member :
    (tracks : List Track) (rows : List Row) (t : ℕ) (ids : List Text)
    → known tracks rows ≡ true
    → 0 < count t (internal_ids rows ids)
    → 0 < count t (row_tracks rows)
unfolding internal_ids
internal_member tracks rows t [] h some_of = omega (arith, some_of)
internal_member tracks rows t (u ∷ rest) h some_of =
    elim (Bool-cases (count t (internal_ids rows rest) == 0)) [
      | inl no_rest ↦ omega (
        arith,
        some_of,
        count-put_id t (find (has_uuid u) rows) (internal_ids rows rest),
        (put_id-le tracks rows t u (find (has_uuid u) rows) h refl).1,
        (==_iff (count t (internal_ids rows rest)) 0).0 no_rest,
      )
      | inr later ↦ internal_member tracks rows t rest h (ground (arith, later))
    ]

no_names : (ids : List Text) → count_rows (names none) ids ≡ 0
unfolding names
no_names [] = refl
no_names (u ∷ rest) = omega (arith, no_names rest)

pub named_once : (o : Option Track) (ids : List Text) → Fresh [] ids → count_rows (names o) ids ≤ 1
unfolding names
named_once none ids fresh = omega (arith, no_names ids)
named_once (some t) ids fresh = omega (arith, fresh t.uuid)

pub find_total :
    (u : Text) (rows : List Row)
    → any (has_uuid u) rows ≡ true
    → (r : Row) × (find (has_uuid u) rows ≡ some r)
find_total u [] h = cc
find_total u (q ∷ rest) h = elim (Bool-cases (has_uuid u q)) [
  | inl is ↦ (q, rw is refl)
  | inr other ↦ let (r, found) = find_total u rest (rw other at h) in (r, rw other found)
]

put_at :
    (o : Option Row) (ids : List ℕ) (r : Row) (i : ℕ) {t : ℕ}
    → o ≡ some r
    → (get_elem? (put_id o ids) 0 ≡ some r.track)
      × (get_elem? ids i ≡ some t → get_elem? (put_id o ids) (suc i) ≡ some t)
unfolding put_id
put_at none ids r i e = cc
put_at (some q) ids r i e = (ap (λ (o : Option Row). get_elem? (put_id o ids) 0) e, λ h. h)

-- Each id has a row, and its track stands at the id's index.
pub internal_at :
    (rows : List Row) (ids : List Text) (i : ℕ) {u : Text}
    → all (λ id. any (has_uuid id) rows) ids ≡ true
    → get_elem? ids i ≡ some u
    → (r : Row) × (find (has_uuid u) rows ≡ some r)
      × (get_elem? (internal_ids rows ids) i ≡ some r.track)
unfolding internal_ids
internal_at rows [] i h e = cc
internal_at rows (v ∷ rest) zero {u} h e =
    let (r, found) = find_total v rows (ground arith) in
    let same : v ≡ u = ground (arith, e) in
    (
      r,
      ap (λ w. find (has_uuid w) rows) (sym same) ∙ found,
      (put_at (find (has_uuid v) rows) (internal_ids rows rest) r 0 {t = 0} found).0,
    )
internal_at rows (v ∷ rest) (suc i) {u} h e =
    let (first, first_found) = find_total v rows (ground arith) in
    let (r, found, at) = internal_at rows rest i {u = u} (ground arith) e in
    (
      r,
      found,
      (put_at (find (has_uuid v) rows) (internal_ids rows rest) first i {t = r.track} first_found).1
          at,
    )

length-put_id : (o : Option Row) (ids : List ℕ) → length (put_id o ids) ≤ suc (length ids)
unfolding put_id
length-put_id none ids = omega arith
length-put_id (some r) ids = omega arith

pub length-internal_ids :
    (rows : List Row) (ids : List Text) → length (internal_ids rows ids) ≤ length ids
unfolding internal_ids
length-internal_ids rows [] = omega arith
length-internal_ids rows (u ∷ rest) = omega (
  arith,
  length-internal_ids rows rest,
  length-put_id (find (has_uuid u) rows) (internal_ids rows rest),
)
