-- ===== src/Player/Uniqueness.antt =====
-- Track ids in the queue: the lists that setQueue, appendTracks, moveTrack and removeTrack build
-- hold each id at most once.
use labaiacinghiala.Common.{
  ℕ, zero, suc, ◌+◌, ◌<◌, ◌≤◌, Bool, true, false, Option, none, some, List, [], ◌∷◌, ◌++◌, ◌≡◌,
  refl, ◌∙◌, ap, sym, inl, inr, arith, Text, text_eq_iff, contains, length, get_elem?, remove_at,
  insert_at, count, range_from, ◌==◌, if◌then◌else◌, Bool-cases, Option-cases, find_index,
  length-append,
}
use labaiacinghiala.Player.Tracks.{RawTrack, Track, normalize_track}
use labaiacinghiala.Player.{collect, has_id}
use labaiacinghiala.Player.Edits.{ordered, splice_move}
use labaiacinghiala.Player.Order.{IsOrder, range_from-IsOrder}
use mathlib.Core.List.{append_assoc}

abbrev pub bit : Bool → ℕ
bit true = 1
bit false = 0

-- How many tracks have this id.
unfoldable pub id_count : Text → List Track → ℕ
unfolding has_id
id_count id [] = 0
id_count id (t ∷ ts) = bit (has_id id t) + id_count id ts

abbrev pub IsUnique : List Track → Type 0
IsUnique queue = (id : Text) → id_count id queue ≤ 1

pub id_count-collect :
    (id : Text) (seen : List Text) (values : List (Option RawTrack))
    → id_count id (collect seen values) ≤ (if contains seen id then 0 else 1)
unfolding id_count collect has_id contains
id_count-collect id seen [] = ground arith
id_count-collect id seen (v ∷ rest) = elim (Option-cases (normalize_track v)) [
  | inl e ↦ rw (e, collect) (id_count-collect id seen rest)
  | inr (t, e) ↦ elim (Bool-cases (contains seen t.track_id)) [
    | inl old ↦ rw (e, old, collect) (id_count-collect id seen rest)
    | inr new ↦
        rw (e, new, collect)
          (ground (arith, text_eq_iff t.track_id id, id_count-collect id (t.track_id ∷ seen) rest))
  ]
]

pub id_count-append :
    (id : Text) (xs ys : List Track) → id_count id (xs ++ ys) ≡ id_count id xs + id_count id ys
unfolding id_count
id_count-append id [] ys = omega arith
id_count-append id (x ∷ xs) ys = omega (arith, id_count-append id xs ys)

pub id_count-remove_at :
    (id : Text) (i : ℕ) (xs : List Track) {t : Track}
    → get_elem? xs i ≡ some t
    → id_count id xs ≡ bit (has_id id t) + id_count id (remove_at i xs)
unfolding id_count
id_count-remove_at id i [] h = absurd (cc)
id_count-remove_at id zero (x ∷ xs) h = ground arith
id_count-remove_at id (suc i) (x ∷ xs) h = omega (arith, id_count-remove_at id i xs h)

pub id_count-insert_at :
    (id : Text) (i : ℕ) (t : Track) (xs : List Track)
    → id_count id (insert_at i t xs) ≡ bit (has_id id t) + id_count id xs
unfolding id_count
id_count-insert_at id zero t xs = refl
id_count-insert_at id (suc i) t [] = refl
id_count-insert_at id (suc i) t (x ∷ xs) = omega (arith, id_count-insert_at id i t xs)

-- The two splices of moveTrack keep every track.
pub id_count-splice_move :
    (id : Text) (source target : ℕ) (xs : List Track)
    → id_count id (splice_move source target xs) ≡ id_count id xs
unfolding splice_move
id_count-splice_move id source target xs = elim (Option-cases (get_elem? xs source)) [
  | inl e ↦ rw (e, splice_move)
  | inr (t, e) ↦
      rw (e, splice_move)
        (id_count-insert_at id target t (remove_at source xs)
          ∙ sym (id_count-remove_at id source xs e))
]

-- The sum of a weight over a list depends on how often each number stands in it.
sum_of : (ℕ → ℕ) → List ℕ → ℕ
sum_of f [] = 0
sum_of f (x ∷ xs) = f x + sum_of f xs

erase : ℕ → List ℕ → List ℕ
erase a [] = []
erase a (x ∷ xs) = if x == a then xs else x ∷ erase a xs

count-erase :
    (a b : ℕ) (xs : List ℕ)
    → 0 < count a xs
    → count b (erase a xs) + (if a == b then 1 else 0) ≡ count b xs
unfolding erase
count-erase a b [] h = absurd (omega arith)
count-erase a b (x ∷ xs) h = ground (arith, count-erase a b xs)

sum_of-erase :
    (f : ℕ → ℕ) (a : ℕ) (xs : List ℕ) → 0 < count a xs → f a + sum_of f (erase a xs) ≡ sum_of f xs
unfolding erase sum_of
sum_of-erase f a [] h = absurd (omega arith)
sum_of-erase f a (x ∷ xs) h = ground (arith, sum_of-erase f a xs)

sum_of-nil : (f : ℕ → ℕ) (xs : List ℕ) → ((a : ℕ) → count a xs ≡ 0) → sum_of f xs ≡ 0
unfolding sum_of
sum_of-nil f [] h = refl
sum_of-nil f (x ∷ xs) h = absurd (ground (arith, h x))

sum_of-same :
    (f : ℕ → ℕ) (xs ys : List ℕ) → ((a : ℕ) → count a xs ≡ count a ys) → sum_of f xs ≡ sum_of f ys
unfolding sum_of
sum_of-same f [] ys h = sym (sum_of-nil f ys (λ a. sym (h a)))
sum_of-same f (x ∷ xs) ys h =
    let held : 0 < count x ys = ground (arith, h x) in
    let rest = sum_of-same f xs (erase x ys) (λ a. ground (arith, h a, count-erase x a ys held)) in
    omega (arith, rest, sum_of-erase f x ys held)

-- The weight of an index: whether the track there has the id.
weight : List Track → Text → ℕ → ℕ
unfolding has_id
weight queue id i = elim (get_elem? queue i) [ none ↦ 0 | some t ↦ bit (has_id id t) ]

id_count-ordered-sum :
    (id : Text) (queue : List Track) (order : List ℕ)
    → id_count id (ordered queue order) ≡ sum_of (weight queue id) order
unfolding id_count ordered sum_of weight
id_count-ordered-sum id queue [] = refl
id_count-ordered-sum id queue (i ∷ order) = ground (arith, id_count-ordered-sum id queue order)

get_elem?-middle :
    (pre rest : List Track) (t : Track) → get_elem? (pre ++ t ∷ rest) (length pre) ≡ some t
get_elem?-middle [] rest t = refl
get_elem?-middle (x ∷ pre) rest t = get_elem?-middle pre rest t

ordered-natural_from :
    (pre rest : List Track) → ordered (pre ++ rest) (range_from (length pre) (length rest)) ≡ rest
unfolding ordered
ordered-natural_from pre [] = refl
ordered-natural_from pre (t ∷ rest) =
    let snoc : length (pre ++ t ∷ []) ≡ suc (length pre) =
      omega (arith, length-append pre (t ∷ [])) in
    let tail = ordered-natural_from (pre ++ t ∷ []) rest in
    rw (get_elem?-middle pre rest t, ordered) (ap (λ l. t ∷ l) (rw (snoc, append_assoc) at tail))

-- In the natural order the tracks are the queue.
pub ordered-natural : (queue : List Track) → ordered queue (range_from 0 (length queue)) ≡ queue
ordered-natural queue = ordered-natural_from [] queue

-- In any playing order the tracks are those of the queue.
pub id_count-ordered :
    (id : Text) (queue : List Track) (order : List ℕ)
    → IsOrder (length queue) order
    → id_count id (ordered queue order) ≡ id_count id queue
id_count-ordered id queue order h =
    id_count-ordered-sum id queue order
    ∙ sum_of-same (weight queue id) order (range_from 0 (length queue))
        (λ a. h a ∙ sym (range_from-IsOrder (length queue) a))
    ∙ sym (id_count-ordered-sum id queue (range_from 0 (length queue)))
    ∙ ap (id_count id) (ordered-natural queue)

pub find_index-none :
    (id : Text) (xs : List Track) → find_index (has_id id) xs ≡ none → id_count id xs ≡ 0
unfolding id_count
find_index-none id [] h = refl
find_index-none id (x ∷ xs) h = ground (arith, find_index-none id xs)
