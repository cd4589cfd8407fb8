-- ===== src/Player/EditPreservation.antt =====
-- appendTracks, moveTrack and removeTrack keep a player valid.
use mathlib.Core.List.{append_assoc, append-nil}
use native.Mathlib.Numerals.{add-one}
use labaiacinghiala.Common.{
  ℕ, zero, suc, ◌+◌, ◌-◌, ◌<◌, false, not, Option, none, some, List, [], ◌∷◌, ◌++◌, ◌≡◌, refl, ◌∙◌,
  sym, inl, inr, arith, Text, contains, length, get_elem?, get_elem?-lt, keep, count, count-append,
  count-shift_down, range_from, length-range_from, shift_down, ltb, ◌==◌, if◌then◌else◌, Bool-cases,
  Option-cases, length-append, length-remove_at, map, ◌&&◌, count-range_from,
}
use labaiacinghiala.Player.Tracks.{RawTrack, Track, normalize_track, normalize_text}
use labaiacinghiala.Player.{Player, collect, values_of, has_id, locate}
use labaiacinghiala.Player.Edits.{
  ids, Appending, append_loop, append_start, finish_append, append_tracks, is_none, position_after,
  remove_found, remove_track,
}
use labaiacinghiala.Player.Order.{IsOrder}
use labaiacinghiala.Player.Uniqueness.{
  IsUnique, id_count, id_count-collect, id_count-append, id_count-remove_at,
}
use labaiacinghiala.Player.Invariant.{Placed, IsValid}
use labaiacinghiala.Player.Preservation.{locate_sound}

-- The tracks `ts` have been added at the end of the queue and of the order.
pub record Appends (ts : List Track) (a r : Appending) : Type 0 where
  pub queue_lem : r.queue ≡ a.queue ++ ts
  pub order_lem : r.order ≡ a.order ++ range_from (length a.queue) (length ts)
  pub added_lem : r.added ≡ a.added ++ ts

abbrev push_track : Track → Appending → Appending
push_track t a = record {
  queue = a.queue ++ t ∷ [];
  order = a.order ++ length a.queue ∷ [];
  seen = t.track_id ∷ a.seen;
  added = a.added ++ t ∷ [];
}

Appends-cons :
    (t : Track) (ts : List Track) (a r : Appending)
    → Appends ts (push_track t a) r
    → Appends (t ∷ ts) a r
Appends-cons t ts a r h = record {
  queue_lem = h.queue_lem ∙ append_assoc a.queue (t ∷ []) ts;
  order_lem = h.order_lem ∙ rw (length-append a.queue (t ∷ [])) (simp (append_assoc, add-one));
  added_lem = h.added_lem ∙ append_assoc a.added (t ∷ []) ts;
}

-- The loop of appendTracks adds the tracks that are valid and new.
pub append_loop-Appends :
    (values : List (Option RawTrack)) (a : Appending)
    → Appends (collect a.seen values) a (append_loop values a)
unfolding append_loop collect
append_loop-Appends [] a = record {
  queue_lem = sym (append-nil a.queue);
  order_lem = sym (append-nil a.order);
  added_lem = sym (append-nil a.added);
}
append_loop-Appends (v ∷ rest) a = elim (Option-cases (normalize_track v)) [
  | inl e ↦ rw (e, append_loop, collect) (append_loop-Appends rest a)
  | inr (t, e) ↦ elim (Bool-cases (contains a.seen t.track_id)) [
    | inl old ↦ rw (e, old, append_loop, collect) (append_loop-Appends rest a)
    | inr new ↦
        rw (e, new, append_loop, collect)
          (Appends-cons t (collect (t.track_id ∷ a.seen) rest) a _
            (append_loop-Appends rest (push_track t a)))
  ]
]

id_count-ids :
    (id : Text) (queue : List Track) → contains (ids queue) id ≡ false → id_count id queue ≡ 0
unfolding id_count contains has_id
id_count-ids id [] h = refl
id_count-ids id (t ∷ ts) h = ground (arith, id_count-ids id ts)

-- What appendTracks adds: the valid tracks whose id is not in the queue, each once.
pub new_tracks : Option (List (Option RawTrack)) → Player → List Track
new_tracks values p = collect (ids p.queue) (values_of values)

appended-IsOrder :
    (order : List ℕ) (n m : ℕ) → IsOrder n order → IsOrder (n + m) (order ++ range_from n m)
appended-IsOrder order n m h a =
    ground (arith, h a, count-append a order (range_from n m), count-range_from a n m)

appended-IsUnique :
    (values : Option (List (Option RawTrack))) (p : Player)
    → IsUnique p.queue
    → IsUnique (p.queue ++ new_tracks values p)
unfolding new_tracks
appended-IsUnique values p u id = ground (
  arith,
  u id,
  id_count-ids id p.queue,
  id_count-append id p.queue (collect (ids p.queue) (values_of values)),
  id_count-collect id (ids p.queue) (values_of values),
)

appended-Placed :
    (position : Option ℕ) (n m : ℕ)
    → Placed position n
    → Placed (if is_none position && ltb 0 m then some (n + m - m) else position) (n + m)
appended-Placed none n zero h = ground arith
appended-Placed none n (suc m) h = ground arith
appended-Placed (some i) n m h = omega arith

finish_append-IsValid :
    (ts : List Track) (p : Player) (a r : Appending)
    → IsValid p
    → a.queue ≡ p.queue
    → a.order ≡ p.order
    → a.added ≡ []
    → Appends ts a r
    → IsUnique (p.queue ++ ts)
    → IsValid (finish_append r p).0
unfolding finish_append
finish_append-IsValid ts p a r v eq eo ea h u =
    let queue : r.queue ≡ p.queue ++ ts = rw (h.queue_lem, eq) in
    let order : r.order ≡ p.order ++ range_from (length p.queue) (length ts) =
      rw (h.order_lem, eq, eo) in
    let added : r.added ≡ ts = rw (h.added_lem, ea) in
    let count_order : length r.order ≡ length p.order + length ts = rw order (
      omega (
        arith,
        length-append p.order (range_from (length p.queue) (length ts)),
        length-range_from (length p.queue) (length ts),
      )) in
    record {
      once = λ i.
          rw (queue, order, length-append p.queue ts)
            (appended-IsOrder p.order (length p.queue) (length ts) v.once i);
      full = rw (queue, count_order, length-append p.queue ts, v.full);
      placed =
          rw (count_order, added)
            (appended-Placed p.position (length p.order) (length ts) v.placed);
      unique = λ id. rw queue (u id);
    }

pub append_tracks-IsValid :
    (values : Option (List (Option RawTrack))) (p : Player)
    → IsValid p
    → IsValid (append_tracks values p).0
unfolding append_tracks append_start new_tracks
append_tracks-IsValid values p v =
    finish_append-IsValid (new_tracks values p) p _ _ v refl refl refl
      (append_loop-Appends (values_of values)
        (record { queue = p.queue; order = p.order; seen = ids p.queue; added = [] }))
      (appended-IsUnique values p v.unique)

position_after-Placed :
    (position : Option ℕ) (oi n : ℕ)
    → Placed position (suc n)
    → oi < suc n
    → Placed (position_after position oi (suc n) n) n
unfolding position_after
position_after-Placed none oi n h k = absurd (omega arith)
position_after-Placed (some j) oi n h k = elim (Bool-cases (j == oi)) [
  | inl e ↦ rw e (elim (Bool-cases (ltb (oi + 1) (suc n))) [
    | inl f ↦ rw f (ground arith)
    | inr f ↦
        rw f (elim (Bool-cases (ltb 0 n)) [
          | inl g ↦ rw g (ground arith)
          | inr g ↦ rw g (ground arith)
        ])
  ])
  | inr e ↦
      rw e
        (elim (Bool-cases (ltb oi j)) [ inl f ↦ rw f (ground arith) | inr f ↦ rw f (ground arith) ])
]

length-shift_down :
    (k : ℕ) (xs : List ℕ)
    → length (map (shift_down k) (keep (λ i. not (i == k)) xs)) + count k xs ≡ length xs
length-shift_down k [] = refl
length-shift_down k (x ∷ xs) = ground (arith, length-shift_down k xs)

pub remove_found-IsValid :
    (qi oi : ℕ) (p : Player) {t : Track}
    → IsValid p
    → get_elem? p.queue qi ≡ some t
    → oi < length p.order
    → IsValid (remove_found qi oi p).0
unfolding remove_found
remove_found-IsValid qi oi p v g h =
    let inside = get_elem?-lt p.queue qi g in
    let once : count qi p.order ≡ 1 = ground (arith, v.once qi) in
    let fewer = length-remove_at qi p.queue inside in
    let left : suc (length (map (shift_down qi) (keep (λ i. not (i == qi)) p.order)))
        ≡ length p.order =
      omega (arith, length-shift_down qi p.order) in
    record {
      once = λ a. ground (arith, v.once a, v.once (suc a), count-shift_down a qi p.order);
      full = omega (arith, v.full);
      placed = rw (← left) (position_after-Placed p.position oi _ (rw left v.placed) (omega arith));
      unique = λ id. omega (arith, v.unique id, id_count-remove_at id qi p.queue g);
    }

pub remove_track-IsValid :
    (id : Option Text) (p : Player) → IsValid p → IsValid (remove_track id p).0
unfolding remove_track
remove_track-IsValid id p v = elim (Option-cases (locate (normalize_text id) p)) [
  | inl f ↦ rw (f, remove_track) v
  | inr ((qi, oi), f) ↦
      let (t, g, is, o) = locate_sound (normalize_text id) p f in
      rw (f, remove_track) (remove_found-IsValid qi oi p v g (get_elem?-lt p.order oi o))
]
