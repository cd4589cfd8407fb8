-- ===== src/Player/Invariant.antt =====
-- The well-formedness of a player, and that each operation of createPlayerState keeps it.
use labaiacinghiala.Common.{
  JsNumber, ℕ, ◌<◌, Option, none, some, List, ◌≡◌, refl, sym, subst, inl, inr, arith, length,
  get_elem?, get_elem?-total, count-pos, length-range_from, Option-cases,
}
use labaiacinghiala.Player.Tracks.{Track, Context}
use labaiacinghiala.Player.{
  Player, Mode, create_player, current_queue_index, or_zero, natural_order, reshuffle,
}
use labaiacinghiala.Player.Order.{
  IsOrder, range_from-IsOrder, active_first-IsOrder, length-active_first,
}
use labaiacinghiala.Player.Uniqueness.{IsUnique, id_count}

-- The position of a player whose order has `n` entries: none exactly in an empty queue.
abbrev pub Placed : Option ℕ → ℕ → Type 0
Placed none n = n ≡ 0
Placed (some i) n = i < n

pub record IsValid (p : Player) : Type 0 where
  -- The order holds each index of the queue once, and nothing else.
  pub once : IsOrder (length p.queue) p.order
  pub full : length p.order ≡ length p.queue
  pub placed : Placed p.position (length p.order)
  pub unique : IsUnique p.queue

pub create_player-IsValid : (random : ℕ → JsNumber) → IsValid (create_player random)
unfolding create_player id_count
create_player-IsValid random = record {
  once = λ a. ground arith;
  full = refl;
  placed = refl;
  unique = λ id. omega arith;
}

-- In a valid player with a track in its queue, the current index is an index of the queue.
pub current_queue_index-lt :
    (p : Player)
    → IsValid p
    → 0 < length p.queue
    → (i : ℕ) × (k : ℕ) × (p.position ≡ some i)
      × (get_elem? p.order i ≡ some k)
      × (current_queue_index p ≡ some k)
      × (k < length p.queue)
unfolding current_queue_index
current_queue_index-lt p v h = elim (Option-cases p.position) [
  | inl e ↦
      let z : Placed none (length p.order) = subst (λ o. Placed o (length p.order)) e v.placed in
      absurd (omega (arith, v.full))
  | inr (i, e) ↦
      let inside : Placed (some i) (length p.order) =
        subst (λ o. Placed o (length p.order)) e v.placed in
      let (k, g) = get_elem?-total p.order i inside in
      (i, k, e, g, rw (e, current_queue_index) g, ground (arith, v.once k, count-pos p.order i g))
]

pub reshuffle-IsValid :
    (p : Player)
    → or_zero (current_queue_index p) < length p.queue
    → IsUnique p.queue
    → IsValid (reshuffle p)
unfolding reshuffle
reshuffle-IsValid p h u = record {
  once = active_first-IsOrder p.random p.draws (length p.queue) (or_zero (current_queue_index p)) h;
  full = length-active_first p.random p.draws (length p.queue) (or_zero (current_queue_index p)) h;
  placed = omega arith;
  unique = u;
}

-- The natural order of a queue with a position inside it.
pub natural-IsValid :
    (p : Player) (queue : List Track) (position : Option ℕ) (mode : Mode) (c : Option Context)
    → Placed position (length queue)
    → IsUnique queue
    → IsValid (record p {
      queue = queue;
      order = natural_order queue;
      position = position;
      mode = mode;
      context = c;
    })
natural-IsValid p queue position mode c h u = record {
  once = range_from-IsOrder (length queue);
  full = length-range_from 0 (length queue);
  placed = subst (Placed position) (sym (length-range_from 0 (length queue))) h;
  unique = u;
}

pub or_zero-lt :
    (p : Player) → IsValid p → 0 < length p.queue → or_zero (current_queue_index p) < length p.queue
or_zero-lt p v h = let (i, k, e, g, c, below) = current_queue_index-lt p v h in rw c below
