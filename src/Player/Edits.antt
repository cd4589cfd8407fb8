-- ===== src/Player/Edits.antt =====
-- public/js/music-player-state.js: appendTracks, moveTrack, removeTrack, clearQueue, next, previous
-- and snapshot.
use labaiacinghiala.Common.{
  JsNumber, non_negative, ℕ, ◌+◌, ◌-◌, min, Bool, true, false, not, ◌&&◌, Option, none, some, List,
  [], ◌∷◌, ◌++◌, map, Text, contains, length, get_elem?, keep, find_index, remove_at, insert_at,
  shift_down, ltb, ◌==◌, if◌then◌else◌,
}
use labaiacinghiala.Player.Tracks.{RawTrack, Track, normalize_text, normalize_track}
use labaiacinghiala.Player.{
  normal, mode_eq, Player, natural_order, current_track, values_of, has_id, locate,
}

-- The variables of the loop of appendTracks.
pub record Appending : Type 0 where
  pub queue : List Track
  pub order : List ℕ
  pub seen : List Text
  pub added : List Track

unfoldable pub append_loop : List (Option RawTrack) → Appending → Appending
unfolding normalize_track contains
append_loop [] a = a
append_loop (v ∷ rest) a = elim (normalize_track v) [
  | none ↦ append_loop rest a
  | some t ↦ elim (contains a.seen t.track_id) [
    | true ↦ append_loop rest a
    | false ↦ append_loop rest (record {
      queue = a.queue ++ t ∷ [];
      order = a.order ++ length a.queue ∷ [];
      seen = t.track_id ∷ a.seen;
      added = a.added ++ t ∷ [];
    })
  ]
]

pub record Appended : Type 0 where
  pub added : List Track
  pub selected_first_track : Bool
  pub current : Option Track

abbrev pub is_none {ℓ} : {A : Type ℓ} → Option A → Bool
is_none none = true
is_none (some a) = false

abbrev pub ids : List Track → List Text
ids = map λ t. t.track_id

unfoldable pub append_start : Option (List (Option RawTrack)) → Player → Appending
append_start values p =
    append_loop (values_of values)
      (record { queue = p.queue; order = p.order; seen = ids p.queue; added = [] })

unfoldable pub finish_append : Appending → Player → Player × Appended
unfolding current_track
finish_append a p =
    let selected = is_none p.position && ltb 0 (length a.added) in
    let q : Player = record p {
      queue = a.queue;
      order = a.order;
      position = if selected then some (length a.order - length a.added) else p.position;
    } in
    (q, record { added = a.added; selected_first_track = selected; current = current_track q })

unfoldable pub append_tracks : Option (List (Option RawTrack)) → Player → Player × Appended
append_tracks values p = finish_append (append_start values p) p

-- order.map((queueIndex) => queue[queueIndex]): the tracks in playing order.
unfoldable pub ordered : List Track → List ℕ → List Track
ordered queue [] = []
ordered queue (i ∷ order) = elim (get_elem? queue i) [
  | none ↦ ordered queue order
  | some t ↦ t ∷ ordered queue order
]

pub record Moved : Type 0 where
  pub changed : Bool
  pub mode_changed : Bool
  pub track : Option Track

-- queue[queueIndex]?.trackId === requestedId.
unfoldable pub holds_id : List Track → Text → ℕ → Bool
unfolding has_id
holds_id queue id i = elim (get_elem? queue i) [ none ↦ false | some t ↦ has_id id t ]

-- The tracks after the two splices.
unfoldable pub splice_move : ℕ → ℕ → List Track → List Track
splice_move source target tracks = elim (get_elem? tracks source) [
  | none ↦ tracks
  | some moved ↦ insert_at target moved (remove_at source tracks)
]

-- position = currentId ? queue.findIndex(…) : -1.
unfoldable pub refind : Option Track → List Track → Option ℕ
unfolding has_id
refind none queue = none
refind (some t) queue = find_index (has_id t.track_id) queue

unfoldable pub move_from : ℕ → ℕ → Player → Player × Option Moved
unfolding current_track
move_from source target p =
    let queue = splice_move source target (ordered p.queue p.order) in
    let q : Player = record p {
      queue = queue;
      order = natural_order queue;
      position = refind (current_track p) queue;
      mode = normal;
    } in
    let moved : Moved = record {
      changed = true;
      mode_changed = not (mode_eq p.mode normal);
      track = current_track q;
    } in
    (q, some moved)

-- `target` is what parseInt gives for the target position.
unfoldable pub move_track : Option Text → JsNumber → Player → Player × Option Moved
unfolding current_track
move_track track_id target p =
    elim (find_index (holds_id p.queue (normalize_text track_id)) p.order) [
      | none ↦ (p, none)
      | some source ↦
          let bounded = min (length p.order - 1) (non_negative target) in
          let unmoved : Moved = record {
            changed = false;
            mode_changed = false;
            track = current_track p;
          } in
          if ltb (length p.order) 2
          then (p, none)
          else if source == bounded
          then (p, some unmoved)
          else move_from source bounded p
    ]

pub record Removed : Type 0 where
  pub removed : Option Track
  pub was_current : Bool
  pub had_next : Bool
  pub next_track : Option Track
  pub queue_empty : Bool

abbrev pub is_at : Option ℕ → ℕ → Bool
is_at none i = false
is_at (some j) i = j == i

-- The position after the entry at `oi` of an order of `total` entries is gone, which then has `left`.
unfoldable pub position_after : Option ℕ → ℕ → ℕ → ℕ → Option ℕ
position_after none oi total left = none
position_after (some j) oi total left =
    if j == oi
    then (if ltb (oi + 1) total then some oi else if ltb 0 left then some 0 else none)
    else if ltb oi j
    then some (j - 1)
    else some j

unfoldable pub remove_found : ℕ → ℕ → Player → Player × Option Removed
unfolding position_after current_track
remove_found qi oi p =
    let order = map (shift_down qi) (keep (λ i. not (i == qi)) p.order) in
    let q : Player = record p {
      queue = remove_at qi p.queue;
      order = order;
      position = position_after p.position oi (length p.order) (length order);
    } in
    let removed : Removed = record {
      removed = get_elem? p.queue qi;
      was_current = is_at p.position oi;
      had_next = is_at p.position oi && ltb (oi + 1) (length p.order);
      next_track = current_track q;
      queue_empty = length q.queue == 0;
    } in
    (q, some removed)

unfoldable pub remove_track : Option Text → Player → Player × Option Removed
remove_track track_id p = elim (locate (normalize_text track_id) p) [
  | none ↦ (p, none)
  | some (qi, oi) ↦ remove_found qi oi p
]

unfoldable pub clear_queue : Player → Player × ℕ
clear_queue p =
    (record p { queue = []; order = []; position = none; context = none }, length p.queue)
