-- ===== src/Player.antt =====
-- public/js/music-player-state.js: the queue of the music player, with its playing order, position
-- and mode. `position` is `none` where the source has -1.
pub mod Tracks
pub mod Edits
pub mod Playback
pub mod Order
pub mod Uniqueness
pub mod Invariant
pub mod Preservation
pub mod EditPreservation
pub mod Moving
pub mod Shifts
pub mod Modes
pub mod Stepping
pub mod Removal
pub mod Actions
mod Tests
use mathlib.Core.Option
use labaiacinghiala.Common.{
  JsNumber, non_negative, ℕ, zero, suc, ◌+◌, ◌-◌, ◌*◌, ◌/◌, ◌%◌, min, Bool, true, false, not, ◌&&◌,
  Option, none, some, List, [], ◌∷◌, ◌++◌, map, Text, codes, text_eq, contains, is_empty, length,
  get_elem?, set, keep, find, find_index, remove_at, insert_at, range_from, shift_down, ltb, ◌==◌,
  if◌then◌else◌,
}
use Tracks.{
  RawTrack, Track, RawContext, Context, normalize_text, normalize_track, normalize_context,
}

pub data Mode : Type 0 where
  normal shuffled repeat repeat_one : Mode

abbrev pub modes : List Mode
modes = normal ∷ shuffled ∷ repeat ∷ repeat_one ∷ []

-- MODES.indexOf(mode).
abbrev pub mode_index : Mode → ℕ
mode_index normal = 0
mode_index shuffled = 1
mode_index repeat = 2
mode_index repeat_one = 3

abbrev pub mode_eq : Mode → Mode → Bool
mode_eq m n = mode_index m == mode_index n

-- `random` is the source of Math.random numbers, in 10^-9, and `draws` counts the calls made.
pub record Player : Type 0 where
  pub queue : List Track
  pub order : List ℕ
  pub position : Option ℕ
  pub mode : Mode
  pub context : Option Context
  pub random : ℕ → JsNumber
  pub draws : ℕ

pub create_player : (ℕ → JsNumber) → Player
create_player random = record {
  queue = [];
  order = [];
  position = none;
  mode = normal;
  context = none;
  random = random;
  draws = 0;
}

-- Math.floor(bounded * (index + 1)).
pub draw_below : JsNumber → ℕ → ℕ
draw_below candidate index = min (non_negative candidate) 999999999 * (index + 1) / 1000000000

-- [xs[i], xs[j]] = [xs[j], xs[i]].
pub swap : List ℕ → ℕ → ℕ → List ℕ
swap xs i j = elim (get_elem? xs i) [
  | none ↦ xs
  | some a ↦ elim (get_elem? xs j) [ none ↦ xs | some b ↦ set (set xs i b) j a ]
]

-- The rounds of `shuffle` from `index` down to 1.
pub shuffle_from : (ℕ → JsNumber) → ℕ → ℕ → List ℕ → List ℕ
unfolding swap draw_below
shuffle_from random draws zero xs = xs
shuffle_from random draws (suc index) xs =
    shuffle_from random (suc draws) index
      (swap xs (suc index) (draw_below (random draws) (suc index)))

pub shuffle : (ℕ → JsNumber) → ℕ → List ℕ → List ℕ
unfolding shuffle_from
shuffle random draws xs = shuffle_from random draws (length xs - 1) xs

-- `none` stands for -1.
pub current_queue_index : Player → Option ℕ
current_queue_index p = elim p.position [ none ↦ none | some i ↦ get_elem? p.order i ]

pub current_track : Player → Option Track
unfolding current_queue_index
current_track p = elim (current_queue_index p) [ none ↦ none | some i ↦ get_elem? p.queue i ]

abbrev pub or_zero : Option ℕ → ℕ
or_zero none = 0
or_zero (some n) = n

abbrev pub natural_order : List Track → List ℕ
natural_order queue = range_from 0 (length queue)

pub reshuffle : Player → Player
unfolding shuffle current_queue_index
reshuffle p =
    let active = or_zero (current_queue_index p) in
    let remaining = keep (λ i. not (i == active)) (natural_order p.queue) in
    record p {
      order = active ∷ shuffle p.random p.draws remaining;
      position = some 0;
      draws = p.draws + (length remaining - 1);
    }

pub rebuild_order : Mode → Player → Player
unfolding reshuffle current_queue_index
rebuild_order next p =
    if length p.queue == 0
    then record p { order = []; position = none }
    else if mode_eq next shuffled
    then reshuffle p
    else record p {
      order = natural_order p.queue;
      position = some (or_zero (current_queue_index p));
    }

pub change_mode : Mode → Player → Player
unfolding rebuild_order
change_mode m p = if mode_eq p.mode m then p else record (rebuild_order m p) { mode = m }

pub parse_mode : Text → Option Mode
unfolding text_eq
parse_mode t =
    if text_eq t (codes "normal")
    then some normal
    else if text_eq t (codes "shuffle")
    then some shuffled
    else if text_eq t (codes "repeat")
    then some repeat
    else if text_eq t (codes "repeat-one")
    then some repeat_one
    else none

-- `none` is the TypeError.
pub set_mode : Text → Player → Option Player
unfolding parse_mode change_mode
set_mode t p = Option.map (λ m. change_mode m p) (parse_mode t)

abbrev pub mode_at : Option Mode → Mode
mode_at none = normal
mode_at (some m) = m

pub cycle_mode : Player → Player
unfolding change_mode
cycle_mode p = change_mode (mode_at (get_elem? modes ((mode_index p.mode + 1) % length modes))) p

-- `map(normalizeTrack)` and the filter that drops nulls and ids seen before.
pub collect : List Text → List (Option RawTrack) → List Track
unfolding normalize_track contains
collect seen [] = []
collect seen (v ∷ rest) = elim (normalize_track v) [
  | none ↦ collect seen rest
  | some t ↦ elim (contains seen t.track_id) [
    | true ↦ collect seen rest
    | false ↦ t ∷ collect (t.track_id ∷ seen) rest
  ]
]

abbrev pub values_of : Option (List (Option RawTrack)) → List (Option RawTrack)
values_of none = []
values_of (some l) = l

pub has_id : Text → Track → Bool
unfolding text_eq
has_id id t = text_eq t.track_id id

-- requestedIndex >= 0 ? requestedIndex : (queue.length ? 0 : -1).
abbrev pub start_at : List Track → Option ℕ → Option ℕ
start_at queue (some i) = some i
start_at [] none = none
start_at (_ ∷ _) none = some 0

abbrev pub load : List Track → Option ℕ → Context → Player → Player
load queue requested context p = record p {
  queue = queue;
  order = natural_order queue;
  position = start_at queue requested;
  context = some context;
}

pub set_queue : Option (List (Option RawTrack)) → Option Text → Option RawContext → Player → Player
unfolding collect has_id normalize_text normalize_context reshuffle
set_queue values start_track_id context p =
    let queue = collect [] (values_of values) in
    let requested = find_index (has_id (normalize_text start_track_id)) queue in
    let loaded = load queue requested (normalize_context context) p in
    if mode_eq p.mode shuffled && ltb 0 (length queue) then reshuffle loaded else loaded

-- The result of the call and whether the position changed; `none` is null.
abbrev pub position_eq : Option ℕ → Option ℕ → Bool
position_eq none none = true
position_eq (some a) (some b) = a == b
position_eq none (some b) = false
position_eq (some a) none = false

pub index_of : ℕ → List ℕ → Option ℕ
index_of k xs = find_index (λ x. x == k) xs

-- The place in `order` of the first track of the queue with this id.
pub locate : Text → Player → Option (ℕ × ℕ)
unfolding has_id index_of
locate id p = elim (find_index (has_id id) p.queue) [
  | none ↦ none
  | some qi ↦ elim (index_of qi p.order) [ none ↦ none | some oi ↦ some (qi, oi) ]
]

pub select_track : Option Text → Player → Player × Option (Option Track × Bool)
unfolding normalize_text current_track
select_track track_id p =
    let id = normalize_text track_id in
    if is_empty id then (p, none) else elim (locate id p) [
      | none ↦ (p, none)
      | some (qi, oi) ↦
          let q : Player = record p { position = some oi } in
          (q, some (current_track q, not (position_eq p.position (some oi))))
    ]
