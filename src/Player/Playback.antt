-- ===== src/Player/Playback.antt =====
-- public/js/music-player-state.js: next, previous and snapshot.
use labaiacinghiala.Common.{
  ℕ, suc, ◌+◌, ◌-◌, Bool, true, false, ◌&&◌, Option, none, some, List, [], ◌∷◌, length, get_elem?,
  ltb, if◌then◌else◌,
}
use labaiacinghiala.Player.Tracks.{Track, Context}
use labaiacinghiala.Player.{
  Mode, repeat, repeat_one, modes, mode_eq, Player, current_queue_index, current_track, position_eq,
}

pub record Played : Type 0 where
  pub track : Option Track
  pub replay : Bool
  pub changed : Bool

-- The cases of `next` for a current track, at position `i`.
unfoldable pub advance : ℕ → Player → Player × Option Played
unfolding current_track
advance i p =
    let step : Player = record p { position = some (i + 1) } in
    let wrap : Player = record p { position = some 0 } in
    if ltb (i + 1) (length p.order)
    then (step, some (record { track = current_track step; replay = false; changed = true }))
    else if mode_eq p.mode repeat
    then (wrap, some (record { track = current_track wrap; replay = false; changed = true }))
    else (p, none)

abbrev pub position_or_zero : Option ℕ → ℕ
position_or_zero none = 0
position_or_zero (some i) = i

-- A player with a current track has a position, so the default of `position_or_zero` is not met.
unfoldable pub next : Bool → Player → Player × Option Played
next automatic p = elim (current_track p) [
  | none ↦ (p, none)
  | some t ↦
      if automatic && mode_eq p.mode repeat_one
      then (p, some (record { track = some t; replay = true; changed = false }))
      else advance (position_or_zero p.position) p
]

pub record Went : Type 0 where
  pub track : Option Track
  pub changed : Bool

unfoldable pub step_back : ℕ → Track → Player → Player × Option Went
unfolding current_track
step_back i t p =
    let back : Player = record p { position = some (i - 1) } in
    let last : Player = record p { position = some (length p.order - 1) } in
    if ltb 0 i
    then (back, some (record { track = current_track back; changed = true }))
    else if mode_eq p.mode repeat && ltb 1 (length p.order)
    then (last, some (record { track = current_track last; changed = true }))
    else (p, some (record { track = some t; changed = false }))

unfoldable pub previous : Player → Player × Option Went
previous p = elim (current_track p) [
  | none ↦ (p, none)
  | some t ↦ step_back (position_or_zero p.position) t p
]

-- An entry of the ordered queue of a snapshot.
pub record Entry : Type 0 where
  pub track : Option Track
  pub order_position : ℕ
  pub active : Bool

pub record Snapshot : Type 0 where
  pub mode : Mode
  pub modes : List Mode
  pub queue_length : ℕ
  pub queue_index : Option ℕ
  pub order_position : Option ℕ
  pub current : Option Track
  pub context : Option Context
  pub queue : List Entry

pub entries_from : List Track → Option ℕ → ℕ → List ℕ → List Entry
entries_from queue position k [] = []
entries_from queue position k (i ∷ order) =
    let entry : Entry = record {
      track = get_elem? queue i;
      order_position = k;
      active = position_eq position (some k);
    } in
    entry ∷ entries_from queue position (suc k) order

unfoldable pub snapshot : Player → Snapshot
unfolding entries_from current_track
snapshot p = record {
  mode = p.mode;
  modes = modes;
  queue_length = length p.queue;
  queue_index = current_queue_index p;
  order_position = p.position;
  current = current_track p;
  context = p.context;
  queue = entries_from p.queue p.position 0 p.order;
}
