-- ===== src/Player/Actions.antt =====
-- The calls that the page makes on a player, in any order: every player that it can reach is valid.
use labaiacinghiala.Common.{
  JsNumber, ℕ, Bool, Option, none, some, List, [], ◌∷◌, Text, inl, inr, Option-cases,
}
use labaiacinghiala.Player.Tracks.{RawTrack, RawContext}
use labaiacinghiala.Player.{Player, create_player, set_queue, select_track, set_mode, cycle_mode}
use labaiacinghiala.Player.Edits.{append_tracks, move_track, remove_track, clear_queue}
use labaiacinghiala.Player.Playback.{next, previous}
use labaiacinghiala.Player.Invariant.{IsValid, create_player-IsValid}
use labaiacinghiala.Player.Preservation.{
  set_queue-IsValid, select_track-IsValid, clear_queue-IsValid, set_mode-IsValid,
  cycle_mode-IsValid, next-IsValid, previous-IsValid,
}
use labaiacinghiala.Player.EditPreservation.{append_tracks-IsValid, remove_track-IsValid}
use labaiacinghiala.Player.Moving.{move_track-IsValid}

pub data Action : Type 0 where
  sets : Option (List (Option RawTrack)) → Option Text → Option RawContext → Action
  appends : Option (List (Option RawTrack)) → Action
  moves : Option Text → JsNumber → Action
  removes : Option Text → Action
  clears : Action
  selects : Option Text → Action
  plays_next : Bool → Action
  plays_previous : Action
  sets_mode : Text → Action
  cycles_mode : Action

-- A TypeError of setMode leaves the player as it was.
abbrev or_same : Player → Option Player → Player
or_same p none = p
or_same p (some q) = q

unfoldable pub step : Action → Player → Player
step (sets values start context) p = set_queue values start context p
step (appends values) p = (append_tracks values p).0
step (moves id target) p = (move_track id target p).0
step (removes id) p = (remove_track id p).0
step clears p = (clear_queue p).0
step (selects id) p = (select_track id p).0
step (plays_next automatic) p = (next automatic p).0
step plays_previous p = (previous p).0
step (sets_mode m) p = or_same p (set_mode m p)
step cycles_mode p = cycle_mode p

unfoldable pub run : List Action → Player → Player
run [] p = p
run (a ∷ rest) p = run rest (step a p)

step-IsValid : (a : Action) (p : Player) → IsValid p → IsValid (step a p)
unfolding step
step-IsValid (sets values start context) p v = set_queue-IsValid values start context p
step-IsValid (appends values) p v = append_tracks-IsValid values p v
step-IsValid (moves id target) p v = move_track-IsValid id target p v
step-IsValid (removes id) p v = remove_track-IsValid id p v
step-IsValid clears p v = clear_queue-IsValid p
step-IsValid (selects id) p v = select_track-IsValid id p v
step-IsValid (plays_next automatic) p v = next-IsValid automatic p v
step-IsValid plays_previous p v = previous-IsValid p v
step-IsValid (sets_mode m) p v = elim (Option-cases (set_mode m p)) [
  | inl e ↦ rw (e, or_same) v
  | inr (q, e) ↦ rw (e, or_same) (set_mode-IsValid m p v e)
]
step-IsValid cycles_mode p v = cycle_mode-IsValid p v

run-IsValid : (actions : List Action) (p : Player) → IsValid p → IsValid (run actions p)
unfolding run
run-IsValid [] p v = v
run-IsValid (a ∷ rest) p v = run-IsValid rest (step a p) (step-IsValid a p v)

-- Whatever calls the page makes on a new player and whatever numbers Math.random gives, the
-- playing order holds each index of the queue exactly once and has the queue's length, the position
-- is an index of the order and is missing exactly when the order is empty, and no two tracks of the
-- queue have the same id.
pub run-create_player-IsValid :
    (random : ℕ → JsNumber) (actions : List Action) → IsValid (run actions (create_player random))
run-create_player-IsValid random actions =
    run-IsValid actions (create_player random) (create_player-IsValid random)
