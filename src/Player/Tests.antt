-- ===== src/Player/Tests.antt =====
-- The player on three tracks: the theorems at concrete inputs, and runs of the operations.
use labaiacinghiala.Common.{
  JsNumber, amount, true, false, ℕ, Option, none, some, List, [], ◌∷◌, Text, codes, ◌≡◌, refl, map,
  length, get_elem?, arith, ◌%◌, ◌+◌,
}
use labaiacinghiala.Player.Tracks.{RawTrack}
use labaiacinghiala.Player.{
  repeat, shuffled, set_mode, Player, create_player, current_track, change_mode, locate, set_queue,
}
use labaiacinghiala.Player.Playback.{snapshot, advance, next, previous}
use labaiacinghiala.Player.Invariant.{IsValid}
use labaiacinghiala.Player.Actions.{
  Action, step, sets, sets_mode, cycles_mode, run, run-create_player-IsValid,
}
use labaiacinghiala.Player.Stepping.{nexts, nexts-position, previous-next}
use labaiacinghiala.Player.Modes.{change_mode-current_track}
use labaiacinghiala.Player.Removal.{Removal, line_up, remove_track-Removal}
use labaiacinghiala.Player.Edits.{holds_id, move_track, ordered, remove_track}
use labaiacinghiala.Player.Moving.{id_of}
use labaiacinghiala.Player.Shifts.{Shifts, move_track-Shifts}

abbrev dice : ℕ → JsNumber
dice n = amount 700000000

abbrev track : Text → Option RawTrack
track id = some (record {
  track_id = some id;
  stream_url = some (codes "/api/music/tracks/x/stream");
  title = none;
  artists = none;
  album_id = none;
  album_title = none;
  cover_url = none;
  duration = amount 60;
})

abbrev three_tracks : Option (List (Option RawTrack))
three_tracks =
    some (track (codes "a") ∷ track (codes "b") ∷ none ∷ track (codes "a") ∷ track (codes "c") ∷ [])

abbrev played : List Action
played = sets three_tracks (some (codes " b ")) none ∷ sets_mode (codes "repeat") ∷ []

abbrev playing : Player
playing = run played (create_player dice)

playing-IsValid : IsValid playing
playing-IsValid = run-create_player-IsValid dice played

playing_queue : map (λ t. t.track_id) (line_up playing) ≡ codes "a" ∷ codes "b" ∷ codes "c" ∷ []
unfolding run step create_player set_queue set_mode ordered
playing_queue = refl

playing_position : playing.position ≡ some 1
unfolding run step create_player set_queue set_mode
playing_position = refl

playing_mode : playing.mode ≡ repeat
unfolding run step create_player set_queue set_mode
playing_mode = refl

run-create_player-IsValid_example : IsValid (run (cycles_mode ∷ played) (create_player dice))
run-create_player-IsValid_example = run-create_player-IsValid dice (cycles_mode ∷ played)

nexts-position_example : (nexts 4 playing).position ≡ some ((1 + 4) % length playing.order)
unfolding run step create_player set_queue set_mode
nexts-position_example =
    nexts-position 4 playing 1 playing-IsValid (omega arith) playing_mode playing_position

previous-next_example : (previous (next false playing).0).0.position ≡ playing.position
unfolding run step create_player set_queue set_mode next current_track advance
previous-next_example =
    previous-next playing
      {played = record {
        track = current_track (record playing { position = some 2 });
        replay = false;
        changed = true;
      }}
      playing-IsValid refl

change_mode-current_track_example :
    (current_track (change_mode shuffled playing) ≡ current_track playing)
    × ((change_mode shuffled playing).queue ≡ playing.queue)
change_mode-current_track_example = change_mode-current_track shuffled playing playing-IsValid

remove_track-Removal_example : Removal 1 playing (remove_track (some (codes "b")) playing).0
unfolding run step create_player set_queue set_mode locate
remove_track-Removal_example =
    remove_track-Removal (some (codes "b")) playing {qi = 1} {oi = 1} playing-IsValid refl

-- Position 9 is past the end: the first track of the playing order becomes the last.
move_track-Shifts_example :
    (id_of (get_elem? (ordered playing.queue playing.order) 0) ≡ some (codes "a"))
    × Shifts 0 2 (ordered playing.queue playing.order) (
        ordered
          (move_track (some (codes "a")) (amount 9) playing).0.queue
          (move_track (some (codes "a")) (amount 9) playing).0.order)
    × (id_of (current_track (move_track (some (codes "a")) (amount 9) playing).0)
        ≡ id_of (current_track playing))
unfolding run step create_player set_queue set_mode holds_id
move_track-Shifts_example =
    move_track-Shifts (some (codes "a")) (amount 9) playing {source = 0} playing-IsValid refl

-- What the page shows: the second of three tracks.
shown : (snapshot playing).queue_index ≡ some 1
unfolding snapshot run step set_mode set_queue create_player
shown = refl
