-- ===== src/Listening/Credit.antt =====
-- How much time a session can be credited with.
use labaiacinghiala.Common.{
  ℕ, ◌+◌, ◌-◌, ◌*◌, max, ◌≤◌, Bool, true, false, ◌&&◌, Option, some, List, [], ◌∷◌, ◌≡◌, refl, inl,
  inr, arith, length, leb, leb_iff, ltb, if◌then◌else◌, Bool-cases, JsNumber, non_negative, subst,
  sym, ◌∙◌,
}
use labaiacinghiala.Listening.{
  Listening, wall_time, maximum_credible, is_credited, sample, seek, play, pause,
}

-- The calls that the page makes while a track is open, with the time of the medium and the clock.
pub data Call : Type 0 where
  samples plays pauses seeks : JsNumber → ℕ → Call

unfoldable pub answer : Listening → Call → Listening
answer s (samples current now) = sample current (some now) s
answer s (plays current now) = play current (some now) s
answer s (pauses current now) = pause current (some now) s
answer s (seeks current now) = seek current (some now) s

unfoldable pub run : Listening → List Call → Listening
run s [] = s
run s (c ∷ rest) = run (answer s c) rest

abbrev clock : Call → ℕ
clock (samples current now) = now
clock (plays current now) = now
clock (pauses current now) = now
clock (seeks current now) = now

-- The clock is not set back.
unfoldable pub Forward : ℕ → List Call → Type 0
Forward from [] = Unit
Forward from (c ∷ rest) = (from ≤ clock c) × Forward (clock c) rest

wall_time_forward : (now before : ℕ) → before ≤ now → wall_time (some now) before ≡ now
unfolding wall_time
wall_time_forward now before h = ground (arith, h)

credit-le :
    (playing : Bool) (media wall : ℕ)
    → 4 * (if is_credited playing media wall then media else 0) ≤ 7 * wall + 12000
unfolding is_credited maximum_credible
credit-le playing media wall =
    elim (Bool-cases
      (playing && ltb 0 media && leb (4 * media) (max (4 * 3000) (7 * wall + 4 * 1500)))) [
        | inl credited ↦
            let small : 4 * media ≤ max (4 * 3000) (7 * wall + 4 * 1500) =
              (leb_iff (4 * media) (max (4 * 3000) (7 * wall + 4 * 1500))).0 (ground arith) in
            rw credited (omega (arith, small))
        | inr none_given ↦ rw none_given (omega arith)
      ]

-- The session after a call at a time: the clock's time, and no more credit than the bound.
Bounded : Listening → ℕ → Listening → Type 0
Bounded s now t =
    (t.last_wall ≡ now) × (4 * t.listened ≤ 4 * s.listened + 7 * (now - s.last_wall) + 12000)

sample-Bounded :
    (current : JsNumber) (now : ℕ) (s : Listening)
    → s.last_wall ≤ now
    → Bounded s now (sample current (some now) s)
unfolding sample Bounded
sample-Bounded current now s h =
    let forward = wall_time_forward now s.last_wall h in
    (
      forward,
      rw forward (
          omega (
            arith,
            credit-le s.playing (non_negative current - s.last_media_time) (now - s.last_wall),
          )),
    )

answer-Bounded :
    (s : Listening) (c : Call) → s.last_wall ≤ clock c → Bounded s (clock c) (answer s c)
unfolding answer play pause seek Bounded
answer-Bounded s (samples current now) h = sample-Bounded current now s h
answer-Bounded s (plays current now) h =
    let (time, credit) = sample-Bounded current now s h in
    (wall_time_forward now (sample current (some now) s).last_wall (omega (arith, time)), credit)
answer-Bounded s (pauses current now) h = sample-Bounded current now s h
answer-Bounded s (seeks current now) h = (wall_time_forward now s.last_wall h, omega arith)

-- As long as the clock is not set back, the listened time grows by at most 1.75 times the time of
-- the clock and three seconds for each call, wherever the calls say that the medium stands.
pub run-le :
    (s : Listening) (calls : List Call)
    → Forward s.last_wall calls
    → 4 * (run s calls).listened + 7 * s.last_wall
      ≤ 4 * s.listened + 7 * (run s calls).last_wall + 12000 * length calls
unfolding run Forward Bounded
run-le s [] forward = omega arith
run-le s (c ∷ rest) (later, forward) =
    let (time, credit) = answer-Bounded s c later in
    omega (
      arith,
      run-le (answer s c) rest (subst (λ t. Forward t rest) (sym time) forward),
      time,
      credit,
      later,
    )

-- Calls among which the track is not started to play.
unfoldable pub no_play : List Call → Bool
no_play [] = true
no_play (samples current now ∷ rest) = no_play rest
no_play (plays current now ∷ rest) = false
no_play (pauses current now ∷ rest) = no_play rest
no_play (seeks current now ∷ rest) = no_play rest

sample_silent :
    (current : JsNumber) (wall : Option ℕ) (s : Listening)
    → s.playing ≡ false
    → (sample current wall s).listened ≡ s.listened
unfolding sample is_credited
sample_silent current wall s silent = rw silent (omega arith)

-- While a track is not playing no time is credited, neither by samples nor by seeks.
pub run_silent :
    (s : Listening) (calls : List Call)
    → s.playing ≡ false
    → no_play calls ≡ true
    → (run s calls).listened ≡ s.listened
unfolding run answer sample pause seek no_play
run_silent s [] silent h = refl
run_silent s (samples current now ∷ rest) silent h =
    run_silent (sample current (some now) s) rest silent h
    ∙ sample_silent current (some now) s silent
run_silent s (plays current now ∷ rest) silent h = cc
run_silent s (pauses current now ∷ rest) silent h =
    run_silent (pause current (some now) s) rest refl h ∙ sample_silent current (some now) s silent
run_silent s (seeks current now ∷ rest) silent h =
    run_silent (seek current (some now) s) rest silent h
