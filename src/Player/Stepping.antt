-- ===== src/Player/Stepping.antt =====
-- next and previous: the position in the playing order.
use labaiacinghiala.Common.{
  ℕ, zero, suc, ◌+◌, ◌-◌, ◌%◌, ◌<◌, true, false, none, some, ◌≡◌, refl, ◌∙◌, inl, inr, arith,
  length, ltb, if◌then◌else◌, Bool-cases, Option-cases, subst, ap, sym,
}
use native.Mathlib.Nat.{mod-eq_of_lt, mod_self, add-zero, mod-add-mod}
use labaiacinghiala.Player.Tracks.{Track}
use labaiacinghiala.Player.{Mode, repeat, mode_eq, Player, current_track}
use labaiacinghiala.Player.Playback.{Played, next, advance, previous, step_back}
use labaiacinghiala.Player.Invariant.{Placed, IsValid, current_queue_index-lt}
use labaiacinghiala.Player.Preservation.{next-IsValid, position-lt, moved-IsValid}
use labaiacinghiala.Player.Moving.{current_track-total}

-- `next` without a failure: the rounds of a player that goes on by itself.
pub nexts : ℕ → Player → Player
nexts zero p = p
nexts (suc n) p = nexts n (next true p).0

next-advance :
    (p : Player) (i : ℕ) {t : Track}
    → current_track p ≡ some t
    → p.position ≡ some i
    → p.mode ≡ repeat
    → next true p ≡ advance i p
unfolding next
next-advance p i c at rep = ground arith

succ_mod : (i n : ℕ) → i < n → (if ltb (i + 1) n then i + 1 else 0) ≡ (i + 1) % n
succ_mod i n h = elim (Bool-cases (ltb (i + 1) n)) [
  | inl e ↦ rw e (sym (mod-eq_of_lt (ground arith)))
  | inr e ↦ let full : i + 1 ≡ n = ground arith in rw (e, full) (sym (mod_self n))
]

-- What one step leaves: the position moved on by one, from the last place to the first.
record Advanced (i : ℕ) (p q : Player) : Type 0 where
  at : q.position ≡ some ((i + 1) % length p.order)
  mode_lem : q.mode ≡ p.mode
  queue_lem : q.queue ≡ p.queue
  order_lem : q.order ≡ p.order

advance-Advanced :
    (i : ℕ) (p : Player) → p.mode ≡ repeat → i < length p.order → Advanced i p (advance i p).0
unfolding advance
advance-Advanced i p rep h = elim (Bool-cases (ltb (i + 1) (length p.order))) [
  | inl e ↦ rw e (record {
    at = ap some (rw e at (succ_mod i (length p.order) h));
    mode_lem = refl;
    queue_lem = refl;
    order_lem = refl;
  })
  | inr e ↦
      rw (e, rep)
        (record {
          at = ap some (rw e at (succ_mod i (length p.order) h));
          mode_lem = refl;
          queue_lem = refl;
          order_lem = refl;
        })
]

position_inside :
    (p : Player) (i : ℕ) → IsValid p → 0 < length p.queue → p.position ≡ some i → i < length p.order
position_inside p i v h at = subst (λ o. Placed o (length p.order)) at v.placed

wrap_zero : (i n : ℕ) → i < n → i ≡ (i + 0) % n
wrap_zero i n h = sym (rw add-zero (mod-eq_of_lt h))

wrap_suc : (i k n : ℕ) {m : ℕ} → m ≡ n → ((i + 1) % n + k) % m ≡ (i + suc k) % n
wrap_suc i k n e =
    let same : i + 1 + k ≡ i + suc k = omega arith in
    rw e (mod-add-mod (i + 1) n k ∙ ap (λ x. x % n) same)

-- In mode repeat, a player that goes on by itself k times moves its position on by k, round the
-- playing order: so it plays every track before it plays one again.
pub nexts-position :
    (k : ℕ) (p : Player) (i : ℕ)
    → IsValid p
    → 0 < length p.queue
    → p.mode ≡ repeat
    → p.position ≡ some i
    → (nexts k p).position ≡ some ((i + k) % length p.order)
unfolding nexts
nexts-position zero p i v h rep at =
    at ∙ ap some (wrap_zero i (length p.order) (position_inside p i v h at))
nexts-position (suc k) p i v h rep at =
    let (t, j, g, c) = current_track-total p v h in
    let inside = position_inside p i v h at in
    let e = next-advance p i c at rep in
    let a : Advanced i p (next true p).0 = rw e (advance-Advanced i p rep inside) in
    let ih =
      nexts-position k (next true p).0 ((i + 1) % length p.order) (next-IsValid true p v)
        (rw a.queue_lem h) (a.mode_lem ∙ rep) a.at in
    ih ∙ ap some (wrap_suc i k (length p.order) (ap length a.order_lem))

previous-step_back :
    (p : Player) (j : ℕ) {t : Track}
    → current_track p ≡ some t
    → p.position ≡ some j
    → previous p ≡ step_back j t p
unfolding previous
previous-step_back p j c at = ground arith

-- One step back from a place of the order that is not the first.
back_position :
    (p : Player) (i : ℕ)
    → IsValid p
    → 0 < length p.queue
    → p.position ≡ some (i + 1)
    → (previous p).0.position ≡ some i
unfolding step_back
back_position p i v h at =
    let (t, k, g, c) = current_track-total p v h in
    rw (previous-step_back p (i + 1) c at) (ground arith)

-- One step back from the first place in mode repeat.
back_wrap :
    (p : Player)
    → IsValid p
    → 0 < length p.queue
    → p.position ≡ some 0
    → p.mode ≡ repeat
    → (previous p).0.position ≡ some (length p.order - 1)
unfolding step_back
back_wrap p v h at rep =
    let (t, k, g, c) = current_track-total p v h in rw (previous-step_back p 0 c at) (ground arith)

next-eq :
    (p : Player) (i : ℕ) {t : Track}
    → current_track p ≡ some t
    → p.position ≡ some i
    → next false p ≡ advance i p
unfolding next
next-eq p i c at = ground arith

mode-eq-repeat : (m : Mode) → mode_eq m repeat ≡ true → m ≡ repeat
mode-eq-repeat m h = ground arith

advance-back :
    (i : ℕ) (p : Player) {played : Played}
    → IsValid p
    → 0 < length p.queue
    → i < length p.order
    → (advance i p).1 ≡ some played
    → (previous (advance i p).0).0.position ≡ some i
unfolding advance
advance-back i p v h inside e = elim (Bool-cases (ltb (i + 1) (length p.order))) [
  | inl f ↦ rw f (
      back_position (record p { position = some (i + 1) }) i
        (moved-IsValid (i + 1) p v (ground arith)) h refl)
  | inr f ↦ elim (Bool-cases (mode_eq p.mode repeat)) [
    | inl g ↦
        let last : length p.order - 1 ≡ i = ground arith in
        rw (f, g)
          (back_wrap (record p { position = some 0 }) (moved-IsValid 0 p v (omega arith)) h refl
              (mode-eq-repeat p.mode g)
            ∙ ap some last)
    | inr g ↦ absurd (ground arith)
  ]
]

next-none : (p : Player) → current_track p ≡ none → (next false p).1 ≡ none
unfolding next
next-none p c = rw (c, next)

restore :
    (p : Player) (i : ℕ) {t : Track} {played : Played}
    → IsValid p
    → 0 < length p.queue
    → p.position ≡ some i
    → current_track p ≡ some t
    → (next false p).1 ≡ some played
    → (previous (next false p).0).0.position ≡ p.position
restore p i v h at c e =
    let same = next-eq p i c at in
    rw same (advance-back i p v h (position_inside p i v h at) (rw same at e)) ∙ sym at

-- `previous` undoes `next`: where the user's next has a track to go to, going back from there
-- restores the position, in every mode of a valid player.
pub previous-next :
    (p : Player) {played : Played}
    → IsValid p
    → (next false p).1 ≡ some played
    → (previous (next false p).0).0.position ≡ p.position
previous-next p v e = elim (Option-cases (current_track p)) [
  | inl c ↦ absurd (cc (next-none p c))
  | inr (t, c) ↦
      let h : 0 < length p.queue = omega (arith, v.full, position-lt p c) in
      let (i, j, at, o, q, b) = current_queue_index-lt p v h in restore p i v h at c e
]
