-- ===== src/Player/Modes.antt =====
-- setMode, cycleMode and appendTracks leave the track that plays alone.
use labaiacinghiala.Common.{
  ℕ, ◌<◌, none, some, ◌≡◌, refl, inl, inr, arith, length, get_elem?, get_elem?-lt, ◌==◌,
  get_elem?-range_zero, Bool-cases, Option-cases, sym, ap, ◌∙◌,
}
use labaiacinghiala.Player.{
  Mode, shuffled, mode_eq, Player, current_queue_index, current_track, reshuffle, rebuild_order,
  change_mode,
}
use labaiacinghiala.Player.Invariant.{IsValid, current_queue_index-lt}

module _ (p : Player) (k : ℕ) (at_k : current_queue_index p ≡ some k) where
  reshuffle-index : current_queue_index (reshuffle p) ≡ some k
  unfolding reshuffle
  reshuffle-index = rw at_k

  rebuild_order-index :
      (m : Mode) → k < length p.queue → current_queue_index (rebuild_order m p) ≡ some k
  unfolding rebuild_order
  rebuild_order-index m h = elim (Bool-cases (length p.queue == 0)) [
    | inl e ↦ absurd (ground arith)
    | inr e ↦ elim (Bool-cases (mode_eq m shuffled)) [
      | inl f ↦ rw (e, f) reshuffle-index
      | inr f ↦ rw (e, f) (rw at_k (get_elem?-range_zero (length p.queue) k h))
    ]
  ]

reshuffle-queue : (p : Player) → (reshuffle p).queue ≡ p.queue
unfolding reshuffle
reshuffle-queue p = refl

rebuild_order-queue : (m : Mode) (p : Player) → (rebuild_order m p).queue ≡ p.queue
unfolding rebuild_order
rebuild_order-queue m p = ground arith

current_track_of-index :
    (p q : Player) (k : ℕ)
    → current_queue_index p ≡ some k
    → current_queue_index q ≡ some k
    → q.queue ≡ p.queue
    → current_track q ≡ current_track p
unfolding current_track
current_track_of-index p q k e f g = ground arith

current_track-empty : (p : Player) → length p.queue ≡ 0 → current_track p ≡ none
unfolding current_track
current_track-empty p h = elim (Option-cases (current_queue_index p)) [
  | inl e ↦ rw (e, current_track)
  | inr (k, e) ↦ elim (Option-cases (get_elem? p.queue k)) [
    | inl f ↦ rw (e, f, current_track)
    | inr (t, f) ↦ absurd (omega (arith, get_elem?-lt p.queue k f))
  ]
]

rebuild_order-current_track :
    (m : Mode) (p : Player) → IsValid p → current_track (rebuild_order m p) ≡ current_track p
rebuild_order-current_track m p v = elim (Bool-cases (length p.queue == 0)) [
  | inl e ↦
      let empty : length p.queue ≡ 0 = ground arith in
      current_track-empty (rebuild_order m p) (ap length (rebuild_order-queue m p) ∙ empty)
      ∙ sym (current_track-empty p empty)
  | inr e ↦
      let (i, k, at, g, c, below) = current_queue_index-lt p v (ground arith) in
      current_track_of-index p (rebuild_order m p) k c (rebuild_order-index p k c m below)
        (rebuild_order-queue m p)
]

-- A change of mode keeps the track that plays and the queue, in every valid player.
pub change_mode-current_track :
    (m : Mode) (p : Player)
    → IsValid p
    → (current_track (change_mode m p) ≡ current_track p) × ((change_mode m p).queue ≡ p.queue)
unfolding change_mode current_track
change_mode-current_track m p v = elim (Bool-cases (mode_eq p.mode m)) [
  | inl e ↦ rw e (refl, refl)
  | inr e ↦ rw e (rebuild_order-current_track m p v, rebuild_order-queue m p)
]
