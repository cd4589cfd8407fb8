-- ===== src/Player/Moving.antt =====
-- moveTrack: it keeps a player valid and keeps the track that plays.
use labaiacinghiala.Common.{
  JsNumber, non_negative, ℕ, zero, suc, ◌-◌, ◌<◌, min, true, Option, none, some, List, [], ◌∷◌, ◌≡◌,
  ◌∙◌, ap, inl, inr, arith, Text, length, get_elem?, get_elem?-lt, get_elem?-total,
  get_elem?-range_zero, ltb, ◌==◌, Bool-cases, Option-cases, find_index, find_index_sound,
  text_eq_iff, text_eq_refl,
}
use labaiacinghiala.Player.Tracks.{Track, normalize_text}
use labaiacinghiala.Player.{
  Player, Mode, normal, current_queue_index, current_track, natural_order, has_id,
}
use labaiacinghiala.Player.Edits.{ordered, splice_move, refind, move_from, move_track, holds_id}
use labaiacinghiala.Player.Uniqueness.{
  id_count, id_count-splice_move, id_count-ordered, find_index-none, ordered-natural,
}
use labaiacinghiala.Player.Invariant.{IsValid, natural-IsValid, current_queue_index-lt}
use labaiacinghiala.Player.Preservation.{find_index-lt}

-- In a valid player whose queue has a track, some track is the current one.
pub current_track-total :
    (p : Player)
    → IsValid p
    → 0 < length p.queue
    → (t : Track) × (k : ℕ) × (get_elem? p.queue k ≡ some t) × (current_track p ≡ some t)
unfolding current_track
current_track-total p v h =
    let (i, k, e, g, c, below) = current_queue_index-lt p v h in
    let (t, f) = get_elem?-total p.queue k below in (t, k, f, rw (c, current_track) f)

id_count-pos :
    (queue : List Track) (k : ℕ) {t : Track}
    → get_elem? queue k ≡ some t
    → 0 < id_count t.track_id queue
unfolding id_count has_id
id_count-pos [] k h = absurd (cc)
id_count-pos (x ∷ xs) zero {t} h = ground (arith, text_eq_refl t.track_id)
id_count-pos (x ∷ xs) (suc k) {t} h = omega (arith, id_count-pos xs k h)

pub has_id-eq : (id : Text) (t : Track) → has_id id t ≡ true → t.track_id ≡ id
unfolding has_id
has_id-eq id t h = (text_eq_iff t.track_id id).0 h

abbrev pub id_of : Option Track → Option Text
id_of none = none
id_of (some t) = some t.track_id

-- In the natural order the position is the index of the current track.
pub current_track-natural :
    (p : Player) (queue : List Track) (o : Option ℕ) (m : Mode) {i : ℕ} {t : Track}
    → o ≡ some i
    → get_elem? queue i ≡ some t
    → current_track
        (record p { queue = queue; order = natural_order queue; position = o; mode = m })
      ≡ some t
unfolding current_track
current_track-natural p queue o m {i} e g =
    rw
      (
        e,
        current_track,
        current_queue_index,
        get_elem?-range_zero (length queue) i (get_elem?-lt queue i g),
      )
      g

module _ (source target : ℕ) (p : Player) (v : IsValid p) (some_track : 0 < length p.queue) where
  moved_queue : List Track
  moved_queue = splice_move source target (ordered p.queue p.order)

  moved-id_count : (id : Text) → id_count id moved_queue ≡ id_count id p.queue
  unfolding moved_queue
  moved-id_count id =
      id_count-splice_move id source target (ordered p.queue p.order)
      ∙ id_count-ordered id p.queue p.order v.once

  moved-refind :
      (t : Track) × (i : ℕ) × (current_track p ≡ some t)
      × (refind (current_track p) moved_queue ≡ some i)
      × (find_index (has_id t.track_id) moved_queue ≡ some i)
  unfolding refind
  moved-refind =
      let (t, k, g, c) = current_track-total p v some_track in
      elim (Option-cases (find_index (has_id t.track_id) moved_queue)) [
        | inl e ↦ absurd (
            omega (
              arith,
              find_index-none t.track_id moved_queue e,
              moved-id_count t.track_id,
              id_count-pos p.queue k g,
            ))
        | inr (i, e) ↦ (t, i, c, rw (c, refind) e, e)
      ]

  pub move_from-IsValid : IsValid (move_from source target p).0
  unfolding move_from moved_queue
  move_from-IsValid =
      let (t, i, c, r, e) = moved-refind in
      natural-IsValid p moved_queue (refind (current_track p) moved_queue) normal p.context
        (rw r (find_index-lt (has_id t.track_id) moved_queue e))
        (λ id. omega (arith, moved-id_count id, v.unique id))

  -- The tracks in playing order are spliced.
  pub ordered-move_from :
      ordered (move_from source target p).0.queue (move_from source target p).0.order
      ≡ splice_move source target (ordered p.queue p.order)
  unfolding move_from
  ordered-move_from = ordered-natural (splice_move source target (ordered p.queue p.order))

  -- The track that plays goes on playing.
  pub current_track-move_from :
      id_of (current_track (move_from source target p).0) ≡ id_of (current_track p)
  unfolding move_from moved_queue
  current_track-move_from =
      let (t, i, c, r, e) = moved-refind in
      let (u, g, is) = find_index_sound (has_id t.track_id) moved_queue e in
      rw (current_track-natural p moved_queue (refind (current_track p) moved_queue) normal r g)
        (rw c (ap some (has_id-eq t.track_id u is)))

pub move_track-IsValid :
    (id : Option Text) (target : JsNumber) (p : Player)
    → IsValid p
    → IsValid (move_track id target p).0
unfolding move_track
move_track-IsValid id target p v =
    elim (Option-cases (find_index (holds_id p.queue (normalize_text id)) p.order)) [
      | inl e ↦ rw (e, move_track) v
      | inr (source, e) ↦ elim (Bool-cases (ltb (length p.order) 2)) [
        | inl f ↦ rw (e, f, move_track) v
        | inr f ↦ elim (Bool-cases (source == min (length p.order - 1) (non_negative target))) [
          | inl g ↦ rw (e, f, g, move_track) v
          | inr g ↦
              rw (e, f, g, move_track) (move_from-IsValid source _ p v (ground (arith, v.full)))
        ]
      ]
    ]
