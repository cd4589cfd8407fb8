-- ===== src/Player/Shifts.antt =====
-- Where moveTrack puts a track of the playing order, and what becomes of the others.
use labaiacinghiala.Common.{
  count-pos, some-inj, JsNumber, non_negative, ℕ, zero, suc, ◌-◌, ◌<◌, min, true, false, Option,
  some, List, [], ◌∷◌, ◌≡◌, ◌∙◌, ap, sym, subst, inl, inr, arith, Text, length, get_elem?,
  get_elem?-lt, get_elem?-total, remove_at, insert_at, refl, ◌≤◌, ltb, ◌==◌, Bool-cases,
  Option-cases, find_index, find_index_sound,
}
use labaiacinghiala.Player.Tracks.{Track, normalize_text}
use labaiacinghiala.Player.{Player, current_track}
use labaiacinghiala.Player.Edits.{ordered, splice_move, move_track, holds_id}
use labaiacinghiala.Player.Invariant.{IsValid}
use labaiacinghiala.Player.Moving.{id_of, has_id-eq, ordered-move_from, current_track-move_from}

get-insert_at :
    (i : ℕ) (t : Track) (xs : List Track) → i ≤ length xs → get_elem? (insert_at i t xs) i ≡ some t
get-insert_at zero t xs h = refl
get-insert_at (suc i) t [] h = absurd (omega (arith, h))
get-insert_at (suc i) t (x ∷ xs) h = get-insert_at i t xs (omega (arith, h))

remove_at-insert_at :
    (i : ℕ) (t : Track) (xs : List Track) → i ≤ length xs → remove_at i (insert_at i t xs) ≡ xs
remove_at-insert_at zero t xs h = refl
remove_at-insert_at (suc i) t [] h = absurd (omega (arith, h))
remove_at-insert_at (suc i) t (x ∷ xs) h =
    ap (λ rest. x ∷ rest) (remove_at-insert_at i t xs (omega (arith, h)))

length-remove_at :
    (i : ℕ) (xs : List Track) → i < length xs → length xs ≡ suc (length (remove_at i xs))
length-remove_at i [] h = absurd (omega (arith, h))
length-remove_at zero (x ∷ xs) h = refl
length-remove_at (suc i) (x ∷ xs) h = ap suc (length-remove_at i xs (omega (arith, h)))

-- A list with the element at one place moved to another: it stands there, and the others are as they
-- were.
pub record Shifts (source target : ℕ) (before after : List Track) : Type 0 where
  pub arrived : get_elem? after target ≡ get_elem? before source
  pub others : remove_at target after ≡ remove_at source before

stays-Shifts : (i : ℕ) (xs : List Track) → Shifts i i xs xs
stays-Shifts i xs = record { arrived = refl; others = refl }

splice_move-Shifts :
    (source target : ℕ) (xs : List Track)
    → source < length xs
    → target < length xs
    → Shifts source target xs (splice_move source target xs)
unfolding splice_move
splice_move-Shifts source target xs inside fits =
    let (t, found) = get_elem?-total xs source inside in
    let room : target ≤ length (remove_at source xs) =
      omega (arith, fits, length-remove_at source xs inside) in
    rw (found, splice_move)
      (record {
        arrived = get-insert_at target t (remove_at source xs) room ∙ sym found;
        others = remove_at-insert_at target t (remove_at source xs) room;
      })

module _ (queue : List Track) where
  abbrev AllBelow : List ℕ → Type 0
  AllBelow order = (i k : ℕ) → get_elem? order i ≡ some k → k < length queue

  length-ordered : (order : List ℕ) → AllBelow order → length (ordered queue order) ≡ length order
  unfolding ordered
  length-ordered [] h = refl
  length-ordered (k ∷ order) h =
      let (t, e) = get_elem?-total queue k (h 0 k refl) in
      rw (e, ordered) (ap suc (length-ordered order (λ i. h (suc i))))

  get-ordered :
      (order : List ℕ) (i : ℕ) {k : ℕ}
      → AllBelow order
      → get_elem? order i ≡ some k
      → get_elem? (ordered queue order) i ≡ get_elem? queue k
  unfolding ordered
  get-ordered [] i h g = cc
  get-ordered (j ∷ order) zero {k} h g =
      let (t, e) = get_elem?-total queue j (h 0 j refl) in
      rw (e, ordered) (sym e ∙ ap (get_elem? queue) (some-inj g))
  get-ordered (j ∷ order) (suc i) {k} h g =
      let (t, e) = get_elem?-total queue j (h 0 j refl) in
      rw (e, ordered) (get-ordered order i (λ m. h (suc m)) g)

holds_id-eq :
    (queue : List Track) (wanted : Text) (k : ℕ)
    → holds_id queue wanted k ≡ true
    → id_of (get_elem? queue k) ≡ some wanted
unfolding holds_id
holds_id-eq queue wanted k h = elim (Option-cases (get_elem? queue k)) [
  | inl e ↦ let no : false ≡ true = rw (e, holds_id) at h in absurd (cc no)
  | inr (t, e) ↦ rw e (ap some (has_id-eq wanted t (rw (e, holds_id) at h)))
]

order-below :
    (p : Player) → IsValid p → (i k : ℕ) → get_elem? p.order i ≡ some k → k < length p.queue
order-below p v i k g = ground (arith, v.once k, count-pos p.order i g)

move_track-settled :
    (id : Option Text) (target : JsNumber) (p : Player) {source : ℕ}
    → IsValid p
    → find_index (holds_id p.queue (normalize_text id)) p.order ≡ some source
    → source < length p.order
    → Shifts source
        (min (length p.order - 1) (non_negative target))
        (ordered p.queue p.order)
        (ordered (move_track id target p).0.queue (move_track id target p).0.order)
      × (id_of (current_track (move_track id target p).0) ≡ id_of (current_track p))
unfolding move_track
move_track-settled id target p {source} v e inside =
    let bounded = min (length p.order - 1) (non_negative target) in
    let whole = length-ordered p.queue p.order (order-below p v) in
    let tracks = ordered p.queue p.order in
    elim (Bool-cases (ltb (length p.order) 2)) [
      | inl f ↦
          let same : source ≡ bounded = ground arith in
          rw (e, f, move_track)
            (subst (λ i. Shifts source i tracks tracks) same (stays-Shifts source tracks), refl)
      | inr f ↦ elim (Bool-cases (source == bounded)) [
        | inl q ↦
            rw (e, f, q, move_track)
              (
                subst (λ i. Shifts source i tracks tracks) (ground (arith, q))
                    (stays-Shifts source tracks),
                refl,
              )
        | inr q ↦
            let some_track : 0 < length p.queue = omega (arith, inside, v.full) in
            rw (e, f, q, move_track)
              (
                rw (ordered-move_from source bounded p v some_track) (
                    splice_move-Shifts source bounded tracks (rw whole inside)
                      (rw whole (ground (arith, inside)))),
                current_track-move_from source bounded p v some_track,
              )
      ]
    ]

-- A move in a valid player, where the playing order holds the id first at `source`: the track there
-- has the id, it comes to stand at the target, with a target below zero read as zero and one past
-- the end as the last place, the other tracks stay in the order they had, and the track that plays
-- goes on playing.
pub move_track-Shifts :
    (id : Option Text) (target : JsNumber) (p : Player) {source : ℕ}
    → IsValid p
    → find_index (holds_id p.queue (normalize_text id)) p.order ≡ some source
    → (id_of (get_elem? (ordered p.queue p.order) source) ≡ some (normalize_text id))
      × Shifts source
          (min (length p.order - 1) (non_negative target))
          (ordered p.queue p.order)
          (ordered (move_track id target p).0.queue (move_track id target p).0.order)
      × (id_of (current_track (move_track id target p).0) ≡ id_of (current_track p))
move_track-Shifts id target p {source} v e =
    let (k, g, is) = find_index_sound (holds_id p.queue (normalize_text id)) p.order e in
    let (shifts, plays) =
      move_track-settled id target p {source = source} v e (get_elem?-lt p.order source g) in
    (
      ap id_of (get-ordered p.queue p.order source {k = k} (order-below p v) g)
          ∙ holds_id-eq p.queue (normalize_text id) k is,
      shifts,
      plays,
    )
