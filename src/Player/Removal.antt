-- ===== src/Player/Removal.antt =====
-- removeTrack: the tracks that stay keep their playing order, and the track that plays goes on
-- unless it is the one removed.
use labaiacinghiala.Common.{
  ℕ, zero, suc, ◌+◌, ◌<◌, Text, not, Option, none, some, List, [], ◌∷◌, ◌≡◌, refl, ◌∙◌, inl, inr,
  arith, length, get_elem?, get_elem?-lt, get_elem?-total, remove_at, keep, map, shift_down, count,
  count-pos, ltb, ◌==◌, if◌then◌else◌, Bool-cases, ◌≢◌, subst, ap, sym,
}
use labaiacinghiala.Player.Tracks.{Track}
use labaiacinghiala.Player.{Player, current_track, current_queue_index}
use labaiacinghiala.Player.Edits.{ordered, remove_found, position_after}
use labaiacinghiala.Player.Tracks.{normalize_text}
use labaiacinghiala.Player.{locate}
use labaiacinghiala.Player.Edits.{remove_track}
use labaiacinghiala.Player.Invariant.{IsValid, Placed, current_queue_index-lt}
use labaiacinghiala.Player.Preservation.{locate_sound}
use labaiacinghiala.Player.EditPreservation.{remove_found-IsValid}

shift_down-suc : (k i : ℕ) → i ≢ k → shift_down (suc k) (suc i) ≡ suc (shift_down k i)
shift_down-suc k i h = ground arith

-- The list without its entry at `k`, read at the shifted index.
get_elem?-remove_at {ℓ} :
    {A : Type ℓ} (xs : List A) (k i : ℕ)
    → i ≢ k
    → get_elem? (remove_at k xs) (shift_down k i) ≡ get_elem? xs i
get_elem?-remove_at [] k i h = refl
get_elem?-remove_at (x ∷ xs) zero zero h = absurd (h refl)
get_elem?-remove_at (x ∷ xs) zero (suc i) h = ground arith
get_elem?-remove_at (x ∷ xs) (suc k) zero h = ground arith
get_elem?-remove_at (x ∷ xs) (suc k) (suc i) h =
    let h' : i ≢ k = λ e. h (ap suc e) in rw (shift_down-suc k i h') (get_elem?-remove_at xs k i h')

-- Every entry of the order is an index of the queue.
abbrev pub InQueue : List Track → List ℕ → Type 0
InQueue queue order = (a : ℕ) → 0 < count a order → a < length queue

InQueue-tail :
    (queue : List Track) (x : ℕ) (order : List ℕ) → InQueue queue (x ∷ order) → InQueue queue order
InQueue-tail queue x order h a c = h a (omega arith)

InQueue-head :
    (queue : List Track) (x : ℕ) (order : List ℕ) → InQueue queue (x ∷ order) → x < length queue
InQueue-head queue x order h = h x (ground arith)

-- The track at a place of the ordered tracks.
get_elem?-ordered :
    (queue : List Track) (order : List ℕ) (j : ℕ) {k : ℕ}
    → InQueue queue order
    → get_elem? order j ≡ some k
    → get_elem? (ordered queue order) j ≡ get_elem? queue k
unfolding ordered
get_elem?-ordered queue [] j h e = absurd (cc)
get_elem?-ordered queue (x ∷ order) zero h e =
    let (t, g) = get_elem?-total queue x (InQueue-head queue x order h) in
    rw (g, ordered) (ground arith)
get_elem?-ordered queue (x ∷ order) (suc j) h e =
    let (t, g) = get_elem?-total queue x (InQueue-head queue x order h) in
    rw (g, ordered) (get_elem?-ordered queue order j (InQueue-tail queue x order h) e)

ordered-without :
    (queue : List Track) (k : ℕ) (order : List ℕ)
    → count k order ≡ 0
    → ordered (remove_at k queue) (map (shift_down k) (keep (λ i. not (i == k)) order))
      ≡ ordered queue order
unfolding ordered
ordered-without queue k [] h = refl
ordered-without queue k (x ∷ order) h = elim (Bool-cases (x == k)) [
  | inl e ↦ absurd (ground arith)
  | inr e ↦
      rw (e, ordered)
        (ground (
          arith,
          get_elem?-remove_at queue k x (ground arith),
          ordered-without queue k order (omega arith),
        ))
]

count_self : (x k : ℕ) (order : List ℕ) → x ≡ k → count k (x ∷ order) ≡ suc (count k order)
count_self x k order e = ground arith

-- Taking a track out of the queue takes it out of the ordered tracks, at its place.
ordered-remove :
    (queue : List Track) (k : ℕ) (order : List ℕ) (j : ℕ)
    → InQueue queue order
    → count k order ≡ 1
    → get_elem? order j ≡ some k
    → ordered (remove_at k queue) (map (shift_down k) (keep (λ i. not (i == k)) order))
      ≡ remove_at j (ordered queue order)
unfolding ordered
ordered-remove queue k [] j h c e = absurd (cc)
ordered-remove queue k (x ∷ order) zero h c e =
    let (t, g) = get_elem?-total queue x (InQueue-head queue x order h) in
    ground (arith, g, ordered-without queue k order)
ordered-remove queue k (x ∷ order) (suc j) h c e =
    let (t, g) = get_elem?-total queue x (InQueue-head queue x order h) in
    let ne : x ≢ k = λ same. omega (arith, count-pos order j e, count_self x k order same) in
    ground (
      arith,
      g,
      get_elem?-remove_at queue k x ne,
      ordered-remove queue k order j (InQueue-tail queue x order h),
    )

IsValid-InQueue : (p : Player) → IsValid p → InQueue p.queue p.order
IsValid-InQueue p v a c = ground (arith, v.once a)

-- The tracks of a player in playing order.
abbrev pub line_up : Player → List Track
line_up p = ordered p.queue p.order

-- The track that plays is the one at the position, in playing order.
pub current_track-line_up :
    (p : Player) (j : ℕ)
    → IsValid p
    → p.position ≡ some j
    → current_track p ≡ get_elem? (line_up p) j
unfolding current_track
current_track-line_up p j v at =
    let inside : j < length p.order = subst (λ o. Placed o (length p.order)) at v.placed in
    let (k, g) = get_elem?-total p.order j inside in
    let e : current_queue_index p ≡ some k = index_at p j at ∙ g in
    rw (e, current_track) (sym (get_elem?-ordered p.queue p.order j (IsValid-InQueue p v) g))
  where
    index_at :
        (p : Player) (j : ℕ) → p.position ≡ some j → current_queue_index p ≡ get_elem? p.order j
    index_at p j at = ground arith

-- What removeTrack does to the player, where it finds the track at place `oi` of the order.
pub record Removal (oi : ℕ) (p q : Player) : Type 0 where
  -- The other tracks stay, in their playing order.
  pub tracks : line_up q ≡ remove_at oi (line_up p)
  -- Another track that plays goes on.
  pub kept : p.position ≢ some oi → current_track q ≡ current_track p
  -- After the track that plays comes the next one, and after the last one the first.
  pub followed :
      p.position ≡ some oi
      → current_track q ≡ (
          if ltb (oi + 1) (length p.order)
          then get_elem? (line_up p) (oi + 1)
          else get_elem? (line_up q) 0)

position_after_ne :
    (i oi total n : ℕ) → i ≢ oi → position_after (some i) oi total n ≡ some (shift_down oi i)
unfolding position_after
position_after_ne i oi total n h = ground arith

position_after_self :
    (oi total n : ℕ)
    → position_after (some oi) oi total n
      ≡ (if ltb (oi + 1) total then some oi else if ltb 0 n then some 0 else none)
unfolding position_after
position_after_self oi total n = ground arith

line_up-nil : (p : Player) → length p.order ≡ 0 → line_up p ≡ []
unfolding ordered
line_up-nil p h = rw (nil p.order h) refl
  where
    nil : (order : List ℕ) → length order ≡ 0 → order ≡ []
    nil [] e = refl
    nil (x ∷ order) e = absurd (omega arith)

no_position : (p : Player) → p.position ≡ none → current_track p ≡ none
unfolding current_track current_queue_index
no_position p e = ground arith

shift_down-next : (oi : ℕ) → shift_down oi (oi + 1) ≡ oi
shift_down-next oi = ground arith

module _ (p : Player) (v : IsValid p) (qi oi : ℕ) (o : get_elem? p.order oi ≡ some qi) {t : Track}
    (g : get_elem? p.queue qi ≡ some t) where
  left : Player
  left = (remove_found qi oi p).0

  left-tracks : line_up left ≡ remove_at oi (line_up p)
  unfolding left remove_found
  left-tracks =
      ordered-remove p.queue qi p.order oi (IsValid-InQueue p v)
        (ground (arith, v.once qi, get_elem?-lt p.queue qi g)) o

  left-IsValid : IsValid left
  unfolding left
  left-IsValid = remove_found-IsValid qi oi p v g (get_elem?-lt p.order oi o)

  left-position : left.position ≡ position_after p.position oi (length p.order) (length left.order)
  unfolding left remove_found
  left-position = refl

  left-kept : p.position ≢ some oi → current_track left ≡ current_track p
  left-kept ne =
      let (i, k, at, f, c, below) =
        current_queue_index-lt p v (omega (arith, get_elem?-lt p.queue qi g)) in
      let other : i ≢ oi = λ e. ne (at ∙ ap some e) in
      let place =
        left-position
        ∙ ap (λ x. position_after x oi (length p.order) (length left.order)) at
        ∙ position_after_ne i oi (length p.order) (length left.order) other in
      current_track-line_up left (shift_down oi i) left-IsValid place
      ∙ ap (λ l. get_elem? l (shift_down oi i)) left-tracks
      ∙ get_elem?-remove_at (line_up p) oi i other
      ∙ sym (current_track-line_up p i v at)

  left-place :
      p.position ≡ some oi
      → left.position ≡ (
          if ltb (oi + 1) (length p.order)
          then some oi
          else if ltb 0 (length left.order)
          then some 0
          else none)
  left-place at =
      left-position
      ∙ ap (λ x. position_after x oi (length p.order) (length left.order)) at
      ∙ position_after_self oi (length p.order) (length left.order)

  left-last :
      left.position ≡ (if ltb 0 (length left.order) then some 0 else none)
      → current_track left ≡ get_elem? (line_up left) 0
  left-last place = elim (Bool-cases (ltb 0 (length left.order))) [
    | inl e ↦ current_track-line_up left 0 left-IsValid (rw e at place)
    | inr e ↦ rw (line_up-nil left (ground arith)) (no_position left (rw e at place))
  ]

  left-followed :
      p.position ≡ some oi
      → current_track left ≡ (
          if ltb (oi + 1) (length p.order)
          then get_elem? (line_up p) (oi + 1)
          else get_elem? (line_up left) 0)
  left-followed at = elim (Bool-cases (ltb (oi + 1) (length p.order))) [
    | inl e ↦ rw e (
        current_track-line_up left oi left-IsValid (rw e at (left-place at))
        ∙ ap (λ l. get_elem? l oi) left-tracks
        ∙ ap (get_elem? (remove_at oi (line_up p))) (sym (shift_down-next oi))
        ∙ get_elem?-remove_at (line_up p) oi (oi + 1) (λ h. omega arith))
    | inr e ↦ rw e (left-last (rw e at (left-place at)))
  ]

  left-Removal : Removal oi p left
  left-Removal = record { tracks = left-tracks; kept = left-kept; followed = left-followed }

-- In a valid player, removeTrack of a track found at place `oi` of the playing order takes out
-- that track and no other; the track that plays goes on if it is another, and otherwise gives way
-- to the next one in order, or after the last to the first.
pub remove_track-Removal :
    (id : Option Text) (p : Player) {qi oi : ℕ}
    → IsValid p
    → locate (normalize_text id) p ≡ some (qi, oi)
    → Removal oi p (remove_track id p).0
unfolding remove_track left
remove_track-Removal id p {qi} {oi} v f =
    let (t, g, is, o) = locate_sound (normalize_text id) p f in
    rw (f, remove_track) (left-Removal p v qi oi o g)
