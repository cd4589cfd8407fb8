-- ===== src/Player/Preservation.antt =====
-- Every operation of the player keeps it valid.
use labaiacinghiala.Common.{
  ℕ, ◌+◌, ◌-◌, ◌<◌, Bool, true, Option, none, some, List, [], ◌∷◌, ◌≡◌, refl, subst, inl, inr,
  arith, Text, contains, length, get_elem?, get_elem?-lt, ltb, ◌==◌, Bool-cases, Option-cases,
  find_index, find_index_sound, is_empty, ◌&&◌,
}
use labaiacinghiala.Player.Tracks.{
  RawTrack, RawContext, Track, Context, normalize_text, normalize_context,
}
use labaiacinghiala.Player.{
  Player, Mode, current_queue_index, current_track, or_zero, rebuild_order, mode_eq, shuffled,
  change_mode, parse_mode, set_mode, cycle_mode, collect, values_of, has_id, start_at, load,
  set_queue, locate, index_of, select_track, repeat, repeat_one,
}
use labaiacinghiala.Player.Edits.{clear_queue}
use labaiacinghiala.Player.Playback.{advance, next, step_back, previous, position_or_zero}
use labaiacinghiala.Player.Uniqueness.{IsUnique, id_count, id_count-collect}
use labaiacinghiala.Player.Invariant.{
  Placed, IsValid, or_zero-lt, reshuffle-IsValid, natural-IsValid,
}

pub find_index-lt {ℓ} :
    {A : Type ℓ} (p : A → Bool) (xs : List A) {i : ℕ} → find_index p xs ≡ some i → i < length xs
find_index-lt p xs h = let (a, g, t) = find_index_sound p xs h in get_elem?-lt xs _ g

with_mode-IsValid : (m : Mode) (p : Player) → IsValid p → IsValid (record p { mode = m })
with_mode-IsValid m p v = record {
  once = v.once;
  full = v.full;
  placed = v.placed;
  unique = v.unique;
}

rebuild_order-IsValid : (m : Mode) (p : Player) → IsValid p → IsValid (rebuild_order m p)
unfolding rebuild_order
rebuild_order-IsValid m p v = elim (Bool-cases (length p.queue == 0)) [
  | inl e ↦
      rw (e, rebuild_order)
        (record { once = λ a. ground arith; full = ground arith; placed = refl; unique = v.unique })
  | inr e ↦ elim (Bool-cases (mode_eq m shuffled)) [
    | inl f ↦
        rw (e, f, rebuild_order) (reshuffle-IsValid p (or_zero-lt p v (ground arith)) v.unique)
    | inr f ↦
        rw (e, f, rebuild_order)
          (natural-IsValid p p.queue (some (or_zero (current_queue_index p))) p.mode p.context
            (or_zero-lt p v (ground arith)) v.unique)
  ]
]

pub change_mode-IsValid : (m : Mode) (p : Player) → IsValid p → IsValid (change_mode m p)
unfolding change_mode
change_mode-IsValid m p v = elim (Bool-cases (mode_eq p.mode m)) [
  | inl e ↦ rw e v
  | inr e ↦ rw e (with_mode-IsValid m (rebuild_order m p) (rebuild_order-IsValid m p v))
]

pub set_mode-IsValid :
    (t : Text) (p : Player) {q : Player} → IsValid p → set_mode t p ≡ some q → IsValid q
unfolding set_mode
set_mode-IsValid t p v h = elim (Option-cases (parse_mode t)) [
  | inl e ↦ absurd (ground arith)
  | inr (m, e) ↦
      let same : change_mode m p ≡ _ = ground arith in
      subst IsValid same (change_mode-IsValid m p v)
]

pub cycle_mode-IsValid : (p : Player) → IsValid p → IsValid (cycle_mode p)
unfolding cycle_mode
cycle_mode-IsValid p v = change_mode-IsValid _ p v

start_at-Placed :
    (id : Text) (queue : List Track)
    → Placed (start_at queue (find_index (has_id id) queue)) (length queue)
start_at-Placed id queue = elim (Option-cases (find_index (has_id id) queue)) [
  | inl e ↦ rw e (none_case queue)
  | inr (i, e) ↦ rw e (find_index-lt (has_id id) queue e)
]
  where
    none_case : (q : List Track) → Placed (start_at q none) (length q)
    none_case [] = refl
    none_case (t ∷ ts) = omega arith

-- A freshly loaded player stands at an index of its queue, if it has one.
loaded-IsValid :
    (queue : List Track) (id : Text) (c : Context) (p : Player)
    → IsUnique queue
    → IsValid (load queue (find_index (has_id id) queue) c p)
loaded-IsValid queue id c p u =
    natural-IsValid p queue (start_at queue (find_index (has_id id) queue)) p.mode (some c)
      (start_at-Placed id queue) u

collect-IsUnique : (values : List (Option RawTrack)) → IsUnique (collect [] values)
unfolding contains
collect-IsUnique values id = id_count-collect id [] values

pub set_queue-IsValid :
    (values : Option (List (Option RawTrack))) (start : Option Text) (c : Option RawContext)
    (p : Player)
    → IsValid (set_queue values start c p)
unfolding set_queue
set_queue-IsValid values start c p =
    let queue = collect [] (values_of values) in
    let id = normalize_text start in
    let unique = collect-IsUnique (values_of values) in
    let loaded = load queue (find_index (has_id id) queue) (normalize_context c) p in
    let v = loaded-IsValid queue id (normalize_context c) p unique in
    elim (Bool-cases (mode_eq p.mode shuffled && ltb 0 (length queue))) [
      | inl e ↦ rw e (reshuffle-IsValid loaded (or_zero-lt loaded v (ground arith)) unique)
      | inr e ↦ rw e v
    ]

pub moved-IsValid :
    (i : ℕ) (p : Player) → IsValid p → i < length p.order → IsValid (record p { position = some i })
moved-IsValid i p v h = record { once = v.once; full = v.full; placed = h; unique = v.unique }

-- What `locate` finds: a track with the id, and the place of its index in the order.
pub locate_sound :
    (id : Text) (p : Player) {qi oi : ℕ}
    → locate id p ≡ some (qi, oi)
    → (t : Track) × (get_elem? p.queue qi ≡ some t)
      × (has_id id t ≡ true)
      × (get_elem? p.order oi ≡ some qi)
unfolding locate
locate_sound id p h = elim (Option-cases (find_index (has_id id) p.queue)) [
  | inl e ↦ absurd (ground arith)
  | inr (j, e) ↦ elim (Option-cases (index_of j p.order)) [
    | inl f ↦ absurd (ground arith)
    | inr (k, f) ↦
        let (t, g, is) = find_index_sound (has_id id) p.queue e in
        let (x, at_k, same) = find_index_sound (λ x. x == j) p.order f in
        (t, ground arith, is, ground arith)
  ]
]

pub select_track-IsValid :
    (id : Option Text) (p : Player) → IsValid p → IsValid (select_track id p).0
unfolding select_track
select_track-IsValid id p v = elim (Bool-cases (is_empty (normalize_text id))) [
  | inl e ↦ rw e v
  | inr e ↦ elim (Option-cases (locate (normalize_text id) p)) [
    | inl f ↦ rw (e, f, select_track) v
    | inr ((qi, oi), f) ↦
        let (t, g, is, o) = locate_sound (normalize_text id) p f in
        rw (e, f, select_track) (moved-IsValid oi p v (get_elem?-lt p.order oi o))
  ]
]

pub clear_queue-IsValid : (p : Player) → IsValid (clear_queue p).0
unfolding clear_queue id_count
clear_queue-IsValid p = record {
  once = λ a. ground arith;
  full = refl;
  placed = refl;
  unique = λ id. omega arith;
}

pub position-lt :
    (p : Player) {t : Track}
    → current_track p ≡ some t
    → position_or_zero p.position < length p.order
unfolding current_track
position-lt p h = elim (Option-cases p.position) [
  | inl e ↦ absurd (ground arith)
  | inr (i, e) ↦ elim (Option-cases (get_elem? p.order i)) [
    | inl f ↦ absurd (ground arith)
    | inr (k, f) ↦ ground (arith, get_elem?-lt p.order i f)
  ]
]

advance-IsValid : (i : ℕ) (p : Player) → IsValid p → i < length p.order → IsValid (advance i p).0
unfolding advance
advance-IsValid i p v h = elim (Bool-cases (ltb (i + 1) (length p.order))) [
  | inl e ↦ rw e (moved-IsValid (i + 1) p v (ground arith))
  | inr e ↦ elim (Bool-cases (mode_eq p.mode repeat)) [
    | inl f ↦ rw (e, f) (moved-IsValid 0 p v (omega arith))
    | inr f ↦ rw (e, f) v
  ]
]

pub next-IsValid : (automatic : Bool) (p : Player) → IsValid p → IsValid (next automatic p).0
unfolding next
next-IsValid automatic p v = elim (Option-cases (current_track p)) [
  | inl e ↦ rw (e, next) v
  | inr (t, e) ↦ elim (Bool-cases (automatic && mode_eq p.mode repeat_one)) [
    | inl f ↦ rw (e, f, next) v
    | inr f ↦ rw (e, f, next) (advance-IsValid (position_or_zero p.position) p v (position-lt p e))
  ]
]

step_back-IsValid :
    (i : ℕ) (t : Track) (p : Player) → IsValid p → i < length p.order → IsValid (step_back i t p).0
unfolding step_back
step_back-IsValid i t p v h = elim (Bool-cases (ltb 0 i)) [
  | inl e ↦ rw e (moved-IsValid (i - 1) p v (omega arith))
  | inr e ↦ elim (Bool-cases (mode_eq p.mode repeat && ltb 1 (length p.order))) [
    | inl f ↦ rw (e, f) (moved-IsValid (length p.order - 1) p v (omega arith))
    | inr f ↦ rw (e, f) v
  ]
]

pub previous-IsValid : (p : Player) → IsValid p → IsValid (previous p).0
unfolding previous
previous-IsValid p v = elim (Option-cases (current_track p)) [
  | inl e ↦ rw (e, previous) v
  | inr (t, e) ↦
      rw (e, previous) (step_back-IsValid (position_or_zero p.position) t p v (position-lt p e))
]
