-- ===== src/Playlists/Ids.antt =====
-- normalizeTrackIds: no id stands twice in what it gives.
use labaiacinghiala.Common.{
  ◌+◌, ◌≤◌, Bool, false, not, ◌||◌, Option, none, some, List, [], ◌∷◌, ◌≡◌, inl, inr, arith, Text,
  text_eq, text_eq_iff, trim, is_empty, length, any, count_rows, ltb, ◌==◌, if◌then◌else◌,
  Bool-cases, ok, require, Returns, Returns->>=, Returns-ok, ap, ◌∙◌,
}
use labaiacinghiala.Playlists.{too_many_tracks, empty_tracks, normalize_track_ids, collect_ids}

-- No id stands twice, and none is among those seen.
abbrev pub Fresh : List Text → List Text → Type 0
Fresh seen ids =
    (v : Text) → count_rows (text_eq v) ids + (if any (text_eq v) seen then 1 else 0) ≤ 1

Fresh-cons :
    (seen : List Text) (id : Text) (ids : List Text)
    → any (text_eq id) seen ≡ false
    → Fresh (id ∷ seen) ids
    → Fresh seen (id ∷ ids)
Fresh-cons seen id ids unseen fresh v = elim (Bool-cases (text_eq v id)) [
  | inl same ↦
      let gone = ap (λ w. any (text_eq w) seen) ((text_eq_iff v id).0 same) ∙ unseen in
      ground (arith, fresh v, same, gone)
  | inr other ↦ ground (arith, fresh v, other)
]

collect_ids-Fresh : (seen values : List Text) → Returns (Fresh seen) (collect_ids seen values)
unfolding collect_ids
collect_ids-Fresh seen [] = λ v. ground arith
collect_ids-Fresh seen (raw ∷ rest) =
    elim (Bool-cases (is_empty (trim raw) || ltb 128 (length (trim raw)))) [
      | inl bad ↦ rw bad tt
      | inr good ↦ elim (Bool-cases (any (text_eq (trim raw)) seen)) [
        | inl again ↦ rw (good, again) (collect_ids-Fresh seen rest)
        | inr unseen ↦
            rw (good, unseen)
              (Returns->>= (Fresh seen) (collect_ids (trim raw ∷ seen) rest)
                (λ ids. ok (trim raw ∷ ids))
                λ ids e. Fresh-cons seen (trim raw) ids unseen (
                  Returns-ok (Fresh (trim raw ∷ seen)) _ (collect_ids-Fresh (trim raw ∷ seen) rest)
                    e))
      ]
    ]

pub normalize_track_ids-Fresh :
    (allow_empty : Bool) (values : Option (List Text))
    → Returns (Fresh []) (normalize_track_ids allow_empty values)
unfolding normalize_track_ids
normalize_track_ids-Fresh allow_empty none = tt
normalize_track_ids-Fresh allow_empty (some values) =
    Returns->>= _ (require (not (ltb 500 (length values))) too_many_tracks) _ λ _ _.
      Returns->>= _ (collect_ids [] values) _ λ ids e.
        Returns->>= _ (require (allow_empty || not (length ids == 0)) empty_tracks) _
          λ _ _. Returns-ok (Fresh []) _ (collect_ids-Fresh [] values) e
