-- ===== src/PlayHistory/Credited.antt =====
-- What the page reports and the server counts, together: a play takes time. The page posts what
-- payload gives, and JSON keeps finite numbers.
use labaiacinghiala.Common.{
  ℕ, ◌+◌, ◌*◌, ◌≤◌, true, Option, none, some, some-inj, List, ◌≡◌, refl, inl, inr, arith, Text,
  is_empty, trim, length, leb_iff, Bool-cases, ok, require, Returns, Returns->>=, Returns-ok,
  JsNumber, amount, sym, ap,
}
use labaiacinghiala.Listening
use labaiacinghiala.Listening.{Listening, start, payload}
use labaiacinghiala.Listening.Credit.{Call, run, Forward, run-le}
use labaiacinghiala.PlayHistory.Reports.{
  Payload, Input, invalid_session, is_session_id, normalize_event, normalize_payload,
  finite_seconds, input_of,
}

-- The report as the server reads it.
unfoldable pub posted : Listening.Payload → Payload
posted p = record {
  session_id = p.session_id;
  event = p.event;
  duration = amount p.duration;
  position = amount p.position;
  listened = amount p.listened;
}

-- What the check of a report says about the time listened to.
IsMeasured : ℕ → Input → Type 0
IsMeasured listened input = input.qualified ≡ true → input.double_threshold ≤ 2 * listened

amount-eq : (n : ℕ) {m : ℕ} → finite_seconds (amount n) ≡ ok m → m ≡ n
unfolding finite_seconds
amount-eq n h = ground (arith, h)

report-IsMeasured :
    (p : Payload) (listened : ℕ) (indexed : JsNumber)
    → p.listened ≡ amount listened
    → Returns (IsMeasured listened) (normalize_payload p indexed)
unfolding normalize_payload input_of IsMeasured
report-IsMeasured p listened indexed given =
    Returns->>= _ (require (is_session_id (trim p.session_id)) invalid_session) _ λ _ _.
      Returns->>= _ (normalize_event p.event) _ λ event _.
        Returns->>= _ (finite_seconds p.duration) _ λ requested _.
          Returns->>= _ (finite_seconds p.position) _ λ position _.
            Returns->>= _ (finite_seconds p.listened) _ λ time e.
              let same = amount-eq listened (rw given at e) in
              λ enough. omega (arith, (leb_iff _ (2 * time)).0 enough, same)

started :
    (session_id track_id : Text) (current : JsNumber) (wall : Option ℕ) {s : Listening}
    → start session_id track_id current wall none ≡ some s
    → s.listened ≡ 0
unfolding start
started session_id track_id current wall {s} h = elim (Bool-cases (is_empty (trim track_id))) [
  | inl no_track ↦ absurd (cc (rw no_track at h))
  | inr track ↦ ap (λ (t : Listening). t.listened) (sym (some-inj (rw track at h)))
]

-- A session counts as a play only after time has gone by: where the clock is not set back, 1.75
-- times the clock's time since the start and three seconds for each call come to at least the
-- threshold, wherever the calls say that the track stands.
pub qualified_takes_time :
    (session_id track_id event : Text) (current duration indexed : JsNumber) (wall : Option ℕ)
    (s : Listening) (calls : List Call) (input : Input)
    → start session_id track_id current wall none ≡ some s
    → Forward s.last_wall calls
    → normalize_payload (posted (payload duration event (run s calls))) indexed ≡ ok input
    → input.qualified ≡ true
    → 2 * input.double_threshold + 7 * s.last_wall
      ≤ 7 * (run s calls).last_wall + 12000 * length calls
unfolding posted payload IsMeasured
qualified_takes_time session_id track_id event current duration indexed wall s calls input opened
      forward made enough =
    let listened = (run s calls).listened in
    let measured =
      Returns-ok (IsMeasured listened) _
        (report-IsMeasured (posted (payload duration event (run s calls))) listened indexed refl)
        made in
    omega (
      arith,
      measured enough,
      run-le s calls forward,
      started session_id track_id current wall {s = s} opened,
    )
