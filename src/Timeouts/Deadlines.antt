-- ===== src/Timeouts/Deadlines.antt =====
-- A request has one deadline until its body is received or refused, and at most one refusal.
use labaiacinghiala.Common.{
  ℕ, ◌+◌, ◌≤◌, Bool, true, false, not, ◌&&◌, ◌||◌, List, [], ◌∷◌, ◌++◌, ◌≡◌, refl, arith,
  if◌then◌else◌, ap, sym, ◌∙◌, subst,
}
use labaiacinghiala.Timeouts.{
  Effect, restores_socket, destroys, destroys_after, responds, Pending, configure_http_timeouts,
  emit, cleanup, response_finished, timeout_code, refuse, expire, allow_long_upload, Event, ends,
  closes, finishes, times_out, idles, allows, sends_head, receives_all, disconnects, step, run,
}

-- How often the request was refused: by a response or by the end of its connection.
pub refusals : List Effect → ℕ
refusals [] = 0
refusals (restores_socket ∷ rest) = refusals rest
refusals (destroys ∷ rest) = 1 + refusals rest
refusals (destroys_after ∷ rest) = refusals rest
refusals (responds code ∷ rest) = 1 + refusals rest

-- A request waits for its body, with one deadline and nothing done, or its receipt is over, with no
-- deadline and at most one refusal.
pub data Sound (p : Pending) : Type 0 where
  waiting :
      p.finished ≡ false
      → p.effects ≡ []
      → p.timer ≡ not p.uploading
      → p.idle_timer ≡ p.uploading
      → Sound p
  over :
      p.finished ≡ true → p.timer ≡ false → p.idle_timer ≡ false → refusals p.effects ≤ 1 → Sound p

if-Sound : (b : Bool) (p q : Pending) → Sound p → Sound q → Sound (if b then p else q)
if-Sound true p q h k = h
if-Sound false p q h k = k

if_false-Sound : (b : Bool) (p q : Pending) → b ≡ false → Sound q → Sound (if b then p else q)
if_false-Sound true p q e h = cc
if_false-Sound false p q e h = h

if_true-Sound : (b : Bool) (p q : Pending) → b ≡ true → Sound p → Sound (if b then p else q)
if_true-Sound true p q e h = h
if_true-Sound false p q e h = cc

-- A few effects after none.
few_effects :
    (effects more : List Effect) → effects ≡ [] → refusals more ≤ 1 → refusals (effects ++ more) ≤ 1
few_effects effects more empty h = subst (λ x. refusals (x ++ more) ≤ 1) (sym empty) h

cleanup-Sound : (p : Pending) → Sound p → Sound (cleanup p)
unfolding cleanup emit refusals
cleanup-Sound p (waiting begun empty timer idle) = if_false-Sound p.finished _ _ begun (
    if-Sound (p.uploading && not p.destroyed) _ _
      (over refl refl refl (few_effects p.effects (restores_socket ∷ []) empty (omega arith)))
      (over refl refl refl (subst (λ x. refusals x ≤ 1) (sym empty) (omega arith))))
cleanup-Sound p (over done timer idle few) =
    if_true-Sound p.finished _ _ done (over done timer idle few)

-- A request that was closed without a refusal.
data Closed (p : Pending) : Type 0 where
  closed :
      p.finished ≡ true → p.timer ≡ false → p.idle_timer ≡ false → refusals p.effects ≡ 0 → Closed p

if-Closed : (b : Bool) (p q : Pending) → Closed p → Closed q → Closed (if b then p else q)
if-Closed true p q h k = h
if-Closed false p q h k = k

if_false-Closed : (b : Bool) (p q : Pending) → b ≡ false → Closed q → Closed (if b then p else q)
if_false-Closed true p q e h = cc
if_false-Closed false p q e h = h

cleanup-Closed : (p : Pending) → p.finished ≡ false → p.effects ≡ [] → Closed (cleanup p)
unfolding cleanup emit refusals
cleanup-Closed p begun empty = if_false-Closed p.finished _ _ begun (
    if-Closed (p.uploading && not p.destroyed) _ _
      (closed refl refl refl (ap (λ x. refusals (x ++ restores_socket ∷ [])) empty))
      (closed refl refl refl (ap refusals empty)))

refusals-append :
    (effects more : List Effect) → refusals (effects ++ more) ≡ refusals effects + refusals more
unfolding refusals
refusals-append [] more = omega arith
refusals-append (restores_socket ∷ rest) more = refusals-append rest more
refusals-append (destroys ∷ rest) more = omega (arith, refusals-append rest more)
refusals-append (destroys_after ∷ rest) more = refusals-append rest more
refusals-append (responds code ∷ rest) more = omega (arith, refusals-append rest more)

refuse-Sound : (p : Pending) → Closed p → Sound (refuse p)
unfolding refuse emit refusals
refuse-Sound p (closed done timer idle none_so_far) =
    if-Sound p.headers_sent _ _
      (over done timer idle (omega (arith, refusals-append p.effects (destroys ∷ []), none_so_far)))
      (over done timer idle (
        omega (
          arith,
          refusals-append (p.effects ++ destroys_after ∷ [])
              (responds (timeout_code p.uploading) ∷ []),
          refusals-append p.effects (destroys_after ∷ []),
          none_so_far,
        )))

expire-Sound : (p : Pending) → Sound p → Sound (expire p)
unfolding expire
expire-Sound p (waiting begun empty timer idle) = if_false-Sound p.finished _ _ begun (
    if-Sound p.complete _ _ (cleanup-Sound p (waiting begun empty timer idle))
      (refuse-Sound (cleanup p) (cleanup-Closed p begun empty)))
expire-Sound p (over done timer idle few) =
    if_true-Sound p.finished _ _ done (over done timer idle few)

allow_long_upload-Sound : (p : Pending) → Sound p → Sound (allow_long_upload p)
unfolding allow_long_upload
allow_long_upload-Sound p (waiting begun empty timer idle) =
    if-Sound (p.finished || p.uploading) _ _ (waiting begun empty timer idle)
      (waiting begun empty refl refl)
allow_long_upload-Sound p (over done timer idle few) =
    if_true-Sound (p.finished || p.uploading) _ _ (ap (λ b. b || p.uploading) done)
      (over done timer idle few)

-- Events that only the parser and the handlers see.
same-Sound :
    (p q : Pending)
    → q.finished ≡ p.finished
    → q.effects ≡ p.effects
    → q.timer ≡ p.timer
    → q.idle_timer ≡ p.idle_timer
    → q.uploading ≡ p.uploading
    → Sound p
    → Sound q
same-Sound p q f e t i u (waiting begun empty timer idle) =
    waiting (f ∙ begun) (e ∙ empty) (t ∙ timer ∙ ap not (sym u)) (i ∙ idle ∙ sym u)
same-Sound p q f e t i u (over done timer idle few) =
    over (f ∙ done) (t ∙ timer) (i ∙ idle) (subst (λ x. refusals x ≤ 1) (sym e) few)

step-Sound : (p : Pending) (e : Event) → Sound p → Sound (step p e)
unfolding step response_finished
step-Sound p ends h = cleanup-Sound p h
step-Sound p closes h = cleanup-Sound p h
step-Sound p finishes h = if-Sound p.finished _ _ h (if-Sound p.complete _ _ (cleanup-Sound p h) h)
step-Sound p times_out h = if-Sound p.timer _ _ (expire-Sound p h) h
step-Sound p idles h = if-Sound p.idle_timer _ _ (expire-Sound p h) h
step-Sound p allows h = allow_long_upload-Sound p h
step-Sound p sends_head h = same-Sound p _ refl refl refl refl refl h
step-Sound p receives_all h = same-Sound p _ refl refl refl refl refl h
step-Sound p disconnects h = same-Sound p _ refl refl refl refl refl h

from-Sound : (p : Pending) (events : List Event) → Sound p → Sound (run p events)
unfolding run
from-Sound p [] h = h
from-Sound p (e ∷ rest) h = from-Sound (step p e) rest (step-Sound p e h)

-- Whatever events come, in whatever order: as long as the receipt of a request is not over exactly one
-- deadline runs, the one of an upload if and only if a long upload was allowed; afterwards none
-- does, and the request was refused at most once.
pub run-configure_http_timeouts-Sound :
    (events : List Event) → Sound (run configure_http_timeouts events)
unfolding configure_http_timeouts
run-configure_http_timeouts-Sound events =
    from-Sound configure_http_timeouts events (waiting refl refl refl refl)

-- A request whose body is there, with no refusal so far.
data Received (p : Pending) : Type 0 where
  received : p.complete ≡ true → refusals p.effects ≡ 0 → Received p

if_true-Received :
    (b : Bool) (p q : Pending) → b ≡ true → Received p → Received (if b then p else q)
if_true-Received true p q e h = h
if_true-Received false p q e h = cc

if-Received : (b : Bool) (p q : Pending) → Received p → Received q → Received (if b then p else q)
if-Received true p q h k = h
if-Received false p q h k = k

cleanup-Received : (p : Pending) → Received p → Received (cleanup p)
unfolding cleanup emit refusals
cleanup-Received p (received whole silent) = if-Received p.finished _ _ (received whole silent) (
    if-Received (p.uploading && not p.destroyed) _ _
      (received whole (omega (arith, refusals-append p.effects (restores_socket ∷ []), silent)))
      (received whole silent))

expire-Received : (p : Pending) → Received p → Received (expire p)
unfolding expire
expire-Received p (received whole silent) =
    if-Received p.finished _ _ (received whole silent)
      (if_true-Received p.complete _ _ whole (cleanup-Received p (received whole silent)))

step-Received : (p : Pending) (e : Event) → Received p → Received (step p e)
unfolding step response_finished allow_long_upload
step-Received p ends h = cleanup-Received p h
step-Received p closes h = cleanup-Received p h
step-Received p finishes h =
    if-Received p.finished _ _ h (if-Received p.complete _ _ (cleanup-Received p h) h)
step-Received p times_out h = if-Received p.timer _ _ (expire-Received p h) h
step-Received p idles h = if-Received p.idle_timer _ _ (expire-Received p h) h
step-Received p allows (received whole silent) =
    if-Received (p.finished || p.uploading) _ _ (received whole silent) (received whole silent)
step-Received p sends_head (received whole silent) = received whole silent
step-Received p receives_all (received whole silent) = received refl silent
step-Received p disconnects (received whole silent) = received whole silent

-- A request whose body was received without a refusal is not refused afterwards, however long its
-- handler takes.
pub run_never_refuses :
    (p : Pending) (events : List Event)
    → p.complete ≡ true
    → refusals p.effects ≡ 0
    → refusals (run p events).effects ≡ 0
unfolding run
run_never_refuses p [] whole silent = silent
run_never_refuses p (e ∷ rest) whole silent = elim (step-Received p e (received whole silent)) [
  | received still quiet ↦ run_never_refuses (step p e) rest still quiet
]
