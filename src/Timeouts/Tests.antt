-- ===== src/Timeouts/Tests.antt =====
-- The theorems on timeouts at an upload that stalls, and at a body that was received.
use labaiacinghiala.Common.{true, false, List, [], ◌∷◌, ◌≡◌, refl}
use labaiacinghiala.Timeouts.{
  restores_socket, destroys_after, responds, upload_idle_timeout, Pending, configure_http_timeouts,
  emit, cleanup, response_finished, timeout_code, refuse, expire, allow_long_upload, Event,
  finishes, times_out, idles, allows, step, run,
}
use labaiacinghiala.Timeouts.Deadlines.{Sound, run-configure_http_timeouts-Sound}

abbrev stalled : List Event
stalled = allows ∷ times_out ∷ idles ∷ finishes ∷ idles ∷ []

-- The first deadline was lifted, the second refuses the upload once.
stalled_effects :
    (run configure_http_timeouts stalled).effects
    ≡ restores_socket ∷ destroys_after ∷ responds upload_idle_timeout ∷ []
unfolding run step configure_http_timeouts emit cleanup response_finished timeout_code refuse expire
    allow_long_upload
stalled_effects = refl

run-configure_http_timeouts-Sound_example : Sound (run configure_http_timeouts stalled)
run-configure_http_timeouts-Sound_example = run-configure_http_timeouts-Sound stalled

abbrev whole : Pending
whole = record {
  uploading = true;
  finished = false;
  timer = false;
  idle_timer = true;
  complete = true;
  headers_sent = false;
  destroyed = false;
  effects = [];
}
