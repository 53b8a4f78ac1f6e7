-- ===== src/Request/Refreshes.antt =====
-- How often the token is refreshed by `handleExpiredRequest` of
-- frontend/src/service/request/shared.ts.
use smart_copilot.Common.{
  ℕ, String, ◌≡◌, ◌≤◌, ◌+◌, refl, ap, Option, none, some, List, [], ◌∷◌, arith,
}
use smart_copilot.Request.{
  RequestConfig, RequestState, RequestError, Effect, Refresh, on_error, on_backend_fail,
  show_error_msg, normalize_backend_message, shown_message, start_by, start_refresh,
  refresh_answered, idle, running, ended, reset_store, show_message, show_dialog, send_refresh,
}
use smart_copilot.Request.Events.{
  Event, step, run, failed, errored, answered, timed_out, left, emptied, closed,
}

abbrev is_refresh : Effect → ℕ
is_refresh (send_refresh token) = 1
is_refresh reset_store = 0
is_refresh (show_message message) = 0
is_refresh (show_dialog message) = 0

-- The refreshes that were sent.
unfoldable pub refreshes : List Effect → ℕ
refreshes [] = 0
refreshes (e ∷ es) = is_refresh e + refreshes es

abbrev is_time_out : Event → ℕ
is_time_out timed_out = 1
is_time_out _ = 0

unfoldable pub count_timeouts : List Event → ℕ
count_timeouts [] = 0
count_timeouts (e ∷ es) = is_time_out e + count_timeouts es

abbrev is_idle : Refresh → ℕ
is_idle idle = 1
is_idle running = 0
is_idle (ended success) = 0

-- A refresh that may still be sent counts as sent.
abbrev due : RequestState → ℕ
due s = refreshes s.effects + is_idle s.refresh

start_by-due : (r : Refresh) (s : RequestState) → s.refresh ≡ r → due (start_by r s) ≤ due s
unfolding refreshes
start_by-due idle s h = let was : is_idle s.refresh ≡ 1 = ap is_idle h in omega (arith, was)
start_by-due running s h = omega arith
start_by-due (ended success) s h = omega arith

show_error_msg-due : (message : String) (s : RequestState) → due (show_error_msg message s) ≤ due s
unfolding show_error_msg refreshes
show_error_msg-due message s = ground arith

on_backend_fail-due :
    (cfg : RequestConfig) (code message : String) (s : RequestState)
    → due (on_backend_fail cfg code message s).0 ≤ due s
unfolding on_backend_fail start_refresh refreshes
on_backend_fail-due cfg code message s = ground (arith, start_by-due s.refresh s refl)

on_error-due :
    (cfg : RequestConfig) (e : RequestError) (s : RequestState) → due (on_error cfg e s) ≤ due s
unfolding on_error refreshes
on_error-due cfg e s =
    ground (arith, show_error_msg-due (normalize_backend_message (shown_message e)) s)

step-due :
    (cfg : RequestConfig) (e : Event) (s : RequestState)
    → due (step cfg e s) ≤ is_time_out e + due s
unfolding step refresh_answered refreshes
step-due cfg (failed code message) s = omega (arith, on_backend_fail-due cfg code message s)
step-due cfg (errored e) s = omega (arith, on_error-due cfg e s)
step-due cfg (answered held none) s = ground arith
step-due cfg (answered held (some (token, refresh_token))) s = ground arith
step-due cfg timed_out s = ground arith
step-due cfg (left message) s = ground arith
step-due cfg emptied s = ground arith
step-due cfg (closed message) s = ground arith

run-due :
    (cfg : RequestConfig) (es : List Event) (s : RequestState)
    → due (run cfg es s) ≤ count_timeouts es + due s
unfolding run count_timeouts
run-due cfg [] s = omega arith
run-due cfg (e ∷ es) s =
    let here : due (step cfg e s) ≤ is_time_out e + due s = step-due cfg e s in
    let rest : due (run cfg es (step cfg e s)) ≤ count_timeouts es + due (step cfg e s) =
      run-due cfg es (step cfg e s) in
    omega (arith, here, rest)

abbrev pub new_state : Option String → Option String → RequestState
new_state token refresh_token = record {
  err_msg_stack = [];
  refresh = idle;
  token = token;
  refresh_token = refresh_token;
  effects = [];
}

-- However many requests find an expired token, at most one refresh is sent, and at most one more
-- after each time that a result of a refresh has run out.
pub refreshes-run :
    (cfg : RequestConfig) (es : List Event) (token refresh_token : Option String)
    → refreshes (run cfg es (new_state token refresh_token)).effects ≤ count_timeouts es + 1
unfolding refreshes
refreshes-run cfg es token refresh_token =
    let all_due : due (run cfg es (new_state token refresh_token)) ≤ count_timeouts es + 1 =
      run-due cfg es (new_state token refresh_token) in
    omega (arith, all_due)
