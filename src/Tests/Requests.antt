-- ===== src/Tests/Requests.antt =====
-- Failed requests, the refresh of the token and the messages.
use smart_copilot.Common.{◌≡◌, ◌≤◌, ◌+◌, refl, some, List, [], ◌∷◌, true}
use smart_copilot.Request.{
  RequestConfig, RequestState, on_error, backend_error, show_error_msg, on_backend_fail,
  normalize_backend_message, start_refresh, refresh_answered,
}
use smart_copilot.Request.Events.{Event, run, failed, errored, answered, timed_out}
use smart_copilot.Request.Refreshes.{new_state, refreshes, count_timeouts, refreshes-run}
use smart_copilot.Request.Messages.{on_error-backend_error}

abbrev cfg : RequestConfig
cfg = record {
  logout_codes = "8888" ∷ "8889" ∷ [];
  modal_logout_codes = "7777" ∷ "7778" ∷ [];
  expired_token_codes = "9999" ∷ "9998" ∷ "3333" ∷ [];
}

abbrev fresh : RequestState
fresh = new_state (some "t") (some "r")

-- The dialog of a forced logout, and the message besides it.
abbrev dialog : List Event
dialog = failed "7777" "bye" ∷ errored (backend_error (some 200) (some "bye") (some "7777")) ∷ []

two_messages : (run cfg dialog fresh).err_msg_stack ≡ "bye" ∷ "the backend request error" ∷ []
unfolding run on_backend_fail on_error normalize_backend_message show_error_msg
two_messages = refl

on_error-backend_error_example :
    on_error cfg (backend_error (some 200) (some "bye") (some "7777")) fresh
    ≡ show_error_msg "the backend request error" fresh
on_error-backend_error_example =
    on_error-backend_error cfg (some 200) (some "bye") (some "7777") fresh refl refl refl

abbrev expiries : List Event
expiries =
    failed "9999" ""
    ∷ failed "9998" ""
    ∷ answered true (some ("u", "s"))
    ∷ failed "9999" ""
    ∷ timed_out
    ∷ failed "9999" ""
    ∷ []

two_refreshes : refreshes (run cfg expiries fresh).effects ≡ 2
unfolding run refreshes on_backend_fail start_refresh refresh_answered
two_refreshes = refl

refreshes-run_example :
    refreshes (run cfg expiries (new_state (some "t") (some "r"))).effects
    ≤ count_timeouts expiries + 1
refreshes-run_example = refreshes-run cfg expiries (some "t") (some "r")
