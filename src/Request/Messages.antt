-- ===== src/Request/Messages.antt =====
-- Which messages failed requests of frontend/src/service/request/index.ts show, and the stack of those
-- that stand.
use smart_copilot.Common.{
  ℕ, String, ◌≡◌, refl, ap, ◌∙◌, true, false, not, ◌&&◌, Option, none, some, List, [], ◌∷◌, ◌==◌,
  arith, includes, distinct, is_truthy, if-false, distinct-concat, includes-filter,
}
use smart_copilot.Request.{
  RequestConfig, RequestState, RequestError, Refresh, on_error, on_backend_fail, backend_error,
  is_forbidden, show_error_msg, normalize_backend_message, shown_message, start_by, start_refresh,
  is_silent_403, refresh_answered, idle, running, ended, without,
}
use smart_copilot.Request.Events.{
  Event, step, run, failed, errored, answered, timed_out, left, emptied, closed,
}

-- A response that the backend marks as failed shows the same message, whatever message and code the
-- backend gives, if its status is not 403 and the settings have no empty code.
pub on_error-backend_error :
    (cfg : RequestConfig) (status : Option ℕ) (message code : Option String) (s : RequestState)
    → is_forbidden status ≡ false
    → includes cfg.modal_logout_codes "" ≡ false
    → includes cfg.expired_token_codes "" ≡ false
    → on_error cfg (backend_error status message code) s
      ≡ show_error_msg "the backend request error" s
unfolding on_error normalize_backend_message
on_error-backend_error cfg status message code s f m x =
    let loud : is_silent_403 (backend_error status message code) s ≡ false =
      ap (λ b. b && is_truthy s.token && not (is_truthy message)) f in
    if-false _ _ loud ∙ if-false _ _ m ∙ if-false _ _ x

distinct-without :
    (message : String) (stack : List String)
    → distinct stack ≡ true
    → distinct (without message stack) ≡ true
distinct-without message [] d = refl
distinct-without message (m ∷ ms) d =
    ground (arith, distinct-without message ms, includes-filter (λ msg. not (msg == message)) ms m)

-- No message stands twice.
abbrev pub IsDistinct : RequestState → Type 0
IsDistinct s = distinct s.err_msg_stack ≡ true

show_error_msg-IsDistinct :
    (message : String) (s : RequestState) → IsDistinct s → IsDistinct (show_error_msg message s)
unfolding show_error_msg
show_error_msg-IsDistinct message s d = ground (arith, distinct-concat s.err_msg_stack message d)

start_by-stack : (r : Refresh) (s : RequestState) → IsDistinct s → IsDistinct (start_by r s)
start_by-stack idle s d = d
start_by-stack running s d = d
start_by-stack (ended success) s d = d

on_backend_fail-IsDistinct :
    (cfg : RequestConfig) (code message : String) (s : RequestState)
    → IsDistinct s
    → IsDistinct (on_backend_fail cfg code message s).0
unfolding on_backend_fail start_refresh
on_backend_fail-IsDistinct cfg code message s d =
    ground (arith, distinct-concat s.err_msg_stack message d, start_by-stack s.refresh s d)

on_error-IsDistinct :
    (cfg : RequestConfig) (e : RequestError) (s : RequestState)
    → IsDistinct s
    → IsDistinct (on_error cfg e s)
unfolding on_error
on_error-IsDistinct cfg e s d =
    ground (arith, show_error_msg-IsDistinct (normalize_backend_message (shown_message e)) s d)

step-IsDistinct :
    (cfg : RequestConfig) (e : Event) (s : RequestState) → IsDistinct s → IsDistinct (step cfg e s)
unfolding step refresh_answered
step-IsDistinct cfg (failed code message) s d = on_backend_fail-IsDistinct cfg code message s d
step-IsDistinct cfg (errored e) s d = on_error-IsDistinct cfg e s d
step-IsDistinct cfg (answered held none) s d = d
step-IsDistinct cfg (answered held (some (token, refresh_token))) s d = d
step-IsDistinct cfg timed_out s d = d
step-IsDistinct cfg (left message) s d = distinct-without message s.err_msg_stack d
step-IsDistinct cfg emptied s d = refl
step-IsDistinct cfg (closed message) s d = distinct-without message s.err_msg_stack d

-- Whatever happens, no message stands twice on the stack if none did.
pub run-IsDistinct :
    (cfg : RequestConfig) (es : List Event) (s : RequestState)
    → IsDistinct s
    → IsDistinct (run cfg es s)
unfolding run
run-IsDistinct cfg [] s d = d
run-IsDistinct cfg (e ∷ es) s d = run-IsDistinct cfg es (step cfg e s) (step-IsDistinct cfg e s d)
