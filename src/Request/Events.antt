-- ===== src/Request/Events.antt =====
-- What happens to a request instance of frontend/src/service/request/index.ts, as a sequence.
use smart_copilot.Common.{String, Bool, Option, List, [], ◌∷◌}
use smart_copilot.Request.{
  RequestConfig, RequestState, RequestError, on_error, on_backend_fail, refresh_answered,
  refresh_timeout, message_left, stack_timeout, dialog_closed,
}

-- What happens to a request instance, in any order.
pub data Event : Type 0 where
  failed : String → String → Event
  errored : RequestError → Event
  answered : Bool → Option (String × String) → Event
  timed_out : Event
  left : String → Event
  emptied : Event
  closed : String → Event

unfoldable pub step : RequestConfig → Event → RequestState → RequestState
unfolding on_backend_fail on_error refresh_answered
step cfg (failed code message) s = (on_backend_fail cfg code message s).0
step cfg (errored e) s = on_error cfg e s
step cfg (answered held answer) s = refresh_answered held answer s
step cfg timed_out s = refresh_timeout s
step cfg (left message) s = message_left message s
step cfg emptied s = stack_timeout s
step cfg (closed message) s = dialog_closed message s

unfoldable pub run : RequestConfig → List Event → RequestState → RequestState
unfolding step
run cfg [] s = s
run cfg (e ∷ es) s = run cfg es (step cfg e s)
