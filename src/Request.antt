-- ===== src/Request.antt =====
-- frontend/src/service/request/index.ts and shared.ts, with the error that
-- frontend/packages/axios/src/index.ts makes of a response: what a failed request does.
pub mod Events
pub mod Refreshes
pub mod Messages
pub mod Client
use Prim.Native.String
use smart_copilot.Common.{
  ℕ, String, Bool, true, false, not, ◌&&◌, Option, none, some, List, [], ◌∷◌, ◌++◌, ◌==◌,
  if◌then◌else◌, eqb, filter, includes, is_truthy, or_default,
}

-- The codes of the build's settings, split at their commas.
pub record RequestConfig : Type 0 where
  pub logout_codes : List String
  pub modal_logout_codes : List String
  pub expired_token_codes : List String

pub data Effect : Type 0 where
  reset_store : Effect
  show_message : String → Effect
  show_dialog : String → Effect
  send_refresh : String → Effect

-- `refreshTokenFn`: null, a promise that waits for the answer, or one with a result.
pub data Refresh : Type 0 where
  idle : Refresh
  running : Refresh
  ended : Bool → Refresh

-- The state of the request instance, the tokens of the local storage, and what was done, the last
-- first.
pub record RequestState : Type 0 where
  pub err_msg_stack : List String
  pub refresh : Refresh
  pub token : Option String
  pub refresh_token : Option String
  pub effects : List Effect

abbrev pub do_effect : Effect → RequestState → RequestState
do_effect e s = record s { effects = e ∷ s.effects }

abbrev pub get_authorization : Option String → Option String
get_authorization none = none
get_authorization (some token) =
    if is_truthy (some token) then some (String.◌++◌ "Bearer " token) else none

unfoldable pub normalize_backend_message : String → String
normalize_backend_message message =
    if message == "REGISTRATION_CLOSED"
    then "当前暂未开放注册"
    else if message == "Username already exists"
    then "用户名已存在"
    else message

unfoldable pub show_error_msg : String → RequestState → RequestState
show_error_msg message s = if includes s.err_msg_stack message then s else record s {
  err_msg_stack = s.err_msg_stack ++ message ∷ [];
  effects = show_message message ∷ s.effects;
}

-- `msg => msg !== message`
abbrev pub without : String → List String → List String
without message stack = filter (λ msg. not (msg == message)) stack

-- `onLeave` of a message, and its timeout.
abbrev pub message_left : String → RequestState → RequestState
message_left message s = record s { err_msg_stack = without message s.err_msg_stack }

abbrev pub stack_timeout : RequestState → RequestState
stack_timeout s = record s { err_msg_stack = [] }

-- `logoutAndCleanup`, when the dialog is closed.
abbrev pub dialog_closed : String → RequestState → RequestState
dialog_closed message s = message_left message (do_effect reset_store s)

-- `handleExpiredRequest` until it waits: one refresh is shared while it stands.
abbrev pub start_by : Refresh → RequestState → RequestState
start_by idle s = record (do_effect (send_refresh (or_default s.refresh_token "")) s) {
  refresh = running;
}
start_by running s = s
start_by (ended success) s = s

unfoldable pub start_refresh : RequestState → RequestState
start_refresh s = start_by s.refresh s

abbrev settled : Bool → Bool → Refresh → Refresh
settled held success refresh = if held then ended success else refresh

-- The answer of `fetchRefreshToken`: the new token and refresh token, or an error. `held` is whether
-- `refreshTokenFn` is still the promise of this refresh.
unfoldable pub refresh_answered : Bool → Option (String × String) → RequestState → RequestState
refresh_answered held none s = record (do_effect reset_store s) {
  refresh = settled held false s.refresh;
}
refresh_answered held (some (token, refresh_token)) s = record s {
  token = some token;
  refresh_token = some refresh_token;
  refresh = settled held true s.refresh;
}

-- A second after a request has seen the result.
abbrev pub refresh_timeout : RequestState → RequestState
refresh_timeout s = record s { refresh = idle }

-- Whether the failure stands at once or the request waits for a refresh.
pub data Reply : Type 0 where
  fails : Reply
  awaits_refresh : Reply

unfoldable pub on_backend_fail :
    RequestConfig → String → String → RequestState → RequestState × Reply
unfolding start_refresh
on_backend_fail cfg response_code message s =
    if includes cfg.logout_codes response_code
    then (do_effect reset_store s, fails)
    else if includes cfg.modal_logout_codes response_code && not (includes s.err_msg_stack message)
    then (
      record (do_effect (show_dialog message) s) {
        err_msg_stack = s.err_msg_stack ++ message ∷ [];
      },
      fails,
    )
    else if includes cfg.expired_token_codes response_code
    then (start_refresh s, awaits_refresh)
    else (s, fails)

-- The header of the retried request after the refresh, or none for a failure.
abbrev pub retry : Bool → RequestState → Option (Option String)
retry success s = if success then some (get_authorization s.token) else none

-- What `onError` reads of an error of axios.
pub record RequestError : Type 0 where
  pub code : Option String
  pub message : String
  pub status : Option ℕ
  pub backend_message : Option String
  pub backend_code : Option String

abbrev pub backend_error_code : String
backend_error_code = "ERR_BAD_RESPONSE,ERR_BAD_REQUEST"

-- `BACKEND_ERROR_CODE.split(',')`
abbrev pub backend_error_codes : List String
backend_error_codes = "ERR_BAD_RESPONSE" ∷ "ERR_BAD_REQUEST" ∷ []

abbrev is_backend : Option String → Bool
is_backend none = false
is_backend (some code) = includes backend_error_codes code

abbrev is_canceled : Option String → Bool
is_canceled none = false
is_canceled (some code) = code == "ERR_CANCELED"

abbrev pub is_forbidden : Option ℕ → Bool
is_forbidden none = false
is_forbidden (some status) = eqb status 403

abbrev pub shown_message : RequestError → String
shown_message e = if is_backend e.code then or_default e.backend_message e.message else e.message

abbrev code_of : RequestError → String
code_of e = if is_backend e.code then or_default e.backend_code "" else ""

-- A 403 without a message of the backend, though a token was sent.
abbrev pub is_silent_403 : RequestError → RequestState → Bool
is_silent_403 e s = is_forbidden e.status && is_truthy s.token && not (is_truthy e.backend_message)

unfoldable pub on_error : RequestConfig → RequestError → RequestState → RequestState
unfolding normalize_backend_message show_error_msg
on_error cfg e s =
    if is_canceled e.code
    then s
    else if is_silent_403 e s
    then do_effect reset_store s
    else if includes cfg.modal_logout_codes (code_of e)
    then s
    else if includes cfg.expired_token_codes (code_of e)
    then s
    else show_error_msg (normalize_backend_message (shown_message e)) s

-- The error that the response interceptor makes of a response which the backend marks as failed.
abbrev pub backend_error : Option ℕ → Option String → Option String → RequestError
backend_error status message code = record {
  code = some backend_error_code;
  message = "the backend request error";
  status = status;
  backend_message = message;
  backend_code = code;
}
