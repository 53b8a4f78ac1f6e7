-- ===== src/Chat/Connection.antt =====
-- The connection of frontend/src/store/modules/chat/index.ts: the flags around the socket of
-- `useWebSocket`. What the store asks of the socket and shows to the user is kept in `effects`, the
-- last first. `has_url` is whether `socketUrl` has a value at that moment.
pub mod Notices
use smart_copilot.Common.{
  ℕ, String, ◌≡◌, refl, Bool, true, false, not, ◌&&◌, ◌||◌, ◌+◌, ◌≤◌, Option, none, some, List, [],
  ◌∷◌, arith, if◌then◌else◌, eqb, truthy, ◌==◌,
}

pub data Effect : Type 0 where
  raw_open : Effect
  raw_close : Option ℕ → Effect
  reconnect_failed : Effect
  auth_failed : Effect

pub data WsStatus : Type 0 where
  status_open : WsStatus
  status_connecting : WsStatus
  status_closed : WsStatus

pub record Connection : Type 0 where
  pub session_id : String
  pub allow_reconnect : Bool
  pub auth_failure_notified : Bool
  pub handshake_confirmed : Bool
  pub intentional_disconnect : Bool
  pub effects : List Effect

abbrev pub new_connection : Connection
new_connection = record {
  session_id = "";
  allow_reconnect = true;
  auth_failure_notified = false;
  handshake_confirmed = false;
  intentional_disconnect = false;
  effects = [];
}

-- `NON_RETRYABLE_CLOSE_CODES.has(code)`
abbrev pub is_non_retryable : ℕ → Bool
is_non_retryable code = eqb code 1002 || eqb code 1003 || eqb code 1007 || eqb code 1008

abbrev pub reset_connection_state : Connection → Connection
reset_connection_state c = record c {
  handshake_confirmed = false;
  session_id = "";
  auth_failure_notified = false;
}

abbrev is_up : WsStatus → Bool
is_up WsStatus.status_open = true
is_up WsStatus.status_connecting = true
is_up WsStatus.status_closed = false

unfoldable pub ws_open : Bool → WsStatus → Connection → Connection
ws_open false ws_status c = c
ws_open true ws_status c = record (reset_connection_state c) {
  allow_reconnect = true;
  intentional_disconnect = is_up ws_status;
  effects = raw_open ∷ c.effects;
}

unfoldable pub ws_close : Option ℕ → Connection → Connection
ws_close code c = record c {
  intentional_disconnect = true;
  allow_reconnect = false;
  effects = raw_close code ∷ c.effects;
}

unfoldable pub on_connected : Connection → Connection
on_connected c = record c {
  allow_reconnect = true;
  auth_failure_notified = false;
  intentional_disconnect = false;
}

-- `autoReconnect.onFailed`
unfoldable pub on_failed : Bool → Connection → Connection
on_failed has_url c =
    if c.allow_reconnect && has_url then record c { effects = reconnect_failed ∷ c.effects } else c

-- The notice of an authorisation or protocol failure, once.
abbrev notify_failure : Bool → Connection → Connection
notify_failure failure c =
    if failure && not c.auth_failure_notified
    then record c { auth_failure_notified = true; effects = auth_failed ∷ c.effects }
    else c

abbrev pub is_failure : ℕ → Connection → Bool
is_failure code c = is_non_retryable code || not c.handshake_confirmed

unfoldable pub on_disconnected : ℕ → Bool → Connection → Connection
on_disconnected code has_url c =
    if c.intentional_disconnect
    then record c { intentional_disconnect = false; allow_reconnect = has_url }
    else notify_failure (is_failure code c) (record c { allow_reconnect = not (is_failure code c) })

-- A message that parses to an object, by its `type` and its `sessionId`.
unfoldable pub on_data : String → Option String → Connection → Connection
on_data type_ none c = c
on_data type_ (some id) c =
    if type_ == "connection" && truthy id
    then record c { handshake_confirmed = true; session_id = id }
    else c

-- `handleAuthReset`, of which Chat.Sessions has what it does to the messages.
unfoldable pub auth_reset : Connection → Connection
unfolding ws_close
auth_reset c = ws_close (some 1000) (reset_connection_state c)

-- The watch on `socketUrl`, without its reset of the rate limit.
unfoldable pub url_changed : Bool → WsStatus → Connection → Connection
unfolding ws_open ws_close
url_changed false ws_status c = ws_close none (reset_connection_state c)
url_changed true ws_status c = ws_open true ws_status (reset_connection_state c)

pub data Event : Type 0 where
  connected : Event
  reconnects_failed : Bool → Event
  disconnected : ℕ → Bool → Event
  message : String → Option String → Event
  opened : Bool → WsStatus → Event
  shut : Option ℕ → Event
  url : Bool → WsStatus → Event
  reset : Event

unfoldable pub step : Event → Connection → Connection
unfolding on_connected on_failed on_disconnected on_data ws_open ws_close url_changed auth_reset
step connected c = on_connected c
step (reconnects_failed has_url) c = on_failed has_url c
step (disconnected code has_url) c = on_disconnected code has_url c
step (message type_ id) c = on_data type_ id c
step (opened has_url ws_status) c = ws_open has_url ws_status c
step (shut code) c = ws_close code c
step (url has_url ws_status) c = url_changed has_url ws_status c
step reset c = auth_reset c

unfoldable pub run : List Event → Connection → Connection
unfolding step
run [] c = c
run (e ∷ es) c = run es (step e c)

pub data ConnectionStatus : Type 0 where
  is_open : ConnectionStatus
  reconnecting : ConnectionStatus
  is_connecting : ConnectionStatus
  is_closed : ConnectionStatus

abbrev pub connection_status : WsStatus → Connection → ConnectionStatus
connection_status status_open c = is_open
connection_status status_connecting c =
    if c.handshake_confirmed then reconnecting else is_connecting
connection_status status_closed c = is_closed
