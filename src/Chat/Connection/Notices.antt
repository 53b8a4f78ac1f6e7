-- ===== src/Chat/Connection/Notices.antt =====
-- What every sequence of events of the connection keeps, and how often it tells a failure:
-- frontend/src/store/modules/chat/index.ts.
use smart_copilot.Common.{
  ℕ, ◌≡◌, refl, true, false, ◌+◌, ◌≤◌, none, some, List, [], ◌∷◌, arith, if◌then◌else◌, truthy,
}
use smart_copilot.Chat.Connection.{
  Effect, raw_open, raw_close, reconnect_failed, auth_failed, Connection, new_connection, ws_open,
  ws_close, on_connected, on_failed, on_disconnected, on_data, url_changed, auth_reset, Event,
  connected, reconnects_failed, disconnected, message, opened, shut, url, reset, step, run,
}

-- A confirmed handshake is one that has told the session.
abbrev pub IsConfirmed : Connection → Type 0
IsConfirmed c = c.handshake_confirmed ≡ truthy c.session_id

step-IsConfirmed : (e : Event) (c : Connection) → IsConfirmed c → IsConfirmed (step e c)
unfolding step on_connected on_failed on_disconnected on_data ws_open ws_close url_changed
    auth_reset
step-IsConfirmed connected c h = h
step-IsConfirmed (reconnects_failed has_url) c h = ground arith
step-IsConfirmed (disconnected code has_url) c h = ground arith
step-IsConfirmed (message type_ none) c h = h
step-IsConfirmed (message type_ (some id)) c h = ground arith
step-IsConfirmed (opened false ws_status) c h = h
step-IsConfirmed (opened true ws_status) c h = refl
step-IsConfirmed (shut code) c h = h
step-IsConfirmed (url false ws_status) c h = refl
step-IsConfirmed (url true ws_status) c h = refl
step-IsConfirmed reset c h = refl

-- Every sequence of events keeps that the handshake is confirmed exactly if there is a session id.
pub run-IsConfirmed : (es : List Event) (c : Connection) → IsConfirmed c → IsConfirmed (run es c)
unfolding run
run-IsConfirmed [] c h = h
run-IsConfirmed (e ∷ es) c h = run-IsConfirmed es (step e c) (step-IsConfirmed e c h)

abbrev is_notice : Effect → ℕ
is_notice auth_failed = 1
is_notice raw_open = 0
is_notice reconnect_failed = 0
is_notice (raw_close code) = 0

-- The notices of a failure that were shown.
unfoldable pub notices : List Effect → ℕ
notices [] = 0
notices (e ∷ es) = is_notice e + notices es

-- The events after which a failure is told again: a connection that stands, one that is opened on
-- purpose, a new address, and the end of the session.
abbrev pub rearms : Event → ℕ
rearms connected = 1
rearms (reconnects_failed has_url) = 0
rearms (disconnected code has_url) = 0
rearms (message type_ id) = 0
rearms (opened has_url ws_status) = if has_url then 1 else 0
rearms (shut code) = 0
rearms (url has_url ws_status) = 1
rearms reset = 1

unfoldable pub count_rearms : List Event → ℕ
count_rearms [] = 0
count_rearms (e ∷ es) = rearms e + count_rearms es

-- A notice that is still due counts as shown.
abbrev pub due : Connection → ℕ
due c = notices c.effects + (if c.auth_failure_notified then 0 else 1)

step-due : (e : Event) (c : Connection) → due (step e c) ≤ rearms e + due c
unfolding step on_connected on_failed on_disconnected on_data ws_open ws_close url_changed
    auth_reset notices
step-due connected c = ground arith
step-due (reconnects_failed has_url) c = ground arith
step-due (disconnected code has_url) c = ground arith
step-due (message type_ none) c = ground arith
step-due (message type_ (some id)) c = ground arith
step-due (opened false ws_status) c = ground arith
step-due (opened true ws_status) c = ground arith
step-due (shut code) c = ground arith
step-due (url false ws_status) c = ground arith
step-due (url true ws_status) c = ground arith
step-due reset c = ground arith

run-due : (es : List Event) (c : Connection) → due (run es c) ≤ count_rearms es + due c
unfolding run count_rearms
run-due [] c = ground arith
run-due (e ∷ es) c =
    let here : due (step e c) ≤ rearms e + due c = step-due e c in
    let rest : due (run es (step e c)) ≤ count_rearms es + due (step e c) = run-due es (step e c) in
    omega arith

-- From a new connection on, the failure of the authorisation is told at most once, and once more
-- after every event that connects, opens, changes the address or ends the session.
pub notices-run : (es : List Event) → notices (run es new_connection).effects ≤ count_rearms es + 1
unfolding notices
notices-run es =
    let all_due : due (run es new_connection) ≤ count_rearms es + 1 = run-due es new_connection in
    ground arith
