-- ===== src/Chat/Sessions.antt =====
-- The conversations of frontend/src/store/modules/chat/index.ts. The server is a parameter: a state
-- of its own that a request may change, and the answers to the requests. The requests of one
-- operation come one after the other, and no other operation of the store runs between them.
use smart_copilot.Common.{
  String, Bool, true, false, not, Option, none, some, List, [], ◌==◌, if◌then◌else◌, filter, find?,
  truthy, or_text,
}
use smart_copilot.Chat.{Message, GenerationSnapshot, SessionStatus, ConversationSession}
use smart_copilot.Chat.Snapshot.{upsert_messages, get_pending_generation_id}
use smart_copilot.Chat.Connection.{
  Connection, reset_connection_state, ws_close, WsStatus, url_changed,
}
use smart_copilot.Chat.RateLimit.{RateLimit, clear_rate_limit_countdown}

pub record ChatStore : Type 0 where
  pub conversation_id : String
  pub input_message : String
  pub list : List Message
  pub sessions : List ConversationSession
  pub sessions_loading : Bool
  pub active_tab : SessionStatus
  pub connection : Connection
  pub rate_limit : RateLimit

-- `{ error, data }`: an error, or data that may be null.
pub data Response (A : Type 0) : Type 0 where
  request_error : Response A
  response : Option A → Response A

-- `!error && data`
abbrev pub data_of : {A : Type 0} → Response A → Option A
data_of request_error = none
data_of (response data_) = data_

abbrev is_error : {A : Type 0} → Response A → Bool
is_error request_error = true
is_error (response data_) = false

pub record Server (W : Type 0) : Type 0 where
  pub conversations : W → W × Response (List ConversationSession)
  pub new_conversation : W → W × Response ConversationSession
  pub conversation : String → W → W × Response (List Message)
  -- Whether the request ends with an error.
  pub switch : String → W → W × Bool
  pub archive : String → W → W × Bool
  pub unarchive : String → W → W × Bool
  pub generation : String → W → W × Response GenerationSnapshot
  pub active_generation : W → W × Response GenerationSnapshot

unfoldable pub upsert_generation_snapshot : Option GenerationSnapshot → ChatStore → ChatStore
unfolding upsert_messages
upsert_generation_snapshot none s = s
upsert_generation_snapshot (some snapshot) s = record s {
  conversation_id = or_text snapshot.conversation_id s.conversation_id;
  list = upsert_messages snapshot s.list;
}

abbrev is_active : SessionStatus → Bool
is_active SessionStatus.active = true
is_active SessionStatus.archived = false

abbrev same_status : SessionStatus → SessionStatus → Bool
same_status SessionStatus.active b = is_active b
same_status SessionStatus.archived b = not (is_active b)

abbrev pub filtered_sessions : ChatStore → List ConversationSession
filtered_sessions s = filter (λ c. same_status s.active_tab c.status) s.sessions

abbrev pub first_active : List ConversationSession → Option ConversationSession
first_active sessions = find? (λ c. is_active c.status) sessions

abbrev pub set_sessions : List ConversationSession → ChatStore → ChatStore
set_sessions data_ s = record s { sessions = data_ }

abbrev set_loading : Bool → ChatStore → ChatStore
set_loading loading s = record s { sessions_loading = loading }

abbrev set_list : Option (List Message) → ChatStore → ChatStore
set_list none s = s
set_list (some data_) s = record s { list = data_ }

abbrev pub enter : String → ChatStore → ChatStore
enter conversation_id s = record s { conversation_id = conversation_id; list = [] }

module _ {W : Type 0} (server : Server W) where
  unfoldable pub load_messages : String → W × ChatStore → W × ChatStore
  load_messages target (w, s) =
      let cid = or_text target s.conversation_id in
      if truthy cid
      then (let (w', answer) = server.conversation cid w in (w', set_list (data_of answer) s))
      else (w, s)

  unfoldable pub switch_session : String → W × ChatStore → W × ChatStore
  unfolding load_messages
  switch_session target (w, s) =
      if target == s.conversation_id
      then (w, s)
      else (let (w', error) = server.switch target w in
          if error then (w', s) else load_messages target (w', enter target s))

  -- The first active session is entered if none is.
  unfoldable pub auto_select : Option ConversationSession → W × ChatStore → W × ChatStore
  unfolding switch_session
  auto_select none (w, s) = (w, s)
  auto_select (some first) (w, s) =
      if truthy s.conversation_id then (w, s) else switch_session first.conversation_id (w, s)

  unfoldable pub take_sessions : Option (List ConversationSession) → W × ChatStore → W × ChatStore
  unfolding auto_select
  take_sessions none (w, s) = (w, s)
  take_sessions (some data_) (w, s) = auto_select (first_active data_) (w, set_sessions data_ s)

  unfoldable pub load_sessions : W × ChatStore → W × ChatStore
  unfolding take_sessions
  load_sessions (w, s) =
      let (w1, answer) = server.conversations w in
      let (w2, s') = take_sessions (data_of answer) (w1, set_loading true s) in
      (w2, set_loading false s')

  abbrev enter_new : Option ConversationSession → W × ChatStore → W × ChatStore
  enter_new none (w, s) = (w, s)
  enter_new (some new) (w, s) = load_sessions (w, enter new.conversation_id s)

  -- The last part is `!error`, which the function returns.
  unfoldable pub create_new_session : W × ChatStore → (W × ChatStore) × Bool
  unfolding load_sessions
  create_new_session (w, s) =
      let (w', answer) = server.new_conversation w in
      (enter_new (data_of answer) (w', s), not (is_error answer))

  abbrev pub leave : String → W × ChatStore → W × ChatStore
  leave target (w, s) = if target == s.conversation_id then (w, enter "" s) else (w, s)

  unfoldable pub archive_session : String → W × ChatStore → W × ChatStore
  unfolding load_sessions
  archive_session target (w, s) =
      let (w', error) = server.archive target w in
      if error then (w', s) else leave target (load_sessions (w', s))

  unfoldable pub unarchive_session : String → W × ChatStore → W × ChatStore
  unfolding load_sessions
  unarchive_session target (w, s) =
      let (w', error) = server.unarchive target w in
      if error then (w', s) else load_sessions (w', s)

  unfoldable pub fetch_generation_snapshot : String → W → W × Option GenerationSnapshot
  fetch_generation_snapshot generation_id w =
      if truthy generation_id
      then (let (w', answer) = server.generation generation_id w in (w', data_of answer))
      else (w, none)

  unfoldable pub fetch_active_generation_snapshot : W → W × Option GenerationSnapshot
  fetch_active_generation_snapshot w =
      let (w', answer) = server.active_generation w in (w', data_of answer)

  unfoldable pub sync_generation_after_reconnect : W × ChatStore → W × ChatStore
  unfolding fetch_generation_snapshot fetch_active_generation_snapshot upsert_generation_snapshot
  sync_generation_after_reconnect (w, s) =
      let pending = get_pending_generation_id s.list in
      let (w', snapshot) =
        if truthy pending
        then fetch_generation_snapshot pending w
        else fetch_active_generation_snapshot w in
      (w', upsert_generation_snapshot snapshot s)

unfoldable pub handle_auth_reset : ChatStore → ChatStore
unfolding ws_close
handle_auth_reset s = record s {
  rate_limit = clear_rate_limit_countdown s.rate_limit;
  connection = ws_close (some 1000) (reset_connection_state s.connection);
  conversation_id = "";
  input_message = "";
  list = [];
  sessions = [];
}

-- The watch on `socketUrl`.
pub on_socket_url : Bool → WsStatus → ChatStore → ChatStore
unfolding url_changed
on_socket_url has_url ws_status s = record s {
  connection = url_changed has_url ws_status s.connection;
  rate_limit = if has_url then s.rate_limit else clear_rate_limit_countdown s.rate_limit;
}
