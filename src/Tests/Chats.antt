-- ===== src/Tests/Chats.antt =====
-- A conversation, its server and its connection.
use smart_copilot.Common.{
  ℕ, suc, String, ◌+◌, ◌≡◌, ◌≤◌, refl, true, false, none, some, List, [], ◌∷◌,
}
use smart_copilot.Chat.{
  GenerationStatus, Role, Message, GenerationSnapshot, SessionStatus, ConversationSession,
}
use smart_copilot.Chat.Snapshot.{
  upsert_messages, get_pending_generation_id, map_generation_status,
  find_assistant_index_by_generation_id, modify_at,
}
use smart_copilot.Chat.Connection.{
  Event, WsStatus, url, disconnected, opened, connected, message as received, run, new_connection,
  connection_status, status_connecting, reconnecting,
}
use smart_copilot.Chat.Connection.Notices.{notices, count_rearms, notices-run}
use smart_copilot.Chat.RateLimit.{RateLimit, start_rate_limit_countdown, ticks}
use smart_copilot.Chat.Sessions.{
  ChatStore, Server, request_error, response, upsert_generation_snapshot, load_sessions,
  switch_session, archive_session,
}
use smart_copilot.Chat.Laws.{upsert_generation_snapshot_idem}

abbrev snapshot : GenerationStatus → String → GenerationSnapshot
snapshot status content = record {
  generation_id = "g";
  user_id = "u";
  conversation_id = "c";
  question = "why";
  status = some status;
  content = content;
  created_at = "1";
  updated_at = "2";
  error_message = none;
  reference_mappings = none;
}

abbrev message : Role → String → Message
message role content = record {
  role = role;
  content = content;
  status = none;
  timestamp = none;
  conversation_id = none;
  generation_id = none;
  username = none;
  reference_mappings = none;
  tool_events = none;
  feedback_rating = none;
}

abbrev pub unlimited : RateLimit
unlimited = record { limit_until = none; remaining_seconds = 0; timer = false }

abbrev pub chat : String → List Message → ChatStore
chat conversation_id list = record {
  conversation_id = conversation_id;
  input_message = "";
  list = list;
  sessions = [];
  sessions_loading = false;
  active_tab = SessionStatus.active;
  connection = new_connection;
  rate_limit = unlimited;
}

abbrev greeting : List Message
greeting = message Role.user "hello" ∷ message Role.assistant "hi" ∷ []

abbrev contents : List Message → List String
contents [] = []
contents (m ∷ ms) = m.content ∷ contents ms

abbrev partly : List Message
partly = upsert_messages (snapshot GenerationStatus.streaming "be") greeting

appends_pair : contents partly ≡ "hello" ∷ "hi" ∷ "why" ∷ "be" ∷ []
unfolding upsert_messages find_assistant_index_by_generation_id
appends_pair = refl

updates_answer :
    contents (upsert_messages (snapshot GenerationStatus.completed "because") partly)
    ≡ "hello" ∷ "hi" ∷ "why" ∷ "because" ∷ []
unfolding upsert_messages find_assistant_index_by_generation_id modify_at
updates_answer = refl

finds_pending : get_pending_generation_id partly ≡ "g"
unfolding get_pending_generation_id upsert_messages find_assistant_index_by_generation_id
    map_generation_status
finds_pending = refl

upsert_generation_snapshot_idem_example :
    upsert_generation_snapshot
      (some (snapshot GenerationStatus.failed "be"))
      (upsert_generation_snapshot (some (snapshot GenerationStatus.failed "be")) (chat "" greeting))
    ≡ upsert_generation_snapshot (some (snapshot GenerationStatus.failed "be")) (chat "" greeting)
upsert_generation_snapshot_idem_example =
    upsert_generation_snapshot_idem (snapshot GenerationStatus.failed "be") (chat "" greeting) refl

abbrev session : ℕ → String → SessionStatus → ConversationSession
session id conversation_id status = record {
  id = id;
  conversation_id = conversation_id;
  title = "t";
  status = status;
  created_at = "1";
  updated_at = "2";
}

-- The server counts the requests that change something.
abbrev server : Server ℕ
server = record {
  conversations = λ n. (
    n,
    response
        (some (session 1 "old" SessionStatus.archived ∷ session 2 "new" SessionStatus.active ∷ [])),
  );
  new_conversation = λ n. (suc n, response (some (session 3 "fresh" SessionStatus.active)));
  conversation = λ c n. (n, response (some (message Role.user c ∷ [])));
  switch = λ c n. (suc n, false);
  archive = λ c n. (suc n, false);
  unarchive = λ c n. (suc n, false);
  generation = λ g n. (n, response (some (snapshot GenerationStatus.completed g)));
  active_generation = λ n. (n, request_error);
}

selects_first_active : (load_sessions server (0, chat "" [])).1.conversation_id ≡ "new"
unfolding load_sessions switch_session
selects_first_active = refl

archives_current : (archive_session server "old" (0, chat "old" greeting)).1.conversation_id ≡ ""
unfolding archive_session load_sessions
archives_current = refl

abbrev storm : List Event
storm =
    url true WsStatus.status_closed
    ∷ disconnected 1006 true
    ∷ disconnected 1008 true
    ∷ opened true WsStatus.status_closed
    ∷ connected
    ∷ received "connection" (some "s")
    ∷ disconnected 1006 true
    ∷ disconnected 1003 true
    ∷ []

two_notices : notices (run storm new_connection).effects ≡ 2
unfolding notices run
two_notices = refl

notices-run_example : notices (run storm new_connection).effects ≤ count_rearms storm + 1
notices-run_example = notices-run storm

halfway : (ticks (1500 ∷ []) (start_rate_limit_countdown 1000 2 unlimited)).remaining_seconds ≡ 2
unfolding ticks start_rate_limit_countdown
halfway = refl

comes_back :
    connection_status status_connecting (run (received "connection" (some "s") ∷ []) new_connection)
    ≡ reconnecting
unfolding run
comes_back = refl
