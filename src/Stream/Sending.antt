-- ===== src/Stream/Sending.antt =====
-- Sending a question, and stopping its answer: frontend/src/views/chat/modules/input-box.vue.
use Prim.Native.String
use smart_copilot.Common.{
  ℕ, String, Bool, true, false, ◌&&◌, ◌||◌, not, Option, none, some, List, [], ◌∷◌, ◌++◌, ◌==◌,
  if◌then◌else◌, truthy, or_default, leb, get_last?,
}
use smart_copilot.Chat.{Role, MessageStatus, Message}
use smart_copilot.Chat.Snapshot.{is_assistant, is_open}
use smart_copilot.Chat.Connection.{
  WsStatus, ConnectionStatus, is_open as open_status, reconnecting, is_connecting, is_closed,
  connection_status, ws_open,
}
use smart_copilot.Chat.RateLimit.{is_rate_limited}
use smart_copilot.Stream.Box.{
  Box, messages, set_messages, do_effect, start_generation_status_monitor, warning, open_socket,
  send_chat, send_stop,
}

-- `['loading', 'pending'].includes(status)` of the latest message, if it is an answer.
abbrev is_sending_message : Option Message → Bool
is_sending_message none = false
is_sending_message (some m) = is_assistant m.role && is_open m.status

abbrev pub is_sending : Box → Bool
is_sending b = is_sending_message (get_last? (messages b))

abbrev is_unconnected : ConnectionStatus → Bool
is_unconnected open_status = false
is_unconnected reconnecting = false
is_unconnected is_connecting = true
is_unconnected is_closed = true

abbrev is_connected : ConnectionStatus → Bool
is_connected open_status = true
is_connected reconnecting = false
is_connected is_connecting = false
is_connected is_closed = false

unfoldable pub send_disabled : WsStatus → Box → Bool
send_disabled ws_status b =
    if is_sending b
    then false
    else if is_rate_limited b.chat.rate_limit
    then true
    else not (truthy b.chat.input_message)
      || is_unconnected (connection_status ws_status b.chat.connection)

abbrev pub new_question : String → Message
new_question content = record {
  role = Role.user;
  content = content;
  status = none;
  timestamp = none;
  conversation_id = none;
  generation_id = none;
  username = none;
  reference_mappings = none;
  tool_events = none;
  feedback_rating = none;
}

abbrev pub new_answer : Message
new_answer = record {
  role = Role.assistant;
  content = "";
  status = some MessageStatus.pending;
  timestamp = none;
  conversation_id = none;
  generation_id = none;
  username = none;
  reference_mappings = none;
  tool_events = some [];
  feedback_rating = none;
}

abbrev generation_of : Option Message → Option String
generation_of none = none
generation_of (some m) = m.generation_id

abbrev finished : Message → Message
finished m = record m { status = some MessageStatus.finished }

-- The last message is finished, and taken away again if it is empty.
unfoldable pub finish_last : List Message → List Message
finish_last [] = []
finish_last (m ∷ []) = if truthy m.content then finished m ∷ [] else []
finish_last (m ∷ n ∷ ms) = m ∷ finish_last (n ∷ ms)

-- With the answer of the request for a token, or none for an error.
unfoldable pub stop_sending : Option String → Box → Box
unfolding finish_last
stop_sending none b = b
stop_sending (some cmd_token) b =
    set_messages (finish_last (messages b))
      (do_effect (send_stop (generation_of (get_last? (messages b))) cmd_token) b)

unfoldable pub send_message : ℕ → Box → Box
send_message now b =
    let message = b.chat.input_message in
    start_generation_status_monitor now (
      do_effect (send_chat message (or_default b.model_mode "FREE")) (record b {
        chat = record b.chat {
          list = b.chat.list ++ new_question message ∷ new_answer ∷ [];
          input_message = "";
        };
      }))

abbrev is_paid : Option String → Bool
is_paid none = false
is_paid (some mode) = mode == "PAID"

-- `cooldownText` prints the reference itself and not its number.
abbrev cooldown_text : Bool → String
cooldown_text limited = if limited then "[object Object] 秒后可重新发送" else ""

abbrev ask_to_open : Bool → WsStatus → Box → Box
ask_to_open has_url ws_status b =
    record (do_effect open_socket (do_effect (warning "聊天服务尚未连接，请稍后重试或刷新页面") b)) {
      chat = record b.chat { connection = ws_open has_url ws_status b.chat.connection };
    }

unfoldable pub handle_send : ℕ → Bool → WsStatus → Option String → Box → Box
unfolding stop_sending send_message ws_open
handle_send now has_url ws_status cmd_token b =
    if is_rate_limited b.chat.rate_limit
    then do_effect (warning (String.◌++◌ "当前发送受限，" (cooldown_text true))) b
    else if not (is_connected (connection_status ws_status b.chat.connection))
    then ask_to_open has_url ws_status b
    else if is_sending b
    then stop_sending cmd_token b
    else if is_paid b.model_mode && leb b.llm_token 0
    then do_effect (warning "LLM Token 余额不足，请先充值或切换免费模型") b
    else send_message now b
