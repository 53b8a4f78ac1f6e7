-- ===== src/Stream/Box.antt =====
-- The state of frontend/src/views/chat/modules/input-box.vue, over the chat store: payloads and
-- sending.

use smart_copilot.Common.{
  ℕ, suc, zero, String, Bool, true, false, Option, none, some, List, [], ◌∷◌, if◌then◌else◌, truthy,
}
use smart_copilot.Common.Texts.{utf16_length}
use smart_copilot.Chat.{Message}
use smart_copilot.Chat.Snapshot.{modify_at}
use smart_copilot.Chat.RateLimit.{start_rate_limit_countdown}
use smart_copilot.Chat.Sessions.{ChatStore}
use smart_copilot.Stream.{Payload, find_assistant_message, build_ws_error_message, is_429}
use smart_copilot.Stream.Handlers.{
  Kind, start, completion, tool_call, stop, failure, piece, other, kind_of, answer_by,
}

-- What the component shows, sends and asks of the store.
pub data BoxEffect : Type 0 where
  warning : String → BoxEffect
  failed_with : String → BoxEffect
  load_sessions : BoxEffect
  open_socket : BoxEffect
  send_chat : String → String → BoxEffect
  send_stop : Option String → String → BoxEffect

-- `timer` is whether an interval stands; the last three are what it reads. Effects stand last first.
pub record Box : Type 0 where
  pub chat : ChatStore
  pub model_mode : Option String
  pub llm_token : ℕ
  pub timer : Bool
  pub started_at : ℕ
  pub last_length : ℕ
  pub last_changed_at : ℕ
  pub effects : List BoxEffect

abbrev pub messages : Box → List Message
messages b = b.chat.list

abbrev pub set_messages : List Message → Box → Box
set_messages list b = record b { chat = record b.chat { list = list } }

abbrev pub do_effect : BoxEffect → Box → Box
do_effect e b = record b { effects = e ∷ b.effects }

abbrev pub stop_generation_status_monitor : Box → Box
stop_generation_status_monitor b = record b { timer = false }

abbrev pub start_generation_status_monitor : ℕ → Box → Box
start_generation_status_monitor now b = record b {
  timer = true;
  started_at = now;
  last_length = 0;
  last_changed_at = now;
}

-- `payload.conversationId && payload.conversationId !== chatStore.conversationId`
abbrev pub take_conversation : Option String → Box → Box
take_conversation none b = b
take_conversation (some id) b =
    if truthy id then record b { chat = record b.chat { conversation_id = id } } else b

abbrev limit_rate : ℕ → Payload → Box → Box
limit_rate now p b =
    if is_429 p.code
    then record b {
      chat = record b.chat {
        rate_limit = start_rate_limit_countdown now p.retry_after_seconds b.chat.rate_limit;
      };
    }
    else b

abbrev failure_notice : Payload → BoxEffect
failure_notice p =
    if is_429 p.code
    then warning (build_ws_error_message p)
    else failed_with (build_ws_error_message p)

-- The content of the answer after a piece of it, as the monitor measures it.
abbrev measured : ℕ → Option Message → Box → Box
measured now none b = b
measured now (some a) b = record b { last_length = utf16_length a.content; last_changed_at = now }

-- What a payload of a kind does besides changing its answer `changed`.
unfoldable pub box_by : ℕ → Kind → Payload → Option Message → Box → Box
unfolding build_ws_error_message start_rate_limit_countdown utf16_length
box_by now start p changed b = b
box_by now completion p changed b =
    stop_generation_status_monitor (do_effect load_sessions (take_conversation p.conversation_id b))
box_by now tool_call p changed b = b
box_by now stop p changed b = stop_generation_status_monitor b
box_by now failure p changed b =
    do_effect (failure_notice p) (stop_generation_status_monitor (limit_rate now p b))
box_by now (piece chunk) p changed b = measured now changed b
box_by now other p changed b = b

unfoldable pub nth? : ℕ → List Message → Option Message
nth? i [] = none
nth? zero (m ∷ ms) = some m
nth? (suc i) (m ∷ ms) = nth? i ms

abbrev pub handle_at : (ℕ → String) → ℕ → Payload → Option ℕ → Box → Box
handle_at iso now p none b = b
handle_at iso now p (some i) b =
    let list = modify_at (answer_by iso now (kind_of p) p) i (messages b) in
    box_by now (kind_of p) p (nth? i list) (set_messages list b)

-- The watch on `wsData`, for a message that parses.
unfoldable pub handle_payload : (ℕ → String) → ℕ → Payload → Box → Box
unfolding answer_by box_by kind_of find_assistant_message nth?
handle_payload iso now p b =
    handle_at iso now p (find_assistant_message p.generation_id (messages b)) b

-- Payloads with the times at which they come.
unfoldable pub run : (ℕ → String) → List (ℕ × Payload) → Box → Box
unfolding handle_payload
run iso [] b = b
run iso ((now, p) ∷ ps) b = run iso ps (handle_payload iso now p b)
