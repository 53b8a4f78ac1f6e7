-- ===== src/Stream/Handlers.antt =====
-- What a payload does to the answer that it is for:
-- frontend/src/views/chat/modules/input-box.vue.
use Prim.Native.String
use smart_copilot.Common.{
  ℕ, String, Bool, true, false, ◌&&◌, ◌||◌, not, Option, none, some, List, [], ◌∷◌, ◌++◌, map, ◌==◌,
  if◌then◌else◌, truthy, is_truthy, or_default, get_or, leb, eqb, includes, any,
}
use smart_copilot.Chat.{MessageStatus, Mappings, AgentToolEvent, Message}
use smart_copilot.Stream.{Payload, build_ws_error_message, has_error, code_number}

-- `new_value || old`, where both may be missing.
abbrev pub or_keep_text : Option String → Option String → Option String
or_keep_text new old = if is_truthy new then new else old

abbrev start_time : (ℕ → String) → Option ℕ → Option String → Option String
start_time iso none old = old
start_time iso (some t) old = if not (is_truthy old) && not (eqb t 0) then some (iso t) else old

-- `iso` is the text of a time: `new Date(t).toISOString()`.
abbrev pub handle_start_payload : (ℕ → String) → Payload → Message → Message
handle_start_payload iso p a = record a {
  generation_id = or_keep_text p.generation_id a.generation_id;
  conversation_id = or_keep_text p.conversation_id a.conversation_id;
  timestamp = start_time iso p.timestamp a.timestamp;
}

abbrev pub is_status_error : Option MessageStatus → Bool
is_status_error (some MessageStatus.error) = true
is_status_error (some MessageStatus.pending) = false
is_status_error (some MessageStatus.loading) = false
is_status_error (some MessageStatus.finished) = false
is_status_error none = false

-- `assistant.status !== 'error'` guards the end of an answer.
abbrev pub finish_unless_error : Option MessageStatus → Option MessageStatus
finish_unless_error status = if is_status_error status then status else some MessageStatus.finished

abbrev pub is_status : String → Option String → Bool
is_status name none = false
is_status name (some status) = status == name

-- The status after a completion with this `status`.
abbrev pub completed_status : Option String → Option MessageStatus → Option MessageStatus
completed_status p_status status =
    if is_status "finished" p_status && not (is_status_error status)
    then some MessageStatus.finished
    else if is_status "failed" p_status
    then some MessageStatus.error
    else status

-- `event.status !== 'executing'` events stay.
abbrev pub settle_tool : String → ℕ → AgentToolEvent → AgentToolEvent
settle_tool status now event =
    if event.status == "executing"
    then record event { status = status; timestamp = some now }
    else event

-- `updateExecutingToolStatus`
abbrev pub update_executing_tool_status : String → ℕ → Message → Message
update_executing_tool_status status now a = record a {
  tool_events = elim (a.tool_events) [
    | none ↦ none
    | some events ↦ some (map (settle_tool status now) events)
  ];
}

abbrev pub or_mappings : Option Mappings → Option Mappings → Option Mappings
or_mappings none old = old
or_mappings (some m) old = some m

abbrev pub handle_completion_payload : ℕ → Payload → Message → Message
handle_completion_payload now p a = update_executing_tool_status "success" now (record a {
  status = completed_status p.status a.status;
  reference_mappings = or_mappings p.reference_mappings a.reference_mappings;
})

abbrev pub handle_stop_payload : ℕ → Message → Message
handle_stop_payload now a =
    update_executing_tool_status "success" now (record a { status = finish_unless_error a.status })

abbrev pub handle_error_payload : ℕ → Payload → Message → Message
handle_error_payload now p a =
    update_executing_tool_status "failed" now
      (record a { status = some MessageStatus.error; content = build_ws_error_message p })

abbrev pub handle_chunk_payload : String → Message → Message
handle_chunk_payload chunk a = record a {
  status = some MessageStatus.loading;
  content = String.◌++◌ a.content chunk;
}

-- `matchEvent`: by the ids where both have one, by the tool where neither has.
abbrev pub match_event : AgentToolEvent → AgentToolEvent → Bool
match_event event item =
    if is_truthy event.id && is_truthy item.id
    then or_default event.id "" == or_default item.id ""
    else not (is_truthy event.id) && not (is_truthy item.id) && item.tool == event.tool

unfoldable pub put_tool : AgentToolEvent → List AgentToolEvent → List AgentToolEvent
put_tool event events =
    if any (match_event event) events
    then map (λ item. if match_event event item then event else item) events
    else events ++ event ∷ []

abbrev tool_status : Option String → String
tool_status none = "executing"
tool_status (some status) = status

-- `Number(payload.timestamp || Date.now())`
abbrev time_or : Option ℕ → ℕ → ℕ
time_or none now = now
time_or (some t) now = if eqb t 0 then now else t

abbrev tool_event : ℕ → Payload → AgentToolEvent
tool_event now p = record {
  id = some (get_or p.tool_call_id "");
  tool = get_or p.tool "";
  status = tool_status p.status;
  timestamp = some (time_or p.timestamp now);
}

abbrev pub is_tool_call : Payload → Bool
is_tool_call p =
    truthy (get_or p.tool "")
    && includes ("executing" ∷ "success" ∷ "failed" ∷ []) (tool_status p.status)

unfoldable pub handle_tool_call_payload : ℕ → Payload → Message → Message
unfolding put_tool
handle_tool_call_payload now p a =
    if is_tool_call p
    then record a {
      status = some MessageStatus.loading;
      tool_events = some (put_tool (tool_event now p) (get_or a.tool_events []));
    }
    else a

pub data Kind : Type 0 where
  start : Kind
  completion : Kind
  tool_call : Kind
  stop : Kind
  failure : Kind
  piece : String → Kind
  other : Kind

abbrev at_least_400 : Option ℕ → Bool
at_least_400 none = false
at_least_400 (some code) = leb 400 code

abbrev chunk_kind : Option String → Kind
chunk_kind none = other
chunk_kind (some chunk) = if truthy chunk then piece chunk else other

-- The tests of the watch on `wsData`, in their order.
unfoldable pub kind_of : Payload → Kind
kind_of p =
    if p.type_ == "start"
    then start
    else if p.type_ == "completion"
    then completion
    else if p.type_ == "tool_call"
    then tool_call
    else if p.type_ == "stop"
    then stop
    else if has_error p.error || at_least_400 (code_number p.code)
    then failure
    else chunk_kind p.chunk

-- What a payload of a kind does to the answer that it is for.
unfoldable pub answer_by : (ℕ → String) → ℕ → Kind → Payload → Message → Message
unfolding handle_tool_call_payload build_ws_error_message
answer_by iso now start p a = handle_start_payload iso p a
answer_by iso now completion p a = handle_completion_payload now p a
answer_by iso now tool_call p a = handle_tool_call_payload now p a
answer_by iso now stop p a = handle_stop_payload now a
answer_by iso now failure p a = handle_error_payload now p a
answer_by iso now (piece chunk) p a = handle_chunk_payload chunk a
answer_by iso now other p a = a
