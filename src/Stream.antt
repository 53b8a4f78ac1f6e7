-- ===== src/Stream.antt =====
-- How frontend/src/views/chat/modules/input-box.vue takes the messages of the socket: which answer a
-- payload is for, and what it does to that answer.
pub mod Box
pub mod Handlers
pub mod Sending
pub mod Models
pub mod Ticks
pub mod Monitor
pub mod Answers
pub mod Ends
pub mod Pieces
pub mod Send
use Prim.Native.String
use smart_copilot.Common.{
  ℕ, suc, zero, String, Bool, true, false, ◌&&◌, ◌||◌, not, Option, none, some, List, [], ◌∷◌, ◌++◌,
  map, ◌==◌, if◌then◌else◌, truthy, is_truthy, or_default, get_or, ltb, leb, eqb, includes, any,
}
use smart_copilot.Common.Texts.{trim, show}
use smart_copilot.Chat.{Role, MessageStatus, Mappings, AgentToolEvent, Message}
use smart_copilot.Chat.Snapshot.{find_last_idx?, is_answer, is_assistant}

-- The code of a failure: a number, or another value that `Number` reads as one. Any other value is as
-- no code.
pub data Code : Type 0 where
  number : ℕ → Code
  numeric : ℕ → Code

-- The error of a failure: a text, or another value, of which it counts only whether it is true.
pub data ErrorField : Type 0 where
  text : String → ErrorField
  value : Bool → ErrorField

-- A parsed message of the socket. A field other than `error` and `code` that has another type than its
-- own is missing here; a missing `type` is the empty text, and missing numbers of seconds are 0.
pub record Payload : Type 0 where
  pub type_ : String
  pub generation_id : Option String
  pub conversation_id : Option String
  pub timestamp : Option ℕ
  pub status : Option String
  pub reference_mappings : Option Mappings
  pub error : Option ErrorField
  pub message : Option String
  pub code : Option Code
  pub retry_after_seconds : ℕ
  pub chunk : Option String
  pub tool_call_id : Option String
  pub tool : Option String

-- `typeof x === 'string' && x.trim()`
abbrev trimmed : Option String → String
trimmed none = ""
trimmed (some s) = trim s

abbrev error_text : Option ErrorField → Option String
error_text none = none
error_text (some (text s)) = some s
error_text (some (value b)) = none

-- `Boolean(payload.error)`
abbrev pub has_error : Option ErrorField → Bool
has_error none = false
has_error (some (text s)) = truthy s
has_error (some (value b)) = b

-- `Number(payload.code)`
abbrev pub code_number : Option Code → Option ℕ
code_number none = none
code_number (some (number n)) = some n
code_number (some (numeric n)) = some n

abbrev is_n429 : Option ℕ → Bool
is_n429 none = false
is_n429 (some n) = eqb n 429

-- `Number(payload.code) === 429`
abbrev pub is_429 : Option Code → Bool
is_429 code = is_n429 (code_number code)

-- `data.code === 429`, which no text is.
abbrev is_number_429 : Option Code → Bool
is_number_429 none = false
is_number_429 (some (number n)) = eqb n 429
is_number_429 (some (numeric n)) = false

unfoldable pub build_ws_error_message : Payload → String
build_ws_error_message p =
    if is_number_429 p.code
    then (let base = or_default p.message "聊天请求过于频繁" in
        if ltb 0 p.retry_after_seconds
        then String.◌++◌ base
            (String.◌++◌ "，请在 " (String.◌++◌ (show p.retry_after_seconds) " 秒后重试"))
        else String.◌++◌ base "，请稍后再试")
    else if truthy (trimmed (error_text p.error))
    then trimmed (error_text p.error)
    else if truthy (trimmed p.message)
    then trimmed p.message
    else "服务器繁忙，请稍后再试"

-- The latest message, if it is an answer.
unfoldable pub last_answer_index : List Message → Option ℕ
last_answer_index [] = none
last_answer_index (m ∷ []) = if is_assistant m.role then some 0 else none
last_answer_index (m ∷ n ∷ ms) = elim (last_answer_index (n ∷ ms)) [
  | none ↦ none
  | some i ↦ some (suc i)
]

abbrev pub or_index : Option ℕ → Option ℕ → Option ℕ
or_index none j = j
or_index (some i) j = some i

-- `findAssistantMessage`, by the position of what it returns.
unfoldable pub find_assistant_message : Option String → List Message → Option ℕ
unfolding last_answer_index
find_assistant_message none list = last_answer_index list
find_assistant_message (some generation_id) list =
    if truthy generation_id
    then or_index (find_last_idx? (is_answer generation_id) list) (last_answer_index list)
    else last_answer_index list
