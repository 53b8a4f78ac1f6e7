-- ===== src/Tests/Streams.antt =====
-- A question and its answer by the socket.
use mathlib.Core.Option.{map as map_option}
use smart_copilot.Common.{
  ℕ, zero, suc, String, ◌≡◌, refl, true, false, Option, none, some, List, [], ◌∷◌, arith, map,
}
use smart_copilot.Common.Texts.{show}
use smart_copilot.Chat.{MessageStatus, Message, GenerationSnapshot}
use smart_copilot.Chat.Snapshot.{is_answer, get_last_such?, find_last_idx?, modify_at}
use smart_copilot.Tests.Chats.{chat}
use smart_copilot.Stream.{Payload, number, numeric, value, build_ws_error_message}
use smart_copilot.Stream.Handlers.{kind_of, failure}
use smart_copilot.Stream.Box.{Box, messages, handle_payload, run, start_generation_status_monitor}
use smart_copilot.Stream.Sending.{send_message, new_answer, new_question, is_sending}
use smart_copilot.Stream.Monitor.{ticks}
use smart_copilot.Stream.Ticks.{regular, ticks-end}
use smart_copilot.Stream.Answers.{answer, say_all}
use smart_copilot.Stream.Send.{messages-exchange}
use smart_copilot.Stream.Ends.{has_ended, handle_payload-ends}
use smart_copilot.Stream.Pieces.{run-joined}

abbrev payload : String → Option String → Option String → Payload
payload type_ status chunk = record {
  type_ = type_;
  generation_id = some "g";
  conversation_id = some "c";
  timestamp = some 1;
  status = status;
  reference_mappings = none;
  error = none;
  message = none;
  code = none;
  retry_after_seconds = 0;
  chunk = chunk;
  tool_call_id = some "t";
  tool = some "search";
}

abbrev start_payload : Payload
start_payload = payload "start" none none

abbrev finish_payload : Payload
finish_payload = payload "completion" (some "finished") none

abbrev answer_payloads : List (ℕ × Payload)
answer_payloads =
    (2, payload "" none (some "It ")) ∷ (3, payload "" none (some "is.")) ∷ (4, finish_payload) ∷ []

abbrev iso : ℕ → String
iso t = show t

abbrev box : List Message → Box
box list = record {
  chat = record (chat "" list) { input_message = "Is it?" };
  model_mode = none;
  llm_token = 0;
  timer = false;
  started_at = 0;
  last_length = 0;
  last_changed_at = 0;
  effects = [];
}

exchanged :
    map answer (messages (run iso ((1, start_payload) ∷ answer_payloads) (send_message 0 (box []))))
    ≡ ("Is it?", none) ∷ ("It is.", some MessageStatus.finished) ∷ []
unfolding run send_message handle_payload find_last_idx? modify_at
exchanged = refl

sending : is_sending (send_message 0 (box [])) ≡ true
unfolding send_message
sending = refl

-- A piece that comes for a generation which has no answer goes to the latest answer of another one.
abbrev other_answer : Message
other_answer = record new_answer {
  generation_id = some "h";
  content = "Old.";
  status = some MessageStatus.finished;
}

misplaced :
    map answer
      (messages (handle_payload iso 1 (payload "" none (some "New")) (box (other_answer ∷ []))))
    ≡ ("Old.New", some MessageStatus.loading) ∷ []
unfolding handle_payload find_last_idx? modify_at
misplaced = refl

limited :
    build_ws_error_message
      (record start_payload { code = some (number 429); retry_after_seconds = 3 })
    ≡ "聊天请求过于频繁，请在 3 秒后重试"
unfolding build_ws_error_message show
limited = refl

messages-exchange_example :
    (a : Message) × (messages
        (run iso ((1, start_payload) ∷ answer_payloads) (send_message 0 (box [])))
      ≡ new_question "Is it?" ∷ a ∷ [])
    × (answer a ≡ say_all answer_payloads ("", some MessageStatus.pending))
unfolding find_last_idx? kind_of
messages-exchange_example =
    messages-exchange "g" refl iso 0 1 start_payload answer_payloads (box []) refl refl refl
      (refl, (refl, (refl, tt)))

abbrev half_answer : Message
half_answer = record new_answer {
  generation_id = some "g";
  content = "So: ";
  status = some MessageStatus.loading;
}

run-joined_example :
    map_option answer
      (get_last_such? (is_answer "g") (messages (run iso answer_payloads (box (half_answer ∷ [])))))
    ≡ some ("So: It is.", some MessageStatus.finished)
unfolding kind_of get_last_such?
run-joined_example =
    run-joined "g" refl iso
      ((2, payload "" none (some "It ")) ∷ (3, payload "" none (some "is.")) ∷ []) 4 finish_payload
      (box (half_answer ∷ [])) half_answer refl refl (refl, (refl, (refl, tt))) (refl, (refl, tt))
      refl refl

-- A code that is a text ends an answer, but is not told as too many requests.
numeric_code : kind_of (record (payload "" none none) { code = some (numeric 429) }) ≡ failure
unfolding kind_of
numeric_code = refl

other_error : kind_of (record (payload "" none none) { error = some (value true) }) ≡ failure
unfolding kind_of
other_error = refl

abbrev open_answer : Message
open_answer = record new_answer {
  generation_id = some "g";
  tool_events =
      some (record { id = some "t"; tool = "search"; status = "executing"; timestamp = none } ∷ []);
}

handle_payload-ends_example :
    (map_option has_ended (
        get_last_such?
          (is_answer "g")
          (messages (handle_payload iso 5 finish_payload (box (open_answer ∷ [])))))
      ≡ some true)
    × ((handle_payload iso 5 finish_payload (box (open_answer ∷ []))).timer ≡ false)
unfolding get_last_such? kind_of
handle_payload-ends_example =
    handle_payload-ends "g" refl iso 5 finish_payload (box (open_answer ∷ [])) open_answer refl refl
      refl

abbrev no_answers_of : ℕ → List (Option GenerationSnapshot)
no_answers_of zero = []
no_answers_of (suc n) = none ∷ no_answers_of n

abbrev no_answers : List (Option GenerationSnapshot)
no_answers = no_answers_of 70

ticks-end_example :
    (ticks
      (regular 0 1 no_answers)
      (start_generation_status_monitor 0 (box (open_answer ∷ [])))).timer
    ≡ false
ticks-end_example = ticks-end 0 no_answers (box (open_answer ∷ [])) (omega arith)
