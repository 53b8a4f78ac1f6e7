-- ===== src/Stream/Answers.antt =====
-- What the payloads of one generation make of its answer:
-- frontend/src/views/chat/modules/input-box.vue.
use Prim.Native.String
use mathlib.Core.Option.{map}
use smart_copilot.Common.{
  ℕ, String, ◌≡◌, refl, ap, sym, ◌∙◌, Bool, true, ◌&&◌, Option, none, some, List, [], ◌∷◌,
  if◌then◌else◌, truthy, All, if-true, if-false, if-both, Bool-cases, Option-cases, inl, inr,
  eq_refl,
}
use smart_copilot.Chat.{Role, MessageStatus, Message}
use smart_copilot.Chat.Snapshot.{
  is_assistant, is_id, modify_at, find_last_idx?, get_last_such?, is_answer,
}
use smart_copilot.Chat.LastMatch.{get_last-modify, get_last-none}
use smart_copilot.Stream.{
  Payload, find_assistant_message, or_index, last_answer_index, build_ws_error_message, is_429,
}
use smart_copilot.Stream.Handlers.{
  Kind, start, completion, tool_call, stop, failure, piece, other, kind_of, answer_by,
  completed_status, finish_unless_error, is_tool_call, handle_tool_call_payload, or_keep_text,
}
use smart_copilot.Stream.Box.{
  Box, messages, set_messages, take_conversation, handle_payload, handle_at, box_by, nth?, run,
}

-- An answer as its reader sees it: what it says, and whether it is pending, goes on, is finished or
-- has failed.
abbrev pub Answer : Type 0
Answer = String × Option MessageStatus

abbrev pub answer : Message → Answer
answer a = (a.content, a.status)

-- What a payload of a kind says about an answer.
unfoldable pub say : Kind → Payload → Answer → Answer
unfolding build_ws_error_message
say start p a = a
say completion p (content, status) = (content, completed_status p.status status)
say tool_call p (content, status) =
    (content, if is_tool_call p then some MessageStatus.loading else status)
say stop p (content, status) = (content, finish_unless_error status)
say failure p a = (build_ws_error_message p, some MessageStatus.error)
say (piece chunk) p (content, status) = (String.◌++◌ content chunk, some MessageStatus.loading)
say other p a = a

unfoldable pub say_all : List (ℕ × Payload) → Answer → Answer
unfolding say kind_of
say_all [] a = a
say_all ((now, p) ∷ ps) a = say_all ps (say (kind_of p) p a)

pub answer-answer_by :
    (iso : ℕ → String) (now : ℕ) (k : Kind) (p : Payload) (a : Message)
    → answer (answer_by iso now k p a) ≡ say k p (answer a)
unfolding answer_by say handle_tool_call_payload
answer-answer_by iso now start p a = refl
answer-answer_by iso now completion p a = refl
answer-answer_by iso now tool_call p a = elim (Bool-cases (is_tool_call p)) [
  | inl good ↦ ap answer (if-true _ _ good) ∙ ap (λ s. (a.content, s)) (sym (if-true _ _ good))
  | inr bad ↦ ap answer (if-false _ _ bad) ∙ ap (λ s. (a.content, s)) (sym (if-false _ _ bad))
]
answer-answer_by iso now stop p a = refl
answer-answer_by iso now failure p a = refl
answer-answer_by iso now (piece chunk) p a = refl
answer-answer_by iso now other p a = refl

messages-take_conversation :
    (o : Option String) (b : Box) → messages (take_conversation o b) ≡ messages b
messages-take_conversation none b = refl
messages-take_conversation (some id) b = if-both messages (truthy id) refl refl

pub messages-box_by :
    (now : ℕ) (k : Kind) (p : Payload) (c : Option Message) (b : Box)
    → messages (box_by now k p c b) ≡ messages b
unfolding box_by
messages-box_by now start p c b = refl
messages-box_by now completion p c b = messages-take_conversation p.conversation_id b
messages-box_by now tool_call p c b = refl
messages-box_by now stop p c b = refl
messages-box_by now failure p c b = if-both messages (is_429 p.code) refl refl
messages-box_by now (piece chunk) p none b = refl
messages-box_by now (piece chunk) p (some a) b = refl
messages-box_by now other p c b = refl

is_assistant-answer : (r : Role) (b : Bool) → is_assistant r && b ≡ true → is_assistant r ≡ true
is_assistant-answer Role.user b h = h
is_assistant-answer Role.assistant b h = refl

pub none-some {ℓ} : {A P : Type ℓ} (o : Option A) (a : A) → o ≡ none → o ≡ some a → P
none-some o a h g = cc

module _ (generation_id : String) (named : truthy generation_id ≡ true) where
  abbrev answers : Message → Bool
  answers = is_answer generation_id

  abbrev pub IsFor : Payload → Type 0
  IsFor p = p.generation_id ≡ some generation_id

  pub keep_named :
      (new old : Option String)
      → new ≡ some generation_id
      → or_keep_text new old ≡ some generation_id
  keep_named none old f = cc
  keep_named (some g) old f = ap (λ s. or_keep_text s old) f ∙ if-true _ _ named

  pub answer_by-keeps :
      (iso : ℕ → String) (now : ℕ) (k : Kind) (p : Payload) (a : Message)
      → IsFor p
      → answers a ≡ true
      → answers (answer_by iso now k p a) ≡ true
  unfolding answer_by handle_tool_call_payload
  answer_by-keeps iso now start p a f h =
      ap (λ o. is_assistant a.role && is_id generation_id o)
        (keep_named p.generation_id a.generation_id f)
      ∙ ap (λ b. is_assistant a.role && b) (eq_refl generation_id)
      ∙ ap (λ b. b && true) (is_assistant-answer a.role (is_id generation_id a.generation_id) h)
  answer_by-keeps iso now completion p a f h = h
  answer_by-keeps iso now tool_call p a f h = if-both answers (is_tool_call p) h h
  answer_by-keeps iso now stop p a f h = h
  answer_by-keeps iso now failure p a f h = h
  answer_by-keeps iso now (piece chunk) p a f h = h
  answer_by-keeps iso now other p a f h = h

  find-found :
      (list : List Message) (i : ℕ)
      → find_last_idx? answers list ≡ some i
      → find_assistant_message (some generation_id) list ≡ some i
  unfolding find_assistant_message
  find-found list i h = if-true _ _ named ∙ ap (λ o. or_index o (last_answer_index list)) h

  pub find_for :
      (p : Payload) (list : List Message) (i : ℕ)
      → IsFor p
      → find_last_idx? answers list ≡ some i
      → find_assistant_message p.generation_id list ≡ some i
  find_for p list i f h = ap (λ o. find_assistant_message o list) f ∙ find-found list i h

  latest-handle_at :
      (iso : ℕ → String) (now : ℕ) (p : Payload) (b : Box) (i : ℕ)
      → IsFor p
      → find_last_idx? answers (messages b) ≡ some i
      → get_last_such? answers (messages (handle_at iso now p (some i) b))
        ≡ map (answer_by iso now (kind_of p) p) (get_last_such? answers (messages b))
  latest-handle_at iso now p b i f at =
      let list = modify_at (answer_by iso now (kind_of p) p) i (messages b) in
      ap (get_last_such? answers)
        (messages-box_by now (kind_of p) p (nth? i list) (set_messages list b))
      ∙ get_last-modify answers (answer_by iso now (kind_of p) p)
          (λ x. answer_by-keeps iso now (kind_of p) p x f) (messages b) i at

  -- A payload of a generation changes its latest answer, and leaves it the latest.
  pub step :
      (iso : ℕ → String) (now : ℕ) (p : Payload) (b : Box) (a : Message)
      → IsFor p
      → get_last_such? answers (messages b) ≡ some a
      → get_last_such? answers (messages (handle_payload iso now p b))
        ≡ some (answer_by iso now (kind_of p) p a)
  unfolding handle_payload
  step iso now p b a f h = elim (Option-cases (find_last_idx? answers (messages b))) [
    | inl absent ↦ none-some _ a (get_last-none answers (messages b) absent) h
    | inr (i, at) ↦
        ap (λ o. get_last_such? answers (messages (handle_at iso now p o b)))
          (find_for p (messages b) i f at)
        ∙ latest-handle_at iso now p b i f at
        ∙ ap (map (answer_by iso now (kind_of p) p)) h
  ]

  -- The payloads of one generation make of its answer what the specification says of them, whatever
  -- else the list holds.
  pub answer-run :
      (iso : ℕ → String) (ps : List (ℕ × Payload)) (b : Box) (a : Message)
      → All (λ (now, p). IsFor p) ps
      → get_last_such? answers (messages b) ≡ some a
      → map answer (get_last_such? answers (messages (run iso ps b))) ≡ some (say_all ps (answer a))
  unfolding run say_all
  answer-run iso [] b a f h = ap (map answer) h
  answer-run iso ((now, p) ∷ ps) b a (f, fs) h =
      answer-run iso ps (handle_payload iso now p b) (answer_by iso now (kind_of p) p a) fs
        (step iso now p b a f h)
      ∙ ap (λ x. some (say_all ps x)) (answer-answer_by iso now (kind_of p) p a)
