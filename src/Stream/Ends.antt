-- ===== src/Stream/Ends.antt =====
-- How an answer ends: frontend/src/views/chat/modules/input-box.vue.
use mathlib.Core.Option.{map as map_option}
use smart_copilot.Common.{
  ℕ, String, ◌≡◌, refl, ap, ◌∙◌, Bool, true, false, not, ◌&&◌, ◌||◌, Option, none, some, List, [],
  ◌∷◌, ◌==◌, inl, inr, map, if◌then◌else◌, truthy, all, if-true, if-false, get_or, Bool-cases,
  Option-cases,
}
use smart_copilot.Chat.{MessageStatus, Message, AgentToolEvent}
use smart_copilot.Chat.Snapshot.{is_open, is_answer, get_last_such?, find_last_idx?, modify_at}
use smart_copilot.Chat.LastMatch.{get_last-none}
use smart_copilot.Stream.{Payload}
use smart_copilot.Stream.Handlers.{
  Kind, start, piece, completion, stop, failure, tool_call, other, kind_of, answer_by,
  finish_unless_error, is_status, is_status_error, settle_tool, update_executing_tool_status,
}
use smart_copilot.Stream.Box.{Box, messages, handle_payload, handle_at, box_by, nth?, set_messages}
use smart_copilot.Stream.Answers.{IsFor, step, find_for, none-some}

-- A payload that ends its answer.
abbrev pub ends : Kind → Payload → Bool
ends start p = false
ends completion p = is_status "finished" p.status || is_status "failed" p.status
ends tool_call p = false
ends stop p = true
ends failure p = true
ends (piece chunk) p = false
ends other p = false

abbrev is_settled : AgentToolEvent → Bool
is_settled event = not (event.status == "executing")

-- An answer that has ended: it is not open, and none of its tools is executing.
abbrev pub has_ended : Message → Bool
has_ended a = not (is_open a.status) && all is_settled (get_or a.tool_events [])

settle_tool-settled :
    (status : String) (now : ℕ) (event : AgentToolEvent)
    → is_settled (record event { status = status }) ≡ true
    → is_settled (settle_tool status now event) ≡ true
settle_tool-settled status now event h = elim (Bool-cases (event.status == "executing")) [
  | inl executing ↦ ap is_settled (if-true _ _ executing) ∙ h
  | inr settled ↦ ap is_settled (if-false _ _ settled) ∙ ap not settled
]

all-settled :
    (status : String) (now : ℕ) (events : List AgentToolEvent)
    → not (status == "executing") ≡ true
    → all is_settled (map (settle_tool status now) events) ≡ true
all-settled status now [] h = refl
all-settled status now (event ∷ events) h =
    ap (λ b. b && all is_settled (map (settle_tool status now) events))
      (settle_tool-settled status now event h)
    ∙ all-settled status now events h

-- The tools that `updateExecutingToolStatus` leaves.
settled_events :
    (status : String) (now : ℕ) (a : Message)
    → not (status == "executing") ≡ true
    → (events : Option (List AgentToolEvent))
    → all is_settled (
        get_or
          (update_executing_tool_status status now (record a { tool_events = events })).tool_events
          [])
      ≡ true
settled_events status now a h none = refl
settled_events status now a h (some events) = all-settled status now events h

finish-closed : (status : Option MessageStatus) → not (is_open (finish_unless_error status)) ≡ true
finish-closed none = refl
finish-closed (some MessageStatus.pending) = refl
finish-closed (some MessageStatus.loading) = refl
finish-closed (some MessageStatus.finished) = refl
finish-closed (some MessageStatus.error) = refl

-- A completion that says finished or failed, by what it says.
completed-closed_by :
    (finished failed : Bool) (status : Option MessageStatus)
    → finished || failed ≡ true
    → not (
        is_open (
          if finished && not (is_status_error status)
          then some MessageStatus.finished
          else if failed
          then some MessageStatus.error
          else status))
      ≡ true
completed-closed_by false false status h = cc
completed-closed_by false true status h = refl
completed-closed_by true true none h = refl
completed-closed_by true true (some MessageStatus.pending) h = refl
completed-closed_by true true (some MessageStatus.loading) h = refl
completed-closed_by true true (some MessageStatus.finished) h = refl
completed-closed_by true true (some MessageStatus.error) h = refl
completed-closed_by true false none h = refl
completed-closed_by true false (some MessageStatus.pending) h = refl
completed-closed_by true false (some MessageStatus.loading) h = refl
completed-closed_by true false (some MessageStatus.finished) h = refl
completed-closed_by true false (some MessageStatus.error) h = refl

has_ended_of :
    (a : Message)
    → not (is_open a.status) ≡ true
    → all is_settled (get_or a.tool_events []) ≡ true
    → has_ended a ≡ true
has_ended_of a h g = ap (λ b. b && all is_settled (get_or a.tool_events [])) h ∙ g

ends-has_ended :
    (iso : ℕ → String) (now : ℕ) (k : Kind) (p : Payload) (a : Message)
    → ends k p ≡ true
    → has_ended (answer_by iso now k p a) ≡ true
unfolding answer_by
ends-has_ended iso now start p a h = cc
ends-has_ended iso now completion p a h =
    has_ended_of (answer_by iso now completion p a)
      (completed-closed_by (is_status "finished" p.status) (is_status "failed" p.status) a.status h)
      (settled_events "success" now a refl a.tool_events)
ends-has_ended iso now tool_call p a h = cc
ends-has_ended iso now stop p a h =
    has_ended_of (answer_by iso now stop p a) (finish-closed a.status)
      (settled_events "success" now a refl a.tool_events)
ends-has_ended iso now failure p a h =
    has_ended_of (answer_by iso now failure p a) refl
      (settled_events "failed" now a refl a.tool_events)
ends-has_ended iso now (piece chunk) p a h = cc
ends-has_ended iso now other p a h = cc

ends-timer :
    (now : ℕ) (k : Kind) (p : Payload) (c : Option Message) (b : Box)
    → ends k p ≡ true
    → (box_by now k p c b).timer ≡ false
unfolding box_by
ends-timer now start p c b h = cc
ends-timer now completion p c b h = refl
ends-timer now tool_call p c b h = cc
ends-timer now stop p c b h = refl
ends-timer now failure p c b h = refl
ends-timer now (piece chunk) p c b h = cc
ends-timer now other p c b h = cc

module _ (generation_id : String) (named : truthy generation_id ≡ true) where
  ends-timer_off :
      (iso : ℕ → String) (now : ℕ) (p : Payload) (b : Box) (a : Message)
      → IsFor generation_id named p
      → get_last_such? (is_answer generation_id) (messages b) ≡ some a
      → ends (kind_of p) p ≡ true
      → (handle_payload iso now p b).timer ≡ false
  unfolding handle_payload
  ends-timer_off iso now p b a f h e =
      elim (Option-cases (find_last_idx? (is_answer generation_id) (messages b))) [
        | inl absent ↦ none-some _ a (get_last-none (is_answer generation_id) (messages b) absent) h
        | inr (i, at) ↦
            let list = modify_at (answer_by iso now (kind_of p) p) i (messages b) in
            ap (λ o. (handle_at iso now p o b).timer)
              (find_for generation_id named p (messages b) i f at)
            ∙ ends-timer now (kind_of p) p (nth? i list) (set_messages list b) e
      ]

  -- A stop, an error or a completion that says finished or failed ends the latest answer of its
  -- generation: it is no longer open, none of its tools is executing, and the monitor is off.
  pub handle_payload-ends :
      (iso : ℕ → String) (now : ℕ) (p : Payload) (b : Box) (a : Message)
      → IsFor generation_id named p
      → get_last_such? (is_answer generation_id) (messages b) ≡ some a
      → ends (kind_of p) p ≡ true
      → (map_option has_ended
            (get_last_such? (is_answer generation_id) (messages (handle_payload iso now p b)))
          ≡ some true)
        × ((handle_payload iso now p b).timer ≡ false)
  handle_payload-ends iso now p b a f h e = (
    ap (map_option has_ended) (step generation_id named iso now p b a f h)
        ∙ ap some (ends-has_ended iso now (kind_of p) p a e),
    ends-timer_off iso now p b a f h e,
  )
