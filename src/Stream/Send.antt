-- ===== src/Stream/Send.antt =====
-- A question and its answer from the send to the last payload:
-- frontend/src/views/chat/modules/input-box.vue.

use smart_copilot.Common.{
  ℕ, suc, String, ◌≡◌, refl, ap, ◌∙◌, true, false, none, some, List, [], ◌∷◌, ◌++◌, length, arith,
  truthy, All, if-true, eq_refl,
}
use smart_copilot.Chat.{MessageStatus, Message}
use smart_copilot.Chat.Snapshot.{modify_at, find_last_idx?, is_answer, is_assistant}
use smart_copilot.Chat.LastMatch.{find_last_idx?-concat, modify_at-concat}
use smart_copilot.Stream.{Payload, find_assistant_message, or_index, last_answer_index}
use smart_copilot.Stream.Handlers.{start, kind_of, answer_by, handle_start_payload, is_status}
use smart_copilot.Stream.Box.{Box, messages, set_messages, handle_payload, handle_at, nth?, run}
use smart_copilot.Stream.Sending.{send_message, new_question, new_answer}
use smart_copilot.Stream.Answers.{
  answer, say_all, answer-answer_by, messages-box_by, answer_by-keeps, find_for, IsFor, keep_named,
}

-- The changes of an answer by all payloads of a list.
unfoldable pub answer_by_all : (ℕ → String) → List (ℕ × Payload) → Message → Message
unfolding answer_by kind_of
answer_by_all iso [] a = a
answer_by_all iso ((now, p) ∷ ps) a = answer_by_all iso ps (answer_by iso now (kind_of p) p a)

answer-answer_by_all :
    (iso : ℕ → String) (ps : List (ℕ × Payload)) (a : Message)
    → answer (answer_by_all iso ps a) ≡ say_all ps (answer a)
unfolding answer_by_all say_all
answer-answer_by_all iso [] a = refl
answer-answer_by_all iso ((now, p) ∷ ps) a =
    answer-answer_by_all iso ps (answer_by iso now (kind_of p) p a)
    ∙ ap (say_all ps) (answer-answer_by iso now (kind_of p) p a)

messages-handle_last :
    (iso : ℕ → String) (now : ℕ) (p : Payload) (b : Box) (xs : List Message) (q a : Message)
    → messages b ≡ xs ++ q ∷ a ∷ []
    → messages (handle_at iso now p (some (suc (length xs))) b)
      ≡ xs ++ q ∷ answer_by iso now (kind_of p) p a ∷ []
messages-handle_last iso now p b xs q a h =
    let list = modify_at (answer_by iso now (kind_of p) p) (suc (length xs)) (messages b) in
    messages-box_by now (kind_of p) p (nth? (suc (length xs)) list) (set_messages list b)
    ∙ ap (modify_at (answer_by iso now (kind_of p) p) (suc (length xs))) h
    ∙ modify_at-concat (answer_by iso now (kind_of p) p) xs q a

last_answer_index-concat :
    (xs : List Message) (q a : Message)
    → is_assistant a.role ≡ true
    → last_answer_index (xs ++ q ∷ a ∷ []) ≡ some (suc (length xs))
unfolding last_answer_index
last_answer_index-concat [] q a h = ground arith
last_answer_index-concat (x ∷ []) q a h = ground arith
last_answer_index-concat (x ∷ y ∷ xs) q a h = rw (last_answer_index-concat (y ∷ xs) q a h) refl

module _ (generation_id : String) (named : truthy generation_id ≡ true) where
  messages-run :
      (iso : ℕ → String) (ps : List (ℕ × Payload)) (b : Box) (xs : List Message) (q a : Message)
      → All (λ (now, p). IsFor generation_id named p) ps
      → is_answer generation_id a ≡ true
      → messages b ≡ xs ++ q ∷ a ∷ []
      → messages (run iso ps b) ≡ xs ++ q ∷ answer_by_all iso ps a ∷ []
  unfolding run handle_payload answer_by_all
  messages-run iso [] b xs q a f g h = h
  messages-run iso ((now, p) ∷ ps) b xs q a (f, fs) g h =
      let at = find_for generation_id named p (messages b) (suc (length xs)) f (
        ap (find_last_idx? (is_answer generation_id)) h
        ∙ find_last_idx?-concat (is_answer generation_id) xs q a g) in
      messages-run iso ps (handle_payload iso now p b) xs q (answer_by iso now (kind_of p) p a) fs
        (answer_by-keeps generation_id named iso now (kind_of p) p a f g)
        (ap (λ o. messages (handle_at iso now p o b)) at
          ∙ messages-handle_last iso now p b xs q a h)

  first_at :
      (xs : List Message) (q a : Message) (p : Payload)
      → IsFor generation_id named p
      → is_assistant a.role ≡ true
      → find_last_idx? (is_answer generation_id) (xs ++ q ∷ a ∷ []) ≡ none
      → find_assistant_message p.generation_id (xs ++ q ∷ a ∷ []) ≡ some (suc (length xs))
  unfolding find_assistant_message
  first_at xs q a p f r h =
      ap (λ o. find_assistant_message o (xs ++ q ∷ a ∷ [])) f
      ∙ if-true _ _ named
      ∙ ap (λ o. or_index o (last_answer_index (xs ++ q ∷ a ∷ []))) h
      ∙ last_answer_index-concat xs q a r

  find_last_idx?-new :
      (xs : List Message) (q : Message)
      → find_last_idx? (is_answer generation_id) xs ≡ none
      → is_answer generation_id q ≡ false
      → find_last_idx? (is_answer generation_id) (xs ++ q ∷ new_answer ∷ []) ≡ none
  unfolding find_last_idx?
  find_last_idx?-new [] q h g = ground (arith, g)
  find_last_idx?-new (x ∷ xs) q h g = ground (arith, find_last_idx?-new xs q, g)

  is_answer-start :
      (iso : ℕ → String) (p : Payload)
      → IsFor generation_id named p
      → is_answer generation_id (handle_start_payload iso p new_answer) ≡ true
  is_answer-start iso p f =
      ap (λ o. is_status generation_id o) (keep_named generation_id named p.generation_id none f)
      ∙ eq_refl generation_id

  -- After a send, the payloads of a new generation, of which the first is the start, add the question
  -- and an answer that says what the specification says of them; the list is as before but for these.
  pub messages-exchange :
      (iso : ℕ → String) (sent now : ℕ) (p : Payload) (ps : List (ℕ × Payload)) (b : Box)
      → find_last_idx? (is_answer generation_id) (messages b) ≡ none
      → kind_of p ≡ start
      → IsFor generation_id named p
      → All (λ (t, r). IsFor generation_id named r) ps
      → (a : Message) × (messages (run iso ((now, p) ∷ ps) (send_message sent b))
          ≡ messages b ++ new_question b.chat.input_message ∷ a ∷ [])
        × (answer a ≡ say_all ps ("", some MessageStatus.pending))
  unfolding send_message run handle_payload answer_by
  messages-exchange iso sent now p ps b fresh k f fs =
      let q = new_question b.chat.input_message in
      let begun = answer_by iso now (kind_of p) p new_answer in
      let at =
        first_at (messages b) q new_answer p f refl
          (find_last_idx?-new (messages b) q fresh refl) in
      let b' = handle_payload iso now p (send_message sent b) in
      let after : messages b' ≡ messages b ++ q ∷ begun ∷ [] =
        ap (λ o. messages (handle_at iso now p o (send_message sent b))) at
        ∙ messages-handle_last iso now p (send_message sent b) (messages b) q new_answer refl in
      let is_for : is_answer generation_id begun ≡ true =
        ap (λ k'. is_answer generation_id (answer_by iso now k' p new_answer)) k
        ∙ is_answer-start iso p f in
      (
        answer_by_all iso ps begun,
        messages-run iso ps b' (messages b) q begun fs is_for after,
        answer-answer_by_all iso ps begun
            ∙ ap (λ k'. say_all ps (answer (answer_by iso now k' p new_answer))) k,
      )
