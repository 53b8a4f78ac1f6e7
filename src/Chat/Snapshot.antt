-- ===== src/Chat/Snapshot.antt =====
-- How frontend/src/store/modules/chat/index.ts finds the message of a generation and takes over a
-- snapshot of it.
use smart_copilot.Common.{
  ℕ, suc, zero, String, Bool, true, false, ◌&&◌, Option, none, some, List, [], ◌∷◌, ◌++◌, ◌==◌,
  if◌then◌else◌, truthy, or_text, is_truthy,
}
use smart_copilot.Chat.{
  GenerationStatus, Role, MessageStatus, Mappings, Message, GenerationSnapshot,
}

unfoldable pub map_generation_status : Option GenerationStatus → MessageStatus
map_generation_status none = MessageStatus.pending
map_generation_status (some GenerationStatus.completed) = MessageStatus.finished
map_generation_status (some GenerationStatus.cancelled) = MessageStatus.finished
map_generation_status (some GenerationStatus.failed) = MessageStatus.error
map_generation_status (some GenerationStatus.streaming) = MessageStatus.loading

-- The loop from the end of the list: the last position at which the test holds.
unfoldable pub find_last_idx? {ℓ} : {A : Type ℓ} → (A → Bool) → List A → Option ℕ
find_last_idx? p [] = none
find_last_idx? p (x ∷ xs) = elim (find_last_idx? p xs) [
  | none ↦ if p x then some 0 else none
  | some i ↦ some (suc i)
]

unfoldable pub get_last_such? {ℓ} : {A : Type ℓ} → (A → Bool) → List A → Option A
get_last_such? p [] = none
get_last_such? p (x ∷ xs) = elim (get_last_such? p xs) [
  | none ↦ if p x then some x else none
  | some y ↦ some y
]

-- A change of the element at a position, which the list holds by reference.
unfoldable pub modify_at {ℓ} : {A : Type ℓ} → (A → A) → ℕ → List A → List A
modify_at f i [] = []
modify_at f zero (x ∷ xs) = f x ∷ xs
modify_at f (suc i) (x ∷ xs) = x ∷ modify_at f i xs

abbrev pub is_assistant : Role → Bool
is_assistant Role.user = false
is_assistant Role.assistant = true

abbrev pub is_id : String → Option String → Bool
is_id id none = false
is_id id (some g) = g == id

-- `item?.role === 'assistant' && item.generationId === generationId`
abbrev pub is_answer : String → Message → Bool
is_answer generation_id item = is_assistant item.role && is_id generation_id item.generation_id

unfoldable pub find_assistant_index_by_generation_id : String → List Message → Option ℕ
unfolding find_last_idx?
find_assistant_index_by_generation_id generation_id list =
    if truthy generation_id then find_last_idx? (is_answer generation_id) list else none

-- `['pending', 'loading'].includes(item.status || '')`
abbrev pub is_open : Option MessageStatus → Bool
is_open none = false
is_open (some MessageStatus.pending) = true
is_open (some MessageStatus.loading) = true
is_open (some MessageStatus.finished) = false
is_open (some MessageStatus.error) = false

abbrev pub is_pending_answer : Message → Bool
is_pending_answer item =
    is_assistant item.role && is_open item.status && is_truthy item.generation_id

abbrev generation_of : Option Message → String
generation_of none = ""
generation_of (some item) = elim (item.generation_id) [ none ↦ "" | some g ↦ g ]

unfoldable pub get_pending_generation_id : List Message → String
unfolding get_last_such?
get_pending_generation_id list = generation_of (get_last_such? is_pending_answer list)

-- `timestamp ||= updatedAt`
abbrev pub or_set : Option String → String → Option String
or_set o d = if is_truthy o then o else some d

-- The mappings of a snapshot replace those of the message if they hold an entry.
abbrev pub or_keep : Option Mappings → Option Mappings → Option Mappings
or_keep none old = old
or_keep (some []) old = old
or_keep (some (m ∷ ms)) old = some (m ∷ ms)

-- An answer that takes over what a snapshot says, with these merged parts.
abbrev pub answer_with :
    GenerationSnapshot → Message → String → Option String → Option Mappings → Message
answer_with s a content timestamp mappings = record a {
  content = content;
  status = some (map_generation_status s.status);
  generation_id = some s.generation_id;
  conversation_id = some s.conversation_id;
  timestamp = timestamp;
  reference_mappings = mappings;
}

abbrev pub update_answer : GenerationSnapshot → Message → Message
update_answer s a =
    answer_with s a (or_text s.content a.content) (or_set a.timestamp s.updated_at)
      (or_keep s.reference_mappings a.reference_mappings)

abbrev pub question_of : GenerationSnapshot → Message
question_of s = record {
  role = Role.user;
  content = s.question;
  status = none;
  timestamp = some s.created_at;
  conversation_id = some s.conversation_id;
  generation_id = some s.generation_id;
  username = none;
  reference_mappings = none;
  tool_events = none;
  feedback_rating = none;
}

abbrev pub answer_of : GenerationSnapshot → Message
answer_of s = record {
  role = Role.assistant;
  content = s.content;
  status = some (map_generation_status s.status);
  timestamp = some s.updated_at;
  conversation_id = some s.conversation_id;
  generation_id = some s.generation_id;
  username = none;
  reference_mappings = s.reference_mappings;
  tool_events = none;
  feedback_rating = none;
}

-- The list after a snapshot, where the position of the answer is known.
abbrev pub upsert_at : GenerationSnapshot → Option ℕ → List Message → List Message
upsert_at s none list = list ++ question_of s ∷ answer_of s ∷ []
upsert_at s (some i) list = modify_at (update_answer s) i list

unfoldable pub upsert_messages : GenerationSnapshot → List Message → List Message
unfolding find_assistant_index_by_generation_id
upsert_messages s list =
    upsert_at s (find_assistant_index_by_generation_id s.generation_id list) list
