-- ===== src/ChatMessage.antt =====
-- A message of the conversation: frontend/src/views/chat/modules/chat-message.vue. Its feedback, and
-- the preview that a click on a source opens.
pub mod Urls
use Prim.Native.String
use smart_copilot.Common.{
  ℕ, String, Bool, true, false, not, ◌&&◌, ◌||◌, Option, none, some, List, [], ◌∷◌, ◌++◌, ◌==◌,
  if◌then◌else◌, includes, filter, truthy, is_truthy, or_default, get_or, eqb,
}
use smart_copilot.Common.Texts.{show}
use smart_copilot.Chat.{Role, Message, Mappings, ReferenceEvidence}
use smart_copilot.Chat.Snapshot.{is_assistant}

abbrev or_option : Option String → Option String → Option String
or_option a b = if is_truthy a then a else b

unfoldable pub get_message_feedback_key : Message → String
get_message_feedback_key m =
    if is_truthy m.generation_id
    then or_default m.generation_id ""
    else String.◌++◌ (or_default m.conversation_id "unknown")
        (String.◌++◌ ":" (or_default m.timestamp ""))

pub data Rating : Type 0 where
  good bad : Rating

abbrev rating_text : Rating → String
rating_text good = "good"
rating_text bad = "bad"

-- What the request for a feedback says.
pub record FeedbackRequest : Type 0 where
  pub rating : Rating
  pub reason : String
  pub conversation_id : Option String
  pub generation_id : Option String

abbrev reason_of : Rating → String
reason_of good = "用户点击点赞，表示认可本次回答"
reason_of bad = "用户点击点踩，表示不满意本次回答"

-- `handleFeedback` up to its request, with the keys that are being submitted: the keys then, and the
-- request, if there is one.
unfoldable pub handle_feedback :
    Option String → Message → Rating → List String → List String × Option FeedbackRequest
unfolding get_message_feedback_key
handle_feedback session_id m rating submitting =
    let key = get_message_feedback_key m in
    if not (is_assistant m.role) || includes submitting key then (submitting, none) else (
      key ∷ submitting,
      some (record {
        rating = rating;
        reason = reason_of rating;
        conversation_id = or_option m.conversation_id session_id;
        generation_id = m.generation_id;
      }),
    )

-- Its rest, with whether the request failed.
unfoldable pub feedback_answered : Bool → Message → Rating → List String → List String × Message
unfolding get_message_feedback_key
feedback_answered error m rating submitting = (
  filter (λ k. not (k == get_message_feedback_key m)) submitting,
  if error then m else record m { feedback_rating = some (rating_text rating) },
)

-- The labels of a tool and of its state.
unfoldable pub get_tool_label : String → String
get_tool_label tool =
    if tool == "search_knowledge"
    then "检索知识库"
    else if tool == "generate_summary"
    then "生成知识摘要"
    else if tool == "submit_feedback"
    then "记录反馈"
    else if tool == "knowledge_stats"
    then "读取知识库统计"
    else tool

unfoldable pub get_tool_status_label : String → String
get_tool_status_label status =
    if status == "executing"
    then "执行中"
    else if status == "success"
    then "已完成"
    else if status == "failed"
    then "失败"
    else status

-- A source that was clicked. The page that `sourceFiles` keeps for it is not passed on.
pub record SourceFile : Type 0 where
  pub file_name : String
  pub reference_number : ℕ
  pub file_md5 : Option String
  pub anchor_text : Option String

pub record Preview : Type 0 where
  pub file_name : String
  pub file_md5 : Option String
  pub page_number : Option ℕ
  pub anchor_text : String
  pub retrieval_mode : Option String
  pub retrieval_label : Option String
  pub retrieval_query : String
  pub evidence_snippet : Option String
  pub matched_chunk_text : Option String
  pub score : Option ℕ
  pub chunk_id : Option ℕ
  pub session_id : Option String
  pub reference_number : ℕ

abbrev entry_at : String → Mappings → Option ReferenceEvidence
entry_at key [] = none
entry_at key ((k, e) ∷ mappings) =
    let rest = entry_at key mappings in if k == key then some e else rest

abbrev evidence_at : String → Option Mappings → Option ReferenceEvidence
evidence_at key none = none
evidence_at key (some mappings) = entry_at key mappings

unfoldable pub persisted_detail : Message → ℕ → Option ReferenceEvidence
persisted_detail m reference_number = evidence_at (show reference_number) m.reference_mappings

abbrev is_whole : Option ReferenceEvidence → Bool
is_whole none = false
is_whole (some e) =
    is_truthy e.retrieval_query && is_truthy e.matched_chunk_text && is_truthy e.evidence_snippet

unfoldable pub reference_session_id : Option String → Message → Option String
reference_session_id session_id m =
    or_option m.generation_id (or_option m.conversation_id session_id)

-- Whether the click asks the server for the detail.
unfoldable pub asks_detail : Option String → Message → SourceFile → Bool
unfolding reference_session_id persisted_detail
asks_detail session_id m file =
    is_truthy (reference_session_id session_id m)
    && not (is_whole (persisted_detail m file.reference_number))

abbrev with_md5 : Option ReferenceEvidence → Option ReferenceEvidence
with_md5 none = none
with_md5 (some e) = if truthy e.file_md5 then some e else none

abbrev text_or : Option String → Option String → String
text_or a b = if is_truthy a then or_default a "" else or_default b ""

abbrev preview_of : Option String → SourceFile → String → ReferenceEvidence → Preview
preview_of session_id file fallback e = record {
  file_name = if truthy e.file_name then e.file_name else file.file_name;
  file_md5 = some e.file_md5;
  page_number = e.page_number;
  anchor_text = text_or file.anchor_text e.anchor_text;
  retrieval_mode = e.retrieval_mode;
  retrieval_label = e.retrieval_label;
  retrieval_query = or_default e.retrieval_query fallback;
  evidence_snippet = e.evidence_snippet;
  matched_chunk_text = e.matched_chunk_text;
  score = e.score;
  chunk_id = e.chunk_id;
  session_id = session_id;
  reference_number = file.reference_number;
}

abbrev preview_without : Option String → SourceFile → String → Preview
preview_without session_id file fallback = record {
  file_name = file.file_name;
  file_md5 = if is_truthy file.file_md5 then file.file_md5 else none;
  page_number = none;
  anchor_text = text_or file.anchor_text none;
  retrieval_mode = none;
  retrieval_label = none;
  retrieval_query = fallback;
  evidence_snippet = none;
  matched_chunk_text = none;
  score = none;
  chunk_id = none;
  session_id = session_id;
  reference_number = file.reference_number;
}

abbrev preview_by :
    Option String
    → SourceFile
    → String
    → Option ReferenceEvidence
    → Option ReferenceEvidence
    → Preview
preview_by session_id file fallback (some detail) persisted =
    preview_of session_id file fallback detail
preview_by session_id file fallback none (some e) = preview_of session_id file fallback e
preview_by session_id file fallback none none = preview_without session_id file fallback

-- `handleSourceFileClick`, with what the server answers if it is asked; none for an error.
unfoldable pub handle_source_file_click :
    Option String → Option String → Message → SourceFile → Option ReferenceEvidence → Preview
unfolding asks_detail persisted_detail reference_session_id
handle_source_file_click session_id fallback m file answer =
    let session = reference_session_id session_id m in
    let asked = if asks_detail session_id m file then with_md5 answer else none in
    preview_by session file (get_or fallback "") asked
      (with_md5 (persisted_detail m file.reference_number))
