-- ===== src/Chat.antt =====
-- The chat store of frontend/src/store/modules/chat/index.ts, with the types of the namespace Chat
-- of frontend/src/typings/api.d.ts.
pub mod Snapshot
pub mod LastMatch
pub mod Upsert
pub mod Sessions
pub mod Connection
pub mod RateLimit
pub mod Laws
use smart_copilot.Common.{ℕ, String, Option}
use smart_copilot.Common.{List}

pub data GenerationStatus : Type 0 where
  streaming : GenerationStatus
  completed : GenerationStatus
  failed : GenerationStatus
  cancelled : GenerationStatus

pub data Role : Type 0 where
  user : Role
  assistant : Role

pub data MessageStatus : Type 0 where
  pending : MessageStatus
  loading : MessageStatus
  finished : MessageStatus
  error : MessageStatus

-- A missing field and null are one value here: the store only passes evidence on.
pub record ReferenceEvidence : Type 0 where
  pub file_md5 : String
  pub file_name : String
  pub page_number : Option ℕ
  pub anchor_text : Option String
  pub retrieval_mode : Option String
  pub retrieval_label : Option String
  pub retrieval_query : Option String
  pub matched_chunk_text : Option String
  pub evidence_snippet : Option String
  pub score : Option ℕ
  pub chunk_id : Option ℕ

-- An object with evidence by key, as the list of its entries.
abbrev pub Mappings : Type 0
Mappings = List (String × ReferenceEvidence)

pub record AgentToolEvent : Type 0 where
  pub id : Option String
  pub tool : String
  pub status : String
  pub timestamp : Option ℕ

pub record Message : Type 0 where
  pub role : Role
  pub content : String
  pub status : Option MessageStatus
  pub timestamp : Option String
  pub conversation_id : Option String
  pub generation_id : Option String
  pub username : Option String
  pub reference_mappings : Option Mappings
  pub tool_events : Option (List AgentToolEvent)
  pub feedback_rating : Option String

pub record GenerationSnapshot : Type 0 where
  pub generation_id : String
  pub user_id : String
  pub conversation_id : String
  pub question : String
  pub status : Option GenerationStatus
  pub content : String
  pub created_at : String
  pub updated_at : String
  pub error_message : Option String
  pub reference_mappings : Option Mappings

pub data SessionStatus : Type 0 where
  active : SessionStatus
  archived : SessionStatus

pub record ConversationSession : Type 0 where
  pub id : ℕ
  pub conversation_id : String
  pub title : String
  pub status : SessionStatus
  pub created_at : String
  pub updated_at : String
