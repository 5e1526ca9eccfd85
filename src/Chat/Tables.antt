-- ===== src/Chat/Tables.antt =====
-- app/models/chat.py: the tables of the chat, with the daily usage of app/models/audit.py. The columns
-- that nothing under app/ writes are left out, and a temperature is in hundredths.
use repo_info_backend.Catalog.Tables.{Repository}
use repo_info_backend.Models.Enums.{AiProvider, MessageRole, MessageStatus}
use repo_info_backend.Prelude.{Bool, List, Option, Text, ℕ}

pub record ChatSession : Type 0 where
  pub id : ℕ
  pub user_id : ℕ
  pub repository_id : ℕ
  pub title : Text
  pub is_pinned : Bool
  pub is_saved : Bool
  pub message_count : ℕ
  pub last_message_preview : Text
  pub last_message_at : Option ℕ
  pub created_at : ℕ
  pub updated_at : ℕ
  pub deleted_at : Option ℕ

pub record Message : Type 0 where
  pub id : ℕ
  pub session_id : ℕ
  pub role : MessageRole
  pub content : Text
  pub status : MessageStatus
  pub tokens_used : Option ℕ
  pub created_at : ℕ
  pub deleted_at : Option ℕ

pub record AiResponse : Type 0 where
  pub message_id : ℕ
  pub provider : AiProvider
  pub model : Text
  pub prompt_tokens : ℕ
  pub completion_tokens : ℕ
  pub total_tokens : ℕ
  pub latency_ms : ℕ
  pub finish_reason : Option Text
  pub temperature : ℕ

pub record ConversationContext : Type 0 where
  pub session_id : ℕ
  pub active_branch : Option Text

pub record UsageAnalytics : Type 0 where
  pub user_id : ℕ
  pub date : ℕ
  pub chat_messages_sent : ℕ
  pub ai_tokens_used : ℕ

pub record ChatStore : Type 0 where
  pub repositories : List Repository
  pub sessions : List ChatSession
  pub messages : List Message
  pub ai_responses : List AiResponse
  pub contexts : List ConversationContext
  pub usage : List UsageAnalytics
  pub next_id : ℕ
