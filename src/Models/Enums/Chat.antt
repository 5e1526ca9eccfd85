-- ===== src/Models/Enums/Chat.antt =====
-- app/models/enums.py, the enumerations of chat messages and AI providers.
use repo_info_backend.Prelude.{
  ℕ, zero, suc, String, ◌≡◌, refl, some, List, [], ◌∷◌, Eq, enum_eq, of_value,
}

pub data MessageRole : Type 0 where
  user assistant system : MessageRole

unfoldable pub message_role_value : MessageRole → String
message_role_value MessageRole.user = "user"
message_role_value MessageRole.assistant = "assistant"
message_role_value MessageRole.system = "system"

abbrev message_role_index : MessageRole → ℕ
message_role_index MessageRole.user = 0
message_role_index MessageRole.assistant = 1
message_role_index MessageRole.system = 2

abbrev message_role_at : ℕ → MessageRole
message_role_at zero = MessageRole.user
message_role_at (suc zero) = MessageRole.assistant
message_role_at _ = MessageRole.system

pub message_role_at-index : (m : MessageRole) → message_role_at (message_role_index m) ≡ m
message_role_at-index MessageRole.user = refl
message_role_at-index MessageRole.assistant = refl
message_role_at-index MessageRole.system = refl

instance abbrev pub message_role_eq : Eq MessageRole
message_role_eq = enum_eq message_role_index message_role_at message_role_at-index

pub data MessageStatus : Type 0 where
  pending streaming complete error stopped : MessageStatus

unfoldable pub message_status_value : MessageStatus → String
message_status_value MessageStatus.pending = "pending"
message_status_value MessageStatus.streaming = "streaming"
message_status_value MessageStatus.complete = "complete"
message_status_value MessageStatus.error = "error"
message_status_value MessageStatus.stopped = "stopped"

pub data AiProvider : Type 0 where
  gemini openai claude openrouter ollama : AiProvider

unfoldable pub ai_provider_value : AiProvider → String
ai_provider_value AiProvider.gemini = "gemini"
ai_provider_value AiProvider.openai = "openai"
ai_provider_value AiProvider.claude = "claude"
ai_provider_value AiProvider.openrouter = "openrouter"
ai_provider_value AiProvider.ollama = "ollama"

abbrev pub ai_provider_members : List AiProvider
ai_provider_members =
    AiProvider.gemini ∷ AiProvider.openai ∷ AiProvider.claude ∷ AiProvider.openrouter
    ∷ AiProvider.ollama ∷ []

pub ai_provider-of_value :
    (m : AiProvider) → of_value ai_provider_value ai_provider_members (ai_provider_value m) ≡ some m
unfolding ai_provider_value
ai_provider-of_value AiProvider.gemini = refl
ai_provider-of_value AiProvider.openai = refl
ai_provider-of_value AiProvider.claude = refl
ai_provider-of_value AiProvider.openrouter = refl
ai_provider-of_value AiProvider.ollama = refl

abbrev ai_provider_index : AiProvider → ℕ
ai_provider_index AiProvider.gemini = 0
ai_provider_index AiProvider.openai = 1
ai_provider_index AiProvider.claude = 2
ai_provider_index AiProvider.openrouter = 3
ai_provider_index AiProvider.ollama = 4

abbrev ai_provider_at : ℕ → AiProvider
ai_provider_at zero = AiProvider.gemini
ai_provider_at (suc zero) = AiProvider.openai
ai_provider_at (suc (suc zero)) = AiProvider.claude
ai_provider_at (suc (suc (suc zero))) = AiProvider.openrouter
ai_provider_at _ = AiProvider.ollama

pub ai_provider_at-index : (m : AiProvider) → ai_provider_at (ai_provider_index m) ≡ m
ai_provider_at-index AiProvider.gemini = refl
ai_provider_at-index AiProvider.openai = refl
ai_provider_at-index AiProvider.claude = refl
ai_provider_at-index AiProvider.openrouter = refl
ai_provider_at-index AiProvider.ollama = refl

instance abbrev pub ai_provider_eq : Eq AiProvider
ai_provider_eq = enum_eq ai_provider_index ai_provider_at ai_provider_at-index
