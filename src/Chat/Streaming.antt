-- ===== src/Chat/Streaming.antt =====
-- app/services/chat_service.py: `send_message_and_stream` and `regenerate`. The method itself stores the
-- question and an empty answer, commits, and returns a generator.
use repo_info_backend.Chat.Queries.{
  append, get_message, get_or_create, list_for_session, touch_preview,
}
use repo_info_backend.Chat.Service.{chat_repository, conversation}
use repo_info_backend.Chat.Tables.{ChatStore, Message}
use repo_info_backend.Core.Errors.{AppError, Exception}
use repo_info_backend.Core.Security.{Env}
use repo_info_backend.Database.Session.{Action, err, gets, ok, or_raise, pure, ◌>>=◌, ◌>>◌}
use repo_info_backend.Models.Enums.{
  AiProvider, MessageRole, MessageStatus, ai_provider_eq, ai_provider_members, ai_provider_value,
  message_role_eq,
}
use repo_info_backend.Prelude.{
  List, Option, Text, [], if◌then◌else◌, length, ltb, nat_eq, none, of_value, some, string_eq,
  text_eq, ℕ, ◌==◌, ◌||◌, ◌∷◌,
}

pub record SendMessageRequest : Type 0 where
  pub content : Text
  pub provider : Option AiProvider
  pub model : Option Text
  pub temperature : Option ℕ

pub record RagContext : Type 0 where
  pub repository_id : ℕ
  pub repository_full_name : Text
  pub primary_language : Option Text
  pub active_branch : Text
  pub history : List (MessageRole × Text)

-- What the generator keeps of the method that made it.
pub record PendingAnswer : Type 0 where
  pub session_id : ℕ
  pub placeholder_id : ℕ
  pub user_id : ℕ
  pub question : Text
  pub provider : AiProvider
  pub model : Option Text
  pub temperature : ℕ
  pub rag_ctx : RagContext

-- `x or default`, where the empty text is false
abbrev pub text_or : Option Text → Text → Text
text_or none default = default
text_or (some []) default = default
text_or (some (c ∷ cs)) default = c ∷ cs

abbrev pub value_or {ℓ} : {A : Type ℓ} → Option A → A → A
value_or none default = default
value_or (some a) default = a

-- `AIProviderEnum(settings.DEFAULT_AI_PROVIDER)` raises `ValueError` on another label.
abbrev chosen_provider : Env → Option AiProvider → Action ChatStore AiProvider
chosen_provider env (some p) s = (ok p, s)
chosen_provider env none s =
    elim (of_value ai_provider_value ai_provider_members env.settings.default_ai_provider) [
      | some p ↦ (ok p, s)
      | none ↦ (err (Exception.other "ValueError"), s)
    ]

abbrev history_of : ℕ → ℕ → List Message → List (MessageRole × Text)
history_of asked placeholder [] = []
history_of asked placeholder (m ∷ ms) =
    let rest = history_of asked placeholder ms in
    if m.id == asked || m.id == placeholder || m.content == []
    then rest
    else (m.role, m.content) ∷ rest

unfoldable pub send_message_and_stream :
    Env → ℕ → ℕ → SendMessageRequest → Action ChatStore PendingAnswer
unfolding append touch_preview get_or_create list_for_session
send_message_and_stream env user_id conv_id payload = do
  session ← conversation user_id conv_id
  found ← gets (chat_repository session.repository_id)
  repo ← or_raise found (AppError.not_found "Repository")
  user_msg ← append env.now session.id MessageRole.user payload.content MessageStatus.complete
  placeholder ← append env.now session.id MessageRole.assistant [] MessageStatus.streaming
  touch_preview env.now session.id payload.content
  provider ← chosen_provider env payload.provider
  ctx ← get_or_create session.id
  listed ← gets (list_for_session session.id 0 20)
  pure (record {
    session_id = session.id;
    placeholder_id = placeholder.id;
    user_id = user_id;
    question = payload.content;
    provider = provider;
    model = payload.model;
    temperature = value_or payload.temperature 30;
    rag_ctx = record {
      repository_id = session.repository_id;
      repository_full_name = repo.full_name;
      primary_language = repo.primary_language;
      active_branch = text_or ctx.active_branch repo.default_branch;
      history = history_of user_msg.id placeholder.id listed.0;
    };
  })

-- The content of the row before `message_id`, where that row is of the user; else the target's own.
abbrev prior_content : ℕ → Text → List Message → Text
prior_content message_id default [] = default
prior_content message_id default (x ∷ []) = default
prior_content message_id default (x ∷ y ∷ ms) =
    let rest = prior_content message_id default (y ∷ ms) in
    if y.id == message_id then (if x.role == MessageRole.user then x.content else default) else rest

-- `Field(min_length=1, max_length=32_000)`, checked when the method builds the request itself
abbrev check_content : Text → Action ChatStore (Unit {0})
check_content content s =
    if content == [] || ltb 32000 (length content)
    then (err (Exception.other "ValidationError"), s)
    else (ok tt, s)

unfoldable pub regenerate : Env → ℕ → ℕ → ℕ → Action ChatStore PendingAnswer
unfolding get_message list_for_session send_message_and_stream
regenerate env user_id conv_id message_id = do
  session ← conversation user_id conv_id
  found ← gets (get_message conv_id message_id)
  target ← or_raise found (AppError.not_found "Message")
  listed ← gets (list_for_session conv_id 0 200)
  check_content (prior_content message_id target.content listed.0)
  send_message_and_stream env user_id conv_id (record {
    content = prior_content message_id target.content listed.0;
    provider = none;
    model = none;
    temperature = none;
  })
