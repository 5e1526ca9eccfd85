-- ===== src/Chat/Privacy.antt =====
-- Who may use a conversation, in app/services/chat_service.py.
use repo_info_backend.Auth.Revocation.{foreign}
use repo_info_backend.Chat.Queries.{get_for_user}
use repo_info_backend.Chat.Service.{
  conversation, delete_conversation, list_messages, rename, toggle_conversation_pin, toggle_save,
}
use repo_info_backend.Chat.Streaming.{SendMessageRequest, regenerate, send_message_and_stream}
use repo_info_backend.Chat.Tables.{ChatSession, ChatStore}
use repo_info_backend.Core.Errors.{AppError, Exception}
use repo_info_backend.Core.Security.{Env}
use repo_info_backend.Database.Session.{Action, continue, err, pure, ◌>>=◌}
use repo_info_backend.Prelude.{
  All, All-map, Bool-cases, Text, ap, beq_false, beq→eq, false, find?-none, inl, inr, is_none,
  nat_eq, string_eq, text_eq, ℕ, ◌&&◌, ◌==◌, ◌≡◌, ◌≢◌,
}

conversation_refused :
    {A : Type 0} (user_id conv_id : ℕ) (s : ChatStore) (k : ChatSession → Action ChatStore A)
    → All (λ (x : ChatSession). x.id ≡ conv_id → x.user_id ≢ user_id) s.sessions
    → (conversation user_id conv_id >>= k) s
      ≡ (err (Exception.app (AppError.not_found "Conversation")), s)
unfolding get_for_user
conversation_refused user_id conv_id s k h =
    rw (find?-none _ s.sessions (All-map other s.sessions h))
  where
    other :
        (x : ChatSession)
        → (x.id ≡ conv_id → x.user_id ≢ user_id)
        → (x.id == conv_id && x.user_id == user_id && is_none x.deleted_at) ≡ false
    other x foreign = elim (Bool-cases (x.id == conv_id)) [
      | inl t ↦ rw (t, beq_false x.user_id user_id (foreign (beq→eq x.id conv_id t)))
      | inr f ↦ rw (f)
    ]

-- The conversation of another user answers like one that does not exist, to every operation, and none
-- of them changes anything.
pub foreign_conversation :
    (env : Env) (user_id conv_id message_id : ℕ) (title : Text) (payload : SendMessageRequest)
    (s : ChatStore)
    → All (λ (x : ChatSession). x.id ≡ conv_id → x.user_id ≢ user_id) s.sessions
    → let missing : Exception = Exception.app (AppError.not_found "Conversation") in
      (rename env.now user_id conv_id title s ≡ (err missing, s))
      × (toggle_conversation_pin env.now user_id conv_id s ≡ (err missing, s))
      × (toggle_save env.now user_id conv_id s ≡ (err missing, s))
      × (delete_conversation env.now user_id conv_id s ≡ (err missing, s))
      × ((start limit : ℕ) → list_messages user_id conv_id start limit s ≡ (err missing, s))
      × (send_message_and_stream env user_id conv_id payload s ≡ (err missing, s))
      × (regenerate env user_id conv_id message_id s ≡ (err missing, s))
unfolding rename toggle_conversation_pin toggle_save delete_conversation list_messages
    send_message_and_stream regenerate
foreign_conversation env user_id conv_id message_id title payload s h = (
  conversation_refused user_id conv_id s _ h,
  conversation_refused user_id conv_id s _ h,
  conversation_refused user_id conv_id s _ h,
  ap (continue (λ _. pure tt)) (conversation_refused user_id conv_id s _ h),
  λ start limit. conversation_refused user_id conv_id s _ h,
  conversation_refused user_id conv_id s _ h,
  conversation_refused user_id conv_id s _ h,
)
