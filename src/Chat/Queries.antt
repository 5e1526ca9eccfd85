-- ===== src/Chat/Queries.antt =====
-- app/repositories/chat.py: queries and writes of the chat. Messages of one time are listed in the
-- order in which they were added.
use repo_info_backend.Chat.Tables.{ChatSession, ChatStore, ConversationContext, Message}
use repo_info_backend.Database.Pages.{limit, offset}
use repo_info_backend.Database.Session.{Action, modify, ok}
use repo_info_backend.Models.Enums.{MessageRole, MessageStatus, message_role_eq}
use repo_info_backend.Prelude.{
  Bool, List, Option, Text, [], count, drop, filter, find?, if◌then◌else◌, is_none, ltb, nat_eq,
  none, some, take, text_eq, update, ℕ, ◌&&◌, ◌++◌, ◌+◌, ◌==◌, ◌∷◌,
}

unfoldable pub get_for_user : ℕ → ℕ → ChatStore → Option ChatSession
get_for_user user_id conv_id s =
    find? (λ x. x.id == conv_id && x.user_id == user_id && is_none x.deleted_at) s.sessions

-- a write to a loaded row, which sets `updated_at` too
unfoldable pub write_session : ℕ → ℕ → (ChatSession → ChatSession) → Action ChatStore (Unit {0})
write_session now id f = modify (λ s. record s {
  sessions = update (λ x. x.id == id) (λ x. record (f x) { updated_at = now }) s.sessions;
})

unfoldable pub touch_preview : ℕ → ℕ → Text → Action ChatStore (Unit {0})
unfolding write_session
touch_preview now id preview = write_session now id (λ x. record x {
  last_message_preview = take 500 preview;
  last_message_at = some now;
  message_count = x.message_count + 1;
})

abbrev pub in_session : ℕ → Message → Bool
in_session session_id m = m.session_id == session_id && is_none m.deleted_at

abbrev insert_by_time : Message → List Message → List Message
insert_by_time m [] = m ∷ []
insert_by_time m (x ∷ xs) =
    let rest = insert_by_time m xs in if ltb x.created_at m.created_at then x ∷ rest else m ∷ x ∷ xs

-- `order_by(Message.created_at.asc())`
abbrev pub by_time : List Message → List Message
by_time [] = []
by_time (m ∷ ms) = insert_by_time m (by_time ms)

unfoldable pub list_for_session : ℕ → ℕ → ℕ → ChatStore → List Message × ℕ
list_for_session session_id offset limit s = (
  take limit (drop offset (by_time (filter (in_session session_id) s.messages))),
  count (in_session session_id) s.messages,
)

unfoldable pub append : ℕ → ℕ → MessageRole → Text → MessageStatus → Action ChatStore Message
append now session_id role content status s =
    let m : Message = record {
      id = s.next_id;
      session_id = session_id;
      role = role;
      content = content;
      status = status;
      tokens_used = none;
      created_at = now;
      deleted_at = none;
    } in
    (ok m, record s { messages = s.messages ++ m ∷ []; next_id = s.next_id + 1 })

unfoldable pub get_message : ℕ → ℕ → ChatStore → Option Message
get_message session_id message_id s =
    find? (λ m. m.id == message_id && in_session session_id m) s.messages

abbrev context_of : ℕ → Option ConversationContext → Action ChatStore ConversationContext
context_of session_id (some c) s = (ok c, s)
context_of session_id none s =
    let c : ConversationContext = record { session_id = session_id; active_branch = none } in
    (ok c, record s { contexts = s.contexts ++ c ∷ [] })

-- `ConversationContextRepository.get_or_create`
unfoldable pub get_or_create : ℕ → Action ChatStore ConversationContext
get_or_create session_id s =
    context_of session_id (find? (λ c. c.session_id == session_id) s.contexts) s
