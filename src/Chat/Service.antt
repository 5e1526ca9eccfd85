-- ===== src/Chat/Service.antt =====
-- app/services/chat_service.py: conversations.
use repo_info_backend.Catalog.Service.{owned}
use repo_info_backend.Catalog.Tables.{Repository}
use repo_info_backend.Chat.Queries.{get_for_user, get_or_create, list_for_session, write_session}
use repo_info_backend.Chat.Tables.{ChatSession, ChatStore, Message}
use repo_info_backend.Core.Errors.{AppError}
use repo_info_backend.Database.Pages.{limit, offset}
use repo_info_backend.Database.Session.{Action, gets, modify, or_raise, pure, ◌>>=◌, ◌>>◌}
use repo_info_backend.Prelude.{
  List, Option, Text, [], false, find?, nat_eq, none, not, some, string_eq, text_eq, ℕ, ◌++◌, ◌+◌,
  ◌==◌, ◌∷◌,
}

-- `session = await self.sessions.get_for_user(user.id, conv_id)`, or 404
abbrev pub conversation : ℕ → ℕ → Action ChatStore ChatSession
unfolding get_for_user
conversation user_id conv_id s =
    or_raise (get_for_user user_id conv_id s) (AppError.not_found "Conversation") s

-- `db.get(Repository, id)`, which sees deleted rows
abbrev pub chat_repository : ℕ → ChatStore → Option Repository
chat_repository id s = find? (λ r. r.id == id) s.repositories

abbrev add_session : ChatSession → Action ChatStore (Unit {0})
add_session x = modify (λ s. record s { sessions = s.sessions ++ x ∷ []; next_id = s.next_id + 1 })

abbrev new_session : ℕ → ℕ → ℕ → Text → ℕ → ChatSession
new_session now user_id repository_id title id = record {
  id = id;
  user_id = user_id;
  repository_id = repository_id;
  title = title;
  is_pinned = false;
  is_saved = false;
  message_count = 0;
  last_message_preview = [];
  last_message_at = none;
  created_at = now;
  updated_at = now;
  deleted_at = none;
}

unfoldable pub create_conversation : ℕ → ℕ → ℕ → Text → Action ChatStore ChatSession
unfolding get_or_create
create_conversation now user_id repository_id title = do
  found ← gets (chat_repository repository_id)
  or_raise (owned user_id found) (AppError.not_found "Repository")
  id ← gets (λ s. s.next_id)
  add_session (new_session now user_id repository_id title id)
  get_or_create id
  pure (new_session now user_id repository_id title id)

-- The methods that write to one conversation, and return its row.
abbrev pub change : ℕ → ℕ → ℕ → (ChatSession → ChatSession) → Action ChatStore ChatSession
unfolding write_session
change now user_id conv_id f = do
  session ← conversation user_id conv_id
  write_session now session.id f
  pure (record (f session) { updated_at = now })

unfoldable pub rename : ℕ → ℕ → ℕ → Text → Action ChatStore ChatSession
rename now user_id conv_id title = change now user_id conv_id (λ x. record x { title = title })

unfoldable pub toggle_conversation_pin : ℕ → ℕ → ℕ → Action ChatStore ChatSession
toggle_conversation_pin now user_id conv_id =
    change now user_id conv_id (λ x. record x { is_pinned = not x.is_pinned })

unfoldable pub toggle_save : ℕ → ℕ → ℕ → Action ChatStore ChatSession
toggle_save now user_id conv_id =
    change now user_id conv_id (λ x. record x { is_saved = not x.is_saved })

unfoldable pub delete_conversation : ℕ → ℕ → ℕ → Action ChatStore (Unit {0})
delete_conversation now user_id conv_id = do
  change now user_id conv_id (λ x. record x { deleted_at = some now })
  pure tt

unfoldable pub list_messages : ℕ → ℕ → ℕ → ℕ → Action ChatStore (List Message × ℕ)
unfolding list_for_session
list_messages user_id conv_id offset limit = do
  session ← conversation user_id conv_id
  gets (list_for_session conv_id offset limit)
