-- ===== src/Chat/Tests.antt =====
-- Runs of a conversation: user 7 asks, and user 8 looks on.
use mathlib.Core.Option
use repo_info_backend.Auth.SampleTests.{env}
use repo_info_backend.Chat.Answers.{generator_settles, others, seen, shown}
use repo_info_backend.Chat.Generator.{
  Answer, ChatChunk, SseEvent, count_usage, find_message, generator, store_answer,
}
use repo_info_backend.Chat.Privacy.{foreign_conversation}
use repo_info_backend.Chat.Service.{
  delete_conversation, list_messages, rename, toggle_conversation_pin, toggle_save,
}
use repo_info_backend.Chat.Streaming.{
  PendingAnswer, SendMessageRequest, regenerate, send_message_and_stream,
}
use repo_info_backend.Chat.Tables.{ChatSession, ChatStore, Message}
use repo_info_backend.Core.Errors.{AppError, Exception}
use repo_info_backend.Database.Session.{err}
use repo_info_backend.Models.Enums.{AiProvider, MessageRole, MessageStatus}
use repo_info_backend.Prelude.{
  List, String, [], arith, codes, drop, false, none, refl, some, true, ℕ, ◌∷◌, ◌≡◌,
}

abbrev pub conversation_row : ChatSession
conversation_row = record {
  id = 20;
  user_id = 7;
  repository_id = 1;
  title = codes "New conversation";
  is_pinned = false;
  is_saved = false;
  message_count = 0;
  last_message_preview = [];
  last_message_at = none;
  created_at = 100;
  updated_at = 100;
  deleted_at = none;
}

abbrev pub question_row : Message
question_row = record {
  id = 30;
  session_id = 20;
  role = MessageRole.user;
  content = codes "why?";
  status = MessageStatus.complete;
  tokens_used = none;
  created_at = 100;
  deleted_at = none;
}

abbrev pub placeholder_row : Message
placeholder_row = record question_row {
  id = 31;
  role = MessageRole.assistant;
  content = [];
  status = MessageStatus.streaming;
}

abbrev pub asked : ChatStore
asked = record {
  repositories = [];
  sessions = conversation_row ∷ [];
  messages = question_row ∷ placeholder_row ∷ [];
  ai_responses = [];
  contexts = [];
  usage = [];
  next_id = 32;
}

abbrev pub waiting : PendingAnswer
waiting = record {
  session_id = 20;
  placeholder_id = 31;
  user_id = 7;
  question = codes "why?";
  provider = AiProvider.claude;
  model = none;
  temperature = 30;
  rag_ctx = record {
    repository_id = 1;
    repository_full_name = codes "ada/engine";
    primary_language = none;
    active_branch = codes "main";
    history = [];
  };
}

abbrev says : String → ChatChunk
says text = record {
  delta = codes text;
  done = false;
  finish_reason = none;
  usage = none;
  provider = none;
}

abbrev last_chunk : ChatChunk
last_chunk = record (says "") {
  done = true;
  finish_reason = some (codes "stop");
  usage = some (5, 2);
}

-- An agent that says two words and stops, and one that breaks after the first.
abbrev answers : PendingAnswer → Answer
answers p = record { chunks = says "be" ∷ says "cause" ∷ last_chunk ∷ []; failure = none }

abbrev breaks : PendingAnswer → Answer
breaks p = record { chunks = says "be" ∷ []; failure = some (codes "overloaded") }

abbrev tail_of : List SseEvent → List SseEvent
tail_of events = drop 2 events

answered_events :
    tail_of (generator answers 200 3 waiting asked).0
    ≡ SseEvent.delta (codes "cause")
      ∷ SseEvent.usage 5 2 7 3
      ∷ SseEvent.done 31 (codes "because")
      ∷ []
unfolding generator store_answer count_usage
answered_events = refl

broken_events :
    tail_of (generator breaks 200 3 waiting asked).0 ≡ SseEvent.error (codes "overloaded") ∷ []
unfolding generator store_answer count_usage
broken_events = refl

generator_settles_example :
    (Option.map shown (find_message 31 (generator breaks 200 3 waiting asked).1)
      ≡ some (MessageStatus.error, codes "be"))
    × (others 31 (generator breaks 200 3 waiting asked).1 ≡ question_row ∷ [])
    × (seen (generator breaks 200 3 waiting asked).0 ≡ codes "be")
generator_settles_example = generator_settles breaks 200 3 waiting asked placeholder_row refl refl

abbrev reply : SendMessageRequest
reply = record { content = codes "me too"; provider = none; model = none; temperature = none }

foreign_conversation_example :
    let missing : Exception = Exception.app (AppError.not_found "Conversation") in
    (rename env.now 8 20 (codes "mine") asked ≡ (err missing, asked))
    × (toggle_conversation_pin env.now 8 20 asked ≡ (err missing, asked))
    × (toggle_save env.now 8 20 asked ≡ (err missing, asked))
    × (delete_conversation env.now 8 20 asked ≡ (err missing, asked))
    × ((start limit : ℕ) → list_messages 8 20 start limit asked ≡ (err missing, asked))
    × (send_message_and_stream env 8 20 reply asked ≡ (err missing, asked))
    × (regenerate env 8 20 31 asked ≡ (err missing, asked))
foreign_conversation_example =
    foreign_conversation env 8 20 31 (codes "mine") reply asked
      ((λ e other. omega (arith, other)), tt)
