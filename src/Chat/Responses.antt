-- ===== src/Chat/Responses.antt =====
-- The row of `ai_responses` that a generator of app/services/chat_service.py stores.
use mathlib.Core.Option
use repo_info_backend.Auth.Repositories.{ended}
use repo_info_backend.Chat.Answers.{failed-read_chunks, is_ended}
use repo_info_backend.Chat.Generator.{
  Answer, Reading, count_usage, end_stream, find_message, generator, read_chunks, store_answer,
  unread,
}
use repo_info_backend.Chat.Streaming.{PendingAnswer}
use repo_info_backend.Chat.Tables.{AiResponse, ChatStore, Message}
use repo_info_backend.Models.Enums.{AiProvider, ai_provider_eq}
use repo_info_backend.Prelude.{
  Bool, find?, find?-append_none, nat_beq_refl, nat_eq, none, some, text_eq, true, ℕ, ◌==◌, ◌∙◌,
  ◌≡◌,
}

abbrev pub responds : ℕ → AiResponse → Bool
responds id y = y.message_id == id

abbrev pub responder : AiResponse → AiProvider
responder y = y.provider

module _ (now latency : ℕ) (p : PendingAnswer) (s : ChatStore) (row : Message)
    (found : find_message p.placeholder_id s ≡ some row)
    (fresh : find? (responds p.placeholder_id) s.ai_responses ≡ none) where
  end_stream_response :
      (r : Reading)
      → r.failed ≡ none
      → Option.map responder
          (find? (responds p.placeholder_id) (end_stream now p latency r s).1.ai_responses)
        ≡ some r.responding_provider
  unfolding store_answer count_usage
  end_stream_response r e =
      rw (e, found, fresh, find?-append_none (responds p.placeholder_id) s.ai_responses _ fresh)
        (rw (nat_beq_refl p.placeholder_id))

  -- what a generator stores when the agent's stream is read to a chunk that is done
  pub generator_response :
      (agent : PendingAnswer → Answer)
      → is_ended (agent p).chunks ≡ true
      → Option.map responder
          (find? (responds p.placeholder_id) (generator agent now latency p s).1.ai_responses)
        ≡ some (read_chunks (agent p).failure (agent p).chunks (unread p)).1.responding_provider
  unfolding generator
  generator_response agent ended =
      end_stream_response (read_chunks (agent p).failure (agent p).chunks (unread p)).1
        (failed-read_chunks (agent p).failure (agent p).chunks (unread p) ∙ rw ended)
