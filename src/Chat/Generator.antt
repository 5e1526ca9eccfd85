-- ===== src/Chat/Generator.antt =====
-- app/services/chat_service.py: the generator of `send_message_and_stream`, which runs while the client
-- reads, here to its end. The agent of app/ai/agents/rag_agent.py is an argument: it answers with chunks,
-- and may raise after the last of them.
use repo_info_backend.Auth.Issue.{text_or}
use repo_info_backend.Chat.Streaming.{PendingAnswer, value_or}
use repo_info_backend.Chat.Tables.{AiResponse, ChatStore, Message, UsageAnalytics}
use repo_info_backend.Core.Errors.{Exception}
use repo_info_backend.Database.Session.{Action, Result, err, gets, modify, ok, ◌>>=◌, ◌>>◌}
use repo_info_backend.Models.Enums.{AiProvider, MessageStatus, ai_provider_eq}
use repo_info_backend.Prelude.{
  Bool, List, Option, Text, [], codes, find?, if◌then◌else◌, is_some, nat_eq, none, some, string_eq,
  text_eq, update, ℕ, ◌&&◌, ◌++◌, ◌+◌, ◌/◌, ◌==◌, ◌∷◌,
}

pub record ChatChunk : Type 0 where
  pub delta : Text
  pub done : Bool
  pub finish_reason : Option Text
  -- (prompt tokens, completion tokens)
  pub usage : Option (ℕ × ℕ)
  -- `raw["provider"]`, the label of a member
  pub provider : Option AiProvider

-- What the agent streams; `failure` is the text of the exception that ends the stream.
pub record Answer : Type 0 where
  pub chunks : List ChatChunk
  pub failure : Option Text

pub data SseEvent : Type 0 where
  start : ℕ → ℕ → Text → SseEvent
  delta error : Text → SseEvent
  -- prompt, completion and total tokens, and the latency
  usage : ℕ → ℕ → ℕ → ℕ → SseEvent
  done : ℕ → Text → SseEvent

-- The variables of the generator's loop.
pub record Reading : Type 0 where
  pub content : Text
  pub usage_prompt : ℕ
  pub usage_completion : ℕ
  pub finish_reason : Option Text
  pub responding_provider : AiProvider
  pub failed : Option Text

-- `if chunk.done`
abbrev pub end_reading : ChatChunk → Reading → Reading
end_reading c r = record r {
  finish_reason = c.finish_reason;
  usage_prompt = elim c.usage [ none ↦ r.usage_prompt | some (p, q) ↦ p ];
  usage_completion = elim c.usage [ none ↦ r.usage_completion | some (p, q) ↦ q ];
  responding_provider = value_or c.provider r.responding_provider;
}

-- `if chunk.delta: yield …`
abbrev pub delta_event : Text → List SseEvent
delta_event [] = []
delta_event (c ∷ cs) = SseEvent.delta (c ∷ cs) ∷ []

-- `async for chunk in …`, up to the first chunk that is done
unfoldable pub read_chunks : Option Text → List ChatChunk → Reading → List SseEvent × Reading
read_chunks failure [] r = ([], record r { failed = failure })
read_chunks failure (c ∷ cs) r =
    let heard : Reading = record r { content = r.content ++ c.delta } in
    let rest = read_chunks failure cs heard in
    if c.done
    then (delta_event c.delta, end_reading c heard)
    else (delta_event c.delta ++ rest.0, rest.1)

abbrev pub add_response : AiResponse → Action ChatStore (Unit {0})
add_response x s =
    if is_some (find? (λ (y : AiResponse). y.message_id == x.message_id) s.ai_responses)
    then (err Exception.integrity, s)
    else (ok tt, record s { ai_responses = s.ai_responses ++ x ∷ [] })

abbrev pub is_today : ℕ → ℕ → UsageAnalytics → Bool
is_today user_id date u = u.user_id == user_id && u.date == date

-- `UsageAnalyticsRepository.get_or_create_today`, and the two counters
unfoldable pub count_usage : ℕ → ℕ → ℕ → ChatStore → ChatStore
count_usage user_id date tokens s = record s {
  usage =
      update (is_today user_id date)
        (λ u. record u {
          chat_messages_sent = u.chat_messages_sent + 1;
          ai_tokens_used = u.ai_tokens_used + tokens;
        })
        (if is_some (find? (is_today user_id date) s.usage)
          then s.usage
          else s.usage
            ++ record { user_id = user_id; date = date; chat_messages_sent = 0; ai_tokens_used = 0 }
              ∷ []);
}

abbrev pub write_message : ℕ → (Message → Message) → ChatStore → ChatStore
write_message id f s = record s { messages = update (λ m. m.id == id) f s.messages }

abbrev pub errored : Reading → Message → Message
errored r m = record m { status = MessageStatus.error; content = r.content }

abbrev pub completed : Reading → Message → Message
completed r m = record m {
  content = r.content;
  status = MessageStatus.complete;
  tokens_used = some (r.usage_prompt + r.usage_completion);
}

abbrev pub response_of : PendingAnswer → ℕ → Reading → AiResponse
response_of p latency r = record {
  message_id = p.placeholder_id;
  provider = r.responding_provider;
  model = text_or p.model (codes "auto");
  prompt_tokens = r.usage_prompt;
  completion_tokens = r.usage_completion;
  total_tokens = r.usage_prompt + r.usage_completion;
  latency_ms = latency;
  finish_reason = r.finish_reason;
  temperature = p.temperature;
}

-- The last transaction of a generator that was answered, where the placeholder may be gone.
abbrev pub complete_message :
    PendingAnswer → ℕ → Reading → Option Message → Action ChatStore (Unit {0})
complete_message p latency r none s = (ok tt, s)
complete_message p latency r (some row) s =
    add_response (response_of p latency r) (write_message row.id (completed r) s)

abbrev pub find_message : ℕ → ChatStore → Option Message
find_message id s = find? (λ m. m.id == id) s.messages

unfoldable pub store_answer : ℕ → PendingAnswer → ℕ → Reading → Action ChatStore (Unit {0})
unfolding count_usage
store_answer now p latency r = do
  found ← gets (find_message p.placeholder_id)
  complete_message p latency r found
  modify (count_usage p.user_id (now / 86400) (r.usage_prompt + r.usage_completion))

abbrev pub after_answer :
    PendingAnswer → Reading → ChatStore → Result (Unit {0}) × ChatStore → List SseEvent × ChatStore
after_answer p r old (ok _, new) = (SseEvent.done p.placeholder_id r.content ∷ [], new)
after_answer p r old (err _, new) = ([], old)

abbrev pub end_stream : ℕ → PendingAnswer → ℕ → Reading → ChatStore → List SseEvent × ChatStore
unfolding store_answer
end_stream now p latency r s = elim r.failed [
  | some message ↦ (SseEvent.error message ∷ [], write_message p.placeholder_id (errored r) s)
  | none ↦
      let (events, new) = after_answer p r s (store_answer now p latency r s) in
      (
        SseEvent.usage r.usage_prompt r.usage_completion (r.usage_prompt + r.usage_completion)
              latency
            ∷ events,
        new,
      )
]

abbrev pub unread : PendingAnswer → Reading
unread p = record {
  content = [];
  usage_prompt = 0;
  usage_completion = 0;
  finish_reason = none;
  responding_provider = p.provider;
  failed = none;
}

-- The generator, read to its end: the events, and the store after it.
unfoldable pub generator :
    (PendingAnswer → Answer) → ℕ → ℕ → PendingAnswer → ChatStore → List SseEvent × ChatStore
unfolding read_chunks
generator agent now latency p s =
    let answer = agent p in
    let (deltas, r) = read_chunks answer.failure answer.chunks (unread p) in
    let (events, new) = end_stream now p latency r s in
    (
      SseEvent.start p.session_id p.placeholder_id p.rag_ctx.repository_full_name ∷ deltas
          ++ events,
      new,
    )
