-- ===== src/Ai/Providers.antt =====
-- app/ai/providers: the streams of the four providers, from the events of their libraries. Each yields its
-- deltas, and a last chunk that is done and carries the usage. The events are given as lists that end
-- where the library's stream does; an exception of the library ends the chunks before the last one.
use repo_info_backend.Chat.Generator.{ChatChunk}
use repo_info_backend.Core.Errors.{Exception}
use repo_info_backend.Models.Enums.{MessageRole, message_role_eq}
use repo_info_backend.Prelude.{
  List, Option, String, Text, [], false, filter, if◌then◌else◌, map, nat_eq, none, not, some,
  string_eq, text_eq, true, ℕ, ◌++◌, ◌==◌, ◌∷◌,
}

abbrev pub delta_chunk : Text → ChatChunk
delta_chunk text = record {
  delta = text;
  done = false;
  finish_reason = none;
  usage = none;
  provider = none;
}

abbrev pub done_chunk : Option Text → ℕ → ℕ → ChatChunk
done_chunk finish_reason prompt completion = record {
  delta = [];
  done = true;
  finish_reason = finish_reason;
  usage = some (prompt, completion);
  provider = none;
}

-- `if delta: yield ChatChunk(delta=delta)`
abbrev pub yield_delta : Text → List ChatChunk
yield_delta [] = []
yield_delta (c ∷ cs) = delta_chunk (c ∷ cs) ∷ []

-- openai_provider.py; OpenRouter is this provider at another address. An event has the usage, or none,
-- and choices with a content and a finish reason.
pub record OpenAiEvent : Type 0 where
  pub usage : Option (ℕ × ℕ)
  pub choices : List (Option Text × Option Text)

abbrev pub or_empty : Option Text → Text
or_empty none = []
or_empty (some t) = t

-- `if choice.finish_reason: …`
abbrev pub later_reason : Option Text → Option Text → Option Text
later_reason none old = old
later_reason (some []) old = old
later_reason (some (c ∷ cs)) old = some (c ∷ cs)

abbrev pub choice_deltas : List (Option Text × Option Text) → List ChatChunk
choice_deltas [] = []
choice_deltas ((text, reason) ∷ choices) = yield_delta (or_empty text) ++ choice_deltas choices

abbrev pub choice_reason : List (Option Text × Option Text) → Option Text → Option Text
choice_reason [] old = old
choice_reason ((text, reason) ∷ choices) old = choice_reason choices (later_reason reason old)

abbrev pub later_usage : Option (ℕ × ℕ) → ℕ × ℕ → ℕ × ℕ
later_usage none old = old
later_usage (some u) old = u

unfoldable pub openai_stream : List OpenAiEvent → Option Text → ℕ × ℕ → List ChatChunk
openai_stream [] reason usage = done_chunk reason usage.0 usage.1 ∷ []
openai_stream (event ∷ events) reason usage =
    choice_deltas event.choices
    ++ openai_stream events (choice_reason event.choices reason) (later_usage event.usage usage)

-- anthropic_provider.py: the texts of the stream, and the final message's usage and stop reason
unfoldable pub anthropic_stream : List Text → Option (ℕ × ℕ) → Option Text → List ChatChunk
anthropic_stream [] usage reason =
    let (prompt, completion) = later_usage usage (0, 0) in done_chunk reason prompt completion ∷ []
anthropic_stream (text ∷ texts) usage reason =
    yield_delta text ++ anthropic_stream texts usage reason

-- gemini_provider.py: each event has the usage so far or none, and a text; `event.text` raises where it has no part
unfoldable pub gemini_stream :
    List (Option Text × Option (ℕ × ℕ)) → ℕ × ℕ → List ChatChunk × Option Exception
gemini_stream [] usage = (done_chunk none usage.0 usage.1 ∷ [], none)
gemini_stream ((none, metadata) ∷ events) usage = ([], some (Exception.other "ValueError"))
gemini_stream ((some text, metadata) ∷ events) usage =
    let (chunks, failure) = gemini_stream events (later_usage metadata usage) in
    (yield_delta text ++ chunks, failure)

-- ollama_provider.py: a line is empty, has a content, or says that it is done, with a content that is not read and the counts
pub data OllamaLine : Type 0 where
  blank : OllamaLine
  finished : Text → ℕ → ℕ → OllamaLine
  content : Text → OllamaLine

unfoldable pub ollama_stream : List OllamaLine → List ChatChunk
ollama_stream [] = done_chunk none 0 0 ∷ []
ollama_stream (OllamaLine.blank ∷ lines) = ollama_stream lines
ollama_stream (OllamaLine.finished text prompt completion ∷ lines) =
    done_chunk none prompt completion ∷ []
ollama_stream (OllamaLine.content text ∷ lines) = yield_delta text ++ ollama_stream lines

-- `_split_system` and `_to_contents`: the system messages joined, and the others
unfoldable pub system_parts : List (MessageRole × Text) → List Text
system_parts [] = []
system_parts ((role, text) ∷ ms) =
    let rest = system_parts ms in if role == MessageRole.system then text ∷ rest else rest

abbrev join_paragraphs : List Text → Text
join_paragraphs [] = []
join_paragraphs (t ∷ []) = t
join_paragraphs (t ∷ u ∷ ts) = t ++ (10 ∷ 10 ∷ join_paragraphs (u ∷ ts))

unfoldable pub split_system : List (MessageRole × Text) → Text × List (MessageRole × Text)
unfolding system_parts
split_system messages = (
  join_paragraphs (system_parts messages),
  filter (λ m. not (m.0 == MessageRole.system)) messages,
)

-- Gemini knows two roles.
unfoldable pub to_contents : List (MessageRole × Text) → Text × List (String × Text)
unfolding split_system
to_contents messages =
    let (system, chat) = split_system messages in
    (system, map (λ m. (if m.0 == MessageRole.user then "user" else "model", m.1)) chat)
