-- ===== src/Ai/Agent.antt =====
-- app/ai/agents/rag_agent.py: the chain of providers, and the answer of the first that can serve. What a
-- provider does with a request is an argument: its chunks, and the exception that ends them.
use mathlib.Core.Option
use repo_info_backend.Ai.Errors.{ProviderError, is_provider_unavailable}
use repo_info_backend.Chat.Generator.{Answer, ChatChunk}
use repo_info_backend.Chat.Streaming.{PendingAnswer}
use repo_info_backend.Core.Config.{Settings}
use repo_info_backend.Core.Security.{Env}
use repo_info_backend.Models.Enums.{
  AiProvider, MessageRole, ai_provider_eq, ai_provider_members, ai_provider_value, message_role_eq,
}
use repo_info_backend.Prelude.{
  Bool, List, Option, Text, [], codes, false, find?, if◌then◌else◌, map, nat_eq, none, not,
  of_value, some, string_eq, strip, text_eq, true, ◌++◌, ◌==◌, ◌||◌, ◌∷◌,
}

-- `AIProviderEnum(text)`, or `none` where Python raises `ValueError`
abbrev pub provider_of : Text → Option AiProvider
unfolding ai_provider_value
provider_of text = find? (λ p. codes (ai_provider_value p) == text) ai_provider_members

abbrev pub provider_in : AiProvider → List AiProvider → Bool
provider_in p [] = false
provider_in p (q ∷ qs) = q == p || provider_in p qs

-- `if kind not in chain: chain.append(kind)`
abbrev pub add_provider : Option AiProvider → List AiProvider → List AiProvider
add_provider none chain = chain
add_provider (some kind) chain = if provider_in kind chain then chain else chain ++ kind ∷ []

abbrev pub add_fallbacks : List Text → List AiProvider → List AiProvider
add_fallbacks [] chain = chain
add_fallbacks (raw ∷ raws) chain = add_fallbacks raws (add_provider (provider_of (strip raw)) chain)

-- `requested or AIProviderEnum(settings.DEFAULT_AI_PROVIDER)`
abbrev primary : Settings → Option AiProvider → Option AiProvider
unfolding ai_provider_value
primary settings (some requested) = some requested
primary settings none = of_value ai_provider_value ai_provider_members settings.default_ai_provider

-- `none` where the label of the default is unknown
unfoldable pub provider_chain : Settings → Option AiProvider → Option (List AiProvider)
unfolding ai_provider_value
provider_chain settings requested =
    Option.map (λ p. add_fallbacks settings.ai_provider_fallback_order (p ∷ []))
      (primary settings requested)

pub record Attempt : Type 0 where
  pub chunks : List ChatChunk
  pub failure : Option ProviderError

-- `if chunk.done: chunk.raw["provider"] = kind.value`
abbrev pub stamp : AiProvider → ChatChunk → ChatChunk
stamp kind c = if c.done then record c { provider = some kind } else c

abbrev pub started : List ChatChunk → Bool
started [] = false
started (c ∷ cs) = true

abbrev pub is_last : List AiProvider → Bool
is_last [] = true
is_last (kind ∷ kinds) = false

-- The loop over the chain; only the first provider is asked for the model of the request.
unfoldable pub stream_chain :
    (Text → Text) → (AiProvider → Option Text → Attempt) → Option Text → List AiProvider → Attempt
stream_chain lower serve model [] = record { chunks = []; failure = none }
stream_chain lower serve model (kind ∷ kinds) =
    let a = serve kind model in
    let later = stream_chain lower serve none kinds in
    let own : Attempt = record { chunks = map (stamp kind) a.chunks; failure = a.failure } in
    elim a.failure [
      | none ↦ own
      | some e ↦
          if started a.chunks || is_last kinds || not (is_provider_unavailable lower e)
          then own
          else later
    ]

-- The messages of a request: the system message, the excerpts if there are any, the history, the question.
unfoldable pub build_messages :
    Text → Option Text → List (MessageRole × Text) → Text → List (MessageRole × Text)
build_messages system excerpts history question =
    (MessageRole.system, system)
      ∷ (elim excerpts [ none ↦ [] | some text ↦ (MessageRole.system, text) ∷ [] ])
    ++ (history ++ (MessageRole.user, strip question) ∷ [])

-- What the search for excerpts comes to: the excerpts rendered, if any are found, or an exception of the
-- provider that embeds the question, or of the search.
pub data Retrieval : Type 0 where
  excerpts : Option Text → Retrieval
  embedding_failed search_failed : ProviderError → Retrieval

abbrev serve_chain :
    (Text → Text)
    → (AiProvider → Option Text → Attempt)
    → Option Text
    → Option (List AiProvider)
    → Attempt
unfolding stream_chain
serve_chain lower serve model none = record { chunks = []; failure = none }
serve_chain lower serve model (some chain) = stream_chain lower serve model chain

-- `RagAgent.stream`: without an embedding the answer goes on without excerpts, where the provider is
-- only unavailable.
unfoldable pub rag_stream :
    Env
    → (List (MessageRole × Text) → AiProvider → Option Text → Attempt)
    → Retrieval
    → Text
    → PendingAnswer
    → Attempt
unfolding stream_chain build_messages provider_chain
rag_stream env serve retrieval system p =
    let ask = λ (found : Option Text).
      serve_chain env.lower (serve (build_messages system found p.rag_ctx.history p.question))
        p.model (provider_chain env.settings (some p.provider)) in
    elim retrieval [
      | excerpts found ↦ ask found
      | search_failed e ↦ record { chunks = []; failure = some e }
      | embedding_failed e ↦
          if is_provider_unavailable env.lower e
          then ask none
          else record { chunks = []; failure = some e }
    ]

-- what the chat is answered with: the text of an exception is all that it shows
unfoldable pub answer_of : Attempt → Answer
answer_of a = record {
  chunks = a.chunks;
  failure = Option.map (λ (e : ProviderError). e.message) a.failure;
}
