-- ===== src/Ai/Tests.antt =====
-- Runs of the chunker, of the providers' streams and of the agent, on the conversation of user 7.
use mathlib.Core.Option
use repo_info_backend.Ai.Agent.{
  Attempt, Retrieval, answer_of, build_messages, provider_chain, provider_in, rag_stream, stamp,
  stream_chain,
}
use repo_info_backend.Ai.Chunking.{token_windows}
use repo_info_backend.Ai.Coverage.{glue, token_windows_cover}
use repo_info_backend.Ai.Errors.{Attribute, ProviderError, is_provider_unavailable}
use repo_info_backend.Ai.Fallback.{bit, occurrences, provider_chain-occurrences}
use repo_info_backend.Ai.Provenance.{answer_provider}
use repo_info_backend.Ai.Providers.{
  OllamaLine, done_chunk, gemini_stream, ollama_stream, yield_delta,
}
use repo_info_backend.Ai.Serving.{Served, stream_chain-Served}
use repo_info_backend.Auth.SampleTests.{env}
use repo_info_backend.Chat.Generator.{count_usage, generator, store_answer}
use repo_info_backend.Chat.Responses.{responder, responds}
use repo_info_backend.Chat.Streaming.{PendingAnswer}
use repo_info_backend.Chat.Tests.{asked, placeholder_row, waiting}
use repo_info_backend.Core.Config.{default_settings}
use repo_info_backend.Core.Errors.{Exception}
use repo_info_backend.Database.Session.{ok}
use repo_info_backend.Models.Enums.{AiProvider, MessageRole, ai_provider_value}
use repo_info_backend.Prelude.{
  All, List, Option, Text, [], arith, codes, find?, length, map, none, refl, some, text_beq, true,
  ℕ, ◌++◌, ◌∷◌, ◌≡◌, ◌≤◌,
}

test_windows :
    token_windows 4 1 (1 ∷ 2 ∷ 3 ∷ 4 ∷ 5 ∷ 6 ∷ [])
    ≡ ok ((1 ∷ 2 ∷ 3 ∷ 4 ∷ []) ∷ (4 ∷ 5 ∷ 6 ∷ []) ∷ [])
unfolding token_windows
test_windows = refl

token_windows_cover_example :
    (ws : List (List ℕ)) × (token_windows 4 1 (1 ∷ 2 ∷ 3 ∷ 4 ∷ 5 ∷ 6 ∷ []) ≡ ok ws)
    × All (λ (w : List ℕ). length w ≤ 4) ws
    × (glue 1 ws ≡ 1 ∷ 2 ∷ 3 ∷ 4 ∷ 5 ∷ 6 ∷ [])
token_windows_cover_example = token_windows_cover 4 1 (1 ∷ 2 ∷ 3 ∷ 4 ∷ 5 ∷ 6 ∷ []) (omega arith)

provider_chain-occurrences_example :
    Option.map
      (occurrences AiProvider.openai)
      (provider_chain default_settings (some AiProvider.claude))
    ≡ some (bit true)
unfolding ai_provider_value text_beq
provider_chain-occurrences_example =
    provider_chain-occurrences default_settings AiProvider.claude AiProvider.openai

-- a key is missing at the first provider, and the second has the answer
abbrev no_key : ProviderError
no_key = record {
  status_code = Attribute.int 401;
  code = Attribute.missing;
  class_name = codes "AuthenticationError";
  message = codes "invalid key";
}

abbrev serves : List (MessageRole × Text) → AiProvider → Option Text → Attempt
serves messages AiProvider.openai model = record {
  chunks = yield_delta (codes "because") ++ done_chunk none 5 2 ∷ [];
  failure = none;
}
serves messages _ model = record { chunks = []; failure = some no_key }

abbrev rag : PendingAnswer → Attempt
rag p = rag_stream env serves (Retrieval.excerpts none) (codes "You are RepoInfo") p

test_unavailable : is_provider_unavailable (λ t. t) no_key ≡ true
unfolding is_provider_unavailable
test_unavailable = refl

stream_chain-Served_example :
    Served
      (λ t. t)
      (serves [])
      none
      (AiProvider.claude ∷ AiProvider.openai ∷ [])
      (stream_chain (λ t. t) (serves []) none (AiProvider.claude ∷ AiProvider.openai ∷ []))
stream_chain-Served_example =
    stream_chain-Served (λ t. t) (serves []) none AiProvider.claude (AiProvider.openai ∷ [])

answer_provider_example :
    (kind : AiProvider) × (model : Option Text) × (Option.map
        (provider_in kind)
        (provider_chain default_settings (some waiting.provider))
      ≡ some true)
    × ((answer_of (rag waiting)).chunks
        ≡ map
            (stamp kind)
            (serves
              (build_messages (codes "You are RepoInfo") none [] (codes "why?"))
              kind
              model).chunks)
    × (Option.map responder (
          find?
            (responds 31)
            (generator (λ p. answer_of (rag p)) 200 3 waiting asked).1.ai_responses)
        ≡ some kind)
unfolding answer_of rag_stream is_provider_unavailable ai_provider_value text_beq
answer_provider_example =
    answer_provider env serves none (codes "You are RepoInfo") 200 3 waiting asked placeholder_row
      refl refl refl

test_provider :
    Option.map responder
      (find? (responds 31) (generator (λ p. answer_of (rag p)) 200 3 waiting asked).1.ai_responses)
    ≡ some AiProvider.openai
unfolding answer_of rag_stream is_provider_unavailable ai_provider_value text_beq generator
    store_answer count_usage
test_provider = refl

-- a text on the line that is done is dropped, as are the lines behind it
test_ollama :
    ollama_stream (
      OllamaLine.content (codes "be") ∷ OllamaLine.finished (codes "!") 5 2 ∷ OllamaLine.blank ∷ [])
    ≡ yield_delta (codes "be") ++ done_chunk none 5 2 ∷ []
unfolding ollama_stream
test_ollama = refl

-- an event without a part ends the stream
test_gemini :
    gemini_stream ((some (codes "be"), none) ∷ (none, none) ∷ []) (0, 0)
    ≡ (yield_delta (codes "be"), some (Exception.other "ValueError"))
unfolding gemini_stream
test_gemini = refl
