-- ===== src/Ai/Provenance.antt =====
-- From app/ai/agents/rag_agent.py to app/services/chat_service.py: the provider that the stored answer names.
use mathlib.Core.Option
use repo_info_backend.Ai.Agent.{
  Attempt, Retrieval, add_fallbacks, add_provider, answer_of, build_messages, provider_chain,
  provider_in, provider_of, rag_stream, stamp, stream_chain,
}
use repo_info_backend.Ai.Serving.{model_after, stream_chain-Served}
use repo_info_backend.Auth.Repositories.{ended}
use repo_info_backend.Catalog.GitUrl.{after, before}
use repo_info_backend.Chat.Answers.{is_ended}
use repo_info_backend.Chat.Generator.{
  Answer, ChatChunk, Reading, find_message, generator, read_chunks, unread,
}
use repo_info_backend.Chat.Responses.{generator_response, responder, responds}
use repo_info_backend.Chat.Streaming.{PendingAnswer}
use repo_info_backend.Chat.Tables.{ChatStore, Message}
use repo_info_backend.Core.Security.{Env}
use repo_info_backend.Models.Enums.{AiProvider, MessageRole}
use repo_info_backend.Prelude.{
  Bool-cases, List, Option, Text, [], ap, arith, beq_refl, find?, inl, inr, map, none, refl, some,
  strip, sym, true, ℕ, ◌++◌, ◌∙◌, ◌∷◌, ◌≡◌,
}

is_ended-stamp :
    (kind : AiProvider) (cs : List ChatChunk) → is_ended (map (stamp kind) cs) ≡ is_ended cs
is_ended-stamp kind [] = refl
is_ended-stamp kind (c ∷ cs) = elim (Bool-cases c.done) [
  | inl t ↦ rw (t)
  | inr f ↦ rw (f) (is_ended-stamp kind cs)
]

responder-stamp :
    (failure : Option Text) (kind : AiProvider) (cs : List ChatChunk) (r : Reading)
    → is_ended cs ≡ true
    → (read_chunks failure (map (stamp kind) cs) r).1.responding_provider ≡ kind
unfolding read_chunks
responder-stamp failure kind [] r ended = cc
responder-stamp failure kind (c ∷ cs) r ended = elim (Bool-cases c.done) [
  | inl t ↦ rw (t)
  | inr f ↦ rw (f) (
      responder-stamp failure kind cs (record r { content = r.content ++ c.delta }) (rw f at ended))
]

add_provider_head :
    (o : Option AiProvider) (kind : AiProvider) (kinds : List AiProvider)
    → (rest : List AiProvider) × (add_provider o (kind ∷ kinds) ≡ kind ∷ rest)
add_provider_head none kind kinds = (kinds, refl)
add_provider_head (some k) kind kinds = elim (Bool-cases (provider_in k (kind ∷ kinds))) [
  | inl t ↦ (kinds, rw t)
  | inr f ↦ (kinds ++ k ∷ [], rw f)
]

chain_head :
    (raws : List Text) (kind : AiProvider) (kinds : List AiProvider)
    → (rest : List AiProvider) × (add_fallbacks raws (kind ∷ kinds) ≡ kind ∷ rest)
chain_head [] kind kinds = (kinds, refl)
chain_head (raw ∷ raws) kind kinds =
    let (rest, e) = add_provider_head (provider_of (strip raw)) kind kinds in
    let (tail, e') = chain_head raws kind rest in (tail, ap (add_fallbacks raws) e ∙ e')

provider_in-append :
    (kind : AiProvider) (before after : List AiProvider)
    → provider_in kind (before ++ kind ∷ after) ≡ true
provider_in-append kind [] after = rw (beq_refl kind) refl
provider_in-append kind (k ∷ before) after = ground (arith, provider_in-append kind before after)

-- The stored answer names the provider that gave it: where the agent streams an answer to its end, the
-- chunks are those of one provider of the chain, with the messages of the request, and the row of the
-- placeholder's response has that provider. The placeholder is in the store, without a response.
pub answer_provider :
    (env : Env) (serve : List (MessageRole × Text) → AiProvider → Option Text → Attempt)
    (found_excerpts : Option Text) (system : Text) (now latency : ℕ) (p : PendingAnswer)
    (s : ChatStore) (row : Message)
    → find_message p.placeholder_id s ≡ some row
    → find? (responds p.placeholder_id) s.ai_responses ≡ none
    → let agent = λ (p : PendingAnswer).
      answer_of (rag_stream env serve (Retrieval.excerpts found_excerpts) system p) in
      let messages = build_messages system found_excerpts p.rag_ctx.history p.question in
      is_ended (agent p).chunks ≡ true
      → (kind : AiProvider) × (model : Option Text) × (Option.map
            (provider_in kind)
            (provider_chain env.settings (some p.provider))
          ≡ some true)
        × ((agent p).chunks ≡ map (stamp kind) (serve messages kind model).chunks)
        × (Option.map responder
              (find? (responds p.placeholder_id) (generator agent now latency p s).1.ai_responses)
            ≡ some kind)
unfolding answer_of rag_stream provider_chain
answer_provider env serve found_excerpts system now latency p s row found fresh ended =
    let ask : AiProvider → Option Text → Attempt =
      serve (build_messages system found_excerpts p.rag_ctx.history p.question) in
    let (rest, head) = chain_head env.settings.ai_provider_fallback_order p.provider [] in
    let served = stream_chain-Served env.lower ask p.model p.provider rest in
    let model : Option Text = model_after env.lower ask p.model served.before in
    let e : (agent p).chunks ≡ map (stamp served.kind) (ask served.kind model).chunks =
      ap (λ (ks : List AiProvider). (stream_chain env.lower ask p.model ks).chunks) head
      ∙ ap (λ (a : Attempt). a.chunks) served.outcome in
    let ended' : is_ended (ask served.kind model).chunks ≡ true =
      sym (is_ended-stamp served.kind (ask served.kind model).chunks)
      ∙ (ap is_ended (sym e) ∙ ended) in
    (
      served.kind,
      model,
      ap (λ (ks : List AiProvider). some (provider_in served.kind ks)) (head ∙ served.position)
          ∙ ap some (provider_in-append served.kind served.before served.after),
      e,
      generator_response now latency p s row found fresh agent ended
          ∙ ap some (
              ap
                (λ (cs : List ChatChunk).
                  (read_chunks (agent p).failure cs (unread p)).1.responding_provider)
                e
              ∙ responder-stamp (agent p).failure served.kind (ask served.kind model).chunks
                  (unread p) ended'),
    )
  where
    agent : PendingAnswer → Answer
    agent p = answer_of (rag_stream env serve (Retrieval.excerpts found_excerpts) system p)
