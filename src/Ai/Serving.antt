-- ===== src/Ai/Serving.antt =====
-- Which provider of the chain answers, in app/ai/agents/rag_agent.py.
use repo_info_backend.Ai.Agent.{Attempt, is_last, stamp, started, stream_chain}
use repo_info_backend.Ai.Errors.{ProviderError, is_provider_unavailable}
use repo_info_backend.Chat.Generator.{ChatChunk}
use repo_info_backend.Models.Enums.{AiProvider}
use repo_info_backend.Prelude.{
  Bool, Bool-cases, List, Option, Option-cases, Text, [], ap, arith, false, if◌then◌else◌, inl, inr,
  map, none, not, refl, some, subst, true, ◌++◌, ◌||◌, ◌∙◌, ◌∷◌, ◌≡◌,
}

module _ (lower : Text → Text) (serve : AiProvider → Option Text → Attempt) where
  -- A provider that leaves the request to the next: unavailable before its first chunk.
  pub record Passes (model : Option Text) (kind : AiProvider) : Type 0 where
    pub error : ProviderError
    pub silent : (serve kind model).chunks ≡ []
    pub failed : (serve kind model).failure ≡ some error
    pub unavailable : is_provider_unavailable lower error ≡ true

  -- only the first is asked for the model of the request
  abbrev pub AllPass : Option Text → List AiProvider → Type 0
  AllPass model [] = Unit
  AllPass model (kind ∷ kinds) = Passes model kind × AllPass none kinds

  abbrev pub model_after : Option Text → List AiProvider → Option Text
  model_after model [] = model
  model_after model (kind ∷ kinds) = none

  abbrev pub attempt_of : AiProvider → Option Text → Attempt
  attempt_of kind model = record {
    chunks = map (stamp kind) (serve kind model).chunks;
    failure = (serve kind model).failure;
  }

  -- A provider whose attempt is the outcome: it answers, or no other may.
  abbrev pub Ends : AiProvider → Option Text → List AiProvider → Option ProviderError → Type 0
  Ends kind model after none = Unit
  Ends kind model after (some e) =
      (started (serve kind model).chunks || is_last after || not (is_provider_unavailable lower e))
      ≡ true

  pub record Served (model : Option Text) (chain : List AiProvider) (out : Attempt) : Type 0 where
    pub before : List AiProvider
    pub kind : AiProvider
    pub after : List AiProvider
    pub position : chain ≡ before ++ kind ∷ after
    pub passed : AllPass model before
    pub ends :
        Ends kind (model_after model before) after (serve kind (model_after model before)).failure
    pub outcome : out ≡ attempt_of kind (model_after model before)

  Served-here :
      (model : Option Text) (kind : AiProvider) (kinds : List AiProvider)
      → Ends kind model kinds (serve kind model).failure
      → stream_chain lower serve model (kind ∷ kinds) ≡ attempt_of kind model
      → Served model (kind ∷ kinds) (stream_chain lower serve model (kind ∷ kinds))
  Served-here model kind kinds ends e = record {
    before = [];
    kind = kind;
    after = kinds;
    position = refl;
    passed = tt;
    ends = ends;
    outcome = e;
  }

  none_after : (before : List AiProvider) → model_after none before ≡ none
  none_after [] = refl
  none_after (kind ∷ kinds) = refl

  stops : AiProvider → Option Text → List AiProvider → ProviderError → Bool
  stops kind model after e =
      started (serve kind model).chunks || is_last after || not (is_provider_unavailable lower e)

  silent_of : (cs : List ChatChunk) → started cs ≡ false → cs ≡ []
  silent_of [] h = refl
  silent_of (c ∷ cs) h = cc

  Served-later :
      (model : Option Text) (kind : AiProvider) (kinds : List AiProvider)
      → Passes model kind
      → stream_chain lower serve model (kind ∷ kinds) ≡ stream_chain lower serve none kinds
      → Served none kinds (stream_chain lower serve none kinds)
      → Served model (kind ∷ kinds) (stream_chain lower serve model (kind ∷ kinds))
  Served-later model kind kinds passes e served = record {
    before = kind ∷ served.before;
    kind = served.kind;
    after = served.after;
    position = ap (λ (ks : List AiProvider). kind ∷ ks) served.position;
    passed = (passes, served.passed);
    ends =
        subst (λ m. Ends served.kind m served.after (serve served.kind m).failure)
          (none_after served.before) served.ends;
    outcome = e ∙ (served.outcome ∙ ap (attempt_of served.kind) (none_after served.before));
  }

  stream_chain-none :
      (model : Option Text) (kind : AiProvider) (kinds : List AiProvider)
      → (serve kind model).failure ≡ none
      → stream_chain lower serve model (kind ∷ kinds) ≡ attempt_of kind model
  unfolding stream_chain
  stream_chain-none model kind kinds e = rw (e, stream_chain, e)

  stream_chain-some :
      (model : Option Text) (kind : AiProvider) (kinds : List AiProvider) (error : ProviderError)
      → (serve kind model).failure ≡ some error
      → stream_chain lower serve model (kind ∷ kinds) ≡ (
          if stops kind model kinds error
          then attempt_of kind model
          else stream_chain lower serve none kinds)
  unfolding stream_chain stops
  stream_chain-some model kind kinds error e = rw (e, stream_chain, e)

  stops-false :
      (model : Option Text) (kind : AiProvider) (kinds : List AiProvider) (error : ProviderError)
      → stops kind model kinds error ≡ false
      → (started (serve kind model).chunks ≡ false)
        × (is_last kinds ≡ false)
        × (is_provider_unavailable lower error ≡ true)
  unfolding stops
  stops-false model kind kinds error f = ground arith

  Served-despite :
      (model : Option Text) (kind : AiProvider) (kinds : List AiProvider) (error : ProviderError)
      → (serve kind model).failure ≡ some error
      → (is_last kinds ≡ false → Served none kinds (stream_chain lower serve none kinds))
      → Served model (kind ∷ kinds) (stream_chain lower serve model (kind ∷ kinds))
  unfolding stops
  Served-despite model kind kinds error e rest = elim (Bool-cases (stops kind model kinds error)) [
    | inl t ↦
        Served-here model kind kinds (rw (e) t) (stream_chain-some model kind kinds error e ∙ rw t)
    | inr f ↦
        let (quiet, more, down) = stops-false model kind kinds error f in
        Served-later model kind kinds
          (record {
            error = error;
            silent = silent_of (serve kind model).chunks quiet;
            failed = e;
            unavailable = down;
          })
          (stream_chain-some model kind kinds error e ∙ rw f) (rest more)
  ]

  -- The answer of a chain is the answer of one provider of it: those before it were unavailable before
  -- their first chunk, and it answered to its end, or had begun, or was the last, or failed for a reason
  -- of the request.
  pub stream_chain-Served :
      (model : Option Text) (kind : AiProvider) (kinds : List AiProvider)
      → Served model (kind ∷ kinds) (stream_chain lower serve model (kind ∷ kinds))
  stream_chain-Served model kind [] = elim (Option-cases (serve kind model).failure) [
    | inl e ↦ Served-here model kind [] (rw (e) tt) (stream_chain-none model kind [] e)
    | inr (error, e) ↦ Served-despite model kind [] error e (λ more. cc)
  ]
  stream_chain-Served model kind (k ∷ ks) =
      let rest = stream_chain-Served none k ks in
      elim (Option-cases (serve kind model).failure) [
        | inl e ↦
            Served-here model kind (k ∷ ks) (rw (e) tt) (stream_chain-none model kind (k ∷ ks) e)
        | inr (error, e) ↦ Served-despite model kind (k ∷ ks) error e (λ more. rest)
      ]
