-- ===== src/Ai/Fallback.antt =====
-- The chain of providers of app/ai/agents/rag_agent.py.
use mathlib.Core.Option
use repo_info_backend.Ai.Agent.{
  add_fallbacks, add_provider, provider_chain, provider_in, provider_of,
}
use repo_info_backend.Core.Config.{Settings}
use repo_info_backend.Models.Enums.{AiProvider, ai_provider_eq}
use repo_info_backend.Prelude.{
  Bool, Bool-cases, List, Option, Text, [], ap, arith, beq→eq, count, false, if◌then◌else◌, inl,
  inr, nat_eq, none, refl, some, strip, sym, text_eq, true, ℕ, ◌++◌, ◌+◌, ◌==◌, ◌||◌, ◌∙◌, ◌∷◌, ◌≡◌,
}

abbrev is_this : AiProvider → Option AiProvider → Bool
is_this k none = false
is_this k (some kind) = kind == k

-- the providers that the setting names, in any spelling that a label has between spaces
abbrev pub is_configured : AiProvider → List Text → Bool
is_configured k [] = false
is_configured k (raw ∷ raws) = is_this k (provider_of (strip raw)) || is_configured k raws

abbrev pub bit : Bool → ℕ
bit b = if b then 1 else 0

abbrev pub occurrences : AiProvider → List AiProvider → ℕ
occurrences k chain = count (λ q. q == k) chain

bit_or : (a b : Bool) → (b ≡ true → a ≡ false) → bit a + bit b ≡ bit (a || b)
bit_or true true h = cc (h refl)
bit_or true false h = refl
bit_or false b h = omega arith

or_absorb : (a b : Bool) → (b ≡ true → a ≡ true) → a ≡ (a || b)
or_absorb true b h = refl
or_absorb false true h = h refl
or_absorb false false h = refl

or_false : (a : Bool) → a ≡ (a || false)
or_false true = refl
or_false false = refl

or_assoc : (a b c : Bool) → ((a || b) || c) ≡ (a || (b || c))
or_assoc true b c = refl
or_assoc false b c = refl

provider_in-append :
    (k kind : AiProvider) (chain : List AiProvider)
    → provider_in k (chain ++ kind ∷ []) ≡ (provider_in k chain || kind == k)
provider_in-append k kind [] = ground arith
provider_in-append k kind (q ∷ chain) = ground (arith, provider_in-append k kind chain)

occurrences-append :
    (k kind : AiProvider) (chain : List AiProvider)
    → occurrences k (chain ++ kind ∷ []) ≡ occurrences k chain + bit (kind == k)
occurrences-append k kind [] = ground arith
occurrences-append k kind (q ∷ chain) = ground (arith, occurrences-append k kind chain)

same :
    (k kind : AiProvider) (chain : List AiProvider)
    → (kind == k) ≡ true
    → provider_in k chain ≡ provider_in kind chain
same k kind chain t = ap (λ x. provider_in x chain) (sym (beq→eq kind k t))

-- no provider stands in the chain twice
abbrev Once : List AiProvider → Type 0
Once chain = (k : AiProvider) → occurrences k chain ≡ bit (provider_in k chain)

add_provider-Once :
    (o : Option AiProvider) (chain : List AiProvider) → Once chain → Once (add_provider o chain)
add_provider-Once none chain once k = once k
add_provider-Once (some kind) chain once k = elim (Bool-cases (provider_in kind chain)) [
  | inl there ↦ rw there (once k)
  | inr new ↦
      rw (new, provider_in-append k kind chain, occurrences-append k kind chain, once k)
        (bit_or (provider_in k chain) (kind == k) (λ t. same k kind chain t ∙ new))
]

provider_in-add_provider :
    (k : AiProvider) (o : Option AiProvider) (chain : List AiProvider)
    → provider_in k (add_provider o chain) ≡ (provider_in k chain || is_this k o)
provider_in-add_provider k none chain = ground arith
provider_in-add_provider k (some kind) chain = elim (Bool-cases (provider_in kind chain)) [
  | inl there ↦
      rw there (or_absorb (provider_in k chain) (kind == k) (λ t. same k kind chain t ∙ there))
  | inr new ↦ rw (new, provider_in-append k kind chain)
]

occurrences-add_fallbacks :
    (k : AiProvider) (raws : List Text) (chain : List AiProvider)
    → Once chain
    → occurrences k (add_fallbacks raws chain) ≡ bit (provider_in k chain || is_configured k raws)
occurrences-add_fallbacks k [] chain once = once k ∙ ap bit (or_false (provider_in k chain))
occurrences-add_fallbacks k (raw ∷ raws) chain once =
    occurrences-add_fallbacks k raws (add_provider (provider_of (strip raw)) chain)
      (add_provider-Once (provider_of (strip raw)) chain once)
    ∙ ap bit (
        ap (λ b. b || is_configured k raws)
          (provider_in-add_provider k (provider_of (strip raw)) chain)
        ∙ or_assoc (provider_in k chain) (is_this k (provider_of (strip raw)))
            (is_configured k raws))

-- The chain of a request has the provider of the request, and each provider that the setting names, once,
-- and no other.
pub provider_chain-occurrences :
    (settings : Settings) (requested k : AiProvider)
    → Option.map (occurrences k) (provider_chain settings (some requested))
      ≡ some (bit (requested == k || is_configured k settings.ai_provider_fallback_order))
unfolding provider_chain
provider_chain-occurrences settings requested k = ap some (
    occurrences-add_fallbacks k settings.ai_provider_fallback_order (requested ∷ []) single
    ∙ ap (λ b. bit (b || is_configured k settings.ai_provider_fallback_order))
        (sym (or_false (requested == k))))
  where
    single :
        (j : AiProvider) → occurrences j (requested ∷ []) ≡ bit (provider_in j (requested ∷ []))
    single j = ground arith
