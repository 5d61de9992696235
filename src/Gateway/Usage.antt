-- ===== src/Gateway/Usage.antt =====
-- Token usage in src/cyrene_exchange: `ProviderUsage` and `ProviderChunk` of capabilities.py, and
-- `_merge_usage` and `_merge_chunk_usage` of gateway.py.
use cyrene_exchange.Prelude.{◌∙◌, sym, [], ◌∷◌, none, some, refl, ℕ, ◌≡◌, ◌+◌, List, Option, String}
use cyrene_exchange.Product.Audits.{ProviderUsage}

-- `ToolCallDelta`
pub record ToolCallDelta : Type 0 where
  pub index : ℕ
  pub id : Option String
  pub type : Option String
  pub function_name : Option String
  pub function_arguments : Option String

pub record ProviderChunk : Type 0 where
  pub delta : String
  pub finish_reason : Option String
  pub role : Option String
  pub tool_calls : List ToolCallDelta
  pub usage : Option ProviderUsage

-- `value if value is not None else fallback`
abbrev pub known_or {ℓ} : {A : Type ℓ} → Option A → Option A → Option A
known_or none fallback = fallback
known_or (some value) fallback = some value

unfoldable pub merge_usage : Option ProviderUsage → Option ProviderUsage → Option ProviderUsage
merge_usage current none = current
merge_usage none (some observed) = some observed
merge_usage (some current) (some observed) = some (record {
  prompt_tokens = known_or observed.prompt_tokens current.prompt_tokens;
  completion_tokens = known_or observed.completion_tokens current.completion_tokens;
  total_tokens = known_or observed.total_tokens current.total_tokens;
  source = observed.source;
})

-- The loop of `_merge_chunk_usage`, from the usage so far
unfoldable pub merge_from : Option ProviderUsage → List ProviderChunk → Option ProviderUsage
merge_from usage [] = usage
merge_from usage (c ∷ cs) = merge_from (merge_usage usage c.usage) cs

unfoldable pub merge_chunk_usage : List ProviderChunk → Option ProviderUsage
merge_chunk_usage = merge_from none

-- The dictionary of `to_openai_dict`
pub record UsageDict : Type 0 where
  pub prompt_tokens : Option ℕ
  pub completion_tokens : Option ℕ
  pub total_tokens : Option ℕ

-- `total_tokens`, or the sum when both counts are known
abbrev pub total_of : Option ℕ → Option ℕ → Option ℕ → Option ℕ
total_of (some total) prompt completion = some total
total_of none none completion = none
total_of none (some prompt) none = none
total_of none (some prompt) (some completion) = some (prompt + completion)

unfoldable pub to_openai_dict : ProviderUsage → UsageDict
to_openai_dict u = record {
  prompt_tokens = u.prompt_tokens;
  completion_tokens = u.completion_tokens;
  total_tokens = total_of u.total_tokens u.prompt_tokens u.completion_tokens;
}

abbrev pub component {ℓ} :
    {A : Type ℓ} → (ProviderUsage → Option A) → Option ProviderUsage → Option A
component f none = none
component f (some u) = f u

-- The last value of a component that any chunk reports
abbrev pub last_known {ℓ} :
    {A : Type ℓ} → (ProviderUsage → Option A) → List ProviderChunk → Option A
last_known f [] = none
last_known f (c ∷ cs) = known_or (last_known f cs) (component f c.usage)

-- A component that the merge of two reports takes from the later one, if it is known there.
IsMerged {ℓ} : {A : Type ℓ} → (ProviderUsage → Option A) → Type ℓ
IsMerged f =
    (a b : Option ProviderUsage)
    → component f (merge_usage a b) ≡ known_or (component f b) (component f a)

known_or_assoc {ℓ} :
    {A : Type ℓ} (a b c : Option A) → known_or a (known_or b c) ≡ known_or (known_or a b) c
known_or_assoc none b c = refl
known_or_assoc (some a) b c = refl

known_or-none {ℓ} : {A : Type ℓ} (a : Option A) → known_or a none ≡ a
known_or-none none = refl
known_or-none (some a) = refl

merge_from-component {ℓ} :
    {A : Type ℓ} (f : ProviderUsage → Option A) (usage : Option ProviderUsage)
    (cs : List ProviderChunk)
    → IsMerged f
    → component f (merge_from usage cs) ≡ known_or (last_known f cs) (component f usage)
unfolding merge_from IsMerged
merge_from-component f usage [] h = refl
merge_from-component f usage (c ∷ cs) h =
    merge_from-component f (merge_usage usage c.usage) cs h
    ∙ (rw (h usage c.usage)
        (known_or_assoc (last_known f cs) (component f c.usage) (component f usage) ∙ refl))

prompt_tokens-IsMerged : IsMerged λ u. u.prompt_tokens
unfolding merge_usage IsMerged
prompt_tokens-IsMerged none none = refl
prompt_tokens-IsMerged (some a) none = refl
prompt_tokens-IsMerged none (some b) = sym (known_or-none b.prompt_tokens)
prompt_tokens-IsMerged (some a) (some b) = refl

completion_tokens-IsMerged : IsMerged λ u. u.completion_tokens
unfolding merge_usage IsMerged
completion_tokens-IsMerged none none = refl
completion_tokens-IsMerged (some a) none = refl
completion_tokens-IsMerged none (some b) = sym (known_or-none b.completion_tokens)
completion_tokens-IsMerged (some a) (some b) = refl

total_tokens-IsMerged : IsMerged λ u. u.total_tokens
unfolding merge_usage IsMerged
total_tokens-IsMerged none none = refl
total_tokens-IsMerged (some a) none = refl
total_tokens-IsMerged none (some b) = sym (known_or-none b.total_tokens)
total_tokens-IsMerged (some a) (some b) = refl

-- The usage that a response reports is, in each of its counts, the last value that any chunk of the
-- provider reported for that count, and is unknown if none did.
pub merge_chunk_usage-last_known :
    (cs : List ProviderChunk)
    → (component (λ u. u.prompt_tokens) (merge_chunk_usage cs)
        ≡ last_known (λ u. u.prompt_tokens) cs)
      × (component (λ u. u.completion_tokens) (merge_chunk_usage cs)
          ≡ last_known (λ u. u.completion_tokens) cs)
      × (component (λ u. u.total_tokens) (merge_chunk_usage cs)
          ≡ last_known (λ u. u.total_tokens) cs)
unfolding merge_chunk_usage
merge_chunk_usage-last_known cs = (
  merge_from-component (λ u. u.prompt_tokens) none cs prompt_tokens-IsMerged ∙ known_or-none _,
  merge_from-component (λ u. u.completion_tokens) none cs completion_tokens-IsMerged
      ∙ known_or-none _,
  merge_from-component (λ u. u.total_tokens) none cs total_tokens-IsMerged ∙ known_or-none _,
)
