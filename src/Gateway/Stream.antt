-- ===== src/Gateway/Stream.antt =====
-- Server-sent streams: `_stream_body` of src/cyrene_exchange/gateway.py. The generator's run is the
-- list of what it yields and of the calls that it makes of the observer.
use cyrene_exchange.Prelude.{
  ◌&&◌, not, ◌||◌, if◌then◌else◌, [], ◌∷◌, none, some, true, false, ℕ, zero, suc, List, Option,
  String, Bool,
}
use cyrene_exchange.Product.Audits.{ProviderUsage}
use cyrene_exchange.Product.Tables.{AuditStatus, completed, failed, cancelled}
use cyrene_exchange.Gateway.Usage.{ProviderChunk, UsageDict, merge_usage, to_openai_dict}

-- What the provider's iterator still does, with what `cancel_event.is_set()` answers when the gateway
-- asks after it. An exception carries its `error_type` and its `usage`.
pub data Feed : Type 0 where
  chunk : ProviderChunk → Bool → Feed → Feed
  ended : Bool → Feed
  raised : String → Option ProviderUsage → Bool → Feed
  request_cancelled : Option ProviderUsage → Feed
  invocation_cancelled : Feed

pub data Item : Type 0 where
  delta : ProviderChunk → Option UsageDict → Item
  finish : String → Item
  usage_only : UsageDict → Item
  done : Item

-- `terminal` is a call of `on_request_finished`.
pub data Entry : Type 0 where
  yielded : Item → Entry
  terminal : AuditStatus → Option ProviderUsage → Option String → Entry

-- The arguments of `_stream_body`, and what the run meets: `closing` is what `cancel_event` says when
-- the consumer closes the generator, `commit` whether `on_request_finished` returns.
pub record Settings : Type 0 where
  pub include_usage : Bool
  pub closing : Bool
  pub commit : Bool

-- The local variables of the loop
pub record Progress : Type 0 where
  pub emitted_finish : Bool
  pub saw_tool_calls : Bool
  pub usage : Option ProviderUsage
  pub usage_emitted : Bool

abbrev pub start : Progress
start = record {
  emitted_finish = false;
  saw_tool_calls = false;
  usage = none;
  usage_emitted = false;
}

abbrev pub is_known {ℓ} : {A : Type ℓ} → Option A → Bool
is_known none = false
is_known (some a) = true

abbrev pub is_empty {ℓ} : {A : Type ℓ} → List A → Bool
is_empty [] = true
is_empty (x ∷ xs) = false

-- `usage.to_openai_dict()`, when it has a key
unfoldable pub serialized : Option ProviderUsage → Option UsageDict
serialized none = none
serialized (some u) =
    let d = to_openai_dict u in
    if is_known d.prompt_tokens || (is_known d.completion_tokens || is_known d.total_tokens)
    then some d
    else none

-- `finally`, when no status was set
unfoldable pub close : Settings → Option ProviderUsage → List Entry
close c usage =
    if c.closing
    then terminal cancelled usage (some "request_cancelled") ∷ []
    else terminal failed usage (some "stream_closed") ∷ []

-- A `yield`: the consumer asks for the next item, `more` times yet, or closes the generator.
unfoldable pub yield_then :
    Settings → Option ProviderUsage → Item → ℕ → (ℕ → List Entry) → List Entry
yield_then c usage item zero next = yielded item ∷ close c usage
yield_then c usage item (suc more) next = yielded item ∷ next more

-- The terminal audit is committed before DONE.
unfoldable pub complete : Settings → Option ProviderUsage → List Entry
complete c usage =
    if c.commit
    then terminal completed usage none ∷ yielded done ∷ []
    else terminal completed usage none ∷ []

unfoldable pub emit_usage : Settings → Progress → ℕ → List Entry
emit_usage c p more = elim (serialized p.usage) [
  | none ↦ complete c p.usage
  | some d ↦
      if c.include_usage && not p.usage_emitted
      then yield_then c p.usage (usage_only d) more (λ more. complete c p.usage)
      else complete c p.usage
]

unfoldable pub emit_finish : Settings → Progress → ℕ → List Entry
emit_finish c p more =
    if p.emitted_finish
    then emit_usage c p more
    else yield_then c p.usage (finish (if p.saw_tool_calls then "tool_calls" else "stop")) more
        (λ more. emit_usage c p more)

unfoldable pub advanced : Progress → ProviderChunk → Progress
advanced p k = record {
  emitted_finish = p.emitted_finish || is_known k.finish_reason;
  saw_tool_calls = p.saw_tool_calls || not (is_empty k.tool_calls);
  usage = merge_usage p.usage k.usage;
  usage_emitted = p.usage_emitted;
}

-- The `usage` of an event, and `usage_emitted` after it
unfoldable pub event_usage : Settings → Progress → Option UsageDict
event_usage c p = if c.include_usage then serialized p.usage else none

unfoldable pub after_event : Settings → Progress → Progress
after_event c p = record p { usage_emitted = p.usage_emitted || is_known (event_usage c p) }

unfoldable pub stream_from : Settings → Progress → Feed → ℕ → List Entry
stream_from c p (chunk k stop rest) more =
    let q = advanced p k in
    let later : ℕ → List Entry = λ n. stream_from c (after_event c q) rest n in
    if stop
    then terminal cancelled p.usage (some "request_cancelled") ∷ []
    else yield_then c q.usage (delta k (event_usage c q)) more later
stream_from c p (ended stop) more =
    if stop
    then terminal cancelled p.usage (some "request_cancelled") ∷ []
    else emit_finish c p more
stream_from c p (raised error_type usage stop) more =
    if stop
    then terminal cancelled p.usage (some "request_cancelled") ∷ []
    else terminal failed p.usage (some error_type) ∷ []
stream_from c p (request_cancelled usage) more =
    terminal cancelled p.usage (some "request_cancelled") ∷ []
stream_from c p invocation_cancelled more =
    terminal cancelled p.usage (some "request_cancelled") ∷ []

-- The body of a generator runs at the first `next()`; the consumer calls `next()` at most `reads`
-- times and then closes the generator.
unfoldable pub stream_body : Settings → Feed → ℕ → List Entry
stream_body c feed zero = []
stream_body c feed (suc more) = stream_from c start feed more
