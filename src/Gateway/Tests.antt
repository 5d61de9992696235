-- ===== src/Gateway/Tests.antt =====
-- The theorems on the gateway at concrete requests.
use cyrene_exchange.Outbox.Results.{Result}
use cyrene_exchange.Gateway.Embeddings.{
  handle_openai_embeddings, Embedding, batch, embedding_lifecycle, embedding_other, EmbeddingWorld,
}
use cyrene_exchange.Gateway.Embedded.{IsReporting, handle_openai_embeddings-balanced}
use cyrene_exchange.Gateway.Recorder.{record_events, TokenUsageEvent}
use cyrene_exchange.Gateway.Recorded.{IsContained, handle_openai_chat-IsClosed, IsClosed}
use cyrene_exchange.Gateway.Fragments.{assemble_message-joined, joined, text_of, IsSorted}
use cyrene_exchange.Gateway.Consumed.{
  unread_stream-is_open, handle_openai_chat-balanced, endings, events_of,
}
use cyrene_exchange.Gateway.StreamAudit.{
  stream_body-completed, stream_body-IsAudited, healthy, outcome, IsAudited,
}
use cyrene_exchange.Gateway.Messages.{
  calls_of, merge, merge_call, merge_calls, assemble_message, Message,
}
use cyrene_exchange.Gateway.Handled.{handle_openai_chat-IsTraced, Uncaught}
use cyrene_exchange.Gateway.Bounds.{handle_openai_chat-attempts, attempts}
use cyrene_exchange.Prelude.{
  ◌⊎◌, any, Option, arith, if◌then◌else◌, Bool-cases, [], ◌∷◌, none, some, inl, inr, true, false,
  refl, suc, ◌≡◌, ◌≢◌, ◌≤◌, String, str_eq,
}
use cyrene_exchange.Product.Audits.{ProviderUsage}
use cyrene_exchange.Product.Tables.{Store, completed, RequestPrincipal}
use cyrene_exchange.Product.Quotas.{admitted}
use cyrene_exchange.Product.Routes.Planner.{RouteTarget}
use cyrene_exchange.Gateway.Usage.{
  merge_chunk_usage-last_known, merge_chunk_usage, component, ToolCallDelta, ProviderChunk,
}
use cyrene_exchange.Gateway.Stream.{stream_body, chunk, ended, Settings}
use cyrene_exchange.Gateway.Chat.{
  parsed_as, escapes, metadata_of, permits, attempt, settle, observed, turn_away, try_routes, route,
  admit, ChatRequest, Start, began, refused, lifecycle, other, ready, World, handle_openai_chat,
}
use cyrene_exchange.Gateway.Attempts.{IsPersisting, IsTraced}

abbrev caller : RequestPrincipal
caller = record {
  actor_id = "ann";
  workspace_id = "lab";
  credential_ref = "api-key://5";
  model_scope = [];
  organization_id = none;
}

abbrev reported : ProviderUsage
reported = record {
  prompt_tokens = some 3;
  completion_tokens = none;
  total_tokens = none;
  source = "provider";
}

abbrev call : ToolCallDelta
call = record {
  index = 1;
  id = some "call";
  type = some "function";
  function_name = some "look";
  function_arguments = some "{";
}

abbrev first : ProviderChunk
first = record {
  delta = "a";
  finish_reason = none;
  role = some "assistant";
  tool_calls = call ∷ [];
  usage = some reported;
}

abbrev second : ProviderChunk
second = record {
  delta = "b";
  finish_reason = some "stop";
  role = none;
  tool_calls =
      record call {
        id = none;
        type = none;
        function_name = some "up";
        function_arguments = some "}";
      }
      ∷ [];
  usage = some (record reported { prompt_tokens = none; completion_tokens = some 4 });
}

abbrev failing : RouteTarget
failing = record { provider_ref = "down"; route_id = ""; model = none }

abbrev serving : RouteTarget
serving = record { provider_ref = "up"; route_id = "7"; model = some "gpt" }

begin_at : RouteTarget → String → Start
begin_at t model =
    if str_eq t.provider_ref "down"
    then refused (other "provider_error" none)
    else began first false (chunk second false (ended false))

abbrev asked : ChatRequest
asked = record { model = "gpt-4"; stream = true }

abbrev world : World
world = record {
  request_id = "chatcmpl-1";
  principal = some caller;
  quota = λ p. some admitted;
  cancelled_before_routing = false;
  payload_model = some "gpt-4";
  payload_stream = some true;
  parsed = parsed_as asked;
  fnmatchcase = λ name pattern. str_eq name pattern;
  planned = λ r p. some (failing ∷ serving ∷ []);
  max_route_attempts = 3;
  media = λ r p. ready;
  cancelled_before = λ t. false;
  cancelled_after = λ t. false;
  begin = begin_at;
  persists = λ e. true;
}

raised_elsewhere_lem : (t : RouteTarget) (model : String) → begin_at t model ≢ refused lifecycle
unfolding begin_at
raised_elsewhere_lem t model h = elim (Bool-cases (str_eq t.provider_ref "down")) [
  | inl e ↦ other_failure (rw e at h)
  | inr e ↦ success (rw e at h)
]
  where
    other_failure : refused (other "provider_error" none) ≢ refused lifecycle
    other_failure h = cc

    success : began first false (chunk second false (ended false)) ≢ refused lifecycle
    success h = cc

world-IsPersisting : IsPersisting world
world-IsPersisting = record { persisted = λ e. refl; raised_elsewhere = raised_elsewhere_lem }

abbrev settings : Settings
settings = record { include_usage = true; closing = false; commit = true }

handle_openai_chat-IsTraced_example :
    (IsTraced "chatcmpl-1" (handle_openai_chat world).1 (handle_openai_chat world).0
      × ((handle_openai_chat world).1 ≢ []))
    ⊎ (Uncaught world
        × ((handle_openai_chat world).1 ≡ [])
        × ((handle_openai_chat world).0 ≡ escapes))
handle_openai_chat-IsTraced_example = handle_openai_chat-IsTraced world world-IsPersisting

handle_openai_chat-attempts_example : attempts (handle_openai_chat world).1 ≤ 3
handle_openai_chat-attempts_example = handle_openai_chat-attempts world

handle_openai_chat-balanced_example :
    attempts (events_of settings 9 world) ≡ endings (events_of settings 9 world)
handle_openai_chat-balanced_example =
    handle_openai_chat-balanced world settings 8 world-IsPersisting

unread_stream-is_open_example :
    attempts (events_of settings 0 world) ≡ suc (endings (events_of settings 0 world))
unfolding handle_openai_chat admit route try_routes turn_away observed settle attempt permits
    begin_at
unread_stream-is_open_example =
    unread_stream-is_open world settings (metadata_of world asked caller serving)
      (chunk first false (chunk second false (ended false))) world-IsPersisting refl

two_attempts : attempts (handle_openai_chat world).1 ≡ 2
unfolding handle_openai_chat admit route try_routes turn_away observed settle attempt permits
    begin_at
two_attempts = refl

stream_body-IsAudited_example :
    IsAudited true (stream_body settings (healthy (first ∷ second ∷ [])) 2)
stream_body-IsAudited_example = stream_body-IsAudited settings (healthy (first ∷ second ∷ [])) 1

stream_body-completed_example :
    outcome (stream_body settings (healthy (first ∷ second ∷ [])) 5)
    ≡ some (completed, merge_chunk_usage (first ∷ second ∷ []), none)
stream_body-completed_example = stream_body-completed settings (first ∷ second ∷ []) 5 (omega arith)

merge_chunk_usage-last_known_example :
    (component (λ u. u.prompt_tokens) (merge_chunk_usage (first ∷ second ∷ [])) ≡ some 3)
    × (component (λ u. u.completion_tokens) (merge_chunk_usage (first ∷ second ∷ [])) ≡ some 4)
    × (component (λ u. u.total_tokens) (merge_chunk_usage (first ∷ second ∷ [])) ≡ none)
merge_chunk_usage-last_known_example = merge_chunk_usage-last_known (first ∷ second ∷ [])

abbrev message : Message
message = record {
  role = "assistant";
  content = some "ab";
  tool_calls =
      record {
        index = 1;
        call_id = some "call";
        call_type = some "function";
        function_name = some "lookup";
        function_arguments = some "{}";
      }
      ∷ [];
}

assemble_message-joined_example :
    IsSorted message.tool_calls
    × (text_of (λ a. a.function_name) 1 message.tool_calls
        ≡ joined (λ d. d.function_name) 1 none (calls_of (first ∷ second ∷ [])))
    × (text_of (λ a. a.function_arguments) 1 message.tool_calls
        ≡ joined (λ d. d.function_arguments) 1 none (calls_of (first ∷ second ∷ [])))
unfolding assemble_message merge_calls merge_call merge
assemble_message-joined_example = assemble_message-joined (first ∷ second ∷ []) message 1 refl

abbrev single : World
single = record world { max_route_attempts = 1; planned = λ r p. some (serving ∷ []) }

single-IsPersisting : IsPersisting single
single-IsPersisting = record { persisted = λ e. refl; raised_elsewhere = raised_elsewhere_lem }

single-IsContained : IsContained single
single-IsContained = record { checker = λ p h. cc; parser = λ h. cc; resolver = λ r p h. cc }

abbrev empty : Store
empty = record {
  endpoints = [];
  routes = [];
  grants = [];
  source_grants = [];
  credentials = [];
  idempotency = [];
  audits = [];
}

abbrev no_client : Option (TokenUsageEvent → Result (Unit {0}))
no_client = none

handle_openai_chat-IsClosed_example :
    IsClosed "chatcmpl-1"
      (record_events "chatcmpl-1" no_client (λ n. n) 0 (events_of settings 9 single) empty)
unfolding any
handle_openai_chat-IsClosed_example =
    handle_openai_chat-IsClosed single settings 8 no_client (λ n. n) 0 empty single-IsPersisting
      single-IsContained refl refl

embed_at : RouteTarget → String → Embedding
embed_at t model =
    if str_eq t.provider_ref "down" then embedding_other "provider_error" else batch 2 model

embed_at-raised_elsewhere :
    (t : RouteTarget) (model : String) → embed_at t model ≢ embedding_lifecycle
unfolding embed_at
embed_at-raised_elsewhere t model h = elim (Bool-cases (str_eq t.provider_ref "down")) [
  | inl e ↦ other_failure (rw e at h)
  | inr e ↦ success (rw e at h)
]
  where
    other_failure : embedding_other "provider_error" ≢ embedding_lifecycle
    other_failure h = cc

    success : batch 2 model ≢ embedding_lifecycle
    success h = cc

abbrev embeddings : EmbeddingWorld
embeddings = record {
  world = world;
  request = parsed_as (record { model = "gpt-4"; inputs = 2 });
  embed = embed_at;
  cancelled_at_end = λ t. false;
}

embeddings-IsReporting : IsReporting embeddings
embeddings-IsReporting = record {
  persisted = λ e. refl;
  raised_elsewhere = embed_at-raised_elsewhere;
}

handle_openai_embeddings-balanced_example :
    (attempts (handle_openai_embeddings embeddings).1
      ≡ endings (handle_openai_embeddings embeddings).1)
    × (attempts (handle_openai_embeddings embeddings).1 ≤ 3)
handle_openai_embeddings-balanced_example =
    handle_openai_embeddings-balanced embeddings embeddings-IsReporting
