-- ===== src/Gateway/Chat.antt =====
-- One chat request: `ExchangeGateway.handle_openai_chat` and `_collect_response` of
-- src/cyrene_exchange/gateway.py. What the credential store, the quota checker, the parser, the
-- router, the media resolver, the providers, the cancel event and the observer answer is the `World`.
use cyrene_exchange.Gateway.Messages.{assemble_message, Message}
use cyrene_exchange.Prelude.{
  not, truthy, str_eq, or_default, ◌⊎◌, if◌then◌else◌, [], ◌∷◌, none, some, inl, inr, true, ℕ, List,
  Option, String, Bool, ◌++◌, any, take,
}
use cyrene_exchange.Product.Audits.{ProviderUsage, RequestMetadata}
use cyrene_exchange.Product.Tables.{
  AuditStatus, completed, failed, cancelled, rejected, RequestPrincipal,
}
use cyrene_exchange.Product.Quotas.{Admission, admitted, exceeded, unavailable}
use cyrene_exchange.Product.Routes.Planner.{RouteTarget}
use cyrene_exchange.Gateway.Usage.{ProviderChunk, merge_chunk_usage}
use cyrene_exchange.Gateway.Stream.{
  is_empty, Feed, chunk, ended, raised, request_cancelled, invocation_cancelled,
}
use cyrene_exchange.Outbox.Results.{ok, err}

-- The fields of `NormalizedInferenceRequest` that the handler reads
pub record ChatRequest : Type 0 where
  pub model : String
  pub stream : Bool

-- An exception of an attempt: `RequestCancelled`, `ProviderInvocationCancelled`,
-- `GatewayLifecycleError`, and any other with its audit error type and its `usage`.
pub data Raised : Type 0 where
  cancellation : Option ProviderUsage → Raised
  invocation : Raised
  lifecycle : Raised
  other : String → Option ProviderUsage → Raised

-- Resolving a provider, calling `complete` and taking its first chunk, with what the cancel event
-- answers when a stream begins
pub data Start : Type 0 where
  began : ProviderChunk → Bool → Feed → Start
  refused : Raised → Start

-- `GatewayResponse`; a stream still has its chunks to send.
pub data Response : Type 0 where
  collected : RequestMetadata → Message → String → Option ProviderUsage → Response
  streaming : RequestMetadata → Feed → Response

-- A response, an exception of the gateway with its error type, or another exception, which the handler
-- does not catch
pub data Answer : Type 0 where
  responded : Response → Answer
  fails : String → Answer
  escapes : Answer

-- The calls of the observer that return
pub data Event : Type 0 where
  turned_away : Option RequestPrincipal → AuditStatus → String → Option String → Option Bool → Event
  begun : RequestMetadata → Event
  finished : RequestMetadata → AuditStatus → Option ProviderUsage → Option String → Event

-- `_resolve_media_artifacts`: done, `RequestCancelled`, `MediaArtifactUnavailableError`, or another
-- exception
pub data Media : Type 0 where
  ready media_cancelled media_unavailable media_raises : Media

-- A parser: its request, a `ProtocolError`, or another exception
pub data Parsing (A : Type 0) : Type 0 where
  parsed_as : A → Parsing A
  protocol_error parser_raises : Parsing A

pub record World : Type 0 where
  pub request_id : String
  -- The principal of the bearer token, if the header has one and it resolves; a gateway without a
  -- quota checker admits every principal. None is an exception of the checker other than the two that
  -- the handler catches.
  pub principal : Option RequestPrincipal
  pub quota : RequestPrincipal → Option Admission
  pub cancelled_before_routing : Bool
  -- The strings and Booleans at `model` and `stream` of the payload
  pub payload_model : Option String
  pub payload_stream : Option Bool
  pub parsed : Parsing ChatRequest
  pub fnmatchcase : String → String → Bool
  -- None when the router cannot be resolved or raises
  pub planned : ChatRequest → RequestPrincipal → Option (List RouteTarget)
  pub max_route_attempts : ℕ
  pub media : ChatRequest → RequestPrincipal → Media
  -- `cancel_event.is_set()` before a candidate, and after its failure
  pub cancelled_before : RouteTarget → Bool
  pub cancelled_after : RouteTarget → Bool
  pub begin : RouteTarget → String → Start
  -- Whether the observer's call returns
  pub persists : Event → Bool

-- `RequestPrincipal.permits`
unfoldable pub permits : (String → String → Bool) → RequestPrincipal → String → Bool
permits fnmatchcase p model = elim p.model_scope [
  | [] ↦ true
  | ◌∷◌ x xs ↦ any (fnmatchcase model) p.model_scope
]

-- `_collect_response`, after the chunks that it has collected
unfoldable pub finish_reason : List ProviderChunk → String
finish_reason cs =
    go cs (if any (λ c. not (is_empty c.tool_calls)) cs then "tool_calls" else "stop")
  where
    go : List ProviderChunk → String → String
    go [] d = d
    go (c ∷ cs) d = go cs (if truthy c.finish_reason then or_default c.finish_reason d else d)

unfoldable pub collect_response : RequestMetadata → List ProviderChunk → Feed → Response ⊎ Raised
collect_response md cs (chunk k stop rest) =
    let more = collect_response md (cs ++ k ∷ []) rest in
    if stop then inr (cancellation (merge_chunk_usage cs)) else more
collect_response md cs (ended stop) = elim (assemble_message cs) [
  | err e ↦ inr (other "provider_error" none)
  | ok m ↦ inl (collected md m (finish_reason cs) (merge_chunk_usage cs))
]
collect_response md cs (raised e u stop) = inr (other "provider_error" (merge_chunk_usage cs))
collect_response md cs (request_cancelled u) = inr (cancellation u)
collect_response md cs invocation_cancelled = inr (cancellation (merge_chunk_usage cs))

abbrev pub Run : Type 0
Run = Answer × List Event

-- A call of the observer; `GatewayLifecycleError` when it raises
unfoldable pub observed : World → Event → Run → Run
observed w e next =
    if w.persists e then (next.0, e ∷ next.1) else (fails "gateway_lifecycle_error", [])

-- `_observe_rejected` and `raise`
unfoldable pub turn_away :
    World → Option RequestPrincipal → AuditStatus → String → Option String → Option Bool → Run
turn_away w p status error_type model stream =
    observed w (turned_away p status error_type model stream) (fails error_type, [])

abbrev pub metadata_of : World → ChatRequest → RequestPrincipal → RouteTarget → RequestMetadata
metadata_of w r p t = record {
  request_id = w.request_id;
  model = r.model;
  stream = r.stream;
  route_id = if str_eq t.route_id "" then t.provider_ref else t.route_id;
  provider_ref = t.provider_ref;
  principal = p;
}

-- One candidate, after its admission
unfoldable pub attempt : World → ChatRequest → RequestMetadata → RouteTarget → Response ⊎ Raised
attempt w r md t = elim (w.begin t (or_default t.model r.model)) [
  | refused e ↦ inr e
  | began first stop rest ↦
      if r.stream
      then inl (streaming md (chunk first stop rest))
      else collect_response md (first ∷ []) rest
]

-- The response of an attempt, or its exception handlers; `next` tries the other candidates.
unfoldable pub settle : World → RequestMetadata → RouteTarget → Response ⊎ Raised → Run → Run
settle w md t (inl (streaming m feed)) next = (responded (streaming m feed), [])
settle w md t (inl (collected m message reason usage)) next =
    observed w (finished md completed usage none) (responded (collected m message reason usage), [])
settle w md t (inr (cancellation usage)) next =
    observed w (finished md cancelled usage (some "request_cancelled"))
      (fails "request_cancelled", [])
settle w md t (inr invocation) next =
    observed w (finished md cancelled none (some "request_cancelled"))
      (fails "request_cancelled", [])
settle w md t (inr lifecycle) next = (fails "gateway_lifecycle_error", [])
settle w md t (inr (other error_type usage)) next =
    if w.cancelled_after t
    then observed w (finished md cancelled usage (some "request_cancelled"))
        (fails "request_cancelled", [])
    else observed w (finished md failed usage (some error_type)) next

unfoldable pub try_routes : World → ChatRequest → RequestPrincipal → List RouteTarget → Run
try_routes w r p [] = (fails "provider_error", [])
try_routes w r p (t ∷ ts) =
    let next = try_routes w r p ts in
    let md = metadata_of w r p t in
    if w.cancelled_before t
    then turn_away w (some p) cancelled "request_cancelled" (some r.model) (some r.stream)
    else observed w (begun md) (settle w md t (attempt w r md t) next)

unfoldable pub route : World → ChatRequest → RequestPrincipal → List RouteTarget → Run
route w r p candidates = elim candidates [
  | [] ↦ turn_away w (some p) rejected "no_route" (some r.model) (some r.stream)
  | ◌∷◌ t ts ↦ elim (w.media r p) [
    | ready ↦ try_routes w r p (t ∷ ts)
    | media_cancelled ↦
        turn_away w (some p) cancelled "request_cancelled" (some r.model) (some r.stream)
    | media_unavailable ↦
        turn_away w (some p) rejected "media_artifact_unavailable" (some r.model) (some r.stream)
    | media_raises ↦ (escapes, [])
  ]
]

unfoldable pub admit : World → RequestPrincipal → Run
admit w p =
    if w.cancelled_before_routing
    then turn_away w (some p) cancelled "request_cancelled" w.payload_model w.payload_stream
    else elim w.parsed [
      | parser_raises ↦ (escapes, [])
      | protocol_error ↦
          turn_away w (some p) rejected "invalid_request_error" w.payload_model w.payload_stream
      | parsed_as r ↦
          if permits w.fnmatchcase p r.model
          then elim (w.planned r p) [
            | none ↦ turn_away w (some p) rejected "no_route" (some r.model) (some r.stream)
            | some targets ↦ route w r p (take w.max_route_attempts targets)
          ]
          else turn_away w (some p) rejected "model_not_permitted" (some r.model) (some r.stream)
    ]

unfoldable pub handle_openai_chat : World → Run
handle_openai_chat w = elim w.principal [
  | none ↦ turn_away w none rejected "authentication_error" w.payload_model w.payload_stream
  | some p ↦ elim (w.quota p) [
    | none ↦ (escapes, [])
    | some admission ↦ elim admission [
      | admitted ↦ admit w p
      | exceeded ↦ turn_away w (some p) rejected "quota_exceeded" w.payload_model w.payload_stream
      | unavailable ↦
          turn_away w (some p) rejected "quota_unavailable" w.payload_model w.payload_stream
    ]
  ]
]
