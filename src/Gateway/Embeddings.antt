-- ===== src/Gateway/Embeddings.antt =====
-- One embeddings request: `ExchangeGateway.handle_openai_embeddings` of src/cyrene_exchange/gateway.py.
-- The answers that it shares with a chat request are those of `World`.
use cyrene_exchange.Prelude.{
  ◌==◌, or_default, if◌then◌else◌, [], ◌∷◌, none, some, false, ℕ, List, Option, String, Bool, take,
}
use cyrene_exchange.Product.Audits.{RequestMetadata}
use cyrene_exchange.Product.Tables.{
  AuditStatus, completed, failed, cancelled, rejected, RequestPrincipal,
}
use cyrene_exchange.Product.Quotas.{admitted, exceeded, unavailable}
use cyrene_exchange.Product.Routes.Planner.{RouteTarget}
use cyrene_exchange.Gateway.Chat.{
  Parsing, parsed_as, protocol_error, parser_raises, permits, metadata_of, ChatRequest, Event,
  turned_away, begun, finished, World,
}

-- `NormalizedEmbeddingRequest`, with the number of its inputs
pub record EmbeddingRequest : Type 0 where
  pub model : String
  pub inputs : ℕ

-- Resolving a provider and calling `embed`: a batch with the number of its vectors, or an exception.
-- An `embedding_error` is a `ProviderEmbeddingError` with its mapped error type.
pub data Embedding : Type 0 where
  batch : ℕ → String → Embedding
  embedding_cancelled : Embedding
  embedding_invocation : Embedding
  embedding_error : String → Embedding
  embedding_lifecycle : Embedding
  embedding_other : String → Embedding

pub data EmbeddingAnswer : Type 0 where
  embedded : RequestMetadata → String → EmbeddingAnswer
  embedding_fails : String → EmbeddingAnswer
  -- An exception that the handler does not catch
  embedding_escapes : EmbeddingAnswer

abbrev pub EmbeddingRun : Type 0
EmbeddingRun = EmbeddingAnswer × List Event

pub record EmbeddingWorld : Type 0 where
  pub world : World
  pub request : Parsing EmbeddingRequest
  pub embed : RouteTarget → String → Embedding
  -- `cancel_event.is_set()` after a batch
  pub cancelled_at_end : RouteTarget → Bool

unfoldable pub noted : World → Event → EmbeddingRun → EmbeddingRun
noted w e next =
    if w.persists e then (next.0, e ∷ next.1) else (embedding_fails "gateway_lifecycle_error", [])

unfoldable pub refuse :
    World → Option RequestPrincipal → AuditStatus → String → Option String → EmbeddingRun
refuse w p status error_type model =
    noted w (turned_away p status error_type model (some false)) (embedding_fails error_type, [])

-- `_observe_finished` and `raise`
unfoldable pub fail_with : World → RequestMetadata → AuditStatus → String → EmbeddingRun
fail_with w md status error_type =
    noted w (finished md status none (some error_type)) (embedding_fails error_type, [])

-- Any other exception: the next candidate, unless the request was cancelled
unfoldable pub fall_back :
    World → RequestMetadata → RouteTarget → String → EmbeddingRun → EmbeddingRun
fall_back w md t error_type next =
    if w.cancelled_after t
    then fail_with w md cancelled "request_cancelled"
    else noted w (finished md failed none (some error_type)) next

unfoldable pub settle_embedding :
    EmbeddingWorld
    → EmbeddingRequest
    → RequestMetadata
    → RouteTarget
    → Embedding
    → EmbeddingRun
    → EmbeddingRun
settle_embedding x r md t (batch vectors model) next =
    if vectors == r.inputs
    then (if x.cancelled_at_end t
        then fail_with x.world md cancelled "request_cancelled"
        else noted x.world (finished md completed none none) (embedded md model, []))
    else fall_back x.world md t "provider_error" next
settle_embedding x r md t embedding_cancelled next =
    fail_with x.world md cancelled "request_cancelled"
settle_embedding x r md t embedding_invocation next =
    fail_with x.world md cancelled "request_cancelled"
settle_embedding x r md t (embedding_error error_type) next = fail_with x.world md failed error_type
settle_embedding x r md t embedding_lifecycle next = (embedding_fails "gateway_lifecycle_error", [])
settle_embedding x r md t (embedding_other error_type) next = fall_back x.world md t error_type next

abbrev pub as_chat : EmbeddingRequest → ChatRequest
as_chat r = record { model = r.model; stream = false }

unfoldable pub try_embeddings :
    EmbeddingWorld → EmbeddingRequest → RequestPrincipal → List RouteTarget → EmbeddingRun
try_embeddings x r p [] = (embedding_fails "provider_error", [])
try_embeddings x r p (t ∷ ts) =
    let next = try_embeddings x r p ts in
    let md = metadata_of x.world (as_chat r) p t in
    if x.world.cancelled_before t
    then refuse x.world (some p) cancelled "request_cancelled" (some r.model)
    else noted x.world (begun md)
        (settle_embedding x r md t (x.embed t (or_default t.model r.model)) next)

unfoldable pub route_embeddings :
    EmbeddingWorld → EmbeddingRequest → RequestPrincipal → List RouteTarget → EmbeddingRun
route_embeddings x r p [] = refuse x.world (some p) rejected "no_route" (some r.model)
route_embeddings x r p (t ∷ ts) = try_embeddings x r p (t ∷ ts)

unfoldable pub admit_embeddings : EmbeddingWorld → RequestPrincipal → EmbeddingRun
admit_embeddings x p =
    if x.world.cancelled_before_routing
    then refuse x.world (some p) cancelled "request_cancelled" x.world.payload_model
    else elim x.request [
      | parser_raises ↦ (embedding_escapes, [])
      | protocol_error ↦
          refuse x.world (some p) rejected "invalid_request_error" x.world.payload_model
      | parsed_as r ↦
          if permits x.world.fnmatchcase p r.model
          then elim (x.world.planned (as_chat r) p) [
            | none ↦ refuse x.world (some p) rejected "no_route" (some r.model)
            | some targets ↦ route_embeddings x r p (take x.world.max_route_attempts targets)
          ]
          else refuse x.world (some p) rejected "model_not_permitted" (some r.model)
    ]

unfoldable pub handle_openai_embeddings : EmbeddingWorld → EmbeddingRun
handle_openai_embeddings x = elim x.world.principal [
  | none ↦ refuse x.world none rejected "authentication_error" x.world.payload_model
  | some p ↦ elim (x.world.quota p) [
    | none ↦ (embedding_escapes, [])
    | some admission ↦ elim admission [
      | admitted ↦ admit_embeddings x p
      | exceeded ↦ refuse x.world (some p) rejected "quota_exceeded" x.world.payload_model
      | unavailable ↦ refuse x.world (some p) rejected "quota_unavailable" x.world.payload_model
    ]
  ]
]
