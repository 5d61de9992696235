-- ===== src/Gateway/Embedded.antt =====
-- The audit of an embeddings request: `handle_openai_embeddings` of src/cyrene_exchange/gateway.py.
use mathlib.Core.Path.{subst}
use cyrene_exchange.Prelude.{
  ap, sym, if◌then◌else◌, Option-cases, ◌==◌, [], ◌∷◌, none, some, inl, inr, true, false, refl, ℕ,
  suc, ◌≡◌, ◌≢◌, ◌≤◌, List, Option, String, Bool, Bool-cases, length, arith, take,
}
use cyrene_exchange.Product.Audits.{RequestMetadata}
use cyrene_exchange.Product.Tables.{
  AuditStatus, completed, failed, cancelled, rejected, RequestPrincipal,
}
use cyrene_exchange.Product.Quotas.{Admission, admitted, exceeded, unavailable}
use cyrene_exchange.Product.Routes.Planner.{RouteTarget}
use cyrene_exchange.Gateway.Chat.{
  Parsing, parsed_as, protocol_error, parser_raises, permits, metadata_of, Event, turned_away,
  begun, finished,
}
use cyrene_exchange.Gateway.Bounds.{attempts, take-length}
use cyrene_exchange.Gateway.Consumed.{endings}
use cyrene_exchange.Gateway.Embeddings.{
  embedding_escapes, as_chat, route_embeddings, admit_embeddings, try_embeddings, settle_embedding,
  refuse, noted, fall_back, fail_with, EmbeddingRequest, Embedding, batch, embedding_cancelled,
  embedding_invocation, embedding_error, embedding_lifecycle, embedding_other, EmbeddingAnswer,
  embedded, embedding_fails, EmbeddingRun, EmbeddingWorld, handle_openai_embeddings,
}

-- The observer's calls return, and no provider raises the gateway's own `GatewayLifecycleError`.
pub record IsReporting (x : EmbeddingWorld) : Type 0 where
  pub persisted : (e : Event) → x.world.persists e ≡ true
  pub raised_elsewhere : (t : RouteTarget) (model : String) → x.embed t model ≢ embedding_lifecycle

-- A run that begins at most `n` candidates and finishes each
Balanced : ℕ → EmbeddingRun → Type 0
Balanced n run = (attempts run.1 ≡ endings run.1) × (attempts run.1 ≤ n)

-- What follows the admission of a candidate: its terminal call, and then a balanced rest
Ends : ℕ → EmbeddingRun → Type 0
Ends n run = (suc (attempts run.1) ≡ endings run.1) × (attempts run.1 ≤ n)

module _ (x : EmbeddingWorld) (h : IsReporting x) where
  noted_lem : (e : Event) (next : EmbeddingRun) → noted x.world e next ≡ (next.0, e ∷ next.1)
  unfolding noted
  noted_lem e next = rw (h.persisted e) refl

  refuse-Balanced :
      (p : Option RequestPrincipal) (status : AuditStatus) (error_type : String)
      (model : Option String) (n : ℕ)
      → Balanced n (refuse x.world p status error_type model)
  unfolding refuse Balanced
  refuse-Balanced p status error_type model n =
      subst (Balanced n)
        (sym (
          noted_lem (turned_away p status error_type model (some false))
            (embedding_fails error_type, [])))
        (refl, omega arith)

  fail_with-Ends :
      (md : RequestMetadata) (status : AuditStatus) (error_type : String) (n : ℕ)
      → Ends n (fail_with x.world md status error_type)
  unfolding fail_with Ends
  fail_with-Ends md status error_type n =
      subst (Ends n)
        (sym
          (noted_lem (finished md status none (some error_type)) (embedding_fails error_type, [])))
        (refl, omega arith)

  finished-Ends :
      (md : RequestMetadata) (status : AuditStatus) (e : Option String) (n : ℕ)
      (next : EmbeddingRun)
      → Balanced n next
      → Ends n (noted x.world (finished md status none e) next)
  unfolding Ends Balanced
  finished-Ends md status e n next k =
      subst (Ends n) (sym (noted_lem (finished md status none e) next)) (ap (λ m. suc m) k.0, k.1)

  empty-Balanced : (n : ℕ) (a : EmbeddingAnswer) → Balanced n (a, [])
  unfolding Balanced
  empty-Balanced n a = (refl, omega arith)

  fall_back-Ends :
      (md : RequestMetadata) (t : RouteTarget) (error_type : String) (n : ℕ) (next : EmbeddingRun)
      → Balanced n next
      → Ends n (fall_back x.world md t error_type next)
  unfolding fall_back
  fall_back-Ends md t error_type n next k = elim (Bool-cases (x.world.cancelled_after t)) [
    | inl e ↦ rw e (fail_with-Ends md cancelled "request_cancelled" n)
    | inr e ↦ rw e (finished-Ends md failed (some error_type) n next k)
  ]

  settle_embedding-Ends :
      (r : EmbeddingRequest) (md : RequestMetadata) (t : RouteTarget) (y : Embedding) (n : ℕ)
      (next : EmbeddingRun)
      → y ≢ embedding_lifecycle
      → Balanced n next
      → Ends n (settle_embedding x r md t y next)
  unfolding settle_embedding
  settle_embedding-Ends r md t (batch vectors model) n next s k =
      elim (Bool-cases (vectors == r.inputs)) [
        | inr e ↦ rw e (fall_back-Ends md t "provider_error" n next k)
        | inl e ↦ elim (Bool-cases (x.cancelled_at_end t)) [
          | inl c ↦ rw (e, c) (fail_with-Ends md cancelled "request_cancelled" n)
          | inr c ↦
              rw (e, c)
                (finished-Ends md completed none n (embedded md model, [])
                  (empty-Balanced n (embedded md model)))
        ]
      ]
  settle_embedding-Ends r md t embedding_cancelled n next s k =
      fail_with-Ends md cancelled "request_cancelled" n
  settle_embedding-Ends r md t embedding_invocation n next s k =
      fail_with-Ends md cancelled "request_cancelled" n
  settle_embedding-Ends r md t (embedding_error error_type) n next s k =
      fail_with-Ends md failed error_type n
  settle_embedding-Ends r md t embedding_lifecycle n next s k = absurd (s refl)
  settle_embedding-Ends r md t (embedding_other error_type) n next s k =
      fall_back-Ends md t error_type n next k

  begun-Balanced :
      (md : RequestMetadata) (n : ℕ) (next : EmbeddingRun)
      → Ends n next
      → Balanced (suc n) (noted x.world (begun md) next)
  unfolding Ends Balanced
  begun-Balanced md n next k =
      subst (Balanced (suc n)) (sym (noted_lem (begun md) next)) (k.0, omega (arith, k.1))

  try_embeddings-Balanced :
      (r : EmbeddingRequest) (p : RequestPrincipal) (ts : List RouteTarget)
      → Balanced (length ts) (try_embeddings x r p ts)
  unfolding try_embeddings Balanced
  try_embeddings-Balanced r p [] = (refl, omega arith)
  try_embeddings-Balanced r p (t ∷ ts) = elim (Bool-cases (x.world.cancelled_before t)) [
    | inl e ↦ rw (try_embeddings, e) (refuse-Balanced _ _ _ _ _)
    | inr e ↦
        rw (try_embeddings, e)
          (begun-Balanced (metadata_of x.world (as_chat r) p t) (length ts) _ (
            settle_embedding-Ends r (metadata_of x.world (as_chat r) p t) t _ (length ts) _
              (h.raised_elsewhere t _) (try_embeddings-Balanced r p ts)))
  ]

  if-Balanced :
      (b : Bool) (y z : EmbeddingRun) (n : ℕ)
      → Balanced n y
      → Balanced n z
      → Balanced n (if b then y else z)
  if-Balanced true y z n hy hz = hy
  if-Balanced false y z n hy hz = hz

  weaken-Balanced : (run : EmbeddingRun) (m n : ℕ) → m ≤ n → Balanced m run → Balanced n run
  unfolding Balanced
  weaken-Balanced run m n h k = (k.0, omega (arith, k.1, h))

  route_embeddings-Balanced :
      (r : EmbeddingRequest) (p : RequestPrincipal) (ts : List RouteTarget) (n : ℕ)
      → length ts ≤ n
      → Balanced n (route_embeddings x r p ts)
  unfolding route_embeddings
  route_embeddings-Balanced r p [] n k = refuse-Balanced _ _ _ _ n
  route_embeddings-Balanced r p (t ∷ ts) n k =
      weaken-Balanced _ (length (t ∷ ts)) n k (try_embeddings-Balanced r p (t ∷ ts))

  planned-Balanced :
      (r : EmbeddingRequest) (p : RequestPrincipal) (plan : Option (List RouteTarget))
      → Balanced x.world.max_route_attempts (elim plan [
        | none ↦ refuse x.world (some p) rejected "no_route" (some r.model)
        | some targets ↦ route_embeddings x r p (take x.world.max_route_attempts targets)
      ])
  planned-Balanced r p none = refuse-Balanced _ _ _ _ _
  planned-Balanced r p (some targets) =
      route_embeddings-Balanced r p (take x.world.max_route_attempts targets)
        x.world.max_route_attempts (take-length x.world.max_route_attempts targets)

  parsed-Balanced :
      (p : RequestPrincipal) (parsed : Parsing EmbeddingRequest)
      → Balanced x.world.max_route_attempts (elim parsed [
        | parser_raises ↦ (embedding_escapes, [])
        | protocol_error ↦
            refuse x.world (some p) rejected "invalid_request_error" x.world.payload_model
        | parsed_as r ↦
            if permits x.world.fnmatchcase p r.model
            then elim (x.world.planned (as_chat r) p) [
              | none ↦ refuse x.world (some p) rejected "no_route" (some r.model)
              | some targets ↦ route_embeddings x r p (take x.world.max_route_attempts targets)
            ]
            else refuse x.world (some p) rejected "model_not_permitted" (some r.model)
      ])
  parsed-Balanced p parser_raises = empty-Balanced _ _
  parsed-Balanced p protocol_error = refuse-Balanced _ _ _ _ _
  parsed-Balanced p (parsed_as r) =
      if-Balanced (permits x.world.fnmatchcase p r.model) _ _ _
        (planned-Balanced r p (x.world.planned (as_chat r) p)) (refuse-Balanced _ _ _ _ _)

  quota-Balanced :
      (p : RequestPrincipal) (a : Option Admission)
      → Balanced x.world.max_route_attempts (elim a [
        | none ↦ (embedding_escapes, [])
        | some admission ↦ elim admission [
          | admitted ↦ admit_embeddings x p
          | exceeded ↦ refuse x.world (some p) rejected "quota_exceeded" x.world.payload_model
          | unavailable ↦ refuse x.world (some p) rejected "quota_unavailable" x.world.payload_model
        ]
      ])
  unfolding admit_embeddings
  quota-Balanced p none = empty-Balanced _ _
  quota-Balanced p (some admitted) =
      if-Balanced x.world.cancelled_before_routing _ _ _ (refuse-Balanced _ _ _ _ _)
        (parsed-Balanced p x.request)
  quota-Balanced p (some exceeded) = refuse-Balanced _ _ _ _ _
  quota-Balanced p (some unavailable) = refuse-Balanced _ _ _ _ _

  handled-Balanced : Balanced x.world.max_route_attempts (handle_openai_embeddings x)
  unfolding handle_openai_embeddings
  handled-Balanced = elim (Option-cases x.world.principal) [
    | inl e ↦ rw (handle_openai_embeddings, e) (refuse-Balanced _ _ _ _ _)
    | inr (p, e) ↦ rw (handle_openai_embeddings, e) (quota-Balanced p (x.world.quota p))
  ]

-- When the observer's calls return and no provider raises the gateway's own lifecycle error, an
-- embeddings request reports one terminal event for each candidate it begins, and it begins at most
-- `max_route_attempts` of them.
pub handle_openai_embeddings-balanced :
    (x : EmbeddingWorld)
    → IsReporting x
    → (attempts (handle_openai_embeddings x).1 ≡ endings (handle_openai_embeddings x).1)
      × (attempts (handle_openai_embeddings x).1 ≤ x.world.max_route_attempts)
unfolding Balanced
handle_openai_embeddings-balanced x h = handled-Balanced x h
