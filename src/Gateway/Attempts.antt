-- ===== src/Gateway/Attempts.antt =====
-- What a chat request leaves with the observer, and how many providers it calls:
-- `handle_openai_chat` of src/cyrene_exchange/gateway.py.
use cyrene_exchange.Outbox.Results.{Result-cases}
use mathlib.Core.Path.{subst}
use cyrene_exchange.Gateway.Usage.{ProviderChunk}
use cyrene_exchange.Gateway.Messages.{assemble_message, Message}
use cyrene_exchange.Prelude.{
  ap, ◌∙◌, or_default, if◌then◌else◌, ◌++◌, sym, ◌⊎◌, ◌≢◌, [], ◌∷◌, none, some, inl, inr, true,
  false, refl, ◌≡◌, List, Option, String, Bool, Bool-cases,
}
use cyrene_exchange.Product.Audits.{is_started, ProviderUsage, RequestMetadata}
use cyrene_exchange.Product.Tables.{AuditStatus, completed, failed, cancelled, RequestPrincipal}
use cyrene_exchange.Product.Routes.Planner.{RouteTarget}
use cyrene_exchange.Gateway.Stream.{
  invocation_cancelled, request_cancelled, raised, ended, chunk, Feed,
}
use cyrene_exchange.Gateway.Chat.{
  metadata_of, try_routes, turn_away, settle, observed, collect_response, attempt, ChatRequest,
  Raised, cancellation, invocation, lifecycle, other, Start, began, refused, Response, collected,
  streaming, Answer, responded, fails, Event, turned_away, begun, finished, World, Run,
}

-- The traces of a request: candidates that were begun and have failed, and then one that answers, one
-- that is cancelled, a refusal, or the end of the candidates. A streamed answer leaves its last
-- candidate begun, and its stream makes the terminal call. Every candidate is recorded under the id
-- of the request.
pub data IsTraced (id : String) : List Event → Answer → Type 0 where
  turned :
      (p : Option RequestPrincipal) (status : AuditStatus) (error_type : String)
      (model : Option String) (stream : Option Bool)
      → is_started status ≡ false
      → IsTraced id (turned_away p status error_type model stream ∷ []) (fails error_type)
  answered :
      (md : RequestMetadata) (own : md.request_id ≡ id) (m : Message) (reason : String)
      (usage : Option ProviderUsage)
      → IsTraced id
          (begun md ∷ finished md completed usage none ∷ [])
          (responded (collected md m reason usage))
  streams :
      (md : RequestMetadata) (own : md.request_id ≡ id) (feed : Feed)
      → IsTraced id (begun md ∷ []) (responded (streaming md feed))
  stopped :
      (md : RequestMetadata) (own : md.request_id ≡ id) (usage : Option ProviderUsage)
      → IsTraced id
          (begun md ∷ finished md cancelled usage (some "request_cancelled") ∷ [])
          (fails "request_cancelled")
  fell_back :
      (md : RequestMetadata) (own : md.request_id ≡ id) (usage : Option ProviderUsage)
      (error_type : String) {rest : List Event} {a : Answer}
      → IsTraced id rest a
      → IsTraced id (begun md ∷ finished md failed usage (some error_type) ∷ rest) a
  exhausted : IsTraced id [] (fails "provider_error")

-- The observer's calls return, and no provider raises the gateway's own `GatewayLifecycleError`.
pub record IsPersisting (w : World) : Type 0 where
  pub persisted : (e : Event) → w.persists e ≡ true
  pub raised_elsewhere : (t : RouteTarget) (model : String) → w.begin t model ≢ refused lifecycle

pub observed_lem :
    (w : World) (e : Event) (next : Run)
    → w.persists e ≡ true
    → observed w e next ≡ (next.0, e ∷ next.1)
unfolding observed
observed_lem w e next h = rw h refl

unfoldable pub Traced : World → Run → Type 0
Traced w run = IsTraced w.request_id run.1 run.0

pub turn_away-IsTraced :
    (w : World)
    → IsPersisting w
    → (p : Option RequestPrincipal) (status : AuditStatus) (error_type : String)
      (model : Option String) (stream : Option Bool)
    → is_started status ≡ false
    → Traced w (turn_away w p status error_type model stream)
unfolding Traced turn_away
turn_away-IsTraced w h p status error_type model stream ends =
    subst (Traced w)
      (sym (
        observed_lem w (turned_away p status error_type model stream) (fails error_type, [])
          (h.persisted _)))
      (turned p status error_type model stream ends)

-- The response of an attempt is for its candidate, and no attempt raises `GatewayLifecycleError`.
Settles : RequestMetadata → Response ⊎ Raised → Type 0
Settles md (inl (collected m message reason usage)) = m ≡ md
Settles md (inl (streaming m feed)) = m ≡ md
Settles md (inr e) = e ≢ lifecycle

collect_response-Settles :
    (md : RequestMetadata) (cs : List ProviderChunk) (feed : Feed)
    → Settles md (collect_response md cs feed)
unfolding collect_response Settles
collect_response-Settles md cs (chunk k true rest) = λ e. cc
collect_response-Settles md cs (chunk k false rest) =
    collect_response-Settles md (cs ++ k ∷ []) rest
collect_response-Settles md cs (ended stop) = elim (Result-cases (assemble_message cs)) [
  | inl (e, h) ↦ rw (collect_response, h) (λ e. cc)
  | inr (m, h) ↦ rw (collect_response, h) refl
]
collect_response-Settles md cs (raised e u stop) = λ e. cc
collect_response-Settles md cs (request_cancelled u) = λ e. cc
collect_response-Settles md cs invocation_cancelled = λ e. cc

started-Settles :
    (w : World) (r : ChatRequest) (md : RequestMetadata) (x : Start)
    → x ≢ refused lifecycle
    → Settles md (elim x as (λ y. Response ⊎ Raised) [
      | refused e ↦ inr e
      | began first stop rest ↦
          if r.stream
          then inl (streaming md (chunk first stop rest))
          else collect_response md (first ∷ []) rest
    ])
unfolding Settles
started-Settles w r md (refused e) h = λ k. h (ap refused k)
started-Settles w r md (began first stop rest) h = elim (Bool-cases r.stream) [
  | inl e ↦ rw e refl
  | inr e ↦ rw e (collect_response-Settles md (first ∷ []) rest)
]

attempt-Settles :
    (w : World)
    → IsPersisting w
    → (r : ChatRequest) (md : RequestMetadata) (t : RouteTarget) → Settles md (attempt w r md t)
unfolding attempt
attempt-Settles w h r md t =
    started-Settles w r md (w.begin t (or_default t.model r.model))
      (h.raised_elsewhere t (or_default t.model r.model))

module _ (w : World) (h : IsPersisting w) (md : RequestMetadata)
    (own : md.request_id ≡ w.request_id) where
  one :
      (a : Answer)
      → IsTraced w.request_id (begun md ∷ []) a
      → Traced w (observed w (begun md) (a, []))
  unfolding Traced
  one a k = subst (Traced w) (sym (observed_lem w (begun md) (a, []) (h.persisted _))) k

  two :
      (e : Event) (next : Run)
      → IsTraced w.request_id (begun md ∷ e ∷ next.1) next.0
      → Traced w (observed w (begun md) (observed w e next))
  unfolding Traced
  two e next k =
      let inner = observed_lem w e next (h.persisted e) in
      subst (Traced w)
        (sym (
          observed_lem w (begun md) (observed w e next) (h.persisted _)
          ∙ ap (λ run. (run.0, begun md ∷ run.1)) inner))
        k

  settle-IsTraced :
      (t : RouteTarget) (x : Response ⊎ Raised) (next : Run)
      → Settles md x
      → Traced w next
      → Traced w (observed w (begun md) (settle w md t x next))
  unfolding Traced settle Settles
  settle-IsTraced t (inl (collected m message reason usage)) next s k =
      two (finished md completed usage none) (responded (collected m message reason usage), [])
        (subst
          (λ x.
            IsTraced w.request_id (begun md ∷ finished md completed usage none ∷ [])
              (responded (collected x message reason usage)))
          (sym s) (answered md own message reason usage))
  settle-IsTraced t (inl (streaming m feed)) next s k = one (responded (streaming m feed)) (
      subst (λ x. IsTraced w.request_id (begun md ∷ []) (responded (streaming x feed))) (sym s)
        (streams md own feed))
  settle-IsTraced t (inr (cancellation usage)) next s k =
      two (finished md cancelled usage (some "request_cancelled")) (fails "request_cancelled", [])
        (stopped md own usage)
  settle-IsTraced t (inr invocation) next s k =
      two (finished md cancelled none (some "request_cancelled")) (fails "request_cancelled", [])
        (stopped md own none)
  settle-IsTraced t (inr lifecycle) next s k = absurd (s refl)
  settle-IsTraced t (inr (other error_type usage)) next s k =
      elim (Bool-cases (w.cancelled_after t)) [
        | inl e ↦ rw e (
            two (finished md cancelled usage (some "request_cancelled"))
              (fails "request_cancelled", []) (stopped md own usage))
        | inr e ↦ rw e (
            two (finished md failed usage (some error_type)) next
              (fell_back md own usage error_type k))
      ]

pub try_routes-IsTraced :
    (w : World)
    → IsPersisting w
    → (r : ChatRequest) (p : RequestPrincipal) (ts : List RouteTarget)
    → Traced w (try_routes w r p ts)
unfolding try_routes Traced
try_routes-IsTraced w h r p [] = exhausted
try_routes-IsTraced w h r p (t ∷ ts) = elim (Bool-cases (w.cancelled_before t)) [
  | inl e ↦
      rw (try_routes, e)
        (turn_away-IsTraced w h (some p) cancelled "request_cancelled" (some r.model)
          (some r.stream) refl)
  | inr e ↦
      rw (try_routes, e)
        (settle-IsTraced w h (metadata_of w r p t) refl t (attempt w r (metadata_of w r p t) t)
          (try_routes w r p ts) (attempt-Settles w h r (metadata_of w r p t) t)
          (try_routes-IsTraced w h r p ts))
]
