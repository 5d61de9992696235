-- ===== src/Gateway/Bounds.antt =====
-- How many providers a chat request calls: `max_route_attempts` of `handle_openai_chat` in
-- src/cyrene_exchange/gateway.py.
use cyrene_exchange.Prelude.{
  ◌⊎◌, if◌then◌else◌, Option-cases, [], ◌∷◌, none, some, inl, inr, true, false, ℕ, zero, suc, ◌≤◌,
  List, Option, String, Bool, Bool-cases, length, arith, take,
}
use cyrene_exchange.Product.Audits.{RequestMetadata}
use cyrene_exchange.Product.Tables.{rejected, cancelled, AuditStatus, RequestPrincipal}
use cyrene_exchange.Product.Quotas.{Admission, admitted, exceeded, unavailable}
use cyrene_exchange.Product.Routes.Planner.{RouteTarget}
use cyrene_exchange.Gateway.Chat.{
  media_raises, parsed_as, protocol_error, parser_raises, escapes, Parsing, attempt, metadata_of,
  permits, turn_away, try_routes, settle, route, observed, admit, ChatRequest, Raised, cancellation,
  invocation, lifecycle, other, Response, collected, streaming, Event, turned_away, begun, finished,
  Media, ready, media_cancelled, media_unavailable, World, Run, handle_openai_chat,
}

abbrev pub attempts : List Event → ℕ
attempts [] = 0
attempts (begun md ∷ es) = suc (attempts es)
attempts (turned_away p s e m b ∷ es) = attempts es
attempts (finished md s u e ∷ es) = attempts es

observed-attempts :
    (w : World) (e : Event) (next : Run) (n : ℕ)
    → attempts (e ∷ next.1) ≤ n
    → attempts (observed w e next).1 ≤ n
unfolding observed
observed-attempts w e next n h = elim (Bool-cases (w.persists e)) [
  | inl k ↦ rw k h
  | inr k ↦ rw k (omega arith)
]

turn_away-attempts :
    (w : World) (p : Option RequestPrincipal) (status : AuditStatus) (error_type : String)
    (model : Option String) (stream : Option Bool) (n : ℕ)
    → attempts (turn_away w p status error_type model stream).1 ≤ n
unfolding turn_away
turn_away-attempts w p status error_type model stream n = observed-attempts w _ _ n (omega arith)

settle-attempts :
    (w : World) (md : RequestMetadata) (t : RouteTarget) (x : Response ⊎ Raised) (next : Run)
    (n : ℕ)
    → attempts next.1 ≤ n
    → attempts (settle w md t x next).1 ≤ n
unfolding settle
settle-attempts w md t (inl (collected m message reason usage)) next n h =
    observed-attempts w _ _ n (omega arith)
settle-attempts w md t (inl (streaming m feed)) next n h = omega arith
settle-attempts w md t (inr (cancellation usage)) next n h = observed-attempts w _ _ n (omega arith)
settle-attempts w md t (inr invocation) next n h = observed-attempts w _ _ n (omega arith)
settle-attempts w md t (inr lifecycle) next n h = omega arith
settle-attempts w md t (inr (other error_type usage)) next n h =
    elim (Bool-cases (w.cancelled_after t)) [
      | inl e ↦ rw e (observed-attempts w _ _ n (omega arith))
      | inr e ↦ rw e (observed-attempts w _ _ n h)
    ]

try_routes-attempts :
    (w : World) (r : ChatRequest) (p : RequestPrincipal) (ts : List RouteTarget)
    → attempts (try_routes w r p ts).1 ≤ length ts
unfolding try_routes
try_routes-attempts w r p [] = omega arith
try_routes-attempts w r p (t ∷ ts) = elim (Bool-cases (w.cancelled_before t)) [
  | inl e ↦ rw (try_routes, e) (turn_away-attempts w _ _ _ _ _ _)
  | inr e ↦
      rw (try_routes, e)
        (observed-attempts w _ _ _ (
          omega (
            arith,
            settle-attempts w (metadata_of w r p t) t (attempt w r (metadata_of w r p t) t)
                (try_routes w r p ts) (length ts) (try_routes-attempts w r p ts),
          )))
]

-- A run that begins at most `n` candidates
Within : ℕ → Run → Type 0
Within n run = attempts run.1 ≤ n

pub take-length {ℓ} : {A : Type ℓ} (n : ℕ) (xs : List A) → length (take n xs) ≤ n
take-length zero xs = omega arith
take-length (suc n) [] = omega arith
take-length (suc n) (x ∷ xs) = let rest = take-length n xs in omega arith

module _ (w : World) where
  turn_away-Within :
      (p : Option RequestPrincipal) (status : AuditStatus) (error_type : String)
      (model : Option String) (stream : Option Bool)
      → Within w.max_route_attempts (turn_away w p status error_type model stream)
  unfolding Within
  turn_away-Within p status error_type model stream =
      turn_away-attempts w p status error_type model stream w.max_route_attempts

  if-Within :
      (b : Bool) (x y : Run)
      → Within w.max_route_attempts x
      → Within w.max_route_attempts y
      → Within w.max_route_attempts (if b then x else y)
  if-Within true x y hx hy = hx
  if-Within false x y hx hy = hy

  media-Within :
      (r : ChatRequest) (p : RequestPrincipal) (t : RouteTarget) (ts : List RouteTarget) (m : Media)
      → length (t ∷ ts) ≤ w.max_route_attempts
      → Within w.max_route_attempts (elim m [
        | ready ↦ try_routes w r p (t ∷ ts)
        | media_cancelled ↦
            turn_away w (some p) cancelled "request_cancelled" (some r.model) (some r.stream)
        | media_unavailable ↦
            turn_away w
              (some p)
              rejected
              "media_artifact_unavailable"
              (some r.model)
              (some r.stream)
        | media_raises ↦ (escapes, [])
      ])
  unfolding Within
  media-Within r p t ts ready h = let bound = try_routes-attempts w r p (t ∷ ts) in omega arith
  media-Within r p t ts media_cancelled h = turn_away-Within _ _ _ _ _
  media-Within r p t ts media_unavailable h = turn_away-Within _ _ _ _ _
  media-Within r p t ts media_raises h = omega arith

  route-Within :
      (r : ChatRequest) (p : RequestPrincipal) (ts : List RouteTarget)
      → length ts ≤ w.max_route_attempts
      → Within w.max_route_attempts (route w r p ts)
  unfolding route
  route-Within r p [] h = turn_away-Within _ _ _ _ _
  route-Within r p (t ∷ ts) h = media-Within r p t ts (w.media r p) h

  planned-Within :
      (r : ChatRequest) (p : RequestPrincipal) (plan : Option (List RouteTarget))
      → Within w.max_route_attempts (elim plan [
        | none ↦ turn_away w (some p) rejected "no_route" (some r.model) (some r.stream)
        | some targets ↦ route w r p (take w.max_route_attempts targets)
      ])
  planned-Within r p none = turn_away-Within _ _ _ _ _
  planned-Within r p (some targets) =
      route-Within r p (take w.max_route_attempts targets)
        (take-length w.max_route_attempts targets)

  parsed-Within :
      (p : RequestPrincipal) (parsed : Parsing ChatRequest)
      → Within w.max_route_attempts (elim parsed [
        | parser_raises ↦ (escapes, [])
        | protocol_error ↦
            turn_away w (some p) rejected "invalid_request_error" w.payload_model w.payload_stream
        | parsed_as r ↦
            if permits w.fnmatchcase p r.model
            then elim (w.planned r p) [
              | none ↦ turn_away w (some p) rejected "no_route" (some r.model) (some r.stream)
              | some targets ↦ route w r p (take w.max_route_attempts targets)
            ]
            else turn_away w (some p) rejected "model_not_permitted" (some r.model) (some r.stream)
      ])
  unfolding Within
  parsed-Within p parser_raises = omega arith
  parsed-Within p protocol_error = turn_away-Within _ _ _ _ _
  parsed-Within p (parsed_as r) =
      if-Within (permits w.fnmatchcase p r.model) _ _ (planned-Within r p (w.planned r p))
        (turn_away-Within _ _ _ _ _)

  quota-Within :
      (p : RequestPrincipal) (a : Option Admission)
      → Within w.max_route_attempts (elim a [
        | none ↦ (escapes, [])
        | some admission ↦ elim admission [
          | admitted ↦ admit w p
          | exceeded ↦
              turn_away w (some p) rejected "quota_exceeded" w.payload_model w.payload_stream
          | unavailable ↦
              turn_away w (some p) rejected "quota_unavailable" w.payload_model w.payload_stream
        ]
      ])
  unfolding admit Within
  quota-Within p none = omega arith
  quota-Within p (some admitted) =
      if-Within w.cancelled_before_routing _ _ (turn_away-Within _ _ _ _ _)
        (parsed-Within p w.parsed)
  quota-Within p (some exceeded) = turn_away-Within _ _ _ _ _
  quota-Within p (some unavailable) = turn_away-Within _ _ _ _ _

  handled-Within : Within w.max_route_attempts (handle_openai_chat w)
  unfolding handle_openai_chat
  handled-Within = elim (Option-cases w.principal) [
    | inl e ↦ rw (handle_openai_chat, e) (turn_away-Within _ _ _ _ _)
    | inr (p, e) ↦ rw (handle_openai_chat, e) (quota-Within p (w.quota p))
  ]

-- A chat request begins at most `max_route_attempts` candidates, whatever they answer and whether or
-- not the calls of the observer return.
pub handle_openai_chat-attempts :
    (w : World) → attempts (handle_openai_chat w).1 ≤ w.max_route_attempts
unfolding Within
handle_openai_chat-attempts w = handled-Within w
