-- ===== src/Gateway/Handled.antt =====
-- The events that a chat request leaves with the observer, however it ends: `handle_openai_chat` of
-- src/cyrene_exchange/gateway.py.
use cyrene_exchange.Product.Audits.{is_started}
use mathlib.Core.Path.{subst}
use cyrene_exchange.Prelude.{
  ◌⊎◌, refl, ◌≡◌, if◌then◌else◌, sym, [], ◌∷◌, none, some, inl, inr, true, false, ◌≢◌, List, Option,
  String, Bool, Bool-cases, take,
}
use cyrene_exchange.Product.Tables.{AuditStatus, cancelled, rejected, RequestPrincipal}
use cyrene_exchange.Product.Quotas.{Admission, admitted, exceeded, unavailable}
use cyrene_exchange.Product.Routes.Planner.{RouteTarget}
use cyrene_exchange.Gateway.Chat.{
  protocol_error, parsed_as, media_raises, parser_raises, escapes, Parsing, permits, turn_away,
  try_routes, route, observed, admit, ChatRequest, Event, Media, ready, media_cancelled,
  media_unavailable, World, Run, handle_openai_chat,
}
use cyrene_exchange.Gateway.Attempts.{
  observed_lem, turn_away-IsTraced, try_routes-IsTraced, IsPersisting, IsTraced, Traced,
}

-- An exception that the handler does not catch: of the quota checker, the parser or the media resolver
pub data Uncaught (w : World) : Type 0 where
  checker_raised : (p : RequestPrincipal) → w.principal ≡ some p → w.quota p ≡ none → Uncaught w
  parser_raised :
      (p : RequestPrincipal)
      → w.principal ≡ some p
      → w.quota p ≡ some admitted
      → w.parsed ≡ parser_raises
      → Uncaught w
  resolver_raised :
      (p : RequestPrincipal) (r : ChatRequest)
      → w.principal ≡ some p
      → w.quota p ≡ some admitted
      → w.parsed ≡ parsed_as r
      → w.media r p ≡ media_raises
      → Uncaught w

Audited : World → Run → Type 0
Audited w run = (Traced w run × (run.1 ≢ [])) ⊎ (Uncaught w × (run.1 ≡ []) × (run.0 ≡ escapes))

pub cons≢nil : {e : Event} {es : List Event} → e ∷ es ≢ []
cons≢nil h = cc

observed≢nil : (w : World) → IsPersisting w → (e : Event) (next : Run) → (observed w e next).1 ≢ []
observed≢nil w h e next =
    subst (λ run. run.1 ≢ []) (sym (observed_lem w e next (h.persisted e))) cons≢nil

-- The principal is known and within its quota.
abbrev Admits : World → RequestPrincipal → Type 0
Admits w p = (w.principal ≡ some p) × (w.quota p ≡ some admitted)

module _ (w : World) (h : IsPersisting w) where
  turn_away-Audited :
      (p : Option RequestPrincipal) (status : AuditStatus) (error_type : String)
      (model : Option String) (stream : Option Bool)
      → is_started status ≡ false
      → Audited w (turn_away w p status error_type model stream)
  unfolding Audited turn_away
  turn_away-Audited p status error_type model stream ends =
      inl (turn_away-IsTraced w h p status error_type model stream ends, observed≢nil w h _ _)

  uncaught : Uncaught w → Audited w (escapes, [])
  unfolding Audited
  uncaught u = inr (u, refl, refl)

  try_routes-Audited :
      (r : ChatRequest) (p : RequestPrincipal) (t : RouteTarget) (ts : List RouteTarget)
      → Audited w (try_routes w r p (t ∷ ts))
  unfolding Audited try_routes turn_away
  try_routes-Audited r p t ts = inl (
    try_routes-IsTraced w h r p (t ∷ ts),
    elim (Bool-cases (w.cancelled_before t)) [
      | inl e ↦ rw (try_routes, e) (observed≢nil w h _ _)
      | inr e ↦ rw (try_routes, e) (observed≢nil w h _ _)
    ],
  )

  media-Audited :
      (r : ChatRequest) (p : RequestPrincipal) (t : RouteTarget) (ts : List RouteTarget) (m : Media)
      → Admits w p
      → w.parsed ≡ parsed_as r
      → w.media r p ≡ m
      → Audited w (elim m [
        | ready ↦ try_routes w r p (t ∷ ts)
        | media_cancelled ↦
            turn_away w (some p) cancelled "request_cancelled" (some r.model) (some r.stream)
        | media_unavailable ↦
            turn_away w
              (some p)
              rejected
              "media_artifact_unavailable"
              (some r.model)
              (some r.stream)
        | media_raises ↦ (escapes, [])
      ])
  media-Audited r p t ts media_raises a d e = uncaught (resolver_raised p r a.0 a.1 d e)
  media-Audited r p t ts ready a d e = try_routes-Audited r p t ts
  media-Audited r p t ts media_cancelled a d e = turn_away-Audited _ _ _ _ _ refl
  media-Audited r p t ts media_unavailable a d e = turn_away-Audited _ _ _ _ _ refl

  route-Audited :
      (r : ChatRequest) (p : RequestPrincipal) (ts : List RouteTarget)
      → Admits w p
      → w.parsed ≡ parsed_as r
      → Audited w (route w r p ts)
  unfolding route
  route-Audited r p [] a d = turn_away-Audited _ _ _ _ _ refl
  route-Audited r p (t ∷ ts) a d = media-Audited r p t ts (w.media r p) a d refl

  if-Audited : (b : Bool) (x y : Run) → Audited w x → Audited w y → Audited w (if b then x else y)
  if-Audited true x y hx hy = hx
  if-Audited false x y hx hy = hy

  planned-Audited :
      (r : ChatRequest) (p : RequestPrincipal) (plan : Option (List RouteTarget))
      → Admits w p
      → w.parsed ≡ parsed_as r
      → Audited w (elim plan [
        | none ↦ turn_away w (some p) rejected "no_route" (some r.model) (some r.stream)
        | some targets ↦ route w r p (take w.max_route_attempts targets)
      ])
  planned-Audited r p none a d = turn_away-Audited _ _ _ _ _ refl
  planned-Audited r p (some targets) a d = route-Audited r p (take w.max_route_attempts targets) a d

  parsed-Audited :
      (p : RequestPrincipal) (parsed : Parsing ChatRequest)
      → Admits w p
      → w.parsed ≡ parsed
      → Audited w (elim parsed [
        | parser_raises ↦ (escapes, [])
        | protocol_error ↦
            turn_away w (some p) rejected "invalid_request_error" w.payload_model w.payload_stream
        | parsed_as r ↦
            if permits w.fnmatchcase p r.model
            then elim (w.planned r p) [
              | none ↦ turn_away w (some p) rejected "no_route" (some r.model) (some r.stream)
              | some targets ↦ route w r p (take w.max_route_attempts targets)
            ]
            else turn_away w (some p) rejected "model_not_permitted" (some r.model) (some r.stream)
      ])
  parsed-Audited p parser_raises a e = uncaught (parser_raised p a.0 a.1 e)
  parsed-Audited p protocol_error a e = turn_away-Audited _ _ _ _ _ refl
  parsed-Audited p (parsed_as r) a e =
      if-Audited (permits w.fnmatchcase p r.model) _ _ (planned-Audited r p (w.planned r p) a e)
        (turn_away-Audited _ _ _ _ _ refl)

  admit-Audited : (p : RequestPrincipal) → Admits w p → Audited w (admit w p)
  unfolding admit
  admit-Audited p a =
      if-Audited w.cancelled_before_routing _ _ (turn_away-Audited _ _ _ _ _ refl)
        (parsed-Audited p w.parsed a refl)

  quota-Audited :
      (p : RequestPrincipal) (a : Option Admission)
      → w.principal ≡ some p
      → w.quota p ≡ a
      → Audited w (elim a [
        | none ↦ (escapes, [])
        | some admission ↦ elim admission [
          | admitted ↦ admit w p
          | exceeded ↦
              turn_away w (some p) rejected "quota_exceeded" w.payload_model w.payload_stream
          | unavailable ↦
              turn_away w (some p) rejected "quota_unavailable" w.payload_model w.payload_stream
        ]
      ])
  quota-Audited p none known e = uncaught (checker_raised p known e)
  quota-Audited p (some admitted) known e = admit-Audited p (known, e)
  quota-Audited p (some exceeded) known e = turn_away-Audited _ _ _ _ _ refl
  quota-Audited p (some unavailable) known e = turn_away-Audited _ _ _ _ _ refl

  principal-Audited :
      (o : Option RequestPrincipal)
      → w.principal ≡ o
      → Audited w (elim o [
        | none ↦ turn_away w none rejected "authentication_error" w.payload_model w.payload_stream
        | some p ↦ elim (w.quota p) [
          | none ↦ (escapes, [])
          | some admission ↦ elim admission [
            | admitted ↦ admit w p
            | exceeded ↦
                turn_away w (some p) rejected "quota_exceeded" w.payload_model w.payload_stream
            | unavailable ↦
                turn_away w (some p) rejected "quota_unavailable" w.payload_model w.payload_stream
          ]
        ]
      ])
  principal-Audited none e = turn_away-Audited _ _ _ _ _ refl
  principal-Audited (some p) e = quota-Audited p (w.quota p) e refl

  handled : Audited w (handle_openai_chat w)
  unfolding handle_openai_chat
  handled = principal-Audited w.principal refl

-- While the calls of the observer return and no provider raises the gateway's own lifecycle error, a
-- chat request leaves at least one event with the observer, and its events are a trace of `IsTraced`:
-- each candidate that was begun is finished before the next one is begun or the request ends, but for
-- that of a streamed answer; a request that was not begun is turned away with the error that it raises.
-- The one other end, without any event, is an exception that the handler does not catch: of the quota
-- checker for the principal, of the parser for a principal within its quota, or of the media resolver
-- for the parsed request.
pub handle_openai_chat-IsTraced :
    (w : World)
    → IsPersisting w
    → (IsTraced w.request_id (handle_openai_chat w).1 (handle_openai_chat w).0
        × ((handle_openai_chat w).1 ≢ []))
      ⊎ (Uncaught w × ((handle_openai_chat w).1 ≡ []) × ((handle_openai_chat w).0 ≡ escapes))
unfolding Audited Traced
handle_openai_chat-IsTraced w h = handled w h
