-- ===== src/Gateway/Recorded.antt =====
-- The request audits that the gateway leaves in the tables of Exchange Product.
use mathlib.Core.Path.{subst}
use cyrene_exchange.Gateway.Handled.{
  handle_openai_chat-IsTraced, Uncaught, checker_raised, parser_raised, resolver_raised,
}
use cyrene_exchange.Product.Usage.{begin_request-row, closed-finish_request}
use cyrene_exchange.Gateway.Bounds.{handle_openai_chat-attempts, attempts}
use cyrene_exchange.Gateway.Consumed.{stream_events, events_of, terminal_calls}
use cyrene_exchange.Gateway.StreamAudit.{
  stream_body-IsAudited, content, announced, closed, IsAudited,
}
use cyrene_exchange.Gateway.Stream.{Settings, Entry}
use cyrene_exchange.Gateway.Chat.{
  handle_openai_chat, begun, turned_away, finished, Answer, World, Event, ChatRequest,
  parser_raises, media_raises,
}
use cyrene_exchange.Gateway.Attempts.{
  IsPersisting, IsTraced, turned, answered, streams, stopped, fell_back, exhausted,
}
use cyrene_exchange.Prelude.{
  ◌∙◌, sym, eq_refl, ◌≢◌, fetchone_last, Option-cases, ap, any_of_fetchone, [], ◌∷◌, none, some,
  inl, inr, false, refl, ℕ, suc, ◌≡◌, ◌≤◌, ◌++◌, List, Option, String, Bool, any, fetchone, arith,
}
use cyrene_exchange.Outbox.Results.{Result-cases, Result}
use cyrene_exchange.Product.Audits.{
  started_audit, usage_values, closed_audit, rejected_audit, RequestMetadata, ProviderUsage,
  has_request, is_started, begin_request, finish_request, record_rejection,
}
use cyrene_exchange.Product.Tables.{
  failed, cancelled, completed, RequestPrincipal, Store, RequestAudit, AuditStatus,
}
use cyrene_exchange.Gateway.Recorder.{
  observed_token_usage_event, TokenUsageEvent, record_events, record_event,
}

-- The request has its row, and the row is closed.
abbrev pub IsClosed : String → Store → Type 0
IsClosed id s =
    (a : RequestAudit) × (fetchone (has_request id) s.audits ≡ some a)
    × (is_started a.status ≡ false)

-- A stream's calls of the observer: one, with a terminal status
IsAudited-finished :
    {commit : Bool} (md : RequestMetadata) {log : List Entry}
    → IsAudited commit log
    → (status : AuditStatus) × (u : Option ProviderUsage) × (e : Option String) × (is_started status
        ≡ false)
      × (terminal_calls md log ≡ finished md status u e ∷ [])
IsAudited-finished md (closed status u e ends) = (status, u, e, ends, refl)
IsAudited-finished md (announced u h) = (completed, u, none, refl, refl)
IsAudited-finished md (content item h rest) = IsAudited-finished md rest

module _ (id : String) (charge : Option (TokenUsageEvent → Result (Unit {0}))) where
  -- The billing client comes after the audit.
  finished-store :
      (now : ℕ) (md : RequestMetadata) (status : AuditStatus) (u : Option ProviderUsage)
      (e : Option String) (s : Store)
      → (record_event id charge now (finished md status u e) s).1
        ≡ (finish_request md status u e now s).1
  unfolding record_event
  finished-store now md status u e s = elim (Result-cases (finish_request md status u e now s).0) [
    | inl (x, h) ↦ rw (record_event, h) refl
    | inr (x, h) ↦ elim (Option-cases charge) [
      | inl k ↦ rw (record_event, h, k) refl
      | inr (client, k) ↦ elim (Option-cases (observed_token_usage_event md status u)) [
        | inl l ↦ rw (record_event, h, k, l) refl
        | inr (event, l) ↦ rw (record_event, h, k, l) refl
      ]
    ]
  ]

  -- A closed row stays.
  finished-IsClosed :
      (now : ℕ) (md : RequestMetadata) (status : AuditStatus) (u : Option ProviderUsage)
      (e : Option String) (s : Store)
      → md.request_id ≡ id
      → IsClosed id s
      → IsClosed id (record_event id charge now (finished md status u e) s).1
  finished-IsClosed now md status u e s own (a, found, ends) =
      let kept =
        ap (λ r. r.1)
          (closed-finish_request md status u e now s a
            (subst (λ i. fetchone (has_request i) s.audits ≡ some a) (sym own) found) ends) in
      subst (IsClosed id) (sym (finished-store now md status u e s ∙ kept)) (a, found, ends)

  turned_away-IsClosed :
      (now : ℕ) (p : Option RequestPrincipal) (status : AuditStatus) (error_type : String)
      (model : Option String) (stream : Option Bool) (s : Store)
      → IsClosed id s
      → IsClosed id (record_event id charge now (turned_away p status error_type model stream) s).1
  unfolding record_event record_rejection
  turned_away-IsClosed now p status error_type model stream s (a, found, ends) =
      let there = any_of_fetchone (has_request id) s.audits a found in rw there (a, found, ends)

  fresh-turned_away :
      (now : ℕ) (p : Option RequestPrincipal) (status : AuditStatus) (error_type : String)
      (model : Option String) (stream : Option Bool) (s : Store)
      → is_started status ≡ false
      → any (has_request id) s.audits ≡ false
      → IsClosed id (record_event id charge now (turned_away p status error_type model stream) s).1
  unfolding record_event record_rejection
  fresh-turned_away now p status error_type model stream s ends fresh =
      let row = rejected_audit id p status error_type model stream now in
      rw fresh (row, fetchone_last (has_request id) s.audits row fresh (eq_refl id), ends)

  -- A new request that is admitted and finished
  fresh-finished :
      (now now' : ℕ) (md : RequestMetadata) (status : AuditStatus) (u : Option ProviderUsage)
      (e : Option String) (s : Store)
      → md.request_id ≡ id
      → is_started status ≡ false
      → any (has_request id) s.audits ≡ false
      → IsClosed id
          (record_event id charge now'
            (finished md status u e)
            (record_event id charge now (begun md) s).1).1
  unfolding record_event
  fresh-finished now now' md status u e s own ends fresh =
      let row = closed_audit status (usage_values u) e now' (started_audit md now) in
      let fresh_md : any (has_request md.request_id) s.audits ≡ false =
        subst (λ i. any (has_request i) s.audits ≡ false) (sym own) fresh in
      let found = begin_request-row md status u e now now' s fresh_md in
      subst (IsClosed id) (sym (finished-store now' md status u e (begin_request md now s).1)) (
        row,
        subst
            (λ i.
              fetchone (has_request i)
                (finish_request md status u e now' (begin_request md now s).1).1.audits
              ≡ some row)
            own found,
        ends,
      )

  -- The rest of a request that has failed its only candidate
  rest-IsClosed :
      (clock : ℕ → ℕ) (n : ℕ) {es : List Event} {a : Answer} (c : Settings) (more : ℕ) (s : Store)
      → IsTraced id es a
      → attempts es ≤ 0
      → IsClosed id s
      → IsClosed id (record_events id charge clock n (es ++ stream_events c more a) s)
  unfolding record_events
  rest-IsClosed clock n c more s (turned p status e m b ends) bound h =
      turned_away-IsClosed (clock n) p status e m b s h
  rest-IsClosed clock n c more s (answered md own m r u) bound h = absurd (omega arith)
  rest-IsClosed clock n c more s (streams md own feed) bound h = absurd (omega arith)
  rest-IsClosed clock n c more s (stopped md own u) bound h = absurd (omega arith)
  rest-IsClosed clock n c more s (fell_back md own u e rest) bound h = absurd (omega arith)
  rest-IsClosed clock n c more s exhausted bound h = h

  trace-IsClosed :
      (clock : ℕ → ℕ) (n : ℕ) {es : List Event} {a : Answer} (c : Settings) (more : ℕ) (s : Store)
      → IsTraced id es a
      → es ≢ []
      → attempts es ≤ 1
      → any (has_request id) s.audits ≡ false
      → IsClosed id (record_events id charge clock n (es ++ stream_events c (suc more) a) s)
  unfolding record_events
  trace-IsClosed clock n c more s (turned p status e m b ends) some_event bound fresh =
      fresh-turned_away (clock n) p status e m b s ends fresh
  trace-IsClosed clock n c more s (answered md own m r u) some_event bound fresh =
      fresh-finished (clock n) (clock (suc n)) md completed u none s own refl fresh
  trace-IsClosed clock n c more s (streams md own feed) some_event bound fresh =
      let (status, u, e, ends, calls) = IsAudited-finished md (stream_body-IsAudited c feed more) in
      rw calls (fresh-finished (clock n) (clock (suc n)) md status u e s own ends fresh)
  trace-IsClosed clock n c more s (stopped md own u) some_event bound fresh =
      fresh-finished (clock n) (clock (suc n)) md cancelled u (some "request_cancelled") s own refl
        fresh
  trace-IsClosed clock n c more s (fell_back md own u e rest) some_event bound fresh =
      rest-IsClosed clock (suc (suc n)) c (suc more) _ rest (omega arith)
        (fresh-finished (clock n) (clock (suc n)) md failed u (some e) s own refl fresh)
  trace-IsClosed clock n c more s exhausted some_event bound fresh = absurd (some_event refl)

-- The quota checker raises `QuotaExceededError` or `QuotaUnavailableError` or nothing, the parser
-- `ProtocolError` or nothing, and the media resolver `RequestCancelled`,
-- `MediaArtifactUnavailableError` or nothing.
pub record IsContained (w : World) : Type 0 where
  pub checker : (p : RequestPrincipal) → w.quota p ≢ none
  pub parser : w.parsed ≢ parser_raises
  pub resolver : (r : ChatRequest) (p : RequestPrincipal) → w.media r p ≢ media_raises

contained : (w : World) → IsContained w → Uncaught w → ⊥
contained w k (checker_raised p known e) = k.checker p e
contained w k (parser_raised p known within e) = k.parser e
contained w k (resolver_raised p r known within asked e) = k.resolver r p e

-- For a gateway with one attempt per request, as Product builds it, whose observer is Product's
-- recorder, while the calls of the observer return and no provider raises the gateway's own lifecycle
-- error, and unless the quota checker, the parser or the media resolver raises an exception that the
-- handler does not catch: after a chat request under a new id, the stream of which, if it has one, is
-- read at least once, `request_audits` has a row of that id, and the row is in a terminal state.
pub handle_openai_chat-IsClosed :
    (w : World) (c : Settings) (more : ℕ) (charge : Option (TokenUsageEvent → Result (Unit {0})))
    (clock : ℕ → ℕ) (n : ℕ) (s : Store)
    → IsPersisting w
    → IsContained w
    → w.max_route_attempts ≡ 1
    → any (has_request w.request_id) s.audits ≡ false
    → IsClosed w.request_id (record_events w.request_id charge clock n (events_of c (suc more) w) s)
handle_openai_chat-IsClosed w c more charge clock n s h k once fresh =
    let bound : attempts (handle_openai_chat w).1 ≤ 1 =
      subst (λ m. attempts (handle_openai_chat w).1 ≤ m) once (handle_openai_chat-attempts w) in
    elim (handle_openai_chat-IsTraced w h) [
      | inl (traced, some_event) ↦
          trace-IsClosed w.request_id charge clock n c more s traced some_event bound fresh
      | inr (u, no_event, answer) ↦ absurd (contained w k u)
    ]
