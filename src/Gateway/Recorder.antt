-- ===== src/Gateway/Recorder.antt =====
-- The observer of Exchange Product: `RequestAuditRecorder` of
-- product/src/cyrene_exchange_product/audit.py without an activity source, and
-- `observed_token_usage_event` of src/cyrene_exchange/billing.py.
use cyrene_exchange.Gateway.Stream.{serialized}
use cyrene_exchange.Prelude.{suc, [], ◌∷◌, none, some, ℕ, List, Option, String}
use cyrene_exchange.Outbox.Results.{ok, err, Result}
use cyrene_exchange.Product.Audits.{
  RequestMetadata, ProviderUsage, begin_request, finish_request, record_rejection,
}
use cyrene_exchange.Product.Tables.{Store, AuditStatus}
use cyrene_exchange.Gateway.Chat.{Event, turned_away, begun, finished}

pub record TokenUsageEvent : Type 0 where
  pub request_id : String
  pub tenant_id : String
  pub workspace_id : String
  pub model : String
  pub request_status : AuditStatus
  pub prompt_tokens : Option ℕ
  pub completion_tokens : Option ℕ
  pub total_tokens : Option ℕ
  pub usage_source : String

-- An event only when a count is known
unfoldable pub observed_token_usage_event :
    RequestMetadata → AuditStatus → Option ProviderUsage → Option TokenUsageEvent
observed_token_usage_event m status none = none
observed_token_usage_event m status (some u) = elim (serialized (some u)) [
  | none ↦ none
  | some d ↦ some (record {
    request_id = m.request_id;
    tenant_id = m.principal.actor_id;
    workspace_id = m.principal.workspace_id;
    model = m.model;
    request_status = status;
    prompt_tokens = u.prompt_tokens;
    completion_tokens = u.completion_tokens;
    total_tokens = u.total_tokens;
    usage_source = u.source;
  })
]

-- One callback: its result, and the tables that it leaves. `charge` is what `record_token_usage` of
-- the billing client does, if there is a client; it comes after the audit was committed.
unfoldable pub record_event :
    String
    → (Option (TokenUsageEvent → Result (Unit {0})))
    → ℕ
    → Event
    → Store
    → Result (Unit {0}) × Store
record_event request_id charge now (turned_away p status error_type model stream) s =
    (ok tt, record_rejection request_id p status error_type model stream now s)
record_event request_id charge now (begun m) s = begin_request m now s
record_event request_id charge now (finished m status usage error_type) s =
    let (r, s') = finish_request m status usage error_type now s in
    elim r [
      | err e ↦ (err e, s')
      | ok u ↦ elim charge [
        | none ↦ (ok tt, s')
        | some client ↦ elim (observed_token_usage_event m status usage) [
          | none ↦ (ok tt, s')
          | some event ↦ (client event, s')
        ]
      ]
    ]

-- The callbacks of one request, each at the time that the clock then shows; the tables after them
unfoldable pub record_events :
    String
    → (Option (TokenUsageEvent → Result (Unit {0})))
    → (ℕ → ℕ)
    → ℕ
    → List Event
    → Store
    → Store
record_events request_id charge clock n [] s = s
record_events request_id charge clock n (e ∷ es) s =
    record_events request_id charge clock (suc n) es
      (record_event request_id charge (clock n) e s).1
