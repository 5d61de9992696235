-- ===== src/Product/Audits.antt =====
-- Request audits: `begin_request`, `record_rejection`, `finish_request` and `_usage_values` of
-- product/src/cyrene_exchange_product/store.py.
use cyrene_exchange.Product.Tables.{
  started, RequestPrincipal, UsageState, Store, RequestAudit, AuditStatus,
}
use cyrene_exchange.Prelude.{
  ◌||◌, ◌++◌, ◌&&◌, not, any, str_eq, map, if◌then◌else◌, fetchone, String, Bool, [], ◌∷◌, none,
  some, true, false, ℕ, List, Option,
}
use cyrene_exchange.Outbox.Results.{conflict, not_found, ok, err, Result}

-- `RequestMetadata` of src/cyrene_exchange/gateway.py
pub record RequestMetadata : Type 0 where
  pub request_id : String
  pub model : String
  pub stream : Bool
  pub route_id : String
  pub provider_ref : String
  pub principal : RequestPrincipal

-- `ProviderUsage` of src/cyrene_exchange/gateway.py
pub record ProviderUsage : Type 0 where
  pub prompt_tokens : Option ℕ
  pub completion_tokens : Option ℕ
  pub total_tokens : Option ℕ
  pub source : String

-- What an audit keeps of the usage.
pub record UsageValues : Type 0 where
  pub state : UsageState
  pub prompt : Option ℕ
  pub completion : Option ℕ
  pub total : Option ℕ
  pub origin : Option String

abbrev pub is_present : Option ℕ → Bool
is_present none = false
is_present (some n) = true

unfoldable pub usage_values : Option ProviderUsage → UsageValues
usage_values none = record {
  state = UsageState.unknown;
  prompt = none;
  completion = none;
  total = none;
  origin = none;
}
usage_values (some u) = record {
  state =
      if not (
        is_present u.prompt_tokens || (is_present u.completion_tokens || is_present u.total_tokens))
      then UsageState.unknown
      else if is_present u.prompt_tokens && is_present u.completion_tokens
      then UsageState.final
      else UsageState.partial;
  prompt = u.prompt_tokens;
  completion = u.completion_tokens;
  total = u.total_tokens;
  origin = some u.source;
}

abbrev pub has_request : String → RequestAudit → Bool
has_request id a = str_eq a.request_id id

abbrev pub started_audit : RequestMetadata → ℕ → RequestAudit
started_audit m now = record {
  request_id = m.request_id;
  route_id = some m.route_id;
  binding_id = some m.provider_ref;
  model = some m.model;
  stream = some m.stream;
  actor_id = some m.principal.actor_id;
  workspace_id = some m.principal.workspace_id;
  credential_ref = some m.principal.credential_ref;
  status = started;
  started_at = now;
  finished_at = none;
  usage_state = UsageState.unknown;
  prompt_tokens = none;
  completion_tokens = none;
  total_tokens = none;
  usage_source = none;
  error_type = none;
}

-- `begin_request`: the IntegrityError of the primary key is turned into a conflict.
unfoldable pub begin_request : RequestMetadata → ℕ → Store → Result (Unit {0}) × Store
begin_request m now s =
    if any (has_request m.request_id) s.audits
    then (err (conflict "EXCHANGE_REQUEST_AUDIT_CONFLICT"), s)
    else (ok tt, record s { audits = s.audits ++ started_audit m now ∷ [] })

abbrev pub rejected_audit :
    String
    → Option RequestPrincipal
    → AuditStatus
    → String
    → Option String
    → Option Bool
    → ℕ
    → RequestAudit
rejected_audit request_id principal status error_type model stream now = record {
  request_id = request_id;
  route_id = none;
  binding_id = none;
  model = model;
  stream = stream;
  actor_id = elim principal [ none ↦ none | some p ↦ some p.actor_id ];
  workspace_id = elim principal [ none ↦ none | some p ↦ some p.workspace_id ];
  credential_ref = elim principal [ none ↦ none | some p ↦ some p.credential_ref ];
  status = status;
  started_at = now;
  finished_at = some now;
  usage_state = UsageState.unknown;
  prompt_tokens = none;
  completion_tokens = none;
  total_tokens = none;
  usage_source = none;
  error_type = some error_type;
}

-- `record_rejection`: `INSERT … ON CONFLICT(request_id) DO NOTHING`
unfoldable pub record_rejection :
    String
    → Option RequestPrincipal
    → AuditStatus
    → String
    → Option String
    → Option Bool
    → ℕ
    → Store
    → Store
record_rejection request_id principal status error_type model stream now s =
    if any (has_request request_id) s.audits then s else record s {
      audits =
          s.audits ++ rejected_audit request_id principal status error_type model stream now ∷ [];
    }

abbrev pub is_started : AuditStatus → Bool
is_started started = true
is_started _ = false

abbrev pub closed_audit :
    AuditStatus → UsageValues → Option String → ℕ → RequestAudit → RequestAudit
closed_audit status u error_type now a = record a {
  status = status;
  finished_at = some now;
  usage_state = u.state;
  prompt_tokens = u.prompt;
  completion_tokens = u.completion;
  total_tokens = u.total;
  usage_source = u.origin;
  error_type = error_type;
}

-- `UPDATE request_audits SET … WHERE request_id = ? AND status = ?`
abbrev pub close_audits :
    String → AuditStatus → UsageValues → Option String → ℕ → List RequestAudit → List RequestAudit
close_audits id status u error_type now = map (λ a.
    if has_request id a && is_started a.status then closed_audit status u error_type now a else a)

unfoldable pub finish_request :
    RequestMetadata
    → AuditStatus
    → Option ProviderUsage
    → Option String
    → ℕ
    → Store
    → Result (Unit {0}) × Store
finish_request m status usage error_type now s =
    elim (fetchone (has_request m.request_id) s.audits) [
      | none ↦ (err (not_found "EXCHANGE_REQUEST_AUDIT_NOT_FOUND"), s)
      | some a ↦
          if is_started a.status
          then (
            ok tt,
            record s {
              audits =
                  close_audits m.request_id status (usage_values usage) error_type now s.audits;
            },
          )
          else (ok tt, s)
    ]
