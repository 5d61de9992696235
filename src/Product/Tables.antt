-- ===== src/Product/Tables.antt =====
-- The tables of product/src/cyrene_exchange_product/store.py, with the principals of domain.py and
-- gateway.py.
use cyrene_exchange.Product.Resources.{GatewayEndpoint, RouteRow, Grant}
use cyrene_exchange.Prelude.{Uuid, Bool, String, ℕ, List, Option}
use cyrene_exchange.Outbox.Results.{ok, err, Result}

-- `ProductPrincipal`
pub record ProductPrincipal : Type 0 where
  pub actor_id : String
  pub workspace_id : String
  pub credential_ref : String
  pub organization_id : Option String

-- `RequestPrincipal`
pub record RequestPrincipal : Type 0 where
  pub actor_id : String
  pub workspace_id : String
  pub credential_ref : String
  pub model_scope : List String
  pub organization_id : Option String

-- A row of `api_credentials`. Only a server-generated key has an `api_key_id`. The JSON text of
-- `model_scope` is the list that it encodes.
pub record Credential : Type 0 where
  pub credential_ref : String
  pub token_digest : String
  pub actor_id : String
  pub workspace_id : String
  pub organization_id : Option String
  pub enabled : Bool
  pub created_at : ℕ
  pub api_key_id : Option Uuid
  pub name : Option String
  pub expires_at : Option ℕ
  pub revoked_at : Option ℕ
  pub model_scope : Option (List String)
  pub resource_version : ℕ

-- A row of `idempotency`.
pub record Mapping : Type 0 where
  pub scope : String
  pub key : String
  pub request_hash : String
  pub resource_id : Uuid

pub data AuditStatus : Type 0 where
  started completed failed cancelled rejected : AuditStatus

pub data UsageState : Type 0 where
  unknown partial final : UsageState

-- A row of `request_audits`.
pub record RequestAudit : Type 0 where
  pub request_id : String
  pub route_id : Option String
  pub binding_id : Option String
  pub model : Option String
  pub stream : Option Bool
  pub actor_id : Option String
  pub workspace_id : Option String
  pub credential_ref : Option String
  pub status : AuditStatus
  pub started_at : ℕ
  pub finished_at : Option ℕ
  pub usage_state : UsageState
  pub prompt_tokens : Option ℕ
  pub completion_tokens : Option ℕ
  pub total_tokens : Option ℕ
  pub usage_source : Option String
  pub error_type : Option String

pub record Store : Type 0 where
  pub endpoints : List GatewayEndpoint
  pub routes : List RouteRow
  pub grants : List Grant
  pub source_grants : List Grant
  pub credentials : List Credential
  pub idempotency : List Mapping
  pub audits : List RequestAudit

-- `ExchangeStore._mutation`
abbrev pub mutation : {A : Type 0} → (Store → Result (A × Store)) → Store → Result A × Store
mutation body s = elim (body s) [ ok (a, s') ↦ (ok a, s') | err e ↦ (err e, s) ]
