-- ===== src/Product/Tests.antt =====
-- The theorems on credentials, audits and quotas at concrete tables.
use cyrene_exchange.Product.Distinct.{credentials-IsKeyed}
use cyrene_exchange.Product.Replay.{create_api_key-conflict, create_api_key-replay}
use cyrene_exchange.Product.Isolation.{
  IsKeyed, revoked-resolve_data_plane_credential, control-resolve_data_plane_credential,
}
use cyrene_exchange.Product.Admissions.{quota_guard-admits, IsWithin}
use cyrene_exchange.Product.Usage.{begin_request-finish_request, finish_request_once, IsRecorded}
use cyrene_exchange.Product.Quotas.{admitted, quota_guard, get_tenant_quota, TenantQuota}
use cyrene_exchange.Product.Credentials.{
  disable_credential, configure_credentials, resolve_data_plane_credential, request_principal,
  configured, resolve_product_credential,
}
use cyrene_exchange.Product.Audits.{
  begin_request, has_request, started_audit, finish_request, RequestMetadata, ProviderUsage,
}
use cyrene_exchange.Prelude.{
  ◌++◌, ◌⊎◌, ◌↔◌, any, fetchone, String, [], ◌∷◌, none, some, false, refl, ◌≡◌,
}
use cyrene_exchange.Outbox.Results.{conflict, err, ok}
use cyrene_exchange.Product.Keys.{
  insert_mapping, revoke_api_key, insert_credential, resolve_idempotency, credential_row,
  create_body, create_api_key, ApiKey, active,
}
use cyrene_exchange.Product.Tables.{RequestAudit, Store, ProductPrincipal, completed, failed}

abbrev sha256 : String → String
sha256 token = token

abbrev api_key : ApiKey
api_key = record {
  id = 5;
  name = "key";
  credential_ref = "api-key://5";
  actor_id = "actor";
  workspace_id = "workspace";
  organization_id = none;
  state = active;
  model_scope = "gpt-*" ∷ [];
  created_at = 1;
  updated_at = 1;
  expires_at = none;
  revoked_at = none;
  resource_version = 1;
}

abbrev operator : ProductPrincipal
operator = record {
  actor_id = "operator";
  workspace_id = "workspace";
  credential_ref = "control://1";
  organization_id = some "org";
}

abbrev store : Store
store = record {
  endpoints = [];
  routes = [];
  grants = [];
  source_grants = [];
  credentials = configured operator "control-token" 1 ∷ [];
  idempotency = [];
  audits = [];
}

abbrev stored : Store
stored = (create_api_key api_key "secret" (some "once") "digest" "create-api-key" 2 store).1

abbrev other_key : ApiKey
other_key = record api_key { id = 6; credential_ref = "api-key://6" }

create_api_key-replay_example :
    (x : ApiKey) × (create_api_key other_key "other"
        (some "once")
        "digest"
        "create-api-key"
        3
        stored
      ≡ (ok (x, false), stored))
    × (x.id ≡ 5)
unfolding create_api_key create_body resolve_idempotency fetchone insert_credential any
    insert_mapping
create_api_key-replay_example =
    create_api_key-replay api_key other_key "secret" "other" "once" "digest" "create-api-key" 2 3
      store api_key stored refl

create_api_key-conflict_example :
    create_api_key other_key "other" (some "once") "changed" "create-api-key" 3 stored
    ≡ (err (conflict "EXCHANGE_IDEMPOTENCY_CONFLICT"), stored)
unfolding create_api_key create_body resolve_idempotency fetchone insert_credential any
    insert_mapping
create_api_key-conflict_example =
    create_api_key-conflict api_key other_key "secret" "other" "once" "digest" "changed"
      "create-api-key" 2 3 store api_key stored refl refl

control-resolve_data_plane_credential_example :
    resolve_data_plane_credential sha256 "control-token" ("gateway-token" ∷ []) 9 store ≡ none
unfolding resolve_product_credential fetchone any
control-resolve_data_plane_credential_example =
    control-resolve_data_plane_credential sha256 "control-token" ("gateway-token" ∷ []) 9 store
      operator (refl, tt) refl refl

abbrev keyed : Store
keyed = record store { credentials = credential_row api_key "secret" 2 ∷ [] }

revoked-resolve_data_plane_credential_example :
    resolve_data_plane_credential sha256 "secret" [] 9 (revoke_api_key 5 4 keyed).1 ≡ none
unfolding fetchone any
revoked-resolve_data_plane_credential_example =
    revoked-resolve_data_plane_credential sha256 "secret" [] 5 4 9 keyed
      (credential_row api_key "secret" 2) (refl, tt) refl refl refl

abbrev request : RequestMetadata
request = record {
  request_id = "request";
  model = "gpt-4";
  stream = false;
  route_id = "route";
  provider_ref = "binding";
  principal = request_principal (configured operator "control-token" 1);
}

abbrev usage : ProviderUsage
usage = record {
  prompt_tokens = some 10;
  completion_tokens = some 20;
  total_tokens = some 30;
  source = "provider";
}

abbrev begun : Store
begun = record store { audits = started_audit request 1 ∷ [] }

abbrev closed : Store
closed = (finish_request request completed (some usage) none 3 begun).1

finish_request_once_example :
    finish_request request failed (some usage) (some "late") 4 closed ≡ (ok tt, closed)
unfolding finish_request fetchone
finish_request_once_example =
    finish_request_once request request completed failed (some usage) (some usage) none
      (some "late") 3 4 begun closed refl refl refl

abbrev quota : TenantQuota
quota = record {
  tenant_id = "operator";
  workspace_id = "workspace";
  monthly_token_quota = 100;
  updated_at = 0;
}

quota_guard-admits_example :
    (quota_guard request.principal (some (λ _. some 99)) (quota ∷ []) ≡ admitted) ↔ (
      (get_tenant_quota "operator" (quota ∷ []) ≡ none)
      ⊎ ((q : TenantQuota) × (get_tenant_quota "operator" (quota ∷ []) ≡ some q)
          × IsWithin request.principal (some (λ _. some 99)) q))
quota_guard-admits_example = quota_guard-admits request.principal (some (λ _. some 99)) (quota ∷ [])

credentials-IsKeyed_example :
    IsKeyed
      (configure_credentials sha256
        (λ t. t)
        (("control-token", operator) ∷ [])
        9
        store).1.credentials
    × IsKeyed
        (record store {
          credentials = store.credentials ++ credential_row api_key "secret" 2 ∷ [];
        }).credentials
    × IsKeyed (disable_credential "control://1" store).1.credentials
    × IsKeyed (revoke_api_key 5 9 store).1.credentials
unfolding any insert_credential
credentials-IsKeyed_example =
    credentials-IsKeyed sha256 (λ t. t) store (("control-token", operator) ∷ []) 9
      (credential_row api_key "secret" 2)
      (record store { credentials = store.credentials ++ credential_row api_key "secret" 2 ∷ [] })
      "control://1" 5 (refl, tt) refl

begin_request-finish_request_example :
    (a : RequestAudit) × (fetchone
        (has_request "request")
        (finish_request request failed
          (some usage)
          (some "provider_error")
          3
          (begin_request request 1 store).1).1.audits
      ≡ some a)
    × IsRecorded request failed (some usage) (some "provider_error") 1 3 a
unfolding any
begin_request-finish_request_example =
    begin_request-finish_request request failed (some usage) (some "provider_error") 1 3 store refl
