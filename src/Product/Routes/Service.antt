-- ===== src/Product/Routes/Service.antt =====
-- The endpoint and route operations of `ExchangeProductService` in
-- product/src/cyrene_exchange_product/service.py. The caller passes what `uuid4` and `utc_now`
-- return; pydantic's `model_dump_json` and the SHA-256 of hashlib are parameters.
use cyrene_exchange.Product.Routes.Stored.{
  save_endpoint, save_route, get_route, get_legacy_route, get_endpoint,
}
use cyrene_exchange.Product.Keys.{remember_idempotency, resolve_idempotency}
use cyrene_exchange.Prelude.{none, some, ℕ, Option, Uuid, Time, String}
use cyrene_exchange.Outbox.Results.{not_found, or_raise, ok, err, Result}
use cyrene_exchange.Product.Resources.{
  EndpointState, RouteState, draft, GatewayEndpoint, GatewayRoute, RouteSource,
}
use cyrene_exchange.Product.Tables.{Store, ProductPrincipal}

pub record CreateEndpointRequest : Type 0 where
  pub name : String
  pub public_base_url : String
  pub auth_policy_ref : String

-- `CreateRouteRequest` and `CreateWorkspaceBindingRouteDraftRequest`
pub record CreateRouteRequest : Type 0 where
  pub endpoint_id : Uuid
  pub model_pattern : String
  pub target_binding_id : String
  pub target_model : Option String
  pub priority : ℕ

pub record CreateRouteDraftRequest : Type 0 where
  pub route : CreateRouteRequest
  pub source : RouteSource

pub record EditRouteDraftRequest : Type 0 where
  pub resource_version : ℕ
  pub model_pattern : String
  pub target_binding_id : String
  pub target_model : String
  pub priority : ℕ

-- A method that reads and then writes in another transaction: its result and the tables it leaves.
abbrev pub Method : Type 0 → Type 0
Method A = Store → Result A × Store

-- `raise` before any write
abbrev pub after : {A B : Type 0} → Result A → (A → Method B) → Method B
after r next s = elim r [ err e ↦ (err e, s) | ok a ↦ next a s ]

unfoldable pub endpoint_or_404 : Uuid → Store → Result GatewayEndpoint
endpoint_or_404 id s = or_raise (get_endpoint id s) (not_found "EXCHANGE_ENDPOINT_NOT_FOUND")

unfoldable pub route_or_404 : Uuid → Store → Result GatewayRoute
route_or_404 id s = or_raise (get_route id s) (not_found "EXCHANGE_ROUTE_NOT_FOUND")

unfoldable pub legacy_route_or_404 : Uuid → Store → Result GatewayRoute
legacy_route_or_404 id s = or_raise (get_legacy_route id s) (not_found "EXCHANGE_ROUTE_NOT_FOUND")

abbrev pub new_endpoint : CreateEndpointRequest → Uuid → Time → GatewayEndpoint
new_endpoint c id now = record {
  id = id;
  name = c.name;
  state = EndpointState.active;
  public_base_url = c.public_base_url;
  auth_policy_ref = c.auth_policy_ref;
  created_at = now;
  updated_at = now;
  resource_version = 1;
}

abbrev pub new_route : CreateRouteRequest → Uuid → Time → GatewayRoute
new_route c id now = record {
  id = id;
  endpoint_id = c.endpoint_id;
  state = RouteState.active;
  model_pattern = c.model_pattern;
  target_binding_id = c.target_binding_id;
  target_model = c.target_model;
  priority = c.priority;
  created_at = now;
  updated_at = now;
  resource_version = 1;
  source = none;
  created_by = none;
  workspace_id = none;
  organization_id = none;
}

abbrev pub new_draft :
    CreateRouteRequest
    → Option RouteSource
    → ProductPrincipal
    → Option String
    → Uuid
    → Time
    → GatewayRoute
new_draft c source p organization id now = record (new_route c id now) {
  state = draft;
  source = source;
  created_by = some p.actor_id;
  workspace_id = some p.workspace_id;
  organization_id = organization;
}

module _ (sha256 : String → String) where
  module _ (endpoint_json : CreateEndpointRequest → String) where
    unfoldable pub create_endpoint :
        CreateEndpointRequest → Option String → Uuid → Time → Method GatewayEndpoint
    create_endpoint c key id now s =
        let digest = sha256 (endpoint_json c) in
        after (resolve_idempotency "create-endpoint" key digest s)
          (λ replay. λ s. elim replay [
            | some existing ↦ (endpoint_or_404 existing s, s)
            | none ↦
                let e = new_endpoint c id now in
                let (done, s') =
                  remember_idempotency "create-endpoint" key digest id (save_endpoint e s) in
                after done (λ u. λ s. (ok e, s)) s'
          ])
          s

  module _ (route_json : CreateRouteRequest → String) where
    unfoldable pub create_route :
        CreateRouteRequest → Option String → Uuid → Time → Method GatewayRoute
    create_route c key id now s =
        let digest = sha256 (route_json c) in
        after (endpoint_or_404 c.endpoint_id s)
          (λ e. after (resolve_idempotency "create-route" key digest s) (λ replay. λ s.
            elim replay [
              | some existing ↦ (route_or_404 existing s, s)
              | none ↦
                  let r = new_route c id now in
                  let (saved, s') = save_route r s in
                  after saved
                    (λ u. λ s'.
                      let (done, s'') = remember_idempotency "create-route" key digest id s' in
                      after done (λ u. λ s. (ok r, s)) s'')
                    s'
            ]))
          s
