-- ===== src/Product/Routes/Drafts.antt =====
-- The drafts of `ExchangeProductService` in product/src/cyrene_exchange_product/service.py: how they
-- are created, edited and confirmed, and `disable_endpoint`.
use cyrene_exchange.Product.Routes.Stored.{
  save_endpoint, create_route_draft, workspace_endpoint_is_granted, replace_route_version,
}
use cyrene_exchange.Prelude.{
  ◌&&◌, ◌==◌, opt_eq, if◌then◌else◌, ◌^+◌, ◌+◌, none, some, true, false, ℕ, Uuid, Time, String,
  Bool,
}
use cyrene_exchange.Outbox.Results.{
  not_found, conflict, guard, authorization, ok, err, Result, ◌>>=◌, ◌>>◌,
}
use cyrene_exchange.Product.Resources.{
  is_draft, EndpointState, RouteState, GatewayEndpoint, GatewayRoute, endpoint_is_active,
}
use cyrene_exchange.Product.Tables.{Store, ProductPrincipal}
use cyrene_exchange.Product.Routes.Service.{
  route_or_404, legacy_route_or_404, endpoint_or_404, CreateRouteRequest, CreateRouteDraftRequest,
  EditRouteDraftRequest, Method, after, new_draft,
}

abbrev pub nul : String
nul = "\0"

unfoldable pub disable_endpoint : Uuid → Time → Method GatewayEndpoint
disable_endpoint id now s =
    after (endpoint_or_404 id s)
      (λ e. λ s.
        if endpoint_is_active e
        then (let e' = record e {
          state = EndpointState.disabled;
          updated_at = now;
          resource_version = e.resource_version + 1;
        } in
            (ok e', save_endpoint e' s))
        else (ok e, s))
      s

module _ (sha256 : String → String) where
  -- The idempotency scope of a private draft
  unfoldable pub scope_digest : String → String → String
  scope_digest o w = sha256 (o ^+ nul ^+ w)

  module _ (draft_json : CreateRouteDraftRequest → String) where
    unfoldable pub create_legacy_draft :
        CreateRouteDraftRequest → String → ProductPrincipal → Uuid → Time → Method GatewayRoute
    create_legacy_draft c key p id now s =
        after (endpoint_or_404 c.route.endpoint_id s)
          (λ e.
            create_route_draft (new_draft c.route (some c.source) p none id now) key
              (sha256 (sha256 (draft_json c) ^+ nul ^+ p.workspace_id ^+ nul ^+ p.actor_id))
              "create-route-draft" none false)
          s

  -- `idempotency_hash` is `request_hash(idempotency_command)`.
  unfoldable pub create_scoped_route_draft :
      CreateRouteDraftRequest
      → String
      → ProductPrincipal
      → String
      → Uuid
      → Uuid
      → Time
      → Method GatewayRoute
  create_scoped_route_draft c key p idempotency_hash source_endpoint id now s =
      elim p.organization_id [
        | none ↦ (err (authorization "EXCHANGE_CONTROL_PERMISSION_DENIED"), s)
        | some o ↦
            create_route_draft (new_draft c.route (some c.source) p (some o) id now) key
              (sha256 (idempotency_hash ^+ nul ^+ o ^+ nul ^+ p.workspace_id ^+ nul ^+ p.actor_id))
              ("create-route-draft:v1:" ^+ scope_digest o p.workspace_id) (some source_endpoint)
              false s
      ]

  module _ (binding_json : CreateRouteRequest → String) where
    unfoldable pub create_workspace_binding_route_draft :
        CreateRouteRequest → String → ProductPrincipal → Uuid → Time → Method GatewayRoute
    create_workspace_binding_route_draft c key p id now s = elim p.organization_id [
      | none ↦ (err (authorization "EXCHANGE_CONTROL_PERMISSION_DENIED"), s)
      | some o ↦
          after (endpoint_or_404 c.endpoint_id s)
            (λ e.
              create_route_draft (new_draft c none p (some o) id now) key
                (sha256 (
                  sha256 (binding_json c)
                  ^+ nul
                  ^+ o
                  ^+ nul
                  ^+ p.workspace_id
                  ^+ nul
                  ^+ p.actor_id))
                ("create-workspace-binding-route-draft:v1:" ^+ scope_digest o p.workspace_id) none
                true)
            s
    ]

unfoldable pub owned_draft : Uuid → ProductPrincipal → Store → Result GatewayRoute
owned_draft id p s = do
  r ← legacy_route_or_404 id s
  guard (opt_eq r.workspace_id (some p.workspace_id) && opt_eq r.created_by (some p.actor_id))
      (authorization "EXCHANGE_ROUTE_PERMISSION_DENIED")
  guard (is_draft r.state) (conflict "EXCHANGE_ROUTE_NOT_DRAFT")
  ok r

unfoldable pub get_owned_workspace_draft : Uuid → ProductPrincipal → Store → Result GatewayRoute
get_owned_workspace_draft id p s = do
  r ← route_or_404 id s
  guard (opt_eq r.organization_id p.organization_id && opt_eq r.workspace_id (some p.workspace_id))
      (not_found "EXCHANGE_ROUTE_NOT_FOUND")
  guard (opt_eq r.created_by (some p.actor_id)) (authorization "EXCHANGE_ROUTE_PERMISSION_DENIED")
  guard (is_draft r.state) (conflict "EXCHANGE_ROUTE_NOT_DRAFT")
  ok r

-- `route.model_copy` of an edit and of a confirmation
abbrev pub edited : EditRouteDraftRequest → Time → GatewayRoute → GatewayRoute
edited c now r = record r {
  model_pattern = c.model_pattern;
  target_binding_id = c.target_binding_id;
  target_model = some c.target_model;
  priority = c.priority;
  updated_at = now;
  resource_version = c.resource_version + 1;
}

abbrev pub activated : ℕ → Time → GatewayRoute → GatewayRoute
activated version now r = record r {
  state = RouteState.active;
  updated_at = now;
  resource_version = version + 1;
}

unfoldable pub edit_route_draft :
    Uuid → EditRouteDraftRequest → ProductPrincipal → Time → Method GatewayRoute
edit_route_draft id c p now s =
    after (owned_draft id p s) (λ r. replace_route_version (edited c now r) c.resource_version) s

-- The checks on the draft that was read; `validate_target` is the caller's.
unfoldable pub check_target :
    (GatewayRoute → Result (Unit {0})) → GatewayRoute → ℕ → Bool → Store → Result (Unit {0})
check_target validate_target r version granted s = do
  guard (r.resource_version == version) (conflict "EXCHANGE_ROUTE_VERSION_CONFLICT")
  guard granted (authorization "EXCHANGE_ROUTE_PERMISSION_DENIED")
  e ← endpoint_or_404 r.endpoint_id s
  guard (endpoint_is_active e) (conflict "EXCHANGE_ENDPOINT_DISABLED")
  validate_target r

-- The part of `confirm_route_draft` before its write
unfoldable pub inspect_draft :
    (GatewayRoute → Result (Unit {0})) → Uuid → ℕ → ProductPrincipal → Store → Result GatewayRoute
inspect_draft validate_target id version p s = do
  r ← owned_draft id p s
  check_target validate_target r version true s
  ok r

unfoldable pub confirm_route_draft :
    (GatewayRoute → Result (Unit {0})) → Uuid → ℕ → ProductPrincipal → Time → Method GatewayRoute
confirm_route_draft validate_target id version p now s =
    after (inspect_draft validate_target id version p s)
      (λ r. replace_route_version (activated version now r) version) s

unfoldable pub granted_to : GatewayRoute → ProductPrincipal → Store → Bool
granted_to r p s = elim p.organization_id [
  | none ↦ false
  | some o ↦ workspace_endpoint_is_granted r.endpoint_id o p.workspace_id s
]

-- The part of `confirm_workspace_route_draft` before its write. It reads the route, the grant and the
-- endpoint one after the other, each in the tables as they then are.
unfoldable pub inspect_workspace_draft :
    (GatewayRoute → Result (Unit {0}))
    → Uuid
    → ℕ
    → ProductPrincipal
    → Store
    → Store
    → Store
    → Result GatewayRoute
inspect_workspace_draft validate_target id version p s granting publishing = do
  r ← get_owned_workspace_draft id p s
  check_target validate_target r version (granted_to r p granting) publishing
  ok r

unfoldable pub confirm_workspace_route_draft :
    (GatewayRoute → Result (Unit {0})) → Uuid → ℕ → ProductPrincipal → Time → Method GatewayRoute
confirm_workspace_route_draft validate_target id version p now s =
    after (inspect_workspace_draft validate_target id version p s s s)
      (λ r. replace_route_version (activated version now r) version) s
