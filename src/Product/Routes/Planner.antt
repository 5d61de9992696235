-- ===== src/Product/Routes/Planner.antt =====
-- `StoredRoutePlanner` and `ProductRoutingResolver` of
-- product/src/cyrene_exchange_product/routing.py. The `fnmatchcase` of Python's library is a
-- parameter.
use cyrene_exchange.Product.Routes.Listing.{active_routes}
use cyrene_exchange.Product.Routes.Stored.{get_endpoint}
use cyrene_exchange.Prelude.{
  if◌then◌else◌, uuid_text, [], none, some, List, Option, Uuid, String, Bool, select, map,
}
use cyrene_exchange.Product.Resources.{GatewayRoute, endpoint_is_active}
use cyrene_exchange.Product.Tables.{Store, RequestPrincipal}

-- `RouteTarget`
pub record RouteTarget : Type 0 where
  pub provider_ref : String
  pub route_id : String
  pub model : Option String

abbrev pub target_of : GatewayRoute → RouteTarget
target_of r = record {
  provider_ref = r.target_binding_id;
  route_id = uuid_text r.id;
  model = r.target_model;
}

-- `principal.workspace_id if principal.organization_id is not None else None`
abbrev pub scope_workspace : Option String → String → Option String
scope_workspace none w = none
scope_workspace (some o) w = some w

module _ (fnmatchcase : String → String → Bool) where
  unfoldable pub plan_for_scope :
      Uuid → String → Option String → Option String → Store → List RouteTarget
  plan_for_scope endpoint_id model o w s = elim (get_endpoint endpoint_id s) [
    | none ↦ []
    | some e ↦
        if endpoint_is_active e
        then map target_of
            (select (λ r. fnmatchcase model r.model_pattern) (active_routes e.id o w s))
        else []
  ]

  unfoldable pub plan : Uuid → String → Store → List RouteTarget
  plan endpoint_id model = plan_for_scope endpoint_id model none none

  unfoldable pub plan_for_principal : Uuid → String → RequestPrincipal → Store → List RouteTarget
  plan_for_principal endpoint_id model p =
      plan_for_scope endpoint_id model p.organization_id
        (scope_workspace p.organization_id p.workspace_id)
