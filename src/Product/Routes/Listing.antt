-- ===== src/Product/Routes/Listing.antt =====
-- The queries over `gateway_routes` in product/src/cyrene_exchange_product/store.py: `active_routes`,
-- `list_active_routes`, `active_route_count`, `list_legacy_routes`, `list_workspace_routes`, and
-- `list_endpoints`.
use cyrene_exchange.Product.Routes.Stored.{is_legacy}
use cyrene_exchange.Prelude.{
  ◌||◌, ◌==◌, ◌&&◌, truthy, opt_eq, ltb, if◌then◌else◌, [], ◌∷◌, none, some, true, false, ℕ, List,
  Option, Uuid, String, Bool, select, length, map,
}
use cyrene_exchange.Product.Resources.{
  GatewayEndpoint, GatewayRoute, RouteRow, route_from_row, is_active,
}
use cyrene_exchange.Product.Tables.{Store}

module _ {ℓ} {A : Type ℓ} (before : A → A → Bool) where
  -- Insertion before the first row that the order puts after it.
  unfoldable pub insert_by : A → List A → List A
  insert_by x [] = x ∷ []
  insert_by x (y ∷ ys) = if before y x then y ∷ insert_by x ys else x ∷ y ∷ ys

  -- `ORDER BY`
  unfoldable pub order_by : List A → List A
  order_by [] = []
  order_by (x ∷ xs) = insert_by x (order_by xs)

-- `ORDER BY priority ASC, id ASC`
unfoldable pub by_priority : RouteRow → RouteRow → Bool
by_priority a b = ltb a.priority b.priority || (a.priority == b.priority && ltb a.id b.id)

-- A row of one endpoint in the ACTIVE state, within the scope of the query.
unfoldable pub active_in : Uuid → Option String → Option String → RouteRow → Bool
active_in endpoint none w r = r.endpoint_id == endpoint && (is_active r.state && is_legacy r)
active_in endpoint (some o) w r =
    r.endpoint_id == endpoint
    && (is_active r.state && (opt_eq r.organization_id (some o) && opt_eq r.workspace_id w))

-- A private scope without a workspace, or a workspace without an organization, reads nothing.
unfoldable pub scope_is_complete : Option String → Option String → Bool
scope_is_complete none none = true
scope_is_complete none (some w) = false
scope_is_complete (some o) w = truthy w

unfoldable pub active_rows : Uuid → Option String → Option String → Store → List RouteRow
active_rows endpoint o w s =
    if scope_is_complete o w
    then order_by by_priority (select (active_in endpoint o w) s.routes)
    else []

unfoldable pub active_routes : Uuid → Option String → Option String → Store → List GatewayRoute
active_routes endpoint o w s = map route_from_row (active_rows endpoint o w s)

unfoldable pub list_endpoints : Store → List GatewayEndpoint
list_endpoints s = order_by (λ a b. ltb a.id b.id) s.endpoints

unfoldable pub list_active_routes : Store → List GatewayRoute
list_active_routes s =
    map route_from_row
      (order_by by_priority (select (λ r. is_active r.state && is_legacy r) s.routes))

unfoldable pub active_route_count : Option Uuid → Store → ℕ
active_route_count none s = length (select (λ r. is_active r.state) s.routes)
active_route_count (some id) s =
    length (select (λ r. is_active r.state && r.endpoint_id == id) s.routes)

unfoldable pub list_legacy_routes : Store → List GatewayRoute
list_legacy_routes s = map route_from_row (order_by by_priority (select is_legacy s.routes))

unfoldable pub in_workspace : String → String → RouteRow → Bool
in_workspace o w r = opt_eq r.organization_id (some o) && opt_eq r.workspace_id (some w)

unfoldable pub list_workspace_routes : String → String → Store → List GatewayRoute
list_workspace_routes o w s =
    map route_from_row (order_by by_priority (select (in_workspace o w) s.routes))
