-- ===== src/Product/Routes/Stored.antt =====
-- The endpoint, route and grant methods of `ExchangeStore`, in
-- product/src/cyrene_exchange_product/store.py.
use cyrene_exchange.Product.Keys.{insert_mapping, resolve_idempotency}
use cyrene_exchange.Prelude.{
  ◌++◌, str_eq, map, ◌==◌, ◌&&◌, not, if◌then◌else◌, [], ◌∷◌, none, some, true, false, ℕ, List,
  Option, Uuid, String, Bool, any, select, fetchone,
}
use cyrene_exchange.Outbox.Results.{
  not_found, value_error, integrity, authorization, guard, conflict, ok, err, Result, ◌>>=◌, ◌>>◌,
}
use cyrene_exchange.Product.Resources.{
  RouteSource, GatewayEndpoint, GatewayRoute, RouteRow, Grant, route_from_row, row_of,
}
use cyrene_exchange.Product.Tables.{mutation, Store}

-- `WHERE id = ?`
abbrev pub has_endpoint : Uuid → GatewayEndpoint → Bool
has_endpoint id e = e.id == id

abbrev pub has_route : Uuid → RouteRow → Bool
has_route id r = r.id == id

-- `INSERT OR REPLACE INTO gateway_endpoints`
unfoldable pub save_endpoint : GatewayEndpoint → Store → Store
save_endpoint e s = record s {
  endpoints = select (λ x. not (has_endpoint e.id x)) s.endpoints ++ e ∷ [];
}

unfoldable pub get_endpoint : Uuid → Store → Option GatewayEndpoint
get_endpoint id s = fetchone (has_endpoint id) s.endpoints

-- `FOREIGN KEY(endpoint_id) REFERENCES gateway_endpoints(id)`
abbrev pub endpoint_exists : Uuid → Store → Bool
endpoint_exists id s = any (has_endpoint id) s.endpoints

-- `INSERT OR REPLACE INTO gateway_routes`
unfoldable pub save_route_body : GatewayRoute → Store → Result (Unit {0} × Store)
save_route_body r s = do
  guard (endpoint_exists r.endpoint_id s) (integrity "gateway_routes.endpoint_id")
  ok (tt, record s { routes = select (λ x. not (has_route r.id x)) s.routes ++ row_of r ∷ [] })

unfoldable pub save_route : GatewayRoute → Store → Result (Unit {0}) × Store
save_route r = mutation (save_route_body r)

unfoldable pub get_route : Uuid → Store → Option GatewayRoute
get_route id s = elim (fetchone (has_route id) s.routes) [
  | none ↦ none
  | some r ↦ some (route_from_row r)
]

-- `organization_id IS NULL`
abbrev pub is_legacy : RouteRow → Bool
is_legacy r = elim r.organization_id [ none ↦ true | some o ↦ false ]

unfoldable pub get_legacy_route : Uuid → Store → Option GatewayRoute
get_legacy_route id s = elim (fetchone (λ r. has_route id r && is_legacy r) s.routes) [
  | none ↦ none
  | some r ↦ some (route_from_row r)
]

-- `WHERE endpoint_id = ? AND organization_id = ? AND workspace_id = ?`; a NULL matches no row.
abbrev pub is_grant : Uuid → Option String → Option String → Grant → Bool
is_grant endpoint none w g = false
is_grant endpoint (some o) none g = false
is_grant endpoint (some o) (some w) g =
    g.endpoint_id == endpoint && (str_eq g.organization_id o && str_eq g.workspace_id w)

unfoldable pub workspace_endpoint_is_granted : Uuid → String → String → Store → Bool
workspace_endpoint_is_granted id o w s = any (is_grant id (some o) (some w)) s.grants

unfoldable pub workspace_reactor_endpoint_is_granted : Uuid → String → String → Store → Bool
workspace_reactor_endpoint_is_granted id o w s = any (is_grant id (some o) (some w)) s.source_grants

-- `set.add` on the prepared triples
abbrev pub prepared : List Grant → List Grant
prepared [] = []
prepared (g ∷ gs) =
    let rest = prepared gs in
    if any (is_grant g.endpoint_id (some g.organization_id) (some g.workspace_id)) rest
    then rest
    else g ∷ rest

unfoldable pub configure_workspace_endpoint_grants : List Grant → Store → Store
configure_workspace_endpoint_grants gs s = record s { grants = prepared gs }

unfoldable pub configure_workspace_reactor_endpoint_grants : List Grant → Store → Store
configure_workspace_reactor_endpoint_grants gs s = record s { source_grants = prepared gs }

-- `route.source is None`
abbrev pub is_absent : Option RouteSource → Bool
is_absent none = true
is_absent (some x) = false

-- The checks of a private draft, each on the tables of the transaction.
unfoldable pub admit_private : GatewayRoute → Option Uuid → Bool → Store → Result (Unit {0})
admit_private r source binding_route s = do
  guard (any (is_grant r.endpoint_id r.organization_id r.workspace_id) s.grants)
      (authorization "EXCHANGE_ROUTE_PERMISSION_DENIED")
  guard (endpoint_exists r.endpoint_id s) (not_found "EXCHANGE_ENDPOINT_NOT_FOUND")
  elim source [
    | none ↦
        guard (binding_route && is_absent r.source)
          (authorization "EXCHANGE_SOURCE_PERMISSION_DENIED")
    | some id ↦
        guard (any (is_grant id r.organization_id r.workspace_id) s.source_grants)
          (authorization "EXCHANGE_SOURCE_PERMISSION_DENIED")
  ]

-- `INSERT INTO gateway_routes`
unfoldable pub insert_route : GatewayRoute → Store → Result Store
insert_route r s = do
  guard (not (any (has_route r.id) s.routes)) (integrity "gateway_routes.id")
  guard (endpoint_exists r.endpoint_id s) (integrity "gateway_routes.endpoint_id")
  ok (record s { routes = s.routes ++ row_of r ∷ [] })

-- The RuntimeError on a mapping without its route is a `value_error` here.
unfoldable pub draft_body :
    GatewayRoute
    → String
    → String
    → String
    → Option Uuid
    → Bool
    → Store
    → Result (GatewayRoute × Store)
draft_body r key digest scope source binding_route s = do
  elim r.organization_id [ none ↦ ok tt | some o ↦ admit_private r source binding_route s ]
  replay ← resolve_idempotency scope (some key) digest s
  elim replay [
    | some id ↦ elim (get_route id s) [
      | none ↦ err (value_error "draft idempotency points to an absent route")
      | some existing ↦ ok (existing, s)
    ]
    | none ↦ do
      inserted ← insert_route r s
      stored ← insert_mapping scope (some key) digest r.id inserted
      ok (r, stored)
  ]

unfoldable pub create_route_draft :
    GatewayRoute
    → String
    → String
    → String
    → Option Uuid
    → Bool
    → Store
    → Result GatewayRoute × Store
create_route_draft r key digest scope source binding_route =
    mutation (draft_body r key digest scope source binding_route)

-- `UPDATE gateway_routes … WHERE id=?`; the endpoint of the row stays.
abbrev pub updated_row : GatewayRoute → RouteRow → RouteRow
updated_row r row = record (row_of r) { id = row.id; endpoint_id = row.endpoint_id }

unfoldable pub replace_body : GatewayRoute → ℕ → Store → Result (GatewayRoute × Store)
replace_body r expected s = elim (get_route r.id s) [
  | none ↦ err (conflict "EXCHANGE_ROUTE_VERSION_CONFLICT")
  | some current ↦
      if current.resource_version == expected
      then ok (
        r,
        record s { routes = map (λ x. if has_route r.id x then updated_row r x else x) s.routes },
      )
      else err (conflict "EXCHANGE_ROUTE_VERSION_CONFLICT")
]

unfoldable pub replace_route_version : GatewayRoute → ℕ → Store → Result GatewayRoute × Store
replace_route_version r expected = mutation (replace_body r expected)
