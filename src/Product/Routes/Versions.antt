-- ===== src/Product/Routes/Versions.antt =====
-- Optimistic concurrency on routes: `replace_route_version` of
-- product/src/cyrene_exchange_product/store.py as a compare-and-set on the map from ids to routes.
use mathlib.Core.Path.{fun_ext}
use cyrene_exchange.Product.Routes.Stored.{
  replace_body, replace_route_version, updated_row, has_route, get_route,
}
use cyrene_exchange.Prelude.{
  ap, ◌==◌, map, if◌then◌else◌, [], ◌∷◌, none, some, inl, inr, true, false, refl, ℕ, ◌≡◌, List,
  Option, Uuid, fetchone, arith, Bool-cases, Option-cases, ◌∙◌,
}
use cyrene_exchange.Outbox.Results.{conflict, ok, err, Result}
use cyrene_exchange.Product.Resources.{GatewayRoute, RouteRow}
use cyrene_exchange.Product.Tables.{Store, mutation}

-- What the callers see of `gateway_routes`.
abbrev pub Routes : Type 0
Routes = Uuid → Option GatewayRoute

abbrev pub view : Store → Routes
view s id = get_route id s

abbrev pub put : GatewayRoute → Routes → Routes
put r routes id = if r.id == id then some r else routes id

-- The contract of `replace_route_version`
unfoldable pub compare_and_set : GatewayRoute → ℕ → Routes → Result GatewayRoute × Routes
compare_and_set r expected routes = elim (routes r.id) [
  | none ↦ (err (conflict "EXCHANGE_ROUTE_VERSION_CONFLICT"), routes)
  | some current ↦
      if current.resource_version == expected
      then (ok r, put r routes)
      else (err (conflict "EXCHANGE_ROUTE_VERSION_CONFLICT"), routes)
]

abbrev pub replaced_rows : GatewayRoute → List RouteRow → List RouteRow
replaced_rows r rows = map (λ x. if has_route r.id x then updated_row r x else x) rows

fetchone-replaced :
    (r : GatewayRoute) (id : Uuid) (rows : List RouteRow)
    → fetchone (has_route id) (replaced_rows r rows) ≡ elim (fetchone (has_route id) rows) [
      | none ↦ none
      | some x ↦ some (if r.id == id then updated_row r x else x)
    ]
unfolding fetchone
fetchone-replaced r id [] = refl
fetchone-replaced r id (x ∷ rows) = grind (arith, fetchone-replaced r id rows)

pub view-replaced :
    (r : GatewayRoute) (s : Store) (current : GatewayRoute) (id : Uuid)
    → get_route r.id s ≡ some current
    → view (record s { routes = replaced_rows r s.routes }) id ≡ put r (view s) id
unfolding get_route
view-replaced r s current id h = elim (Option-cases (fetchone (has_route id) s.routes)) [
  | inl e ↦ grind (arith, fetchone-replaced r id s.routes)
  | inr (x, e) ↦ elim (Bool-cases (r.id == id)) [
    | inl k ↦ rw (get_route, fetchone-replaced r id s.routes, e, k) refl
    | inr k ↦ rw (get_route, fetchone-replaced r id s.routes, e, k) refl
  ]
]

-- The three outcomes
pub replace_route_version-absent :
    (r : GatewayRoute) (expected : ℕ) (s : Store)
    → get_route r.id s ≡ none
    → replace_route_version r expected s ≡ (err (conflict "EXCHANGE_ROUTE_VERSION_CONFLICT"), s)
unfolding replace_route_version replace_body
replace_route_version-absent r expected s e = rw (e, mutation) refl

pub replace_route_version-stale :
    (r current : GatewayRoute) (expected : ℕ) (s : Store)
    → get_route r.id s ≡ some current
    → (current.resource_version == expected) ≡ false
    → replace_route_version r expected s ≡ (err (conflict "EXCHANGE_ROUTE_VERSION_CONFLICT"), s)
unfolding replace_route_version replace_body
replace_route_version-stale r current expected s e k = rw (e, k, mutation) refl

pub replace_route_version-current :
    (r current : GatewayRoute) (expected : ℕ) (s : Store)
    → get_route r.id s ≡ some current
    → (current.resource_version == expected) ≡ true
    → replace_route_version r expected s ≡ (ok r, record s { routes = replaced_rows r s.routes })
unfolding replace_route_version replace_body
replace_route_version-current r current expected s e k = rw (e, k, mutation) refl

abbrev pub seen : Result GatewayRoute × Store → Result GatewayRoute × Routes
seen (outcome, s) = (outcome, view s)

-- `replace_route_version` is a compare-and-set on the version: on the map from ids to routes that
-- `get_route` shows, it returns and leaves exactly what `compare_and_set` does, a conflict included.
pub replace_route_version-compare_and_set :
    (r : GatewayRoute) (expected : ℕ) (s : Store)
    → seen (replace_route_version r expected s) ≡ compare_and_set r expected (view s)
unfolding compare_and_set
replace_route_version-compare_and_set r expected s = elim (Option-cases (get_route r.id s)) [
  | inl e ↦ rw (replace_route_version-absent r expected s e, compare_and_set, e) refl
  | inr (current, e) ↦ elim (Bool-cases (current.resource_version == expected)) [
    | inl k ↦
        ap seen (replace_route_version-current r current expected s e k)
        ∙ rw (compare_and_set, e, k)
            (ap (λ v. (ok r, v)) (fun_ext λ id. view-replaced r s current id e))
    | inr k ↦ rw (replace_route_version-stale r current expected s e k, compare_and_set, e, k) refl
  ]
]
