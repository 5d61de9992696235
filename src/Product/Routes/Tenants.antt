-- ===== src/Product/Routes/Tenants.antt =====
-- A plan stays within the tenant of its principal: `plan_for_principal` of
-- product/src/cyrene_exchange_product/routing.py.
use mathlib.Core.List.{Mem}
use cyrene_exchange.Product.Routes.Order.{order_by-All}
use cyrene_exchange.Product.Routes.Listing.{scope_is_complete, active_rows}
use cyrene_exchange.Product.Routes.Stored.{get_endpoint}
use cyrene_exchange.Product.Routes.Planner.{
  scope_workspace, target_of, plan_for_principal, RouteTarget,
}
use cyrene_exchange.Product.Routes.Plan.{
  rows-All, plan_active, select-All, plan_disabled, active_rows-in_tenant, plan_absent, served,
  in_tenant, bound_and_active,
}
use cyrene_exchange.Prelude.{
  ap, sym, ◌∙◌, arith, Bool-cases, ◌==◌, Option-cases, [], ◌∷◌, some, inl, inr, true, refl, ◌≡◌,
  List, Option, Uuid, String, Bool, All, All-map, select,
}
use cyrene_exchange.Product.Resources.{
  RouteRow, GatewayEndpoint, endpoint_is_active, is_active, route_from_row,
}
use cyrene_exchange.Product.Tables.{Store, RequestPrincipal}

-- A planned target is that of a stored route which is ACTIVE at the ACTIVE endpoint, in the tenant of
-- the principal, and whose pattern matches the model.
pub record Serves (fnmatchcase : String → String → Bool) (endpoint_id : Uuid) (model : String)
    (p : RequestPrincipal) (s : Store) (t : RouteTarget) : Type 0 where
  pub endpoint : GatewayEndpoint
  pub published : get_endpoint endpoint_id s ≡ some endpoint
  pub enabled : endpoint_is_active endpoint ≡ true
  pub row : RouteRow
  pub stored : Mem row s.routes
  pub bound : (row.endpoint_id == endpoint.id) ≡ true
  pub activated : is_active row.state ≡ true
  pub owned : in_tenant p.organization_id p.workspace_id row ≡ true
  pub matched : fnmatchcase model row.document.model_pattern ≡ true
  pub target : t ≡ target_of (route_from_row row)

same_endpoints :
    (id : Uuid) (s s' : Store) → s'.endpoints ≡ s.endpoints → get_endpoint id s' ≡ get_endpoint id s
unfolding get_endpoint
same_endpoints id s s' e = rw e refl

-- The plan for a principal depends on nothing outside its tenant: in two stores with the same
-- endpoints and the same routes in the scope of the principal, the plans are equal.
pub plan_for_principal-in_tenant :
    (fnmatchcase : String → String → Bool) (endpoint_id : Uuid) (model : String)
    (p : RequestPrincipal) (s s' : Store)
    → s'.endpoints ≡ s.endpoints
    → select (in_tenant p.organization_id p.workspace_id) s'.routes
      ≡ select (in_tenant p.organization_id p.workspace_id) s.routes
    → plan_for_principal fnmatchcase endpoint_id model p s'
      ≡ plan_for_principal fnmatchcase endpoint_id model p s
plan_for_principal-in_tenant fnmatchcase endpoint_id model p s s' e r =
    let same : get_endpoint endpoint_id s' ≡ get_endpoint endpoint_id s =
      same_endpoints endpoint_id s s' e in
    elim (Option-cases (get_endpoint endpoint_id s)) [
      | inl k ↦
          plan_absent fnmatchcase endpoint_id model p s' (same ∙ k)
          ∙ sym (plan_absent fnmatchcase endpoint_id model p s k)
      | inr (x, k) ↦ elim (Bool-cases (endpoint_is_active x)) [
        | inr off ↦
            plan_disabled fnmatchcase endpoint_id model p s' x (same ∙ k) off
            ∙ sym (plan_disabled fnmatchcase endpoint_id model p s x k off)
        | inl on ↦
            plan_active fnmatchcase endpoint_id model p s' x (same ∙ k) on
            ∙ ap (served fnmatchcase model) (rows x.id)
            ∙ sym (plan_active fnmatchcase endpoint_id model p s x k on)
      ]
    ]
  where
    rows :
        (endpoint : Uuid)
        → active_rows endpoint p.organization_id
            (scope_workspace p.organization_id p.workspace_id)
            s'
          ≡ active_rows endpoint p.organization_id
              (scope_workspace p.organization_id p.workspace_id)
              s
    rows endpoint =
        active_rows-in_tenant endpoint p.organization_id p.workspace_id s'
        ∙ rw r (sym (active_rows-in_tenant endpoint p.organization_id p.workspace_id s))

order_by_priority-All :
    (P : RouteRow → Type 0) (endpoint : Uuid) (o : Option String) (w : String) (s : Store)
    → All P (select (bound_and_active endpoint) (select (in_tenant o w) s.routes))
    → All P (active_rows endpoint o (scope_workspace o w) s)
order_by_priority-All P endpoint o w s h =
    elim (Bool-cases (scope_is_complete o (scope_workspace o w))) [
      | inl e ↦ rw (active_rows-in_tenant endpoint o w s, e) (order_by-All P _ h)
      | inr e ↦ rw (active_rows-in_tenant endpoint o w s, e) tt
    ]

served-All :
    (P : RouteTarget → Type 0) (fnmatchcase : String → String → Bool) (endpoint_id : Uuid)
    (model : String) (p : RequestPrincipal) (s : Store) (rows : List RouteRow)
    → All
        (λ y. fnmatchcase model y.document.model_pattern ≡ true → P (target_of (route_from_row y)))
        rows
    → All P (served fnmatchcase model rows)
unfolding served select
served-All P fnmatchcase endpoint_id model p s [] h = tt
served-All P fnmatchcase endpoint_id model p s (y ∷ rows) h =
    elim (Bool-cases (fnmatchcase model y.document.model_pattern)) [
      | inl e ↦ rw e (h.0 e, served-All P fnmatchcase endpoint_id model p s rows h.1)
      | inr e ↦ rw e (served-All P fnmatchcase endpoint_id model p s rows h.1)
    ]

fits_of :
    (endpoint : Uuid) (x : RouteRow)
    → bound_and_active endpoint x ≡ true
    → ((x.endpoint_id == endpoint) ≡ true) × (is_active x.state ≡ true)
unfolding bound_and_active
fits_of endpoint x h = ground arith

-- Every target that is planned for a principal is that of a stored route which is ACTIVE, in the
-- tenant of the principal and bound to the endpoint, while that endpoint is ACTIVE, and whose pattern
-- matches the model.
pub plan_for_principal-Serves :
    (fnmatchcase : String → String → Bool) (endpoint_id : Uuid) (model : String)
    (p : RequestPrincipal) (s : Store)
    → All
        (Serves fnmatchcase endpoint_id model p s)
        (plan_for_principal fnmatchcase endpoint_id model p s)
plan_for_principal-Serves fnmatchcase endpoint_id model p s =
    elim (Option-cases (get_endpoint endpoint_id s)) [
      | inl k ↦ rw (plan_absent fnmatchcase endpoint_id model p s k) tt
      | inr (x, k) ↦ elim (Bool-cases (endpoint_is_active x)) [
        | inr off ↦ rw (plan_disabled fnmatchcase endpoint_id model p s x k off) tt
        | inl on ↦
            let own =
              select-All (λ y. Mem y s.routes) (in_tenant p.organization_id p.workspace_id) s.routes
                (rows-All s.routes) in
            let fits =
              select-All _ (bound_and_active x.id)
                (select (in_tenant p.organization_id p.workspace_id) s.routes) own in
            let listed = order_by_priority-All _ x.id p.organization_id p.workspace_id s fits in
            rw (plan_active fnmatchcase endpoint_id model p s x k on) (
              served-All (Serves fnmatchcase endpoint_id model p s) fnmatchcase endpoint_id model p
                s _
                (All-map _
                  (λ y h matched.
                    let fit = fits_of x.id y h.1 in
                    record {
                      endpoint = x;
                      published = k;
                      enabled = on;
                      row = y;
                      stored = h.0.0;
                      bound = fit.0;
                      activated = fit.1;
                      owned = h.0.1;
                      matched = matched;
                      target = refl;
                    })
                  listed))
      ]
    ]
