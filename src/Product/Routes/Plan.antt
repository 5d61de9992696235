-- ===== src/Product/Routes/Plan.antt =====
-- What `StoredRoutePlanner` of product/src/cyrene_exchange_product/routing.py plans for a principal.
use cyrene_exchange.Product.Routes.Stored.{get_endpoint}
use cyrene_exchange.Product.Routes.Planner.{
  plan_for_scope, scope_workspace, plan_for_principal, target_of, RouteTarget,
}
use cyrene_exchange.Product.Routes.Listing.{
  by_priority, order_by, active_routes, scope_is_complete, active_rows, active_in,
}
use mathlib.Core.List.{Mem, mem-cons_self, mem-cons_of_mem}
use cyrene_exchange.Prelude.{
  if◌then◌else◌, ◌==◌, [], ◌∷◌, none, some, inl, inr, true, false, refl, ◌≡◌, List, Option, Uuid,
  String, Bool, arith, Bool-cases, All, All-map, select, map, opt_eq, ◌&&◌,
}
use cyrene_exchange.Product.Resources.{
  RouteRow, GatewayEndpoint, endpoint_is_active, is_active, route_from_row,
}
use cyrene_exchange.Product.Tables.{Store, RequestPrincipal}

-- The scope of a principal: without an organization, the rows without one; with one, the rows of the
-- same organization and workspace.
unfoldable pub in_tenant : Option String → String → RouteRow → Bool
in_tenant none w x = opt_eq x.organization_id none
in_tenant (some o) w x = opt_eq x.organization_id (some o) && opt_eq x.workspace_id (some w)

pub rows-All : (rows : List RouteRow) → All (λ x. Mem x rows) rows
rows-All [] = tt
rows-All (x ∷ rows) = (mem-cons_self, All-map rows (λ y m. mem-cons_of_mem x m) (rows-All rows))

pub select-All {ℓ κ} :
    {A : Type ℓ} (P : A → Type κ) (p : A → Bool) (xs : List A)
    → All P xs
    → All (λ x. P x × (p x ≡ true)) (select p xs)
unfolding select
select-All P p [] h = tt
select-All P p (x ∷ xs) h = elim (Bool-cases (p x)) [
  | inl e ↦ rw e ((h.0, e), select-All P p xs h.1)
  | inr e ↦ rw e (select-All P p xs h.1)
]

select-ext {ℓ} :
    {A : Type ℓ} (p q : A → Bool) (xs : List A) → ((x : A) → p x ≡ q x) → select p xs ≡ select q xs
unfolding select
select-ext p q [] h = refl
select-ext p q (x ∷ xs) h = rw (h x, select-ext p q xs h) refl

select-select {ℓ} :
    {A : Type ℓ} (p q : A → Bool) (xs : List A)
    → select (λ x. q x && p x) xs ≡ select p (select q xs)
unfolding select
select-select p q [] = refl
select-select p q (x ∷ xs) = elim (Bool-cases (q x)) [
  | inr e ↦ rw (e, select-select p q xs) refl
  | inl e ↦ elim (Bool-cases (p x)) [
    | inl k ↦ rw (e, k, select-select p q xs) refl
    | inr k ↦ rw (e, k, select-select p q xs) refl
  ]
]

map-All {ℓ κ μ} :
    {A : Type ℓ} {B : Type κ} (P : B → Type μ) (f : A → B) (xs : List A)
    → All (λ x. P (f x)) xs
    → All P (map f xs)
map-All P f [] h = tt
map-All P f (x ∷ xs) h = (h.0, map-All P f xs h.1)

unfoldable pub bound_and_active : Uuid → RouteRow → Bool
bound_and_active endpoint x = x.endpoint_id == endpoint && is_active x.state

active_in-in_tenant :
    (endpoint : Uuid) (o : Option String) (w : String) (x : RouteRow)
    → active_in endpoint o (scope_workspace o w) x
      ≡ (in_tenant o w x && bound_and_active endpoint x)
unfolding active_in in_tenant bound_and_active
active_in-in_tenant endpoint none w x = ground arith
active_in-in_tenant endpoint (some o) w x = ground arith

pub active_rows-in_tenant :
    (endpoint : Uuid) (o : Option String) (w : String) (s : Store)
    → active_rows endpoint o (scope_workspace o w) s ≡ (
        if scope_is_complete o (scope_workspace o w)
        then order_by by_priority
            (select (bound_and_active endpoint) (select (in_tenant o w) s.routes))
        else [])
unfolding active_rows
active_rows-in_tenant endpoint o w s =
    rw
      (
        select-ext (active_in endpoint o (scope_workspace o w))
            (λ x. in_tenant o w x && bound_and_active endpoint x) s.routes
            (active_in-in_tenant endpoint o w),
        select-select (bound_and_active endpoint) (in_tenant o w) s.routes,
      )
      refl

unfoldable pub served : (String → String → Bool) → String → List RouteRow → List RouteTarget
served fnmatchcase model rows =
    map target_of (select (λ r. fnmatchcase model r.model_pattern) (map route_from_row rows))

module _ (fnmatchcase : String → String → Bool) (endpoint_id : Uuid) (model : String)
    (p : RequestPrincipal) (s : Store) where
  pub plan_absent :
      get_endpoint endpoint_id s ≡ none → plan_for_principal fnmatchcase endpoint_id model p s ≡ []
  unfolding plan_for_principal plan_for_scope
  plan_absent k = rw (plan_for_principal, plan_for_scope, k) refl

  pub plan_disabled :
      (x : GatewayEndpoint)
      → get_endpoint endpoint_id s ≡ some x
      → endpoint_is_active x ≡ false
      → plan_for_principal fnmatchcase endpoint_id model p s ≡ []
  unfolding plan_for_principal plan_for_scope
  plan_disabled x k off = rw (plan_for_principal, plan_for_scope, k, off) refl

  pub plan_active :
      (x : GatewayEndpoint)
      → get_endpoint endpoint_id s ≡ some x
      → endpoint_is_active x ≡ true
      → plan_for_principal fnmatchcase endpoint_id model p s
        ≡ served fnmatchcase model (
            active_rows x.id p.organization_id (scope_workspace p.organization_id p.workspace_id) s)
  unfolding plan_for_principal plan_for_scope active_routes served
  plan_active x k on = rw (plan_for_principal, plan_for_scope, k, on) refl
