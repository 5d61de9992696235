-- ===== src/Product/Routes/Retried.antt =====
-- A repeated "send to": `create_route_draft` of product/src/cyrene_exchange_product/store.py under an
-- idempotency key that was used.
use cyrene_exchange.Product.Routes.Concurrent.{mapped-routes, same_routes-get_route}
use cyrene_exchange.Product.Routes.Stored.{
  is_grant, is_absent, endpoint_exists, workspace_reactor_endpoint_is_granted,
  workspace_endpoint_is_granted, has_route, get_route, draft_body, admit_private, insert_route,
  create_route_draft,
}
use cyrene_exchange.Product.Keys.{at_key, resolve_idempotency, insert_mapping}
use cyrene_exchange.Prelude.{
  ◌&&◌, ◌++◌, ◌⊎◌, [], ◌∷◌, none, some, inl, inr, true, false, refl, ◌≡◌, Option, Uuid, String,
  Bool, arith, Option-cases, eq_refl, ==_refl, any, fetchone_last,
}
use cyrene_exchange.Outbox.Results.{
  guard-eq-ok, not_found, authorization, guard, >>=-eq-ok, ok, transaction-eq-ok,
}
use cyrene_exchange.Product.Resources.{RouteSource, GatewayRoute, row_of}
use cyrene_exchange.Product.Tables.{Store, Mapping, mutation}
use cyrene_exchange.Product.Routes.Admitted.{IsAdmitted, Replayed, Inserted, draft_body-cases}

resolved_mapping :
    (scope key digest : String) (id : Uuid) (s s' : Store)
    → insert_mapping scope (some key) digest id s ≡ ok s'
    → resolve_idempotency scope (some key) digest s' ≡ ok (some id)
unfolding insert_mapping resolve_idempotency
resolved_mapping scope key digest id s s' h =
    let m : Mapping = record {
      scope = scope;
      key = key;
      request_hash = digest;
      resource_id = id;
    } in
    let mappings : s'.idempotency ≡ s.idempotency ++ m ∷ [] = ground arith in
    let absent : any (at_key scope key) s.idempotency ≡ false = ground arith in
    let own : at_key scope key m ≡ true = rw (eq_refl scope, eq_refl key) refl in
    let found = fetchone_last (at_key scope key) s.idempotency m absent own in
    rw (mappings, resolve_idempotency, found, eq_refl digest) refl

inserted_route :
    (r : GatewayRoute) (s s' : Store) → insert_route r s ≡ ok s' → get_route r.id s' ≡ some r
unfolding insert_route get_route
inserted_route r s s' h =
    let rows : s'.routes ≡ s.routes ++ row_of r ∷ [] = ground arith in
    let absent : any (has_route r.id) s.routes ≡ false = ground arith in
    let found = fetchone_last (has_route r.id) s.routes (row_of r) absent (==_refl r.id) in
    rw (get_route, rows, found) refl

-- A draft that was created: the key resolves to it, and it is read back.
Kept : String → String → String → Store → GatewayRoute → Type 0
Kept key digest scope s a =
    (id : Uuid) × (resolve_idempotency scope (some key) digest s ≡ ok (some id))
    × (get_route id s ≡ some a)

created-Kept :
    (r : GatewayRoute) (key digest scope : String) (s : Store) (a : GatewayRoute) (s' : Store)
    → Replayed key digest scope s a s' ⊎ Inserted r key digest scope s a s'
    → Kept key digest scope s' a
unfolding Kept
created-Kept r key digest scope s a s' (inl (id, resolved, found, same)) =
    rw same (id, resolved, found)
created-Kept r key digest scope s a s' (inr (mid, fresh, e1, e2, same)) = (
  r.id,
  resolved_mapping scope key digest r.id mid s' e2,
  rw same (
      same_routes-get_route r r.id mid s' (mapped-routes scope key digest r.id mid s' e2)
        (inserted_route r s mid e1)),
)

-- After `create_route_draft` has returned a route under an idempotency key, a call with the same key,
-- scope and digest that passes the checks of its own scope returns the same route and writes nothing,
-- whatever draft and source it was called with.
pub create_route_draft-replay :
    (r r' : GatewayRoute) (key digest scope : String) (source source' : Option Uuid)
    (binding_route binding_route' : Bool) (s : Store) (a : GatewayRoute) (s' : Store)
    → create_route_draft r key digest scope source binding_route s ≡ (ok a, s')
    → IsAdmitted r' source' binding_route' s'
    → create_route_draft r' key digest scope source' binding_route' s' ≡ (ok a, s')
unfolding create_route_draft draft_body Kept
create_route_draft-replay r r' key digest scope source source' binding_route binding_route' s a s' h
      admitted =
    let done = transaction-eq-ok (draft_body r key digest scope source binding_route) h in
    let (id, resolved, found) =
      created-Kept r key digest scope s a s'
        (draft_body-cases r key digest scope source binding_route s done).1 in
    rw (admitted, draft_body, resolved, found, mutation) refl

-- A private draft, one with an organization and a workspace, is created or replayed only for an
-- endpoint that exists and that the operator granted to that organization and workspace, and either
-- from a granted Reactor endpoint or, for the binding route, without a source.
pub private-create_route_draft :
    (r : GatewayRoute) (o w : String) (key digest scope : String) (source : Option Uuid)
    (binding_route : Bool) (s : Store) (a : GatewayRoute) (s' : Store)
    → r.organization_id ≡ some o
    → r.workspace_id ≡ some w
    → create_route_draft r key digest scope source binding_route s ≡ (ok a, s')
    → (workspace_endpoint_is_granted r.endpoint_id o w s ≡ true)
      × (endpoint_exists r.endpoint_id s ≡ true)
      × (((id : Uuid) × (source ≡ some id)
            × (workspace_reactor_endpoint_is_granted id o w s ≡ true))
          ⊎ (source ≡ none) × (binding_route ≡ true) × (r.source ≡ none))
unfolding create_route_draft admit_private workspace_endpoint_is_granted
    workspace_reactor_endpoint_is_granted
private-create_route_draft r o w key digest scope source binding_route s a s' org ws h =
    let done = transaction-eq-ok (draft_body r key digest scope source binding_route) h in
    let admitted = rw org at (draft_body-cases r key digest scope source binding_route s done).0 in
    let (u, grant, h1) =
      >>=-eq-ok
        (guard (any (is_grant r.endpoint_id r.organization_id r.workspace_id) s.grants)
          (authorization "EXCHANGE_ROUTE_PERMISSION_DENIED"))
        _ admitted in
    let (v, there, h2) =
      >>=-eq-ok (guard (endpoint_exists r.endpoint_id s) (not_found "EXCHANGE_ENDPOINT_NOT_FOUND"))
        _ h1 in
    (
      rw (org, ws) at (guard-eq-ok _ _ grant),
      guard-eq-ok _ _ there,
      elim (Option-cases source) [
        | inr (id, e) ↦ inl (id, e, rw (org, ws) at (guard-eq-ok _ _ (rw e at h2)))
        | inl e ↦
            let b2 = both binding_route r.source (guard-eq-ok _ _ (rw e at h2)) in
            inr (e, b2.0, b2.1)
      ],
    )
  where
    both : (b : Bool) (o : Option RouteSource) → (b && is_absent o) ≡ true → (b ≡ true) × (o ≡ none)
    both b none h = (ground arith, refl)
    both b (some x) h = absurd (ground arith)
