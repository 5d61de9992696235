-- ===== src/Product/Routes/Confirm.antt =====
-- The confirmation and the edit of a draft, while other requests commit between their read and their
-- write: `confirm_workspace_route_draft` and `edit_route_draft` of
-- product/src/cyrene_exchange_product/service.py.
use mathlib.Core.Path.{subst}
use cyrene_exchange.Product.Routes.Service.{
  legacy_route_or_404, EditRouteDraftRequest, endpoint_or_404, route_or_404,
}
use cyrene_exchange.Product.Routes.Versions.{
  view-replaced, replace_route_version-current, replace_route_version-stale,
  replace_route_version-absent,
}
use cyrene_exchange.Product.Routes.Concurrent.{Changes-Later, Changes, here, next}
use cyrene_exchange.Product.Routes.Stored.{get_endpoint, replace_route_version, get_route}
use cyrene_exchange.Product.Routes.Projected.{fetched-id, IsProjected}
use cyrene_exchange.Product.Routes.Drafts.{
  edited, owned_draft, granted_to, check_target, activated, get_owned_workspace_draft,
  inspect_workspace_draft,
}
use cyrene_exchange.Prelude.{
  ◌+◌, ◌==◌, ◌&&◌, opt_eq, some, inl, inr, true, refl, ℕ, ◌≡◌, Option, Uuid, Time, arith,
  Bool-cases, Option-cases, sym, ◌∙◌, ap, All, ==_iff, ==_refl,
}
use cyrene_exchange.Outbox.Results.{
  or_raise-eq-ok, conflict, authorization, guard, not_found, or_raise, Error, ok, err, Result,
  >>=-eq-ok, guard-eq-ok,
}
use cyrene_exchange.Product.Resources.{
  is_active, GatewayRoute, GatewayEndpoint, is_draft, endpoint_is_active,
}
use cyrene_exchange.Product.Tables.{Store, ProductPrincipal}

-- What a private confirmation checks of the draft `r` that it reads in the tables `s`, with the grant
-- and the endpoint that it then reads.
pub record IsConfirmable (validate_target : GatewayRoute → Result (Unit {0})) (id : Uuid)
    (version : ℕ) (p : ProductPrincipal) (s granting publishing : Store) (r : GatewayRoute)
    : Type 0 where
  pub stored : get_route id s ≡ some r
  pub current : r.resource_version ≡ version
  pub drafted : is_draft r.state ≡ true
  pub owned : opt_eq r.created_by (some p.actor_id) ≡ true
  pub scoped :
      (opt_eq r.organization_id p.organization_id && opt_eq r.workspace_id (some p.workspace_id))
      ≡ true
  pub granted : granted_to r p granting ≡ true
  pub endpoint : GatewayEndpoint
  pub published : get_endpoint r.endpoint_id publishing ≡ some endpoint
  pub enabled : endpoint_is_active endpoint ≡ true
  pub validated : validate_target r ≡ ok tt

value_of : {r a : GatewayRoute} → ◌≡◌ {A = Result GatewayRoute} (ok r) (ok a) → a ≡ r
value_of h = cc

pub inspected-IsConfirmable :
    (validate_target : GatewayRoute → Result (Unit {0})) (id : Uuid) (version : ℕ)
    (p : ProductPrincipal) (s granting publishing : Store) {a : GatewayRoute}
    → inspect_workspace_draft validate_target id version p s granting publishing ≡ ok a
    → IsConfirmable validate_target id version p s granting publishing a
unfolding inspect_workspace_draft get_owned_workspace_draft check_target route_or_404
    endpoint_or_404
inspected-IsConfirmable validate_target id version p s granting publishing {a} h =
    let (r, owned, h1) = >>=-eq-ok (get_owned_workspace_draft id p s) _ h in
    let (u, checked, h2) =
      >>=-eq-ok (check_target validate_target r version (granted_to r p granting) publishing) _
        h1 in
    let (r1, found, h3) =
      >>=-eq-ok (or_raise (get_route id s) (not_found "EXCHANGE_ROUTE_NOT_FOUND")) _ owned in
    let (u1, scope, h4) =
      >>=-eq-ok
        (guard
          (opt_eq r1.organization_id p.organization_id
            && opt_eq r1.workspace_id (some p.workspace_id))
          (not_found "EXCHANGE_ROUTE_NOT_FOUND"))
        _ h3 in
    let (u2, owner, h5) =
      >>=-eq-ok
        (guard (opt_eq r1.created_by (some p.actor_id))
          (authorization "EXCHANGE_ROUTE_PERMISSION_DENIED"))
        _ h4 in
    let (u3, state, h6) =
      >>=-eq-ok (guard (is_draft r1.state) (conflict "EXCHANGE_ROUTE_NOT_DRAFT")) _ h5 in
    let (u4, version_ok, h7) =
      >>=-eq-ok (guard (r.resource_version == version) (conflict "EXCHANGE_ROUTE_VERSION_CONFLICT"))
        _ checked in
    let (u5, grant, h8) =
      >>=-eq-ok (guard (granted_to r p granting) (authorization "EXCHANGE_ROUTE_PERMISSION_DENIED"))
        _ h7 in
    let (e, there, h9) =
      >>=-eq-ok
        (or_raise (get_endpoint r.endpoint_id publishing) (not_found "EXCHANGE_ENDPOINT_NOT_FOUND"))
        _ h8 in
    let (u6, on, h10) =
      >>=-eq-ok (guard (endpoint_is_active e) (conflict "EXCHANGE_ENDPOINT_DISABLED")) _ h9 in
    let made : IsConfirmable validate_target id version p s granting publishing r = record {
      stored = or_raise-eq-ok (get_route id s) _ found ∙ ap (λ x. some x) (sym (value_of h6));
      current = (==_iff r.resource_version version).0 (guard-eq-ok _ _ version_ok);
      drafted = rw (value_of h6) (guard-eq-ok _ _ state);
      owned = rw (value_of h6) (guard-eq-ok _ _ owner);
      scoped = rw (value_of h6) (guard-eq-ok _ _ scope);
      granted = guard-eq-ok _ _ grant;
      endpoint = e;
      published = or_raise-eq-ok (get_endpoint r.endpoint_id publishing) _ there;
      enabled = guard-eq-ok _ _ on;
      validated = h10;
    } in
    subst (IsConfirmable validate_target id version p s granting publishing) (sym (value_of h2))
      made

-- A replacement that returns met the expected version, and leaves its route.
pub replaced_ok :
    (r : GatewayRoute) (expected : ℕ) (s : Store) {a : GatewayRoute} {s' : Store}
    → replace_route_version r expected s ≡ (ok a, s')
    → (current : GatewayRoute) × (get_route r.id s ≡ some current)
      × (current.resource_version ≡ expected)
      × (a ≡ r)
      × (get_route r.id s' ≡ some r)
replaced_ok r expected s {a} {s'} h = elim (Option-cases (get_route r.id s)) [
  | inl e ↦ absurd (failed (sym (replace_route_version-absent r expected s e) ∙ h))
  | inr (current, e) ↦ elim (Bool-cases (current.resource_version == expected)) [
    | inr k ↦ absurd (failed (sym (replace_route_version-stale r current expected s e k) ∙ h))
    | inl k ↦
        let end = wrote (sym (replace_route_version-current r current expected s e k) ∙ h) in
        (
          current,
          e,
          (==_iff current.resource_version expected).0 k,
          end.0,
          rw (end.1) (view-replaced r s current r.id e ∙ rw (==_refl r.id) refl),
        )
  ]
]
  where
    failed :
        {x : Error} {a : GatewayRoute} {t t' : Store}
        → ◌≡◌ {A = Result GatewayRoute × Store} (err x, t) (ok a, t')
        → ⊥
    failed h = cc

    wrote :
        {b a : GatewayRoute} {t t' : Store}
        → ◌≡◌ {A = Result GatewayRoute × Store} (ok b, t) (ok a, t')
        → (a ≡ b) × (t' ≡ t)
    wrote h = (cc, cc)

Changes-trans : {s t u : Store} → Changes s t → Changes t u → Changes s u
Changes-trans first here = first
Changes-trans first (next steps step) = next (Changes-trans first steps) step

-- A confirmation of a private draft reads the draft `r` in the tables `s`, where the documents have the
-- ids, priorities and states of their rows, then the grant, then the endpoint, and then its write
-- returns; in between, other requests commit any number of drafts, new routes under fresh ids,
-- replacements by the next version and writes to other tables. Then `r` passed every check of the
-- confirmation, each in the tables that it read, the route was still exactly `r` when the write
-- began, and it is now `r` in the ACTIVE state under the next version.
pub confirmed_as_inspected :
    (validate_target : GatewayRoute → Result (Unit {0})) (id : Uuid) (version : ℕ)
    (p : ProductPrincipal) (now : Time) (s granting publishing s' s'' : Store) (r a : GatewayRoute)
    → All IsProjected s.routes
    → inspect_workspace_draft validate_target id version p s granting publishing ≡ ok r
    → Changes s granting
    → Changes granting publishing
    → Changes publishing s'
    → replace_route_version (activated version now r) version s' ≡ (ok a, s'')
    → IsConfirmable validate_target id version p s granting publishing r
      × (get_route id s' ≡ some r)
      × (get_route id s'' ≡ some (activated version now r))
confirmed_as_inspected validate_target id version p now s granting publishing s' s'' r a wf read
      others1 others2 others3 write =
    let others = Changes-trans (Changes-trans others1 others2) others3 in
    let c = inspected-IsConfirmable validate_target id version p s granting publishing read in
    let own = fetched-id id s r wf c.stored in
    let (x, found, versioned, same, left) =
      replaced_ok (activated version now r) version s' write in
    let (y, got, later) = Changes-Later r id others c.stored in
    let met : get_route id s' ≡ some x = ap (λ i. get_route i s') (sym own) ∙ found in
    let agree : x ≡ y = shown (sym met ∙ got) in
    let end : get_route id s'' ≡ some (activated version now r) =
      ap (λ i. get_route i s'') (sym own) ∙ left in
    (
      c,
      elim later [
        | inl e ↦ got ∙ ap (λ z. some z) e
        | inr newer ↦
            let v : y.resource_version ≡ version =
              ap (λ z. z.resource_version) (sym agree) ∙ versioned in
            let w = c.current in absurd (omega arith)
      ],
      end,
    )
  where
    shown : {x y : GatewayRoute} → ◌≡◌ {A = Option GatewayRoute} (some x) (some y) → x ≡ y
    shown h = cc

owned_draft-is_draft :
    (id : Uuid) (p : ProductPrincipal) (s : Store) (r : GatewayRoute)
    → owned_draft id p s ≡ ok r
    → is_draft r.state ≡ true
unfolding owned_draft
owned_draft-is_draft id p s r read =
    let (r1, found, h1) = >>=-eq-ok (legacy_route_or_404 id s) _ read in
    let (u1, owner, h2) =
      >>=-eq-ok
        (guard
          (opt_eq r1.workspace_id (some p.workspace_id) && opt_eq r1.created_by (some p.actor_id))
          (authorization "EXCHANGE_ROUTE_PERMISSION_DENIED"))
        _ h1 in
    let (u2, state, h3) =
      >>=-eq-ok (guard (is_draft r1.state) (conflict "EXCHANGE_ROUTE_NOT_DRAFT")) _ h2 in
    rw (value_of h3) (guard-eq-ok _ _ state)

-- An edit reads a draft; a confirmation commits; then the write of the edit, whose command names the
-- version after the one that was read, returns and puts the route back in the DRAFT state.
pub edit_reverts_confirmation :
    (id : Uuid) (c : EditRouteDraftRequest) (p : ProductPrincipal) (now later : Time) (s s' : Store)
    (r : GatewayRoute)
    → owned_draft id p s ≡ ok r
    → get_route r.id s' ≡ some (activated r.resource_version now r)
    → c.resource_version ≡ r.resource_version + 1
    → (is_active (activated r.resource_version now r).state ≡ true)
      × ((replace_route_version (edited c later r) c.resource_version s').0 ≡ ok (edited c later r))
      × (get_route r.id (replace_route_version (edited c later r) c.resource_version s').1
          ≡ some (edited c later r))
      × (is_draft (edited c later r).state ≡ true)
edit_reverts_confirmation id c p now later s s' r read confirmed v =
    let on : (r.resource_version + 1 == c.resource_version) ≡ true =
      (==_iff (r.resource_version + 1) c.resource_version).1 (sym v) in
    let done =
      replace_route_version-current (edited c later r) (activated r.resource_version now r)
        c.resource_version s' confirmed on in
    (
      refl,
      rw done refl,
      rw done (
          view-replaced (edited c later r) s' (activated r.resource_version now r) r.id confirmed
          ∙ rw (==_refl r.id) refl),
      owned_draft-is_draft id p s r read,
    )
