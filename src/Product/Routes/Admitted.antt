-- ===== src/Product/Routes/Admitted.antt =====
-- How a draft is admitted: `create_route_draft` of product/src/cyrene_exchange_product/store.py.
use cyrene_exchange.Product.Routes.Stored.{insert_route, get_route, draft_body, admit_private}
use cyrene_exchange.Product.Keys.{insert_mapping, resolve_idempotency}
use cyrene_exchange.Prelude.{
  sym, ap, ◌∙◌, none, some, inl, inr, ◌≡◌, Option, Uuid, String, Bool, Option-cases, ◌⊎◌,
}
use cyrene_exchange.Outbox.Results.{ok, err, Result, Error, >>=-eq-ok}
use cyrene_exchange.Product.Resources.{GatewayRoute}
use cyrene_exchange.Product.Tables.{Store}

raised :
    {x : Error} {r : GatewayRoute × Store}
    → ◌≡◌ {A = Result (GatewayRoute × Store)} (err x) (ok r)
    → ⊥
raised h = cc

returned :
    {a b : GatewayRoute} {s t : Store}
    → ◌≡◌ {A = Result (GatewayRoute × Store)} (ok (a, s)) (ok (b, t))
    → (b ≡ a) × (t ≡ s)
returned h = (cc, cc)

-- A creation that returns has passed the checks of its scope.
abbrev pub IsAdmitted : GatewayRoute → Option Uuid → Bool → Store → Type 0
IsAdmitted r source binding_route s =
    elim r.organization_id as (λ x. Result (Unit {0})) [
      | none ↦ ok tt
      | some o ↦ admit_private r source binding_route s
    ]
    ≡ ok tt

abbrev pub Replayed : String → String → String → Store → GatewayRoute → Store → Type 0
Replayed key digest scope s a s' =
    (id : Uuid) × (resolve_idempotency scope (some key) digest s ≡ ok (some id))
    × (get_route id s ≡ some a)
    × (s' ≡ s)

abbrev pub Inserted :
    GatewayRoute → String → String → String → Store → GatewayRoute → Store → Type 0
Inserted r key digest scope s a s' =
    (mid : Store) × (resolve_idempotency scope (some key) digest s ≡ ok none)
    × (insert_route r s ≡ ok mid)
    × (insert_mapping scope (some key) digest r.id mid ≡ ok s')
    × (a ≡ r)

pub draft_body-cases :
    (r : GatewayRoute) (key digest scope : String) (source : Option Uuid) (binding_route : Bool)
    (s : Store) {a : GatewayRoute} {s' : Store}
    → draft_body r key digest scope source binding_route s ≡ ok (a, s')
    → IsAdmitted r source binding_route s
      × (Replayed key digest scope s a s' ⊎ Inserted r key digest scope s a s')
unfolding draft_body
draft_body-cases r key digest scope source binding_route s {a} {s'} done =
    let (u, admitted, h1) =
      >>=-eq-ok
        (elim r.organization_id as (λ x. Result (Unit {0})) [
          | none ↦ ok tt
          | some o ↦ admit_private r source binding_route s
        ])
        _ done in
    let (replay, resolved, h2) = >>=-eq-ok (resolve_idempotency scope (some key) digest s) _ h1 in
    (
      admitted,
      elim (Option-cases replay) [
        | inr (known, e) ↦ elim (Option-cases (get_route known s)) [
          | inl k ↦ absurd (raised (rw (e, k) at h2))
          | inr (existing, k) ↦
              let end = returned (rw (e, k) at h2) in
              inl (known, resolved ∙ ap (λ x. ok x) e, k ∙ ap (λ x. some x) (sym end.0), end.1)
        ]
        | inl e ↦
            let (mid, e1, h3) = >>=-eq-ok (insert_route r s) _ (rw e at h2) in
            let (stored, e2, h4) =
              >>=-eq-ok (insert_mapping scope (some key) digest r.id mid) _ h3 in
            let end = returned h4 in
            inr (mid, resolved ∙ ap (λ x. ok x) e, e1, e2 ∙ ap (λ x. ok x) (sym end.1), end.0)
      ],
    )
