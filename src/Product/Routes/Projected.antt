-- ===== src/Product/Routes/Projected.antt =====
-- The columns `id`, `priority` and `state` of `gateway_routes`, which the queries of
-- product/src/cyrene_exchange_product/store.py read, beside the document that they return.
use cyrene_exchange.Product.Routes.Admitted.{draft_body-cases}
use mathlib.Core.Path.{subst}
use cyrene_exchange.Product.Routes.Stored.{
  endpoint_exists, save_route_body, draft_body, save_route, create_route_draft, has_route,
  get_route,
}
use cyrene_exchange.Prelude.{
  not, ap, fetchone-holds, ==_iff, ◌++◌, [], ◌∷◌, some, inl, inr, ◌≡◌, List, Option, Uuid, String,
  Bool, fetchone, arith, Bool-cases, sym, ◌∙◌, All, select,
}
use cyrene_exchange.Outbox.Results.{Result-cases}
use cyrene_exchange.Product.Resources.{row_of, GatewayRoute, RouteRow}
use cyrene_exchange.Product.Tables.{Store, mutation}
use cyrene_exchange.Product.Routes.Concurrent.{inserted-routes, mapped-routes, some_row}

-- The document says what the columns say.
abbrev pub IsProjected : RouteRow → Type 0
IsProjected x =
    (x.document.id ≡ x.id) × (x.document.priority ≡ x.priority) × (x.document.state ≡ x.state)

-- What holds of the row of every route holds of the rows after an INSERT.
module _ (P : RouteRow → Type 0) (fresh : (r : GatewayRoute) → P (row_of r)) where
  append-All : (rows : List RouteRow) (x : RouteRow) → All P rows → P x → All P (rows ++ x ∷ [])
  append-All [] x h k = (k, tt)
  append-All (y ∷ rows) x h k = (h.0, append-All rows x h.1 k)

  select-All : (p : RouteRow → Bool) (rows : List RouteRow) → All P rows → All P (select p rows)
  unfolding select
  select-All p [] h = tt
  select-All p (x ∷ rows) h = elim (Bool-cases (p x)) [
    | inl e ↦ rw e (h.0, select-All p rows h.1)
    | inr e ↦ rw e (select-All p rows h.1)
  ]

  pub drafted-All :
      (d : GatewayRoute) (key digest scope : String) (source : Option Uuid) (binding_route : Bool)
      (s : Store)
      → All P s.routes
      → All P (create_route_draft d key digest scope source binding_route s).1.routes
  unfolding create_route_draft
  drafted-All d key digest scope source binding_route s h =
      elim (Result-cases (draft_body d key digest scope source binding_route s)) [
        | inl (e, raised) ↦ rw (raised, mutation) h
        | inr ((a, s'), done) ↦
            rw (done, mutation)
              (elim (draft_body-cases d key digest scope source binding_route s done).1 [
                | inl (known, resolved, found, same) ↦ rw same h
                | inr (mid, resolved, e1, e2, same) ↦
                    rw (mapped-routes scope key digest d.id mid s' e2, inserted-routes d s mid e1)
                      (append-All s.routes (row_of d) h (fresh _))
              ])
      ]

  pub created-All :
      (new : GatewayRoute) (s : Store) → All P s.routes → All P (save_route new s).1.routes
  unfolding save_route save_route_body
  created-All new s h = elim (Bool-cases (endpoint_exists new.endpoint_id s)) [
    | inr e ↦ rw (e, mutation) h
    | inl e ↦
        rw (e, mutation)
          (append-All _ (row_of new) (select-All (λ x. not (has_route new.id x)) s.routes h)
            (fresh _))
  ]

fetched :
    (p : RouteRow → Bool) (rows : List RouteRow) (x : RouteRow)
    → All IsProjected rows
    → fetchone p rows ≡ some x
    → IsProjected x
unfolding fetchone
fetched p [] x h e = absurd (ground arith)
fetched p (y ∷ rows) x h e = elim (Bool-cases (p y)) [
  | inl k ↦ let same : y ≡ x = ground arith in subst IsProjected same h.0
  | inr k ↦ fetched p rows x h.1 (ground arith)
]

pub fetched-id :
    (id : Uuid) (s : Store) (r : GatewayRoute)
    → All IsProjected s.routes
    → get_route id s ≡ some r
    → r.id ≡ id
fetched-id id s r h e =
    let (x, found, same) = some_row r id s e in
    let own = (==_iff x.id id).0 (fetchone-holds (has_route id) s.routes x found) in
    ap (λ y. y.id) (sym same) ∙ (fetched (has_route id) s.routes x h found).0 ∙ own
