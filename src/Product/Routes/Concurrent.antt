-- ===== src/Product/Routes/Concurrent.antt =====
-- What other requests do to `gateway_routes` while a confirmation or an edit runs: the reads of
-- product/src/cyrene_exchange_product/service.py are outside the transaction of their write.
use cyrene_exchange.Product.Routes.Admitted.{draft_body-cases}
use cyrene_exchange.Product.Routes.Versions.{
  view-replaced, replace_route_version-current, replace_route_version-stale,
  replace_route_version-absent,
}
use cyrene_exchange.Product.Keys.{insert_mapping}
use cyrene_exchange.Product.Routes.Stored.{
  endpoint_exists, save_route_body, draft_body, insert_route, has_route, save_route,
  replace_route_version, get_route, create_route_draft,
}
use cyrene_exchange.Prelude.{
  not, select, ap, ◌==◌, ◌++◌, ◌⊎◌, ◌+◌, [], ◌∷◌, none, some, inl, inr, refl, ℕ, ◌≡◌, List, Option,
  Uuid, String, Bool, fetchone, arith, Bool-cases, Option-cases, sym, ◌∙◌, ◌<◌,
}
use cyrene_exchange.Outbox.Results.{Result-cases, ok}
use cyrene_exchange.Product.Resources.{row_of, GatewayRoute, RouteRow, route_from_row}
use cyrene_exchange.Product.Tables.{Store, mutation}

-- A transaction that another caller commits. The service writes a replacement under the version after
-- the expected one, and saves a new route under a fresh id; the other methods do not write routes.
pub data Change : Store → Store → Type 0 where
  drafted :
      (r : GatewayRoute) (key digest scope : String) (source : Option Uuid) (binding_route : Bool)
      (s : Store)
      → Change s (create_route_draft r key digest scope source binding_route s).1
  created : (r : GatewayRoute) (s : Store) → get_route r.id s ≡ none → Change s (save_route r s).1
  replaced :
      (r : GatewayRoute) (expected : ℕ) (s : Store)
      → r.resource_version ≡ expected + 1
      → Change s (replace_route_version r expected s).1
  elsewhere : (s s' : Store) → s'.routes ≡ s.routes → Change s s'

pub data Changes (s : Store) : Store → Type 0 where
  here : Changes s s
  next : {t u : Store} → Changes s t → Change t u → Changes s u

-- The route is as it was, or a later version of it.
abbrev pub Later : GatewayRoute → Uuid → Store → Type 0
Later r id s =
    (r' : GatewayRoute) × (get_route id s ≡ some r')
    × ((r' ≡ r) ⊎ (r.resource_version < r'.resource_version))

Later-trans :
    (r r' : GatewayRoute) (id : Uuid) (s : Store)
    → ((r' ≡ r) ⊎ (r.resource_version < r'.resource_version))
    → Later r' id s
    → Later r id s
Later-trans r r' id s (inl e) (r'', got, inl k) = (r'', got, inl (k ∙ e))
Later-trans r r' id s (inl e) (r'', got, inr k) = (r'', got, inr (rw (sym e) k))
Later-trans r r' id s (inr e) (r'', got, inl k) = (r'', got, inr (rw k e))
Later-trans r r' id s (inr e) (r'', got, inr k) = (r'', got, inr (omega arith))

pub same_routes-get_route :
    (r : GatewayRoute) (id : Uuid) (s s' : Store)
    → s'.routes ≡ s.routes
    → get_route id s ≡ some r
    → get_route id s' ≡ some r
unfolding get_route
same_routes-get_route r id s s' e h = rw e h

fetchone-append :
    (id : Uuid) (row : RouteRow) (rows : List RouteRow) (x : RouteRow)
    → fetchone (has_route id) rows ≡ some x
    → fetchone (has_route id) (rows ++ row ∷ []) ≡ some x
unfolding fetchone
fetchone-append id row [] x h = cc
fetchone-append id row (y ∷ rows) x h = grind (arith, fetchone-append id row rows x)

pub some_row :
    (r : GatewayRoute) (id : Uuid) (s : Store)
    → get_route id s ≡ some r
    → (x : RouteRow) × (fetchone (has_route id) s.routes ≡ some x) × (route_from_row x ≡ r)
unfolding get_route
some_row r id s h = elim (Option-cases (fetchone (has_route id) s.routes)) [
  | inl k ↦ absurd (missing (rw (get_route, k) at h))
  | inr (x, k) ↦ (x, k, there (rw (get_route, k) at h))
]
  where
    missing : {a : GatewayRoute} → ◌≡◌ {A = Option GatewayRoute} none (some a) → ⊥
    missing h = cc

    there : {a b : GatewayRoute} → ◌≡◌ {A = Option GatewayRoute} (some a) (some b) → a ≡ b
    there h = cc

appended-get_route :
    (r : GatewayRoute) (row : RouteRow) (id : Uuid) (s s' : Store)
    → s'.routes ≡ s.routes ++ row ∷ []
    → get_route id s ≡ some r
    → get_route id s' ≡ some r
unfolding get_route
appended-get_route r row id s s' rows h =
    let (x, found, same) = some_row r id s h in
    let kept = fetchone-append id row s.routes x found in
    rw (get_route, rows, kept) (ap (λ y. some y) same)

pub inserted-routes :
    (new : GatewayRoute) (s s' : Store)
    → insert_route new s ≡ ok s'
    → s'.routes ≡ s.routes ++ row_of new ∷ []
unfolding insert_route
inserted-routes new s s' e = ground arith

inserted-get_route :
    (r new : GatewayRoute) (id : Uuid) (s s' : Store)
    → insert_route new s ≡ ok s'
    → get_route id s ≡ some r
    → get_route id s' ≡ some r
inserted-get_route r new id s s' e h =
    appended-get_route r (row_of new) id s s' (inserted-routes new s s' e) h

pub mapped-routes :
    (scope key digest : String) (id : Uuid) (s s' : Store)
    → insert_mapping scope (some key) digest id s ≡ ok s'
    → s'.routes ≡ s.routes
unfolding insert_mapping
mapped-routes scope key digest id s s' h = ground arith

replaced-Later :
    (r current : GatewayRoute) (expected : ℕ) (id : Uuid) (s : Store)
    → r.resource_version ≡ expected + 1
    → get_route id s ≡ some current
    → Later current id (replace_route_version r expected s).1
replaced-Later r current expected id s v h = elim (Option-cases (get_route r.id s)) [
  | inl e ↦ rw (replace_route_version-absent r expected s e) (current, h, inl refl)
  | inr (old, e) ↦ elim (Bool-cases (old.resource_version == expected)) [
    | inr k ↦ rw (replace_route_version-stale r old expected s e k) (current, h, inl refl)
    | inl k ↦
        rw (replace_route_version-current r old expected s e k) (elim (Bool-cases (r.id == id)) [
          | inl own ↦ (r, view-replaced r s old id e ∙ rw own refl, inr (grind arith))
          | inr other ↦ (current, view-replaced r s old id e ∙ rw other h, inl refl)
        ])
  ]
]

drafted-get_route :
    (r current : GatewayRoute) (key digest scope : String) (source : Option Uuid)
    (binding_route : Bool) (id : Uuid) (s s' : Store) (a : GatewayRoute)
    → draft_body r key digest scope source binding_route s ≡ ok (a, s')
    → get_route id s ≡ some current
    → get_route id s' ≡ some current
drafted-get_route r current key digest scope source binding_route id s s' a done h =
    elim (draft_body-cases r key digest scope source binding_route s done).1 [
      | inl (known, resolved, found, same) ↦ rw same h
      | inr (mid, resolved, e1, e2, same) ↦
          let rows = mapped-routes scope key digest r.id mid s' e2 in
          same_routes-get_route current id mid s' rows (inserted-get_route current r id s mid e1 h)
    ]

drafted-Later :
    (r current : GatewayRoute) (key digest scope : String) (source : Option Uuid)
    (binding_route : Bool) (id : Uuid) (s : Store)
    → get_route id s ≡ some current
    → Later current id (create_route_draft r key digest scope source binding_route s).1
unfolding create_route_draft
drafted-Later r current key digest scope source binding_route id s h =
    elim (Result-cases (draft_body r key digest scope source binding_route s)) [
      | inl (e, raised) ↦ rw (raised, mutation) (current, h, inl refl)
      | inr ((a, s'), done) ↦
          rw (done, mutation)
            (
              current,
              drafted-get_route r current key digest scope source binding_route id s s' a done h,
              inl refl,
            )
    ]

present : {a : GatewayRoute} → ◌≡◌ {A = Option GatewayRoute} (some a) none → ⊥
present h = cc

-- The rows that `INSERT OR REPLACE` of a fresh id deletes: none.
fresh-select :
    (id : Uuid) (rows : List RouteRow)
    → fetchone (has_route id) rows ≡ none
    → select (λ x. not (has_route id x)) rows ≡ rows
unfolding fetchone select
fresh-select id [] h = refl
fresh-select id (x ∷ rows) h = grind (arith, fresh-select id rows)

created-Later :
    (r current : GatewayRoute) (id : Uuid) (s : Store)
    → get_route r.id s ≡ none
    → get_route id s ≡ some current
    → Later current id (save_route r s).1
unfolding save_route save_route_body get_route
created-Later r current id s fresh h = elim (Bool-cases (endpoint_exists r.endpoint_id s)) [
  | inr e ↦ rw (e, mutation) (current, h, inl refl)
  | inl e ↦ elim (Option-cases (fetchone (has_route r.id) s.routes)) [
    | inr (x, k) ↦ absurd (present (rw (get_route, k) at fresh))
    | inl k ↦
        rw (e, mutation)
          (
            current,
            appended-get_route current (row_of r) id s
                (record s {
                  routes = select (λ x. not (has_route r.id x)) s.routes ++ row_of r ∷ [];
                })
                (ap (λ rows. rows ++ row_of r ∷ []) (fresh-select r.id s.routes k)) h,
            inl refl,
          )
  ]
]

pub Change-Later :
    (r : GatewayRoute) (id : Uuid) {s s' : Store}
    → Change s s'
    → get_route id s ≡ some r
    → Later r id s'
Change-Later r id (drafted d key digest scope source binding_route s) h =
    drafted-Later d r key digest scope source binding_route id s h
Change-Later r id (created new s fresh) h = created-Later new r id s fresh h
Change-Later r id (replaced new expected s v) h = replaced-Later new r expected id s v h
Change-Later r id (elsewhere s s' e) h = (r, same_routes-get_route r id s s' e h, inl refl)

pub Changes-Later :
    (r : GatewayRoute) (id : Uuid) {s s' : Store}
    → Changes s s'
    → get_route id s ≡ some r
    → Later r id s'
Changes-Later r id here h = (r, h, inl refl)
Changes-Later r id (next {t = t} {u = u} steps step) h =
    let (r', got, later) = Changes-Later r id steps h in
    Later-trans r r' id u later (Change-Later r' id step got)
