-- ===== src/Product/Routes/Mirrored.antt =====
-- The columns of `gateway_routes` that the queries of product/src/cyrene_exchange_product/store.py read,
-- `endpoint_id` and `workspace_id` among them, beside the document that they return.
-- `replace_route_version` does not write `endpoint_id`.
use cyrene_exchange.Product.Routes.Projected.{created-All, drafted-All, IsProjected}
use cyrene_exchange.Product.Routes.Versions.{
  replace_route_version-current, replace_route_version-stale, replace_route_version-absent,
  replaced_rows,
}
use cyrene_exchange.Product.Routes.Stored.{replace_route_version, get_route}
use cyrene_exchange.Product.Routes.Concurrent.{
  Change, drafted, created, replaced, elsewhere, Changes, here, next,
}
use cyrene_exchange.Product.Resources.{GatewayRoute, RouteRow}
use cyrene_exchange.Product.Tables.{Store}
use cyrene_exchange.Prelude.{
  none, ◌==◌, ==_iff, ◌∙◌, sym, [], ◌∷◌, inl, inr, refl, ℕ, ◌≡◌, List, All, Bool-cases,
  Option-cases,
}

-- The document has the id, priority, state, endpoint and workspace of the columns. It has no
-- organization: `organization_id` is not dumped, and the reader takes that of the column.
abbrev pub IsMirrored : RouteRow → Type 0
IsMirrored x =
    IsProjected x
    × (x.document.endpoint_id ≡ x.endpoint_id)
    × (x.document.workspace_id ≡ x.workspace_id)
    × (x.document.organization_id ≡ none)

-- A replacement has the endpoint of the document that it replaces, as one by `model_copy` has.
abbrev pub KeepsEndpoint : {s s' : Store} → Change s s' → Type 0
KeepsEndpoint (drafted d key digest scope source binding_route s) = Unit
KeepsEndpoint (created new s absent) = Unit
KeepsEndpoint (replaced new expected s v) =
    All (λ x. x.id ≡ new.id → x.document.endpoint_id ≡ new.endpoint_id) s.routes
KeepsEndpoint (elsewhere s s' e) = Unit

abbrev pub KeepEndpoints : {s s' : Store} → Changes s s' → Type 0
KeepEndpoints here = Unit
KeepEndpoints (next steps step) = KeepEndpoints steps × KeepsEndpoint step

replaced-IsMirrored :
    (r : GatewayRoute) (rows : List RouteRow)
    → All (λ x. x.id ≡ r.id → x.document.endpoint_id ≡ r.endpoint_id) rows
    → All IsMirrored rows
    → All IsMirrored (replaced_rows r rows)
replaced-IsMirrored r [] k h = tt
replaced-IsMirrored r (x ∷ rows) k h = elim (Bool-cases (x.id == r.id)) [
  | inl e ↦
      let own = (==_iff x.id r.id).0 e in
      let same = sym (k.0 own) ∙ h.0.1 in
      (rw e ((sym own, refl, refl), same, refl, refl), replaced-IsMirrored r rows k.1 h.1)
  | inr e ↦ (rw e h.0, replaced-IsMirrored r rows k.1 h.1)
]

replace-IsMirrored :
    (r : GatewayRoute) (expected : ℕ) (s : Store)
    → All (λ x. x.id ≡ r.id → x.document.endpoint_id ≡ r.endpoint_id) s.routes
    → All IsMirrored s.routes
    → All IsMirrored (replace_route_version r expected s).1.routes
replace-IsMirrored r expected s k h = elim (Option-cases (get_route r.id s)) [
  | inl e ↦ rw (replace_route_version-absent r expected s e) h
  | inr (old, e) ↦ elim (Bool-cases (old.resource_version == expected)) [
    | inr v ↦ rw (replace_route_version-stale r old expected s e v) h
    | inl v ↦
        rw (replace_route_version-current r old expected s e v) (replaced-IsMirrored r s.routes k h)
  ]
]

Change-IsMirrored :
    {s s' : Store} (c : Change s s')
    → KeepsEndpoint c
    → All IsMirrored s.routes
    → All IsMirrored s'.routes
Change-IsMirrored (drafted d key digest scope source binding_route s) k h =
    drafted-All IsMirrored (λ r. ((refl, refl, refl), refl, refl, refl)) d key digest scope source
      binding_route s h
Change-IsMirrored (created new s absent) k h =
    created-All IsMirrored (λ r. ((refl, refl, refl), refl, refl, refl)) new s h
Change-IsMirrored (replaced new expected s v) k h = replace-IsMirrored new expected s k h
Change-IsMirrored (elsewhere s s' e) k h = rw e h

-- Drafts, new routes under fresh ids, replacements by the next version that keep the endpoint of the
-- stored document and writes to other tables, in any number and order, keep every row of
-- `gateway_routes` with a document that has the id, priority, state, endpoint and workspace of its
-- columns and no organization.
pub Changes-IsMirrored :
    {s s' : Store} (steps : Changes s s')
    → KeepEndpoints steps
    → All IsMirrored s.routes
    → All IsMirrored s'.routes
Changes-IsMirrored here k h = h
Changes-IsMirrored (next steps step) k h =
    Change-IsMirrored step k.1 (Changes-IsMirrored steps k.0 h)
