-- ===== src/Product/Routes/Tests.antt =====
-- The theorems on routes and on the service's keys at concrete tables.
use cyrene_exchange.Product.Secrets.{create_owned_key_once}
use cyrene_exchange.Product.KeyService.{
  key_scope, key_digest, new_key, check_command, create_owned_key, CreatedApiKey,
  CreateApiKeyRequest,
}
use mathlib.Core.List.{Perm}
use cyrene_exchange.Product.Routes.Retried.{private-create_route_draft, create_route_draft-replay}
use cyrene_exchange.Product.Routes.Confirm.{
  confirmed_as_inspected, IsConfirmable, edit_reverts_confirmation,
}
use cyrene_exchange.Product.Keys.{
  insert_credential, create_body, create_api_key, ApiKey, insert_mapping, resolve_idempotency,
}
use cyrene_exchange.Product.Routes.Listing.{
  active_in, insert_by, scope_is_complete, order_by, active_rows, active_routes,
}
use cyrene_exchange.Product.Routes.Versions.{
  replace_route_version-compare_and_set, view, compare_and_set, seen,
}
use cyrene_exchange.Product.Routes.Tenants.{
  plan_for_principal-in_tenant, plan_for_principal-Serves, Serves,
}
use cyrene_exchange.Product.Routes.Stored.{
  workspace_reactor_endpoint_is_granted, endpoint_exists, workspace_endpoint_is_granted,
  insert_route, get_endpoint, get_route, get_legacy_route, admit_private, replace_body, draft_body,
  replace_route_version, create_route_draft,
}
use cyrene_exchange.Product.Routes.Mirrored.{Changes-IsMirrored, IsMirrored}
use cyrene_exchange.Product.Routes.Partition.{active_rows_partition, IsRead, InOrder}
use cyrene_exchange.Product.Routes.Plan.{in_tenant}
use cyrene_exchange.Prelude.{
  ◌++◌, List, ◌^+◌, Uuid, uuid_text, ◌⊎◌, fetchone, any, [], ◌∷◌, none, some, true, false, refl,
  ◌≡◌, Option, String, Bool, All, select, str_eq,
}
use cyrene_exchange.Outbox.Results.{ok, Result}
use cyrene_exchange.Product.Resources.{
  RouteRow, EndpointState, draft, GatewayEndpoint, GatewayRoute, Grant, row_of, is_active, is_draft,
}
use cyrene_exchange.Product.Tables.{Store, ProductPrincipal, RequestPrincipal}
use cyrene_exchange.Product.Routes.Service.{
  endpoint_or_404, route_or_404, legacy_route_or_404, EditRouteDraftRequest,
}
use cyrene_exchange.Product.Routes.Drafts.{
  granted_to, check_target, get_owned_workspace_draft, owned_draft, inspect_workspace_draft, edited,
  activated,
}
use cyrene_exchange.Product.Routes.Planner.{plan_for_scope, plan_for_principal}
use cyrene_exchange.Product.Routes.Concurrent.{replaced, here, next, elsewhere, drafted}

abbrev owner : ProductPrincipal
owner = record {
  actor_id = "ann";
  workspace_id = "lab";
  credential_ref = "control://1";
  organization_id = some "org";
}

abbrev endpoint : GatewayEndpoint
endpoint = record {
  id = 1;
  name = "public";
  state = EndpointState.active;
  public_base_url = "https://gateway";
  auth_policy_ref = "policy://default";
  created_at = 1;
  updated_at = 1;
  resource_version = 1;
}

abbrev private_draft : GatewayRoute
private_draft = record {
  id = 7;
  endpoint_id = 1;
  state = draft;
  model_pattern = "gpt-4";
  target_binding_id = "binding";
  target_model = some "gpt";
  priority = 10;
  created_at = 2;
  updated_at = 2;
  resource_version = 1;
  source = none;
  created_by = some "ann";
  workspace_id = some "lab";
  organization_id = some "org";
}

abbrev other_draft : GatewayRoute
other_draft = record private_draft { id = 8; workspace_id = some "other" }

abbrev lab : Grant
lab = record { endpoint_id = 1; organization_id = "org"; workspace_id = "lab" }

abbrev empty : Store
empty = record {
  endpoints = endpoint ∷ [];
  routes = [];
  grants = lab ∷ [];
  source_grants = [];
  credentials = [];
  idempotency = [];
  audits = [];
}

abbrev kept : Store
kept = (create_route_draft private_draft "once" "digest" "scope" none true empty).1

create_route_draft-replay_example :
    create_route_draft (record private_draft { id = 9 }) "once" "digest" "scope" none true kept
    ≡ (ok private_draft, kept)
unfolding create_route_draft draft_body admit_private any resolve_idempotency insert_route
    insert_mapping fetchone
create_route_draft-replay_example =
    create_route_draft-replay private_draft (record private_draft { id = 9 }) "once" "digest"
      "scope" none none true true empty private_draft kept refl refl

abbrev routed : Store
routed = record empty { routes = row_of private_draft ∷ row_of other_draft ∷ [] }

abbrev no_source : Option Uuid
no_source = none

private-create_route_draft_example :
    (workspace_endpoint_is_granted 1 "org" "lab" empty ≡ true)
    × (endpoint_exists 1 empty ≡ true)
    × (((id : Uuid) × (no_source ≡ some id)
          × (workspace_reactor_endpoint_is_granted id "org" "lab" empty ≡ true))
        ⊎ (no_source ≡ none) × (true ≡ true) × (private_draft.source ≡ none))
unfolding create_route_draft draft_body admit_private any resolve_idempotency insert_route
    insert_mapping fetchone
private-create_route_draft_example =
    private-create_route_draft private_draft "org" "lab" "once" "digest" "scope" none true empty
      private_draft kept refl refl refl

replace_route_version-compare_and_set_example :
    seen (replace_route_version (activated 1 5 private_draft) 1 routed)
    ≡ compare_and_set (activated 1 5 private_draft) 1 (view routed)
replace_route_version-compare_and_set_example =
    replace_route_version-compare_and_set (activated 1 5 private_draft) 1 routed

Changes-IsMirrored_example :
    All IsMirrored (replace_route_version (activated 1 5 private_draft) 1 kept).1.routes
unfolding create_route_draft draft_body admit_private any resolve_idempotency insert_route
    insert_mapping fetchone
Changes-IsMirrored_example =
    Changes-IsMirrored
      (next (next here (drafted private_draft "once" "digest" "scope" none true empty))
        (replaced (activated 1 5 private_draft) 1 kept refl))
      ((tt, tt), (λ e. refl, tt)) tt

accepts : GatewayRoute → Result (Unit {0})
accepts r = ok tt

-- Another workspace's draft comes in between.
abbrev granted : Store
granted = record routed { grants = lab ∷ record lab { workspace_id = "other" } ∷ [] }

abbrev confirmed : Store
confirmed = (replace_route_version (activated 1 5 private_draft) 1 granted).1

confirmed_as_inspected_example :
    IsConfirmable accepts 7 1 owner routed routed granted private_draft
    × (get_route 7 granted ≡ some private_draft)
    × (get_route 7 confirmed ≡ some (activated 1 5 private_draft))
unfolding inspect_workspace_draft get_owned_workspace_draft check_target route_or_404
    endpoint_or_404 get_route get_endpoint granted_to workspace_endpoint_is_granted any fetchone
    replace_route_version replace_body accepts
confirmed_as_inspected_example =
    confirmed_as_inspected accepts 7 1 owner 5 routed routed granted granted confirmed private_draft
      (activated 1 5 private_draft) ((refl, refl, refl), ((refl, refl, refl), tt)) refl here
      (next here (elsewhere routed granted refl)) here refl

abbrev legacy : GatewayRoute
legacy = record private_draft { organization_id = none }

abbrev edit : EditRouteDraftRequest
edit = record {
  resource_version = 2;
  model_pattern = "*";
  target_binding_id = "binding";
  target_model = "gpt";
  priority = 1;
}

edit_reverts_confirmation_example :
    (is_active (activated 1 5 legacy).state ≡ true)
    × ((replace_route_version
          (edited edit 6 legacy)
          2
          (record empty { routes = row_of (activated 1 5 legacy) ∷ [] })).0
        ≡ ok (edited edit 6 legacy))
    × (get_route 7
          (replace_route_version
            (edited edit 6 legacy)
            2
            (record empty { routes = row_of (activated 1 5 legacy) ∷ [] })).1
        ≡ some (edited edit 6 legacy))
    × (is_draft (edited edit 6 legacy).state ≡ true)
unfolding owned_draft legacy_route_or_404 get_legacy_route get_route fetchone
edit_reverts_confirmation_example =
    edit_reverts_confirmation 7 edit owner 5 6 (record empty { routes = row_of legacy ∷ [] })
      (record empty { routes = row_of (activated 1 5 legacy) ∷ [] }) legacy refl refl refl

active_rows_partition_example :
    (others : List RouteRow) × Perm confirmed.routes
      (active_rows 1 (some "org") (some "lab") confirmed ++ others)
    × All (IsRead 1 (some "org") (some "lab")) (active_rows 1 (some "org") (some "lab") confirmed)
    × All (λ x. IsRead 1 (some "org") (some "lab") x → ⊥) others
    × InOrder (active_rows 1 (some "org") (some "lab") confirmed)
active_rows_partition_example = active_rows_partition 1 (some "org") (some "lab") confirmed

abbrev caller : RequestPrincipal
caller = record {
  actor_id = "ann";
  workspace_id = "lab";
  credential_ref = "api-key://5";
  model_scope = [];
  organization_id = some "org";
}

-- A pattern without wildcards
literal : String → String → Bool
literal name pattern = str_eq name pattern

plan_for_principal-Serves_example :
    All
      (Serves literal 1 "gpt-4" caller confirmed)
      (plan_for_principal literal 1 "gpt-4" caller confirmed)
plan_for_principal-Serves_example = plan_for_principal-Serves literal 1 "gpt-4" caller confirmed

plan_for_principal-in_tenant_example :
    plan_for_principal literal 1 "gpt-4" caller
      (record confirmed { routes = row_of (activated 1 5 private_draft) ∷ [] })
    ≡ plan_for_principal literal 1 "gpt-4" caller confirmed
unfolding select in_tenant replace_route_version replace_body get_route fetchone
plan_for_principal-in_tenant_example =
    plan_for_principal-in_tenant literal 1 "gpt-4" caller confirmed
      (record confirmed { routes = row_of (activated 1 5 private_draft) ∷ [] }) refl refl

confirmed_plan :
    plan_for_principal literal 1 "gpt-4" caller confirmed
    ≡ record { provider_ref = "binding"; route_id = uuid_text 7; model = some "gpt" } ∷ []
unfolding plan_for_principal plan_for_scope active_routes active_rows order_by insert_by active_in
    scope_is_complete get_endpoint fetchone select literal replace_route_version replace_body
    get_route
confirmed_plan = refl

abbrev command : CreateApiKeyRequest
command = record { name = "key"; expires_at = some 100; model_scope = "gpt-*" ∷ [] }

unhashed : String → String
unhashed s = s

json : CreateApiKeyRequest → String
json c = c.name

abbrev once : Result (CreatedApiKey × Bool) × Store
once = create_owned_key unhashed unhashed json command owner (some "once") 5 9 "first" 9 empty

abbrev made : ApiKey
made = new_key command ("gpt-*" ∷ []) owner 5 9

create_owned_key_once_example :
    (some "cyk_first" ≡ some ("cyk_" ^+ "first"))
    × ((x : ApiKey) × (create_owned_key unhashed unhashed json command owner
            (some "once")
            6
            10
            "second"
            10
            once.1
          ≡ (ok (record { api_key = x; secret = none }, false), once.1))
        × (x.id ≡ 5))
unfolding create_owned_key check_command any unhashed create_api_key create_body resolve_idempotency
    fetchone insert_credential insert_mapping key_digest key_scope json
create_owned_key_once_example =
    create_owned_key_once unhashed unhashed json command owner "once" 5 6 9 10 "first" "second" 9 10
      empty once.1 ("gpt-*" ∷ []) ("gpt-*" ∷ [])
      (record { api_key = made; secret = some "cyk_first" }) refl refl refl
