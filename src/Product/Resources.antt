-- ===== src/Product/Resources.antt =====
-- The endpoints, routes and grants of product/src/cyrene_exchange_product/domain.py, and their rows
-- in product/src/cyrene_exchange_product/store.py.
use cyrene_exchange.Prelude.{Uuid, Bool, String, ℕ, Option, none, Time, true, false}

pub data EndpointState : Type 0 where
  active disabled : EndpointState

pub data RouteState : Type 0 where
  active disabled draft : RouteState

pub record RouteSource : Type 0 where
  pub resource_uri : String
  pub resource_version : ℕ
  pub artifact_digest : String
  pub model_version_id : Option String

pub record GatewayEndpoint : Type 0 where
  pub id : Uuid
  pub name : String
  pub state : EndpointState
  pub public_base_url : String
  pub auth_policy_ref : String
  pub created_at : Time
  pub updated_at : Time
  pub resource_version : ℕ

pub record GatewayRoute : Type 0 where
  pub id : Uuid
  pub endpoint_id : Uuid
  pub state : RouteState
  pub model_pattern : String
  pub target_binding_id : String
  pub target_model : Option String
  pub priority : ℕ
  pub created_at : Time
  pub updated_at : Time
  pub resource_version : ℕ
  pub source : Option RouteSource
  pub created_by : Option String
  pub workspace_id : Option String
  pub organization_id : Option String

-- A row of `gateway_routes`. Its JSON document leaves the organization out.
pub record RouteRow : Type 0 where
  pub id : Uuid
  pub endpoint_id : Uuid
  pub priority : ℕ
  pub state : RouteState
  pub document : GatewayRoute
  pub organization_id : Option String
  pub workspace_id : Option String

-- `WorkspaceEndpointGrant` and `WorkspaceReactorEndpointGrant`, and the rows of their tables.
pub record Grant : Type 0 where
  pub endpoint_id : Uuid
  pub organization_id : String
  pub workspace_id : String

-- `endpoint.state == EndpointState.ACTIVE`
abbrev pub endpoint_is_active : GatewayEndpoint → Bool
endpoint_is_active e = elim e.state [ EndpointState.active ↦ true | EndpointState.disabled ↦ false ]

-- `state = 'ACTIVE'`
abbrev pub is_active : RouteState → Bool
is_active RouteState.active = true
is_active RouteState.disabled = false
is_active draft = false

-- `state == RouteState.DRAFT`
abbrev pub is_draft : RouteState → Bool
is_draft draft = true
is_draft RouteState.active = false
is_draft RouteState.disabled = false

-- `model_dump_json(by_alias=True, exclude_none=True)`
abbrev pub document_of : GatewayRoute → GatewayRoute
document_of r = record r { organization_id = none }

-- `_route_from_row`: the scope columns are the authority.
abbrev pub route_from_row : RouteRow → GatewayRoute
route_from_row row = record row.document {
  organization_id = row.organization_id;
  workspace_id = row.workspace_id;
}

abbrev pub row_of : GatewayRoute → RouteRow
row_of r = record {
  id = r.id;
  endpoint_id = r.endpoint_id;
  priority = r.priority;
  state = r.state;
  document = document_of r;
  organization_id = r.organization_id;
  workspace_id = r.workspace_id;
}
