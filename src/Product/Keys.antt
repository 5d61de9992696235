-- ===== src/Product/Keys.antt =====
-- Server-generated keys and idempotency: `resolve_idempotency`, `remember_idempotency`,
-- `create_api_key`, `get_api_key` and `revoke_api_key` of
-- product/src/cyrene_exchange_product/store.py.
use Prim.Native.Nat.{◌/◌}
use cyrene_exchange.Product.Credentials.{has_digest, has_ref, scope_of}
use cyrene_exchange.Product.Tables.{mutation, Store, Mapping, Credential}
use cyrene_exchange.Prelude.{
  ◌++◌, ◌&&◌, map, any, str_eq, fetchone, ◌==◌, ◌+◌, ◌*◌, Time, opt_nat_eq, not, if◌then◌else◌,
  Uuid, String, Bool, [], ◌∷◌, none, some, true, false, ℕ, List, Option,
}
use cyrene_exchange.Outbox.Results.{
  integrity, conflict, value_error, guard, ok, err, Result, ◌>>=◌, ◌>>◌,
}

pub data ApiKeyState : Type 0 where
  active revoked : ApiKeyState

pub record ApiKey : Type 0 where
  pub id : Uuid
  pub name : String
  pub credential_ref : String
  pub actor_id : String
  pub workspace_id : String
  pub organization_id : Option String
  pub state : ApiKeyState
  pub model_scope : List String
  pub created_at : Time
  pub updated_at : Time
  pub expires_at : Option Time
  pub revoked_at : Option Time
  pub resource_version : ℕ

-- `_to_unix_ms`, which drops the microseconds, and `_from_unix_ms`
abbrev pub to_unix_ms : Option Time → Option ℕ
to_unix_ms none = none
to_unix_ms (some t) = some (t / 1000)

abbrev pub from_unix_ms : Option ℕ → Option Time
from_unix_ms none = none
from_unix_ms (some ms) = some (ms * 1000)

abbrev pub at_key : String → String → Mapping → Bool
at_key scope key m = str_eq m.scope scope && str_eq m.key key

unfoldable pub resolve_idempotency : String → Option String → String → Store → Result (Option Uuid)
resolve_idempotency scope none digest s = ok none
resolve_idempotency scope (some key) digest s = elim (fetchone (at_key scope key) s.idempotency) [
  | none ↦ ok none
  | some m ↦
      if str_eq m.request_hash digest
      then ok (some m.resource_id)
      else err (conflict "EXCHANGE_IDEMPOTENCY_CONFLICT")
]

-- `INSERT INTO idempotency`, whose primary key is (scope, key), when there is a key.
unfoldable pub insert_mapping : String → Option String → String → Uuid → Store → Result Store
insert_mapping scope none digest id s = ok s
insert_mapping scope (some key) digest id s = do
  guard (not (any (at_key scope key) s.idempotency))
      (integrity "idempotency.scope, idempotency.key")
  ok (record s {
    idempotency =
        s.idempotency
        ++ record { scope = scope; key = key; request_hash = digest; resource_id = id } ∷ [];
  })

unfoldable pub remember_idempotency :
    String → Option String → String → Uuid → Store → Result (Unit {0}) × Store
remember_idempotency scope key digest id =
    mutation λ s. do stored ← insert_mapping scope key digest id s; ok (tt, stored)

-- `bool(value)` of an optional integer: None and 0 are false.
abbrev pub is_nonzero : Option ℕ → Bool
is_nonzero none = false
is_nonzero (some n) = not (n == 0)

abbrev pub or_zero : Option ℕ → ℕ → ℕ
or_zero none d = d
or_zero (some n) d = if n == 0 then d else n

abbrev pub shown_name : Option String → String
shown_name none = "None"
shown_name (some s) = s

abbrev pub api_key_of : Uuid → Credential → ApiKey
api_key_of id c = record {
  id = id;
  name = shown_name c.name;
  credential_ref = c.credential_ref;
  actor_id = c.actor_id;
  workspace_id = c.workspace_id;
  organization_id = c.organization_id;
  state = if is_nonzero c.revoked_at then revoked else active;
  model_scope = scope_of c.model_scope;
  created_at = c.created_at * 1000;
  updated_at = or_zero c.revoked_at c.created_at * 1000;
  expires_at = from_unix_ms c.expires_at;
  revoked_at = from_unix_ms c.revoked_at;
  resource_version = c.resource_version;
}

-- `_api_key_from_row`; a row without an `api_key_id` is not a key.
unfoldable pub api_key_from_row : Credential → Option ApiKey
api_key_from_row c = elim c.api_key_id [ none ↦ none | some id ↦ some (api_key_of id c) ]

-- `SELECT * FROM api_credentials WHERE api_key_id = ?`
abbrev pub has_key : Uuid → Credential → Bool
has_key id c = opt_nat_eq c.api_key_id (some id)

unfoldable pub get_api_key : Uuid → Store → Option ApiKey
get_api_key id s = elim (fetchone (has_key id) s.credentials) [
  | none ↦ none
  | some c ↦ api_key_from_row c
]

abbrev pub credential_row : ApiKey → String → ℕ → Credential
credential_row k digest now = record {
  credential_ref = k.credential_ref;
  token_digest = digest;
  actor_id = k.actor_id;
  workspace_id = k.workspace_id;
  organization_id = k.organization_id;
  enabled = true;
  created_at = now;
  api_key_id = some k.id;
  name = some k.name;
  expires_at = to_unix_ms k.expires_at;
  revoked_at = none;
  model_scope = some k.model_scope;
  resource_version = k.resource_version;
}

-- The primary key and the two unique indexes of `api_credentials`.
unfoldable pub insert_credential : Credential → Store → Result Store
insert_credential c s = do
  guard (not (any (has_ref c.credential_ref) s.credentials))
      (integrity "api_credentials.credential_ref")
  guard (not (any (has_digest c.token_digest) s.credentials))
      (integrity "api_credentials.token_digest")
  guard (not (any (λ d. elim c.api_key_id [ none ↦ false | some id ↦ has_key id d ]) s.credentials))
      (integrity "api_credentials.api_key_id")
  ok (record s { credentials = s.credentials ++ c ∷ [] })

-- The RuntimeError on a mapping without its key is a `value_error` here.
unfoldable pub create_body :
    ApiKey → String → Option String → String → String → ℕ → Store → Result ((ApiKey × Bool) × Store)
create_body api_key digest key request_digest scope now s = do
  replay ← resolve_idempotency scope key request_digest s
  elim replay [
    | some id ↦ elim (get_api_key id s) [
      | none ↦ err (value_error "api-key idempotency points to an absent key")
      | some existing ↦ ok ((existing, false), s)
    ]
    | none ↦ do
      inserted ← insert_credential (credential_row api_key digest now) s
      stored ← insert_mapping scope key request_digest api_key.id inserted
      ok ((api_key, true), stored)
  ]

unfoldable pub create_api_key :
    ApiKey → String → Option String → String → String → ℕ → Store → Result (ApiKey × Bool) × Store
create_api_key api_key digest key request_digest scope now =
    mutation (create_body api_key digest key request_digest scope now)

abbrev pub revoke_row : ℕ → Credential → Credential
revoke_row now c = record c {
  enabled = false;
  revoked_at = some now;
  resource_version = c.resource_version + 1;
}

unfoldable pub revoke_api_key : Uuid → ℕ → Store → Option ApiKey × Store
revoke_api_key id now s = elim (fetchone (has_key id) s.credentials) [
  | none ↦ (none, s)
  | some c ↦
      if is_nonzero c.revoked_at
      then (api_key_from_row c, s)
      else (let revoked_rows =
            map (λ d. if has_key id d then revoke_row now d else d) s.credentials in
          let s' = record s { credentials = revoked_rows } in (get_api_key id s', s'))
]
