-- ===== src/Product/KeyService.antt =====
-- The API-key operations of `ExchangeProductService` in
-- product/src/cyrene_exchange_product/service.py, over the store's in Product/Keys. The caller passes
-- what `uuid4`, `utc_now` and `token_urlsafe` return; pydantic's `model_dump_json` and the SHA-256 of
-- hashlib are parameters, and so is `str.strip`.
use cyrene_exchange.Product.Routes.Drafts.{nul}
use cyrene_exchange.Product.Routes.Service.{after}
use cyrene_exchange.Prelude.{
  not, opt_eq, ◌&&◌, uuid_text, ltb, if◌then◌else◌, ◌^+◌, str_eq, none, some, ℕ, List, Option, Uuid,
  Time, String, Bool, any, map,
}
use cyrene_exchange.Outbox.Results.{validation, or_raise, not_found, guard, ok, err, Result, ◌>>◌}
use cyrene_exchange.Product.Tables.{Store, ProductPrincipal}
use cyrene_exchange.Product.Keys.{revoke_api_key, get_api_key, create_api_key, ApiKey, active}

pub record CreateApiKeyRequest : Type 0 where
  pub name : String
  pub expires_at : Option Time
  pub model_scope : List String

pub record CreatedApiKey : Type 0 where
  pub api_key : ApiKey
  pub secret : Option String

unfoldable pub key_in_scope : ApiKey → ProductPrincipal → Bool
key_in_scope k p =
    str_eq k.workspace_id p.workspace_id && opt_eq k.organization_id p.organization_id

unfoldable pub owned_api_key : Uuid → ProductPrincipal → Store → Result ApiKey
owned_api_key id p s = elim (get_api_key id s) [
  | none ↦ err (not_found "EXCHANGE_API_KEY_NOT_FOUND")
  | some k ↦ if key_in_scope k p then ok k else err (not_found "EXCHANGE_API_KEY_NOT_FOUND")
]

unfoldable pub revoke_owned_key : Uuid → ProductPrincipal → ℕ → Store → Result ApiKey × Store
revoke_owned_key id p now s =
    after (owned_api_key id p s)
      (λ k. λ s.
        let (revoked, s') = revoke_api_key id now s in
        (or_raise revoked (not_found "EXCHANGE_API_KEY_NOT_FOUND"), s'))
      s

abbrev pub new_key : CreateApiKeyRequest → List String → ProductPrincipal → Uuid → Time → ApiKey
new_key c scope p id now = record {
  id = id;
  name = c.name;
  credential_ref = "api-key://" ^+ uuid_text id;
  actor_id = p.actor_id;
  workspace_id = p.workspace_id;
  organization_id = p.organization_id;
  state = active;
  model_scope = scope;
  created_at = now;
  updated_at = now;
  expires_at = c.expires_at;
  revoked_at = none;
  resource_version = 1;
}

unfoldable pub check_command : (String → String) → CreateApiKeyRequest → Time → Result (List String)
check_command strip c now = do
  elim c.expires_at [
    | none ↦ ok tt
    | some t ↦ guard (ltb now t) (validation "EXCHANGE_API_KEY_EXPIRY_INVALID")
  ]
  guard (not (any (λ pattern. str_eq pattern "") (map strip c.model_scope)))
      (validation "EXCHANGE_API_KEY_SCOPE_INVALID")
  ok (map strip c.model_scope)

module _ (sha256 : String → String) (command_json : CreateApiKeyRequest → String) where
  -- The digest source ends with the organization, when there is one.
  unfoldable pub key_digest : CreateApiKeyRequest → ProductPrincipal → String
  key_digest c p =
      let source = sha256 (command_json c) ^+ nul ^+ p.workspace_id ^+ nul ^+ p.actor_id in
      sha256 (elim p.organization_id [ none ↦ source | some o ↦ source ^+ nul ^+ o ])

  unfoldable pub key_scope : ProductPrincipal → String
  key_scope p = elim p.organization_id [
    | none ↦ "create-api-key"
    | some o ↦ "create-api-key:v1:" ^+ sha256 (o ^+ nul ^+ p.workspace_id)
  ]

module _ (sha256 strip : String → String) (command_json : CreateApiKeyRequest → String) where
  unfoldable pub create_owned_key :
      CreateApiKeyRequest
      → ProductPrincipal
      → Option String
      → Uuid
      → Time
      → String
      → ℕ
      → Store
      → Result (CreatedApiKey × Bool) × Store
  create_owned_key c p key id now token row_time s =
      after (check_command strip c now)
        (λ scope. λ s.
          let secret = "cyk_" ^+ token in
          let (stored, s') =
            create_api_key (new_key c scope p id now) (sha256 secret) key
              (key_digest sha256 command_json c p) (key_scope sha256 command_json p) row_time s in
          after stored
            (λ answer. λ s. (
              ok (
                record { api_key = answer.0; secret = if answer.1 then some secret else none },
                answer.1,
              ),
              s,
            ))
            s')
        s
