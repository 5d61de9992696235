-- ===== src/Product/Credentials.antt =====
-- Bearer credentials: `configure_credentials`, `disable_credential` and the three resolutions of
-- product/src/cyrene_exchange_product/store.py. A digest is the SHA-256 of a token, and `now` is the
-- clock of the call in milliseconds.
use cyrene_exchange.Product.Tables.{mutation, Store, RequestPrincipal, ProductPrincipal, Credential}
use cyrene_exchange.Prelude.{
  map, not, any, ◌&&◌, str_eq, ltb, if◌then◌else◌, fetchone, String, Bool, [], ◌∷◌, none, some,
  true, false, ℕ, List, Option,
}
use cyrene_exchange.Outbox.Results.{value_error, guard, ◌>>◌, ◌>>=◌, ok, err, Result}

abbrev pub has_ref : String → Credential → Bool
has_ref ref c = str_eq c.credential_ref ref

abbrev pub has_digest : String → Credential → Bool
has_digest digest c = str_eq c.token_digest digest

-- `INSERT INTO api_credentials … ON CONFLICT(credential_ref) DO UPDATE SET …`
abbrev pub configured : ProductPrincipal → String → ℕ → Credential
configured p digest now = record {
  credential_ref = p.credential_ref;
  token_digest = digest;
  actor_id = p.actor_id;
  workspace_id = p.workspace_id;
  organization_id = p.organization_id;
  enabled = true;
  created_at = now;
  api_key_id = none;
  name = none;
  expires_at = none;
  revoked_at = none;
  model_scope = none;
  resource_version = 1;
}

abbrev pub reconfigured : ProductPrincipal → String → Credential → Credential
reconfigured p digest c = record c {
  token_digest = digest;
  actor_id = p.actor_id;
  workspace_id = p.workspace_id;
  organization_id = p.organization_id;
  enabled = true;
}

unfoldable pub upsert : ProductPrincipal → String → ℕ → List Credential → List Credential
upsert p digest now [] = configured p digest now ∷ []
upsert p digest now (c ∷ cs) =
    if has_ref p.credential_ref c then reconfigured p digest c ∷ cs else c ∷ upsert p digest now cs

-- `if existing_ref is not None and existing_ref["token_digest"] != digest`
unfoldable pub ref_is_free : ProductPrincipal → String → List Credential → Bool
ref_is_free p digest cs = elim (fetchone (has_ref p.credential_ref) cs) [
  | none ↦ true
  | some c ↦ has_digest digest c
]

-- `if existing_digest is not None and existing_digest["credential_ref"] != principal.credential_ref`
unfoldable pub digest_is_free : ProductPrincipal → String → List Credential → Bool
digest_is_free p digest cs = elim (fetchone (has_digest digest) cs) [
  | none ↦ true
  | some c ↦ has_ref p.credential_ref c
]

-- One turn of the loop over the prepared credentials.
unfoldable pub configure_one : ProductPrincipal → String → ℕ → Store → Result Store
configure_one p digest now s = do
  guard (ref_is_free p digest s.credentials)
      (value_error "credential_ref is already bound to a different token")
  guard (digest_is_free p digest s.credentials)
      (value_error "token is already bound to a different credential_ref")
  ok (record s { credentials = upsert p digest now s.credentials })

unfoldable pub configure_all : List (ProductPrincipal × String) → ℕ → Store → Result Store
configure_all [] now s = ok s
configure_all ((p, digest) ∷ prepared) now s = do
  one ← configure_one p digest now s
  configure_all prepared now one

unfoldable pub configure_body :
    List (ProductPrincipal × String) → ℕ → Store → Result (Unit {0} × Store)
configure_body prepared now s = do done ← configure_all prepared now s; ok (tt, done)

-- Each token must have a character that `str.strip` keeps.
unfoldable pub prepare :
    (String → String)
    → (String → String)
    → List (String × ProductPrincipal)
    → Result (List (ProductPrincipal × String))
prepare sha256 strip [] = ok []
prepare sha256 strip ((token, p) ∷ credentials) = do
  guard (not (str_eq (strip token) "")) (value_error "credential token must be non-empty text")
  rest ← prepare sha256 strip credentials
  ok ((p, sha256 token) ∷ rest)

unfoldable pub configure_credentials :
    (String → String)
    → (String → String)
    → List (String × ProductPrincipal)
    → ℕ
    → Store
    → Result (Unit {0}) × Store
configure_credentials sha256 strip credentials now s = elim (prepare sha256 strip credentials) [
  | err e ↦ (err e, s)
  | ok prepared ↦ mutation (configure_body prepared now) s
]

-- `disable_credential`, with its rowcount test.
unfoldable pub disable_credential : String → Store → Bool × Store
disable_credential ref s = (
  any (λ c. has_ref ref c && c.enabled) s.credentials,
  record s {
    credentials =
        map (λ c. if has_ref ref c then record c { enabled = false } else c) s.credentials;
  },
)

-- `expires_at IS NULL OR expires_at > ?`
abbrev pub is_live : Option ℕ → ℕ → Bool
is_live none now = true
is_live (some t) now = ltb now t

abbrev pub resolves : String → ℕ → Credential → Bool
resolves digest now c = has_digest digest c && (c.enabled && is_live c.expires_at now)

abbrev pub scope_of : Option (List String) → List String
scope_of none = []
scope_of (some scope) = scope

abbrev pub request_principal : Credential → RequestPrincipal
request_principal c = record {
  actor_id = c.actor_id;
  workspace_id = c.workspace_id;
  credential_ref = c.credential_ref;
  model_scope = scope_of c.model_scope;
  organization_id = c.organization_id;
}

abbrev pub product_principal : Credential → ProductPrincipal
product_principal c = record {
  actor_id = c.actor_id;
  workspace_id = c.workspace_id;
  credential_ref = c.credential_ref;
  organization_id = c.organization_id;
}

abbrev pub is_operators : Credential → Bool
is_operators c = elim c.api_key_id [ none ↦ true | some id ↦ false ]

module _ (sha256 : String → String) where
  unfoldable pub resolve_credential : String → ℕ → Store → Option RequestPrincipal
  resolve_credential token now s =
      if str_eq token ""
      then none
      else elim (fetchone (resolves (sha256 token) now) s.credentials) [
        | none ↦ none
        | some c ↦ some (request_principal c)
      ]

  -- `row is None or (row["api_key_id"] is None and digest not in configured_gateway_digests)`
  unfoldable pub resolve_data_plane_credential :
      String → List String → ℕ → Store → Option RequestPrincipal
  resolve_data_plane_credential token gateway now s =
      if str_eq token ""
      then none
      else elim (fetchone (resolves (sha256 token) now) s.credentials) [
        | none ↦ none
        | some c ↦
            if is_operators c && not (any (str_eq (sha256 token)) gateway)
            then none
            else some (request_principal c)
      ]

  unfoldable pub resolve_product_credential : String → ℕ → Store → Option ProductPrincipal
  resolve_product_credential token now s =
      if str_eq token ""
      then none
      else elim (fetchone (λ c. resolves (sha256 token) now c && is_operators c) s.credentials) [
        | none ↦ none
        | some c ↦ some (product_principal c)
      ]
