-- ===== src/Product/Secrets.antt =====
-- What `create_api_key` and `revoke_api_key` of `ExchangeProductService` disclose
-- (product/src/cyrene_exchange_product/service.py).
use cyrene_exchange.Product.Replay.{create_api_key-replay}
use cyrene_exchange.Product.KeyService.{
  key_scope, key_digest, new_key, key_in_scope, revoke_owned_key, check_command, owned_api_key,
  create_owned_key, CreatedApiKey, CreateApiKeyRequest,
}
use cyrene_exchange.Prelude.{
  ◌∙◌, ap, sym, if◌then◌else◌, Option-cases, ◌^+◌, none, some, inl, inr, true, false, refl, ℕ, ◌≡◌,
  List, Option, Uuid, Time, String, Bool,
}
use cyrene_exchange.Outbox.Results.{Result-cases, not_found, ok, err, Result, Error}
use cyrene_exchange.Product.Tables.{Store, ProductPrincipal}
use cyrene_exchange.Product.Keys.{get_api_key, create_api_key, ApiKey}

-- The calls that pass the checks
checked_create :
    (sha256 strip : String → String) (command_json : CreateApiKeyRequest → String)
    (c : CreateApiKeyRequest) (p : ProductPrincipal) (key : Option String) (id : Uuid) (now : Time)
    (token : String) (row_time : ℕ) (s s' : Store) (scope : List String) (k : ApiKey) (made : Bool)
    → check_command strip c now ≡ ok scope
    → create_api_key
        (new_key c scope p id now)
        (sha256 ("cyk_" ^+ token))
        key
        (key_digest sha256 command_json c p)
        (key_scope sha256 command_json p)
        row_time
        s
      ≡ (ok (k, made), s')
    → create_owned_key sha256 strip command_json c p key id now token row_time s ≡ (
      ok (record { api_key = k; secret = if made then some ("cyk_" ^+ token) else none }, made),
      s',
    )
unfolding create_owned_key
checked_create sha256 strip command_json c p key id now token row_time s s' scope k made h h' =
    rw (create_owned_key, h, h') refl

refused_create :
    (sha256 strip : String → String) (command_json : CreateApiKeyRequest → String)
    (c : CreateApiKeyRequest) (p : ProductPrincipal) (key : Option String) (id : Uuid) (now : Time)
    (token : String) (row_time : ℕ) (s s' : Store) (scope : List String) (e : Error)
    → check_command strip c now ≡ ok scope
    → create_api_key
        (new_key c scope p id now)
        (sha256 ("cyk_" ^+ token))
        key
        (key_digest sha256 command_json c p)
        (key_scope sha256 command_json p)
        row_time
        s
      ≡ (err e, s')
    → create_owned_key sha256 strip command_json c p key id now token row_time s ≡ (err e, s')
unfolding create_owned_key
refused_create sha256 strip command_json c p key id now token row_time s s' scope e h h' =
    rw (create_owned_key, h, h') refl

failed :
    {e : Error} {a : CreatedApiKey × Bool} {t t' : Store}
    → ◌≡◌ {A = Result (CreatedApiKey × Bool) × Store} (err e, t) (ok a, t')
    → ⊥
failed h = cc

answered :
    {a b : CreatedApiKey} {made made' : Bool} {t t' : Store}
    → ◌≡◌ {A = Result (CreatedApiKey × Bool) × Store} (ok (a, made), t) (ok (b, made'), t')
    → (b ≡ a) × (made ≡ made') × (t ≡ t')
answered h = (cc, cc, cc)

-- A key's secret is shown once: after a call with an idempotency key has created a key, it answered
-- with the secret; and a call with the same command, principal and idempotency key that passes the
-- checks of the command answers with the same key and no secret, and writes nothing.
pub create_owned_key_once :
    (sha256 strip : String → String) (command_json : CreateApiKeyRequest → String)
    (c : CreateApiKeyRequest) (p : ProductPrincipal) (key : String) (id id' : Uuid)
    (now now' : Time) (token token' : String) (row_time row_time' : ℕ) (s s' : Store)
    (scope scope' : List String) (answer : CreatedApiKey)
    → check_command strip c now ≡ ok scope
    → check_command strip c now' ≡ ok scope'
    → create_owned_key sha256 strip command_json c p (some key) id now token row_time s
      ≡ (ok (answer, true), s')
    → (answer.secret ≡ some ("cyk_" ^+ token))
      × ((x : ApiKey) × (create_owned_key sha256 strip command_json c p
              (some key)
              id'
              now'
              token'
              row_time'
              s'
            ≡ (ok (record { api_key = x; secret = none }, false), s'))
          × (x.id ≡ id))
create_owned_key_once sha256 strip command_json c p key id id' now now' token token' row_time
      row_time' s s' scope scope' answer h h' done =
    elim (Result-cases made.0) [
      | inl (e, raised) ↦ absurd (
          failed (
            sym (
              refused_create sha256 strip command_json c p (some key) id now token row_time s made.1
                scope e h (ap (λ x. (x, made.1)) raised))
            ∙ done))
      | inr (r, returned) ↦
          let first : made ≡ (ok (r.0, r.1), made.1) = ap (λ x. (x, made.1)) returned in
          let end = answered (
            sym (
              checked_create sha256 strip command_json c p (some key) id now token row_time s made.1
                scope r.0 r.1 h first)
            ∙ done) in
          let wrote : made ≡ (ok (r.0, true), s') =
            first ∙ ap (λ b. (ok (r.0, b), made.1)) end.1 ∙ ap (λ t. (ok (r.0, true), t)) end.2 in
          let (x, again, same) =
            create_api_key-replay (new_key c scope p id now) (new_key c scope' p id' now')
              (sha256 ("cyk_" ^+ token)) (sha256 ("cyk_" ^+ token')) key
              (key_digest sha256 command_json c p) (key_scope sha256 command_json p) row_time
              row_time' s r.0 s' wrote in
          (
            ap (λ a. a.secret) end.0 ∙ rw (end.1) refl,
            (
              x,
              checked_create sha256 strip command_json c p (some key) id' now' token' row_time' s'
                  s' scope' x false h' again,
              same,
            ),
          )
    ]
  where
    made : Result (ApiKey × Bool) × Store
    made =
        create_api_key (new_key c scope p id now) (sha256 ("cyk_" ^+ token)) (some key)
          (key_digest sha256 command_json c p) (key_scope sha256 command_json p) row_time s

-- A principal of another workspace or organization than the key's learns nothing of it and cannot
-- revoke it: the call raises the error of an absent key and writes nothing.
pub foreign-revoke_owned_key :
    (id : Uuid) (p : ProductPrincipal) (now : ℕ) (s : Store)
    → ((k : ApiKey) → get_api_key id s ≡ some k → key_in_scope k p ≡ false)
    → (owned_api_key id p s ≡ err (not_found "EXCHANGE_API_KEY_NOT_FOUND"))
      × (revoke_owned_key id p now s ≡ (err (not_found "EXCHANGE_API_KEY_NOT_FOUND"), s))
unfolding owned_api_key revoke_owned_key
foreign-revoke_owned_key id p now s h = elim (Option-cases (get_api_key id s)) [
  | inl e ↦ (rw (owned_api_key, e) refl, rw (revoke_owned_key, owned_api_key, e) refl)
  | inr (k, e) ↦
      let other = h k e in
      (rw (owned_api_key, e, other) refl, rw (revoke_owned_key, owned_api_key, e, other) refl)
]
