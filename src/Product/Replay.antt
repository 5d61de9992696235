-- ===== src/Product/Replay.antt =====
-- Idempotent creation of a key (`create_api_key` of store.py).
use mathlib.Core.Path.{subst}
use cyrene_exchange.Product.Tables.{Credential, Mapping, mutation, Store}
use cyrene_exchange.Product.Keys.{
  api_key_of, insert_mapping, credential_row, insert_credential, create_api_key, api_key_from_row,
  get_api_key, has_key, resolve_idempotency, at_key, create_body, ApiKey,
}
use cyrene_exchange.Prelude.{
  fetchone_last, ◌∙◌, if◌then◌else◌, ==_refl, eq_refl, str_eq, Option-cases, arith, ◌++◌, Bool, any,
  String, fetchone, [], ◌∷◌, some, inl, inr, true, false, refl, ℕ, ◌≡◌,
}
use cyrene_exchange.Outbox.Results.{conflict, >>=-eq-ok, Error, ok, err, Result}

mutation-eq-ok :
    {A : Type 0} (body : Store → Result (A × Store)) {s t : Store} {a : A}
    → mutation body s ≡ (ok a, t)
    → body s ≡ ok (a, t)
mutation-eq-ok {A = A} body {s} {t} {a} h = go (body s) h
  where
    go :
        (r : Result (A × Store))
        → elim r as (λ x. Result A × Store) [ ok (a, s') ↦ (ok a, s') | err e ↦ (err e, s) ]
          ≡ (ok a, t)
        → r ≡ ok (a, t)
    go (ok (b, s')) h = cc
    go (err e) h = cc

-- What a creation under an idempotency key leaves: the mapping and the row, which the SELECTs find.
record Created (k : ApiKey) (key digest scope : String) (s : Store) : Type 0 where
  mapping : Mapping
  found : fetchone (at_key scope key) s.idempotency ≡ some mapping
  hash : mapping.request_hash ≡ digest
  resource : mapping.resource_id ≡ k.id
  row : Credential
  stored : fetchone (has_key k.id) s.credentials ≡ some row
  row_id : row.api_key_id ≡ some k.id

inserted-Created :
    (k : ApiKey) (secret key digest scope : String) (now : ℕ) (s mid s' : Store)
    → insert_credential (credential_row k secret now) s ≡ ok mid
    → insert_mapping scope (some key) digest k.id mid ≡ ok s'
    → Created k key digest scope s'
unfolding insert_credential insert_mapping
inserted-Created k secret key digest scope now s mid s' h h' =
    let row = credential_row k secret now in
    let m : Mapping = record {
      scope = scope;
      key = key;
      request_hash = digest;
      resource_id = k.id;
    } in
    let rows : mid.credentials ≡ s.credentials ++ row ∷ [] = ground arith in
    let kept : s'.credentials ≡ mid.credentials = ground arith in
    let mappings : s'.idempotency ≡ mid.idempotency ++ m ∷ [] = ground arith in
    let absent : any (at_key scope key) mid.idempotency ≡ false = ground arith in
    let unkeyed : any (has_key k.id) s.credentials ≡ false = ground arith in
    let own : at_key scope key m ≡ true = rw (eq_refl scope, eq_refl key) refl in
    record {
      mapping = m;
      found = rw mappings (fetchone_last (at_key scope key) mid.idempotency m absent own);
      hash = refl;
      resource = refl;
      row = row;
      stored =
          rw (kept, rows) (fetchone_last (has_key k.id) s.credentials row unkeyed (==_refl k.id));
      row_id = refl;
    }

create_body-Created :
    (k : ApiKey) (secret key digest scope : String) (now : ℕ) (s : Store) (a : ApiKey) (s' : Store)
    → create_body k secret (some key) digest scope now s ≡ ok ((a, true), s')
    → Created k key digest scope s'
unfolding create_body
create_body-Created k secret key digest scope now s a s' h =
    let (replay, e, h1) = >>=-eq-ok (resolve_idempotency scope (some key) digest s) _ h in
    elim (Option-cases replay) [
      | inr (id, r) ↦ elim (Option-cases (get_api_key id s)) [
        | inl absent ↦ absurd (raised (rw (r, absent) at h1))
        | inr (x, there) ↦ absurd (replayed (rw (r, there) at h1))
      ]
      | inl fresh ↦
          let (mid, e1, h2) =
            >>=-eq-ok (insert_credential (credential_row k secret now) s) _ (rw fresh at h1) in
          let (end, e2, h3) = >>=-eq-ok (insert_mapping scope (some key) digest k.id mid) _ h2 in
          subst (Created k key digest scope) (created h3)
            (inserted-Created k secret key digest scope now s mid end e1 e2)
    ]
  where
    raised :
        {x : Error} {r : (ApiKey × Bool) × Store}
        → ◌≡◌ {A = Result ((ApiKey × Bool) × Store)} (err x) (ok r)
        → ⊥
    raised h = cc

    replayed :
        {x b : ApiKey} {t t' : Store}
        → ◌≡◌ {A = Result ((ApiKey × Bool) × Store)} (ok ((x, false), t)) (ok ((b, true), t'))
        → ⊥
    replayed h = cc

    created :
        {x b : ApiKey} {t t' : Store}
        → ◌≡◌ {A = Result ((ApiKey × Bool) × Store)} (ok ((x, true), t)) (ok ((b, true), t'))
        → t ≡ t'
    created h = cc

Created-get_api_key :
    (k : ApiKey) (key digest scope : String) (s : Store)
    → Created k key digest scope s
    → (x : ApiKey) × (get_api_key k.id s ≡ some x) × (x.id ≡ k.id)
unfolding get_api_key api_key_from_row
Created-get_api_key k key digest scope s c =
    let row = c.stored in
    let id = c.row_id in (api_key_of k.id c.row, rw (row, get_api_key, id) refl, refl)

Created-resolve_idempotency :
    (k : ApiKey) (key digest digest' scope : String) (s : Store)
    → Created k key digest scope s
    → resolve_idempotency scope (some key) digest' s ≡ (
        if str_eq digest digest'
        then ok (some k.id)
        else err (conflict "EXCHANGE_IDEMPOTENCY_CONFLICT"))
unfolding resolve_idempotency
Created-resolve_idempotency k key digest digest' scope s c =
    let found = c.found in
    let hash = c.hash in
    let resource = c.resource in rw (found, resolve_idempotency, hash, resource) refl

-- After a key was created under an idempotency key, a call of `create_api_key` with the same
-- idempotency key, scope and request digest returns a key with the id of the first one, says that it
-- did not create it, and writes nothing, whatever key and secret it was called with.
pub create_api_key-replay :
    (k k' : ApiKey) (secret secret' key digest scope : String) (now now' : ℕ) (s : Store)
    (a : ApiKey) (s' : Store)
    → create_api_key k secret (some key) digest scope now s ≡ (ok (a, true), s')
    → (x : ApiKey) × (create_api_key k' secret' (some key) digest scope now' s'
        ≡ (ok (x, false), s'))
      × (x.id ≡ k.id)
unfolding create_api_key create_body
create_api_key-replay k k' secret secret' key digest scope now now' s a s' h =
    let c =
      create_body-Created k secret key digest scope now s a s'
        (mutation-eq-ok (create_body k secret (some key) digest scope now) h) in
    let (x, got, same) = Created-get_api_key k key digest scope s' c in
    let resolved : resolve_idempotency scope (some key) digest s' ≡ ok (some k.id) =
      Created-resolve_idempotency k key digest digest scope s' c ∙ rw (eq_refl digest) refl in
    (x, rw (resolved, create_body, got, mutation) refl, same)

-- After a key was created under an idempotency key, a call of `create_api_key` with the same
-- idempotency key and scope but another request digest raises a conflict and writes nothing.
pub create_api_key-conflict :
    (k k' : ApiKey) (secret secret' key digest digest' scope : String) (now now' : ℕ) (s : Store)
    (a : ApiKey) (s' : Store)
    → create_api_key k secret (some key) digest scope now s ≡ (ok (a, true), s')
    → str_eq digest digest' ≡ false
    → create_api_key k' secret' (some key) digest' scope now' s'
      ≡ (err (conflict "EXCHANGE_IDEMPOTENCY_CONFLICT"), s')
unfolding create_api_key create_body
create_api_key-conflict k k' secret secret' key digest digest' scope now now' s a s' h other =
    let c =
      create_body-Created k secret key digest scope now s a s'
        (mutation-eq-ok (create_body k secret (some key) digest scope now) h) in
    let resolved : resolve_idempotency scope (some key) digest' s'
        ≡ err (conflict "EXCHANGE_IDEMPOTENCY_CONFLICT") =
      Created-resolve_idempotency k key digest digest' scope s' c ∙ rw other refl in
    rw (resolved, create_body, mutation) refl
