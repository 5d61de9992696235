-- ===== src/Product/Distinct.antt =====
-- Token digests stay distinct: `configure_credentials`, `disable_credential`, `create_api_key` and
-- `revoke_api_key` of product/src/cyrene_exchange_product/store.py.
use cyrene_exchange.Product.Keys.{
  revoke_row, is_nonzero, has_key, revoke_api_key, insert_credential,
}
use mathlib.Core.Bool.{false≢true}
use mathlib.Core.Path.{subst}
use cyrene_exchange.Product.Isolation.{IsKeyed}
use cyrene_exchange.Product.Tables.{mutation, Store, ProductPrincipal, Credential}
use cyrene_exchange.Product.Credentials.{
  disable_credential, configured, configure_all, has_ref, has_digest, digest_is_free, upsert,
  ref_is_free, configure_body, configure_one, configure_credentials, prepare,
}
use cyrene_exchange.Prelude.{
  if◌then◌else◌, Uuid, any-append, sym, eq_iff, Option-cases, str_eq, ap, ◌∙◌, ◌++◌, Bool-cases,
  map, arith, String, Bool, fetchone, any, [], ◌∷◌, none, some, inl, inr, true, false, refl, ℕ, ◌≡◌,
  List,
}
use cyrene_exchange.Outbox.Results.{Result-cases, >>=-eq-ok, ok, Result}

any-map :
    (digest : String) (f : Credential → Credential) (cs : List Credential)
    → ((c : Credential) → (f c).token_digest ≡ c.token_digest)
    → any (has_digest digest) (map f cs) ≡ any (has_digest digest) cs
unfolding any
any-map digest f [] same = refl
any-map digest f (c ∷ cs) same = rw (same c, any-map digest f cs same) refl

map-IsKeyed :
    (f : Credential → Credential) (cs : List Credential)
    → ((c : Credential) → (f c).token_digest ≡ c.token_digest)
    → IsKeyed cs
    → IsKeyed (map f cs)
map-IsKeyed f [] same u = tt
map-IsKeyed f (c ∷ cs) same u =
    (rw (same c) (any-map c.token_digest f cs same ∙ u.0), map-IsKeyed f cs same u.1)

append-IsKeyed :
    (c : Credential) (cs : List Credential)
    → IsKeyed cs
    → any (has_digest c.token_digest) cs ≡ false
    → IsKeyed (cs ++ c ∷ [])
unfolding any
append-IsKeyed c [] u h = (refl, tt)
append-IsKeyed c (x ∷ cs) u h =
    let other : has_digest x.token_digest c ≡ false =
      differ x.token_digest c.token_digest (ground arith) in
    (
      ground (arith, any-append (has_digest x.token_digest) cs (c ∷ [])),
      append-IsKeyed c cs u.1 (ground arith),
    )
  where
    differ : (a b : String) → str_eq a b ≡ false → str_eq b a ≡ false
    differ a b h = elim (Bool-cases (str_eq b a)) [
      | inl e ↦ absurd (false≢true (sym h ∙ (eq_iff a b).1 (sym ((eq_iff b a).0 e))))
      | inr e ↦ e
    ]

-- The upsert of a reference that is bound keeps the digests; that of a new one appends a row.
upsert-any :
    (p : ProductPrincipal) (digest : String) (now : ℕ) (cs : List Credential) (c : Credential)
    (d : String)
    → fetchone (has_ref p.credential_ref) cs ≡ some c
    → has_digest digest c ≡ true
    → any (has_digest d) (upsert p digest now cs) ≡ any (has_digest d) cs
unfolding any fetchone upsert
upsert-any p digest now [] c d h k = absurd (ground arith)
upsert-any p digest now (x ∷ cs) c d h k = elim (Bool-cases (has_ref p.credential_ref x)) [
  | inl e ↦
      let same : x ≡ c = ground arith in
      let bound : x.token_digest ≡ digest =
        ap (λ y. y.token_digest) same ∙ (eq_iff c.token_digest digest).0 k in
      rw (e, bound) refl
  | inr e ↦ rw (e, upsert-any p digest now cs c d (ground arith) k) refl
]

bound-IsKeyed :
    (p : ProductPrincipal) (digest : String) (now : ℕ) (cs : List Credential) (c : Credential)
    → IsKeyed cs
    → fetchone (has_ref p.credential_ref) cs ≡ some c
    → has_digest digest c ≡ true
    → IsKeyed (upsert p digest now cs)
unfolding fetchone upsert
bound-IsKeyed p digest now [] c u h k = absurd (ground arith)
bound-IsKeyed p digest now (x ∷ cs) c u h k = elim (Bool-cases (has_ref p.credential_ref x)) [
  | inl e ↦
      let same : x ≡ c = ground arith in
      let bound : x.token_digest ≡ digest =
        ap (λ y. y.token_digest) same ∙ (eq_iff c.token_digest digest).0 k in
      rw e (rw bound at u.0, u.1)
  | inr e ↦
      let rest : fetchone (has_ref p.credential_ref) cs ≡ some c = ground arith in
      rw e (
        upsert-any p digest now cs c x.token_digest rest k ∙ u.0,
        bound-IsKeyed p digest now cs c u.1 rest k,
      )
]

new-upsert :
    (p : ProductPrincipal) (digest : String) (now : ℕ) (cs : List Credential)
    → fetchone (has_ref p.credential_ref) cs ≡ none
    → upsert p digest now cs ≡ cs ++ configured p digest now ∷ []
unfolding fetchone upsert
new-upsert p digest now [] h = refl
new-upsert p digest now (x ∷ cs) h = elim (Bool-cases (has_ref p.credential_ref x)) [
  | inl e ↦ absurd (ground arith)
  | inr e ↦ rw (e, new-upsert p digest now cs (ground arith)) refl
]

none-any : (q : Credential → Bool) (cs : List Credential) → fetchone q cs ≡ none → any q cs ≡ false
unfolding fetchone any
none-any q [] h = refl
none-any q (x ∷ cs) h = ground (arith, none-any q cs)

absent_ref :
    (ref digest : String) (cs : List Credential) (c : Credential)
    → fetchone (has_ref ref) cs ≡ none
    → fetchone (has_digest digest) cs ≡ some c
    → has_ref ref c ≡ false
unfolding fetchone
absent_ref ref digest [] c h k = absurd (ground arith)
absent_ref ref digest (x ∷ cs) c h k = elim (Bool-cases (has_digest digest x)) [
  | inl e ↦
      let same : x ≡ c = ground arith in subst (λ y. has_ref ref y ≡ false) same (ground arith)
  | inr e ↦ absent_ref ref digest cs c (ground arith) (ground arith)
]

configure_one-IsKeyed :
    (p : ProductPrincipal) (digest : String) (now : ℕ) (s s' : Store)
    → configure_one p digest now s ≡ ok s'
    → IsKeyed s.credentials
    → IsKeyed s'.credentials
unfolding configure_one ref_is_free digest_is_free
configure_one-IsKeyed p digest now s s' h u =
    let written : upsert p digest now s.credentials ≡ s'.credentials = ground arith in
    subst IsKeyed written (elim (Option-cases (fetchone (has_ref p.credential_ref) s.credentials)) [
      | inr (c, e) ↦ bound-IsKeyed p digest now s.credentials c u e (ground arith)
      | inl e ↦ elim (Option-cases (fetchone (has_digest digest) s.credentials)) [
        | inl absent ↦ rw (new-upsert p digest now s.credentials e) (
            append-IsKeyed (configured p digest now) s.credentials u
              (none-any (has_digest digest) s.credentials absent))
        | inr (c, found) ↦
            let no_ref = absent_ref p.credential_ref digest s.credentials c e found in
            absurd (ground arith)
      ]
    ])

second :
    {a : Store} {r : Unit {0} × Store}
    → ◌≡◌ {A = Result (Unit {0} × Store)} (ok (tt, a)) (ok r)
    → a ≡ r.1
second h = cc

configure_all-IsKeyed :
    (prepared : List (ProductPrincipal × String)) (now : ℕ) (s s' : Store)
    → configure_all prepared now s ≡ ok s'
    → IsKeyed s.credentials
    → IsKeyed s'.credentials
unfolding configure_all
configure_all-IsKeyed [] now s s' h u =
    let same : s.credentials ≡ s'.credentials = ground arith in subst IsKeyed same u
configure_all-IsKeyed ((p, digest) ∷ prepared) now s s' h u =
    let (one, e, h1) = >>=-eq-ok (configure_one p digest now s) _ h in
    configure_all-IsKeyed prepared now one s' h1 (configure_one-IsKeyed p digest now s one e u)

prepared-IsKeyed :
    (prepared : List (ProductPrincipal × String)) (now : ℕ) (s : Store)
    → IsKeyed s.credentials
    → IsKeyed (mutation (configure_body prepared now) s).1.credentials
unfolding configure_body
prepared-IsKeyed prepared now s u = elim (Result-cases (configure_body prepared now s)) [
  | inl (e, h) ↦ rw (h, mutation) u
  | inr (r, h) ↦
      let (done, e, h1) = >>=-eq-ok (configure_all prepared now s) _ h in
      rw (h, mutation)
        (subst (λ t. IsKeyed t.credentials) (second h1)
          (configure_all-IsKeyed prepared now s done e u))
]

configure_credentials-IsKeyed :
    (sha256 strip : String → String) (credentials : List (String × ProductPrincipal)) (now : ℕ)
    (s : Store)
    → IsKeyed s.credentials
    → IsKeyed (configure_credentials sha256 strip credentials now s).1.credentials
unfolding configure_credentials
configure_credentials-IsKeyed sha256 strip credentials now s u =
    elim (Result-cases (prepare sha256 strip credentials)) [
      | inl (e, h) ↦ rw (configure_credentials, h) u
      | inr (prepared, h) ↦ rw (configure_credentials, h) (prepared-IsKeyed prepared now s u)
    ]

inserted-IsKeyed :
    (c : Credential) (s s' : Store)
    → insert_credential c s ≡ ok s'
    → IsKeyed s.credentials
    → IsKeyed s'.credentials
unfolding insert_credential
inserted-IsKeyed c s s' h u =
    let absent : any (has_digest c.token_digest) s.credentials ≡ false = ground arith in
    let written : s.credentials ++ c ∷ [] ≡ s'.credentials = ground arith in
    subst IsKeyed written (append-IsKeyed c s.credentials u absent)

disable_credential-IsKeyed :
    (ref : String) (s : Store)
    → IsKeyed s.credentials
    → IsKeyed (disable_credential ref s).1.credentials
unfolding disable_credential
disable_credential-IsKeyed ref s u =
    map-IsKeyed (λ c. if has_ref ref c then record c { enabled = false } else c) s.credentials
      (λ c. ground arith) u

revoke_api_key-IsKeyed :
    (id : Uuid) (now : ℕ) (s : Store)
    → IsKeyed s.credentials
    → IsKeyed (revoke_api_key id now s).1.credentials
unfolding revoke_api_key
revoke_api_key-IsKeyed id now s u = elim (Option-cases (fetchone (has_key id) s.credentials)) [
  | inl e ↦ rw (e, revoke_api_key) u
  | inr (c, e) ↦ elim (Bool-cases (is_nonzero c.revoked_at)) [
    | inl r ↦ rw (e, revoke_api_key, r) u
    | inr r ↦
        rw (e, revoke_api_key, r)
          (map-IsKeyed (λ d. if has_key id d then revoke_row now d else d) s.credentials
            (λ d. ground arith) u)
  ]
]

-- While the token digests are distinct, they stay so under `configure_credentials`, whether it
-- returns or raises and without the help of the UNIQUE constraint, under the INSERT of a key, under
-- `disable_credential` and under `revoke_api_key`.
pub credentials-IsKeyed :
    (sha256 strip : String → String) (s : Store) (credentials : List (String × ProductPrincipal))
    (now : ℕ) (c : Credential) (inserted : Store) (ref : String) (id : Uuid)
    → IsKeyed s.credentials
    → insert_credential c s ≡ ok inserted
    → IsKeyed (configure_credentials sha256 strip credentials now s).1.credentials
      × IsKeyed inserted.credentials
      × IsKeyed (disable_credential ref s).1.credentials
      × IsKeyed (revoke_api_key id now s).1.credentials
credentials-IsKeyed sha256 strip s credentials now c inserted ref id u h = (
  configure_credentials-IsKeyed sha256 strip credentials now s u,
  inserted-IsKeyed c s inserted h u,
  disable_credential-IsKeyed ref s u,
  revoke_api_key-IsKeyed id now s u,
)
