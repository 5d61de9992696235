-- ===== src/Product/Isolation.antt =====
-- Control tokens and data-plane tokens resolve apart, and a revoked key does not resolve (store.py).
use mathlib.Core.Path.{subst}
use mathlib.Core.Bool.{false≢true}
use cyrene_exchange.Product.Keys.{revoke_row, has_key, revoke_api_key}
use cyrene_exchange.Product.Tables.{ProductPrincipal, Store, Credential}
use cyrene_exchange.Product.Credentials.{
  is_operators, resolves, has_digest, resolve_product_credential, resolve_data_plane_credential,
}
use cyrene_exchange.Prelude.{
  ◌∙◌, sym, fetchone-holds, Option-cases, str_eq, if◌then◌else◌, arith, Bool-cases, ◌&&◌, map,
  eq_iff, Bool, any, Uuid, fetchone, String, [], ◌∷◌, none, some, inl, inr, true, false, refl, ℕ,
  ◌≡◌, List,
}

-- `token_digest TEXT NOT NULL UNIQUE`
abbrev pub IsKeyed : List Credential → Type 0
IsKeyed [] = Unit {0}
IsKeyed (c ∷ cs) = (any (has_digest c.token_digest) cs ≡ false) × IsKeyed cs

digest_of_row :
    (p : Credential → Bool) (digest : String) (cs : List Credential) (c : Credential)
    → fetchone p cs ≡ some c
    → has_digest digest c ≡ true
    → any (has_digest digest) cs ≡ true
unfolding fetchone any
digest_of_row p digest [] c h k = absurd (ground arith)
digest_of_row p digest (x ∷ cs) c h k = elim (Bool-cases (p x)) [
  | inl e ↦ let same : x ≡ c = ground arith in rw same (rw k refl)
  | inr e ↦ rw (digest_of_row p digest cs c (ground arith) k) (ground arith)
]

has_digest-eq :
    (digest : String) (c : Credential) → has_digest digest c ≡ true → c.token_digest ≡ digest
has_digest-eq digest c h = (eq_iff c.token_digest digest).0 h

operators-fetchone :
    (digest : String) (now : ℕ) (cs : List Credential) (c : Credential)
    → IsKeyed cs
    → fetchone (λ d. resolves digest now d && is_operators d) cs ≡ some c
    → fetchone (resolves digest now) cs ≡ some c
unfolding fetchone
operators-fetchone digest now [] c u h = ground arith
operators-fetchone digest now (x ∷ cs) c u h = elim (Bool-cases (resolves digest now x)) [
  | inr e ↦ rw e (operators-fetchone digest now cs c u.1 (ground arith))
  | inl e ↦ elim (Bool-cases (is_operators x)) [
    | inl o ↦ ground arith
    | inr k ↦
        let rest : fetchone (λ d. resolves digest now d && is_operators d) cs ≡ some c =
          ground arith in
        let held : (resolves digest now c && is_operators c) ≡ true = fetchone-holds _ cs c rest in
        let there = digest_of_row _ digest cs c rest (ground arith) in
        let same : x.token_digest ≡ digest = has_digest-eq digest x (ground arith) in
        absurd (false≢true (sym u.0 ∙ rw same there))
  ]
]

-- While the digests are distinct, a token that resolves to a Product principal, and so to
-- organization-scoped control, resolves to nobody on the data plane, unless its digest is among the
-- configured Gateway digests.
pub control-resolve_data_plane_credential :
    (sha256 : String → String) (token : String) (gateway : List String) (now : ℕ) (s : Store)
    (p : ProductPrincipal)
    → IsKeyed s.credentials
    → resolve_product_credential sha256 token now s ≡ some p
    → any (str_eq (sha256 token)) gateway ≡ false
    → resolve_data_plane_credential sha256 token gateway now s ≡ none
unfolding resolve_product_credential resolve_data_plane_credential
control-resolve_data_plane_credential sha256 token gateway now s p u h g =
    elim (Bool-cases (str_eq token "")) [
      | inl e ↦ rw e refl
      | inr e ↦
          elim (Option-cases
            (fetchone (λ c. resolves (sha256 token) now c && is_operators c) s.credentials)) [
              | inl absent ↦ absurd (ground arith)
              | inr (c, found) ↦
                  let held : (resolves (sha256 token) now c && is_operators c) ≡ true =
                    fetchone-holds _ s.credentials c found in
                  let row = operators-fetchone (sha256 token) now s.credentials c u found in
                  let operators : is_operators c ≡ true = ground arith in
                  rw (e, row) (rw (operators, g) refl)
            ]
    ]

none-resolves :
    (digest : String) (id : Uuid) (now at : ℕ) (cs : List Credential)
    → any (has_digest digest) cs ≡ false
    → fetchone (resolves digest at) (map (λ d. if has_key id d then revoke_row now d else d) cs)
      ≡ none
unfolding fetchone any
none-resolves digest id now at [] h = refl
none-resolves digest id now at (x ∷ cs) h = ground (arith, none-resolves digest id now at cs)

revoked-fetchone :
    (id : Uuid) (now at : ℕ) (cs : List Credential) (c : Credential)
    → IsKeyed cs
    → fetchone (has_key id) cs ≡ some c
    → fetchone
        (resolves c.token_digest at)
        (map (λ d. if has_key id d then revoke_row now d else d) cs)
      ≡ none
unfolding fetchone
revoked-fetchone id now at [] c u h = absurd (ground arith)
revoked-fetchone id now at (x ∷ cs) c u h = elim (Bool-cases (has_key id x)) [
  | inl e ↦
      let same : x ≡ c = ground arith in
      let rest = none-resolves x.token_digest id now at cs u.0 in
      subst
        (λ d.
          fetchone (resolves d.token_digest at)
            (map (λ d. if has_key id d then revoke_row now d else d) (x ∷ cs))
          ≡ none)
        same (ground arith)
  | inr e ↦
      let rest : fetchone (has_key id) cs ≡ some c = ground arith in
      let differ : has_digest c.token_digest x ≡ false =
        elim (Bool-cases (has_digest c.token_digest x)) [
          | inl h ↦
              let same : x.token_digest ≡ c.token_digest = has_digest-eq c.token_digest x h in
              let there =
                digest_of_row (has_key id) x.token_digest cs c rest
                  ((eq_iff c.token_digest x.token_digest).1 (sym same)) in
              absurd (false≢true (sym u.0 ∙ there))
          | inr h ↦ h
        ] in
      ground (arith, revoked-fetchone id now at cs c u.1 rest)
]

-- While the digests are distinct: once `revoke_api_key` was called for a key that was not revoked
-- before, a token with the key's digest resolves to nobody on the data plane, at any time.
pub revoked-resolve_data_plane_credential :
    (sha256 : String → String) (token : String) (gateway : List String) (id : Uuid) (now at : ℕ)
    (s : Store) (c : Credential)
    → IsKeyed s.credentials
    → fetchone (has_key id) s.credentials ≡ some c
    → c.revoked_at ≡ none
    → sha256 token ≡ c.token_digest
    → resolve_data_plane_credential sha256 token gateway at (revoke_api_key id now s).1 ≡ none
unfolding resolve_data_plane_credential revoke_api_key
revoked-resolve_data_plane_credential sha256 token gateway id now at s c u h active digest =
    elim (Bool-cases (str_eq token "")) [
      | inl e ↦ rw e refl
      | inr e ↦
          rw (e, digest)
            (rw (h, revoke_api_key)
              (rw active (rw (revoked-fetchone id now at s.credentials c u h) refl)))
    ]
