-- ===== src/Product/Admissions.antt =====
-- Exactly when the quota guard admits a request (quota.py).
use mathlib.Core.Bool.{false≢true}
use cyrene_exchange.Product.Tables.{RequestPrincipal}
use cyrene_exchange.Product.Quotas.{
  of_tenant, admitted, TenantQuota, save_tenant_quota, quota_guard, get_tenant_quota,
}
use cyrene_exchange.Prelude.{
  sym, ◌∙◌, ap, Bool-cases, Option-cases, ◌⊎◌, eq_iff, ◌↔◌, ◌<◌, arith, str_eq, if◌then◌else◌,
  fetchone, String, [], ◌∷◌, none, some, inl, inr, true, false, refl, ℕ, ◌≡◌, List, Option,
}

-- A tenant of the workspace whose usage is known and is below its quota.
pub record IsWithin (p : RequestPrincipal) (billing : Option (String → Option ℕ)) (q : TenantQuota)
    : Type 0 where
  pub same_workspace : str_eq q.workspace_id p.workspace_id ≡ true
  pub total_tokens : String → Option ℕ
  pub configured : billing ≡ some total_tokens
  pub used : ℕ
  pub reported : total_tokens p.actor_id ≡ some used
  pub below : used < q.monthly_token_quota

-- `ProductQuotaGuard` admits a request exactly if its tenant has no quota, or it has one in the
-- workspace of the request, a billing client is configured and reports a usage, and that usage is
-- below the monthly quota: without a usage source a tenant with a quota is never admitted.
pub quota_guard-admits :
    (p : RequestPrincipal) (billing : Option (String → Option ℕ)) (qs : List TenantQuota)
    → (quota_guard p billing qs ≡ admitted) ↔ (
        (get_tenant_quota p.actor_id qs ≡ none)
        ⊎ ((q : TenantQuota) × (get_tenant_quota p.actor_id qs ≡ some q) × IsWithin p billing q))
unfolding quota_guard
quota_guard-admits p billing qs = (forth, back)
  where
    forth :
        quota_guard p billing qs ≡ admitted
        → (get_tenant_quota p.actor_id qs ≡ none)
          ⊎ ((q : TenantQuota) × (get_tenant_quota p.actor_id qs ≡ some q) × IsWithin p billing q)
    forth h = elim (Option-cases (get_tenant_quota p.actor_id qs)) [
      | inl e ↦ inl e
      | inr (q, e) ↦ elim (Option-cases billing) [
        | inl unset ↦ absurd (ground arith)
        | inr (total, b) ↦ elim (Option-cases (total p.actor_id)) [
          | inl failed ↦ absurd (ground arith)
          | inr (n, r) ↦ inr (
            q,
            e,
            record {
              same_workspace = ground arith;
              total_tokens = total;
              configured = b;
              used = n;
              reported = r;
              below = ground arith;
            },
          )
        ]
      ]
    ]

    back :
        (get_tenant_quota p.actor_id qs ≡ none)
          ⊎ ((q : TenantQuota) × (get_tenant_quota p.actor_id qs ≡ some q) × IsWithin p billing q)
        → quota_guard p billing qs ≡ admitted
    back (inl e) = rw (e, quota_guard) refl
    back (inr (q, e, w)) =
        let a = w.same_workspace in
        let b = w.configured in let c = w.reported in let d = w.below in ground arith

-- A saved quota is the tenant's, and the quotas of the other tenants stay.
pub save_tenant_quota-get :
    (q : TenantQuota) (qs : List TenantQuota) (id : String)
    → get_tenant_quota id (save_tenant_quota q qs)
      ≡ (if of_tenant id q then some q else get_tenant_quota id qs)
unfolding get_tenant_quota save_tenant_quota fetchone
save_tenant_quota-get q [] id = refl
save_tenant_quota-get q (p ∷ qs) id = elim (Bool-cases (of_tenant q.tenant_id p)) [
  | inl h ↦
      let same : p.tenant_id ≡ q.tenant_id = (eq_iff p.tenant_id q.tenant_id).0 h in
      let both : of_tenant id p ≡ of_tenant id q = ap (λ t. str_eq t id) same in ground arith
  | inr h ↦
      let other : of_tenant id p ≡ true → of_tenant id q ≡ false = λ e.
        elim (Bool-cases (of_tenant id q)) [
          | inl f ↦
              let same : p.tenant_id ≡ q.tenant_id =
                (eq_iff p.tenant_id id).0 e ∙ sym ((eq_iff q.tenant_id id).0 f) in
              absurd (false≢true (sym h ∙ (eq_iff p.tenant_id q.tenant_id).1 same))
          | inr f ↦ f
        ] in
      ground (arith, save_tenant_quota-get q qs id)
]
