-- ===== src/Product/Quotas.antt =====
-- Tenant quotas: `save_tenant_quota` and `get_tenant_quota` of
-- product/src/cyrene_exchange_product/store.py, and `ProductQuotaGuard` of quota.py. The usage of the
-- billing client is an argument: none when no client is set, and an inner none when it fails.
use cyrene_exchange.Product.Tables.{RequestPrincipal}
use cyrene_exchange.Prelude.{
  leb, str_eq, not, fetchone, Time, Bool, if◌then◌else◌, String, [], ◌∷◌, none, some, ℕ, List,
  Option,
}

pub record TenantQuota : Type 0 where
  pub tenant_id : String
  pub workspace_id : String
  pub monthly_token_quota : ℕ
  pub updated_at : Time

abbrev pub of_tenant : String → TenantQuota → Bool
of_tenant id q = str_eq q.tenant_id id

-- `INSERT … ON CONFLICT(tenant_id) DO UPDATE SET …`
unfoldable pub save_tenant_quota : TenantQuota → List TenantQuota → List TenantQuota
save_tenant_quota q [] = q ∷ []
save_tenant_quota q (p ∷ qs) =
    let rest = save_tenant_quota q qs in if of_tenant q.tenant_id p then q ∷ qs else p ∷ rest

unfoldable pub get_tenant_quota : String → List TenantQuota → Option TenantQuota
get_tenant_quota id qs = fetchone (of_tenant id) qs

pub data Admission : Type 0 where
  admitted exceeded unavailable : Admission

-- `ProductQuotaGuard.__call__`
unfoldable pub quota_guard :
    RequestPrincipal → Option (String → Option ℕ) → List TenantQuota → Admission
quota_guard p billing qs = elim (get_tenant_quota p.actor_id qs) [
  | none ↦ admitted
  | some q ↦ if not (str_eq q.workspace_id p.workspace_id) then exceeded else elim billing [
    | none ↦ unavailable
    | some total_tokens ↦ elim (total_tokens p.actor_id) [
      | none ↦ unavailable
      | some used ↦ if leb q.monthly_token_quota used then exceeded else admitted
    ]
  ]
]
