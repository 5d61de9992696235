-- ===== src/Outbox/Reconcile.antt =====
-- `resolve_unknown_operation` of integrations/store.py.
use cyrene_exchange.Prelude.{
  ℕ, String, Bool, true, false, not, ◌&&◌, some, List, [], ◌∷◌, ◌++◌, ◌==◌, if◌then◌else◌, select,
  fetchone, any, Uuid, Time, opt_nat_eq,
}
use cyrene_exchange.Outbox.Results.{
  not_found, integrity, Result, ok, err, ◌>>=◌, ◌>>◌, guard, or_raise, transaction,
}
use cyrene_exchange.Outbox.Models.{
  JobState, OperationState, boolean, Dict, IntegrationPrincipal, require, OutboxJob, Operation,
}
use cyrene_exchange.Outbox.Tables.{
  OperationAudit, Db, persist_job, replace_operation, same_evidence,
}
use cyrene_exchange.Outbox.Execute.{operation_in_scope}

abbrev pub is_unknown : OperationState → Bool
is_unknown OperationState.unknown = true
is_unknown _ = false

abbrev pub is_unknown_job : JobState → Bool
is_unknown_job JobState.unknown = true
is_unknown_job _ = false

-- `INSERT OR REPLACE INTO job_evidence`
unfoldable pub replace_evidence : Uuid → ℕ → Dict → Db → Db
replace_evidence id fence evidence db = record db {
  job_evidence =
      select (λ e. not (same_evidence id fence e)) db.job_evidence
      ++ record { job_id = id; claim_fence = fence; evidence = evidence } ∷ [];
}

abbrev pub proved : Time → OutboxJob → OutboxJob
proved now job = record job { state = JobState.succeeded; updated_at = now }

-- The loop over `SELECT … WHERE operation_id=? AND state='UNKNOWN'`.
unfoldable pub resolve_jobs : Dict → Time → List OutboxJob → Db → Db
unfolding replace_evidence
resolve_jobs result now [] db = db
resolve_jobs result now (job ∷ rows) db = resolve_jobs result now rows (
    replace_evidence job.id job.claim_fence (("reconciledReadOnly", boolean true) ∷ result)
      (persist_job (proved now job) db))

abbrev pub unknown_jobs : Uuid → Db → List OutboxJob
unknown_jobs id db =
    select (λ j. opt_nat_eq j.operation_id (some id) && is_unknown_job j.state) db.jobs

-- `INSERT INTO operation_audits`
unfoldable pub insert_audit : OperationAudit → Db → Result Db
insert_audit audit db = do
  guard (if any (λ a. a.id == audit.id) db.audits then false else true)
      (integrity "operation_audits.id")
  ok (record db { audits = db.audits ++ audit ∷ [] })

unfoldable pub resolve_body :
    Uuid → IntegrationPrincipal → Uuid → Bool → Dict → Time → Db → Result (Operation × Db)
unfolding resolve_jobs
resolve_body fresh p id succeeded result now db = do
  operation ←
      or_raise (fetchone (λ o. operation_in_scope p id o && is_unknown o.state) db.operations)
        (not_found "unknown integration operation not found")
  let updated = record operation {
    state = if succeeded then OperationState.succeeded else OperationState.unknown;
    result = some result;
    updated_at = now;
  }
  let stored = replace_operation updated db
  let resolved =
      if succeeded then resolve_jobs result now (unknown_jobs id stored) stored else stored
  audited ←
      insert_audit
        (record {
          id = fresh;
          organization_id = p.organization_id;
          workspace_id = p.workspace_id;
          actor_issuer = p.issuer;
          actor_subject = p.subject;
          resource_id = id;
          action = "reconcile";
          outcome = if succeeded then "SUCCEEDED" else "UNKNOWN";
          observed_at = now;
        })
        resolved
  ok (updated, audited)

unfoldable pub resolve_unknown_operation :
    Uuid → IntegrationPrincipal → Uuid → Bool → Dict → String → Time → Db → Result Operation × Db
unfolding resolve_body
resolve_unknown_operation fresh p id succeeded result authorization_operation_id now db =
    elim (require p authorization_operation_id now) [
      | err e ↦ (err e, db)
      | ok _ ↦ transaction (resolve_body fresh p id succeeded result now) db
    ]
