-- ===== src/Outbox/Lifecycle/Resolved.antt =====
-- `resolve_unknown_operation` takes the tables one `Step` further.
use cyrene_exchange.Outbox.Lifecycle.Selected.{Step-ok, transaction-Step}
use cyrene_exchange.Outbox.Execute.{operation_in_scope}
use mathlib.Core.Bool.{false≢true}
use cyrene_exchange.Outbox.Lifecycle.{Later}
use cyrene_exchange.Outbox.Results.{not_found, or_raise, >>=-eq-ok, Result-cases, ok}
use cyrene_exchange.Outbox.Lifecycle.Rows.{In-select, In-replace, select-IsUnique, In, IsUnique}
use cyrene_exchange.Outbox.Lifecycle.Steps.{
  replace_operation-Step, persist-Step, Step-trans, same_jobs-Step, Step-refl, Step,
}
use cyrene_exchange.Prelude.{
  [], inl, inr, ◌∙◌, All-map, ◌&&◌, sym, fetchone, some, refl, opt_nat_eq, ◌∷◌, select,
  if◌then◌else◌, arith, true, false, String, ◌≡◌, Bool, All, List, any, Uuid, Time,
}
use cyrene_exchange.Outbox.Tables.{replace_operation, persist_job, has_id, OperationAudit, Db}
use cyrene_exchange.Outbox.Reconcile.{
  is_unknown, proved, unknown_jobs, replace_evidence, is_unknown_job, resolve_unknown_operation,
  resolve_jobs, resolve_body, insert_audit,
}
use cyrene_exchange.Outbox.Models.{
  OperationState, boolean, require, Operation, OutboxJob, IntegrationPrincipal, JobState, Dict,
}

is_unknown_job-eq : (s : JobState) → is_unknown_job s ≡ true → s ≡ JobState.unknown
is_unknown_job-eq s h = ground arith

proved-Later :
    (now : Time) (job : OutboxJob) → is_unknown_job job.state ≡ true → Later job (proved now job)
proved-Later now job h =
    let e = is_unknown_job-eq job.state h in
    record {
      same_id = refl;
      same_kind = refl;
      same_operation = refl;
      same_key = refl;
      fence_grows = omega arith;
      attempts_grow = omega arith;
      spent = λ _. rw e (omega arith);
      settled = rw e refl;
      settled_fence = λ _. refl;
    }

abbrev Unproved : Db → List OutboxJob → Type 0
Unproved db = All (λ j. In j db.jobs × (is_unknown_job j.state ≡ true))

persist-Unproved :
    (k : OutboxJob) (rows : List OutboxJob) (db : Db)
    → any (has_id k.id) rows ≡ false
    → Unproved db rows
    → Unproved (persist_job k db) rows
unfolding any
persist-Unproved k [] db absent p = tt
persist-Unproved k (r ∷ rows) db absent p = (
  (In-replace r k db.jobs (λ e. false≢true (sym absent ∙ ground arith)) p.0.0, p.0.1),
  persist-Unproved k rows db (ground arith) p.1,
)

resolve_jobs-Step :
    (result : Dict) (now : Time) (rows : List OutboxJob) (db : Db)
    → IsUnique rows
    → Unproved db rows
    → Step db (resolve_jobs result now rows db)
unfolding resolve_jobs replace_evidence
resolve_jobs-Step result now [] db u p = Step-refl db
resolve_jobs-Step result now (job ∷ rows) db u p =
    let written = persist_job (proved now job) db in
    let noted =
      replace_evidence job.id job.claim_fence (("reconciledReadOnly", boolean true) ∷ result)
        written in
    Step-trans (persist-Step (proved now job) db job p.0.0 (proved-Later now job p.0.1)) (
      Step-trans (same_jobs-Step written noted refl) (
        resolve_jobs-Step result now rows noted u.1
          (persist-Unproved (proved now job) rows db u.0 p.1)))

All-select :
    (id : Uuid) (js : List OutboxJob)
    → All
        (λ j. In j js × (is_unknown_job j.state ≡ true))
        (select (λ j. opt_nat_eq j.operation_id (some id) && is_unknown_job j.state) js)
All-select id js =
    All-map _ (λ j h. (h.0, ground arith))
      (In-select (λ j. opt_nat_eq j.operation_id (some id) && is_unknown_job j.state) js)

unknown_jobs-Step :
    (result : Dict) (now : Time) (id : Uuid) (db : Db)
    → Step db (resolve_jobs result now (unknown_jobs id db) db)
unknown_jobs-Step result now id db =
    let run = λ (u : IsUnique db.jobs).
      resolve_jobs-Step result now (unknown_jobs id db) db (select-IsUnique _ db.jobs u)
        (All-select id db.jobs) in
    record { unique = λ u. (run u).unique u; grows = λ u. (run u).grows u }

insert_audit-Step : (a : OperationAudit) (db db' : Db) → insert_audit a db ≡ ok db' → Step db db'
unfolding insert_audit
insert_audit-Step a db db' h = same_jobs-Step db db' (ground arith)

resolve_body-Step :
    (fresh : Uuid) (p : IntegrationPrincipal) (id : Uuid) (succeeded : Bool) (result : Dict)
    (now : Time) (db : Db) (a : Operation) (db' : Db)
    → resolve_body fresh p id succeeded result now db ≡ ok (a, db')
    → Step db db'
unfolding resolve_body
resolve_body-Step fresh p id succeeded result now db a db' h =
    let (operation, e, h1) =
      >>=-eq-ok
        (or_raise (fetchone (λ o. operation_in_scope p id o && is_unknown o.state) db.operations)
          (not_found "unknown integration operation not found"))
        _ h in
    let updated = record operation {
      state = if succeeded then OperationState.succeeded else OperationState.unknown;
      result = some result;
      updated_at = now;
    } in
    let stored = replace_operation updated db in
    let resolved =
      if succeeded then resolve_jobs result now (unknown_jobs id stored) stored else stored in
    let (audited, e1, h2) = >>=-eq-ok (insert_audit _ resolved) _ h1 in
    Step-ok db h2 (
      Step-trans (replace_operation-Step updated db)
        (Step-trans (resolved-Step succeeded stored) (insert_audit-Step _ resolved audited e1)))
  where
    resolved-Step :
        (b : Bool) (s : Db)
        → Step s (if b then resolve_jobs result now (unknown_jobs id s) s else s)
    resolved-Step true s = unknown_jobs-Step result now id s
    resolved-Step false s = Step-refl s

pub resolve_unknown_operation-Step :
    (fresh : Uuid) (p : IntegrationPrincipal) (id : Uuid) (succeeded : Bool) (result : Dict)
    (grant : String) (now : Time) (db : Db)
    → Step db (resolve_unknown_operation fresh p id succeeded result grant now db).1
unfolding resolve_unknown_operation
resolve_unknown_operation-Step fresh p id succeeded result grant now db =
    elim (Result-cases (require p grant now)) [
      | inl (x, e) ↦ rw (e, resolve_unknown_operation) (Step-refl db)
      | inr (_, e) ↦
          rw (e, resolve_unknown_operation)
            (transaction-Step (resolve_body fresh p id succeeded result now) db
              (resolve_body-Step fresh p id succeeded result now db))
    ]
