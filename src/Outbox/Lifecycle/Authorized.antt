-- ===== src/Outbox/Lifecycle/Authorized.antt =====
-- The methods that wait for Authority, and the one by which it takes a job over, take the tables
-- one `Step` further.
use cyrene_exchange.Outbox.Lifecycle.{
  fetchone-holds, true, require, fetchone, Operation, false, is_settled,
}
use cyrene_exchange.Outbox.Lifecycle.Rows.{fetchone-In, In}
use cyrene_exchange.Outbox.Execute.{
  executing, open_rowcount, awaits_execution, Dispatch, execution_body, execution_target,
  begin_authorized_execution,
}
use cyrene_exchange.Prelude.{
  ◌==◌, opt_eq, ℕ, ◌+◌, String, ◌≡◌, refl, inl, inr, Option, none, some, arith, Bool-cases,
  or_default, absent_or, Uuid, Time, seconds,
}
use cyrene_exchange.Outbox.Results.{
  Result-cases, conflict, not_found, ok, guard, or_raise, >>=-eq-ok,
}
use cyrene_exchange.Outbox.Models.{IntegrationPrincipal, OutboxJob, JobState, OperationState}
use cyrene_exchange.Outbox.Tables.{
  Db, persist_job, claimed_row, operation_row, replace_operation, insert_evidence,
}
use cyrene_exchange.Outbox.Lifecycle.Steps.{
  Step, Step-refl, Step-trans, persist-Step, enqueue_reply-Step, evidence-Step, update-Step,
  replace_operation-Step, same_jobs-Step,
}
use cyrene_exchange.Outbox.Lifecycle.Selected.{
  refenced-Later, transaction-Step, claimed_row-Selected, claimed-Later, Step-ok, same_job,
}
use cyrene_exchange.Outbox.Fail.{released}
use cyrene_exchange.Outbox.Authority.{
  operation_awaits, awaiting, awaiting_body, mark_awaiting_authority, prepare_body,
  prepare_authority_enqueue, touch_operation, evidence_body, update_authority_evidence,
  unknown_replies, unknown_result, unknown_body, mark_authority_result_unknown, ref_is_invalid,
}

operation_awaits-Step :
    (o : Option Uuid) (i : String) (now : Time) (db db' : Db)
    → operation_awaits o i now db ≡ ok db'
    → Step db db'
unfolding operation_awaits replace_operation
operation_awaits-Step none i now db db' h = same_jobs-Step db db' (ground arith)
operation_awaits-Step (some id) i now db db' h = same_jobs-Step db db' (ground arith)

pub mark_awaiting_authority-Step :
    (job_id : Uuid) (fence : ℕ) (i s : String) (now : Time) (db : Db)
    → Step db (mark_awaiting_authority job_id fence i s now db).1
unfolding mark_awaiting_authority awaiting_body
mark_awaiting_authority-Step job_id fence i s now db = elim (Bool-cases (ref_is_invalid i)) [
  | inl e ↦ rw e (Step-refl db)
  | inr e ↦ rw e (
      transaction-Step (awaiting_body job_id fence i s now) db λ a db' h.
        let (job, e, h1) = >>=-eq-ok (claimed_row job_id fence "job claim is stale" db) _ h in
        let selected = claimed_row-Selected job_id fence _ db e in
        let (_, _, h2) = >>=-eq-ok (guard (absent_or job.authority_invocation_id i) _) _ h1 in
        let updated = awaiting i s now job in
        let (done, e1, h3) =
          >>=-eq-ok (operation_awaits job.operation_id i now (persist_job updated db)) _ h2 in
        Step-ok db h3 (
          Step-trans
            (persist-Step updated db job selected.present
              (claimed-Later job updated selected (same_job job) refl refl))
            (operation_awaits-Step job.operation_id i now (persist_job updated db) done e1)))
]

pub prepare_authority_enqueue-Step :
    (job_id : Uuid) (fence : ℕ) (candidate : String) (now : Time) (db : Db)
    → Step db (prepare_authority_enqueue job_id fence candidate now db).1
unfolding prepare_authority_enqueue prepare_body
prepare_authority_enqueue-Step job_id fence candidate now db =
    elim (Bool-cases (ref_is_invalid candidate)) [
      | inl e ↦ rw e (Step-refl db)
      | inr e ↦ rw e (
          transaction-Step (prepare_body job_id fence candidate now) db λ a db' h.
            let (job, e, h1) = >>=-eq-ok (claimed_row job_id fence "job claim is stale" db) _ h in
            let selected = claimed_row-Selected job_id fence _ db e in
            let (id, _, h2) =
              >>=-eq-ok (or_raise job.operation_id (not_found "Authority job has no operation")) _
                h1 in
            let (op, _, h3) =
              >>=-eq-ok (or_raise (operation_row id db) (not_found "Authority operation not found"))
                _ h2 in
            let (_, _, h4) =
              >>=-eq-ok
                (guard (opt_eq job.authority_idempotency_key op.authority_idempotency_key)
                  (conflict "Authority idempotency records do not match"))
                _ h3 in
            let key = or_default job.authority_idempotency_key candidate in
            let prepared = record job { authority_idempotency_key = some key; updated_at = now } in
            Step-ok db h4 (
              Step-trans
                (persist-Step prepared db job selected.present
                  (claimed-Later job prepared selected (same_job job) refl refl))
                (replace_operation-Step _ (persist_job prepared db))))
    ]

touch_operation-Step :
    (o : Option Uuid) (now : Time) (db db' : Db) → touch_operation o now db ≡ ok db' → Step db db'
unfolding touch_operation replace_operation
touch_operation-Step none now db db' h = same_jobs-Step db db' (ground arith)
touch_operation-Step (some id) now db db' h = same_jobs-Step db db' (ground arith)

pub update_authority_evidence-Step :
    (job_id : Uuid) (fence : ℕ) (i s : String) (now : Time) (db : Db)
    → Step db (update_authority_evidence job_id fence i s now db).1
unfolding update_authority_evidence evidence_body
update_authority_evidence-Step job_id fence i s now db =
    transaction-Step (evidence_body job_id fence i s now) db λ a db' h.
      let (job, e, h1) = >>=-eq-ok (claimed_row job_id fence "job claim is stale" db) _ h in
      let selected = claimed_row-Selected job_id fence _ db e in
      let (_, _, h2) =
        >>=-eq-ok
          (guard (opt_eq job.authority_invocation_id (some i))
            (conflict "Authority invocation does not match the durable intent"))
          _ h1 in
      let updated = record (released JobState.awaiting_authority now job) {
        authority_state = some s;
        available_at = now + seconds 2;
      } in
      let (done, e1, h3) =
        >>=-eq-ok (touch_operation job.operation_id now (persist_job updated db)) _ h2 in
      Step-ok db h3 (
        Step-trans
          (persist-Step updated db job selected.present
            (claimed-Later job updated selected (same_job job) refl refl))
          (touch_operation-Step job.operation_id now (persist_job updated db) done e1))

unknown_replies-Step :
    (fresh : Uuid) (o : Option Uuid) (now : Time) (db db' : Db)
    → unknown_replies fresh o now db ≡ ok db'
    → Step db db'
unfolding unknown_replies
unknown_replies-Step fresh none now db db' h = same_jobs-Step db db' (ground arith)
unknown_replies-Step fresh (some id) now db db' h =
    Step-trans (update-Step id OperationState.unknown now (some unknown_result) db)
      (enqueue_reply-Step fresh id JobState.unknown unknown_result now _ db' h)

pub mark_authority_result_unknown-Step :
    (fresh job_id : Uuid) (fence : ℕ) (i : String) (now : Time) (db : Db)
    → Step db (mark_authority_result_unknown fresh job_id fence i now db).1
unfolding mark_authority_result_unknown unknown_body
mark_authority_result_unknown-Step fresh job_id fence i now db =
    transaction-Step (unknown_body fresh job_id fence i now) db λ a db' h.
      let (job, e, h1) =
        >>=-eq-ok (claimed_row job_id fence "Authority result claim is stale" db) _ h in
      let selected = claimed_row-Selected job_id fence _ db e in
      let (_, _, h2) =
        >>=-eq-ok
          (guard (opt_eq job.authority_invocation_id (some i))
            (conflict "Authority result invocation does not match intent"))
          _ h1 in
      let updated = record (released JobState.unknown now job) {
        authority_state = some "UNKNOWN_RESULT";
      } in
      let (noted, e1, h3) =
        >>=-eq-ok (insert_evidence job_id fence unknown_result (persist_job updated db)) _ h2 in
      let (replied, e2, h4) = >>=-eq-ok (unknown_replies fresh job.operation_id now noted) _ h3 in
      Step-ok db h4 (
        Step-trans
          (persist-Step updated db job selected.present
            (claimed-Later job updated selected (same_job job) refl refl))
          (Step-trans (evidence-Step job_id fence unknown_result (persist_job updated db) noted e1)
            (unknown_replies-Step fresh job.operation_id now noted replied e2)))

-- The job that an execution takes over is a row that waits for Authority or is claimed.
pub record Target (id : Uuid) (job : OutboxJob) (db : Db) : Type 0 where
  pub present : In job db.jobs
  pub waits : awaits_execution id job ≡ true
  pub active : is_settled job.state ≡ false

waits_active :
    (id : Uuid) (j : OutboxJob) → awaits_execution id j ≡ true → is_settled j.state ≡ false
waits_active id j e = ground arith

pub execution_target-Target :
    (p : IntegrationPrincipal) (d : Dispatch) (db : Db) (op : Operation) (job : OutboxJob)
    → execution_target p d db ≡ ok (op, job)
    → Target d.operation_id job db
unfolding execution_target
execution_target-Target p d db op job h =
    let row : fetchone (awaits_execution d.operation_id) db.jobs ≡ some job = ground arith in
    record {
      present = fetchone-In (awaits_execution d.operation_id) db.jobs job row;
      waits = fetchone-holds (awaits_execution d.operation_id) db.jobs job row;
      active =
          waits_active d.operation_id job
            (fetchone-holds (awaits_execution d.operation_id) db.jobs job row);
    }

pub begin_authorized_execution-Step :
    (p : IntegrationPrincipal) (d : Dispatch) (lease : ℕ) (utc_now moment : Time) (db : Db)
    → Step db (begin_authorized_execution p d lease utc_now moment db).1
unfolding begin_authorized_execution execution_body
begin_authorized_execution-Step p d lease utc_now moment db =
    elim (Result-cases (require p d.execution_operation_id utc_now)) [
      | inl (x, e) ↦ rw (e, begin_authorized_execution) (Step-refl db)
      | inr (_, e) ↦
          rw (e, begin_authorized_execution)
            (transaction-Step (execution_body p d lease moment) db λ a db' h.
              let (target, e, h1) = >>=-eq-ok (execution_target p d db) _ h in
              let job = target.1 in
              let found = execution_target-Target p d db target.0 job e in
              let (_, _, h2) =
                >>=-eq-ok
                  (guard (open_rowcount d.operation_id db == 1)
                    (conflict "operation execution was already claimed"))
                  _ h1 in
              let sending = executing d lease moment job in
              Step-ok db h2 (
                Step-trans
                  (persist-Step sending db job found.present
                    (refenced-Later job sending (same_job job) refl refl found.active))
                  (replace_operation-Step _ (persist_job sending db))))
    ]
