-- ===== src/Outbox/Lifecycle/Finished.antt =====
-- `finish_job` and `retry_readonly_job` take the tables one `Step` further.
use cyrene_exchange.Outbox.Lifecycle.Rows.{replace-In, replace-IsUnique, In, IsUnique}
use mathlib.Core.Path.{subst}
use cyrene_exchange.Prelude.{
  ◌∙◌, sym, ap, ℕ, ◌≤◌, ◌≡◌, refl, inl, inr, ◌&&◌, Option, none, some, arith, ltb, str_eq,
  if◌then◌else◌, Bool-cases, Option-cases, Uuid, Time, opt_nat_eq,
}
use cyrene_exchange.Outbox.Results.{ok, guard, >>=-eq-ok}
use cyrene_exchange.Outbox.Models.{JobState, OperationState, Dict, OutboxJob, DeliveryReceipt}
use cyrene_exchange.Outbox.Tables.{
  Db, persist_job, sending_row, operation_row, update_operation_state, insert_evidence,
}
use cyrene_exchange.Outbox.Lifecycle.{rank, Later}
use cyrene_exchange.Outbox.Lifecycle.Steps.{
  Grows-In, Step, Step-refl, Step-trans, persist-Step, enqueue_command_reply-Step,
  enqueue_reply-Step, evidence-Step, update-Step, replace_operation-Step, same_jobs-Step,
}
use cyrene_exchange.Outbox.Lifecycle.Selected.{
  transaction-Step, Selected, sending_row-Selected, sending-Later, Step-ok, same_job,
}
use cyrene_exchange.Outbox.Lifecycle.Methods.{event-Step}
use cyrene_exchange.Outbox.Claim.{issue_operation}
use cyrene_exchange.Outbox.Fail.{released, replied_event}
use cyrene_exchange.Outbox.Finish.{
  finish_state, finish_replies, insert_receipt, reply_outcome, finished_at, finish_body, finish_job,
}
use cyrene_exchange.Outbox.Retry.{
  is_readonly_query, forget_authority, requeue_operation, close_operation, provider_error, retried,
  retry_body, retry_readonly_job,
}

finish_replies-Step :
    (fresh : Uuid) (o : Option Uuid) (status : JobState) (state : OperationState) (d : Dict)
    (now : Time) (db db' : Db)
    → finish_replies fresh o status state d now db ≡ ok db'
    → Step db db'
unfolding finish_replies
finish_replies-Step fresh none status state d now db db' h = same_jobs-Step db db' (ground arith)
finish_replies-Step fresh (some id) status state d now db db' h =
    let updated = update_operation_state id state now (some d) db in
    Step-trans (update-Step id state now (some d) db)
      (elim (Option-cases (operation_row id updated)) [
        | inl absent ↦ same_jobs-Step updated db' (ground arith)
        | inr (op, found) ↦
            enqueue_command_reply-Step fresh op status d now updated db' (ground arith)
      ])

insert_receipt-Step :
    (r : Option DeliveryReceipt) (job : OutboxJob) (db db' : Db)
    → insert_receipt r job db ≡ ok db'
    → Step db db'
unfolding insert_receipt
insert_receipt-Step none job db db' h = same_jobs-Step db db' (ground arith)
insert_receipt-Step (some r) job db db' h = same_jobs-Step db db' (ground arith)

-- A status that `finish_job` accepts is behind no sending job.
finish_rank :
    (status : JobState) {state : OperationState}
    → finish_state status ≡ some state
    → 1 ≤ rank status
finish_rank status h = ground arith

finish_body-Step :
    (fresh job_id : Uuid) (fence : ℕ) (status : JobState) (state : OperationState) (d : Dict)
    (receipt : Option DeliveryReceipt) (now : Time) (db : Db) (a : OutboxJob) (db' : Db)
    → 1 ≤ rank status
    → finish_body fresh job_id fence status state d receipt now db ≡ ok (a, db')
    → Step db db'
unfolding finish_body
finish_body-Step fresh job_id fence status state d receipt now db a db' ahead h =
    let (job, e, h1) = >>=-eq-ok (sending_row job_id fence "job send fence is stale" db) _ h in
    let selected = sending_row-Selected job_id fence _ db e in
    let finished = released status now job in
    let (noted, e1, h2) =
      >>=-eq-ok (insert_evidence job_id fence d (persist_job finished db)) _ h1 in
    let (replied, e2, h3) =
      >>=-eq-ok (finish_replies fresh (issue_operation job) status state d now noted) _ h2 in
    let (delivered, e3, h4) = >>=-eq-ok (insert_receipt receipt job replied) _ h3 in
    Step-ok db h4 (
      Step-trans
        (persist-Step finished db job selected.present
          (sending-Later job finished selected (same_job job) refl refl ahead))
        (Step-trans (evidence-Step job_id fence d (persist_job finished db) noted e1) (
          Step-trans
            (finish_replies-Step fresh (issue_operation job) status state d now noted replied e2)
            (Step-trans (insert_receipt-Step receipt job replied delivered e3) (
              event-Step (replied_event job)
                (λ ref e. str_eq e.id ref && opt_nat_eq (some e.binding_id) job.binding_id)
                (reply_outcome status) delivered)))))

-- The row of a finished job, as the rest of the method leaves it.
pub finish_body-Later :
    (fresh job_id : Uuid) (fence : ℕ) (status : JobState) (state : OperationState) (d : Dict)
    (receipt : Option DeliveryReceipt) (now : Time) (db : Db) (a : OutboxJob) (db' : Db)
    → finish_body fresh job_id fence status state d receipt now db ≡ ok (a, db')
    → IsUnique db.jobs
    → (k : OutboxJob) × In k db'.jobs
      × Later a k
      × ((a.id ≡ job_id) × (a.claim_fence ≡ fence))
      × (a.state ≡ status)
unfolding finish_body
finish_body-Later fresh job_id fence status state d receipt now db a db' h u =
    let (job, e, h1) = >>=-eq-ok (sending_row job_id fence "job send fence is stale" db) _ h in
    let selected = sending_row-Selected job_id fence _ db e in
    let finished = released status now job in
    let written = persist_job finished db in
    let (noted, e1, h2) = >>=-eq-ok (insert_evidence job_id fence d written) _ h1 in
    let (replied, e2, h3) =
      >>=-eq-ok (finish_replies fresh (issue_operation job) status state d now noted) _ h2 in
    let (delivered, e3, h4) = >>=-eq-ok (insert_receipt receipt job replied) _ h3 in
    let rest = Step-ok written h4 (
      Step-trans (evidence-Step job_id fence d written noted e1) (
        Step-trans
          (finish_replies-Step fresh (issue_operation job) status state d now noted replied e2)
          (Step-trans (insert_receipt-Step receipt job replied delivered e3) (
            event-Step (replied_event job)
              (λ ref e. str_eq e.id ref && opt_nat_eq (some e.binding_id) job.binding_id)
              (reply_outcome status) delivered)))) in
    let same : finished ≡ a = ground arith in
    let (k, m, later) =
      Grows-In written.jobs db'.jobs finished (rest.grows (replace-IsUnique finished db.jobs u))
        (replace-In finished db.jobs job selected.present refl) in
    (
      k,
      m,
      subst (λ i. Later i k) same later,
      (
        ap (λ j. j.id) (sym same) ∙ selected.id_is,
        ap (λ j. j.claim_fence) (sym same) ∙ selected.fence_is,
      ),
      ap (λ j. j.state) (sym same),
    )

pub finish_job-Step :
    (fresh job_id : Uuid) (fence : ℕ) (status : JobState) (d : Dict)
    (receipt : Option DeliveryReceipt) (utc_now : Time) (db : Db)
    → Step db (finish_job fresh job_id fence status d receipt utc_now db).1
unfolding finish_job
finish_job-Step fresh job_id fence status d receipt utc_now db =
    elim (Option-cases (finish_state status)) [
      | inl e ↦ rw (e, finish_job) (Step-refl db)
      | inr (state, e) ↦
          let now = finished_at receipt utc_now in
          rw (e, finish_job)
            (transaction-Step (finish_body fresh job_id fence status state d receipt now) db
              λ a db' h.
                finish_body-Step fresh job_id fence status state d receipt now db a db'
                  (finish_rank status e) h)
    ]

pub requeue-Step :
    (o : Option Uuid) (d : Dict) (now : Time) (db : Db) → Step db (requeue_operation o d now db)
unfolding requeue_operation forget_authority
requeue-Step none d now db = Step-refl db
requeue-Step (some id) d now db =
    Step-trans (forget-Step id db)
      (update-Step id OperationState.queued now (some d) (forget_authority id db))
  where
    forget-Step : (id : Uuid) (db : Db) → Step db (forget_authority id db)
    forget-Step id db = elim (Option-cases (operation_row id db)) [
      | inl e ↦ same_jobs-Step db _ (rw (e, forget_authority) refl)
      | inr (op, e) ↦ rw (e, forget_authority) (replace_operation-Step _ db)
    ]

pub close-Step :
    (fresh : Uuid) (o : Option Uuid) (state : JobState) (op_state : OperationState) (d : Dict)
    (now : Time) (db db' : Db)
    → close_operation fresh o state op_state d now db ≡ ok db'
    → Step db db'
unfolding close_operation
close-Step fresh none state op_state d now db db' h = same_jobs-Step db db' (ground arith)
close-Step fresh (some id) state op_state d now db db' h =
    Step-trans (update-Step id op_state now (some d) db)
      (enqueue_reply-Step fresh id state d now _ db' h)

retried-Later :
    {id : Uuid} {fence : ℕ} {db : Db} (after : Option ℕ) (now : Time) (job : OutboxJob)
    → Selected JobState.sending id fence job db
    → Later job (retried after now job)
unfolding retried
retried-Later after now job s = elim (Bool-cases (ltb job.attempts 4)) [
  | inl e ↦ rw e (sending-Later job _ s (same_job job) refl refl (omega arith))
  | inr e ↦ rw e (sending-Later job _ s (same_job job) refl refl (omega arith))
]

retry_body-Step :
    (fresh job_id : Uuid) (fence : ℕ) (now : Time) (after : Option ℕ) (db : Db) (a : OutboxJob)
    (db' : Db)
    → retry_body fresh job_id fence now after db ≡ ok (a, db')
    → Step db db'
unfolding retry_body
retry_body-Step fresh job_id fence now after db a db' h =
    let (job, e, h1) = >>=-eq-ok (sending_row job_id fence "read retry fence is stale" db) _ h in
    let selected = sending_row-Selected job_id fence _ db e in
    let (_, _, h2) = >>=-eq-ok (guard (is_readonly_query job) _) _ h1 in
    let updated = retried after now job in
    let (noted, e1, h3) =
      >>=-eq-ok (insert_evidence job_id fence provider_error (persist_job updated db)) _ h2 in
    let (done, e2, h4) =
      >>=-eq-ok
        (if ltb job.attempts 4
          then ok (requeue_operation job.operation_id provider_error now noted)
          else close_operation fresh job.operation_id JobState.failed OperationState.failed
              provider_error now noted)
        _ h3 in
    Step-ok db h4 (
      Step-trans
        (persist-Step updated db job selected.present (retried-Later after now job selected))
        (Step-trans (evidence-Step job_id fence provider_error (persist_job updated db) noted e1)
          (elim (Bool-cases (ltb job.attempts 4)) [
            | inl few ↦
                subst (Step noted) (ground arith)
                  (requeue-Step job.operation_id provider_error now noted)
            | inr many ↦
                close-Step fresh job.operation_id JobState.failed OperationState.failed
                  provider_error now noted done (ground arith)
          ])))

pub retry_readonly_job-Step :
    (fresh job_id : Uuid) (fence : ℕ) (now : Time) (after : Option ℕ) (db : Db)
    → Step db (retry_readonly_job fresh job_id fence now after db).1
unfolding retry_readonly_job
retry_readonly_job-Step fresh job_id fence now after db =
    transaction-Step (retry_body fresh job_id fence now after) db
      (retry_body-Step fresh job_id fence now after db)
