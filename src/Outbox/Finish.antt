-- ===== src/Outbox/Finish.antt =====
-- `finish_job` of integrations/store.py: the evidence and the terminal state of a sent job.
use cyrene_exchange.Prelude.{
  ℕ, true, false, ◌&&◌, Option, none, some, [], ◌∷◌, ◌++◌, ◌==◌, str_eq, if◌then◌else◌, any, Uuid,
  Time, opt_nat_eq,
}
use cyrene_exchange.Outbox.Results.{
  value_error, integrity, Result, ok, err, ◌>>=◌, ◌>>◌, guard, transaction,
}
use cyrene_exchange.Outbox.Models.{
  JobState, OperationState, WeComEventState, Dict, OutboxJob, DeliveryReceipt,
}
use cyrene_exchange.Outbox.Tables.{
  Db, persist_job, sending_row, operation_row, update_operation_state, insert_evidence,
}
use cyrene_exchange.Outbox.Replies.{enqueue_command_reply}
use cyrene_exchange.Outbox.Claim.{issue_operation}
use cyrene_exchange.Outbox.Fail.{released, replied_event, set_event_if_found}

-- The state of the operation for a finish status; no other status is accepted.
abbrev pub finish_state : JobState → Option OperationState
finish_state JobState.accepted = some OperationState.accepted
finish_state JobState.succeeded = some OperationState.succeeded
finish_state JobState.failed = some OperationState.failed
finish_state JobState.unknown = some OperationState.unknown
finish_state _ = none

unfoldable pub finish_replies :
    Uuid → Option Uuid → JobState → OperationState → Dict → Time → Db → Result Db
finish_replies fresh none status operation_state evidence now db = ok db
finish_replies fresh (some id) status operation_state evidence now db =
    let updated = update_operation_state id operation_state now (some evidence) db in
    elim (operation_row id updated) [
      | none ↦ ok updated
      | some operation ↦ enqueue_command_reply fresh operation status evidence now updated
    ]

-- `INSERT INTO delivery_receipts`, whose primary key is the id.
unfoldable pub insert_receipt : Option DeliveryReceipt → OutboxJob → Db → Result Db
insert_receipt none job db = ok db
insert_receipt (some receipt) job db = do
  guard (if any (λ r. r.id == receipt.id) db.delivery_receipts then false else true)
      (integrity "delivery_receipts.id")
  ok (record db {
    delivery_receipts =
        db.delivery_receipts
        ++ record receipt { job_id = some job.id; operation_id = job.operation_id } ∷ [];
  })

abbrev pub reply_outcome : JobState → WeComEventState
reply_outcome JobState.accepted = WeComEventState.reply_accepted
reply_outcome JobState.unknown = WeComEventState.unknown
reply_outcome _ = WeComEventState.rejected

-- `now = receipt.observed_at if receipt is not None else utc_now()`
abbrev pub finished_at : Option DeliveryReceipt → Time → Time
finished_at none utc_now = utc_now
finished_at (some r) utc_now = r.observed_at

unfoldable pub finish_body :
    Uuid
    → Uuid
    → ℕ
    → JobState
    → OperationState
    → Dict
    → Option DeliveryReceipt
    → Time
    → Db
    → Result (OutboxJob × Db)
finish_body fresh job_id fence status operation_state evidence receipt now db = do
  job ← sending_row job_id fence "job send fence is stale" db
  let finished = released status now job
  noted ← insert_evidence job_id fence evidence (persist_job finished db)
  replied ← finish_replies fresh (issue_operation job) status operation_state evidence now noted
  delivered ← insert_receipt receipt job replied
  ok (
    finished,
    elim (replied_event job) [
      | none ↦ delivered
      | some event_ref ↦
          set_event_if_found
            (λ e. str_eq e.id event_ref && opt_nat_eq (some e.binding_id) job.binding_id) event_ref
            (reply_outcome status) delivered
    ],
  )

unfoldable pub finish_job :
    Uuid → Uuid → ℕ → JobState → Dict → Option DeliveryReceipt → Time → Db → Result OutboxJob × Db
unfolding finish_body
finish_job fresh job_id fence status evidence receipt utc_now db = elim (finish_state status) [
  | none ↦ (err (value_error "finish status must be an explicit terminal/evidence state"), db)
  | some operation_state ↦
      transaction
        (finish_body fresh job_id fence status operation_state evidence receipt
          (finished_at receipt utc_now))
        db
]
