-- ===== src/Outbox/Retry.antt =====
-- `retry_readonly_job` of integrations/store.py, and what it shares with the recovery of expired
-- sends: the way of a read-only query back to READY.
use cyrene_exchange.Prelude.{
  ℕ, ◌+◌, ◌^◌, ◌*◌, min, max, Bool, ◌&&◌, Option, none, some, [], ◌∷◌, ltb, if◌then◌else◌, opt_eq,
  Uuid, Time, seconds,
}
use cyrene_exchange.Outbox.Results.{authorization, Result, ok, ◌>>=◌, ◌>>◌, guard, transaction}
use cyrene_exchange.Outbox.Models.{
  JobState, OperationState, issue_action, text, Dict, get_text, OutboxJob,
}
use cyrene_exchange.Outbox.Tables.{
  Db, kind_eq, persist_job, sending_row, operation_row, replace_operation, update_operation_state,
  insert_evidence,
}
use cyrene_exchange.Outbox.Replies.{enqueue_reply_for_operation}
use cyrene_exchange.Outbox.Fail.{released}

-- `job.kind == "ISSUE_ACTION" and job.payload.get("operationId") == "integration.issue.query"`
abbrev pub is_readonly_query : OutboxJob → Bool
is_readonly_query job =
    kind_eq job.kind issue_action
    && opt_eq (get_text job.payload "operationId") (some "integration.issue.query")

-- `min(30, 2 ** (job.attempts - 1))` seconds; no attempt gives half a second.
unfoldable pub backoff : ℕ → Time
backoff attempts = min (seconds 30) (2 ^ attempts * 500000)

-- `min(60, max(exponential, retry_after_seconds or 0))` seconds
unfoldable pub retry_delay : ℕ → Option ℕ → Time
unfolding backoff
retry_delay attempts none = min (seconds 60) (max (backoff attempts) 0)
retry_delay attempts (some retry_after) =
    min (seconds 60) (max (backoff attempts) (seconds retry_after))

-- Back to READY, under a new Authority attempt.
abbrev pub requeued : Time → Time → OutboxJob → OutboxJob
requeued delay now job = record (released JobState.ready now job) {
  authority_invocation_id = none;
  authority_idempotency_key = none;
  authority_state = none;
  available_at = now + delay;
}

unfoldable pub forget_authority : Uuid → Db → Db
forget_authority id db = elim (operation_row id db) [
  | none ↦ db
  | some op ↦
      replace_operation
        (record op { authority_invocation_id = none; authority_idempotency_key = none }) db
]

-- The operation of a query that goes back to the queue.
unfoldable pub requeue_operation : Option Uuid → Dict → Time → Db → Db
requeue_operation none result now db = db
requeue_operation (some id) result now db =
    update_operation_state id OperationState.queued now (some result) (forget_authority id db)

-- The operation whose job ends as `state`, and its reply.
unfoldable pub close_operation :
    Uuid → Option Uuid → JobState → OperationState → Dict → Time → Db → Result Db
close_operation fresh none state operation_state result now db = ok db
close_operation fresh (some id) state operation_state result now db =
    enqueue_reply_for_operation fresh id state result now
      (update_operation_state id operation_state now (some result) db)

abbrev pub provider_error : Dict
provider_error = ("reasonCode", text "readonly_provider_error") ∷ []

-- The new document of the job, from its attempts.
unfoldable pub retried : Option ℕ → Time → OutboxJob → OutboxJob
retried retry_after now job =
    if ltb job.attempts 4
    then requeued (retry_delay job.attempts retry_after) now job
    else released JobState.failed now job

unfoldable pub retry_body : Uuid → Uuid → ℕ → Time → Option ℕ → Db → Result (OutboxJob × Db)
retry_body fresh job_id fence now retry_after db = do
  job ← sending_row job_id fence "read retry fence is stale" db
  guard (is_readonly_query job) (authorization "only issue queries can be retried")
  let updated = retried retry_after now job
  noted ← insert_evidence job_id fence provider_error (persist_job updated db)
  done ←
      if ltb job.attempts 4
      then ok (requeue_operation job.operation_id provider_error now noted)
      else close_operation fresh job.operation_id JobState.failed OperationState.failed
          provider_error now noted
  ok (updated, done)

unfoldable pub retry_readonly_job : Uuid → Uuid → ℕ → Time → Option ℕ → Db → Result OutboxJob × Db
unfolding retry_body
retry_readonly_job fresh job_id fence now retry_after =
    transaction (retry_body fresh job_id fence now retry_after)
