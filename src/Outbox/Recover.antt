-- ===== src/Outbox/Recover.antt =====
-- `recover_expired_claims` and the whole of `claim_job` of integrations/store.py.
use cyrene_exchange.Prelude.{
  ℕ, String, Bool, false, ◌&&◌, ◌||◌, Option, none, some, List, [], ◌∷◌, ltb, leb, if◌then◌else◌,
  length, select, truthy, Uuid, Time,
}
use cyrene_exchange.Outbox.Results.{value_error, Result, ok, err, ◌>>=◌, transaction}
use cyrene_exchange.Outbox.Models.{JobState, OperationState, text, Dict, OutboxJob, ClaimedJob}
use cyrene_exchange.Outbox.Tables.{Db, is_claimed, is_sending, persist_job}
use cyrene_exchange.Outbox.Fail.{released}
use cyrene_exchange.Outbox.Retry.{
  is_readonly_query, backoff, requeued, requeue_operation, close_operation,
}
use cyrene_exchange.Outbox.Claim.{claim_is_invalid, claim_next}

-- `lease_expires_at<=?`
abbrev pub lease_is_over : Option Time → Time → Bool
lease_is_over none now = false
lease_is_over (some t) now = leb t now

-- `state IN ('CLAIMED','SENDING') AND lease_expires_at<=?`
abbrev pub is_expired : Time → OutboxJob → Bool
is_expired now j =
    (is_claimed j.state || is_sending j.state) && lease_is_over j.lease_expires_at now

abbrev pub reason : String → Dict
reason code = ("reasonCode", text code) ∷ []

-- The new document of an expired job.
unfoldable pub recovered : Time → OutboxJob → OutboxJob
recovered now job =
    if is_claimed job.state
    then released
        (if truthy job.authority_invocation_id then JobState.awaiting_authority else JobState.ready)
        now job
    else if is_readonly_query job
    then (if ltb job.attempts 4
        then requeued (backoff job.attempts) now job
        else released JobState.failed now job)
    else released JobState.unknown now job

-- What happens to the operation of an expired job.
unfoldable pub recover_operation : Uuid → Time → OutboxJob → Db → Result Db
recover_operation fresh now job db =
    if is_claimed job.state
    then ok db
    else if is_readonly_query job
    then (if ltb job.attempts 4
        then ok
            (requeue_operation job.operation_id (reason "readonly_query_retry_after_crash") now db)
        else close_operation fresh job.operation_id JobState.failed OperationState.failed
            (reason "readonly_query_attempts_exhausted") now db)
    else close_operation fresh job.operation_id JobState.unknown OperationState.unknown
        (reason "send_outcome_unknown_after_lease_expiry") now db

unfoldable pub recover_one : Uuid → Time → OutboxJob → Db → Result Db
recover_one fresh now job db = do
  done ← recover_operation fresh now job db
  ok (persist_job (recovered now job) done)

-- The loop over the selected rows. `fresh n` is the `uuid4()` of the reply of the row at which `n`
-- rows are left.
unfoldable pub recover_rows : (ℕ → Uuid) → Time → List OutboxJob → Db → Result Db
recover_rows fresh now [] db = ok db
recover_rows fresh now (job ∷ rows) db = do
  done ← recover_one (fresh (length rows)) now job db
  recover_rows fresh now rows done

unfoldable pub recover_body : (ℕ → Uuid) → Time → Db → Result (ℕ × Db)
recover_body fresh now db = do
  let rows = select (is_expired now) db.jobs
  done ← recover_rows fresh now rows db
  ok (length rows, done)

unfoldable pub recover_expired_claims : (ℕ → Uuid) → Time → Db → Result ℕ × Db
recover_expired_claims fresh now = transaction (recover_body fresh now)

-- `claim_job`: the recovery and the claim are two transactions.
unfoldable pub claim_job : (ℕ → Uuid) → String → Time → ℕ → Db → Result (Option ClaimedJob) × Db
claim_job fresh worker_id now lease_seconds db =
    if claim_is_invalid worker_id lease_seconds
    then (err (value_error "worker id or lease duration is invalid"), db)
    else (let (recovery, db') = recover_expired_claims fresh now db in
        elim recovery [
          | err e ↦ (err e, db')
          | ok _ ↦ transaction (claim_next worker_id now lease_seconds) db'
        ])
