-- ===== src/Outbox/Authority.antt =====
-- The methods of integrations/store.py by which a claimed job waits for Authority:
-- `mark_awaiting_authority`, `prepare_authority_enqueue`, `update_authority_evidence` and
-- `mark_authority_result_unknown`.
use Prim.Native.String.{count}
use cyrene_exchange.Prelude.{
  ℕ, ◌+◌, String, Bool, ◌||◌, Option, none, some, [], ◌∷◌, ltb, str_eq, if◌then◌else◌, or_default,
  opt_eq, absent_or, Uuid, Time, seconds,
}
use cyrene_exchange.Outbox.Results.{
  not_found, conflict, validation, Result, ok, err, ◌>>=◌, ◌>>◌, guard, or_raise, transaction,
}
use cyrene_exchange.Outbox.Models.{JobState, OperationState, text, Dict, OutboxJob, Operation}
use cyrene_exchange.Outbox.Tables.{
  Db, persist_job, claimed_row, operation_row, replace_operation, update_operation_state,
  insert_evidence,
}
use cyrene_exchange.Outbox.Replies.{enqueue_reply_for_operation}
use cyrene_exchange.Outbox.Fail.{released}

-- `if not value or len(value) > 300`
abbrev pub ref_is_invalid : String → Bool
ref_is_invalid ref = str_eq ref "" || ltb 300 (count ref)

-- The state of the operation, when it has to be found.
unfoldable pub operation_awaits : Option Uuid → String → Time → Db → Result Db
operation_awaits none invocation_id moment db = ok db
operation_awaits (some id) invocation_id moment db = do
  operation ← or_raise (operation_row id db) (not_found "authorized operation not found")
  ok (
      replace_operation
        (record operation {
          state = OperationState.awaiting_authority;
          authority_invocation_id = some invocation_id;
          updated_at = moment;
        })
        db)

abbrev pub awaiting : String → String → Time → OutboxJob → OutboxJob
awaiting invocation_id authority_state moment job =
    record (released JobState.awaiting_authority moment job) {
      authority_invocation_id = some invocation_id;
      authority_state = some authority_state;
    }

unfoldable pub awaiting_body : Uuid → ℕ → String → String → Time → Db → Result (OutboxJob × Db)
awaiting_body job_id fence invocation_id authority_state moment db = do
  job ← claimed_row job_id fence "job claim is stale" db
  guard (absent_or job.authority_invocation_id invocation_id)
      (conflict "job already references a different Authority invocation")
  let updated = awaiting invocation_id authority_state moment job
  done ← operation_awaits job.operation_id invocation_id moment (persist_job updated db)
  ok (updated, done)

unfoldable pub mark_awaiting_authority :
    Uuid → ℕ → String → String → Time → Db → Result OutboxJob × Db
unfolding awaiting_body
mark_awaiting_authority job_id fence invocation_id authority_state moment db =
    if ref_is_invalid invocation_id
    then (err (validation "authority invocation reference is invalid"), db)
    else transaction (awaiting_body job_id fence invocation_id authority_state moment) db

unfoldable pub prepare_body :
    Uuid → ℕ → String → Time → Db → Result ((Operation × OutboxJob × String) × Db)
prepare_body job_id fence candidate moment db = do
  job ← claimed_row job_id fence "job claim is stale" db
  operation_id ← or_raise job.operation_id (not_found "Authority job has no operation")
  operation ← or_raise (operation_row operation_id db) (not_found "Authority operation not found")
  guard (opt_eq job.authority_idempotency_key operation.authority_idempotency_key)
      (conflict "Authority idempotency records do not match")
  let key = or_default job.authority_idempotency_key candidate
  let prepared_job = record job { authority_idempotency_key = some key; updated_at = moment }
  let prepared_operation = record operation {
    authority_idempotency_key = some key;
    updated_at = moment;
  }
  ok (
    (prepared_operation, prepared_job, key),
    replace_operation prepared_operation (persist_job prepared_job db),
  )

unfoldable pub prepare_authority_enqueue :
    Uuid → ℕ → String → Time → Db → Result (Operation × OutboxJob × String) × Db
unfolding prepare_body
prepare_authority_enqueue job_id fence candidate moment db =
    if ref_is_invalid candidate
    then (err (validation "Authority idempotency key is invalid"), db)
    else transaction (prepare_body job_id fence candidate moment) db

-- `UPDATE operations SET document=? WHERE id=? AND state='AWAITING_AUTHORITY'`
abbrev pub touch_awaiting : Operation → Time → Db → Db
touch_awaiting operation moment db = elim operation.state [
  | OperationState.awaiting_authority ↦
      replace_operation (record operation { updated_at = moment }) db
  | _ ↦ db
]

unfoldable pub touch_operation : Option Uuid → Time → Db → Result Db
touch_operation none moment db = ok db
touch_operation (some id) moment db = do
  operation ← or_raise (operation_row id db) (not_found "authorized operation not found")
  ok (touch_awaiting operation moment db)

unfoldable pub evidence_body : Uuid → ℕ → String → String → Time → Db → Result (OutboxJob × Db)
evidence_body job_id fence invocation_id authority_state moment db = do
  job ← claimed_row job_id fence "job claim is stale" db
  guard (opt_eq job.authority_invocation_id (some invocation_id))
      (conflict "Authority invocation does not match the durable intent")
  let updated = record (released JobState.awaiting_authority moment job) {
    authority_state = some authority_state;
    available_at = moment + seconds 2;
  }
  done ← touch_operation job.operation_id moment (persist_job updated db)
  ok (updated, done)

unfoldable pub update_authority_evidence :
    Uuid → ℕ → String → String → Time → Db → Result OutboxJob × Db
unfolding evidence_body
update_authority_evidence job_id fence invocation_id authority_state moment =
    transaction (evidence_body job_id fence invocation_id authority_state moment)

abbrev pub unknown_result : Dict
unknown_result = ("authorityState", text "UNKNOWN_RESULT") ∷ []

unfoldable pub unknown_replies : Uuid → Option Uuid → Time → Db → Result Db
unknown_replies fresh none moment db = ok db
unknown_replies fresh (some id) moment db =
    enqueue_reply_for_operation fresh id JobState.unknown unknown_result moment
      (update_operation_state id OperationState.unknown moment (some unknown_result) db)

unfoldable pub unknown_body : Uuid → Uuid → ℕ → String → Time → Db → Result (OutboxJob × Db)
unknown_body fresh job_id fence invocation_id moment db = do
  job ← claimed_row job_id fence "Authority result claim is stale" db
  guard (opt_eq job.authority_invocation_id (some invocation_id))
      (conflict "Authority result invocation does not match intent")
  let updated = record (released JobState.unknown moment job) {
    authority_state = some "UNKNOWN_RESULT";
  }
  noted ← insert_evidence job_id fence unknown_result (persist_job updated db)
  replied ← unknown_replies fresh job.operation_id moment noted
  ok (updated, replied)

unfoldable pub mark_authority_result_unknown :
    Uuid → Uuid → ℕ → String → Time → Db → Result OutboxJob × Db
unfolding unknown_body
mark_authority_result_unknown fresh job_id fence invocation_id moment =
    transaction (unknown_body fresh job_id fence invocation_id moment)
