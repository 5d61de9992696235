-- ===== src/Outbox/Fail.antt =====
-- `fail_claimed_job` of integrations/store.py: a job fails before any external effect.
use cyrene_exchange.Prelude.{
  ℕ, String, Bool, true, false, Option, none, some, [], ◌∷◌, str_eq, if◌then◌else◌, any, take_chars,
  Uuid, Time,
}
use cyrene_exchange.Outbox.Results.{Result, ok, ◌>>=◌, transaction}
use cyrene_exchange.Outbox.Models.{
  JobState, OperationState, WeComEventState, JobKind, command_reply, challenge_reply, text, Dict,
  get_text, WeComInboundEvent, OutboxJob,
}
use cyrene_exchange.Outbox.Tables.{
  Db, persist_job, claimed_row, operation_row, update_operation_state, insert_evidence,
  set_event_state,
}
use cyrene_exchange.Outbox.Replies.{enqueue_command_reply, enqueue_reply_for_operation}
use cyrene_exchange.Outbox.Claim.{issue_operation}

-- `job.kind in {"COMMAND_REPLY", "CHALLENGE_REPLY"}`
abbrev pub is_reply : JobKind → Bool
is_reply command_reply = true
is_reply challenge_reply = true
is_reply _ = false

-- The event that a reply answers, if its payload names one.
abbrev pub replied_event : OutboxJob → Option String
replied_event job = if is_reply job.kind then get_text job.payload "eventId" else none

abbrev pub set_event_if_found : (WeComInboundEvent → Bool) → String → WeComEventState → Db → Db
set_event_if_found p event_ref state db =
    if any p db.events then set_event_state event_ref state db else db

-- The two replies that the method enqueues for the operation of an issue action.
unfoldable pub fail_replies : Uuid → Uuid → Option Uuid → Dict → Time → Db → Result Db
fail_replies fresh fresh' operation_id evidence moment db = elim operation_id [
  | none ↦ ok db
  | some id ↦ do
    let failed_operation = update_operation_state id OperationState.failed moment (some evidence) db
    first ← enqueue_reply_for_operation fresh id JobState.failed evidence moment failed_operation
    elim (operation_row id first) [
      | none ↦ ok first
      | some operation ↦
          enqueue_command_reply fresh' operation JobState.failed evidence moment first
    ]
]

abbrev pub released : JobState → Time → OutboxJob → OutboxJob
released state moment job = record job {
  state = state;
  claim_owner = none;
  lease_expires_at = none;
  updated_at = moment;
}

unfoldable pub fail_body : Uuid → Uuid → Uuid → ℕ → String → Time → Db → Result (OutboxJob × Db)
fail_body fresh fresh' job_id fence reason_code moment db = do
  let evidence : Dict = ("reasonCode", text (take_chars 100 reason_code)) ∷ []
  job ← claimed_row job_id fence "job claim is stale" db
  let failed = released JobState.failed moment job
  noted ← insert_evidence job_id fence evidence (persist_job failed db)
  replied ← fail_replies fresh fresh' (issue_operation job) evidence moment noted
  ok (
    failed,
    elim (replied_event job) [
      | none ↦ replied
      | some event_ref ↦
          set_event_if_found (λ e. str_eq e.id event_ref) event_ref WeComEventState.rejected replied
    ],
  )

unfoldable pub fail_claimed_job :
    Uuid → Uuid → Uuid → ℕ → String → Time → Db → Result OutboxJob × Db
fail_claimed_job fresh fresh' job_id fence reason_code moment =
    transaction (fail_body fresh fresh' job_id fence reason_code moment)
