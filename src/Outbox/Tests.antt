-- ===== src/Outbox/Tests.antt =====
-- The theorems on the outbox at concrete tables.
use cyrene_exchange.Outbox.History.Finishes.{finish_job_once}
use cyrene_exchange.Outbox.Retries.{retry_readonly_job-IsRetried, IsRetried}
use cyrene_exchange.Outbox.Lifecycle.Selected.{Selected}
use cyrene_exchange.Outbox.Selection.{claim_job-none, claim_job-IsClaim, IsClaim}
use cyrene_exchange.Outbox.History.Takeover.{
  begin_authorized_execution-takes_over, begin_authorized_execution-IsAuthorized, IsAuthorized,
}
use cyrene_exchange.Outbox.History.Fencing.{mark_sending_once}
use cyrene_exchange.Outbox.History.Settled.{settled-mark_sending}
use cyrene_exchange.Outbox.Duplicates.Wedged.{sent_reply-claim_job}
use cyrene_exchange.Outbox.Duplicates.Failing.{answered-fail_claimed_job}
use cyrene_exchange.Outbox.Lifecycle.{Grows}
use cyrene_exchange.Outbox.Fail.{released, fail_claimed_job}
use cyrene_exchange.Outbox.Samples.{
  sending_job, reply_job, dispatch, unknown_job, sample_db, ready_job, principal, command,
  claimed_job,
}
use cyrene_exchange.Outbox.Lifecycle.Rows.{In, IsUnique}
use cyrene_exchange.Outbox.History.Stale.{stale-perform, presented}
use cyrene_exchange.Outbox.Finish.{insert_receipt, finish_replies, finish_body, finish_job}
use cyrene_exchange.Outbox.Execute.{
  executing, execution_target, execution_body, begin_authorized_execution,
}
use cyrene_exchange.Outbox.Duplicates.{IsAnswered}
use cyrene_exchange.Outbox.Claim.{
  claimable, earliest, claim_next, mark_sending_body, mark_sending, claimed_as, claim_is_invalid,
}
use cyrene_exchange.Outbox.Tables.{
  insert_job, replace_operation, update_operation_state, insert_evidence, replace_job, sending_row,
  operation_row, claimed_row, Db,
}
use cyrene_exchange.Outbox.Retry.{
  forget_authority, requeue_operation, retried, retry_body, retry_readonly_job,
}
use cyrene_exchange.Outbox.Replies.{
  reply_key, command_reply_job, reply_connection, enqueue_command_reply, has_reply_context,
}
use cyrene_exchange.Outbox.Recover.{recover_rows, recover_body, recover_expired_claims, claim_job}
use cyrene_exchange.Prelude.{
  All, arith, ◌⊎◌, ◌+◌, fetchone, select, any, Uuid, [], ◌∷◌, none, some, inl, false, refl, ℕ, ◌≡◌,
  List,
}
use cyrene_exchange.Outbox.Results.{conflict, Error, ok, err}
use cyrene_exchange.Outbox.Models.{
  get, get_text, require, OperationState, OutboxJob, Operation, ClaimedJob, JobState,
}
use cyrene_exchange.Outbox.History.{run-Step, perform, run, Call, claim, send, recover}

abbrev fresh : ℕ → Uuid
fresh n = 50 + n

abbrev calls : List Call
calls = claim fresh "worker" 5 60 ∷ send 10 1 6 ∷ []

run-Step_example :
    IsUnique (run calls (sample_db (ready_job ∷ []))).jobs
    × Grows (ready_job ∷ []) (run calls (sample_db (ready_job ∷ []))).jobs
unfolding any
run-Step_example = run-Step calls (sample_db (ready_job ∷ [])) (refl, tt)

abbrev sent : OutboxJob
sent = record claimed_job { state = JobState.sending; updated_at = 6 }

mark_sending_once_example :
    mark_sending 10 1 200
      (run (recover fresh 150 ∷ []) (mark_sending 10 1 6 (sample_db (claimed_job ∷ []))).1)
    ≡ (
      err (conflict "job claim is stale or expired"),
      run (recover fresh 150 ∷ []) (mark_sending 10 1 6 (sample_db (claimed_job ∷ []))).1,
    )
unfolding any mark_sending mark_sending_body fetchone replace_job update_operation_state
    operation_row replace_operation
mark_sending_once_example =
    mark_sending_once 10 1 6 200 (sample_db (claimed_job ∷ [])) sent
      (mark_sending 10 1 6 (sample_db (claimed_job ∷ []))).1 (recover fresh 150 ∷ []) (refl, tt)
      refl

stale-perform_example :
    perform (send 10 0 6) (run calls (sample_db (claimed_job ∷ [])))
    ≡ run calls (sample_db (claimed_job ∷ []))
unfolding any presented
stale-perform_example =
    stale-perform (send 10 0 6) calls (sample_db (claimed_job ∷ [])) claimed_job 0 (refl, tt)
      (inl refl) (omega arith) refl

settled-mark_sending_example :
    mark_sending 10 1 6 (run calls (sample_db (unknown_job ∷ [])))
    ≡ (err (conflict "job claim is stale or expired"), run calls (sample_db (unknown_job ∷ [])))
unfolding any
settled-mark_sending_example =
    settled-mark_sending calls (sample_db (unknown_job ∷ [])) unknown_job 1 6 (refl, tt) (inl refl)
      refl

abbrev finished_db : Db
finished_db = (finish_job 60 10 1 JobState.succeeded [] none 9 (sample_db (sending_job ∷ []))).1

finish_job_once_example :
    finish_job 61 10 1 JobState.failed [] none 20 (run calls finished_db)
    ≡ (err (conflict "job send fence is stale"), run calls finished_db)
unfolding any finish_job finish_body sending_row fetchone replace_job insert_evidence finish_replies
    update_operation_state operation_row replace_operation insert_receipt enqueue_command_reply
    insert_job has_reply_context reply_connection command_reply_job reply_key get_text get
finish_job_once_example =
    finish_job_once 60 61 10 1 JobState.succeeded JobState.failed [] [] none none 9 20
      (sample_db (sending_job ∷ [])) (released JobState.succeeded 9 sending_job) finished_db calls
      OperationState.failed (refl, tt) refl refl

abbrev running : Operation
running = record (command OperationState.queued) {
  state = OperationState.running;
  authority_invocation_id = some "invocation";
  updated_at = 9;
}

abbrev executing_db : Db
executing_db =
    (begin_authorized_execution principal dispatch 60 8 9 (sample_db (claimed_job ∷ []))).1

begin_authorized_execution-takes_over_example :
    ((old : OutboxJob) × In old (claimed_job ∷ [])
      × (old.id ≡ 10)
      × (2 ≡ old.claim_fence + 1)
      × ((old.state ≡ JobState.awaiting_authority) ⊎ (old.state ≡ JobState.claimed)))
    × In (executing dispatch 60 9 claimed_job) executing_db.jobs
    × (JobState.sending ≡ JobState.sending)
    × ((executing dispatch 60 9 claimed_job).claim_fence ≡ 2)
    × (OperationState.running ≡ OperationState.running)
unfolding any begin_authorized_execution execution_body execution_target require fetchone
    replace_job replace_operation select
begin_authorized_execution-takes_over_example =
    begin_authorized_execution-takes_over principal dispatch 60 8 9 (sample_db (claimed_job ∷ []))
      running (executing dispatch 60 9 claimed_job) 2 executing_db refl

begin_authorized_execution-IsAuthorized_example :
    (require principal "execute" 8 ≡ ok tt)
    × IsAuthorized principal dispatch running (executing dispatch 60 9 claimed_job)
unfolding any begin_authorized_execution execution_body execution_target require fetchone
    replace_job replace_operation select
begin_authorized_execution-IsAuthorized_example =
    begin_authorized_execution-IsAuthorized principal dispatch 60 8 9 (sample_db (claimed_job ∷ []))
      running (executing dispatch 60 9 claimed_job) 2 executing_db refl

abbrev claimed : ClaimedJob
claimed = record {
  job = claimed_as "worker" 60 5 ready_job;
  claim_fence = 1;
  claimed_from_state = JobState.ready;
}

claim_job-IsClaim_example :
    IsClaim "worker" 60 5
      (recover_expired_claims fresh 5 (sample_db (ready_job ∷ []))).1
      claimed
      (claim_job fresh "worker" 5 60 (sample_db (ready_job ∷ []))).1
unfolding claim_job claim_is_invalid recover_expired_claims recover_body recover_rows select
    claim_next earliest replace_job
claim_job-IsClaim_example =
    claim_job-IsClaim fresh "worker" 5 60 (sample_db (ready_job ∷ [])) claimed
      (claim_job fresh "worker" 5 60 (sample_db (ready_job ∷ []))).1 refl

claim_job-none_example :
    All
      (λ j. claimable 0 j ≡ false)
      (recover_expired_claims fresh 0 (sample_db (ready_job ∷ []))).1.jobs
unfolding any claim_job claim_is_invalid recover_expired_claims recover_body recover_rows select
    claim_next earliest replace_job
claim_job-none_example =
    claim_job-none fresh "worker" 0 60 (sample_db (ready_job ∷ []))
      (claim_job fresh "worker" 0 60 (sample_db (ready_job ∷ []))).1 (refl, tt) refl

retry_readonly_job-IsRetried_example :
    (old : OutboxJob) × Selected JobState.sending 10 1 old (sample_db (sending_job ∷ []))
    × IsRetried 9 old (retried (some 90) 9 sending_job)
    × ((retried (some 90) 9 sending_job).id ≡ 10)
    × In
        (retried (some 90) 9 sending_job)
        (retry_readonly_job 60 10 1 9 (some 90) (sample_db (sending_job ∷ []))).1.jobs
unfolding retry_readonly_job retry_body sending_row fetchone retried replace_job insert_evidence
    requeue_operation update_operation_state operation_row replace_operation forget_authority any
    get_text get
retry_readonly_job-IsRetried_example =
    retry_readonly_job-IsRetried 60 10 1 9 (some 90) (sample_db (sending_job ∷ []))
      (retried (some 90) 9 sending_job)
      (retry_readonly_job 60 10 1 9 (some 90) (sample_db (sending_job ∷ []))).1 refl

command-IsAnswered : IsAnswered (command OperationState.queued)
unfolding has_reply_context
command-IsAnswered = record { from_wecom = refl; in_context = refl }

answered-fail_claimed_job_example :
    (e : Error) × (fail_claimed_job 60 61 10 1 "invalid" 9 (sample_db (claimed_job ∷ []))
      ≡ (err e, sample_db (claimed_job ∷ [])))
unfolding claimed_row fetchone operation_row
answered-fail_claimed_job_example =
    answered-fail_claimed_job 60 61 10 7 1 "invalid" 9 (sample_db (claimed_job ∷ [])) claimed_job
      (command OperationState.queued) refl refl refl command-IsAnswered

sent_reply-claim_job_example :
    (e : Error) × (claim_job fresh "worker" 200 60 (sample_db (reply_job ∷ ready_job ∷ []))
      ≡ (err e, sample_db (reply_job ∷ ready_job ∷ [])))
unfolding select operation_row fetchone
sent_reply-claim_job_example =
    sent_reply-claim_job fresh "worker" 60 200 (sample_db (reply_job ∷ ready_job ∷ [])) reply_job []
      7 (command OperationState.queued) refl refl refl refl refl refl command-IsAnswered
