-- ===== src/Outbox/Lifecycle/Methods.antt =====
-- Each method of the store on one claimed or sending job takes the tables one `Step` further.
use cyrene_exchange.Prelude.{
  ℕ, String, ◌≡◌, refl, inl, inr, Bool, true, Option, none, some, arith, str_eq, Option-cases,
  fetchone, fetchone-holds, Uuid, Time,
}
use cyrene_exchange.Outbox.Results.{conflict, ok, or_raise, >>=-eq-ok, or_raise-eq-ok}
use cyrene_exchange.Outbox.Models.{
  JobState, OperationState, WeComEventState, Dict, WeComInboundEvent, OutboxJob,
}
use cyrene_exchange.Outbox.Tables.{
  Db, persist_job, claimed_row, operation_row, update_operation_state, insert_evidence,
  set_event_state,
}
use cyrene_exchange.Outbox.Replies.{enqueue_reply_for_operation}
use cyrene_exchange.Outbox.Lifecycle.Rows.{fetchone-In}
use cyrene_exchange.Outbox.Lifecycle.Steps.{
  Step, Step-refl, Step-trans, persist-Step, enqueue_command_reply-Step, enqueue_reply-Step,
  evidence-Step, update-Step, same_jobs-Step,
}
use cyrene_exchange.Outbox.Lifecycle.Selected.{
  transaction-Step, Selected, fetchone_claimed, claimed_row-Selected, claimed-Later, Step-ok,
  same_job,
}
use cyrene_exchange.Outbox.Claim.{
  issue_operation, live_claim, mark_sending_body, mark_sending, with_operation,
}
use cyrene_exchange.Outbox.Fail.{
  released, replied_event, set_event_if_found, fail_replies, fail_body, fail_claimed_job,
}

with_operation-Step :
    (o : Option Uuid) (now : Time) (db : Db)
    → Step db
        (with_operation o (λ id. update_operation_state id OperationState.running now none) db)
with_operation-Step none now db = Step-refl db
with_operation-Step (some id) now db = update-Step id OperationState.running now none db

pub mark_sending-Step :
    (job_id : Uuid) (fence : ℕ) (now : Time) (db : Db)
    → Step db (mark_sending job_id fence now db).1
unfolding mark_sending mark_sending_body
mark_sending-Step job_id fence now db =
    transaction-Step (mark_sending_body job_id fence now) db λ sent db' h.
      let (job, e, r) =
        >>=-eq-ok
          (or_raise (fetchone (live_claim job_id fence now) db.jobs)
            (conflict "job claim is stale or expired"))
          _ h in
      let row : fetchone (live_claim job_id fence now) db.jobs ≡ some job = or_raise-eq-ok _ _ e in
      let holds : live_claim job_id fence now job ≡ true = fetchone-holds _ db.jobs job row in
      let selected : Selected JobState.claimed job_id fence job db =
        fetchone_claimed job_id fence job db (fetchone-In _ db.jobs job row) (ground arith) in
      let sending = record job { state = JobState.sending; updated_at = now } in
      Step-ok db r (
        Step-trans
          (persist-Step sending db job selected.present
            (claimed-Later job sending selected (same_job job) refl refl))
          (with_operation-Step (issue_operation job) now (persist_job sending db)))

fail_replies-Step :
    (fresh fresh' : Uuid) (o : Option Uuid) (d : Dict) (now : Time) (db db' : Db)
    → fail_replies fresh fresh' o d now db ≡ ok db'
    → Step db db'
unfolding fail_replies
fail_replies-Step fresh fresh' none d now db db' h = same_jobs-Step db db' (ground arith)
fail_replies-Step fresh fresh' (some id) d now db db' h =
    let updated = update_operation_state id OperationState.failed now (some d) db in
    let (first, e, r) =
      >>=-eq-ok (enqueue_reply_for_operation fresh id JobState.failed d now updated) _ h in
    Step-trans (update-Step id OperationState.failed now (some d) db) (
      Step-trans (enqueue_reply-Step fresh id JobState.failed d now updated first e)
        (elim (Option-cases (operation_row id first)) [
          | inl absent ↦ same_jobs-Step first db' (ground arith)
          | inr (op, found) ↦
              enqueue_command_reply-Step fresh' op JobState.failed d now first db' (ground arith)
        ]))

-- Setting the state of an event leaves the jobs alone.
pub event-Step :
    (o : Option String) (p : String → WeComInboundEvent → Bool) (state : WeComEventState) (db : Db)
    → Step db (elim o [
      | none ↦ db
      | some event_ref ↦ set_event_if_found (p event_ref) event_ref state db
    ])
unfolding set_event_state
event-Step none p state db = Step-refl db
event-Step (some ref) p state db = same_jobs-Step db _ (ground arith)

fail_body-Step :
    (fresh fresh' job_id : Uuid) (fence : ℕ) (code : String) (now : Time) (db : Db) (a : OutboxJob)
    (db' : Db)
    → fail_body fresh fresh' job_id fence code now db ≡ ok (a, db')
    → Step db db'
unfolding fail_body
fail_body-Step fresh fresh' job_id fence code now db a db' h =
    let (job, e, h1) = >>=-eq-ok (claimed_row job_id fence "job claim is stale" db) _ h in
    let selected = claimed_row-Selected job_id fence _ db e in
    let failed = released JobState.failed now job in
    let (noted, e1, h2) = >>=-eq-ok (insert_evidence job_id fence _ (persist_job failed db)) _ h1 in
    let (replied, e2, h3) =
      >>=-eq-ok (fail_replies fresh fresh' (issue_operation job) _ now noted) _ h2 in
    Step-ok db h3 (
      Step-trans
        (persist-Step failed db job selected.present
          (claimed-Later job failed selected (same_job job) refl refl))
        (Step-trans (evidence-Step job_id fence _ (persist_job failed db) noted e1) (
          Step-trans (fail_replies-Step fresh fresh' (issue_operation job) _ now noted replied e2) (
            event-Step (replied_event job) (λ ref e. str_eq e.id ref) WeComEventState.rejected
              replied))))

pub fail_claimed_job-Step :
    (fresh fresh' job_id : Uuid) (fence : ℕ) (code : String) (now : Time) (db : Db)
    → Step db (fail_claimed_job fresh fresh' job_id fence code now db).1
unfolding fail_claimed_job
fail_claimed_job-Step fresh fresh' job_id fence code now db =
    transaction-Step (fail_body fresh fresh' job_id fence code now) db
      (fail_body-Step fresh fresh' job_id fence code now db)
