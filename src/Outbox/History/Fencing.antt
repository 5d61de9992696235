-- ===== src/Outbox/History/Fencing.antt =====
-- At most one send and one terminal outcome for a claim, and no write by a superseded worker
-- (integrations/store.py).
use cyrene_exchange.Outbox.History.Spent.{claim_is_spent}
use mathlib.Core.Path.{subst}
use cyrene_exchange.Outbox.Lifecycle.Steps.{update_operation_state-jobs}
use cyrene_exchange.Outbox.Lifecycle.Methods.{mark_sending-Step}
use cyrene_exchange.Outbox.Lifecycle.Selected.{fetchone_claimed, Selected}
use cyrene_exchange.Outbox.History.{run, Call}
use cyrene_exchange.Outbox.Claim.{
  issue_operation, with_operation, live_claim, mark_sending_body, mark_sending,
}
use cyrene_exchange.Outbox.Lifecycle.Rows.{replace-In, fetchone-In, IsUnique, In}
use cyrene_exchange.Outbox.Tables.{update_operation_state, persist_job, Db, replace_job}
use cyrene_exchange.Prelude.{
  sym, arith, fetchone-holds, fetchone, ◌∙◌, ap, Time, Uuid, none, some, true, refl, ℕ, ◌≡◌, List,
  Option,
}
use cyrene_exchange.Outbox.Results.{
  transaction, or_raise-eq-ok, transaction-eq-ok, or_raise, >>=-eq-ok, conflict, ok, err,
}
use cyrene_exchange.Outbox.Models.{OperationState, OutboxJob, JobState}

with_operation-jobs :
    (o : Option Uuid) (now : Time) (db : Db)
    → (with_operation o (λ i. update_operation_state i OperationState.running now none) db).jobs
      ≡ db.jobs
with_operation-jobs none now db = refl
with_operation-jobs (some i) now db =
    update_operation_state-jobs i OperationState.running now none db

-- The row that `mark_sending` leaves: SENDING under the token of the claim.
mark_sending-Selected :
    (id : Uuid) (fence : ℕ) (now : Time) (db : Db) (sent : OutboxJob) (db' : Db)
    → mark_sending id fence now db ≡ (ok sent, db')
    → Selected JobState.sending id fence sent db'
unfolding mark_sending mark_sending_body
mark_sending-Selected id fence now db sent db' h =
    let (job, e, r) =
      >>=-eq-ok
        (or_raise (fetchone (live_claim id fence now) db.jobs)
          (conflict "job claim is stale or expired"))
        _ (transaction-eq-ok (mark_sending_body id fence now) h) in
    let row : fetchone (live_claim id fence now) db.jobs ≡ some job = or_raise-eq-ok _ _ e in
    let holds : live_claim id fence now job ≡ true = fetchone-holds _ db.jobs job row in
    let claimed : Selected JobState.claimed id fence job db =
      fetchone_claimed id fence job db (fetchone-In _ db.jobs job row) (ground arith) in
    let sending = record job { state = JobState.sending; updated_at = now } in
    let written = persist_job sending db in
    let same : sending ≡ sent = ground arith in
    let stored : with_operation (issue_operation job)
          (λ i. update_operation_state i OperationState.running now none) written
        ≡ db' =
      ground arith in
    let there = replace-In sending db.jobs job claimed.present refl in
    record {
      present =
          subst (λ d. In sent d.jobs) stored
            (rw (with_operation-jobs (issue_operation job) now written)
              (subst (λ j. In j (replace_job sending db.jobs)) same there));
      id_is = ap (λ j. j.id) (sym same) ∙ claimed.id_is;
      state_is = ap (λ j. j.state) (sym same);
      fence_is = ap (λ j. j.claim_fence) (sym same) ∙ claimed.fence_is;
    }

pub no_claim-mark_sending :
    (id : Uuid) (fence : ℕ) (now : Time) (db : Db)
    → fetchone (live_claim id fence now) db.jobs ≡ none
    → mark_sending id fence now db ≡ (err (conflict "job claim is stale or expired"), db)
unfolding mark_sending mark_sending_body
no_claim-mark_sending id fence now db h = rw (h, mark_sending_body, transaction) refl

-- In tables with distinct job ids: once `mark_sending` has returned for a claim, it raises a
-- conflict for the same job and fence, whatever calls are made in between and at whatever time: one
-- claim permits one send.
pub mark_sending_once :
    (id : Uuid) (fence : ℕ) (now later : Time) (db : Db) (sent : OutboxJob) (db' : Db)
    (cs : List Call)
    → IsUnique db.jobs
    → mark_sending id fence now db ≡ (ok sent, db')
    → mark_sending id fence later (run cs db')
      ≡ (err (conflict "job claim is stale or expired"), run cs db')
unfolding mark_sending mark_sending_body
mark_sending_once id fence now later db sent db' cs u h =
    let row = mark_sending-Selected id fence now db sent db' h in
    let unique : IsUnique db'.jobs =
      subst (λ r. IsUnique r.1.jobs) h ((mark_sending-Step id fence now db).unique u) in
    let stale : fetchone (live_claim id fence later) (run cs db').jobs ≡ none =
      claim_is_spent cs db' sent fence unique row.present (omega (arith, row.fence_is))
        (λ e. rw row.state_is (omega arith)) (live_claim id fence later)
        (λ k p. rw row.id_is (ground arith)) in
    no_claim-mark_sending id fence later (run cs db') stale
