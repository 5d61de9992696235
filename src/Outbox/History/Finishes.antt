-- ===== src/Outbox/History/Finishes.antt =====
-- A claim is finished at most once (`finish_job` of integrations/store.py).
use cyrene_exchange.Outbox.History.Spent.{send_is_spent}
use cyrene_exchange.Outbox.Lifecycle.Finished.{finish_body-Later, finish_job-Step}
use mathlib.Core.Path.{subst}
use cyrene_exchange.Outbox.Lifecycle.Rows.{In, IsUnique}
use cyrene_exchange.Outbox.History.{run, Call}
use cyrene_exchange.Outbox.Tables.{sending_under, Db, sending_row}
use cyrene_exchange.Outbox.Lifecycle.{rank, is_settled}
use cyrene_exchange.Outbox.Finish.{finished_at, finish_state, finish_body, finish_job}
use cyrene_exchange.Prelude.{
  sym, ◌∙◌, Option-cases, fetchone, Time, arith, ◌≤◌, Uuid, none, some, inl, inr, true, refl, ℕ,
  ◌≡◌, List, Option,
}
use cyrene_exchange.Outbox.Results.{
  transaction-eq-ok, transaction, Error, conflict, ok, err, Result,
}
use cyrene_exchange.Outbox.Models.{OutboxJob, DeliveryReceipt, Dict, OperationState, JobState}

settled-rank : (s : JobState) → is_settled s ≡ true → 2 ≤ rank s
settled-rank s h = ground arith

finish-settled :
    (status : JobState) (o : OperationState)
    → finish_state status ≡ some o
    → is_settled status ≡ true
finish-settled status o h = ground arith

-- The job of a returned `finish_job`, as its row is then.
finish_job-row :
    (fresh id : Uuid) (fence : ℕ) (status : JobState) (d : Dict) (receipt : Option DeliveryReceipt)
    (now : Time) (db : Db) (a : OutboxJob) (db' : Db)
    → IsUnique db.jobs
    → finish_job fresh id fence status d receipt now db ≡ (ok a, db')
    → (k : OutboxJob) × In k db'.jobs × ((k.id ≡ id) × (k.claim_fence ≡ fence)) × (2 ≤ rank k.state)
unfolding finish_job
finish_job-row fresh id fence status d receipt now db a db' u h =
    elim (Option-cases (finish_state status)) [
      | inl e ↦ absurd (raised (rw (e, finish_job) at h))
      | inr (o, e) ↦
          let body = finish_body fresh id fence status o d receipt (finished_at receipt now) in
          let run = transaction-eq-ok body (rw (e, finish_job) at h) in
          let (k, m, later, same, state) =
            finish_body-Later fresh id fence status o d receipt (finished_at receipt now) db a db'
              run u in
          let closed = rw (← state) at (finish-settled status o e) in
          let still : a.claim_fence ≡ k.claim_fence = later.settled_fence closed in
          (
            k,
            m,
            (later.same_id ∙ same.0, sym still ∙ same.1),
            omega (arith, later.spent still, settled-rank a.state closed),
          )
    ]
  where
    raised :
        {x : Error} {s t : Db} {b : OutboxJob}
        → ◌≡◌ {A = Result OutboxJob × Db} (err x, s) (ok b, t)
        → ⊥
    raised h = cc

no_send-finish_job :
    (fresh id : Uuid) (fence : ℕ) (status : JobState) (d : Dict) (receipt : Option DeliveryReceipt)
    (now : Time) (db : Db) (o : OperationState)
    → fetchone (sending_under id fence) db.jobs ≡ none
    → finish_state status ≡ some o
    → finish_job fresh id fence status d receipt now db
      ≡ (err (conflict "job send fence is stale"), db)
unfolding finish_job finish_body sending_row
no_send-finish_job fresh id fence status d receipt now db o gone e =
    rw (e, finish_job) (rw (gone, finish_body, sending_row, transaction) refl)

-- In tables with distinct job ids: once `finish_job` has returned for a claim, it raises a conflict
-- for the same job and fence, whatever calls are made in between, with any accepted status and any
-- receipt: a claim has one terminal outcome.
pub finish_job_once :
    (fresh fresh' id : Uuid) (fence : ℕ) (status status' : JobState) (d d' : Dict)
    (receipt receipt' : Option DeliveryReceipt) (now now' : Time) (db : Db) (a : OutboxJob)
    (db' : Db) (cs : List Call) (o : OperationState)
    → IsUnique db.jobs
    → finish_job fresh id fence status d receipt now db ≡ (ok a, db')
    → finish_state status' ≡ some o
    → finish_job fresh' id fence status' d' receipt' now' (run cs db')
      ≡ (err (conflict "job send fence is stale"), run cs db')
finish_job_once fresh fresh' id fence status status' d d' receipt receipt' now now' db a db' cs o u
      h e =
    let unique : IsUnique db'.jobs =
      subst (λ r. IsUnique r.1.jobs) h
        ((finish_job-Step fresh id fence status d receipt now db).unique u) in
    let (k, m, same, ended) = finish_job-row fresh id fence status d receipt now db a db' u h in
    let gone = send_is_spent cs db' k fence unique m (omega (arith, same.1)) (λ _. ended) in
    no_send-finish_job fresh' id fence status' d' receipt' now' (run cs db') o (rw same.0 at gone) e
