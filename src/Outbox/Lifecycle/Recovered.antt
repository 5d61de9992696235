-- ===== src/Outbox/Lifecycle/Recovered.antt =====
-- `claim_job` with its recovery, and `resolve_unknown_operation`, take the tables one `Step` further.
use mathlib.Core.Bool.{false≢true}
use mathlib.Core.Path.{subst}
use cyrene_exchange.Prelude.{
  All-map, ℕ, ◌≤◌, String, ◌≡◌, refl, sym, ap, ◌∙◌, inl, inr, Bool, true, false, Option, none, some,
  List, [], ◌∷◌, ◌++◌, arith, ltb, ◌==◌, Bool-cases, Option-cases, length, select, any, All, Uuid,
  Time,
}
use cyrene_exchange.Outbox.Results.{Result-cases, ok, >>=-eq-ok}
use cyrene_exchange.Outbox.Models.{JobState, OperationState, Dict, OutboxJob, ClaimedJob}
use cyrene_exchange.Outbox.Tables.{
  Db, is_claimed, has_id, persist_job, replace_operation, update_operation_state,
}
use cyrene_exchange.Outbox.Lifecycle.{rank, is_settled, Later}
use cyrene_exchange.Outbox.Lifecycle.Rows.{In-select, select-IsUnique, IsUnique, In, In-replace}
use cyrene_exchange.Outbox.Lifecycle.Steps.{
  Adds-In, enqueue_reply-Adds, update_operation_state-jobs, same_jobs-Adds, Adds, Step, Step-refl,
  Step-trans, persist-Step, update-Step, same_jobs-Step,
}
use cyrene_exchange.Outbox.Lifecycle.Selected.{
  transaction-Step, SameJob, moved-Later, refenced-Later, Step-ok, same_job,
}
use cyrene_exchange.Outbox.Claim.{
  before, claimable, earliest, claimed_as, claim_rowcount, claim_next, claim_is_invalid,
}
use cyrene_exchange.Outbox.Retry.{
  forget_authority, is_readonly_query, requeue_operation, close_operation,
}
use cyrene_exchange.Outbox.Recover.{
  is_expired, recovered, recover_operation, recover_one, recover_rows, recover_body,
  recover_expired_claims, claim_job, reason,
}

-- A row that a SELECT finds is in the table, and satisfies its condition.
pub earliest-In : (js : List OutboxJob) (j : OutboxJob) → earliest js ≡ some j → In j js
unfolding earliest
earliest-In [] j h = cc
earliest-In (x ∷ js) j h = elim (Option-cases (earliest js)) [
  | inl e ↦ inl (ground arith)
  | inr (y, e) ↦ elim (Bool-cases (before y x)) [
    | inl b ↦ inr (earliest-In js j (ground arith))
    | inr b ↦ inl (ground arith)
  ]
]

pub select-In :
    (p : OutboxJob → Bool) (js : List OutboxJob) (j : OutboxJob)
    → In j (select p js)
    → In j js × (p j ≡ true)
unfolding select
select-In p [] j h = absurd h
select-In p (x ∷ js) j h = elim (Bool-cases (p x)) [
  | inl e ↦ elim (rw e at h) [
    | inl same ↦ (inl same, rw (← same) e)
    | inr m ↦ (inr (select-In p js j m).0, (select-In p js j m).1)
  ]
  | inr e ↦ let m = select-In p js j (rw e at h) in (inr m.0, m.1)
]

claimable-active :
    (now : Time) (j : OutboxJob) → claimable now j ≡ true → is_settled j.state ≡ false
claimable-active now j h = ground arith

claim_next-Step :
    (worker : String) (now : Time) (lease : ℕ) (db : Db) (a : Option ClaimedJob) (db' : Db)
    → claim_next worker now lease db ≡ ok (a, db')
    → Step db db'
unfolding claim_next
claim_next-Step worker now lease db a db' h =
    elim (Option-cases (earliest (select (claimable now) db.jobs))) [
      | inl e ↦ same_jobs-Step db db' (ground arith)
      | inr (job, e) ↦
          let found = select-In (claimable now) db.jobs job (earliest-In _ job e) in
          let updated = claimed_as worker lease now job in
          elim (Bool-cases (claim_rowcount job db.jobs == 1)) [
            | inl one ↦ subst (Step db) (ground arith) (
                persist-Step updated db job found.0 (
                  refenced-Later job updated (same_job job) refl refl
                    (claimable-active now job found.1)))
            | inr many ↦ same_jobs-Step db db' (ground arith)
          ]
    ]

requeue-jobs :
    (o : Option Uuid) (d : Dict) (now : Time) (db : Db)
    → (requeue_operation o d now db).jobs ≡ db.jobs
unfolding requeue_operation forget_authority replace_operation
requeue-jobs none d now db = refl
requeue-jobs (some id) d now db = ground (
  arith,
  update_operation_state-jobs id OperationState.queued now (some d) (forget_authority id db),
)

close-Adds :
    (fresh : Uuid) (o : Option Uuid) (state : JobState) (op_state : OperationState) (d : Dict)
    (now : Time) (db db' : Db)
    → close_operation fresh o state op_state d now db ≡ ok db'
    → Adds db db'
unfolding close_operation
close-Adds fresh none state op_state d now db db' h = same_jobs-Adds db db' (ground arith)
close-Adds fresh (some id) state op_state d now db db' h =
    let updated = update_operation_state id op_state now (some d) db in
    let added = enqueue_reply-Adds fresh id state d now updated db' h in
    record {
      new = added.new;
      jobs_are =
          added.jobs_are
          ∙ ap (λ js. js ++ added.new) (update_operation_state-jobs id op_state now (some d) db);
      step = Step-trans (update-Step id op_state now (some d) db) added.step;
    }

recover_operation-Adds :
    (fresh : Uuid) (now : Time) (job : OutboxJob) (db db' : Db)
    → recover_operation fresh now job db ≡ ok db'
    → Adds db db'
unfolding recover_operation
recover_operation-Adds fresh now job db db' h = elim (Bool-cases (is_claimed job.state)) [
  | inl claimed ↦ same_jobs-Adds db db' (ground arith)
  | inr sent ↦ elim (Bool-cases (is_readonly_query job)) [
    | inl query ↦ elim (Bool-cases (ltb job.attempts 4)) [
      | inl few ↦ same_jobs-Adds db db' (
          ground (
            arith,
            requeue-jobs job.operation_id (reason "readonly_query_retry_after_crash") now db,
          ))
      | inr many ↦
          close-Adds fresh job.operation_id JobState.failed OperationState.failed
            (reason "readonly_query_attempts_exhausted") now db db' (ground arith)
    ]
    | inr write ↦
        close-Adds fresh job.operation_id JobState.unknown OperationState.unknown
          (reason "send_outcome_unknown_after_lease_expiry") now db db' (ground arith)
  ]
]

expired-active :
    (now : Time) (job : OutboxJob)
    → is_expired now job ≡ true
    → (is_settled job.state ≡ false) × (rank job.state ≤ 1)
expired-active now job h = ground arith

recovered-Later :
    (now : Time) (job : OutboxJob) → is_expired now job ≡ true → Later job (recovered now job)
recovered-Later now job h =
    let (active, behind) = expired-active now job h in
    moved-Later job (recovered now job) (same now job) (fence now job) (attempts now job) active
      (omega (arith, behind, released_rank now job))
  where
    same : (now : Time) (job : OutboxJob) → SameJob job (recovered now job)
    same now job = unfold recovered in (ground arith, ground arith, ground arith, ground arith)

    fence : (now : Time) (job : OutboxJob) → (recovered now job).claim_fence ≡ job.claim_fence
    fence now job = unfold recovered in ground arith

    attempts : (now : Time) (job : OutboxJob) → (recovered now job).attempts ≡ job.attempts
    attempts now job = unfold recovered in ground arith

    released_rank : (now : Time) (job : OutboxJob) → 2 ≤ rank (recovered now job).state
    released_rank now job = unfold recovered in ground arith

-- A selected row that the loop has not come to is still as it was selected.
abbrev pub Pending : Time → Db → List OutboxJob → Type 0
Pending now db = All (λ j. In j db.jobs × (is_expired now j ≡ true))

persist-Pending :
    (now : Time) (k : OutboxJob) (rows : List OutboxJob) (db : Db)
    → any (has_id k.id) rows ≡ false
    → Pending now db rows
    → Pending now (persist_job k db) rows
unfolding any
persist-Pending now k [] db absent p = tt
persist-Pending now k (r ∷ rows) db absent p = (
  (In-replace r k db.jobs (λ e. false≢true (sym absent ∙ ground arith)) p.0.0, p.0.1),
  persist-Pending now k rows db (ground arith) p.1,
)

recover_one-Step :
    (fresh : Uuid) (now : Time) (job : OutboxJob) (rows : List OutboxJob) (db db' : Db)
    → recover_one fresh now job db ≡ ok db'
    → In job db.jobs
    → is_expired now job ≡ true
    → any (has_id job.id) rows ≡ false
    → Pending now db rows
    → Step db db' × Pending now db' rows
unfolding recover_one
recover_one-Step fresh now job rows db db' h m x absent pending =
    let (done, e, r) = >>=-eq-ok (recover_operation fresh now job db) _ h in
    let added = recover_operation-Adds fresh now job db done e in
    let k = recovered now job in
    let later = recovered-Later now job x in
    let written : persist_job k done ≡ db' = cc in
    (
      subst (Step db) written
          (Step-trans added.step (persist-Step k done job (Adds-In job added m) later)),
      subst (λ d. Pending now d rows) written
          (persist-Pending now k rows done (rw later.same_id absent)
            (All-map rows (λ j p. (Adds-In j added p.0, p.1)) pending)),
    )

recover_rows-Step :
    (fresh : ℕ → Uuid) (now : Time) (rows : List OutboxJob) (db db' : Db)
    → recover_rows fresh now rows db ≡ ok db'
    → IsUnique rows
    → Pending now db rows
    → Step db db'
unfolding recover_rows
recover_rows-Step fresh now [] db db' h u p = same_jobs-Step db db' (ground arith)
recover_rows-Step fresh now (job ∷ rows) db db' h u p =
    let (done, e, r) = >>=-eq-ok (recover_one (fresh (length rows)) now job db) _ h in
    let (step, pending) =
      recover_one-Step (fresh (length rows)) now job rows db done e p.0.0 p.0.1 u.0 p.1 in
    Step-trans step (recover_rows-Step fresh now rows done db' r u.1 pending)

recover_body-Step :
    (fresh : ℕ → Uuid) (now : Time) (db : Db) (n : ℕ) (db' : Db)
    → recover_body fresh now db ≡ ok (n, db')
    → Step db db'
unfolding recover_body
recover_body-Step fresh now db n db' h =
    let rows = select (is_expired now) db.jobs in
    let (done, e, r) = >>=-eq-ok (recover_rows fresh now rows db) _ h in
    let run = λ (u : IsUnique db.jobs).
      recover_rows-Step fresh now rows db done e (select-IsUnique (is_expired now) db.jobs u)
        (In-select (is_expired now) db.jobs) in
    Step-ok db r (record { unique = λ u. (run u).unique u; grows = λ u. (run u).grows u })

pub recover_expired_claims-Step :
    (fresh : ℕ → Uuid) (now : Time) (db : Db) → Step db (recover_expired_claims fresh now db).1
unfolding recover_expired_claims
recover_expired_claims-Step fresh now db =
    transaction-Step (recover_body fresh now) db (recover_body-Step fresh now db)

pub claim_job-Step :
    (fresh : ℕ → Uuid) (worker : String) (now : Time) (lease : ℕ) (db : Db)
    → Step db (claim_job fresh worker now lease db).1
unfolding claim_job
claim_job-Step fresh worker now lease db = elim (Bool-cases (claim_is_invalid worker lease)) [
  | inl e ↦ rw e (Step-refl db)
  | inr e ↦
      let recovery = recover_expired_claims fresh now db in
      let first = recover_expired_claims-Step fresh now db in
      rw e (elim (Result-cases recovery.0) [
        | inl (x, failed) ↦ rw failed first
        | inr (n, done) ↦ rw done (
            Step-trans first (
              transaction-Step (claim_next worker now lease) recovery.1
                (claim_next-Step worker now lease recovery.1)))
      ])
]
