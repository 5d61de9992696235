-- ===== src/Outbox/Retries.antt =====
-- The bounds of the retries of a read-only query (`retry_readonly_job` of integrations/store.py).
use cyrene_exchange.Outbox.Lifecycle.Steps.{
  update_operation_state-jobs, enqueue_reply-Adds, same_jobs-Adds, Adds-In,
}
use cyrene_exchange.Outbox.Lifecycle.Rows.{replace-In, In}
use mathlib.Core.Path.{subst}
use cyrene_exchange.Outbox.Lifecycle.Selected.{sending_row-Selected, Selected}
use cyrene_exchange.Outbox.Tables.{
  update_operation_state, operation_row, replace_operation, persist_job, insert_evidence,
  sending_row, Db,
}
use cyrene_exchange.Outbox.Models.{Dict, OperationState, JobState, OutboxJob}
use cyrene_exchange.Outbox.Retry.{
  forget_authority, close_operation, requeue_operation, provider_error, is_readonly_query,
  retry_body, retry_readonly_job, retry_delay, retried, backoff,
}
use cyrene_exchange.Prelude.{
  ◌∙◌, ap, sym, Option-cases, ◌*◌, if◌then◌else◌, ◌⊎◌, seconds, ◌+◌, ◌<◌, ltb, zero, Bool-cases,
  suc, Uuid, ◌^◌, arith, ◌≤◌, Time, none, some, inl, inr, true, refl, ℕ, ◌≡◌, Option,
}
use cyrene_exchange.Outbox.Results.{
  guard-eq-ok, authorization, guard, >>=-eq-ok, transaction-eq-ok, ok, Result,
}

pow_pos : (n : ℕ) → 1 ≤ 2 ^ n
pow_pos zero = omega arith
pow_pos (suc n) = omega (arith, pow_pos n)

-- The delay starts at half a second and doubles with each attempt up to 30 seconds.
backoff-bounds :
    (attempts : ℕ)
    → (500000 ≤ backoff attempts)
      × (1 ≤ attempts → seconds 1 ≤ backoff attempts)
      × (backoff attempts ≤ seconds 30)
unfolding backoff
backoff-bounds zero = (omega arith, λ h. absurd (omega (arith, h)), omega arith)
backoff-bounds (suc n) =
    let positive = pow_pos n in
    let doubled : 2 ^ suc n ≡ 2 ^ n + 2 ^ n = omega arith in
    let long : seconds 1 ≤ 2 ^ suc n * 500000 = omega arith in
    (omega arith, λ h. omega arith, omega arith)

retry_delay-bounds :
    (attempts : ℕ) (after : Option ℕ)
    → (500000 ≤ retry_delay attempts after)
      × (1 ≤ attempts → seconds 1 ≤ retry_delay attempts after)
      × (retry_delay attempts after ≤ seconds 60)
unfolding retry_delay
retry_delay-bounds attempts none =
    let (low, one, high) = backoff-bounds attempts in
    (omega arith, λ h. let k = one h in omega arith, omega arith)
retry_delay-bounds attempts (some n) =
    let (low, one, high) = backoff-bounds attempts in
    (omega arith, λ h. let k = one h in omega arith, omega arith)

-- What a retry makes of the job: READY again after a delay of 0.5 to 60 seconds, of at least a second
-- if it was attempted, and free of its Authority references, or FAILED after at least four attempts.
pub record IsRetried (now : Time) (before after : OutboxJob) : Type 0 where
  pub query : is_readonly_query before ≡ true
  pub released : (after.claim_owner ≡ none) × (after.lease_expires_at ≡ none)
  pub fence : after.claim_fence ≡ before.claim_fence
  pub outcome :
      ((after.state ≡ JobState.ready)
        × (before.attempts < 4)
        × (now + 500000 ≤ after.available_at)
        × (1 ≤ before.attempts → now + seconds 1 ≤ after.available_at)
        × (after.available_at ≤ now + seconds 60)
        × (after.authority_invocation_id ≡ none))
      ⊎ ((after.state ≡ JobState.failed) × (4 ≤ before.attempts))

retried-IsRetried :
    (after : Option ℕ) (now : Time) (job : OutboxJob)
    → is_readonly_query job ≡ true
    → IsRetried now job (retried after now job)
unfolding retried
retried-IsRetried after now job q =
    let (low, one, high) = retry_delay-bounds job.attempts after in
    elim (Bool-cases (ltb job.attempts 4)) [
      | inl few ↦ rw few (record {
        query = q;
        released = (refl, refl);
        fence = refl;
        outcome =
            inl (
              refl,
              ground arith,
              omega arith,
              λ h. let k = one h in omega arith,
              omega arith,
              refl,
            );
      })
      | inr many ↦ rw many (record {
        query = q;
        released = (refl, refl);
        fence = refl;
        outcome = inr (refl, ground arith);
      })
    ]

requeue_operation-jobs :
    (o : Option Uuid) (d : Dict) (now : Time) (db : Db)
    → (requeue_operation o d now db).jobs ≡ db.jobs
unfolding requeue_operation forget_authority replace_operation
requeue_operation-jobs none d now db = refl
requeue_operation-jobs (some id) d now db = elim (Option-cases (operation_row id db)) [
  | inl e ↦
      update_operation_state-jobs id OperationState.queued now (some d) (forget_authority id db)
      ∙ rw (e, forget_authority) refl
  | inr (op, e) ↦
      update_operation_state-jobs id OperationState.queued now (some d) (forget_authority id db)
      ∙ rw (e, forget_authority) refl
]

-- The operation of the job, and its reply, leave the rows of the jobs in place.
close_operation-In :
    (fresh : Uuid) (o : Option Uuid) (d : Dict) (now : Time) (db db' : Db) (j : OutboxJob)
    → close_operation fresh o JobState.failed OperationState.failed d now db ≡ ok db'
    → In j db.jobs
    → In j db'.jobs
unfolding close_operation
close_operation-In fresh none d now db db' j h m =
    Adds-In j (same_jobs-Adds db db' (ground arith)) m
close_operation-In fresh (some id) d now db db' j h m =
    Adds-In j
      (enqueue_reply-Adds fresh id JobState.failed d now
        (update_operation_state id OperationState.failed now (some d) db) db' h)
      (subst (In j) (sym (update_operation_state-jobs id OperationState.failed now (some d) db)) m)

insert_evidence-In :
    (id : Uuid) (fence : ℕ) (d : Dict) (db db' : Db) (j : OutboxJob)
    → insert_evidence id fence d db ≡ ok db'
    → In j db.jobs
    → In j db'.jobs
unfolding insert_evidence
insert_evidence-In id fence d db db' j h m = Adds-In j (same_jobs-Adds db db' (ground arith)) m

retried-id : (after : Option ℕ) (now : Time) (job : OutboxJob) → (retried after now job).id ≡ job.id
unfolding retried
retried-id after now job = elim (Bool-cases (ltb job.attempts 4)) [
  | inl e ↦ rw e refl
  | inr e ↦ rw e refl
]

-- When `retry_readonly_job` returns, the job was SENDING under the given token and is an issue query;
-- as it is now stored, it is READY, at a time from 0.5 to 60 seconds after the call, and from a second
-- if it has been attempted, whatever delay the provider asks for, if it has had fewer than four
-- attempts, and FAILED otherwise: no write is retried, and a job of four attempts is not retried.
pub retry_readonly_job-IsRetried :
    (fresh id : Uuid) (fence : ℕ) (now : Time) (after : Option ℕ) (db : Db) (job : OutboxJob)
    (db' : Db)
    → retry_readonly_job fresh id fence now after db ≡ (ok job, db')
    → (old : OutboxJob) × Selected JobState.sending id fence old db
      × IsRetried now old job
      × (job.id ≡ id)
      × In job db'.jobs
unfolding retry_readonly_job retry_body
retry_readonly_job-IsRetried fresh id fence now after db job db' h =
    let body = transaction-eq-ok (retry_body fresh id fence now after) h in
    let (old, e, h1) = >>=-eq-ok (sending_row id fence "read retry fence is stale" db) _ body in
    let (u, query, h2) =
      >>=-eq-ok (guard (is_readonly_query old) (authorization "only issue queries can be retried"))
        _ h1 in
    let updated = retried after now old in
    let selected = sending_row-Selected id fence _ db e in
    let (noted, e1, h3) =
      >>=-eq-ok (insert_evidence id fence provider_error (persist_job updated db)) _ h2 in
    let (done, e2, h4) =
      >>=-eq-ok
        (if ltb old.attempts 4
          then ok (requeue_operation old.operation_id provider_error now noted)
          else close_operation fresh old.operation_id JobState.failed OperationState.failed
              provider_error now noted)
        _ h3 in
    let (same, tables) = returned h4 in
    let own : updated.id ≡ old.id = retried-id after now old in
    let there = replace-In updated db.jobs old selected.present (sym own) in
    let noted_row =
      insert_evidence-In id fence provider_error (persist_job updated db) noted updated e1 there in
    let final : In updated done.jobs = elim (Bool-cases (ltb old.attempts 4)) [
      | inl few ↦
          let requeued : requeue_operation old.operation_id provider_error now noted ≡ done =
            ground arith in
          let kept : noted.jobs ≡ done.jobs =
            sym (requeue_operation-jobs old.operation_id provider_error now noted)
            ∙ ap (λ t. t.jobs) requeued in
          subst (In updated) kept noted_row
      | inr many ↦
          close_operation-In fresh old.operation_id provider_error now noted done updated
            (ground arith) noted_row
    ] in
    (
      old,
      selected,
      subst (IsRetried now old) same (retried-IsRetried after now old (guard-eq-ok _ _ query)),
      ap (λ j. j.id) (sym same) ∙ own ∙ selected.id_is,
      subst (λ j. In j db'.jobs) same (subst (λ (t : Db). In updated t.jobs) tables final),
    )
  where
    returned :
        {a b : OutboxJob} {s t : Db}
        → ◌≡◌ {A = Result (OutboxJob × Db)} (ok (a, s)) (ok (b, t))
        → (a ≡ b) × (s ≡ t)
    returned h = (cc, cc)
