-- ===== src/Outbox/History/Takeover.antt =====
-- Claims and dispatches give out a new fencing token (`claim_job` and `begin_authorized_execution`
-- of integrations/store.py).
use cyrene_exchange.Outbox.Lifecycle.Authorized.{execution_target-Target}
use mathlib.Core.Path.{subst}
use cyrene_exchange.Outbox.Lifecycle.Rows.{replace-In, In}
use cyrene_exchange.Outbox.Tables.{replace_job, replace_operation, Db}
use cyrene_exchange.Outbox.Execute.{
  is_open, job_in_scope, matches_intent, executing, open_rowcount, execution_target,
  operation_in_scope, execution_body, begin_authorized_execution, awaits_execution, Dispatch,
}
use cyrene_exchange.Prelude.{
  opt_nat_eq, fetchone-holds, fetchone, ◌&&◌, sym, ap, ◌==◌, str_eq, ◌+◌, arith, ◌⊎◌, Time, Uuid,
  some, inl, inr, true, refl, ℕ, ◌≡◌,
}
use cyrene_exchange.Outbox.Results.{
  conflict, guard, >>=-eq-ok, transaction-eq-ok, Result-cases, Error, ok, err, Result,
}
use cyrene_exchange.Outbox.Models.{
  require, OperationState, Operation, OutboxJob, IntegrationPrincipal, JobState,
}

awaits_execution-states :
    (id : Uuid) (j : OutboxJob)
    → awaits_execution id j ≡ true
    → (j.state ≡ JobState.awaiting_authority) ⊎ (j.state ≡ JobState.claimed)
awaits_execution-states id j h = ground arith

raised :
    {A : Type 0} {x : Error} {s t : Db} {r : A} → ◌≡◌ {A = Result A × Db} (err x, s) (ok r, t) → ⊥
raised h = cc

-- When `begin_authorized_execution` returns, the job was AWAITING_AUTHORITY or CLAIMED under some
-- token, and it is now in the table, SENDING under the returned token, which is the next one; the
-- returned operation is RUNNING.
pub begin_authorized_execution-takes_over :
    (p : IntegrationPrincipal) (d : Dispatch) (lease : ℕ) (utc_now moment : Time) (db : Db)
    (op : Operation) (job : OutboxJob) (fence : ℕ) (db' : Db)
    → begin_authorized_execution p d lease utc_now moment db ≡ (ok (op, job, fence), db')
    → ((old : OutboxJob) × In old db.jobs
        × (old.id ≡ job.id)
        × (fence ≡ old.claim_fence + 1)
        × ((old.state ≡ JobState.awaiting_authority) ⊎ (old.state ≡ JobState.claimed)))
      × In job db'.jobs
      × (job.state ≡ JobState.sending)
      × (job.claim_fence ≡ fence)
      × (op.state ≡ OperationState.running)
unfolding begin_authorized_execution execution_body replace_operation
begin_authorized_execution-takes_over p d lease utc_now moment db op job fence db' h =
    elim (Result-cases (require p d.execution_operation_id utc_now)) [
      | inl (x, e) ↦ absurd (raised (rw (e, begin_authorized_execution) at h))
      | inr (_, e) ↦
          let body =
            transaction-eq-ok (execution_body p d lease moment)
              (rw (e, begin_authorized_execution) at h) in
          let (target, e, h1) = >>=-eq-ok (execution_target p d db) _ body in
          let old = target.1 in
          let found = execution_target-Target p d db target.0 old e in
          let (_, _, h2) =
            >>=-eq-ok
              (guard (open_rowcount d.operation_id db == 1)
                (conflict "operation execution was already claimed"))
              _ h1 in
          let sending = executing d lease moment old in
          let same : sending ≡ job = ground arith in
          (
            (
              old,
              found.present,
              ap (λ j. j.id) same,
              ground arith,
              awaits_execution-states d.operation_id old found.waits,
            ),
            stored sending job (replace-In sending db.jobs old found.present refl) same
                (ground arith),
            ap (λ j. j.state) (sym same),
            ground arith,
            ground arith,
          )
    ]
  where
    stored :
        (a b : OutboxJob)
        → In a (replace_job a db.jobs)
        → a ≡ b
        → replace_job a db.jobs ≡ db'.jobs
        → In b db'.jobs
    stored a b m e f = subst (λ js. In b js) f (subst (λ j. In j (replace_job a db.jobs)) e m)

execution_target-checked :
    (p : IntegrationPrincipal) (d : Dispatch) (db : Db) (op : Operation) (job : OutboxJob)
    → execution_target p d db ≡ ok (op, job)
    → (operation_in_scope p d.operation_id op ≡ true)
      × (matches_intent d op ≡ true)
      × (job_in_scope p d job ≡ true)
unfolding execution_target
execution_target-checked p d db op job h =
    let q = λ (o : Operation). operation_in_scope p d.operation_id o && is_open o.state in
    let row : fetchone q db.operations ≡ some op = ground arith in
    let holds : q op ≡ true = fetchone-holds q db.operations op row in
    (ground arith, ground arith, ground arith)

-- An operation and a job of the actor, with the intent that the dispatch names.
pub record IsAuthorized (p : IntegrationPrincipal) (d : Dispatch) (op : Operation) (job : OutboxJob)
    : Type 0 where
  pub scope : operation_in_scope p d.operation_id op ≡ true
  pub digest : str_eq op.argument_digest d.argument_digest ≡ true
  pub execution : str_eq op.execution_operation_id d.execution_operation_id ≡ true
  pub binding : op.binding_id ≡ d.binding_id
  pub invocation : op.authority_invocation_id ≡ some d.authority_invocation_id
  pub operation : opt_nat_eq job.operation_id (some d.operation_id) ≡ true
  pub organization : str_eq job.organization_id p.organization_id ≡ true
  pub workspace : str_eq job.workspace_id p.workspace_id ≡ true
  pub actor : str_eq job.actor_subject p.subject ≡ true

checked-IsAuthorized :
    (p : IntegrationPrincipal) (d : Dispatch) (op : Operation) (job : OutboxJob) (lease : ℕ)
    (now : Time)
    → operation_in_scope p d.operation_id op ≡ true
    → matches_intent d op ≡ true
    → job_in_scope p d job ≡ true
    → awaits_execution d.operation_id job ≡ true
    → IsAuthorized p d
        (record op {
          state = OperationState.running;
          authority_invocation_id = some d.authority_invocation_id;
          updated_at = now;
        })
        (executing d lease now job)
checked-IsAuthorized p d op job lease now scope intent same waits = record {
  scope = scope;
  digest = ground arith;
  execution = ground arith;
  binding = ground arith;
  invocation = refl;
  operation = ground arith;
  organization = ground arith;
  workspace = ground arith;
  actor = ground arith;
}

-- `begin_authorized_execution` returns only if the actor's grants have not expired and name the
-- execution operation, only with an operation of the actor and workspace whose argument digest,
-- execution operation and binding are those of the dispatch and which is now bound to its
-- invocation, and only with a job of that operation and of the actor's organization, workspace and
-- subject.
pub begin_authorized_execution-IsAuthorized :
    (p : IntegrationPrincipal) (d : Dispatch) (lease : ℕ) (utc_now moment : Time) (db : Db)
    (op : Operation) (job : OutboxJob) (fence : ℕ) (db' : Db)
    → begin_authorized_execution p d lease utc_now moment db ≡ (ok (op, job, fence), db')
    → (require p d.execution_operation_id utc_now ≡ ok tt) × IsAuthorized p d op job
unfolding begin_authorized_execution execution_body replace_operation
begin_authorized_execution-IsAuthorized p d lease utc_now moment db op job fence db' h =
    elim (Result-cases (require p d.execution_operation_id utc_now)) [
      | inl (x, e) ↦ absurd (raised (rw (e, begin_authorized_execution) at h))
      | inr (u, granted) ↦
          let body =
            transaction-eq-ok (execution_body p d lease moment)
              (rw (granted, begin_authorized_execution) at h) in
          let (target, e, h1) = >>=-eq-ok (execution_target p d db) _ body in
          let old = target.1 in
          let (scope, intent, same) = execution_target-checked p d db target.0 old e in
          let found = execution_target-Target p d db target.0 old e in
          let (_, _, h2) =
            >>=-eq-ok
              (guard (open_rowcount d.operation_id db == 1)
                (conflict "operation execution was already claimed"))
              _ h1 in
          let sending = executing d lease moment old in
          let job_is : sending ≡ job = ground arith in
          let running = record target.0 {
            state = OperationState.running;
            authority_invocation_id = some d.authority_invocation_id;
            updated_at = moment;
          } in
          let op_is : running ≡ op = ground arith in
          (
            granted,
            subst (IsAuthorized p d op) job_is (
                subst (λ o. IsAuthorized p d o sending) op_is
                  (checked-IsAuthorized p d target.0 old lease moment scope intent same
                    found.waits)),
          )
    ]
