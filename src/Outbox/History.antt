-- ===== src/Outbox/History.antt =====
-- Histories of the outbox: any sequence of calls of the methods of integrations/store.py by any
-- workers, and what a row of `outbox_jobs` may be after one.
pub mod Spent
pub mod Fencing
pub mod Stale
pub mod Settled
pub mod Finishes
pub mod Takeover
use cyrene_exchange.Outbox.Lifecycle.Resolved.{resolve_unknown_operation-Step}
use cyrene_exchange.Outbox.Reconcile.{resolve_unknown_operation}
use cyrene_exchange.Outbox.Retry.{retry_readonly_job}
use cyrene_exchange.Outbox.Lifecycle.Finished.{retry_readonly_job-Step, finish_job-Step}
use cyrene_exchange.Outbox.Finish.{finish_job}
use cyrene_exchange.Outbox.Lifecycle.Authorized.{
  begin_authorized_execution-Step, mark_authority_result_unknown-Step,
  update_authority_evidence-Step, prepare_authority_enqueue-Step, mark_awaiting_authority-Step,
}
use cyrene_exchange.Outbox.Authority.{
  mark_authority_result_unknown, update_authority_evidence, prepare_authority_enqueue,
  mark_awaiting_authority,
}
use mathlib.Core.Path.{subst}
use cyrene_exchange.Outbox.Lifecycle.Methods.{fail_claimed_job-Step, mark_sending-Step}
use cyrene_exchange.Outbox.Fail.{fail_claimed_job}
use cyrene_exchange.Outbox.Execute.{begin_authorized_execution, Dispatch}
use cyrene_exchange.Outbox.Claim.{mark_sending}
use cyrene_exchange.Outbox.Lifecycle.Recovered.{recover_expired_claims-Step, claim_job-Step}
use cyrene_exchange.Outbox.Recover.{recover_expired_claims, claim_job}
use cyrene_exchange.Outbox.Lifecycle.Steps.{Grows-In, Step}
use cyrene_exchange.Outbox.Lifecycle.Rows.{other_id, In, IsUnique}
use cyrene_exchange.Outbox.Lifecycle.{Later, Grows-trans, Grows-refl, Grows}
use cyrene_exchange.Outbox.Tables.{Db}
use cyrene_exchange.Prelude.{
  Bool, ap, ◌∙◌, sym, Time, String, Uuid, [], ◌∷◌, none, some, inl, inr, true, false, refl, ℕ, ◌≡◌,
  List, Option,
}
use cyrene_exchange.Outbox.Models.{DeliveryReceipt, Dict, IntegrationPrincipal, OutboxJob, JobState}

-- A call of a method with its arguments, the clock and the fresh ids included.
pub data Call : Type 0 where
  claim : (ℕ → Uuid) → String → Time → ℕ → Call
  recover : (ℕ → Uuid) → Time → Call
  send : Uuid → ℕ → Time → Call
  fail : Uuid → Uuid → Uuid → ℕ → String → Time → Call
  await_authority : Uuid → ℕ → String → String → Time → Call
  prepare_enqueue : Uuid → ℕ → String → Time → Call
  note_authority : Uuid → ℕ → String → String → Time → Call
  authority_unknown : Uuid → Uuid → ℕ → String → Time → Call
  execute : IntegrationPrincipal → Dispatch → ℕ → Time → Time → Call
  finish : Uuid → Uuid → ℕ → JobState → Dict → Option DeliveryReceipt → Time → Call
  retry : Uuid → Uuid → ℕ → Time → Option ℕ → Call
  reconcile : Uuid → IntegrationPrincipal → Uuid → Bool → Dict → String → Time → Call

-- The tables after a call, whether it returns or raises.
unfoldable pub perform : Call → Db → Db
perform (claim fresh worker now lease) db = (claim_job fresh worker now lease db).1
perform (recover fresh now) db = (recover_expired_claims fresh now db).1
perform (send id fence now) db = (mark_sending id fence now db).1
perform (fail fresh fresh' id fence code now) db =
    (fail_claimed_job fresh fresh' id fence code now db).1
perform (await_authority id fence i s now) db = (mark_awaiting_authority id fence i s now db).1
perform (prepare_enqueue id fence key now) db = (prepare_authority_enqueue id fence key now db).1
perform (note_authority id fence i s now) db = (update_authority_evidence id fence i s now db).1
perform (authority_unknown fresh id fence i now) db =
    (mark_authority_result_unknown fresh id fence i now db).1
perform (execute p d lease utc_now moment) db =
    (begin_authorized_execution p d lease utc_now moment db).1
perform (finish fresh id fence status d receipt now) db =
    (finish_job fresh id fence status d receipt now db).1
perform (retry fresh id fence now after) db = (retry_readonly_job fresh id fence now after db).1
perform (reconcile fresh p id succeeded result grant now) db =
    (resolve_unknown_operation fresh p id succeeded result grant now db).1

unfoldable pub run : List Call → Db → Db
run [] db = db
run (c ∷ cs) db = run cs (perform c db)

pub perform-Step : (c : Call) (db : Db) → Step db (perform c db)
unfolding perform
perform-Step (claim fresh worker now lease) db = claim_job-Step fresh worker now lease db
perform-Step (recover fresh now) db = recover_expired_claims-Step fresh now db
perform-Step (send id fence now) db = mark_sending-Step id fence now db
perform-Step (fail fresh fresh' id fence code now) db =
    fail_claimed_job-Step fresh fresh' id fence code now db
perform-Step (await_authority id fence i s now) db =
    mark_awaiting_authority-Step id fence i s now db
perform-Step (prepare_enqueue id fence key now) db =
    prepare_authority_enqueue-Step id fence key now db
perform-Step (note_authority id fence i s now) db =
    update_authority_evidence-Step id fence i s now db
perform-Step (authority_unknown fresh id fence i now) db =
    mark_authority_result_unknown-Step fresh id fence i now db
perform-Step (execute p d lease utc_now moment) db =
    begin_authorized_execution-Step p d lease utc_now moment db
perform-Step (finish fresh id fence status d receipt now) db =
    finish_job-Step fresh id fence status d receipt now db
perform-Step (retry fresh id fence now after) db =
    retry_readonly_job-Step fresh id fence now after db
perform-Step (reconcile fresh p id succeeded result grant now) db =
    resolve_unknown_operation-Step fresh p id succeeded result grant now db

-- After any sequence of calls from tables with distinct job ids, the ids are distinct, and each job
-- is still in its row and is `Later`: of the same kind, operation and idempotency key, under a fence
-- and a count of attempts that have not sunk, no earlier in the order of `rank` if the fence is the
-- same, and, if it was settled, in the same state under the same fence, but for an UNKNOWN job, which
-- may be SUCCEEDED.
pub run-Step :
    (cs : List Call) (db : Db)
    → IsUnique db.jobs
    → IsUnique (run cs db).jobs × Grows db.jobs (run cs db).jobs
unfolding run
run-Step [] db u = (u, Grows-refl db.jobs)
run-Step (c ∷ cs) db u =
    let first = perform-Step c db in
    let rest = run-Step cs (perform c db) (first.unique u) in
    (rest.0, Grows-trans db.jobs (perform c db).jobs (run (c ∷ cs) db).jobs (first.grows u) rest.1)

In-unique :
    (js : List OutboxJob) (a b : OutboxJob) → IsUnique js → In a js → In b js → a.id ≡ b.id → a ≡ b
In-unique [] a b u m n e = absurd m
In-unique (x ∷ js) a b u (inl p) (inl q) e = sym p ∙ q
In-unique (x ∷ js) a b u (inl p) (inr n) e =
    absurd (other_id x.id b js u.0 n (sym e ∙ ap (λ j. j.id) (sym p)))
In-unique (x ∷ js) a b u (inr m) (inl q) e =
    absurd (other_id x.id a js u.0 m (e ∙ ap (λ j. j.id) (sym q)))
In-unique (x ∷ js) a b u (inr m) (inr n) e = In-unique js a b u.1 m n e

-- A row after a history, with the id of a row before it, is that row at a later time.
pub run-Later :
    (cs : List Call) (db : Db) (j k : OutboxJob)
    → IsUnique db.jobs
    → In j db.jobs
    → In k (run cs db).jobs
    → k.id ≡ j.id
    → Later j k
run-Later cs db j k u m n e =
    let (unique, grows) = run-Step cs db u in
    let (i, here, later) = Grows-In db.jobs (run cs db).jobs j grows m in
    subst (Later j) (In-unique (run cs db).jobs i k unique here n (later.same_id ∙ sym e)) later
