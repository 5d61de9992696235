-- ===== src/Outbox/Execute.antt =====
-- `begin_authorized_execution` of integrations/store.py: the signed dispatch of Authority takes the
-- job over, under a new fence, before the provider is called.
use cyrene_exchange.Prelude.{
  ℕ, ◌+◌, String, Bool, true, false, ◌&&◌, some, ◌==◌, str_eq, length, select, fetchone, ◌^+◌,
  opt_eq, absent_or, Uuid, Time, seconds, opt_nat_eq,
}
use cyrene_exchange.Outbox.Results.{
  not_found, authorization, conflict, Result, ok, err, ◌>>=◌, ◌>>◌, guard, or_raise, transaction,
}
use cyrene_exchange.Outbox.Models.{
  JobState, OperationState, IntegrationPrincipal, require, IntegrationConnection, SyncBinding,
  ActorBinding, OutboxJob, Operation,
}
use cyrene_exchange.Outbox.Tables.{Db, persist_job, replace_operation}

-- `state IN ('QUEUED','AWAITING_AUTHORITY')`
abbrev pub is_open : OperationState → Bool
is_open OperationState.queued = true
is_open OperationState.awaiting_authority = true
is_open _ = false

abbrev pub operation_in_scope : IntegrationPrincipal → Uuid → Operation → Bool
operation_in_scope p id o =
    o.id == id
    && (str_eq o.organization_id p.organization_id
        && (str_eq o.workspace_id p.workspace_id
            && (str_eq o.actor_issuer p.issuer && str_eq o.actor_subject p.subject)))

-- What the signed dispatch names.
pub record Dispatch : Type 0 where
  pub operation_id : Uuid
  pub binding_id : Uuid
  pub execution_operation_id : String
  pub argument_digest : String
  pub authority_invocation_id : String

abbrev pub matches_intent : Dispatch → Operation → Bool
matches_intent d o =
    o.binding_id == d.binding_id
    && (str_eq o.execution_operation_id d.execution_operation_id
        && (str_eq o.argument_digest d.argument_digest
            && absent_or o.authority_invocation_id d.authority_invocation_id))

abbrev pub binding_in_scope : IntegrationPrincipal → Dispatch → Operation → SyncBinding → Bool
binding_in_scope p d o b =
    b.id == d.binding_id
    && (b.connection_id == o.connection_id
        && (str_eq b.organization_id p.organization_id && str_eq b.workspace_id p.workspace_id))

abbrev pub actor_binding_in_scope :
    IntegrationPrincipal → Dispatch → Operation → ActorBinding → Bool
actor_binding_in_scope p d o a =
    a.id == o.actor_binding_id
    && (a.binding_id == d.binding_id
        && (str_eq a.organization_id p.organization_id
            && (str_eq a.workspace_id p.workspace_id
                && (str_eq a.actor_issuer p.issuer && str_eq a.actor_subject p.subject))))

abbrev pub connection_in_scope : IntegrationPrincipal → Operation → IntegrationConnection → Bool
connection_in_scope p o c =
    c.id == o.connection_id
    && (str_eq c.organization_id p.organization_id
        && (str_eq c.workspace_id p.workspace_id && c.enabled))

-- Neither binding is disabled, and the member's attachment is the one of the intent.
abbrev pub attachment_is_current : SyncBinding → ActorBinding → Operation → Bool
attachment_is_current b a o =
    b.enabled
    && (a.enabled
        && (opt_eq (some a.delegation_ref) o.delegation_ref
            && str_eq a.account_link_ref o.account_link_ref))

-- `SELECT … WHERE operation_id=? AND state IN ('AWAITING_AUTHORITY','CLAIMED')`
abbrev pub awaits_execution : Uuid → OutboxJob → Bool
awaits_execution id j =
    opt_nat_eq j.operation_id (some id)
    && elim j.state [ JobState.awaiting_authority ↦ true | JobState.claimed ↦ true | _ ↦ false ]

abbrev pub job_in_scope : IntegrationPrincipal → Dispatch → OutboxJob → Bool
job_in_scope p d j =
    opt_nat_eq j.binding_id (some d.binding_id)
    && (absent_or j.authority_invocation_id d.authority_invocation_id
        && (str_eq j.actor_issuer p.issuer
            && (str_eq j.actor_subject p.subject
                && (str_eq j.organization_id p.organization_id
                    && str_eq j.workspace_id p.workspace_id))))

abbrev pub executing : Dispatch → ℕ → Time → OutboxJob → OutboxJob
executing d lease_seconds moment job = record job {
  state = JobState.sending;
  claim_owner = some ("authority:" ^+ d.authority_invocation_id);
  claim_fence = job.claim_fence + 1;
  lease_expires_at = some (moment + seconds lease_seconds);
  attempts = job.attempts + 1;
  updated_at = moment;
  authority_invocation_id = some d.authority_invocation_id;
}

-- The rows that `UPDATE operations … WHERE id=? AND state IN (…)` writes.
abbrev pub open_rowcount : Uuid → Db → ℕ
open_rowcount id db = length (select (λ o. o.id == id && is_open o.state) db.operations)

-- The checks that precede the writes: the operation, its bindings, its connection and its job.
unfoldable pub execution_target :
    IntegrationPrincipal → Dispatch → Db → Result (Operation × OutboxJob)
execution_target p d db = do
  operation ←
      or_raise
        (fetchone (λ o. operation_in_scope p d.operation_id o && is_open o.state) db.operations)
        (conflict "operation is not awaiting Authority execution")
  guard (matches_intent d operation) (authorization "approved invocation does not match intent")
  binding ←
      or_raise (fetchone (binding_in_scope p d operation) db.bindings)
        (not_found "execution binding no longer exists in workspace scope")
  actor_binding ←
      or_raise (fetchone (actor_binding_in_scope p d operation) db.actor_bindings)
        (not_found "member authority attachment no longer exists")
  connection ←
      or_raise (fetchone (connection_in_scope p operation) db.connections)
        (not_found "execution connection no longer exists in actor scope")
  guard (attachment_is_current binding actor_binding operation)
      (authorization "execution binding is disabled or mismatched")
  job ←
      or_raise (fetchone (awaits_execution d.operation_id) db.jobs)
        (conflict "operation has no awaiting outbox job")
  guard (job_in_scope p d job) (authorization "approved invocation scope does not match")
  ok (operation, job)

unfoldable pub execution_body :
    IntegrationPrincipal → Dispatch → ℕ → Time → Db → Result ((Operation × OutboxJob × ℕ) × Db)
unfolding select
execution_body p d lease_seconds moment db = do
  (operation, job) ← execution_target p d db
  let sending = executing d lease_seconds moment job
  let running = record operation {
    state = OperationState.running;
    authority_invocation_id = some d.authority_invocation_id;
    updated_at = moment;
  }
  guard (open_rowcount d.operation_id db == 1) (conflict "operation execution was already claimed")
  ok ((running, sending, sending.claim_fence), replace_operation running (persist_job sending db))

unfoldable pub begin_authorized_execution :
    IntegrationPrincipal → Dispatch → ℕ → Time → Time → Db → Result (Operation × OutboxJob × ℕ) × Db
unfolding execution_body
begin_authorized_execution p d lease_seconds utc_now moment db =
    elim (require p d.execution_operation_id utc_now) [
      | err e ↦ (err e, db)
      | ok _ ↦ transaction (execution_body p d lease_seconds moment) db
    ]
