-- ===== src/Outbox/Tables.antt =====
-- The tables of integrations/store.py that the outbox uses, and the statements that several methods
-- share. A row is its document: every INSERT and UPDATE writes the other columns from the same one.
use cyrene_exchange.Prelude.{
  ℕ, Bool, true, false, ◌&&◌, Option, none, some, List, [], ◌∷◌, ◌++◌, map, String, Uuid, Time,
  ◌==◌, str_eq, any, fetchone, if◌then◌else◌,
}
use cyrene_exchange.Outbox.Results.{Result, ok, integrity, conflict, guard, or_raise, ◌>>◌}
use cyrene_exchange.Outbox.Models.{
  JobState, JobKind, notify, issue_action, command_reply, challenge_reply, OperationState, Dict,
  OutboxJob, Operation, DeliveryReceipt, IntegrationConnection, SyncBinding, ActorBinding,
  WeComInboundEvent, WeComEventState,
}

-- A row of `job_evidence`.
pub record JobEvidence : Type 0 where
  pub job_id : Uuid
  pub claim_fence : ℕ
  pub evidence : Dict

-- A row of `operation_audits`, by the fields that distinguish its writers.
pub record OperationAudit : Type 0 where
  pub id : Uuid
  pub organization_id : String
  pub workspace_id : String
  pub actor_issuer : String
  pub actor_subject : String
  pub resource_id : Uuid
  pub action : String
  pub outcome : String
  pub observed_at : Time

pub record Db : Type 0 where
  pub jobs : List OutboxJob
  pub operations : List Operation
  pub job_evidence : List JobEvidence
  pub delivery_receipts : List DeliveryReceipt
  pub connections : List IntegrationConnection
  pub bindings : List SyncBinding
  pub actor_bindings : List ActorBinding
  pub events : List WeComInboundEvent
  pub audits : List OperationAudit

abbrev pub kind_eq : JobKind → JobKind → Bool
kind_eq notify notify = true
kind_eq issue_action issue_action = true
kind_eq command_reply command_reply = true
kind_eq challenge_reply challenge_reply = true
kind_eq _ _ = false

abbrev pub is_claimed : JobState → Bool
is_claimed JobState.claimed = true
is_claimed _ = false

abbrev pub is_sending : JobState → Bool
is_sending JobState.sending = true
is_sending _ = false

-- The unique index on (kind, idempotency_key) where the key is not NULL.
abbrev pub same_key : JobKind → Option String → OutboxJob → Bool
same_key kind none j = false
same_key kind (some key) j = elim j.idempotency_key [
  | none ↦ false
  | some k ↦ kind_eq j.kind kind && str_eq k key
]

abbrev pub has_id : Uuid → OutboxJob → Bool
has_id id j = j.id == id

-- `_insert_job`, with the constraints that SQLite checks: the primary key, the unique index and
-- the reference to a connection.
unfoldable pub insert_job : OutboxJob → Db → Result Db
insert_job job db = do
  guard (if any (has_id job.id) db.jobs then false else true) (integrity "outbox_jobs.id")
  guard (if any (same_key job.kind job.idempotency_key) db.jobs then false else true)
      (integrity "outbox_jobs.kind, outbox_jobs.idempotency_key")
  guard (any (λ c. c.id == job.connection_id) db.connections) (integrity "FOREIGN KEY")
  ok (record db { jobs = db.jobs ++ job ∷ [] })

-- `UPDATE outbox_jobs SET … WHERE id=?`
unfoldable pub replace_job : OutboxJob → List OutboxJob → List OutboxJob
replace_job job [] = []
replace_job job (j ∷ js) = (if j.id == job.id then job else j) ∷ replace_job job js

-- `_persist_job`
abbrev pub persist_job : OutboxJob → Db → Db
persist_job job db = record db { jobs = replace_job job db.jobs }

-- `SELECT document FROM outbox_jobs WHERE id=? AND state='CLAIMED' AND claim_fence=?`
abbrev pub claimed_under : Uuid → ℕ → OutboxJob → Bool
claimed_under id fence j = j.id == id && (is_claimed j.state && j.claim_fence == fence)

unfoldable pub claimed_row : Uuid → ℕ → String → Db → Result OutboxJob
claimed_row id fence detail db =
    or_raise (fetchone (claimed_under id fence) db.jobs) (conflict detail)

-- `SELECT document FROM outbox_jobs WHERE id=? AND state='SENDING' AND claim_fence=?`
abbrev pub sending_under : Uuid → ℕ → OutboxJob → Bool
sending_under id fence j = j.id == id && (is_sending j.state && j.claim_fence == fence)

unfoldable pub sending_row : Uuid → ℕ → String → Db → Result OutboxJob
sending_row id fence detail db =
    or_raise (fetchone (sending_under id fence) db.jobs) (conflict detail)

-- `SELECT document FROM operations WHERE id=?`
unfoldable pub operation_row : Uuid → Db → Option Operation
operation_row id db = fetchone (λ o. o.id == id) db.operations

-- `UPDATE operations SET … WHERE id=?`
unfoldable pub replace_operation : Operation → Db → Db
replace_operation op db = record db {
  operations = map (λ o. if o.id == op.id then op else o) db.operations;
}

-- `_update_operation_state`
unfoldable pub update_operation_state : Uuid → OperationState → Time → Option Dict → Db → Db
unfolding operation_row replace_operation
update_operation_state id state now result db = elim (operation_row id db) [
  | none ↦ db
  | some op ↦ replace_operation (record op { state = state; result = result; updated_at = now }) db
]

-- `INSERT INTO job_evidence VALUES(?,?,?)`, whose primary key is (job_id, claim_fence).
abbrev pub same_evidence : Uuid → ℕ → JobEvidence → Bool
same_evidence id fence e = e.job_id == id && e.claim_fence == fence

unfoldable pub insert_evidence : Uuid → ℕ → Dict → Db → Result Db
insert_evidence id fence evidence db = do
  guard (if any (same_evidence id fence) db.job_evidence then false else true)
      (integrity "job_evidence.job_id, job_evidence.claim_fence")
  ok (record db {
    job_evidence =
        db.job_evidence ++ record { job_id = id; claim_fence = fence; evidence = evidence } ∷ [];
  })

-- `UPDATE wecom_inbound_events SET document=? WHERE id=?` with a new state
unfoldable pub set_event_state : String → WeComEventState → Db → Db
set_event_state id state db = record db {
  events = map (λ e. if str_eq e.id id then record e { state = state } else e) db.events;
}
