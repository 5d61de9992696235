-- ===== src/Outbox/Samples.antt =====
-- Concrete rows of the outbox, for the tests.
use cyrene_exchange.Outbox.Tables.{Db}
use cyrene_exchange.Outbox.Replies.{reply_key}
use cyrene_exchange.Outbox.Execute.{Dispatch}
use cyrene_exchange.Prelude.{Uuid, [], ◌∷◌, none, some, true, ℕ, List}
use cyrene_exchange.Outbox.Models.{
  Operation, SyncBinding, OutboxJob, OperationState, IntegrationPrincipal, IntegrationConnection,
  ActorBinding, JobState, JobKind, issue_action, command_reply, wecom_command, text,
}

abbrev pub connection : IntegrationConnection
connection = record {
  id = 1;
  organization_id = "org";
  workspace_id = "workspace";
  repository_name = "repository";
  enabled = true;
}

abbrev pub binding : SyncBinding
binding = record {
  id = 2;
  organization_id = "org";
  workspace_id = "workspace";
  connection_id = 1;
  notification_target_ref = "target";
  enabled = true;
}

abbrev pub actor_binding : ActorBinding
actor_binding = record {
  id = 3;
  binding_id = 2;
  organization_id = "org";
  workspace_id = "workspace";
  actor_issuer = "issuer";
  actor_subject = "subject";
  account_link_ref = "link";
  delegation_ref = "delegation";
  enabled = true;
}

-- A WeCom command with its reply context.
abbrev pub command : OperationState → Operation
command state = record {
  id = 7;
  organization_id = "org";
  workspace_id = "workspace";
  actor_issuer = "issuer";
  actor_subject = "subject";
  connection_id = 1;
  binding_id = 2;
  actor_binding_id = 3;
  account_link_ref = "link";
  delegation_ref = some "delegation";
  execution_operation_id = "execute";
  authority_invocation_id = none;
  authority_idempotency_key = none;
  argument_digest = "digest";
  reconciles_operation_id = none;
  operation_id = "integration.issue.close";
  idempotency_key = "key";
  request_hash = "hash";
  source_kind = wecom_command;
  source_event_ref = some "event";
  reply_binding_ref = some "reply-binding";
  reply_sender_id = some "sender";
  reply_conversation_ref = some "conversation";
  reply_message_id = some "message";
  reply_context_ref = some "context";
  issue_number = 12;
  body = none;
  state = state;
  result = none;
  created_at = 0;
  updated_at = 0;
}

-- A job of the command, under a token, with a lease that ends at 100.
abbrev pub sample_job : Uuid → JobKind → JobState → ℕ → OutboxJob
sample_job id kind state fence = record {
  id = id;
  kind = kind;
  organization_id = "org";
  workspace_id = "workspace";
  actor_issuer = "issuer";
  actor_subject = "subject";
  connection_id = 1;
  binding_id = some 2;
  operation_id = some 7;
  idempotency_key = none;
  authority_invocation_id = none;
  authority_idempotency_key = none;
  authority_state = none;
  payload = ("operationId", text "integration.issue.query") ∷ [];
  state = state;
  attempts = fence;
  available_at = 1;
  claim_owner = some "worker";
  claim_fence = fence;
  lease_expires_at = some 100;
  created_at = 0;
  updated_at = 0;
}

abbrev pub sample_db : List OutboxJob → Db
sample_db jobs = record {
  jobs = jobs;
  operations = command OperationState.queued ∷ [];
  job_evidence = [];
  delivery_receipts = [];
  connections = connection ∷ [];
  bindings = binding ∷ [];
  actor_bindings = actor_binding ∷ [];
  events = [];
  audits = [];
}

abbrev pub ready_job : OutboxJob
ready_job = sample_job 10 issue_action JobState.ready 0

abbrev pub claimed_job : OutboxJob
claimed_job = sample_job 10 issue_action JobState.claimed 1

abbrev pub sending_job : OutboxJob
sending_job = sample_job 10 issue_action JobState.sending 1

abbrev pub unknown_job : OutboxJob
unknown_job = sample_job 10 issue_action JobState.unknown 1

-- The reply to the command, as it is sent.
abbrev pub reply_job : OutboxJob
reply_job = record (sample_job 11 command_reply JobState.sending 1) {
  idempotency_key = some (reply_key (command OperationState.queued));
}

abbrev pub principal : IntegrationPrincipal
principal = record {
  issuer = "issuer";
  subject = "subject";
  organization_id = "org";
  workspace_id = "workspace";
  allowed_operation_ids = "execute" ∷ [];
  expires_at = some 1000;
}

abbrev pub dispatch : Dispatch
dispatch = record {
  operation_id = 7;
  binding_id = 2;
  execution_operation_id = "execute";
  argument_digest = "digest";
  authority_invocation_id = "invocation";
}
