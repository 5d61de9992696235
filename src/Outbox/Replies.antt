-- ===== src/Outbox/Replies.antt =====
-- The replies that a finished operation enqueues (`_enqueue_command_reply` and
-- `_enqueue_reply_for_operation` of integrations/store.py). `fresh` is the `uuid4()` of the new job.
use cyrene_exchange.Prelude.{
  Bool, ◌&&◌, not, Option, none, some, [], ◌∷◌, String, Uuid, Time, ◌==◌, str_eq, ◌^+◌, truthy,
  uuid_text, fetchone, if◌then◌else◌,
}
use cyrene_exchange.Outbox.Results.{Result, ok, not_found, or_raise, ◌>>=◌}
use cyrene_exchange.Outbox.Models.{
  JobState, ready, command_reply, rest, wecom_command, Dict, Value, text, null, OutboxJob,
  Operation, IntegrationConnection,
}
use cyrene_exchange.Outbox.Tables.{Db, insert_job, operation_row}
use cyrene_exchange.Outbox.Commands.{render_issue_command_result}

-- `all((operation.source_event_ref, …))`
unfoldable pub has_reply_context : Operation → Bool
has_reply_context op =
    truthy op.source_event_ref
    && (truthy op.reply_binding_ref
        && (truthy op.reply_sender_id
            && (truthy op.reply_conversation_ref
                && (truthy op.reply_message_id && truthy op.reply_context_ref))))

-- f"{value}" of a reference
abbrev pub shown : Option String → String
shown none = "None"
shown (some s) = s

abbrev pub optional : Option String → Value
optional none = null
optional (some s) = text s

-- The idempotency key of the reply to an operation. The intake sets `source_event_ref` to the text of a
-- UUID, so that the key is shorter than its `max_length`.
unfoldable pub reply_key : Operation → String
reply_key op = "command-reply:" ^+ shown op.source_event_ref ^+ ":" ^+ uuid_text op.id

unfoldable pub command_reply_job :
    Uuid → Operation → IntegrationConnection → JobState → Dict → Time → OutboxJob
command_reply_job fresh op connection state evidence now = record {
  id = fresh;
  kind = command_reply;
  organization_id = op.organization_id;
  workspace_id = op.workspace_id;
  actor_issuer = op.actor_issuer;
  actor_subject = op.actor_subject;
  connection_id = op.connection_id;
  binding_id = some op.binding_id;
  operation_id = some op.id;
  idempotency_key = some (reply_key op);
  authority_invocation_id = none;
  authority_idempotency_key = none;
  authority_state = none;
  payload =
      ("eventId", optional op.source_event_ref)
      ∷ ("sourceBindingId", optional op.reply_binding_ref)
      ∷ ("senderId", optional op.reply_sender_id)
      ∷ ("conversationRef", optional op.reply_conversation_ref)
      ∷ ("replyMessageId", optional op.reply_message_id)
      ∷ ("replyContextRef", optional op.reply_context_ref)
      ∷ ("text", text (render_issue_command_result op connection.repository_name state evidence))
      ∷ [];
  state = ready;
  attempts = 0;
  available_at = now;
  claim_owner = none;
  claim_fence = 0;
  lease_expires_at = none;
  created_at = now;
  updated_at = now;
}

-- `SELECT … FROM integration_connections WHERE id=? AND organization_id=? AND workspace_id=?`
unfoldable pub reply_connection : Operation → Db → Option IntegrationConnection
reply_connection op db =
    fetchone
      (λ c.
        c.id == op.connection_id
        && (str_eq c.organization_id op.organization_id && str_eq c.workspace_id op.workspace_id))
      db.connections

unfoldable pub enqueue_command_reply : Uuid → Operation → JobState → Dict → Time → Db → Result Db
enqueue_command_reply fresh op state evidence now db = elim op.source_kind [
  | rest ↦ ok db
  | wecom_command ↦ if not (has_reply_context op) then ok db else do
    connection ←
        or_raise (reply_connection op db) (not_found "reply repository connection not found")
    insert_job (command_reply_job fresh op connection state evidence now) db
]

unfoldable pub enqueue_reply_for_operation : Uuid → Uuid → JobState → Dict → Time → Db → Result Db
enqueue_reply_for_operation fresh operation_id state evidence now db =
    elim (operation_row operation_id db) [
      | none ↦ ok db
      | some op ↦ enqueue_command_reply fresh op state evidence now db
    ]
