-- ===== src/Outbox/Models.antt =====
-- The records of product/src/cyrene_exchange_product/integrations/models.py that the outbox keeps.
use cyrene_exchange.Prelude.{
  ℕ, Bool, false, Option, none, some, List, [], ◌∷◌, String, Uuid, Time, leb, str_eq, any, not,
  if◌then◌else◌, decimal,
}
use cyrene_exchange.Outbox.Results.{Result, authorization, guard, ◌>>◌}

pub data JobState : Type 0 where
  ready claimed awaiting_authority sending accepted succeeded failed unknown : JobState

pub data OperationState : Type 0 where
  queued awaiting_authority running accepted succeeded failed unknown : OperationState

pub data WeComEventState : Type 0 where
  received ignored_self ignored_non_command ignored_scope ignored_invalid_command ignored_unlinked
        ignored_unbound ignored_unrelated command_queued challenge_observing challenge_observed
        challenge_unknown challenge_reply_pending reply_accepted replied unknown rejected :
      WeComEventState

pub data JobKind : Type 0 where
  notify issue_action command_reply challenge_reply : JobKind

pub data SourceKind : Type 0 where
  rest wecom_command : SourceKind

-- A value of a JSON object; `other` is any other value, by its `str()` text.
pub data Value : Type 0 where
  text : String → Value
  number : ℕ → Value
  boolean : Bool → Value
  null : Value
  other : String → Value

abbrev pub Dict : Type 0
Dict = List (String × Value)

unfoldable pub get : Dict → String → Option Value
get [] k = none
get ((j, v) ∷ d) k = if str_eq j k then some v else get d k

-- `str(evidence.get(key, default))`
unfoldable pub get_str : Dict → String → String → String
unfolding get
get_str d k default = elim (get d k) [
  | none ↦ default
  | some v ↦ elim v [
    | text s ↦ s
    | number n ↦ decimal n
    | boolean b ↦ if b then "True" else "False"
    | null ↦ "None"
    | other s ↦ s
  ]
]

-- `value = payload.get(key)` with `isinstance(value, str)`
unfoldable pub get_text : Dict → String → Option String
unfolding get
get_text d k = elim (get d k) [ none ↦ none | some v ↦ elim v [ text s ↦ some s | _ ↦ none ] ]

pub record IntegrationPrincipal : Type 0 where
  pub issuer : String
  pub subject : String
  pub organization_id : String
  pub workspace_id : String
  pub allowed_operation_ids : List String
  pub expires_at : Option Time

-- `moment >= self.expires_at` for a principal that expires
expired : Option Time → Time → Bool
expired none moment = false
expired (some t) moment = leb t moment

-- `IntegrationPrincipal.require`
unfoldable pub require : IntegrationPrincipal → String → Time → Result (Unit {0})
unfolding expired any
require p operation_id moment = do
  guard (not (expired p.expires_at moment)) (authorization "authorization expired")
  guard (any (str_eq operation_id) p.allowed_operation_ids)
      (authorization "operation is not granted")

pub record IntegrationConnection : Type 0 where
  pub id : Uuid
  pub organization_id : String
  pub workspace_id : String
  pub repository_name : String
  pub enabled : Bool

pub record SyncBinding : Type 0 where
  pub id : Uuid
  pub organization_id : String
  pub workspace_id : String
  pub connection_id : Uuid
  pub notification_target_ref : String
  pub enabled : Bool

pub record ActorBinding : Type 0 where
  pub id : Uuid
  pub binding_id : Uuid
  pub organization_id : String
  pub workspace_id : String
  pub actor_issuer : String
  pub actor_subject : String
  pub account_link_ref : String
  pub delegation_ref : String
  pub enabled : Bool

-- The event of `wecom_inbound_events`, by the fields that the outbox reads and writes.
pub record WeComInboundEvent : Type 0 where
  pub id : String
  pub binding_id : Uuid
  pub state : WeComEventState

pub record OutboxJob : Type 0 where
  pub id : Uuid
  pub kind : JobKind
  pub organization_id : String
  pub workspace_id : String
  pub actor_issuer : String
  pub actor_subject : String
  pub connection_id : Uuid
  pub binding_id : Option Uuid
  pub operation_id : Option Uuid
  pub idempotency_key : Option String
  pub authority_invocation_id : Option String
  pub authority_idempotency_key : Option String
  pub authority_state : Option String
  pub payload : Dict
  pub state : JobState
  pub attempts : ℕ
  pub available_at : Time
  pub claim_owner : Option String
  pub claim_fence : ℕ
  pub lease_expires_at : Option Time
  pub created_at : Time
  pub updated_at : Time

pub record ClaimedJob : Type 0 where
  pub job : OutboxJob
  pub claim_fence : ℕ
  pub claimed_from_state : JobState

pub record Operation : Type 0 where
  pub id : Uuid
  pub organization_id : String
  pub workspace_id : String
  pub actor_issuer : String
  pub actor_subject : String
  pub connection_id : Uuid
  pub binding_id : Uuid
  pub actor_binding_id : Uuid
  pub account_link_ref : String
  pub delegation_ref : Option String
  pub execution_operation_id : String
  pub authority_invocation_id : Option String
  pub authority_idempotency_key : Option String
  pub argument_digest : String
  pub reconciles_operation_id : Option Uuid
  pub operation_id : String
  pub idempotency_key : String
  pub request_hash : String
  pub source_kind : SourceKind
  pub source_event_ref : Option String
  pub reply_binding_ref : Option String
  pub reply_sender_id : Option String
  pub reply_conversation_ref : Option String
  pub reply_message_id : Option String
  pub reply_context_ref : Option String
  pub issue_number : ℕ
  pub body : Option String
  pub state : OperationState
  pub result : Option Dict
  pub created_at : Time
  pub updated_at : Time

pub record DeliveryReceipt : Type 0 where
  pub id : Uuid
  pub operation_id : Option Uuid
  pub job_id : Option Uuid
  pub status : String
  pub accepted : Bool
  pub vendor_message_id : Option String
  pub transport_request_id : Option String
  pub observed_at : Time
  pub evidence : Dict
