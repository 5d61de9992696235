-- ===== src/Outbox/Lifecycle.antt =====
-- The life of a job, whatever method writes it: `Later a b` says how the document `b` of a job may
-- follow the document `a`, and `Grows` says it of the table `outbox_jobs`.
pub mod Rows
pub mod Steps
pub mod Selected
pub mod Methods
pub mod Finished
pub mod Authorized
pub mod Recovered
pub mod Resolved
use cyrene_exchange.Prelude.{
  ℕ, zero, suc, ◌+◌, ◌-◌, ◌*◌, ◌^◌, ◌≤◌, ◌<◌, min, max, String, ◌≡◌, refl, sym, ap, ◌∙◌, ◌≢◌, ◌↔◌,
  ◌⊎◌, inl, inr, Bool, true, false, not, ◌&&◌, ◌||◌, Option, none, some, List, [], ◌∷◌, ◌++◌, map,
  arith, eq_iff, eq_refl, ltb, leb, ◌==◌, ==_iff, ==_refl, str_eq, if◌then◌else◌, Bool-cases,
  Option-cases, length, take, select, fetchone, any, All, fetchone-holds, any_of_fetchone,
  fetchone-none_of_any, any-append, ◌^+◌, truthy, or_default, opt_eq, absent_or, take_chars,
  decimal, Uuid, uuid_text, Time, seconds, opt_nat_eq,
}
use cyrene_exchange.Outbox.Models.{
  JobState, OperationState, WeComEventState, JobKind, notify, issue_action, command_reply,
  challenge_reply, SourceKind, rest, wecom_command, Value, text, number, boolean, null, other, Dict,
  get_str, get_text, IntegrationPrincipal, require, IntegrationConnection, SyncBinding,
  ActorBinding, WeComInboundEvent, OutboxJob, ClaimedJob, Operation, DeliveryReceipt,
}
use cyrene_exchange.Outbox.Tables.{
  JobEvidence, OperationAudit, Db, kind_eq, is_claimed, is_sending, same_key, has_id, insert_job,
  replace_job, persist_job, claimed_under, claimed_row, sending_under, sending_row, operation_row,
  replace_operation, update_operation_state, same_evidence, insert_evidence, set_event_state,
}

-- How far a job has come under one fencing token. `unknown` comes before `succeeded`, since a
-- reconciliation may still prove it.
abbrev pub rank : JobState → ℕ
rank JobState.claimed = 0
rank JobState.sending = 1
rank JobState.ready = 2
rank JobState.awaiting_authority = 2
rank JobState.unknown = 2
rank JobState.accepted = 3
rank JobState.succeeded = 3
rank JobState.failed = 3

abbrev pub is_settled : JobState → Bool
is_settled JobState.accepted = true
is_settled JobState.succeeded = true
is_settled JobState.failed = true
is_settled JobState.unknown = true
is_settled _ = false

-- The states that may follow a state: a settled one stays, but for a proved `unknown`.
abbrev pub may_follow : JobState → JobState → Bool
may_follow JobState.accepted JobState.accepted = true
may_follow JobState.accepted _ = false
may_follow JobState.succeeded JobState.succeeded = true
may_follow JobState.succeeded _ = false
may_follow JobState.failed JobState.failed = true
may_follow JobState.failed _ = false
may_follow JobState.unknown JobState.unknown = true
may_follow JobState.unknown JobState.succeeded = true
may_follow JobState.unknown _ = false
may_follow _ _ = true

pub record Later (a b : OutboxJob) : Type 0 where
  pub same_id : b.id ≡ a.id
  pub same_kind : b.kind ≡ a.kind
  pub same_operation : b.operation_id ≡ a.operation_id
  pub same_key : b.idempotency_key ≡ a.idempotency_key
  pub fence_grows : a.claim_fence ≤ b.claim_fence
  pub attempts_grow : a.attempts ≤ b.attempts
  pub spent : a.claim_fence ≡ b.claim_fence → rank a.state ≤ rank b.state
  pub settled : may_follow a.state b.state ≡ true
  pub settled_fence : is_settled a.state ≡ true → a.claim_fence ≡ b.claim_fence

pub Later-refl : (a : OutboxJob) → Later a a
Later-refl a = record {
  same_id = refl;
  same_kind = refl;
  same_operation = refl;
  same_key = refl;
  fence_grows = omega arith;
  attempts_grow = omega arith;
  spent = λ e. omega arith;
  settled = may_follow_refl a.state;
  settled_fence = λ e. refl;
}
  where
    may_follow_refl : (s : JobState) → may_follow s s ≡ true
    may_follow_refl JobState.ready = refl
    may_follow_refl _ = refl

may_follow_trans :
    (r s t : JobState) → may_follow r s ≡ true → may_follow s t ≡ true → may_follow r t ≡ true
may_follow_trans r s t h k = ground arith

settled-follows :
    (r s : JobState) → is_settled r ≡ true → may_follow r s ≡ true → is_settled s ≡ true
settled-follows r s h k = ground arith

pub Later-trans : {a b c : OutboxJob} → Later a b → Later b c → Later a c
Later-trans {a} {b} {c} h k = record {
  same_id = k.same_id ∙ h.same_id;
  same_kind = k.same_kind ∙ h.same_kind;
  same_operation = k.same_operation ∙ h.same_operation;
  same_key = k.same_key ∙ h.same_key;
  fence_grows = omega arith;
  attempts_grow = omega arith;
  spent = λ e. let p = h.spent (omega arith) in let q = k.spent (omega arith) in omega arith;
  settled = may_follow_trans a.state b.state c.state h.settled k.settled;
  settled_fence =
      λ e. h.settled_fence e ∙ k.settled_fence (settled-follows a.state b.state e h.settled);
}

-- Each row of the first table is in the second, at the same place and later; new rows are behind.
abbrev pub Grows : List OutboxJob → List OutboxJob → Type 0
Grows [] ks = Unit {0}
Grows (j ∷ js) [] = ⊥
Grows (j ∷ js) (k ∷ ks) = Later j k × Grows js ks

pub Grows-refl : (js : List OutboxJob) → Grows js js
Grows-refl [] = tt
Grows-refl (j ∷ js) = (Later-refl j, Grows-refl js)

pub Grows-append : (js ks : List OutboxJob) → Grows js (js ++ ks)
Grows-append [] ks = tt
Grows-append (j ∷ js) ks = (Later-refl j, Grows-append js ks)

pub Grows-trans : (js ks ls : List OutboxJob) → Grows js ks → Grows ks ls → Grows js ls
Grows-trans [] ks ls h k = tt
Grows-trans (j ∷ js) [] ls h k = absurd h
Grows-trans (j ∷ js) (x ∷ ks) [] h k = absurd k
Grows-trans (j ∷ js) (x ∷ ks) (y ∷ ls) h k = (Later-trans h.0 k.0, Grows-trans js ks ls h.1 k.1)
