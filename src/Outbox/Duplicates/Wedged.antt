-- ===== src/Outbox/Duplicates/Wedged.antt =====
-- `recover_expired_claims` of integrations/store.py treats an expired reply as an action: it enqueues
-- the reply again.
use cyrene_exchange.Outbox.Lifecycle.Recovered.{select-In}
use cyrene_exchange.Outbox.Claim.{claim_is_invalid}
use cyrene_exchange.Outbox.Duplicates.{
  found-reply, replied-enqueue, found-update, replaced-row, is_replied, IsAnswered,
}
use cyrene_exchange.Outbox.Tables.{replace_operation, operation_row, Db, same_key}
use cyrene_exchange.Outbox.Lifecycle.Rows.{In}
use cyrene_exchange.Outbox.Retry.{is_readonly_query, close_operation}
use cyrene_exchange.Outbox.Replies.{enqueue_reply_for_operation, reply_key, has_reply_context}
use cyrene_exchange.Outbox.Recover.{
  recover_one, recover_rows, recover_body, recover_expired_claims, reason, is_expired,
  recover_operation, claim_job,
}
use cyrene_exchange.Prelude.{
  ap, length, ◌∙◌, sym, Bool-cases, select, eq_refl, arith, Time, String, Uuid, Bool, any, [], ◌∷◌,
  some, inl, inr, true, false, refl, ℕ, ◌≡◌, List,
}
use cyrene_exchange.Outbox.Results.{
  >>=-eq-ok, transaction, Result-cases, value_error, Error, ok, err, Result,
}
use cyrene_exchange.Outbox.Models.{
  OperationState, Dict, command_reply, Operation, OutboxJob, JobState,
}

own_key :
    (job : OutboxJob) (op : Operation)
    → job.kind ≡ command_reply
    → job.idempotency_key ≡ some (reply_key op)
    → same_key command_reply (some (reply_key op)) job ≡ true
own_key job op k e = rw (k, e) (eq_refl (reply_key op))

any_of_row :
    (p : OutboxJob → Bool) (js : List OutboxJob) (j : OutboxJob)
    → In j js
    → p j ≡ true
    → any p js ≡ true
unfolding any
any_of_row p [] j m h = absurd m
any_of_row p (x ∷ js) j (inl e) h = ground arith
any_of_row p (x ∷ js) j (inr m) h = ground (arith, any_of_row p js j m h)

unknown-IsAnswered :
    (op : Operation) (d : Dict) (now : Time)
    → IsAnswered op
    → IsAnswered (record op { state = OperationState.unknown; result = some d; updated_at = now })
unfolding has_reply_context
unknown-IsAnswered op d now a = record { from_wecom = a.from_wecom; in_context = a.in_context }

unknown-is_replied :
    (op : Operation) (d : Dict) (now : Time) (db db' : Db)
    → db'.jobs ≡ db.jobs
    → is_replied op db ≡ true
    → is_replied
        (record op { state = OperationState.unknown; result = some d; updated_at = now })
        db'
      ≡ true
unfolding reply_key
unknown-is_replied op d now db db' e h = rw e h

-- The operation of a reply that was enqueued cannot be closed again.
replied-close :
    (fresh id : Uuid) (op : Operation) (d : Dict) (now : Time) (db db' : Db)
    → operation_row id db ≡ some op
    → IsAnswered op
    → is_replied op db ≡ true
    → close_operation fresh (some id) JobState.unknown OperationState.unknown d now db ≡ ok db'
    → ⊥
unfolding close_operation
replied-close fresh id op d now db db' found a r h =
    let closed = record op { state = OperationState.unknown; result = some d; updated_at = now } in
    let updated = replace_operation closed db in
    let row = replaced-row id op closed db found refl in
    let enqueued : enqueue_reply_for_operation fresh id JobState.unknown d now updated ≡ ok db' =
      rw (found-update id op OperationState.unknown now (some d) db found) at h in
    replied-enqueue fresh closed JobState.unknown d now updated db' (unknown-IsAnswered op d now a)
      (unknown-is_replied op d now db updated (unfold replace_operation in refl) r)
      (sym (found-reply fresh id closed JobState.unknown d now updated row) ∙ enqueued)

sent_reply-readonly : (job : OutboxJob) → job.kind ≡ command_reply → is_readonly_query job ≡ false
sent_reply-readonly job k = rw k refl

sent_reply-recover_operation :
    (fresh id : Uuid) (now : Time) (job : OutboxJob) (op : Operation) (db db' : Db)
    → job.kind ≡ command_reply
    → job.state ≡ JobState.sending
    → job.operation_id ≡ some id
    → operation_row id db ≡ some op
    → IsAnswered op
    → is_replied op db ≡ true
    → recover_operation fresh now job db ≡ ok db'
    → ⊥
unfolding recover_operation
sent_reply-recover_operation fresh id now job op db db' k s o found a r h =
    replied-close fresh id op (reason "send_outcome_unknown_after_lease_expiry") now db db' found a
      r (rw (s, sent_reply-readonly job k, o) at h)

sent_reply-recover_expired_claims :
    (fresh : ℕ → Uuid) (now : Time) (db : Db) (job : OutboxJob) (rows : List OutboxJob) (id : Uuid)
    (op : Operation)
    → select (is_expired now) db.jobs ≡ job ∷ rows
    → job.kind ≡ command_reply
    → job.state ≡ JobState.sending
    → job.operation_id ≡ some id
    → job.idempotency_key ≡ some (reply_key op)
    → operation_row id db ≡ some op
    → IsAnswered op
    → (e : Error) × (recover_expired_claims fresh now db ≡ (err e, db))
unfolding recover_expired_claims recover_body recover_rows recover_one
sent_reply-recover_expired_claims fresh now db job rows id op first k s o key found a =
    elim (Result-cases (recover_body fresh now db)) [
      | inl (e, h) ↦ (e, rw (h, transaction) refl)
      | inr (r, h) ↦
          let (done, e, h1) =
            >>=-eq-ok (recover_rows fresh now (select (is_expired now) db.jobs) db) _ h in
          let begun : recover_rows fresh now (job ∷ rows) db ≡ ok done = rw first at e in
          let (one, e1, h2) = >>=-eq-ok (recover_one (fresh (length rows)) now job db) _ begun in
          let (closed, e2, h3) =
            >>=-eq-ok (recover_operation (fresh (length rows)) now job db) _ e1 in
          absurd (
            sent_reply-recover_operation (fresh (length rows)) id now job op db closed k s o found a
              (any_of_row _ db.jobs job
                (select-In (is_expired now) db.jobs job (rw first (inl refl))).0
                (own_key job op k key))
              e2)
    ]

-- While the first job of the outbox whose lease is over is a COMMAND_REPLY that is SENDING under
-- the idempotency key of its operation's reply, and the operation is a WeCom command with its reply
-- context, no worker gets any job: every call of `claim_job` raises and leaves the tables as they
-- are, since the recovery inserts the reply a second time and is undone.
pub sent_reply-claim_job :
    (fresh : ℕ → Uuid) (worker : String) (lease : ℕ) (now : Time) (db : Db) (job : OutboxJob)
    (rows : List OutboxJob) (id : Uuid) (op : Operation)
    → select (is_expired now) db.jobs ≡ job ∷ rows
    → job.kind ≡ command_reply
    → job.state ≡ JobState.sending
    → job.operation_id ≡ some id
    → job.idempotency_key ≡ some (reply_key op)
    → operation_row id db ≡ some op
    → IsAnswered op
    → (e : Error) × (claim_job fresh worker now lease db ≡ (err e, db))
unfolding claim_job
sent_reply-claim_job fresh worker lease now db job rows id op first k s o key found a =
    elim (Bool-cases (claim_is_invalid worker lease)) [
      | inl e ↦ (value_error "worker id or lease duration is invalid", rw (e, claim_job) refl)
      | inr e ↦
          let (x, failed) =
            sent_reply-recover_expired_claims fresh now db job rows id op first k s o key found a in
          (
            x,
            rw (e, claim_job)
                (rw (ap (λ r. r.0) failed) (ap (λ (r : Result ℕ × Db). (err x, r.1)) failed)),
          )
    ]
