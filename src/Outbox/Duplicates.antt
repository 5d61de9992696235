-- ===== src/Outbox/Duplicates.antt =====
-- The second reply to one operation: the unique index of `outbox_jobs` refuses it, and the
-- transaction that enqueues it is undone (integrations/store.py).
pub mod Failing
pub mod Wedged
use cyrene_exchange.Outbox.Tables.{
  update_operation_state, same_key, replace_operation, insert_job, Db, operation_row,
}
use cyrene_exchange.Outbox.Replies.{
  enqueue_reply_for_operation, reply_connection, command_reply_job, reply_key, has_reply_context,
  enqueue_command_reply,
}
use cyrene_exchange.Prelude.{
  any-append, eq_refl, ◌++◌, Option-cases, arith, Bool-cases, if◌then◌else◌, map, ◌==◌, Time,
  fetchone, any, Uuid, Bool, String, [], ◌∷◌, none, some, inl, inr, true, false, refl, ℕ, ◌≡◌, List,
  Option,
}
use cyrene_exchange.Outbox.Results.{ok, err, Result}
use cyrene_exchange.Outbox.Models.{
  OperationState, IntegrationConnection, command_reply, Dict, OutboxJob, Operation, JobKind,
  JobState, wecom_command,
}

-- An operation of a WeCom command that is answered there.
pub record IsAnswered (op : Operation) : Type 0 where
  pub from_wecom : op.source_kind ≡ wecom_command
  pub in_context : has_reply_context op ≡ true

-- The reply to the operation is in the outbox.
abbrev pub is_replied : Operation → Db → Bool
is_replied op db = any (same_key command_reply (some (reply_key op))) db.jobs

-- The reply is one INSERT.
answered-insert :
    (fresh : Uuid) (op : Operation) (state : JobState) (d : Dict) (now : Time) (db db' : Db)
    → IsAnswered op
    → enqueue_command_reply fresh op state d now db ≡ ok db'
    → (c : IntegrationConnection) × (insert_job (command_reply_job fresh op c state d now) db
        ≡ ok db')
unfolding enqueue_command_reply
answered-insert fresh op state d now db db' a h =
    let kind = a.from_wecom in
    let full = a.in_context in
    elim (Option-cases (reply_connection op db)) [
      | inl missing ↦ absurd (ground arith)
      | inr (c, found) ↦ (c, ground arith)
    ]

any_last :
    (p : OutboxJob → Bool) (js : List OutboxJob) (j : OutboxJob)
    → p j ≡ true
    → any p (js ++ j ∷ []) ≡ true
unfolding any
any_last p js j h = ground (arith, any-append p js (j ∷ []))

pub enqueued-is_replied :
    (fresh : Uuid) (op : Operation) (state : JobState) (d : Dict) (now : Time) (db db' : Db)
    → IsAnswered op
    → enqueue_command_reply fresh op state d now db ≡ ok db'
    → (is_replied op db' ≡ true) × (db'.operations ≡ db.operations)
unfolding enqueue_command_reply insert_job
enqueued-is_replied fresh op state d now db db' a h =
    let (c, e) = answered-insert fresh op state d now db db' a h in
    let job = command_reply_job fresh op c state d now in
    let jobs : db'.jobs ≡ db.jobs ++ job ∷ [] = ground arith in
    let own : same_key command_reply (some (reply_key op)) job ≡ true =
      unfold command_reply_job in eq_refl (reply_key op) in
    (
      rw jobs (any_last (same_key command_reply (some (reply_key op))) db.jobs job own),
      ground arith,
    )

pub replied-enqueue :
    (fresh : Uuid) (op : Operation) (state : JobState) (d : Dict) (now : Time) (db db' : Db)
    → IsAnswered op
    → is_replied op db ≡ true
    → enqueue_command_reply fresh op state d now db ≡ ok db'
    → ⊥
unfolding enqueue_command_reply insert_job
replied-enqueue fresh op state d now db db' a r h =
    let (c, e) = answered-insert fresh op state d now db db' a h in
    unfold command_reply_job in ground arith

-- `SELECT document FROM operations WHERE id=?` after `UPDATE operations SET document=? WHERE id=?`
pub replaced-row :
    (id : Uuid) (op new : Operation) (db : Db)
    → operation_row id db ≡ some op
    → new.id ≡ op.id
    → operation_row id (replace_operation new db) ≡ some new
unfolding operation_row replace_operation fetchone
replaced-row id op new db h e = go db.operations h
  where
    go :
        (os : List Operation)
        → fetchone (λ o. o.id == id) os ≡ some op
        → fetchone (λ o. o.id == id) (map (λ o. if o.id == new.id then new else o) os) ≡ some new
    go [] h = cc
    go (o ∷ os) h = elim (Bool-cases (o.id == id)) [
      | inl p ↦ ground arith
      | inr p ↦ ground (arith, go os)
    ]

pub found-update :
    (id : Uuid) (op : Operation) (state : OperationState) (now : Time) (r : Option Dict) (db : Db)
    → operation_row id db ≡ some op
    → update_operation_state id state now r db
      ≡ replace_operation (record op { state = state; result = r; updated_at = now }) db
unfolding update_operation_state
found-update id op state now r db h = rw (h, update_operation_state) refl

pub found-reply :
    (fresh id : Uuid) (op : Operation) (state : JobState) (d : Dict) (now : Time) (db : Db)
    → operation_row id db ≡ some op
    → enqueue_reply_for_operation fresh id state d now db
      ≡ enqueue_command_reply fresh op state d now db
unfolding enqueue_reply_for_operation
found-reply fresh id op state d now db h = rw (h, enqueue_reply_for_operation) refl
