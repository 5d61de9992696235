-- ===== src/Outbox/Duplicates/Failing.antt =====
-- `fail_claimed_job` of integrations/store.py enqueues the reply to its operation twice.
use mathlib.Core.Path.{subst}
use cyrene_exchange.Outbox.Claim.{issue_operation}
use cyrene_exchange.Outbox.Duplicates.{
  found-reply, found-update, replied-enqueue, enqueued-is_replied, replaced-row, IsAnswered,
}
use cyrene_exchange.Outbox.Replies.{
  enqueue_command_reply, has_reply_context, enqueue_reply_for_operation,
}
use cyrene_exchange.Outbox.Tables.{
  persist_job, insert_evidence, replace_operation, claimed_row, operation_row, Db,
}
use cyrene_exchange.Outbox.Fail.{released, fail_body, fail_replies, fail_claimed_job}
use cyrene_exchange.Prelude.{
  ap, arith, ◌∙◌, take_chars, sym, Time, String, Uuid, [], ◌∷◌, some, inl, inr, true, refl, ℕ, ◌≡◌,
}
use cyrene_exchange.Outbox.Results.{>>=-eq-ok, transaction, Result-cases, Error, ok, err, Result}
use cyrene_exchange.Outbox.Models.{text, OperationState, OutboxJob, Dict, Operation, JobState}

still_in_context :
    (op : Operation) (d : Dict) (now : Time)
    → has_reply_context op ≡ true
    → has_reply_context
        (record op { state = OperationState.failed; result = some d; updated_at = now })
      ≡ true
unfolding has_reply_context
still_in_context op d now h = h

same_row :
    (id : Uuid) (a b : Db) (op : Operation)
    → b.operations ≡ a.operations
    → operation_row id a ≡ some op
    → operation_row id b ≡ some op
unfolding operation_row
same_row id a b op e h = rw e h

-- The second reply meets the first.
answered-fail_replies :
    (fresh fresh' id : Uuid) (op : Operation) (d : Dict) (now : Time) (db db' : Db)
    → operation_row id db ≡ some op
    → IsAnswered op
    → fail_replies fresh fresh' (some id) d now db ≡ ok db'
    → ⊥
unfolding fail_replies
answered-fail_replies fresh fresh' id op d now db db' found a h =
    let failed = record op { state = OperationState.failed; result = some d; updated_at = now } in
    let updated = replace_operation failed db in
    let row = replaced-row id op failed db found refl in
    let answered : IsAnswered failed = record {
      from_wecom = a.from_wecom;
      in_context = still_in_context op d now a.in_context;
    } in
    let (first, e, h1) =
      >>=-eq-ok (enqueue_reply_for_operation fresh id JobState.failed d now updated) _
        (rw (found-update id op OperationState.failed now (some d) db found) at h) in
    let enqueued : enqueue_command_reply fresh failed JobState.failed d now updated ≡ ok first =
      sym (found-reply fresh id failed JobState.failed d now updated row) ∙ e in
    let (replied, kept) =
      enqueued-is_replied fresh failed JobState.failed d now updated first answered enqueued in
    let still : operation_row id first ≡ some failed = same_row id updated first failed kept row in
    replied-enqueue fresh' failed JobState.failed d now first db' answered replied (rw still at h1)

ok-injective : {A : Type 0} {a b : A} → ◌≡◌ {A = Result A} (ok a) (ok b) → a ≡ b
ok-injective h = cc

noted-operations :
    (id : Uuid) (fence : ℕ) (d : Dict) (db db' : Db)
    → insert_evidence id fence d db ≡ ok db'
    → db'.operations ≡ db.operations
unfolding insert_evidence
noted-operations id fence d db db' h = ground arith

-- A claimed ISSUE_ACTION job whose operation is a WeCom command with its reply context cannot be
-- failed: whatever the tables hold besides, `fail_claimed_job` raises, and its transaction leaves
-- the job CLAIMED.
pub answered-fail_claimed_job :
    (fresh fresh' job_id id : Uuid) (fence : ℕ) (code : String) (now : Time) (db : Db)
    (job : OutboxJob) (op : Operation)
    → claimed_row job_id fence "job claim is stale" db ≡ ok job
    → issue_operation job ≡ some id
    → operation_row id db ≡ some op
    → IsAnswered op
    → (e : Error) × (fail_claimed_job fresh fresh' job_id fence code now db ≡ (err e, db))
unfolding fail_claimed_job fail_body
answered-fail_claimed_job fresh fresh' job_id id fence code now db job op row issue found a =
    elim (Result-cases (fail_body fresh fresh' job_id fence code now db)) [
      | inl (e, h) ↦ (e, rw (h, transaction) refl)
      | inr (r, h) ↦
          let evidence : Dict = ("reasonCode", text (take_chars 100 code)) ∷ [] in
          let (j, e, h1) = >>=-eq-ok (claimed_row job_id fence "job claim is stale" db) _ h in
          let failed = released JobState.failed now j in
          let (noted, e1, h2) =
            >>=-eq-ok (insert_evidence job_id fence evidence (persist_job failed db)) _ h1 in
          let (replied, e2, h3) =
            >>=-eq-ok (fail_replies fresh fresh' (issue_operation j) evidence now noted) _ h2 in
          let same : j ≡ job = ok-injective (sym e ∙ row) in
          let kept : noted.operations ≡ db.operations =
            noted-operations job_id fence evidence (persist_job failed db) noted e1 in
          absurd (
            answered-fail_replies fresh fresh' id op evidence now noted replied
              (same_row id db noted op kept found) a
              (subst (λ o. fail_replies fresh fresh' o evidence now noted ≡ ok replied)
                (ap issue_operation same ∙ issue) e2))
    ]
