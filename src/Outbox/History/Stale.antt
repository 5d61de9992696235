-- ===== src/Outbox/History/Stale.antt =====
-- Calls of integrations/store.py under a token that a later claim or dispatch has replaced.
use cyrene_exchange.Outbox.History.Spent.{send_is_spent, claim_is_spent}
use cyrene_exchange.Outbox.Lifecycle.Rows.{In, IsUnique}
use cyrene_exchange.Outbox.Retry.{retry_body, retry_readonly_job}
use cyrene_exchange.Outbox.Finish.{finished_at, finish_body, finish_state, finish_job}
use cyrene_exchange.Outbox.Authority.{
  unknown_body, evidence_body, prepare_body, awaiting_body, ref_is_invalid,
  mark_authority_result_unknown, update_authority_evidence, prepare_authority_enqueue,
  mark_awaiting_authority,
}
use cyrene_exchange.Outbox.Fail.{fail_claimed_job, fail_body}
use cyrene_exchange.Outbox.History.Fencing.{no_claim-mark_sending}
use cyrene_exchange.Outbox.Claim.{live_claim}
use cyrene_exchange.Outbox.Tables.{claimed_under, sending_row, claimed_row, Db}
use cyrene_exchange.Outbox.History.{run, perform, Call}
use cyrene_exchange.Prelude.{
  arith, Bool, ◌<◌, Option-cases, Bool-cases, ap, fetchone, Time, String, Uuid, none, some, inl,
  inr, refl, ℕ, ◌≡◌, List, Option,
}
use cyrene_exchange.Outbox.Results.{or_raise, conflict, transaction, Error, err, Result}
use cyrene_exchange.Outbox.Models.{OutboxJob}
use cyrene_exchange.Outbox.History.{
  send, fail, await_authority, prepare_enqueue, note_authority, authority_unknown, finish, retry,
  claim, recover, execute, reconcile,
}

-- The job and the fencing token that a worker presents.
unfoldable pub presented : Call → Option (Uuid × ℕ)
presented (send id fence now) = some (id, fence)
presented (fail fresh fresh' id fence code now) = some (id, fence)
presented (await_authority id fence i s now) = some (id, fence)
presented (prepare_enqueue id fence key now) = some (id, fence)
presented (note_authority id fence i s now) = some (id, fence)
presented (authority_unknown fresh id fence i now) = some (id, fence)
presented (finish fresh id fence status d receipt now) = some (id, fence)
presented (retry fresh id fence now after) = some (id, fence)
presented _ = none

transaction-undone :
    {S A : Type 0} (body : S → Result (A × S)) (s : S) (x : Error)
    → body s ≡ err x
    → (transaction body s).1 ≡ s
transaction-undone body s x h = rw (h, transaction) refl

-- No row for the token: neither a claimed one nor a sending one.
record IsAbsent (id : Uuid) (fence : ℕ) (db : Db) : Type 0 where
  unclaimed : (detail : String) → claimed_row id fence detail db ≡ err (conflict detail)
  unlive : (now : Time) → fetchone (live_claim id fence now) db.jobs ≡ none
  unsent : (detail : String) → sending_row id fence detail db ≡ err (conflict detail)

pair :
    (i : Uuid) (f : ℕ) (id : Uuid) (fence : ℕ)
    → ◌≡◌ {A = Option (Uuid × ℕ)} (some (i, f)) (some (id, fence))
    → (i ≡ id) × (f ≡ fence)
pair i f id fence h = (cc, cc)

absent-perform :
    (c : Call) (id : Uuid) (fence : ℕ) (db : Db)
    → IsAbsent id fence db
    → presented c ≡ some (id, fence)
    → perform c db ≡ db
unfolding perform presented fail_claimed_job mark_awaiting_authority prepare_authority_enqueue
    update_authority_evidence mark_authority_result_unknown finish_job retry_readonly_job
absent-perform (send i f now) id fence db a h =
    let (p, q) = pair i f id fence h in
    ap (λ r. r.1) (no_claim-mark_sending i f now db (rw (p, q) (a.unlive now)))
absent-perform (fail fresh fresh' i f code now) id fence db a h =
    let (p, q) = pair i f id fence h in
    transaction-undone (fail_body fresh fresh' i f code now) db (conflict "job claim is stale")
      (unfold fail_body in rw (p, q) (rw (a.unclaimed "job claim is stale") refl))
absent-perform (await_authority i f v s now) id fence db a h =
    let (p, q) = pair i f id fence h in
    elim (Bool-cases (ref_is_invalid v)) [
      | inl e ↦ rw (e, perform) refl
      | inr e ↦
          rw (e, perform)
            (transaction-undone (awaiting_body i f v s now) db (conflict "job claim is stale")
              (unfold awaiting_body in rw (p, q) (rw (a.unclaimed "job claim is stale") refl)))
    ]
absent-perform (prepare_enqueue i f key now) id fence db a h =
    let (p, q) = pair i f id fence h in
    elim (Bool-cases (ref_is_invalid key)) [
      | inl e ↦ rw (e, perform) refl
      | inr e ↦
          rw (e, perform)
            (transaction-undone (prepare_body i f key now) db (conflict "job claim is stale")
              (unfold prepare_body in rw (p, q) (rw (a.unclaimed "job claim is stale") refl)))
    ]
absent-perform (note_authority i f v s now) id fence db a h =
    let (p, q) = pair i f id fence h in
    transaction-undone (evidence_body i f v s now) db (conflict "job claim is stale")
      (unfold evidence_body in rw (p, q) (rw (a.unclaimed "job claim is stale") refl))
absent-perform (authority_unknown fresh i f v now) id fence db a h =
    let (p, q) = pair i f id fence h in
    transaction-undone (unknown_body fresh i f v now) db
      (conflict "Authority result claim is stale")
      (unfold unknown_body in rw (p, q) (rw (a.unclaimed "Authority result claim is stale") refl))
absent-perform (finish fresh i f status d receipt now) id fence db a h =
    let (p, q) = pair i f id fence h in
    elim (Option-cases (finish_state status)) [
      | inl e ↦ rw (e, perform) refl
      | inr (o, e) ↦
          rw (e, perform)
            (transaction-undone (finish_body fresh i f status o d receipt (finished_at receipt now))
              db (conflict "job send fence is stale")
              (unfold finish_body in rw (p, q) (rw (a.unsent "job send fence is stale") refl)))
    ]
absent-perform (retry fresh i f now after) id fence db a h =
    let (p, q) = pair i f id fence h in
    transaction-undone (retry_body fresh i f now after) db (conflict "read retry fence is stale")
      (unfold retry_body in rw (p, q) (rw (a.unsent "read retry fence is stale") refl))
absent-perform (claim fresh worker now lease) id fence db a h = cc
absent-perform (recover fresh now) id fence db a h = cc
absent-perform (execute p d lease utc_now moment) id fence db a h = cc
absent-perform (reconcile fresh p i succeeded result grant now) id fence db a h = cc

or_raise-none : {A : Type 0} (o : Option A) (x : Error) → o ≡ none → or_raise o x ≡ err x
or_raise-none o x h = rw h refl

older-IsAbsent :
    (cs : List Call) (db : Db) (j : OutboxJob) (fence : ℕ)
    → IsUnique db.jobs
    → In j db.jobs
    → fence < j.claim_fence
    → IsAbsent j.id fence (run cs db)
unfolding claimed_row sending_row
older-IsAbsent cs db j fence u m older =
    let gone = λ (p : OutboxJob → Bool).
      claim_is_spent cs db j fence u m (omega arith) (λ e. absurd (omega arith)) p in
    record {
      unclaimed =
          λ detail. or_raise-none _ (conflict detail) (gone (claimed_under j.id fence) (λ k h. h));
      unlive = λ now. gone (live_claim j.id fence now) (λ k h. ground arith);
      unsent = λ detail.
          or_raise-none _ (conflict detail)
            (send_is_spent cs db j fence u m (omega arith) (λ e. absurd (omega arith)));
    }

-- In tables with distinct job ids: once a job stands under some fencing token, a call that presents
-- an older token of that job writes nothing to the tables, after any sequence of calls: a worker
-- whose lease expired, or that a dispatch of Authority overtook, can no longer send, finish, retry,
-- fail or delay the job.
pub stale-perform :
    (c : Call) (cs : List Call) (db : Db) (j : OutboxJob) (fence : ℕ)
    → IsUnique db.jobs
    → In j db.jobs
    → fence < j.claim_fence
    → presented c ≡ some (j.id, fence)
    → perform c (run cs db) ≡ run cs db
stale-perform c cs db j fence u m older named =
    absent-perform c j.id fence (run cs db) (older-IsAbsent cs db j fence u m older) named
