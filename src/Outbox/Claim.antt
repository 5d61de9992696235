-- ===== src/Outbox/Claim.antt =====
-- Claims of the outbox (`claim_job` without its call of `recover_expired_claims`, and
-- `mark_sending`, of integrations/store.py).
use Prim.Native.String.{count}
use cyrene_exchange.Prelude.{
  ℕ, ◌+◌, String, Bool, true, false, ◌&&◌, ◌||◌, Option, none, some, List, [], ◌∷◌, ltb, leb, ◌==◌,
  str_eq, if◌then◌else◌, length, select, fetchone, Uuid, Time, seconds,
}
use cyrene_exchange.Outbox.Results.{conflict, Result, ok, ◌>>=◌, or_raise, transaction}
use cyrene_exchange.Outbox.Models.{JobState, OperationState, issue_action, OutboxJob, ClaimedJob}
use cyrene_exchange.Outbox.Tables.{Db, kind_eq, persist_job, claimed_under, update_operation_state}

-- `state IN ('READY','AWAITING_AUTHORITY')`
abbrev pub is_waiting : JobState → Bool
is_waiting JobState.ready = true
is_waiting JobState.awaiting_authority = true
is_waiting _ = false

abbrev pub claimable : Time → OutboxJob → Bool
claimable now j = is_waiting j.state && leb j.available_at now

-- `ORDER BY available_at, created_at, id`
unfoldable pub before : OutboxJob → OutboxJob → Bool
before a b =
    ltb a.available_at b.available_at
    || (a.available_at == b.available_at
        && (ltb a.created_at b.created_at || (a.created_at == b.created_at && ltb a.id b.id)))

-- `LIMIT 1` of that order
unfoldable pub earliest : List OutboxJob → Option OutboxJob
unfolding before
earliest [] = none
earliest (x ∷ xs) = elim (earliest xs) [
  | none ↦ some x
  | some y ↦ some (if before y x then y else x)
]

abbrev pub same_waiting : JobState → JobState → Bool
same_waiting JobState.ready JobState.ready = true
same_waiting JobState.awaiting_authority JobState.awaiting_authority = true
same_waiting _ _ = false

abbrev pub claimed_as : String → ℕ → Time → OutboxJob → OutboxJob
claimed_as worker_id lease_seconds now job = record job {
  state = JobState.claimed;
  claim_owner = some worker_id;
  claim_fence = job.claim_fence + 1;
  lease_expires_at = some (now + seconds lease_seconds);
  attempts = job.attempts + 1;
  updated_at = now;
}

-- The number of rows that `UPDATE … WHERE id=? AND state=?` writes.
abbrev pub claim_rowcount : OutboxJob → List OutboxJob → ℕ
claim_rowcount job jobs =
    length (select (λ j. j.id == job.id && same_waiting j.state job.state) jobs)

-- The transaction of `claim_job`.
unfoldable pub claim_next : String → Time → ℕ → Db → Result (Option ClaimedJob × Db)
unfolding earliest select
claim_next worker_id now lease_seconds db = elim (earliest (select (claimable now) db.jobs)) [
  | none ↦ ok (none, db)
  | some job ↦
      let updated = claimed_as worker_id lease_seconds now job in
      if claim_rowcount job db.jobs == 1
      then ok (
        some (record {
          job = updated;
          claim_fence = updated.claim_fence;
          claimed_from_state = job.state;
        }),
        persist_job updated db,
      )
      else ok (none, db)
]

-- `if not worker_id or len(worker_id) > 200 or lease_seconds < 1 or lease_seconds > 300`
unfoldable pub claim_is_invalid : String → ℕ → Bool
claim_is_invalid worker_id lease_seconds =
    str_eq worker_id ""
    || (ltb 200 (count worker_id) || (ltb lease_seconds 1 || ltb 300 lease_seconds))

-- `SELECT … WHERE id=? AND state='CLAIMED' AND claim_fence=? AND lease_expires_at>?`
abbrev pub lease_is_live : Option Time → Time → Bool
lease_is_live none now = false
lease_is_live (some t) now = ltb now t

abbrev pub live_claim : Uuid → ℕ → Time → OutboxJob → Bool
live_claim id fence now j = claimed_under id fence j && lease_is_live j.lease_expires_at now

-- `if job.operation_id is not None and job.kind == "ISSUE_ACTION"`
abbrev pub issue_operation : OutboxJob → Option Uuid
issue_operation job = if kind_eq job.kind issue_action then job.operation_id else none

abbrev pub with_operation : Option Uuid → (Uuid → Db → Db) → Db → Db
with_operation none f db = db
with_operation (some id) f db = f id db

-- `mark_sending`
unfoldable pub mark_sending_body : Uuid → ℕ → Time → Db → Result (OutboxJob × Db)
mark_sending_body job_id fence now db = do
  job ←
      or_raise (fetchone (live_claim job_id fence now) db.jobs)
        (conflict "job claim is stale or expired")
  let sending = record job { state = JobState.sending; updated_at = now }
  ok (
    sending,
    with_operation (issue_operation job)
        (λ id. update_operation_state id OperationState.running now none) (persist_job sending db),
  )

unfoldable pub mark_sending : Uuid → ℕ → Time → Db → Result OutboxJob × Db
unfolding mark_sending_body
mark_sending job_id fence now = transaction (mark_sending_body job_id fence now)
