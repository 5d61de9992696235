-- ===== src/Outbox/Lifecycle/Selected.antt =====
-- What a SELECT of a claimed or sending job gives, and what may become of such a job.
use mathlib.Core.Path.{subst}
use cyrene_exchange.Prelude.{
  ℕ, ◌+◌, ◌≤◌, String, ◌≡◌, refl, sym, ap, true, false, arith, fetchone, fetchone-holds, Uuid,
}
use cyrene_exchange.Outbox.Results.{conflict, Result, ok, err, or_raise-eq-ok, transaction}
use cyrene_exchange.Outbox.Models.{JobState, OutboxJob}
use cyrene_exchange.Outbox.Tables.{
  Db, is_claimed, is_sending, claimed_under, claimed_row, sending_under, sending_row,
}
use cyrene_exchange.Outbox.Lifecycle.{rank, is_settled, may_follow, Later}
use cyrene_exchange.Outbox.Lifecycle.Rows.{In, fetchone-In}
use cyrene_exchange.Outbox.Lifecycle.Steps.{Step, Step-refl}

pub transaction-Step :
    {A : Type 0} (body : Db → Result (A × Db)) (db : Db)
    → ((a : A) (db' : Db) → body db ≡ ok (a, db') → Step db db')
    → Step db (transaction body db).1
transaction-Step {A = A} body db keep = go (body db) refl
  where
    go :
        (r : Result (A × Db))
        → body db ≡ r
        → Step db
            (elim r as (λ x. Result A × Db) [ ok (a, s') ↦ (ok a, s') | err e ↦ (err e, db) ]).1
    go (ok (a, db')) e = keep a db' e
    go (err x) e = Step-refl db

-- What a SELECT of a claimed or of a sending row gives.
pub record Selected (state : JobState) (id : Uuid) (fence : ℕ) (job : OutboxJob) (db : Db)
    : Type 0 where
  pub present : In job db.jobs
  pub id_is : job.id ≡ id
  pub state_is : job.state ≡ state
  pub fence_is : job.claim_fence ≡ fence

is_claimed-eq : (s : JobState) → is_claimed s ≡ true → s ≡ JobState.claimed
is_claimed-eq s h = ground arith

is_sending-eq : (s : JobState) → is_sending s ≡ true → s ≡ JobState.sending
is_sending-eq s h = ground arith

pub fetchone_claimed :
    (id : Uuid) (fence : ℕ) (job : OutboxJob) (db : Db)
    → In job db.jobs
    → claimed_under id fence job ≡ true
    → Selected JobState.claimed id fence job db
fetchone_claimed id fence job db m p = record {
  present = m;
  id_is = ground arith;
  state_is = is_claimed-eq job.state (ground arith);
  fence_is = ground arith;
}

pub claimed_row-Selected :
    (id : Uuid) (fence : ℕ) (detail : String) (db : Db) {job : OutboxJob}
    → claimed_row id fence detail db ≡ ok job
    → Selected JobState.claimed id fence job db
unfolding claimed_row
claimed_row-Selected id fence detail db {job} h =
    let row = or_raise-eq-ok (fetchone (claimed_under id fence) db.jobs) (conflict detail) h in
    fetchone_claimed id fence job db (fetchone-In (claimed_under id fence) db.jobs job row)
      (fetchone-holds (claimed_under id fence) db.jobs job row)

pub sending_row-Selected :
    (id : Uuid) (fence : ℕ) (detail : String) (db : Db) {job : OutboxJob}
    → sending_row id fence detail db ≡ ok job
    → Selected JobState.sending id fence job db
unfolding sending_row
sending_row-Selected id fence detail db {job} h =
    let row = or_raise-eq-ok (fetchone (sending_under id fence) db.jobs) (conflict detail) h in
    let holds = fetchone-holds (sending_under id fence) db.jobs job row in
    record {
      present = fetchone-In (sending_under id fence) db.jobs job row;
      id_is = ground arith;
      state_is = is_sending-eq job.state (ground arith);
      fence_is = ground arith;
    }

-- The fields that no method changes.
abbrev pub SameJob : OutboxJob → OutboxJob → Type 0
SameJob j k =
    (k.id ≡ j.id)
    × (k.kind ≡ j.kind)
    × (k.operation_id ≡ j.operation_id)
    × (k.idempotency_key ≡ j.idempotency_key)

active_follows : (r s : JobState) → is_settled r ≡ false → may_follow r s ≡ true
active_follows r s h = ground arith

-- Under its fence, a job that is not settled may go to any state that is not behind its own.
pub moved-Later :
    (j k : OutboxJob)
    → SameJob j k
    → k.claim_fence ≡ j.claim_fence
    → k.attempts ≡ j.attempts
    → is_settled j.state ≡ false
    → rank j.state ≤ rank k.state
    → Later j k
moved-Later j k same fence attempts active behind = record {
  same_id = same.0;
  same_kind = same.1;
  same_operation = same.2;
  same_key = same.3;
  fence_grows = omega arith;
  attempts_grow = omega arith;
  spent = λ e. behind;
  settled = active_follows j.state k.state active;
  settled_fence = λ e. sym fence;
}

-- Under a new fence it may go to any state.
pub refenced-Later :
    (j k : OutboxJob)
    → SameJob j k
    → k.claim_fence ≡ j.claim_fence + 1
    → k.attempts ≡ j.attempts + 1
    → is_settled j.state ≡ false
    → Later j k
refenced-Later j k same fence attempts active = record {
  same_id = same.0;
  same_kind = same.1;
  same_operation = same.2;
  same_key = same.3;
  fence_grows = omega arith;
  attempts_grow = omega arith;
  spent = λ e. absurd (omega arith);
  settled = active_follows j.state k.state active;
  settled_fence = λ e. cc;
}

-- A claimed job may become anything else under its fence.
pub claimed-Later :
    {id : Uuid} {fence : ℕ} {db : Db} (j k : OutboxJob)
    → Selected JobState.claimed id fence j db
    → SameJob j k
    → k.claim_fence ≡ j.claim_fence
    → k.attempts ≡ j.attempts
    → Later j k
claimed-Later j k s same fence attempts =
    moved-Later j k same fence attempts (ap is_settled s.state_is) (rw s.state_is (omega arith))

-- A sending job may become anything but claimed.
pub sending-Later :
    {id : Uuid} {fence : ℕ} {db : Db} (j k : OutboxJob)
    → Selected JobState.sending id fence j db
    → SameJob j k
    → k.claim_fence ≡ j.claim_fence
    → k.attempts ≡ j.attempts
    → 1 ≤ rank k.state
    → Later j k
sending-Later j k s same fence attempts ahead =
    moved-Later j k same fence attempts (ap is_settled s.state_is) (rw s.state_is ahead)

second :
    {A : Type 0} {a b : A} {s t : Db} → ◌≡◌ {A = Result (A × Db)} (ok (a, s)) (ok (b, t)) → s ≡ t
second h = cc

-- A body that ends in `return` has written the state that it returns.
pub Step-ok :
    {A : Type 0} {a b : A} (db : Db) {s t : Db}
    → ◌≡◌ {A = Result (A × Db)} (ok (a, s)) (ok (b, t))
    → Step db s
    → Step db t
Step-ok db h st = subst (Step db) (second h) st

pub same_job : (j : OutboxJob) → SameJob j j
same_job j = (refl, refl, refl, refl)
