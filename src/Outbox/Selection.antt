-- ===== src/Outbox/Selection.antt =====
-- Which job `claim_job` of integrations/store.py takes.
use cyrene_exchange.Outbox.Recover.{recover_expired_claims, claim_job}
use cyrene_exchange.Outbox.Lifecycle.Recovered.{recover_expired_claims-Step, earliest-In, select-In}
use mathlib.Core.Path.{subst}
use mathlib.Core.Bool.{false≢true}
use cyrene_exchange.Outbox.Tables.{replace_job, Db, has_id}
use cyrene_exchange.Outbox.Lifecycle.Rows.{replace-In, other_id, In, IsUnique}
use cyrene_exchange.Outbox.Claim.{
  claim_is_invalid, claim_rowcount, same_waiting, is_waiting, claimed_as, claimable, claim_next,
  earliest, before,
}
use cyrene_exchange.Prelude.{
  Uuid, ◌+◌, ap, Time, String, ==_iff, ◌∙◌, ◌&&◌, ◌==◌, sym, length, All-map, Bool-cases, arith,
  Option-cases, Bool, All, any, select, [], ◌∷◌, none, some, inl, inr, true, false, refl, ℕ, ◌≡◌,
  List,
}
use cyrene_exchange.Outbox.Results.{transaction-eq-ok, Result-cases, Error, ok, err, Result}
use cyrene_exchange.Outbox.Models.{ClaimedJob, OutboxJob}

before_asym : (a b : OutboxJob) → before a b ≡ true → before b a ≡ false
unfolding before
before_asym a b h = ground arith

before_irrefl : (a : OutboxJob) → before a a ≡ false
unfolding before
before_irrefl a = ground arith

not_before_trans :
    (a b c : OutboxJob) → before b a ≡ false → before c b ≡ false → before c a ≡ false
unfolding before
not_before_trans a b c h k = ground arith

earliest-none : (js : List OutboxJob) → earliest js ≡ none → js ≡ []
unfolding earliest
earliest-none [] h = refl
earliest-none (x ∷ js) h = elim (Option-cases (earliest js)) [
  | inl e ↦ absurd (ground arith)
  | inr (y, e) ↦ absurd (ground arith)
]

-- No row of the selection is before the one that is taken.
earliest_least :
    (js : List OutboxJob) (j : OutboxJob) → earliest js ≡ some j → All (λ k. before k j ≡ false) js
unfolding earliest
earliest_least [] j h = tt
earliest_least (x ∷ js) j h = elim (Option-cases (earliest js)) [
  | inl e ↦ least {i = x} (ground arith) (before_irrefl x, rw (earliest-none js e) tt)
  | inr (y, e) ↦ elim (Bool-cases (before y x)) [
    | inl first ↦ least {i = y} (ground arith) (before_asym y x first, earliest_least js y e)
    | inr later ↦ least {i = x} (ground arith) (
      before_irrefl x,
      All-map js (λ k p. not_before_trans x y k later p) (earliest_least js y e),
    )
  ]
]
  where
    least :
        {i : OutboxJob}
        → i ≡ j
        → All (λ k. before k i ≡ false) (x ∷ js)
        → All (λ k. before k j ≡ false) (x ∷ js)
    least e a = subst (λ i. All (λ k. before k i ≡ false) (x ∷ js)) e a

All-select :
    (P : OutboxJob → Type 0) (p : OutboxJob → Bool) (js : List OutboxJob)
    → All P (select p js)
    → All (λ j. p j ≡ true → P j) js
unfolding select
All-select P p [] a = tt
All-select P p (x ∷ js) a = elim (Bool-cases (p x)) [
  | inl e ↦ let b = rw e at a in (λ _. b.0, All-select P p js b.1)
  | inr e ↦ (λ h. absurd (false≢true (sym e ∙ h)), All-select P p js (rw e at a))
]

none_selected :
    (p : OutboxJob → Bool) (js : List OutboxJob) → select p js ≡ [] → All (λ j. p j ≡ false) js
unfolding select
none_selected p [] h = tt
none_selected p (x ∷ js) h = (ground arith, none_selected p js (ground arith))

no_rows :
    (job : OutboxJob) (q : OutboxJob → Bool) (js : List OutboxJob)
    → any (has_id job.id) js ≡ false
    → length (select (λ j. j.id == job.id && q j) js) ≡ 0
unfolding select any
no_rows job q [] h = refl
no_rows job q (x ∷ js) h = ground (arith, no_rows job q js)

-- The conditional UPDATE of the selected row writes one row.
one_row :
    (job : OutboxJob) (q : OutboxJob → Bool) (js : List OutboxJob)
    → IsUnique js
    → In job js
    → q job ≡ true
    → length (select (λ j. j.id == job.id && q j) js) ≡ 1
unfolding select
one_row job q [] u m h = absurd m
one_row job q (x ∷ js) u (inl e) h =
    let same : (x.id == job.id) ≡ true = (==_iff x.id job.id).1 (ap (λ j. j.id) e) in
    let holds : q x ≡ true = subst (λ j. q j ≡ true) (sym e) h in
    let rest = no_rows job q js (subst (λ j. any (has_id j.id) js ≡ false) e u.0) in
    rw (same, holds, rest) refl
one_row job q (x ∷ js) u (inr m) h = elim (Bool-cases (x.id == job.id)) [
  | inl same ↦ absurd (other_id x.id job js u.0 m (sym ((==_iff x.id job.id).0 same)))
  | inr differ ↦ rw differ (one_row job q js u.1 m h)
]

-- The claim that `claim_job` returns: the earliest waiting job in the order of (available_at,
-- created_at, id), under the next token, with one more attempt.
pub record IsClaim (worker : String) (lease : ℕ) (now : Time) (db : Db) (c : ClaimedJob) (db' : Db)
    : Type 0 where
  pub old : OutboxJob
  pub present : In old db.jobs
  pub waiting : claimable now old ≡ true
  pub least : All (λ k. claimable now k ≡ true → before k old ≡ false) db.jobs
  pub claimed : c.job ≡ claimed_as worker lease now old
  pub fence : c.claim_fence ≡ old.claim_fence + 1
  pub stored : In c.job db'.jobs

claim_next-IsClaim :
    (worker : String) (now : Time) (lease : ℕ) (db : Db) (c : ClaimedJob) (db' : Db)
    → claim_next worker now lease db ≡ ok (some c, db')
    → IsClaim worker lease now db c db'
unfolding claim_next
claim_next-IsClaim worker now lease db c db' h =
    elim (Option-cases (earliest (select (claimable now) db.jobs))) [
      | inl e ↦ absurd (ground arith)
      | inr (job, e) ↦
          let found = select-In (claimable now) db.jobs job (earliest-In _ job e) in
          let updated = claimed_as worker lease now job in
          let one : (claim_rowcount job db.jobs == 1) ≡ true = ground arith in
          let job_is : updated ≡ c.job = ground arith in
          let jobs_are : replace_job updated db.jobs ≡ db'.jobs = ground arith in
          record {
            old = job;
            present = found.0;
            waiting = found.1;
            least = All-select _ (claimable now) db.jobs (earliest_least _ job e);
            claimed = sym job_is;
            fence = ground arith;
            stored =
                subst (λ js. In c.job js) jobs_are
                  (subst (λ j. In j (replace_job updated db.jobs)) job_is
                    (replace-In updated db.jobs job found.0 refl));
          }
    ]

claim_next-none :
    (worker : String) (now : Time) (lease : ℕ) (db db' : Db)
    → IsUnique db.jobs
    → claim_next worker now lease db ≡ ok (none, db')
    → All (λ j. claimable now j ≡ false) db.jobs
unfolding claim_next
claim_next-none worker now lease db db' u h =
    elim (Option-cases (earliest (select (claimable now) db.jobs))) [
      | inl e ↦ none_selected (claimable now) db.jobs (earliest-none _ e)
      | inr (job, e) ↦
          let found = select-In (claimable now) db.jobs job (earliest-In _ job e) in
          let one : claim_rowcount job db.jobs ≡ 1 =
            one_row job (λ j. same_waiting j.state job.state) db.jobs u found.0
              (still_waiting job (ground arith)) in
          absurd (ground arith)
    ]
  where
    still_waiting :
        (j : OutboxJob) → is_waiting j.state ≡ true → same_waiting j.state j.state ≡ true
    still_waiting j h = ground arith

-- When `claim_job` returns a claim, the claim is of the waiting job that comes first among those that
-- are due in the tables that the recovery left, in the order of (available_at, created_at, id); it is
-- under that job's next token, counts one more attempt, holds the lease asked for, and is stored.
pub claim_job-IsClaim :
    (fresh : ℕ → Uuid) (worker : String) (now : Time) (lease : ℕ) (db : Db) (c : ClaimedJob)
    (db' : Db)
    → claim_job fresh worker now lease db ≡ (ok (some c), db')
    → IsClaim worker lease now (recover_expired_claims fresh now db).1 c db'
unfolding claim_job
claim_job-IsClaim fresh worker now lease db c db' h =
    elim (Bool-cases (claim_is_invalid worker lease)) [
      | inl e ↦ absurd (raised (rw (e, claim_job) at h))
      | inr e ↦ elim (Result-cases (recover_expired_claims fresh now db).0) [
        | inl (x, failed) ↦ absurd (raised (rw failed at rw (e, claim_job) at h))
        | inr (n, done) ↦
            let mid = (recover_expired_claims fresh now db).1 in
            claim_next-IsClaim worker now lease mid c db' (
              transaction-eq-ok (claim_next worker now lease) {s = mid}
                (rw done at rw (e, claim_job) at h))
      ]
    ]
  where
    raised :
        {A : Type 0} {x : Error} {s t : Db} {r : A}
        → ◌≡◌ {A = Result A × Db} (err x, s) (ok r, t)
        → ⊥
    raised h = cc

-- In tables with distinct job ids: when `claim_job` returns None, no job that waits in the tables
-- that the recovery left is due.
pub claim_job-none :
    (fresh : ℕ → Uuid) (worker : String) (now : Time) (lease : ℕ) (db db' : Db)
    → IsUnique db.jobs
    → claim_job fresh worker now lease db ≡ (ok none, db')
    → All (λ j. claimable now j ≡ false) (recover_expired_claims fresh now db).1.jobs
unfolding claim_job
claim_job-none fresh worker now lease db db' u h =
    elim (Bool-cases (claim_is_invalid worker lease)) [
      | inl e ↦ absurd (raised (rw (e, claim_job) at h))
      | inr e ↦ elim (Result-cases (recover_expired_claims fresh now db).0) [
        | inl (x, failed) ↦ absurd (raised (rw failed at rw (e, claim_job) at h))
        | inr (n, done) ↦
            let mid = (recover_expired_claims fresh now db).1 in
            claim_next-none worker now lease mid db'
              ((recover_expired_claims-Step fresh now db).unique u)
              (transaction-eq-ok (claim_next worker now lease) {s = mid}
                (rw done at rw (e, claim_job) at h))
      ]
    ]
  where
    raised :
        {A : Type 0} {x : Error} {s t : Db} {r : A}
        → ◌≡◌ {A = Result A × Db} (err x, s) (ok r, t)
        → ⊥
    raised h = cc
