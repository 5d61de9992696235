-- ===== src/Outbox/History/Settled.antt =====
-- Settled jobs of integrations/store.py: a job that is ACCEPTED, SUCCEEDED, FAILED or UNKNOWN.
use mathlib.Core.Bool.{false≢true}
use cyrene_exchange.Outbox.History.Fencing.{no_claim-mark_sending}
use cyrene_exchange.Outbox.Claim.{live_claim, mark_sending}
use cyrene_exchange.Outbox.Lifecycle.Rows.{fetchone-In, In, IsUnique}
use cyrene_exchange.Outbox.Tables.{Db, is_claimed}
use cyrene_exchange.Outbox.Lifecycle.{may_follow, is_settled}
use cyrene_exchange.Outbox.History.{run-Later, run, Call}
use cyrene_exchange.Prelude.{
  ◌∙◌, fetchone-holds, fetchone, Option-cases, sym, Time, arith, inl, inr, true, false, ℕ, ◌≡◌,
  List,
}
use cyrene_exchange.Outbox.Results.{conflict, err}
use cyrene_exchange.Outbox.Models.{OutboxJob, JobState}

claimed-unsettled : (s : JobState) → is_claimed s ≡ true → is_settled s ≡ false
claimed-unsettled s h = ground arith

kept-settled : (s t : JobState) → is_settled s ≡ true → may_follow s t ≡ true → is_settled t ≡ true
kept-settled s t h k = ground arith

-- In tables with distinct job ids: a settled job is never sent again, since `mark_sending` raises a
-- conflict for it under every fencing token, after any sequence of calls. An UNKNOWN outcome is
-- hence never resent automatically.
pub settled-mark_sending :
    (cs : List Call) (db : Db) (j : OutboxJob) (fence : ℕ) (now : Time)
    → IsUnique db.jobs
    → In j db.jobs
    → is_settled j.state ≡ true
    → mark_sending j.id fence now (run cs db)
      ≡ (err (conflict "job claim is stale or expired"), run cs db)
settled-mark_sending cs db j fence now u m settled =
    let after = (run cs db).jobs in
    no_claim-mark_sending j.id fence now (run cs db)
      (elim (Option-cases (fetchone (live_claim j.id fence now) after)) [
        | inl e ↦ e
        | inr (k, e) ↦
            let holds : live_claim j.id fence now k ≡ true = fetchone-holds _ after k e in
            let later = run-Later cs db j k u m (fetchone-In _ after k e) (ground arith) in
            let closed = kept-settled j.state k.state settled later.settled in
            let opened = claimed-unsettled k.state (ground arith) in
            absurd (false≢true (sym opened ∙ closed))
      ])
