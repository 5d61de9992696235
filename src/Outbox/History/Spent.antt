-- ===== src/Outbox/History/Spent.antt =====
-- Fencing tokens: what a token no longer permits once a later one was given out, or its claim used.
use cyrene_exchange.Outbox.Lifecycle.Selected.{fetchone_claimed, sending_row-Selected}
use cyrene_exchange.Outbox.Lifecycle.{rank}
use cyrene_exchange.Outbox.Lifecycle.Rows.{fetchone-In, In, IsUnique}
use cyrene_exchange.Outbox.Tables.{sending_row, sending_under, claimed_under, Db}
use cyrene_exchange.Outbox.History.{run-Later, run, Call}
use cyrene_exchange.Prelude.{
  arith, fetchone-holds, ap, Option-cases, fetchone, Bool, ◌≤◌, none, inl, inr, true, ℕ, ◌≡◌, List,
}
use cyrene_exchange.Outbox.Results.{conflict, or_raise}
use cyrene_exchange.Outbox.Models.{OutboxJob}

-- No row is claimed under a token that its job has left behind.
pub claim_is_spent :
    (cs : List Call) (db : Db) (j : OutboxJob) (fence : ℕ)
    → IsUnique db.jobs
    → In j db.jobs
    → fence ≤ j.claim_fence
    → (fence ≡ j.claim_fence → 1 ≤ rank j.state)
    → (p : OutboxJob → Bool) → ((k : OutboxJob) → p k ≡ true → claimed_under j.id fence k ≡ true)
    → fetchone p (run cs db).jobs ≡ none
claim_is_spent cs db j fence u m passed used p under =
    elim (Option-cases (fetchone p (run cs db).jobs)) [
      | inl e ↦ e
      | inr (k, e) ↦
          let after = (run cs db).jobs in
          let here = fetchone-In p after k e in
          let row =
            fetchone_claimed j.id fence k (run cs db) here (under k (fetchone-holds p after k e)) in
          let later = run-Later cs db j k u m here row.id_is in
          let grows = later.fence_grows in
          let spent = later.spent in
          let same : fence ≡ j.claim_fence = omega (arith, row.fence_is) in
          let behind : rank j.state ≤ 0 =
            rw row.state_is at (spent (omega (arith, row.fence_is))) in
          absurd (omega (arith, used same, behind))
    ]

-- No row is sending under a token older than the one of its job, or whose send was finished.
pub send_is_spent :
    (cs : List Call) (db : Db) (j : OutboxJob) (fence : ℕ)
    → IsUnique db.jobs
    → In j db.jobs
    → fence ≤ j.claim_fence
    → (fence ≡ j.claim_fence → 2 ≤ rank j.state)
    → fetchone (sending_under j.id fence) (run cs db).jobs ≡ none
send_is_spent cs db j fence u m passed used =
    elim (Option-cases (fetchone (sending_under j.id fence) (run cs db).jobs)) [
      | inl e ↦ e
      | inr (k, e) ↦
          let after = (run cs db).jobs in
          let row =
            sending_row-Selected j.id fence "" (run cs db) {job = k}
              (unfold sending_row in ap (λ o. or_raise o (conflict "")) e) in
          let later = run-Later cs db j k u m row.present row.id_is in
          let grows = later.fence_grows in
          let same : fence ≡ j.claim_fence = omega (arith, row.fence_is) in
          let behind : rank j.state ≤ 1 =
            rw row.state_is at (later.spent (omega (arith, row.fence_is))) in
          absurd (omega (arith, used same, behind))
    ]
