-- ===== src/Outbox/Lifecycle/Steps.antt =====
-- What the shared statements of the store do to the jobs.
use mathlib.Core.Path.{subst}
use mathlib.Core.List.{append-nil}
use mathlib.Core.Bool.{false≢true}
use cyrene_exchange.Prelude.{
  ℕ, ◌≡◌, refl, sym, ap, ◌∙◌, ◌⊎◌, inl, inr, false, Option, List, [], ◌∷◌, ◌++◌, arith, ◌==◌,
  ==_iff, Bool-cases, Option-cases, any, Uuid, Time,
}
use cyrene_exchange.Outbox.Results.{ok}
use cyrene_exchange.Outbox.Models.{
  SourceKind, rest, wecom_command, JobState, OperationState, SourceKind, rest, wecom_command, Dict,
  IntegrationConnection, OutboxJob, Operation,
}
use cyrene_exchange.Outbox.Tables.{
  Db, has_id, insert_job, replace_job, persist_job, operation_row, replace_operation,
  update_operation_state, insert_evidence,
}
use cyrene_exchange.Outbox.Replies.{
  has_reply_context, reply_connection, has_reply_context, command_reply_job, reply_connection,
  enqueue_command_reply, enqueue_reply_for_operation,
}
use cyrene_exchange.Outbox.Lifecycle.{
  Later, Later-refl, Grows, Grows-refl, Grows-append, Grows-trans,
}
use cyrene_exchange.Outbox.Lifecycle.Rows.{
  In-append, IsUnique, In, any_of_In, replace_absent, replace-IsUnique, append-IsUnique,
}

replace-Grows :
    (k : OutboxJob) (js : List OutboxJob) (j : OutboxJob)
    → IsUnique js
    → In j js
    → Later j k
    → Grows js (replace_job k js)
unfolding replace_job
replace-Grows k [] j u m l = tt
replace-Grows k (x ∷ js) j u (inl e) l =
    let same : x.id ≡ k.id = ap (λ y. y.id) e ∙ sym l.same_id in
    (
      rw ((==_iff x.id k.id).1 same) (rw e l),
      rw (replace_absent k js (rw (← same) u.0)) (Grows-refl js),
    )
replace-Grows k (x ∷ js) j u (inr m) l = elim (Bool-cases (x.id == k.id)) [
  | inl same ↦
      absurd
        (false≢true (sym u.0 ∙ rw (((==_iff x.id k.id).0 same) ∙ l.same_id) (any_of_In j js m)))
  | inr differ ↦ (rw differ (Later-refl x), replace-Grows k js j u.1 m l)
]

-- From tables with distinct ids to tables with distinct ids, where each job is later.
pub record Step (db db' : Db) : Type 0 where
  pub unique : IsUnique db.jobs → IsUnique db'.jobs
  pub grows : IsUnique db.jobs → Grows db.jobs db'.jobs

pub Step-refl : (db : Db) → Step db db
Step-refl db = record { unique = λ u. u; grows = λ u. Grows-refl db.jobs }

pub Step-trans : {a b c : Db} → Step a b → Step b c → Step a c
Step-trans {a} {b} {c} h k = record {
  unique = λ u. k.unique (h.unique u);
  grows = λ u. Grows-trans a.jobs b.jobs c.jobs (h.grows u) (k.grows (h.unique u));
}

pub same_jobs-Step : (db db' : Db) → db'.jobs ≡ db.jobs → Step db db'
same_jobs-Step db db' e = record { unique = λ u. rw e u; grows = λ u. rw e (Grows-refl db.jobs) }

pub persist-Step :
    (k : OutboxJob) (db : Db) (j : OutboxJob)
    → In j db.jobs
    → Later j k
    → Step db (persist_job k db)
persist-Step k db j m l = record {
  unique = λ u. replace-IsUnique k db.jobs u;
  grows = λ u. replace-Grows k db.jobs j u m l;
}

pub insert_job-Step : (j : OutboxJob) (db db' : Db) → insert_job j db ≡ ok db' → Step db db'
unfolding insert_job
insert_job-Step j db db' h = record {
  unique = λ u.
      let absent : any (has_id j.id) db.jobs ≡ false = ground arith in
      let jobs : db'.jobs ≡ db.jobs ++ j ∷ [] = ground arith in
      rw jobs (append-IsUnique j db.jobs u absent);
  grows = λ u.
      let jobs : db'.jobs ≡ db.jobs ++ j ∷ [] = ground arith in
      rw jobs (Grows-append db.jobs (j ∷ []));
}

pub update-Step :
    (id : Uuid) (state : OperationState) (now : Time) (result : Option Dict) (db : Db)
    → Step db (update_operation_state id state now result db)
unfolding update_operation_state
update-Step id state now result db = same_jobs-Step db _ (ground arith)

pub replace_operation-Step : (op : Operation) (db : Db) → Step db (replace_operation op db)
unfolding replace_operation
replace_operation-Step op db = same_jobs-Step db _ refl

pub evidence-Step :
    (id : Uuid) (fence : ℕ) (d : Dict) (db db' : Db)
    → insert_evidence id fence d db ≡ ok db'
    → Step db db'
unfolding insert_evidence
evidence-Step id fence d db db' h = same_jobs-Step db db' (ground arith)

SourceKind-cases : (k : SourceKind) → (k ≡ rest) ⊎ (k ≡ wecom_command)
SourceKind-cases rest = inl refl
SourceKind-cases wecom_command = inr refl

-- A reply is enqueued by one INSERT, or nothing is written.
pub reply_cases :
    (fresh : Uuid) (op : Operation) (state : JobState) (d : Dict) (now : Time) (db db' : Db)
    → enqueue_command_reply fresh op state d now db ≡ ok db'
    → (db' ≡ db)
      ⊎ ((c : IntegrationConnection) × (insert_job (command_reply_job fresh op c state d now) db
            ≡ ok db'))
unfolding enqueue_command_reply
reply_cases fresh op state d now db db' h = elim (SourceKind-cases op.source_kind) [
  | inl e ↦ inl (ground arith)
  | inr e ↦ elim (Bool-cases (has_reply_context op)) [
    | inl full ↦ elim (Option-cases (reply_connection op db)) [
      | inl missing ↦ inl (ground arith)
      | inr (c, found) ↦ inr (c, ground arith)
    ]
    | inr lacking ↦ inl (ground arith)
  ]
]

pub enqueue_command_reply-Step :
    (fresh : Uuid) (op : Operation) (state : JobState) (d : Dict) (now : Time) (db db' : Db)
    → enqueue_command_reply fresh op state d now db ≡ ok db'
    → Step db db'
enqueue_command_reply-Step fresh op state d now db db' h =
    elim (reply_cases fresh op state d now db db' h) [
      | inl e ↦ same_jobs-Step db db' (ap (λ x. x.jobs) e)
      | inr (c, e) ↦ insert_job-Step (command_reply_job fresh op c state d now) db db' e
    ]

pub enqueue_reply-Step :
    (fresh id : Uuid) (state : JobState) (d : Dict) (now : Time) (db db' : Db)
    → enqueue_reply_for_operation fresh id state d now db ≡ ok db'
    → Step db db'
unfolding enqueue_reply_for_operation
enqueue_reply-Step fresh id state d now db db' h = elim (Option-cases (operation_row id db)) [
  | inl e ↦ same_jobs-Step db db' (ground arith)
  | inr (op, e) ↦ enqueue_command_reply-Step fresh op state d now db db' (ground arith)
]

-- `db'` has new jobs behind those of `db`, which are unchanged.
pub record Adds (db db' : Db) : Type 0 where
  pub new : List OutboxJob
  pub jobs_are : db'.jobs ≡ db.jobs ++ new
  pub step : Step db db'

pub same_jobs-Adds : (db db' : Db) → db'.jobs ≡ db.jobs → Adds db db'
same_jobs-Adds db db' e = record {
  new = [];
  jobs_are = rw (e, append-nil) refl;
  step = same_jobs-Step db db' e;
}

pub update_operation_state-jobs :
    (id : Uuid) (state : OperationState) (now : Time) (result : Option Dict) (db : Db)
    → (update_operation_state id state now result db).jobs ≡ db.jobs
unfolding update_operation_state
update_operation_state-jobs id state now result db = ground arith

insert_job-Adds : (j : OutboxJob) (db db' : Db) → insert_job j db ≡ ok db' → Adds db db'
unfolding insert_job
insert_job-Adds j db db' h = record {
  new = j ∷ [];
  jobs_are = ground arith;
  step = insert_job-Step j db db' h;
}

pub enqueue_reply-Adds :
    (fresh id : Uuid) (state : JobState) (d : Dict) (now : Time) (db db' : Db)
    → enqueue_reply_for_operation fresh id state d now db ≡ ok db'
    → Adds db db'
unfolding enqueue_reply_for_operation
enqueue_reply-Adds fresh id state d now db db' h = elim (Option-cases (operation_row id db)) [
  | inl e ↦ same_jobs-Adds db db' (ground arith)
  | inr (op, e) ↦ elim (reply_cases fresh op state d now db db' (ground arith)) [
    | inl same ↦ same_jobs-Adds db db' (ap (λ x. x.jobs) same)
    | inr (c, i) ↦ insert_job-Adds (command_reply_job fresh op c state d now) db db' i
  ]
]

pub Adds-In : {db db' : Db} (j : OutboxJob) → Adds db db' → In j db.jobs → In j db'.jobs
Adds-In {db} j a m = rw a.jobs_are (In-append j db.jobs a.new m)

pub Grows-In :
    (js ks : List OutboxJob) (j : OutboxJob)
    → Grows js ks
    → In j js
    → (k : OutboxJob) × In k ks × Later j k
Grows-In [] ks j g m = absurd m
Grows-In (x ∷ js) [] j g m = absurd g
Grows-In (x ∷ js) (y ∷ ks) j g (inl e) = (y, inl refl, subst (λ i. Later i y) e g.0)
Grows-In (x ∷ js) (y ∷ ks) j g (inr m) = let (k, n, l) = Grows-In js ks j g.1 m in (k, inr n, l)
