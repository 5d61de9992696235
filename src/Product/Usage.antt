-- ===== src/Product/Usage.antt =====
-- A request is closed once, with the usage that was first reported (store.py).
use mathlib.Core.Path.{subst}
use cyrene_exchange.Product.Tables.{Store, RequestAudit, AuditStatus, UsageState}
use cyrene_exchange.Product.Audits.{
  started_audit, begin_request, usage_values, closed_audit, close_audits, is_started, has_request,
  UsageValues, ProviderUsage, RequestMetadata, finish_request,
}
use cyrene_exchange.Prelude.{
  fetchone_last, ◌++◌, eq_refl, true, any, ap, Bool-cases, arith, Option-cases, String, fetchone,
  [], ◌∷◌, none, some, inl, inr, false, refl, ℕ, ◌≡◌, List, Option,
}
use cyrene_exchange.Outbox.Results.{Error, ok, err, Result}

-- The row of a request is not STARTED after the UPDATE.
close-fetchone :
    (id : String) (status : AuditStatus) (u : UsageValues) (e : Option String) (now : ℕ)
    (rows : List RequestAudit) (a : RequestAudit)
    → is_started status ≡ false
    → fetchone (has_request id) rows ≡ some a
    → (b : RequestAudit) × (fetchone (has_request id) (close_audits id status u e now rows)
        ≡ some b)
      × (is_started b.status ≡ false)
unfolding fetchone
close-fetchone id status u e now [] a ends h = absurd (ground arith)
close-fetchone id status u e now (x ∷ rows) a ends h = elim (Bool-cases (has_request id x)) [
  | inl same ↦ elim (Bool-cases (is_started x.status)) [
    | inl open_row ↦ (closed_audit status u e now x, ground arith, ends)
    | inr closed_row ↦ (x, ground arith, closed_row)
  ]
  | inr other ↦
      let (b, found, closed_row) = close-fetchone id status u e now rows a ends (ground arith) in
      (b, ground arith, closed_row)
]

pub closed-finish_request :
    (m : RequestMetadata) (status : AuditStatus) (usage : Option ProviderUsage) (e : Option String)
    (now : ℕ) (s : Store) (b : RequestAudit)
    → fetchone (has_request m.request_id) s.audits ≡ some b
    → is_started b.status ≡ false
    → finish_request m status usage e now s ≡ (ok tt, s)
unfolding finish_request
closed-finish_request m status usage e now s b h closed_row =
    rw (h, finish_request) (rw closed_row refl)

-- After `finish_request` has returned with a terminal status, another call for the same request
-- returns and changes nothing, whatever its status, usage and error: repeated callbacks cannot add
-- usage.
pub finish_request_once :
    (m m' : RequestMetadata) (status status' : AuditStatus) (usage usage' : Option ProviderUsage)
    (e e' : Option String) (now now' : ℕ) (s s' : Store)
    → is_started status ≡ false
    → m'.request_id ≡ m.request_id
    → finish_request m status usage e now s ≡ (ok tt, s')
    → finish_request m' status' usage' e' now' s' ≡ (ok tt, s')
unfolding finish_request
finish_request_once m m' status status' usage usage' e e' now now' s s' ends same h =
    elim (Option-cases (fetchone (has_request m.request_id) s.audits)) [
      | inl absent ↦ absurd (raised (rw (absent, finish_request) at h))
      | inr (a, found) ↦ elim (Bool-cases (is_started a.status)) [
        | inl open_row ↦
            let (b, after, closed_row) =
              close-fetchone m.request_id status (usage_values usage) e now s.audits a ends found in
            let written = rw (found, finish_request, open_row) at h in
            closed-finish_request m' status' usage' e' now' s' b
              (rw same (
                subst (λ rows. fetchone (has_request m.request_id) rows ≡ some b)
                  (ap (λ r. r.1.audits) written) after))
              closed_row
        | inr closed_row ↦
            let kept : s ≡ s' = ap (λ r. r.1) (rw (found, finish_request, closed_row) at h) in
            closed-finish_request m' status' usage' e' now' s' a
              (rw same
                (subst (λ t. fetchone (has_request m.request_id) t.audits ≡ some a) kept found))
              closed_row
      ]
    ]
  where
    raised :
        {x : Error} {t t' : Store} → ◌≡◌ {A = Result (Unit {0}) × Store} (err x, t) (ok tt, t') → ⊥
    raised h = cc

closed_last :
    (id : String) (status : AuditStatus) (u : UsageValues) (e : Option String) (now : ℕ)
    (rows : List RequestAudit) (a : RequestAudit)
    → any (has_request id) rows ≡ false
    → has_request id a ≡ true
    → is_started a.status ≡ true
    → fetchone (has_request id) (close_audits id status u e now (rows ++ a ∷ []))
      ≡ some (closed_audit status u e now a)
unfolding fetchone any
closed_last id status u e now [] a h k l = ground arith
closed_last id status u e now (x ∷ rows) a h k l =
    ground (arith, closed_last id status u e now rows a)

pub begin_request-row :
    (m : RequestMetadata) (status : AuditStatus) (usage : Option ProviderUsage) (e : Option String)
    (now now' : ℕ) (s : Store)
    → any (has_request m.request_id) s.audits ≡ false
    → fetchone
        (has_request m.request_id)
        (finish_request m status usage e now' (begin_request m now s).1).1.audits
      ≡ some (closed_audit status (usage_values usage) e now' (started_audit m now))
unfolding begin_request finish_request
begin_request-row m status usage e now now' s h =
    let own : has_request m.request_id (started_audit m now) ≡ true = eq_refl m.request_id in
    let row = fetchone_last (has_request m.request_id) s.audits (started_audit m now) h own in
    rw (h, begin_request)
      (rw (row, finish_request)
        (closed_last m.request_id status (usage_values usage) e now' s.audits (started_audit m now)
          h own refl))

-- A count that the provider reported
abbrev pub known_count : (ProviderUsage → Option ℕ) → Option ProviderUsage → Option ℕ
known_count f none = none
known_count f (some u) = f u

-- UNKNOWN without any count, FINAL with the prompt and completion counts
abbrev pub known_state : Option ℕ → Option ℕ → Option ℕ → UsageState
known_state (some p) (some c) total = UsageState.final
known_state (some p) none total = UsageState.partial
known_state none (some c) total = UsageState.partial
known_state none none (some t) = UsageState.partial
known_state none none none = UsageState.unknown

-- The row of a request that was admitted at `now` and closed at `now'`
pub record IsRecorded (m : RequestMetadata) (status : AuditStatus) (usage : Option ProviderUsage)
    (e : Option String) (now now' : ℕ) (a : RequestAudit) : Type 0 where
  pub request : a.request_id ≡ m.request_id
  pub target : (a.route_id ≡ some m.route_id) × (a.binding_id ≡ some m.provider_ref)
  pub asked : (a.model ≡ some m.model) × (a.stream ≡ some m.stream)
  pub actor : a.actor_id ≡ some m.principal.actor_id
  pub workspace : a.workspace_id ≡ some m.principal.workspace_id
  pub credential : a.credential_ref ≡ some m.principal.credential_ref
  pub outcome : (a.status ≡ status) × (a.error_type ≡ e)
  pub times : (a.started_at ≡ now) × (a.finished_at ≡ some now')
  pub prompt : a.prompt_tokens ≡ known_count (λ u. u.prompt_tokens) usage
  pub completion : a.completion_tokens ≡ known_count (λ u. u.completion_tokens) usage
  pub total : a.total_tokens ≡ known_count (λ u. u.total_tokens) usage
  pub source : a.usage_source ≡ elim usage [ none ↦ none | some u ↦ some u.source ]
  pub known :
      a.usage_state
      ≡ known_state
          (known_count (λ u. u.prompt_tokens) usage)
          (known_count (λ u. u.completion_tokens) usage)
          (known_count (λ u. u.total_tokens) usage)

usage_values-state :
    (p c t : Option ℕ) (source : String)
    → (usage_values (
        some (record {
          prompt_tokens = p;
          completion_tokens = c;
          total_tokens = t;
          source = source;
        }))).state
      ≡ known_state p c t
unfolding usage_values known_state
usage_values-state (some p) (some c) t source = refl
usage_values-state (some p) none t source = refl
usage_values-state none (some c) t source = refl
usage_values-state none none (some t) source = refl
usage_values-state none none none source = refl

closed-IsRecorded :
    (m : RequestMetadata) (status : AuditStatus) (usage : Option ProviderUsage) (e : Option String)
    (now now' : ℕ)
    → IsRecorded m status usage e now now'
        (closed_audit status (usage_values usage) e now' (started_audit m now))
unfolding usage_values known_count known_state
closed-IsRecorded m status none e now now' = record {
  request = refl;
  target = (refl, refl);
  asked = (refl, refl);
  actor = refl;
  workspace = refl;
  credential = refl;
  outcome = (refl, refl);
  times = (refl, refl);
  prompt = refl;
  completion = refl;
  total = refl;
  source = refl;
  known = refl;
}
closed-IsRecorded m status (some u) e now now' = record {
  request = refl;
  target = (refl, refl);
  asked = (refl, refl);
  actor = refl;
  workspace = refl;
  credential = refl;
  outcome = (refl, refl);
  times = (refl, refl);
  prompt = refl;
  completion = refl;
  total = refl;
  source = refl;
  known = usage_values-state u.prompt_tokens u.completion_tokens u.total_tokens u.source;
}

-- The audit of a request that is new, admitted by `begin_request` and closed by `finish_request`,
-- is one row that has the request, target, identity and time of the admission, the status, error and
-- time of the close, each count and the source as the provider reported it, absent where it was
-- absent, and says that the usage is FINAL with the prompt and completion counts, UNKNOWN without
-- any count and PARTIAL otherwise.
pub begin_request-finish_request :
    (m : RequestMetadata) (status : AuditStatus) (usage : Option ProviderUsage) (e : Option String)
    (now now' : ℕ) (s : Store)
    → any (has_request m.request_id) s.audits ≡ false
    → (a : RequestAudit) × (fetchone
          (has_request m.request_id)
          (finish_request m status usage e now' (begin_request m now s).1).1.audits
        ≡ some a)
      × IsRecorded m status usage e now now' a
begin_request-finish_request m status usage e now now' s h = (
  closed_audit status (usage_values usage) e now' (started_audit m now),
  begin_request-row m status usage e now now' s h,
  closed-IsRecorded m status usage e now now',
)
