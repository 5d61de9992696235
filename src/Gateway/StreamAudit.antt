-- ===== src/Gateway/StreamAudit.antt =====
-- The audit of a stream: the observer calls of `_stream_body` in src/cyrene_exchange/gateway.py.
use cyrene_exchange.Prelude.{
  not, ◌&&◌, ◌≢◌, [], ◌∷◌, none, some, inl, inr, true, false, refl, ℕ, zero, suc, ◌≡◌, ◌≤◌, ◌+◌,
  List, Option, String, Bool, Bool-cases, Option-cases, length, arith,
}
use cyrene_exchange.Product.Audits.{is_started, ProviderUsage}
use cyrene_exchange.Product.Tables.{AuditStatus, completed, failed, cancelled}
use cyrene_exchange.Gateway.Usage.{merge_from, ProviderChunk, UsageDict, merge_chunk_usage}
use cyrene_exchange.Gateway.Stream.{
  advanced, serialized, after_event, yield_then, stream_from, stream_body, emit_usage, emit_finish,
  complete, close, Feed, chunk, ended, raised, request_cancelled, invocation_cancelled, Item, delta,
  finish, usage_only, done, Entry, yielded, terminal, Settings, Progress, start,
}

-- The runs that the observer's contract admits: one terminal call, after the content and last but for
-- DONE, which follows only a completed one that was committed.
pub data IsAudited (commit : Bool) : List Entry → Type 0 where
  closed :
      (status : AuditStatus) (usage : Option ProviderUsage) (error_type : Option String)
      → is_started status ≡ false
      → IsAudited commit (terminal status usage error_type ∷ [])
  announced :
      (usage : Option ProviderUsage)
      → commit ≡ true
      → IsAudited commit (terminal completed usage none ∷ yielded done ∷ [])
  content :
      (item : Item) {rest : List Entry}
      → item ≢ done
      → IsAudited commit rest
      → IsAudited commit (yielded item ∷ rest)

is_done : Item → Bool
is_done (delta k u) = false
is_done (finish r) = false
is_done (usage_only d) = false
is_done done = true

delta≢done : (k : ProviderChunk) (u : Option UsageDict) → delta k u ≢ done
delta≢done k u e = cc

finish≢done : (r : String) → finish r ≢ done
finish≢done r e = cc

usage_only≢done : (d : UsageDict) → usage_only d ≢ done
usage_only≢done d e = cc

close-IsAudited : (c : Settings) (usage : Option ProviderUsage) → IsAudited c.commit (close c usage)
unfolding close
close-IsAudited c usage = elim (Bool-cases c.closing) [
  | inl e ↦ rw e (closed cancelled usage (some "request_cancelled") refl)
  | inr e ↦ rw e (closed failed usage (some "stream_closed") refl)
]

yield_then-IsAudited :
    (c : Settings) (usage : Option ProviderUsage) (item : Item) (more : ℕ) (next : ℕ → List Entry)
    → item ≢ done
    → ((n : ℕ) → IsAudited c.commit (next n))
    → IsAudited c.commit (yield_then c usage item more next)
unfolding yield_then
yield_then-IsAudited c usage item zero next h k = content item h (close-IsAudited c usage)
yield_then-IsAudited c usage item (suc more) next h k = content item h (k more)

complete-IsAudited :
    (c : Settings) (usage : Option ProviderUsage) → IsAudited c.commit (complete c usage)
unfolding complete
complete-IsAudited c usage = elim (Bool-cases c.commit) [
  | inl e ↦ rw e (announced usage refl)
  | inr e ↦ rw e (closed completed usage none refl)
]

emit_usage-IsAudited :
    (c : Settings) (p : Progress) (more : ℕ) → IsAudited c.commit (emit_usage c p more)
unfolding emit_usage
emit_usage-IsAudited c p more = elim (Option-cases (serialized p.usage)) [
  | inl e ↦ rw (emit_usage, e) (complete-IsAudited c p.usage)
  | inr (d, e) ↦ elim (Bool-cases (c.include_usage && not p.usage_emitted)) [
    | inl k ↦
        rw (emit_usage, e, k)
          (yield_then-IsAudited c p.usage (usage_only d) more (λ n. complete c p.usage)
            (usage_only≢done d) (λ n. complete-IsAudited c p.usage))
    | inr k ↦ rw (emit_usage, e, k) (complete-IsAudited c p.usage)
  ]
]

emit_finish-IsAudited :
    (c : Settings) (p : Progress) (more : ℕ) → IsAudited c.commit (emit_finish c p more)
unfolding emit_finish emit_usage
emit_finish-IsAudited c p more = elim (Bool-cases p.emitted_finish) [
  | inl e ↦ rw e (emit_usage-IsAudited c p more)
  | inr e ↦ rw e (
      yield_then-IsAudited c p.usage _ more (λ n. emit_usage c p n) (finish≢done _)
        (λ n. emit_usage-IsAudited c p n))
]

stream_from-IsAudited :
    (c : Settings) (p : Progress) (feed : Feed) (more : ℕ)
    → IsAudited c.commit (stream_from c p feed more)
unfolding stream_from
stream_from-IsAudited c p (chunk k true rest) more =
    closed cancelled p.usage (some "request_cancelled") refl
stream_from-IsAudited c p (chunk k false rest) more =
    yield_then-IsAudited c _ (delta k _) more
      (λ n. stream_from c (after_event c (advanced p k)) rest n) (delta≢done k _)
      (λ n. stream_from-IsAudited c (after_event c (advanced p k)) rest n)
stream_from-IsAudited c p (ended true) more =
    closed cancelled p.usage (some "request_cancelled") refl
stream_from-IsAudited c p (ended false) more = emit_finish-IsAudited c p more
stream_from-IsAudited c p (raised e u true) more =
    closed cancelled p.usage (some "request_cancelled") refl
stream_from-IsAudited c p (raised e u false) more = closed failed p.usage (some e) refl
stream_from-IsAudited c p (request_cancelled u) more =
    closed cancelled p.usage (some "request_cancelled") refl
stream_from-IsAudited c p invocation_cancelled more =
    closed cancelled p.usage (some "request_cancelled") refl

-- A stream of which the consumer reads anything makes exactly one terminal call of the observer,
-- whatever the provider does, whenever the request is cancelled and wherever the consumer stops; and
-- DONE is sent only after a completed terminal call that has returned.
pub stream_body-IsAudited :
    (c : Settings) (feed : Feed) (more : ℕ) → IsAudited c.commit (stream_body c feed (suc more))
unfolding stream_body
stream_body-IsAudited c feed more = stream_from-IsAudited c start feed more

-- A provider that sends its chunks and ends, with no cancellation
abbrev pub healthy : List ProviderChunk → Feed
healthy [] = ended false
healthy (k ∷ cs) = chunk k false (healthy cs)

-- The arguments of the terminal call
abbrev pub outcome : List Entry → Option (AuditStatus × Option ProviderUsage × Option String)
outcome [] = none
outcome (yielded item ∷ rest) = outcome rest
outcome (terminal status usage error_type ∷ rest) = some (status, usage, error_type)

outcome-complete :
    (c : Settings) (usage : Option ProviderUsage)
    → outcome (complete c usage) ≡ some (completed, usage, none)
unfolding complete
outcome-complete c usage = elim (Bool-cases c.commit) [ inl e ↦ rw e refl | inr e ↦ rw e refl ]

outcome-emit_usage :
    (c : Settings) (p : Progress) (more : ℕ)
    → outcome (emit_usage c p (suc more)) ≡ some (completed, p.usage, none)
unfolding emit_usage yield_then
outcome-emit_usage c p more = elim (Option-cases (serialized p.usage)) [
  | inl e ↦ rw (emit_usage, e) (outcome-complete c p.usage)
  | inr (d, e) ↦ elim (Bool-cases (c.include_usage && not p.usage_emitted)) [
    | inl k ↦ rw (emit_usage, e, k) (outcome-complete c p.usage)
    | inr k ↦ rw (emit_usage, e, k) (outcome-complete c p.usage)
  ]
]

outcome-emit_finish :
    (c : Settings) (p : Progress) (more : ℕ)
    → outcome (emit_finish c p (suc (suc more))) ≡ some (completed, p.usage, none)
unfolding emit_finish yield_then emit_usage
outcome-emit_finish c p more = elim (Bool-cases p.emitted_finish) [
  | inl e ↦ rw e (outcome-emit_usage c p (suc more))
  | inr e ↦ rw e (outcome-emit_usage c p more)
]

outcome-stream_from :
    (c : Settings) (p : Progress) (cs : List ProviderChunk) (more : ℕ)
    → length cs + 2 ≤ more
    → outcome (stream_from c p (healthy cs) more) ≡ some (completed, merge_from p.usage cs, none)
unfolding stream_from yield_then advanced after_event merge_from
outcome-stream_from c p [] zero h = absurd (omega arith)
outcome-stream_from c p [] (suc zero) h = absurd (omega arith)
outcome-stream_from c p [] (suc (suc more)) h = outcome-emit_finish c p more
outcome-stream_from c p (k ∷ cs) zero h = absurd (omega arith)
outcome-stream_from c p (k ∷ cs) (suc more) h =
    outcome-stream_from c (after_event c (advanced p k)) cs more (omega arith)

-- A stream of a provider that sends its chunks and ends, with no cancellation, is audited as
-- completed, with the usage that the same chunks give without streaming, once the consumer asks for at
-- least three items more than there are chunks.
pub stream_body-completed :
    (c : Settings) (cs : List ProviderChunk) (reads : ℕ)
    → length cs + 3 ≤ reads
    → outcome (stream_body c (healthy cs) reads) ≡ some (completed, merge_chunk_usage cs, none)
unfolding stream_body merge_chunk_usage
stream_body-completed c cs zero h = absurd (omega arith)
stream_body-completed c cs (suc more) h = outcome-stream_from c start cs more (omega arith)
