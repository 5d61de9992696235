-- ===== src/Gateway/Consumed.antt =====
-- A chat request together with the reading of its stream: `handle_openai_chat` and `_stream_body` of
-- src/cyrene_exchange/gateway.py.
use mathlib.Core.Path.{subst}
use cyrene_exchange.Gateway.Handled.{handle_openai_chat-IsTraced}
use cyrene_exchange.Gateway.Bounds.{attempts}
use cyrene_exchange.Prelude.{
  inl, inr, String, ap, [], ◌∷◌, refl, ℕ, zero, suc, ◌≡◌, ◌++◌, ◌+◌, List, Bool, arith,
}
use cyrene_exchange.Product.Audits.{RequestMetadata}
use cyrene_exchange.Gateway.Stream.{Feed, Entry, yielded, terminal, Settings, stream_body}
use cyrene_exchange.Gateway.StreamAudit.{
  stream_body-IsAudited, IsAudited, closed, announced, content,
}
use cyrene_exchange.Gateway.Chat.{
  escapes, collected, streaming, Answer, responded, fails, Event, turned_away, begun, finished,
  World, handle_openai_chat,
}
use cyrene_exchange.Gateway.Attempts.{
  IsPersisting, IsTraced, turned, answered, streams, stopped, fell_back, exhausted,
}

-- The terminal calls for a request's candidates
abbrev pub endings : List Event → ℕ
endings [] = 0
endings (finished md s u e ∷ es) = suc (endings es)
endings (begun md ∷ es) = endings es
endings (turned_away p s e m b ∷ es) = endings es

abbrev pub terminal_calls : RequestMetadata → List Entry → List Event
terminal_calls md [] = []
terminal_calls md (yielded item ∷ rest) = terminal_calls md rest
terminal_calls md (terminal s u e ∷ rest) = finished md s u e ∷ terminal_calls md rest

-- What the observer sees when the consumer of a stream calls `next()` at most `reads` times
abbrev pub stream_events : Settings → ℕ → Answer → List Event
stream_events c reads (fails e) = []
stream_events c reads escapes = []
stream_events c reads (responded (collected md m r u)) = []
stream_events c reads (responded (streaming md feed)) = terminal_calls md (stream_body c feed reads)

-- The candidates that are begun and not finished when the handler returns
abbrev pub open_of : Answer → ℕ
open_of (fails e) = 0
open_of escapes = 0
open_of (responded (collected md m r u)) = 0
open_of (responded (streaming md feed)) = 1

IsTraced-attempts :
    {id : String} {es : List Event} {a : Answer}
    → IsTraced id es a
    → attempts es ≡ endings es + open_of a
IsTraced-attempts (turned p s e m b ends) = omega arith
IsTraced-attempts (answered md own m r u) = omega arith
IsTraced-attempts (streams md own feed) = omega arith
IsTraced-attempts (stopped md own u) = omega arith
IsTraced-attempts (fell_back md own u e rest) = let more = IsTraced-attempts rest in omega arith
IsTraced-attempts exhausted = omega arith

IsAudited-terminal_calls :
    {commit : Bool} (md : RequestMetadata) {log : List Entry}
    → IsAudited commit log
    → endings (terminal_calls md log) ≡ 1
IsAudited-terminal_calls md (closed s u e ends) = refl
IsAudited-terminal_calls md (announced u h) = refl
IsAudited-terminal_calls md (content item h rest) = IsAudited-terminal_calls md rest

terminal_calls-attempts :
    (md : RequestMetadata) (log : List Entry) → attempts (terminal_calls md log) ≡ 0
terminal_calls-attempts md [] = refl
terminal_calls-attempts md (yielded item ∷ rest) = terminal_calls-attempts md rest
terminal_calls-attempts md (terminal s u e ∷ rest) = terminal_calls-attempts md rest

stream_events-attempts :
    (c : Settings) (reads : ℕ) (a : Answer) → attempts (stream_events c reads a) ≡ 0
stream_events-attempts c reads (fails e) = refl
stream_events-attempts c reads escapes = refl
stream_events-attempts c reads (responded (collected md m r u)) = refl
stream_events-attempts c reads (responded (streaming md feed)) =
    terminal_calls-attempts md (stream_body c feed reads)

stream_events-endings :
    (c : Settings) (more : ℕ) (a : Answer) → endings (stream_events c (suc more) a) ≡ open_of a
stream_events-endings c more (fails e) = refl
stream_events-endings c more escapes = refl
stream_events-endings c more (responded (collected md m r u)) = refl
stream_events-endings c more (responded (streaming md feed)) =
    IsAudited-terminal_calls md (stream_body-IsAudited c feed more)

attempts-append : (xs ys : List Event) → attempts (xs ++ ys) ≡ attempts xs + attempts ys
attempts-append [] ys = omega arith
attempts-append (begun md ∷ xs) ys = let rest = attempts-append xs ys in omega arith
attempts-append (turned_away p s e m b ∷ xs) ys = attempts-append xs ys
attempts-append (finished md s u e ∷ xs) ys = attempts-append xs ys

endings-append : (xs ys : List Event) → endings (xs ++ ys) ≡ endings xs + endings ys
endings-append [] ys = omega arith
endings-append (begun md ∷ xs) ys = endings-append xs ys
endings-append (turned_away p s e m b ∷ xs) ys = endings-append xs ys
endings-append (finished md s u e ∷ xs) ys = let rest = endings-append xs ys in omega arith

-- The observer calls of a request and of its stream
abbrev pub events_of : Settings → ℕ → World → List Event
events_of c reads w = (handle_openai_chat w).1 ++ stream_events c reads (handle_openai_chat w).0

-- An exception that the handler does not catch leaves no candidate open.
handled-attempts :
    (w : World)
    → IsPersisting w
    → attempts (handle_openai_chat w).1
      ≡ endings (handle_openai_chat w).1 + open_of (handle_openai_chat w).0
handled-attempts w h = elim (handle_openai_chat-IsTraced w h) [
  | inl (traced, some_event) ↦ IsTraced-attempts traced
  | inr (u, no_event, answer) ↦ rw (no_event, answer) refl
]

-- While the calls of the observer return and no provider raises the gateway's own lifecycle error: for
-- a chat request whose stream, if it has one, is read at least once, the observer is told of as many
-- terminal outcomes as of admissions.
pub handle_openai_chat-balanced :
    (w : World) (c : Settings) (more : ℕ)
    → IsPersisting w
    → attempts (events_of c (suc more) w) ≡ endings (events_of c (suc more) w)
handle_openai_chat-balanced w c more h =
    let a = (handle_openai_chat w).0 in
    let es = (handle_openai_chat w).1 in
    let traced = handled-attempts w h in
    let left = attempts-append es (stream_events c (suc more) a) in
    let right = endings-append es (stream_events c (suc more) a) in
    let none_begun = stream_events-attempts c (suc more) a in
    let ended = stream_events-endings c more a in omega arith

-- Under the same conditions, a stream that is never read leaves its admission without a terminal
-- outcome.
pub unread_stream-is_open :
    (w : World) (c : Settings) (md : RequestMetadata) (feed : Feed)
    → IsPersisting w
    → (handle_openai_chat w).0 ≡ responded (streaming md feed)
    → attempts (events_of c zero w) ≡ suc (endings (events_of c zero w))
unfolding stream_body
unread_stream-is_open w c md feed h streamed =
    let es = (handle_openai_chat w).1 in
    let traced : attempts es ≡ endings es + 1 =
      subst (λ a. attempts es ≡ endings es + open_of a) streamed (handled-attempts w h) in
    let left = attempts-append es [] in
    let right = endings-append es [] in
    let unread : events_of c zero w ≡ es ++ [] = ap (λ a. es ++ stream_events c zero a) streamed in
    rw unread (omega arith)
