-- ===== src/Gateway/Fragments.antt =====
-- What `_assemble_message` of src/cyrene_exchange/gateway.py makes of the fragments of tool calls.
use mathlib.Core.Path.{subst}
use cyrene_exchange.Prelude.{
  ◌∙◌, ltb, ◌⊎◌, ap, ◌==◌, if◌then◌else◌, [], ◌∷◌, none, inl, inr, false, refl, ℕ, ◌≡◌, ◌<◌, List,
  Option, String, All, All-map, arith, Bool-cases, ==_iff,
}
use cyrene_exchange.Gateway.Usage.{ToolCallDelta, ProviderChunk}
use cyrene_exchange.Gateway.Messages.{
  calls_of, assemble_message, keep_or_set, new_accumulator, append_seen, Accumulator, Message,
  merge, merge_call, merge_calls,
}
use cyrene_exchange.Outbox.Results.{value_error, guard, ok, Result, >>=-eq-ok}

-- The indices ascend.
abbrev pub IsSorted : List Accumulator → Type 0
IsSorted [] = Unit
IsSorted (x ∷ xs) = All (λ y. x.index < y.index) xs × IsSorted xs

-- A text of the call with an index
abbrev pub text_of : (Accumulator → Option String) → ℕ → List Accumulator → Option String
text_of f index [] = none
text_of f index (x ∷ xs) = if x.index == index then f x else text_of f index xs

-- The fragments of the call with an index, joined in the order of their arrival
abbrev pub joined :
    (ToolCallDelta → Option String) → ℕ → Option String → List ToolCallDelta → Option String
joined f index known [] = known
joined f index known (d ∷ ds) =
    joined f index (if d.index == index then append_seen known (f d) else known) ds

merge_lem :
    (a : Accumulator) (d : ToolCallDelta) (b : Accumulator)
    → merge a d ≡ ok b
    → (b.index ≡ a.index)
      × (b.function_name ≡ append_seen a.function_name d.function_name)
      × (b.function_arguments ≡ append_seen a.function_arguments d.function_arguments)
unfolding merge
merge_lem a d b h =
    let (u, e1, h1) =
      >>=-eq-ok
        (guard (d.index == a.index)
          (value_error "provider tool-call index changed during assembly"))
        _ h in
    let (v, e2, h2) =
      >>=-eq-ok (keep_or_set "provider returned conflicting tool-call ids" a.call_id d.id) _ h1 in
    let (w, e3, h3) =
      >>=-eq-ok (keep_or_set "provider returned conflicting tool-call types" a.call_type d.type) _
        h2 in
    (cc, cc, cc)

merge-index :
    (a : Accumulator) (d : ToolCallDelta) (b : Accumulator) → merge a d ≡ ok b → b.index ≡ a.index
merge-index a d b h = (merge_lem a d b h).0

listed : {a b : List Accumulator} → ◌≡◌ {A = Result (List Accumulator)} (ok a) (ok b) → b ≡ a
listed h = cc

-- The three ways of `setdefault`
merge_call-cases :
    (x : Accumulator) (xs : List Accumulator) (d : ToolCallDelta) (acc : List Accumulator)
    → merge_call (x ∷ xs) d ≡ ok acc
    → ((d.index < x.index)
        × ((a : Accumulator) × (merge (new_accumulator d.index) d ≡ ok a) × (acc ≡ a ∷ x ∷ xs)))
      ⊎ (d.index ≡ x.index) × ((a : Accumulator) × (merge x d ≡ ok a) × (acc ≡ a ∷ xs))
      ⊎ (x.index < d.index) × ((ys : List Accumulator) × (merge_call xs d ≡ ok ys) × (acc ≡ x ∷ ys))
unfolding merge_call
merge_call-cases x xs d acc h = elim (Bool-cases (ltb d.index x.index)) [
  | inl e ↦
      let (a, made, end) =
        >>=-eq-ok (merge (new_accumulator d.index) d) _ (rw (e, merge_call) at h) in
      inl (ground arith, (a, made, listed end))
  | inr e ↦ elim (Bool-cases (d.index == x.index)) [
    | inl k ↦
        let (a, made, end) = >>=-eq-ok (merge x d) _ (rw (e, k, merge_call) at h) in
        inr (inl (ground arith, (a, made, listed end)))
    | inr k ↦
        let (ys, made, end) = >>=-eq-ok (merge_call xs d) _ (rw (e, k, merge_call) at h) in
        inr (inr (ground arith, (ys, made, listed end)))
  ]
]

merge_call-new :
    (d : ToolCallDelta) (acc : List Accumulator)
    → merge_call [] d ≡ ok acc
    → (a : Accumulator) × (merge (new_accumulator d.index) d ≡ ok a) × (acc ≡ a ∷ [])
unfolding merge_call
merge_call-new d acc h =
    let (a, made, end) = >>=-eq-ok (merge (new_accumulator d.index) d) _ h in (a, made, listed end)

merge_call-All :
    (n : ℕ) (acc : List Accumulator) (d : ToolCallDelta) (acc' : List Accumulator)
    → merge_call acc d ≡ ok acc'
    → n < d.index
    → All (λ y. n < y.index) acc
    → All (λ y. n < y.index) acc'
merge_call-All n [] d acc' h less all =
    let (a, made, end) = merge_call-new d acc' h in rw (end, merge-index _ d a made) (less, tt)
merge_call-All n (x ∷ xs) d acc' h less all = elim (merge_call-cases x xs d acc' h) [
  | inl (lt, (a, made, end)) ↦ rw (end, merge-index _ d a made) (less, all)
  | inr (inl (eq, (a, made, end))) ↦ rw (end, merge-index x d a made) all
  | inr (inr (gt, (ys, made, end))) ↦ rw end (all.0, merge_call-All n xs d ys made less all.1)
]

less_eq : {a d x : ℕ} → a ≡ d → d < x → a < x
less_eq e h = omega arith

less_trans : {a d x y : ℕ} → a ≡ d → d < x → x < y → a < y
less_trans e h k = omega arith

merge_call-IsSorted :
    (acc : List Accumulator) (d : ToolCallDelta) (acc' : List Accumulator)
    → merge_call acc d ≡ ok acc'
    → IsSorted acc
    → IsSorted acc'
merge_call-IsSorted [] d acc' h s = let (a, made, end) = merge_call-new d acc' h in rw end (tt, tt)
merge_call-IsSorted (x ∷ xs) d acc' h s = elim (merge_call-cases x xs d acc' h) [
  | inl (lt, (a, made, end)) ↦
      let same = merge-index _ d a made in
      rw end ((less_eq same lt, All-map xs (λ y k. less_trans same lt k) s.0), s)
  | inr (inl (eq, (a, made, end))) ↦ rw (end, merge-index x d a made) s
  | inr (inr (gt, (ys, made, end))) ↦
      rw end (merge_call-All x.index xs d ys made gt s.0, merge_call-IsSorted xs d ys made s.1)
]

module _ (f : Accumulator → Option String) (g : ToolCallDelta → Option String)
    (reads : (a : Accumulator) (d : ToolCallDelta) (b : Accumulator)
      → merge a d ≡ ok b
      → f b ≡ append_seen (f a) (g d))
    (starts : (n : ℕ) → f (new_accumulator n) ≡ none) where
  absent-text_of :
      (n : ℕ) (xs : List Accumulator) → All (λ y. n < y.index) xs → text_of f n xs ≡ none
  absent-text_of n [] h = refl
  absent-text_of n (x ∷ xs) h =
      let later = h.0 in
      let differ : (x.index == n) ≡ false = ground arith in rw differ (absent-text_of n xs h.1)

  new-text_of :
      (d : ToolCallDelta) (a : Accumulator) (xs : List Accumulator) (i : ℕ)
      → merge (new_accumulator d.index) d ≡ ok a
      → All (λ y. d.index < y.index) xs
      → text_of f i (a ∷ xs)
        ≡ (if d.index == i then append_seen (text_of f i xs) (g d) else text_of f i xs)
  new-text_of d a xs i h later =
      let own : (a.index == i) ≡ (d.index == i) = ap (λ n. n == i) (merge-index _ d a h) in
      elim (Bool-cases (d.index == i)) [
        | inr e ↦ let off = own ∙ e in rw (off, e) refl
        | inl e ↦
            let on = own ∙ e in
            let none_yet : text_of f i xs ≡ none =
              absent-text_of i xs
                (subst (λ n. All (λ y. n < y.index) xs) ((==_iff d.index i).0 e) later) in
            rw (on, e, none_yet)
              (reads _ d a h ∙ ap (λ known. append_seen known (g d)) (starts d.index))
      ]

  merge_call-text_of :
      (acc : List Accumulator) (d : ToolCallDelta) (acc' : List Accumulator) (i : ℕ)
      → merge_call acc d ≡ ok acc'
      → IsSorted acc
      → text_of f i acc'
        ≡ (if d.index == i then append_seen (text_of f i acc) (g d) else text_of f i acc)
  merge_call-text_of [] d acc' i h s =
      let (a, made, end) = merge_call-new d acc' h in rw end (new-text_of d a [] i made tt)
  merge_call-text_of (x ∷ xs) d acc' i h s = elim (merge_call-cases x xs d acc' h) [
    | inl (lt, (a, made, end)) ↦
        rw end (new-text_of d a (x ∷ xs) i made (lt, All-map xs (λ y k. omega arith) s.0))
    | inr (inl (eq, (a, made, end))) ↦
        let own : (a.index == i) ≡ (x.index == i) = ap (λ n. n == i) (merge-index x d a made) in
        let same : (d.index == i) ≡ (x.index == i) = ap (λ n. n == i) eq in
        rw end (elim (Bool-cases (x.index == i)) [
          | inl e ↦ let on = own ∙ e in let hit = same ∙ e in rw (on, hit, e) (reads x d a made)
          | inr e ↦ let off = own ∙ e in let miss = same ∙ e in rw (off, miss, e) refl
        ])
    | inr (inr (gt, (ys, made, end))) ↦ rw end (elim (Bool-cases (x.index == i)) [
      | inr e ↦ rw e (merge_call-text_of xs d ys i made s.1)
      | inl e ↦ let differ : (d.index == i) ≡ false = ground arith in rw (e, differ) refl
    ])
  ]

  merge_calls-text_of :
      (acc : List Accumulator) (ds : List ToolCallDelta) (acc' : List Accumulator) (i : ℕ)
      → merge_calls acc ds ≡ ok acc'
      → IsSorted acc
      → text_of f i acc' ≡ joined g i (text_of f i acc) ds
  unfolding merge_calls
  merge_calls-text_of acc [] acc' i h s = ap (text_of f i) (listed h)
  merge_calls-text_of acc (d ∷ ds) acc' i h s =
      let (mid, one, rest) = >>=-eq-ok (merge_call acc d) _ h in
      merge_calls-text_of mid ds acc' i rest (merge_call-IsSorted acc d mid one s)
      ∙ ap (λ known. joined g i known ds) (merge_call-text_of acc d mid i one s)

merge_calls-IsSorted :
    (acc : List Accumulator) (ds : List ToolCallDelta) (acc' : List Accumulator)
    → merge_calls acc ds ≡ ok acc'
    → IsSorted acc
    → IsSorted acc'
unfolding merge_calls
merge_calls-IsSorted acc [] acc' h s = rw (listed h) s
merge_calls-IsSorted acc (d ∷ ds) acc' h s =
    let (mid, one, rest) = >>=-eq-ok (merge_call acc d) _ h in
    merge_calls-IsSorted mid ds acc' rest (merge_call-IsSorted acc d mid one s)

messaged : {a b : Message} → ◌≡◌ {A = Result Message} (ok a) (ok b) → b ≡ a
messaged h = cc

-- A message that is assembled lists the tool calls by ascending index; the name and the arguments of
-- the call with an index are all fragments of that index, joined in the order of the chunks.
pub assemble_message-joined :
    (cs : List ProviderChunk) (m : Message) (i : ℕ)
    → assemble_message cs ≡ ok m
    → IsSorted m.tool_calls
      × (text_of (λ a. a.function_name) i m.tool_calls
          ≡ joined (λ d. d.function_name) i none (calls_of cs))
      × (text_of (λ a. a.function_arguments) i m.tool_calls
          ≡ joined (λ d. d.function_arguments) i none (calls_of cs))
unfolding assemble_message
assemble_message-joined cs m i h =
    let (acc, done, end) = >>=-eq-ok (merge_calls [] (calls_of cs)) _ h in
    rw (messaged end) (
      merge_calls-IsSorted [] (calls_of cs) acc done tt,
      merge_calls-text_of (λ a. a.function_name) (λ d. d.function_name)
          (λ a d b k. (merge_lem a d b k).1) (λ n. refl) [] (calls_of cs) acc i done tt,
      merge_calls-text_of (λ a. a.function_arguments) (λ d. d.function_arguments)
          (λ a d b k. (merge_lem a d b k).2) (λ n. refl) [] (calls_of cs) acc i done tt,
    )
