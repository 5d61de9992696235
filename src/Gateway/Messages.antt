-- ===== src/Gateway/Messages.antt =====
-- The completed message: `_ToolCallAccumulator` and `_assemble_message` of
-- src/cyrene_exchange/gateway.py.
use cyrene_exchange.Prelude.{
  ◌==◌, str_eq, ltb, ◌^+◌, if◌then◌else◌, [], ◌∷◌, none, some, ℕ, List, Option, String, ◌++◌,
}
use cyrene_exchange.Gateway.Usage.{ToolCallDelta, ProviderChunk}
use cyrene_exchange.Outbox.Results.{value_error, guard, ok, err, Result, ◌>>=◌, ◌>>◌}

-- `_ToolCallAccumulator`; a text is seen when it is not `none`.
pub record Accumulator : Type 0 where
  pub index : ℕ
  pub call_id : Option String
  pub call_type : Option String
  pub function_name : Option String
  pub function_arguments : Option String

abbrev pub new_accumulator : ℕ → Accumulator
new_accumulator index = record {
  index = index;
  call_id = none;
  call_type = none;
  function_name = none;
  function_arguments = none;
}

-- `raise ProviderFailureError` on a change of a value that is known
abbrev pub keep_or_set : String → Option String → Option String → Result (Option String)
keep_or_set message known none = ok known
keep_or_set message none (some value) = ok (some value)
keep_or_set message (some old) (some value) =
    if str_eq old value then ok (some value) else err (value_error message)

-- `text += fragment`, and the flag that a fragment was seen
abbrev pub append_seen : Option String → Option String → Option String
append_seen known none = known
append_seen none (some fragment) = some fragment
append_seen (some text) (some fragment) = some (text ^+ fragment)

unfoldable pub merge : Accumulator → ToolCallDelta → Result Accumulator
merge a d = do
  guard (d.index == a.index) (value_error "provider tool-call index changed during assembly")
  call_id ← keep_or_set "provider returned conflicting tool-call ids" a.call_id d.id
  call_type ← keep_or_set "provider returned conflicting tool-call types" a.call_type d.type
  ok (record {
    index = a.index;
    call_id = call_id;
    call_type = call_type;
    function_name = append_seen a.function_name d.function_name;
    function_arguments = append_seen a.function_arguments d.function_arguments;
  })

-- `accumulators.setdefault(call.index, …).merge(call)`; the list is the dictionary, in the order of
-- the indices, in which `sorted(accumulators)` reads it.
unfoldable pub merge_call : List Accumulator → ToolCallDelta → Result (List Accumulator)
merge_call [] d = do a ← merge (new_accumulator d.index) d; ok (a ∷ [])
merge_call (x ∷ xs) d =
    let rest = merge_call xs d in
    if ltb d.index x.index
    then (do a ← merge (new_accumulator d.index) d; ok (a ∷ x ∷ xs))
    else if d.index == x.index
    then (do a ← merge x d; ok (a ∷ xs))
    else (do ys ← rest; ok (x ∷ ys))

unfoldable pub merge_calls : List Accumulator → List ToolCallDelta → Result (List Accumulator)
merge_calls acc [] = ok acc
merge_calls acc (d ∷ ds) = do acc' ← merge_call acc d; merge_calls acc' ds

abbrev pub calls_of : List ProviderChunk → List ToolCallDelta
calls_of [] = []
calls_of (c ∷ cs) = c.tool_calls ++ calls_of cs

-- `"".join(chunk.delta for chunk in chunks)`
abbrev pub content_of : List ProviderChunk → String
content_of [] = ""
content_of (c ∷ cs) = c.delta ^+ content_of cs

abbrev pub role_of : List ProviderChunk → String
role_of [] = "assistant"
role_of (c ∷ cs) = elim c.role [ none ↦ role_of cs | some role ↦ role ]

pub record Message : Type 0 where
  pub role : String
  pub content : Option String
  pub tool_calls : List Accumulator

abbrev pub content_or_null : String → List Accumulator → Option String
content_or_null content [] = some content
content_or_null content (a ∷ as') = if str_eq content "" then none else some content

unfoldable pub assemble_message : List ProviderChunk → Result Message
assemble_message cs = do
  accumulators ← merge_calls [] (calls_of cs)
  ok (record {
    role = role_of cs;
    content = content_or_null (content_of cs) accumulators;
    tool_calls = accumulators;
  })
