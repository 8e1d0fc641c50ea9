-- ===== src/Inspection/Sse/Responses.antt =====
-- inspection/engine.py: the events of responses.
use ai_security_gateway.Base.{
  String, Bool, true, false, ◌&&◌, ◌||◌, not, Option, none, some, List, [], ◌∷◌, str_eq, contains,
  if◌then◌else◌,
}
use ai_security_gateway.Base.Result.{Result, ok, ◌>>=◌, ◌>>◌}
use ai_security_gateway.Inspection.Json.{Json, str, arr, obj, nil, Fields, member}
use ai_security_gateway.Inspection.Contracts.{Raised}
use ai_security_gateway.Inspection.Sse.{refuse, as_dict, is_str, index}

-- `response_deltas` and `response_static`
abbrev pub response_deltas : List String
response_deltas =
    "response.output_text.delta" ∷ "response.refusal.delta"
    ∷ "response.function_call_arguments.delta" ∷ []

abbrev pub response_static : List String
response_static =
    "response.created" ∷ "response.in_progress" ∷ "response.completed" ∷ "response.failed"
    ∷ "response.output_item.added" ∷ "response.output_item.done" ∷ "response.content_part.added"
    ∷ "response.content_part.done" ∷ "response.output_text.done" ∷ "response.refusal.done"
    ∷ "response.function_call_arguments.done" ∷ []

-- `raise` unless the member is an index.
abbrev need_index : Option Json → Result Raised (Unit {0})
need_index v = index v >>= λ n. ok tt

unfoldable pub check_delta : String → Fields → Result Raised (Unit {0})
check_delta event_type value = do
  refuse (not (is_str (member "delta" value)) || not (is_str (member "item_id" value)))
      "unsupported_sse_delta"
  need_index (member "output_index" value)
  if str_eq event_type "response.function_call_arguments.delta"
      then ok tt
      else need_index (member "content_index" value)

abbrev is_message : Option Json → Bool
is_message (some (str t)) = str_eq t "message"
is_message _ = false

-- `item.get("content", []) != []`
abbrev has_content : Option Json → Bool
has_content none = false
has_content (some (arr nil)) = false
has_content (some j) = true

unfoldable pub check_item : Fields → Result Raised (Unit {0})
check_item value = do
  item ← as_dict "unsupported_sse_schema" (member "item" value)
  refuse (not (is_str (member "id" item))) "unsupported_sse_schema"
  need_index (member "output_index" value)
  refuse (is_message (member "type" item) && has_content (member "content" item))
      "unsupported_sse_initial_content"

abbrev is_dict : Option Json → Bool
is_dict (some (obj fs)) = true
is_dict _ = false

unfoldable pub check_part : Fields → Result Raised (Unit {0})
check_part value = do
  refuse (not (is_str (member "item_id" value)) || not (is_dict (member "part" value)))
      "unsupported_sse_schema"
  need_index (member "output_index" value)
  need_index (member "content_index" value)

unfoldable pub check_event : String → Fields → Result Raised (Unit {0})
check_event event_type value = do
  (if contains response_deltas event_type then check_delta event_type value else ok tt)
  (if str_eq event_type "response.output_item.added" then check_item value else ok tt)
  (if str_eq event_type "response.content_part.added" then check_part value else ok tt)

-- An event of the types above: whether it ends the stream.
unfoldable pub responses_event : String → Fields → Result Raised Bool
responses_event event_type value = do
  check_event event_type value
  ok (str_eq event_type "response.completed" || str_eq event_type "response.failed")
