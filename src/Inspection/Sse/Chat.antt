-- ===== src/Inspection/Sse/Chat.antt =====
-- inspection/engine.py: the events of chat completions.
use ai_security_gateway.Base.{Bool, true, false, ◌&&◌, not, Option, none, some, [], ◌∷◌, str_eq}
use ai_security_gateway.Base.Result.{Result, ok, err, ◌>>=◌, ◌>>◌}
use ai_security_gateway.Inspection.Json.{Json, str, arr, Items, nil, cons, Fields, member}
use ai_security_gateway.Inspection.Contracts.{Raised, inspection_error}
use ai_security_gateway.Inspection.Sse.{refuse, as_dict, is_optional_str, has_only}

-- `value.get("object", "chat.completion.chunk") != "chat.completion.chunk"`
unfoldable pub is_chunk : Option Json → Bool
is_chunk none = true
is_chunk (some (str t)) = str_eq t "chat.completion.chunk"
is_chunk _ = false

unfoldable pub check_choice : Json → Result Raised (Unit {0})
check_choice choice = do
  members ← as_dict "unsupported_sse_schema" (some choice)
  delta ← as_dict "unsupported_sse_schema" (member "delta" members)
  refuse
      (not (has_only ("role" ∷ "content" ∷ "refusal" ∷ "function_call" ∷ "tool_calls" ∷ []) delta))
      "unsupported_sse_delta"
  refuse
      (not (
        is_optional_str (member "content" delta)
        && is_optional_str (member "refusal" delta)
        && is_optional_str (member "role" delta)))
      "unsupported_sse_delta"

unfoldable pub check_choices : Items → Result Raised (Unit {0})
check_choices nil = ok tt
check_choices (cons choice more) = check_choice choice >> check_choices more

-- An event with the member "choices".
unfoldable pub chat_event : Json → Fields → Result Raised (Unit {0})
chat_event (arr choices) value = do
  refuse (not (is_chunk (member "object" value))) "unsupported_sse_schema"
  check_choices choices
chat_event _ value = err (inspection_error "unsupported_sse_schema")
