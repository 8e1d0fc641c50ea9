-- ===== src/Inspection/Sse/Anthropic.antt =====
-- inspection/engine.py: the events of messages, whose content blocks are opened and closed by index.
use ai_security_gateway.Base.{
  ℕ, String, Bool, true, false, ◌&&◌, ◌||◌, not, Option, none, some, List, [], ◌∷◌, str_eq,
  if◌then◌else◌,
}
use ai_security_gateway.Base.Result.{Result, ok, err, ◌>>=◌, ◌>>◌}
use ai_security_gateway.Inspection.Json.{Json, obj, Fields, end, member}
use ai_security_gateway.Inspection.Contracts.{Raised, inspection_error}
use ai_security_gateway.Inspection.Sse.{
  StreamState, refuse, as_dict, as_type, is_str, is_one_of, index, has_only, has_index, add, remove,
}

abbrev pub anthropic_types : List String
anthropic_types =
    "message_start" ∷ "content_block_start" ∷ "content_block_delta" ∷ "content_block_stop"
    ∷ "message_delta" ∷ "message_stop" ∷ "ping" ∷ []

-- `block.get("input", {}) != {}`
abbrev has_input : Option Json → Bool
has_input none = false
has_input (some (obj end)) = false
has_input (some j) = true

-- `message_start`, and any other event before it but `ping`.
unfoldable pub begin : String → StreamState → Result Raised StreamState
begin event_type s =
    if str_eq event_type "message_start"
    then (if s.anthropic_started
        then err (inspection_error "unexpected_sse_message_start")
        else ok (record s { anthropic_started = true }))
    else if not (str_eq event_type "ping") && not s.anthropic_started
    then err (inspection_error "incomplete_sse_stream")
    else ok s

-- `content_block_start` of an index.
unfoldable pub open_block : ℕ → Fields → StreamState → Result Raised StreamState
open_block n value s = do
  block ← as_dict "unsupported_sse_content_block" (member "content_block" value)
  kind ← as_type (member "type" block)
  refuse (not (is_one_of ("text" ∷ "thinking" ∷ "tool_use" ∷ "server_tool_use" ∷ []) kind))
      "unsupported_sse_content_block"
  refuse (has_index n s.anthropic_seen) "unexpected_sse_content_block"
  refuse (is_one_of ("tool_use" ∷ "server_tool_use" ∷ []) kind && has_input (member "input" block))
      "unsupported_sse_initial_content"
  ok (record s { anthropic_open = add n s.anthropic_open; anthropic_seen = add n s.anthropic_seen })

-- `content_block_stop` of an index.
unfoldable pub close_block : ℕ → StreamState → Result Raised StreamState
close_block n s =
    if has_index n s.anthropic_open
    then ok (record s { anthropic_open = remove n s.anthropic_open })
    else err (inspection_error "incomplete_sse_stream")

-- `delta_fields.get(type)`
unfoldable pub delta_field : Option String → Option String
delta_field none = none
delta_field (some t) =
    if str_eq t "text_delta"
    then some "text"
    else if str_eq t "thinking_delta"
    then some "thinking"
    else if str_eq t "input_json_delta"
    then some "partial_json"
    else if str_eq t "signature_delta"
    then some "signature"
    else none

-- `content_block_delta` of an index.
unfoldable pub check_delta : ℕ → Fields → StreamState → Result Raised StreamState
check_delta n value s = do
  refuse (not (has_index n s.anthropic_open)) "incomplete_sse_stream"
  delta ← as_dict "unsupported_sse_delta" (member "delta" value)
  kind ← as_type (member "type" delta)
  elim (delta_field kind) [
    | none ↦ err (inspection_error "unsupported_sse_delta")
    | some f ↦ do
      refuse (not (has_only ("type" ∷ f ∷ []) delta) || not (is_str (member f delta)))
          "unsupported_sse_delta"
      ok s
  ]

-- The events of content blocks, and the others.
unfoldable pub block_event : String → Fields → StreamState → Result Raised StreamState
block_event event_type value s =
    if str_eq event_type "content_block_start"
    then index (member "index" value) >>= (λ n. open_block n value s)
    else if str_eq event_type "content_block_stop"
    then index (member "index" value) >>= (λ n. close_block n s)
    else if str_eq event_type "content_block_delta"
    then index (member "index" value) >>= (λ n. check_delta n value s)
    else ok s

abbrev pub has_open : List ℕ → Bool
has_open [] = false
has_open (n ∷ ns) = true

-- An event of the types above: the state after it, and whether it ends the stream.
unfoldable pub anthropic_event : String → Fields → StreamState → Result Raised (Bool × StreamState)
anthropic_event event_type value s = do
  started ← begin event_type s
  after ← block_event event_type value started
  refuse (str_eq event_type "message_stop" && has_open after.anthropic_open) "incomplete_sse_stream"
  ok (str_eq event_type "message_stop", after)
