-- ===== src/Inspection/Sse/Stream.antt =====
-- inspection/engine.py: the loop of `_redact_sse` over the decoded events, as far as it decides whether
-- the stream is complete and of one protocol.
use ai_security_gateway.Base.{
  ℕ, String, Bool, true, false, ◌&&◌, ◌||◌, not, Option, none, some, List, [], ◌∷◌, str_eq,
  contains, if◌then◌else◌,
}
use ai_security_gateway.Base.Result.{Result, ok, err, ◌>>=◌, ◌>>◌}
use ai_security_gateway.Inspection.Json.{Json, str, obj, Fields, member}
use ai_security_gateway.Inspection.Contracts.{Raised, inspection_error}
use ai_security_gateway.Inspection.Sse.{
  Family, chat, responses, anthropic, gemini, mcp, StreamState, initial, refuse, as_type, all_in,
}
use ai_security_gateway.Inspection.Sse.Chat.{chat_event}
use ai_security_gateway.Inspection.Sse.Responses.{response_deltas, response_static, responses_event}
use ai_security_gateway.Inspection.Sse.Anthropic.{anthropic_types, anthropic_event}
use ai_security_gateway.Inspection.Sse.Gemini.{gemini_event}

-- An event: without data, the mark that ends chat completions, or a decoded value with the name that its metadata gives.
pub data Event : Type 0 where
  no_data done : Event
  data_event : Option String → Json → Event

abbrev pub same_family : Family → Family → Bool
same_family chat chat = true
same_family responses responses = true
same_family anthropic anthropic = true
same_family gemini gemini = true
same_family mcp mcp = true
same_family _ _ = false

-- `family is not None and family != current`
abbrev pub is_mixed : Option Family → Family → Bool
is_mixed none current = false
is_mixed (some f) current = not (same_family f current)

abbrev pub has_member : String → Fields → Bool
has_member k fs = elim (member k fs) [ none ↦ false | some j ↦ true ]

abbrev is_json_text : String → Option Json → Bool
is_json_text t (some (str s)) = str_eq s t
is_json_text t _ = false

-- `value.get("jsonrpc") == "2.0"`, with a method, a result or an error.
unfoldable pub is_mcp : Fields → Bool
is_mcp value =
    is_json_text "2.0" (member "jsonrpc" value)
    && (has_member "method" value || has_member "result" value || has_member "error" value)

-- What an event is: its protocol, whether it ends the stream, and the state after its own checks.
abbrev pub Current : Type 0
Current = Family × Bool × StreamState

abbrev pub has_data : Event → Bool
has_data no_data = false
has_data done = true
has_data (data_event name j) = true

abbrev pub needs_terminal : Option Family → Bool
needs_terminal (some chat) = true
needs_terminal (some responses) = true
needs_terminal (some anthropic) = true
needs_terminal _ = false

abbrev pub is_gemini : Option Family → Bool
is_gemini (some gemini) = true
is_gemini _ = false

abbrev pub has_no : List ℕ → Bool
has_no [] = true
has_no (n ∷ ns) = false

-- `metadata.get("event", "message") not in {"message", event_type}`
unfoldable pub is_named_apart : Option String → Option String → Bool
is_named_apart none t = false
is_named_apart (some name) none = not (str_eq name "message")
is_named_apart (some name) (some t) = not (str_eq name "message") && not (str_eq name t)

unfoldable pub done_event : StreamState → Result Raised StreamState
done_event s = do
  refuse (is_mixed s.family chat) "unexpected_sse_terminal"
  ok (record s { family = some chat; terminal = true })

-- After the loop: the protocols with a terminal event have had it, and all candidates have finished.
unfoldable pub finish : StreamState → Result Raised StreamState
finish s = do
  refuse (needs_terminal s.family && not s.terminal) "incomplete_sse_stream"
  refuse
      (is_gemini s.family
        && (has_no s.gemini_seen
            || not
                (all_in s.gemini_seen s.gemini_finished && all_in s.gemini_finished s.gemini_seen)))
      "incomplete_sse_stream"
  ok s

module _ (is_zero : String → Bool) where
  -- The events that are told apart by their members.
  unfoldable pub by_members : Fields → StreamState → Result Raised Current
  by_members value s =
      if has_member "candidates" value || has_member "usageMetadata" value
      then gemini_event is_zero value s >>= (λ t. ok (gemini, false, t))
      else if is_mcp value
      then ok (mcp, false, s)
      else err (inspection_error "unsupported_sse_schema")

  unfoldable pub by_type : Option String → Fields → StreamState → Result Raised Current
  by_type none value s = by_members value s
  by_type (some t) value s =
      if contains response_deltas t || contains response_static t
      then responses_event t value >>= (λ terminal. ok (responses, terminal, s))
      else if contains anthropic_types t
      then anthropic_event t value s >>= (λ after. ok (anthropic, after.0, after.1))
      else by_members value s

  unfoldable pub classify : Fields → StreamState → Result Raised Current
  classify value s = elim (member "choices" value) [
    | some choices ↦ chat_event choices value >>= (λ u. ok (chat, false, s))
    | none ↦ as_type (member "type" value) >>= (λ t. by_type t value s)
  ]

  unfoldable pub value_event : Option String → Fields → StreamState → Result Raised StreamState
  value_event name value s = do
    current ← classify value s
    refuse (is_mixed s.family current.0) "mixed_sse_protocols"
    t ← as_type (member "type" value)
    refuse (is_named_apart name t) "sse_event_type_mismatch"
    ok (record current.2 { family = some current.0; terminal = current.1 })

  unfoldable pub data_step : Event → StreamState → Result Raised StreamState
  data_step no_data s = ok s
  data_step done s = done_event s
  data_step (data_event name (obj value)) s = value_event name value s
  data_step (data_event name _) s = err (inspection_error "unsupported_sse_payload")

  -- One turn of the loop.
  unfoldable pub step : Event → StreamState → Result Raised StreamState
  step e s = do refuse (has_data e && s.terminal) "sse_data_after_terminal"; data_step e s

  unfoldable pub steps : List Event → StreamState → Result Raised StreamState
  steps [] s = ok s
  steps (e ∷ es) s = step e s >>= λ t. steps es t

  -- The loop from the start, and what follows it.
  unfoldable pub accept : List Event → Result Raised StreamState
  accept es = steps es initial >>= finish
