-- ===== src/Inspection/Sse/Lanes.antt =====
-- inspection/engine.py: the lanes of `_redact_sse` (`select_lane`). A lane is what the texts share that
-- are one text cut into several events.
use ai_security_gateway.Base.{
  ℕ, String, Bool, true, false, ◌&&◌, ◌||◌, not, Option, none, some, List, [], ◌∷◌, str_eq, ◌==◌,
  contains, if◌then◌else◌,
}
use ai_security_gateway.Base.Result.{Result, ok, err, ◌>>=◌}
use ai_security_gateway.Inspection.Json.{Json, int, str, obj, ℤ, pos, Fields, member}
use ai_security_gateway.Inspection.Contracts.{Raised, other_exception}
use ai_security_gateway.Inspection.Llm.{path_eq}
use ai_security_gateway.Inspection.Session.{is_empty}
use ai_security_gateway.Inspection.Sse.{Family, chat, responses, anthropic, gemini, mcp, index}
use ai_security_gateway.Inspection.Sse.Responses.{response_deltas}

pub data Kind : Type 0 where
  text json structural : Kind

-- A tuple of a tag, the number of the event in some lanes, and texts.
pub record Lane : Type 0 where
  pub tag : String
  pub ordinal : Option ℕ
  pub names : List String

abbrev pub lane_of : String → List String → Lane
lane_of tag names = record { tag = tag; ordinal = none; names = names }

unfoldable pub same_kind : Kind → Kind → Bool
same_kind text text = true
same_kind json json = true
same_kind structural structural = true
same_kind _ _ = false

unfoldable pub same_ordinal : Option ℕ → Option ℕ → Bool
same_ordinal none none = true
same_ordinal (some m) (some n) = m == n
same_ordinal _ _ = false

unfoldable pub same_lane : Lane → Lane → Bool
same_lane a b = str_eq a.tag b.tag && same_ordinal a.ordinal b.ordinal && path_eq a.names b.names

abbrev structural_names : List String
structural_names =
    "id" ∷ "type" ∷ "object" ∷ "model" ∷ "role" ∷ "name" ∷ "item_id" ∷ "call_id" ∷ "tool_use_id"
    ∷ "finish_reason" ∷ "signature" ∷ "finishReason" ∷ "modelVersion" ∷ "responseId" ∷ []

-- `path[-1]`
unfoldable pub last_name : List String → String
last_name [] = ""
last_name (k ∷ []) = k
last_name (k ∷ l ∷ ks) = last_name (l ∷ ks)

abbrev Choice : Type 0
Choice = Option (Lane × Kind)

abbrev arguments_kind : String → Kind
arguments_kind k = if str_eq k "arguments" then json else structural

-- Under a choice's delta.
unfoldable pub chat_lane : List String → Choice
chat_lane (a ∷ i ∷ b ∷ k ∷ rest) =
    let last = last_name (k ∷ rest) in
    if not (str_eq a "choices" && str_eq b "delta")
    then none
    else if contains ("content" ∷ "refusal" ∷ []) k && is_empty rest
    then some (lane_of "chat" (i ∷ k ∷ []), text)
    else if str_eq k "function_call" && contains ("name" ∷ "arguments" ∷ []) last
    then some (lane_of "chat" (i ∷ k ∷ rest), arguments_kind last)
    else if str_eq k "tool_calls" && contains ("name" ∷ "arguments" ∷ "id" ∷ []) last
    then some (lane_of "chat" (i ∷ k ∷ rest), arguments_kind last)
    else none
chat_lane _ = none

unfoldable pub gemini_lane : List String → Choice
gemini_lane (a ∷ i ∷ b ∷ c ∷ j ∷ d ∷ []) =
    if path_eq (a ∷ b ∷ c ∷ d ∷ []) ("candidates" ∷ "content" ∷ "parts" ∷ "text" ∷ [])
    then some (lane_of "gemini" (i ∷ j ∷ []), text)
    else none
gemini_lane _ = none

unfoldable pub mcp_lane : ℕ → List String → Choice
mcp_lane ordinal (a ∷ b ∷ i ∷ c ∷ []) =
    if path_eq (a ∷ b ∷ c ∷ []) ("result" ∷ "content" ∷ "text" ∷ [])
    then some (record { tag = "mcp"; ordinal = some ordinal; names = "content_text" ∷ [] }, text)
    else none
mcp_lane ordinal _ = none

-- A text that the checks of the event have found.
abbrev text_at : Option Json → Result Raised String
text_at (some (str t)) = ok t
text_at _ = err other_exception

abbrev fields_at : Option Json → Result Raised Fields
fields_at (some (obj fs)) = ok fs
fields_at _ = err other_exception

-- The names of integers and of other values: Python's `str`.
module _ (number_text : ℤ → String) (str_of : Json → String) where
  abbrev index_text : Option Json → Result Raised String
  index_text v = index v >>= λ n. ok (number_text (pos n))

  -- `str(value.get("content_index", ""))`
  abbrev content_index : Option Json → String
  content_index none = ""
  content_index (some (int i)) = number_text i
  content_index (some (str t)) = t
  content_index (some j) = str_of j

  abbrev delta_kind : String → Kind
  delta_kind event_type =
      if str_eq event_type "response.function_call_arguments.delta" then json else text

  unfoldable pub delta_lane : String → Fields → Result Raised Choice
  delta_lane event_type value = do
    item ← text_at (member "item_id" value)
    output ← index_text (member "output_index" value)
    ok (
        some (
          lane_of "responses"
              (item ∷ output ∷ content_index (member "content_index" value) ∷ event_type ∷ []),
          delta_kind event_type,
        ))

  unfoldable pub item_lane : Fields → Result Raised Choice
  item_lane value = do
    item ← fields_at (member "item" value)
    id ← text_at (member "id" item)
    output ← index_text (member "output_index" value)
    ok (
        some (
          lane_of "responses" (id ∷ output ∷ "" ∷ "response.function_call_arguments.delta" ∷ []),
          json,
        ))

  unfoldable pub part_lane : String → Fields → Result Raised Choice
  part_lane last value = do
    item ← text_at (member "item_id" value)
    output ← index_text (member "output_index" value)
    content ← index_text (member "content_index" value)
    ok (
        some (
          lane_of "responses" (
              item
              ∷ output
              ∷ content
              ∷ (if str_eq last "text"
                  then "response.output_text.delta"
                  else "response.refusal.delta")
              ∷ []),
          text,
        ))

  unfoldable pub responses_lane : String → Fields → List String → Result Raised Choice
  responses_lane event_type value path =
      if contains response_deltas event_type && path_eq path ("delta" ∷ [])
      then delta_lane event_type value
      else if str_eq event_type "response.output_item.added"
          && path_eq path ("item" ∷ "arguments" ∷ [])
      then item_lane value
      else if str_eq event_type "response.content_part.added"
          && (path_eq path ("part" ∷ "text" ∷ []) || path_eq path ("part" ∷ "refusal" ∷ []))
      then part_lane (last_name path) value
      else ok none

  abbrev block_kind : String → Kind
  block_kind name =
      if str_eq name "partial_json"
      then json
      else if contains ("thinking" ∷ "signature" ∷ []) name
      then structural
      else text

  unfoldable pub anthropic_lane : String → Fields → List String → Result Raised Choice
  anthropic_lane event_type value (a ∷ name ∷ []) =
      if (str_eq event_type "content_block_delta"
          && str_eq a "delta"
          && contains ("text" ∷ "thinking" ∷ "partial_json" ∷ "signature" ∷ []) name)
        || (str_eq event_type "content_block_start"
            && str_eq a "content_block"
            && contains ("text" ∷ "thinking" ∷ []) name)
      then index_text (member "index" value)
        >>= (λ i. ok (some (lane_of "anthropic" (i ∷ name ∷ []), block_kind name)))
      else ok none
  anthropic_lane event_type value _ = ok none

  -- The type of an event that has one.
  abbrev type_or_empty : Option Json → String
  type_or_empty (some (str t)) = t
  type_or_empty _ = ""

  unfoldable pub family_lane : Family → Fields → ℕ → List String → Result Raised Choice
  family_lane chat value ordinal path = ok (chat_lane path)
  family_lane gemini value ordinal path = ok (gemini_lane path)
  family_lane mcp value ordinal path = ok (mcp_lane ordinal path)
  family_lane responses value ordinal path =
      responses_lane (type_or_empty (member "type" value)) value path
  family_lane anthropic value ordinal path =
      anthropic_lane (type_or_empty (member "type" value)) value path

  abbrev has_arguments : Family → Bool
  has_arguments chat = true
  has_arguments responses = true
  has_arguments _ = false

  -- The lane of a text that its family does not name.
  unfoldable pub default_kind : Family → String → Kind
  default_kind family last =
      if str_eq last "arguments" && has_arguments family
      then json
      else if contains structural_names last
      then structural
      else text

  -- `select_lane`
  unfoldable pub select_lane : Family → Fields → ℕ → List String → Result Raised (Lane × Kind)
  select_lane family value ordinal path = do
    choice ← family_lane family value ordinal path
    ok (elim choice [
      | some chosen ↦ chosen
      | none ↦ (
        record { tag = "event"; ordinal = some ordinal; names = path },
        default_kind family (last_name path),
      )
    ])
