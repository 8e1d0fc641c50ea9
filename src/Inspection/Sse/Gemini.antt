-- ===== src/Inspection/Sse/Gemini.antt =====
-- inspection/engine.py: the events with candidates, which finish by index. Whether the text of a float is
-- zero is a parameter.
use ai_security_gateway.Base.{
  ℕ, String, Bool, true, false, ◌&&◌, not, Option, none, some, [], ◌∷◌, ◌==◌, is_set, if◌then◌else◌,
}
use ai_security_gateway.Base.Result.{Result, ok, err, ◌>>=◌, ◌>>◌}
use ai_security_gateway.Inspection.Json.{
  Json, null, bool, int, float, str, arr, obj, pos, negsuc, Items, nil, cons, Fields, end, field,
  member,
}
use ai_security_gateway.Inspection.Contracts.{Raised, inspection_error}
use ai_security_gateway.Inspection.Sse.{
  StreamState, refuse, as_dict, is_str, index, has_only, has_index, add,
}

abbrev has_items : Items → Bool
has_items nil = false
has_items (cons j js) = true

-- The member, where a missing one counts as a list or a dict without members.
unfoldable pub list_or_empty : Option Json → Result Raised Items
list_or_empty none = ok nil
list_or_empty (some (arr js)) = ok js
list_or_empty _ = err (inspection_error "unsupported_sse_schema")

unfoldable pub dict_or_empty : String → Option Json → Result Raised Fields
dict_or_empty code none = ok end
dict_or_empty code (some (obj fs)) = ok fs
dict_or_empty code _ = err (inspection_error code)

-- `"functionCall" in part`
unfoldable pub check_call : Option Json → Result Raised (Unit {0})
check_call none = ok tt
check_call (some j) = do
  call ← as_dict "unsupported_sse_delta" (some j)
  refuse (not (has_only ("name" ∷ "args" ∷ "id" ∷ []) call)) "unsupported_sse_delta"
  args ← dict_or_empty "unsupported_sse_delta" (member "args" call)
  ok tt

abbrev is_missing_or_str : Option Json → Bool
is_missing_or_str none = true
is_missing_or_str (some j) = is_str (some j)

unfoldable pub check_part : Json → Result Raised (Unit {0})
check_part j = do
  part ← as_dict "unsupported_sse_encoded_payload" (some j)
  refuse (not (has_only ("text" ∷ "functionCall" ∷ "thought" ∷ []) part))
      "unsupported_sse_encoded_payload"
  refuse (not (is_missing_or_str (member "text" part))) "unsupported_sse_delta"
  check_call (member "functionCall" part)

unfoldable pub check_parts : Items → Result Raised (Unit {0})
check_parts nil = ok tt
check_parts (cons part more) = check_part part >> check_parts more

-- `index(candidate.get("index", 0))`
abbrev candidate_index : Option Json → Result Raised ℕ
candidate_index none = ok 0
candidate_index (some j) = index (some j)

module _ (is_zero : String → Bool) where
  -- The truth value of a member; one that is missing is `None`.
  unfoldable pub is_truthy : Option Json → Bool
  is_truthy none = false
  is_truthy (some null) = false
  is_truthy (some (bool b)) = b
  is_truthy (some (int (pos n))) = not (n == 0)
  is_truthy (some (int (negsuc n))) = true
  is_truthy (some (float t)) = not (is_zero t)
  is_truthy (some (str t)) = is_set t
  is_truthy (some (arr js)) = has_items js
  is_truthy (some (obj end)) = false
  is_truthy (some (obj (field k j fs))) = true

  unfoldable pub candidate_event : Json → StreamState → Result Raised StreamState
  candidate_event j s = do
    candidate ← as_dict "unsupported_sse_schema" (some j)
    number ← candidate_index (member "index" candidate)
    content ← dict_or_empty "unsupported_sse_schema" (member "content" candidate)
    parts ← list_or_empty (member "parts" content)
    refuse (has_index number s.gemini_finished && has_items parts) "sse_data_after_terminal"
    check_parts parts
    let finished =
        if is_truthy (member "finishReason" candidate)
        then add number s.gemini_finished
        else s.gemini_finished
    ok (record s { gemini_seen = add number s.gemini_seen; gemini_finished = finished })

  unfoldable pub candidates_event : Items → StreamState → Result Raised StreamState
  candidates_event nil s = ok s
  candidates_event (cons j more) s = candidate_event j s >>= λ t. candidates_event more t

  -- An event with candidates or with the use of tokens.
  unfoldable pub gemini_event : Fields → StreamState → Result Raised StreamState
  gemini_event value s = do
    candidates ← list_or_empty (member "candidates" value)
    candidates_event candidates s
