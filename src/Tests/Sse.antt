-- ===== src/Tests/Sse.antt =====
-- The theorems of the event streams at concrete inputs.
use ai_security_gateway.Base.{
  ends_with, ℕ, List, split, text_before, String, ◌≡◌, refl, false, none, some, [], ◌∷◌, ◌⊎◌,
  contains,
}
use ai_security_gateway.Base.Result.{ok}
use ai_security_gateway.Inspection.Json.{
  Json, int, pos, str, arr, obj, nil, cons, end, field, member,
}
use ai_security_gateway.Inspection.Session.{Finding}
use ai_security_gateway.Inspection.Sse.{has_only, as_type, index}
use ai_security_gateway.Inspection.Sse.Stream.{
  value_event, classify, is_named_apart, done_event, finish,
}
use ai_security_gateway.Inspection.Sse.Chat.{chat_event, is_chunk, check_choices, check_choice}
use ai_security_gateway.Inspection.Sse.Lines.{
  without_mark, with_newlines, split_events, join_lines, after_colon, without_blank, read_line,
  read_lines, read_metadata,
}
use ai_security_gateway.Inspection.Sse.{StreamState}
use ai_security_gateway.Inspection.Sse.Reader.{
  Turns, read_stream, read_text, read_events, read_event, read_data, read_some, read_done,
  read_json, read_dict, finish_events, collect_event, checked_value,
}
use ai_security_gateway.Inspection.Sse.Collect.{
  collect, collect_items, collect_fields, check_dict, refuse_found, element_name, is_indexed,
  own_index, collect_number, collect_text, Leaf, key,
}
use ai_security_gateway.Inspection.Sse.Lanes.{
  json, text, last_name, select_lane, family_lane, chat_lane, default_kind,
}
use ai_security_gateway.Inspection.Sse.Edits.{
  edit_groups, edit_group, edit_kind, edit_text, groups_from, add_leaf, mask_edits, cut_edits,
  set_at,
}
use ai_security_gateway.Inspection.Sse.Cut.{replacements, edited_leaves, cut_edits-join}
use ai_security_gateway.Inspection.Llm.{response_timestamp}
use ai_security_gateway.Inspection.Protocol.Headers.{drop_last_two}
use ai_security_gateway.Base.Dict.{get, put}
use ai_security_gateway.Inspection.Sse.Redacted.{
  redact_sse, redact_turns, sent_body, leaves_of, edited,
}
use ai_security_gateway.Inspection.Sse.Blocking.{AreClean, redact_sse-block}
use ai_security_gateway.Inspection.Wiring.Streamed.{IsRead, inspect_response-IsRead}
use ai_security_gateway.Inspection.Contracts.{HttpMessage, Bytes, Action, inline, redact}
use ai_security_gateway.Inspection.Engine.Prepare.{media_type}
use ai_security_gateway.Inspection.Engine.Response.{inspect_response, known_route, provider_of}
use ai_security_gateway.Inspection.Session.{
  Parts, Session, signatures, check_texts, check_deadline, check_suspicious, refuse_if, find,
  scored, extend, update, iter_strings,
}
use ai_security_gateway.Broker.Store.Snapshot.{Snapshot}
use ai_security_gateway.Tests.InspectionData.{parts, config, session, message, route_rule}
use ai_security_gateway.Inspection.Sse.Mask.{
  mask_parts, join, hidden_from, spans_of, spans_in, hides, mask_parts-join,
}

abbrev hello : Json
hello = obj (
    field "choices"
      (arr (
        cons
          (obj (
            field "index" (int (pos 0))
              (field "delta" (obj (field "content" (str "hello") end)) end)))
          nil))
      end)

-- A body of two events, whose data decodes to the value above.
abbrev stream_parts : Parts
stream_parts = record parts {
  decode_utf8 = λ b. ok "data: {}\r\n\r\nevent: message\ndata: [DONE]\n\n";
  encode_utf8 = λ t. ok [];
  strict_json = λ b. ok hello;
}

abbrev read_session : Session Snapshot
read_session = record session { readings = 16 }

-- The same in the body of a response.
abbrev streamed : HttpMessage
streamed = record message { headers = ("content-type", "text/event-stream") ∷ []; body = 104 ∷ [] }

inspect_response-IsRead_example :
    (t : Session Snapshot) × (inspect_response stream_parts config
        (redact_sse stream_parts config (λ t. false) (λ j. ""))
        (λ _ _ _ _. false)
        inline
        (some redact)
        none
        streamed
        session
      ≡ (ok tt, t))
    × (IsRead Snapshot stream_parts config
          (λ t. false)
          (λ j. "")
          (provider_of (some route_rule))
          streamed.body
        ⊎ ((t.verdict.action ≡ Action.block) × (t.verdict.body ≡ none)))
unfolding known_route media_type text_before get
inspect_response-IsRead_example =
    inspect_response-IsRead stream_parts config (λ t. false) (λ j. "") (λ _ _ _ _. false)
      (some redact) none streamed session (some route_rule) refl refl refl

abbrev received : Bytes
received = 104 ∷ []

redact_sse-block_example :
    (received ≡ streamed.body)
    × ((turns : Turns) × (t : StreamState) × (z : Session Snapshot) × (read_stream stream_parts
            config
            (λ t. false)
            (λ j. "")
            none
            streamed.body
            session
          ≡ (ok (turns, t), z))
        × AreClean stream_parts config (groups_from [] (leaves_of turns)))
unfolding redact_sse redact_turns sent_body read_stream read_text read_events read_event read_data
    read_some read_done read_json read_dict finish_events without_mark with_newlines split_events
    split text_before join_lines after_colon without_blank read_line read_lines read_metadata
    ends_with drop_last_two signatures check_texts check_deadline check_suspicious refuse_if find
    scored extend update iter_strings get put value_event classify member chat_event is_chunk
    check_choices check_choice has_only contains as_type is_named_apart done_event finish
    collect_event collect collect_items collect_fields check_dict checked_value refuse_found
    element_name is_indexed last_name own_index index collect_number response_timestamp collect_text
    select_lane family_lane chat_lane default_kind edit_groups edit_group edit_kind edit_text
    groups_from add_leaf leaves_of mask_edits spans_in join
redact_sse-block_example =
    redact_sse-block stream_parts config (λ t. false) (λ j. "") none streamed.body received session
      read_session refl

abbrev phone : Finding
phone = record { entity_type = "PHONE"; start = 1; stop = 4; score = 100 }

mask_parts-join_example :
    join (mask_parts (phone ∷ []) 0 ("ab" ∷ "cdef" ∷ []))
    ≡ hidden_from (spans_of (phone ∷ [])) 0 (join ("ab" ∷ "cdef" ∷ []))
mask_parts-join_example = mask_parts-join (phone ∷ []) 0 ("ab" ∷ "cdef" ∷ [])

masked : mask_parts (phone ∷ []) 0 ("ab" ∷ "cdef" ∷ []) ≡ "a*" ∷ "**ef" ∷ []
unfolding mask_parts spans_in hidden_from hides
masked = refl

abbrev argument : String → Leaf
argument t = record {
  lane = record { tag = "chat"; ordinal = none; names = [] };
  kind = json;
  ordinal = 0;
  place = [];
  value = t;
}

cut_edits-join_example :
    (join (replacements (cut_edits "{\"a\":\"*\"}" (argument "{\"a\"" ∷ argument ":\"@\"}" ∷ [])))
      ≡ "{\"a\":\"*\"}")
    × (edited_leaves (cut_edits "{\"a\":\"*\"}" (argument "{\"a\"" ∷ argument ":\"@\"}" ∷ []))
        ≡ argument "{\"a\"" ∷ argument ":\"@\"}" ∷ [])
cut_edits-join_example =
    cut_edits-join "{\"a\":\"*\"}" (argument "{\"a\"") (argument ":\"@\"}" ∷ [])

-- Two events that share one text.
abbrev delta_of : String → Json
delta_of t = obj (field "delta" (str t) end)

abbrev piece : ℕ → String → Leaf
piece n t = record {
  lane = record { tag = "responses"; ordinal = none; names = [] };
  kind = text;
  ordinal = n;
  place = key "delta" ∷ [];
  value = t;
}

abbrev pieces : List Leaf
pieces = piece 0 "ab" ∷ piece 1 "cdef" ∷ []

first_event : edited (mask_edits (phone ∷ []) 0 pieces) 0 (delta_of "ab") ≡ delta_of "a*"
unfolding edited mask_edits set_at spans_in hidden_from hides
first_event = refl

second_event : edited (mask_edits (phone ∷ []) 0 pieces) 1 (delta_of "cdef") ≡ delta_of "**ef"
unfolding edited mask_edits set_at spans_in hidden_from hides
second_event = refl
