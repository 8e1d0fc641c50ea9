-- ===== src/Inspection/Sse/Reader.antt =====
-- inspection/engine.py: the loop of `_redact_sse` over the text of a stream, with what it collects. Whether the
-- text of a float is zero, and the texts of other values, are parameters.

use ai_security_gateway.Base.{
  ends_with, ℕ, suc, String, Bool, false, not, ◌||◌, Option, List, [], ◌∷◌, ◌==◌, str_eq, is_set,
  codes, if◌then◌else◌, none, some,
}
use ai_security_gateway.Base.Dict
use ai_security_gateway.Base.Exec.{pure, raise, lift, ◌>>=◌, ◌>>◌}
use ai_security_gateway.Inspection.Json.{
  Json, int, arr, obj, pos, Items, nil, cons, Fields, end, field, member,
}
use ai_security_gateway.Inspection.Engine.Response.{append_fields}
use ai_security_gateway.Inspection.Sse.Collect.{Leaf, Source, collect}
use ai_security_gateway.Inspection.Contracts.{Bytes, InspectionConfig, inspection_error}
use ai_security_gateway.Inspection.Session.{Parts, I, refuse_if, signatures}
use ai_security_gateway.Inspection.Protocol.Headers.{drop_last_two}
use ai_security_gateway.Inspection.Sse.{
  StreamState, initial, Family, chat, responses, anthropic, gemini, mcp,
}
use ai_security_gateway.Inspection.Sse.Lines.{
  without_mark, with_newlines, split_events, split_lines, join_lines, read_lines,
}
use ai_security_gateway.Inspection.Sse.Stream.{
  Event, no_data, done, data_event, value_event, done_event, finish,
}

abbrev pub has_code : ℕ → List ℕ → Bool
has_code n [] = false
has_code n (c ∷ cs) = c == n || has_code n cs

-- What a turn of the loop gives: the event, its value to be sent, where it has one, and its texts.
pub record Read : Type 0 where
  pub event : Event
  pub value : Option Json
  pub leaves : List Leaf

abbrev pub without_value : Event → Read
without_value e = record { event = e; value = none; leaves = [] }

-- `candidate.setdefault("index", 0)`
unfoldable pub with_index : Json → Json
with_index (obj fs) = elim (member "index" fs) [
  | none ↦ obj (append_fields fs (field "index" (int (pos 0)) end))
  | some j ↦ obj fs
]
with_index j = j

unfoldable pub with_indices : Items → Items
with_indices nil = nil
with_indices (cons j js) = cons (with_index j) (with_indices js)

-- The value of an event after its checks.
unfoldable pub checked_value : Family → Fields → Fields
checked_value gemini end = end
checked_value gemini (field k (arr js) fs) =
    let rest = checked_value gemini fs in
    if str_eq k "candidates" then field k (arr (with_indices js)) fs else field k (arr js) rest
checked_value gemini (field k j fs) = field k j (checked_value gemini fs)
checked_value chat fs = fs
checked_value responses fs = fs
checked_value anthropic fs = fs
checked_value mcp fs = fs

-- The turns of a stream, with the lines of each.
abbrev pub Turns : Type 0
Turns = List (List String × Read)

unfoldable pub events_of : Turns → List Event
events_of [] = []
events_of ((lines, r) ∷ rs) = r.event ∷ events_of rs

module _ {File : Type 0} (parts : Parts) (config : InspectionConfig) (is_zero : String → Bool)
    (str_of : Json → String) (provider : Option String) where
  unfoldable pub collect_event : ℕ → Option Family → Fields → I File (Fields × List Leaf)
  collect_event ordinal none fs = pure (fs, [])
  collect_event ordinal (some family) fs = do
    let value = checked_value family fs
    let source : Source = record {
      family = family;
      whole = value;
      ordinal = ordinal;
      provider = provider;
    }
    leaves ← collect parts config str_of source [] [] (obj value)
    pure (value, leaves)

  -- A decoded value: a dict, without secrets and suspicious instructions, of the stream's protocol.
  unfoldable pub read_dict : ℕ → Option String → Json → StreamState → I File (Read × StreamState)
  read_dict ordinal name (obj fs) s = do
    signatures parts config (obj fs)
    t ← lift (value_event is_zero name fs s)
    collected ← collect_event ordinal t.family fs
    pure (
      record {
        event = data_event name (obj fs);
        value = some (obj collected.0);
        leaves = collected.1;
      },
      t,
    )
  read_dict ordinal name _ s = raise (inspection_error "unsupported_sse_payload")

  unfoldable pub read_json : ℕ → Option String → String → StreamState → I File (Read × StreamState)
  read_json ordinal name content s = do
    bytes ← lift (parts.encode_utf8 content)
    value ← lift (parts.strict_json bytes)
    read_dict ordinal name value s

  unfoldable pub read_done : StreamState → I File (Read × StreamState)
  read_done s = do t ← lift (done_event s); pure (without_value done, t)

  unfoldable pub read_some : ℕ → Option String → String → StreamState → I File (Read × StreamState)
  read_some ordinal name content s = do
    refuse_if s.terminal "sse_data_after_terminal"
    if str_eq content "[DONE]" then read_done s else read_json ordinal name content s

  unfoldable pub read_data : ℕ → Option String → String → StreamState → I File (Read × StreamState)
  read_data ordinal name content s =
      if is_set content then read_some ordinal name content s else pure (without_value no_data, s)

  -- One turn of the loop.
  unfoldable pub read_event : ℕ → String → StreamState → I File (Read × StreamState)
  read_event ordinal text s = do
    l ← read_lines parts config (split_lines text) (record { data_lines = []; metadata = [] })
    read_data ordinal (Dict.get "event" l.metadata) (join_lines l.data_lines) s

  unfoldable pub read_events : ℕ → List String → StreamState → I File (Turns × StreamState)
  read_events ordinal [] s = pure ([], s)
  read_events ordinal (text ∷ more) s = do
    first ← read_event ordinal text s
    rest ← read_events (suc ordinal) more first.1
    pure ((split_lines text, first.0) ∷ rest.0, rest.1)

  unfoldable pub finish_events : Turns × StreamState → I File (Turns × StreamState)
  finish_events read = do t ← lift (finish read.1); pure (read.0, t)

  unfoldable pub read_text : String → I File (Turns × StreamState)
  read_text text = do
    refuse_if (not (ends_with "\n\n" text)) "incomplete_sse_event"
    refuse_if (has_code 0 (codes text)) "invalid_sse_control_character"
    read ← read_events 0 (split_events (drop_last_two text)) initial
    finish_events read

  -- The body, up to what is collected for the redaction.
  unfoldable pub read_stream : Bytes → I File (Turns × StreamState)
  read_stream body = do
    text ← lift (parts.decode_utf8 body)
    read_text (with_newlines (without_mark text))
