-- ===== src/Inspection/Sse/Redacted.antt =====
-- inspection/engine.py: the events with their new texts, and `_redact_sse` as a whole.
use Prim.Native.String.{◌++◌ as str_append}
use ai_security_gateway.Base.{
  ℕ, suc, String, Bool, Option, none, some, List, [], ◌∷◌, ◌++◌, ◌==◌, str_eq, if◌then◌else◌,
}
use ai_security_gateway.Base.Exec.{pure, lift, ◌>>=◌}
use ai_security_gateway.Inspection.Json.{Json}
use ai_security_gateway.Inspection.Contracts.{Bytes, InspectionConfig, PiiAction}
use ai_security_gateway.Inspection.Session.{Parts, I}
use ai_security_gateway.Inspection.Sse.Collect.{Leaf}
use ai_security_gateway.Inspection.Sse.Lines.{field_of, join_lines}
use ai_security_gateway.Inspection.Sse.Edits.{Edit, groups_from, edit_groups, set_at}
use ai_security_gateway.Inspection.Sse.Reader.{Turns, read_stream}

unfoldable pub leaves_of : Turns → List Leaf
leaves_of [] = []
leaves_of ((lines, r) ∷ rs) = r.leaves ++ leaves_of rs

-- The value of an event of a number, with the new texts of that event.
unfoldable pub edited : List Edit → ℕ → Json → Json
edited [] i j = j
edited (e ∷ es) i j =
    let here = edited es i (set_at e.leaf.place e.replacement j) in
    let elsewhere = edited es i j in if e.leaf.ordinal == i then here else elsewhere

-- The lines of an event other than its data.
unfoldable pub other_lines : List String → List String
other_lines [] = []
other_lines (l ∷ ls) = if str_eq (field_of l) "data" then other_lines ls else l ∷ other_lines ls

module _ {File : Type 0} (parts : Parts) (config : InspectionConfig) where
  unfoldable pub render_event : List Edit → ℕ → List String → Option Json → I File String
  render_event es i lines none = pure (join_lines lines)
  render_event es i lines (some j) = do
    bytes ← lift (parts.encode_json (edited es i j))
    data_text ← lift (parts.decode_utf8 bytes)
    pure (join_lines (other_lines lines ++ str_append "data: " data_text ∷ []))

  -- The events, each with an empty line after it.
  unfoldable pub render : List Edit → ℕ → Turns → I File String
  render es i [] = pure ""
  render es i ((lines, r) ∷ rs) = do
    first ← render_event es i lines r.value
    rest ← render es (suc i) rs
    pure (str_append first (str_append "\n\n" rest))

  unfoldable pub sent_body : Bytes → Turns → List Edit → I File Bytes
  sent_body body turns [] = pure body
  sent_body body turns (e ∷ es) = do text ← render (e ∷ es) 0 turns; lift (parts.encode_utf8 text)

  unfoldable pub redact_turns : PiiAction → Bytes → Turns → I File Bytes
  redact_turns action body turns = do
    edits ← edit_groups parts config action (groups_from [] (leaves_of turns))
    sent_body body turns edits

  module _ (is_zero : String → Bool) (str_of : Json → String) where
    -- `_redact_sse`
    unfoldable pub redact_sse : Bytes → PiiAction → Option String → I File Bytes
    redact_sse body action provider = do
      read ← read_stream parts config is_zero str_of provider body
      redact_turns action body read.0
