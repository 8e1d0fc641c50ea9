-- ===== src/Inspection/Sse/Passes.antt =====
-- inspection/engine.py: a text that the loop reads to its end is a stream of events that passes.

use ai_security_gateway.Base.{
  ends_with, String, ◌≡◌, Bool, true, false, not, ◌&&◌, Option, List, [], ◌∷◌, str_eq, is_set,
  codes, arith, Bool-cases, inl, inr, ℕ, suc,
}
use ai_security_gateway.Base.Dict
use ai_security_gateway.Base.Result.{Result, ok}
use ai_security_gateway.Base.Exec.{lift}
use ai_security_gateway.Base.Exec.Runs.{bind-returns}
use ai_security_gateway.Inspection.Json.{Json, obj}
use ai_security_gateway.Inspection.Contracts.{Bytes, InspectionConfig, Raised}
use ai_security_gateway.Inspection.Session.{Parts, Session, refuse_if, signatures}
use ai_security_gateway.Inspection.Protocol.Headers.{drop_last_two}
use ai_security_gateway.Inspection.Sse.{StreamState, initial}
use ai_security_gateway.Inspection.Sse.Anthropic.{has_open}
use ai_security_gateway.Inspection.Sse.Lines.{
  without_mark, with_newlines, split_events, split_lines, join_lines, Lines, read_lines,
}
use ai_security_gateway.Inspection.Sse.Stream.{
  value_event, done_event, data_step, step, steps, finish, accept, needs_terminal,
}
use ai_security_gateway.Inspection.Sse.Reader.{
  Read, Turns, events_of, collect_event, has_code, read_dict, read_json, read_done, read_some,
  read_data, read_event, read_events, finish_events, read_text, read_stream,
}
use ai_security_gateway.Inspection.Sse.Complete.{
  with_data, ends_final, is_anthropic, accept-ends_final,
}

module _ {File : Type 0} (parts : Parts) (config : InspectionConfig) (is_zero : String → Bool)
    (str_of : Json → String) (provider : Option String) where
  lift-ok :
      {A : Type 0} (r : Result Raised A) (x y : Session File) (a : A)
      → lift r x ≡ (ok a, y)
      → r ≡ ok a
  lift-ok r x y a h = ground arith

  read_dict-step :
      (ordinal : ℕ) (name : Option String) (value : Json) (s t : StreamState) (e : Read)
      (x y : Session File)
      → s.terminal ≡ false
      → read_dict parts config is_zero str_of provider ordinal name value s x ≡ (ok (e, t), y)
      → step is_zero e.event s ≡ ok t
  unfolding read_dict step data_step
  read_dict-step ordinal name (obj value) s t e x y open_yet h =
      let (u, x1, h1, k1) = bind-returns (signatures parts config (obj value)) _ x (e, t) y h in
      let (after, x2, h2, k2) =
        bind-returns (lift (value_event is_zero name value s)) _ x1 (e, t) y k1 in
      let (collected, x3, h3, k3) =
        bind-returns (collect_event parts config is_zero str_of provider ordinal after.family value)
          _ x2 (e, t) y k2 in
      let passed = lift-ok (value_event is_zero name value s) x1 x2 after h2 in
      ground (arith, passed, k3, open_yet)
  read_dict-step ordinal name value s t e x y open_yet h = ground arith

  read_json-step :
      (ordinal : ℕ) (name : Option String) (content : String) (s t : StreamState) (e : Read)
      (x y : Session File)
      → s.terminal ≡ false
      → read_json parts config is_zero str_of provider ordinal name content s x ≡ (ok (e, t), y)
      → step is_zero e.event s ≡ ok t
  unfolding read_json
  read_json-step ordinal name content s t e x y open_yet h =
      let (bytes, x1, h1, k1) = bind-returns (lift (parts.encode_utf8 content)) _ x (e, t) y h in
      let (value, x2, h2, k2) = bind-returns (lift (parts.strict_json bytes)) _ x1 (e, t) y k1 in
      read_dict-step ordinal name value s t e x2 y open_yet k2

  read_done-step :
      (s t : StreamState) (e : Read) (x y : Session File)
      → s.terminal ≡ false
      → read_done parts config is_zero str_of provider s x ≡ (ok (e, t), y)
      → step is_zero e.event s ≡ ok t
  unfolding read_done step data_step
  read_done-step s t e x y open_yet h =
      let (after, x1, h1, k1) = bind-returns (lift (done_event s)) _ x (e, t) y h in
      ground (arith, lift-ok (done_event s) x x1 after h1, k1, open_yet)

  read_data-step :
      (ordinal : ℕ) (name : Option String) (content : String) (s t : StreamState) (e : Read)
      (x y : Session File)
      → read_data parts config is_zero str_of provider ordinal name content s x ≡ (ok (e, t), y)
      → step is_zero e.event s ≡ ok t
  unfolding read_data read_some step data_step refuse_if
  read_data-step ordinal name content s t e x y h = elim (Bool-cases (is_set content)) [
    | inr without ↦ ground (arith, without, h)
    | inl given ↦ elim (Bool-cases s.terminal) [
      | inl over ↦ ground (arith, given, over, h)
      | inr open_yet ↦ elim (Bool-cases (str_eq content "[DONE]")) [
        | inl marked ↦
            read_done-step s t e x y open_yet (ground (arith, given, open_yet, marked, h))
        | inr other ↦
            read_json-step ordinal name content s t e x y open_yet
              (ground (arith, given, open_yet, other, h))
      ]
    ]
  ]

  read_event-step :
      (ordinal : ℕ) (text : String) (s t : StreamState) (e : Read) (x y : Session File)
      → read_event parts config is_zero str_of provider ordinal text s x ≡ (ok (e, t), y)
      → step is_zero e.event s ≡ ok t
  unfolding read_event
  read_event-step ordinal text s t e x y h =
      let start : Lines = record { data_lines = []; metadata = [] } in
      let (l, x1, h1, k1) =
        bind-returns (read_lines parts config (split_lines text) start) _ x (e, t) y h in
      read_data-step ordinal (Dict.get "event" l.metadata) (join_lines l.data_lines) s t e x1 y k1

  read_events-steps :
      (ordinal : ℕ) (texts : List String) (s t : StreamState) (es : Turns) (x y : Session File)
      → read_events parts config is_zero str_of provider ordinal texts s x ≡ (ok (es, t), y)
      → steps is_zero (events_of es) s ≡ ok t
  unfolding read_events events_of steps
  read_events-steps ordinal [] s t es x y h = ground arith
  read_events-steps ordinal (text ∷ more) s t es x y h =
      let ((e, m), x1, h1, k1) =
        bind-returns (read_event parts config is_zero str_of provider ordinal text s) _ x (es, t) y
          h in
      let ((fs, u), x2, h2, k2) =
        bind-returns (read_events parts config is_zero str_of provider (suc ordinal) more m) _ x1
          (es, t) y k1 in
      ground (
        arith,
        k2,
        read_event-step ordinal text s m e x x1 h1,
        read_events-steps (suc ordinal) more m u fs x1 x2 h2,
      )

  read_text-accept :
      (text : String) (es : Turns) (t : StreamState) (x y : Session File)
      → read_text parts config is_zero str_of provider text x ≡ (ok (es, t), y)
      → accept is_zero (events_of es) ≡ ok t
  unfolding read_text finish_events accept
  read_text-accept text es t x y h =
      let (u1, x1, h1, k1) =
        bind-returns (refuse_if (not (ends_with "\n\n" text)) "incomplete_sse_event") _ x (es, t) y
          h in
      let (u2, x2, h2, k2) =
        bind-returns (refuse_if (has_code 0 (codes text)) "invalid_sse_control_character") _ x1
          (es, t) y k1 in
      let ((fs, m), x3, h3, k3) =
        bind-returns
          (read_events parts config is_zero str_of provider 0 (split_events (drop_last_two text))
            initial)
          _ x2 (es, t) y k2 in
      let (last, x4, h4, k4) = bind-returns (lift (finish m)) _ x3 (es, t) y k3 in
      ground (
        arith,
        k4,
        read_events-steps 0 (split_events (drop_last_two text)) initial m fs x2 x3 h3,
        lift-ok (finish m) x3 x4 last h4,
      )

  read_stream-accept :
      (body : Bytes) (es : Turns) (t : StreamState) (x y : Session File)
      → read_stream parts config is_zero str_of provider body x ≡ (ok (es, t), y)
      → accept is_zero (events_of es) ≡ ok t
  unfolding read_stream
  read_stream-accept body es t x y h =
      let (text, x1, h1, k1) = bind-returns (lift (parts.decode_utf8 body)) _ x (es, t) y h in
      read_text-accept (with_newlines (without_mark text)) es t x1 y k1

  -- A body that the loop reads to its end as chat completions, responses or messages has its terminal
  -- event as the last event with data and nowhere else, and a stream of messages leaves no content block
  -- open.
  pub read_stream-ends_final :
      (body : Bytes) (es : Turns) (t : StreamState) (x y : Session File)
      → read_stream parts config is_zero str_of provider body x ≡ (ok (es, t), y)
      → needs_terminal t.family ≡ true
      → (ends_final (with_data (events_of es)) ≡ true)
        × ((is_anthropic t.family && has_open t.anthropic_open) ≡ false)
  read_stream-ends_final body es t x y h f =
      accept-ends_final is_zero (events_of es) t (read_stream-accept body es t x y h) f
