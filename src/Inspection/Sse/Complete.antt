-- ===== src/Inspection/Sse/Complete.antt =====
-- inspection/engine.py: a stream that passes ends with its terminal event.
use ai_security_gateway.Base.{
  String, ◌≡◌, refl, ◌∙◌, Bool, true, false, ◌&&◌, not, Option, none, some, List, [], ◌∷◌, arith,
  Bool-cases, inl, inr, if◌then◌else◌,
}
use ai_security_gateway.Base.Result.{ok, bind-ok}
use ai_security_gateway.Inspection.Json.{obj, Fields, member}
use ai_security_gateway.Inspection.Sse.{Family, anthropic, StreamState, initial, as_type, refuse}
use ai_security_gateway.Inspection.Sse.Anthropic.{has_open}
use ai_security_gateway.Inspection.Sse.Stream.{
  Event, no_data, done, data_event, classify, same_family, is_mixed, value_event, done_event,
  data_step, has_data, step, steps, needs_terminal, finish, accept,
}
use ai_security_gateway.Inspection.Sse.Final.{is_final, is_final_value, classify-Ends}

-- The events with data.
unfoldable pub with_data : List Event → List Event
with_data [] = []
with_data (e ∷ es) = if has_data e then e ∷ with_data es else with_data es

-- The last event ends the stream, and no other does.
unfoldable pub ends_final : List Event → Bool
ends_final [] = false
ends_final (e ∷ []) = is_final e
ends_final (e ∷ f ∷ es) = not (is_final e) && ends_final (f ∷ es)

abbrev pub is_anthropic : Option Family → Bool
is_anthropic none = false
is_anthropic (some f) = same_family f anthropic

-- A stream of messages that has ended has no open content block.
abbrev pub is_closed : StreamState → Bool
is_closed s = not (is_anthropic s.family && s.terminal && has_open s.anthropic_open)

module _ (is_zero : String → Bool) where
  value_event-final :
      (name : Option String) (value : Fields) (s t : StreamState)
      → value_event is_zero name value s ≡ ok t
      → (t.terminal ≡ is_final_value value) × (is_closed t ≡ true)
  unfolding value_event
  value_event-final name value s t h =
      let (current, e, h1) = bind-ok (classify is_zero value s) _ h in
      let (u, e1, h2) = bind-ok (refuse (is_mixed s.family current.0) "mixed_sse_protocols") _ h1 in
      let (kind, e2, h3) = bind-ok (as_type (member "type" value)) _ h2 in
      ground (arith, h3, classify-Ends is_zero value s current e)

  data_step-final :
      (e : Event) (s t : StreamState)
      → data_step is_zero e s ≡ ok t
      → has_data e ≡ true
      → (t.terminal ≡ is_final e) × (is_closed t ≡ true)
  unfolding data_step done_event
  data_step-final no_data s t h d = ground arith
  data_step-final done s t h d = ground arith
  data_step-final (data_event name (obj value)) s t h d = value_event-final name value s t h
  data_step-final (data_event name j) s t h d = ground arith

  step-data :
      (e : Event) (s t : StreamState)
      → step is_zero e s ≡ ok t
      → has_data e ≡ true
      → (s.terminal ≡ false) × (t.terminal ≡ is_final e) × (is_closed t ≡ true)
  unfolding step
  step-data e s t h d =
      let (u, e1, k) = bind-ok (refuse (has_data e && s.terminal) "sse_data_after_terminal") _ h in
      ground (arith, d, e1, data_step-final e s t k d)

  step-no_data :
      (e : Event) (s t : StreamState) → step is_zero e s ≡ ok t → has_data e ≡ false → t ≡ s
  unfolding step data_step
  step-no_data e s t h d = ground arith

  -- After the terminal event there is no data.
  steps-terminal :
      (es : List Event) (s t : StreamState)
      → steps is_zero es s ≡ ok t
      → s.terminal ≡ true
      → with_data es ≡ []
  unfolding steps with_data
  steps-terminal [] s t h k = refl
  steps-terminal (e ∷ es) s t h k =
      let (m, e1, h1) = bind-ok (step is_zero e s) _ h in
      elim (Bool-cases (has_data e)) [
        | inl d ↦ ground (arith, k, step-data e s m e1 d)
        | inr d ↦ ground (arith, k, d, step-no_data e s m e1 d, steps-terminal es m t h1)
      ]

  cons-final :
      (e : Event) (es : List Event)
      → (is_final e ≡ true → es ≡ [])
      → (is_final e ≡ false → ends_final es ≡ true)
      → ends_final (e ∷ es) ≡ true
  unfolding ends_final
  cons-final e [] f g = elim (Bool-cases (is_final e)) [ inl y ↦ y | inr n ↦ ground (arith, g n) ]
  cons-final e (x ∷ es) f g = elim (Bool-cases (is_final e)) [
    | inl y ↦ ground (arith, f y)
    | inr n ↦ ground (arith, n, g n)
  ]

  steps-final :
      (es : List Event) (s t : StreamState)
      → steps is_zero es s ≡ ok t
      → s.terminal ≡ false
      → t.terminal ≡ true
      → ends_final (with_data es) ≡ true
  unfolding steps with_data
  steps-final [] s t h k l = ground arith
  steps-final (e ∷ es) s t h k l =
      let (m, e1, h1) = bind-ok (step is_zero e s) _ h in
      elim (Bool-cases (has_data e)) [
        | inr d ↦ ground (arith, k, l, d, step-no_data e s m e1 d, steps-final es m t h1)
        | inl d ↦
            let (before, after, closed) = step-data e s m e1 d in
            rw d (
              cons-final e (with_data es) (λ y. steps-terminal es m t h1 (after ∙ y))
                (λ n. steps-final es m t h1 (after ∙ n) l))
      ]

  steps-closed :
      (es : List Event) (s t : StreamState)
      → steps is_zero es s ≡ ok t
      → is_closed s ≡ true
      → is_closed t ≡ true
  unfolding steps
  steps-closed [] s t h c = ground (arith, c)
  steps-closed (e ∷ es) s t h c =
      let (m, e1, h1) = bind-ok (step is_zero e s) _ h in
      elim (Bool-cases (has_data e)) [
        | inl d ↦
            let (before, after, closed) = step-data e s m e1 d in steps-closed es m t h1 closed
        | inr d ↦ ground (arith, c, step-no_data e s m e1 d, steps-closed es m t h1)
      ]

  -- A stream of chat completions, responses or messages that passes has its terminal event as the last
  -- event with data and nowhere else, and a stream of messages leaves no content block open.
  pub accept-ends_final :
      (es : List Event) (t : StreamState)
      → accept is_zero es ≡ ok t
      → needs_terminal t.family ≡ true
      → (ends_final (with_data es) ≡ true)
        × ((is_anthropic t.family && has_open t.anthropic_open) ≡ false)
  unfolding accept finish
  accept-ends_final es t h f =
      let (m, e, k) = bind-ok (steps is_zero es initial) finish h in
      let (u, e1, k1) = bind-ok (refuse (needs_terminal m.family && not m.terminal) _) _ k in
      ground (arith, f, e1, k1, steps-final es initial m e refl, steps-closed es initial m e refl)
