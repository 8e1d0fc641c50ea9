-- ===== src/Inspection/Sse/Final.antt =====
-- inspection/engine.py: which events end a stream, by their data alone.
use ai_security_gateway.Base.{
  String, ◌≡◌, subst, Bool, true, false, ◌&&◌, ◌||◌, not, Option, none, some, List, [], ◌∷◌, str_eq,
  eq_iff, contains, arith, Bool-cases, Option-cases, inl, inr,
}
use ai_security_gateway.Base.Result.{ok, bind-ok}
use ai_security_gateway.Inspection.Json.{Json, str, obj, Fields, member}
use ai_security_gateway.Inspection.Sse.{chat, responses, anthropic, StreamState, as_type}
use ai_security_gateway.Inspection.Sse.Chat.{chat_event}
use ai_security_gateway.Inspection.Sse.Responses.{response_deltas, response_static, responses_event}
use ai_security_gateway.Inspection.Sse.Anthropic.{
  anthropic_types, anthropic_event, begin, block_event, has_open,
}
use ai_security_gateway.Inspection.Sse.Stream.{
  Event, no_data, done, data_event, Current, by_members, by_type, classify, has_member, same_family,
}

abbrev final_types : List String
final_types = "response.completed" ∷ "response.failed" ∷ "message_stop" ∷ []

abbrev is_final_type : Option String → Bool
is_final_type none = false
is_final_type (some t) = contains final_types t

abbrev type_text : Option Json → Option String
type_text (some (str t)) = some t
type_text _ = none

-- The mark of chat completions, and a value without choices whose type ends the stream.
abbrev pub is_final_value : Fields → Bool
is_final_value value =
    not (has_member "choices" value) && is_final_type (type_text (member "type" value))

abbrev pub is_final : Event → Bool
is_final no_data = false
is_final done = true
is_final (data_event name (obj value)) = is_final_value value
is_final (data_event name _) = false

responses-final :
    (t : String)
    → (contains response_deltas t || contains response_static t) ≡ true
    → (str_eq t "response.completed" || str_eq t "response.failed") ≡ contains final_types t
unfolding contains
responses-final t h = elim (Bool-cases (str_eq t "message_stop")) [
  | inr other ↦ ground (
    arith,
    other,
    eq_iff "message_stop" t,
    eq_iff t "message_stop",
    eq_iff "response.completed" t,
    eq_iff t "response.completed",
    eq_iff "response.failed" t,
    eq_iff t "response.failed",
  )
  | inl same ↦
      let p : t ≡ "message_stop" = (eq_iff t "message_stop").0 same in
      let q = subst (λ x. (contains response_deltas x || contains response_static x) ≡ true) p h in
      cc
]

anthropic-final :
    (t : String)
    → contains anthropic_types t ≡ true
    → str_eq t "message_stop" ≡ contains final_types t
unfolding contains
anthropic-final t h = elim (Bool-cases (str_eq t "response.completed")) [
  | inl same ↦
      let p : t ≡ "response.completed" = (eq_iff t "response.completed").0 same in
      let q = subst (λ x. contains anthropic_types x ≡ true) p h in cc
  | inr other ↦ elim (Bool-cases (str_eq t "response.failed")) [
    | inl same ↦
        let p : t ≡ "response.failed" = (eq_iff t "response.failed").0 same in
        let q = subst (λ x. contains anthropic_types x ≡ true) p h in cc
    | inr neither ↦ ground (
      arith,
      other,
      neither,
      eq_iff "message_stop" t,
      eq_iff t "message_stop",
      eq_iff "response.completed" t,
      eq_iff t "response.completed",
      eq_iff "response.failed" t,
      eq_iff t "response.failed",
    )
  ]
]

others-final :
    (t : String)
    → (contains response_deltas t || contains response_static t) ≡ false
    → contains anthropic_types t ≡ false
    → contains final_types t ≡ false
unfolding contains
others-final t h k = ground arith

responses_event-final :
    (t : String) (value : Fields) (b : Bool)
    → responses_event t value ≡ ok b
    → b ≡ (str_eq t "response.completed" || str_eq t "response.failed")
unfolding responses_event
responses_event-final t value b h = ground arith

-- An end of messages leaves no content block open.
anthropic_event-final :
    (t : String) (value : Fields) (s after : StreamState) (b : Bool)
    → anthropic_event t value s ≡ ok (b, after)
    → (b ≡ str_eq t "message_stop") × ((b && has_open after.anthropic_open) ≡ false)
unfolding anthropic_event
anthropic_event-final t value s after b h =
    let (started, e1, h1) = bind-ok (begin t s) _ h in
    let (blocks, e2, h2) = bind-ok (block_event t value started) _ h1 in ground arith

-- The protocol and the end that an event without choices has.
abbrev pub Ends : Bool → Current → Type 0
Ends b (f, terminal, s) =
    (terminal ≡ b) × ((same_family f anthropic && terminal && has_open s.anthropic_open) ≡ false)

by_members-Ends :
    (is_zero : String → Bool) (value : Fields) (s : StreamState) (c : Current)
    → by_members is_zero value s ≡ ok c
    → Ends false c
unfolding by_members
by_members-Ends is_zero value s c h = ground arith

by_type-Ends :
    (is_zero : String → Bool) (t : Option String) (value : Fields) (s : StreamState) (c : Current)
    → by_type is_zero t value s ≡ ok c
    → Ends (is_final_type t) c
unfolding by_type
by_type-Ends is_zero none value s c h = by_members-Ends is_zero value s c h
by_type-Ends is_zero (some t) value s c h =
    elim (Bool-cases (contains response_deltas t || contains response_static t)) [
      | inl listed ↦
          let (b, e, k) =
            bind-ok (responses_event t value) (λ terminal. ok (responses, terminal, s)) {b = c}
              (ground (arith, h, listed)) in
          ground (arith, k, responses_event-final t value b e, responses-final t listed)
      | inr unlisted ↦ elim (Bool-cases (contains anthropic_types t)) [
        | inl listed ↦
            let ((b, after), e, k) =
              bind-ok (anthropic_event t value s) (λ after. ok (anthropic, after.0, after.1))
                {b = c} (ground (arith, h, unlisted, listed)) in
            ground (arith, k, anthropic_event-final t value s after b e, anthropic-final t listed)
        | inr neither ↦ ground (
          arith,
          others-final t unlisted neither,
          by_members-Ends is_zero value s c (ground (arith, h, unlisted, neither)),
        )
      ]
    ]

as_type-text : (j : Option Json) (t : Option String) → as_type j ≡ ok t → t ≡ type_text j
unfolding as_type
as_type-text j t h = ground arith

pub classify-Ends :
    (is_zero : String → Bool) (value : Fields) (s : StreamState) (c : Current)
    → classify is_zero value s ≡ ok c
    → Ends (is_final_value value) c
unfolding classify
classify-Ends is_zero value s c h = elim (Option-cases (member "choices" value)) [
  | inr (choices, e) ↦
      let (u, e1, k) =
        bind-ok (chat_event choices value) (λ u. ok (chat, false, s)) {b = c}
          (ground (arith, h, e)) in
      ground (arith, e, k)
  | inl e ↦
      let (t, e1, k) =
        bind-ok (as_type (member "type" value)) (λ t. by_type is_zero t value s) {b = c}
          (ground (arith, h, e)) in
      ground (arith, e, as_type-text (member "type" value) t e1, by_type-Ends is_zero t value s c k)
]
