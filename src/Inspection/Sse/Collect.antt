-- ===== src/Inspection/Sse/Collect.antt =====
-- inspection/engine.py: what `_redact_sse` collects from a value of a stream (`collect`): its texts, with
-- their lanes and places. The texts of values that are no text or integer are a parameter.
use ai_security_gateway.Base.{
  ℕ, suc, String, Bool, true, false, ◌&&◌, ◌||◌, not, Option, none, some, List, [], ◌∷◌, ◌++◌,
  str_eq, contains, if◌then◌else◌,
}
use ai_security_gateway.Base.Exec.{pure, lift, ◌>>=◌, ◌>>◌}
use ai_security_gateway.Base.Result.{Result, ok, err}
use ai_security_gateway.Inspection.Json.{
  Json, null, bool, int, float, str, arr, obj, ℤ, pos, Items, nil, cons, Fields, end, field, member,
}
use ai_security_gateway.Inspection.Contracts.{Raised, InspectionConfig, inspection_error}
use ai_security_gateway.Inspection.Session.{Parts, I, find, extend, refuse_if, types, is_empty}
use ai_security_gateway.Inspection.Llm.{response_timestamp}
use ai_security_gateway.Inspection.Sse.{Family, chat, gemini, as_type, is_one_of, index}
use ai_security_gateway.Inspection.Sse.Lanes.{Kind, Lane, last_name, select_lane}

-- A step from a value to one in it.
pub data Step : Type 0 where
  key : String → Step
  at : ℕ → Step

-- A text of an event, at its place there.
pub record Leaf : Type 0 where
  pub lane : Lane
  pub kind : Kind
  pub ordinal : ℕ
  pub place : List Step
  pub value : String

-- What the collection from an event's value goes by.
pub record Source : Type 0 where
  pub family : Family
  pub whole : Fields
  pub ordinal : ℕ
  pub provider : Option String

abbrev has_any : List String → Fields → Bool
has_any [] fs = false
has_any (k ∷ ks) fs = elim (member k fs) [ none ↦ has_any ks fs | some j ↦ true ]

abbrev is_null : Json → Bool
is_null null = true
is_null _ = false

-- Whether the elements of a list are told apart by their own indices.
unfoldable pub is_indexed : Family → List String → Bool
is_indexed chat path = contains ("choices" ∷ "tool_calls" ∷ []) (last_name path)
is_indexed gemini path = contains ("candidates" ∷ []) (last_name path)
is_indexed _ path = false

-- The index of an element, which no element before it has.
unfoldable pub own_index : (ℤ → String) → Json → List String → Result Raised String
own_index number_text (obj fs) seen = elim (member "index" fs) [
  | none ↦ err (inspection_error "invalid_sse_index")
  | some j ↦ elim (index (some j)) [
    | err e ↦ err e
    | ok n ↦
        let name = number_text (pos n) in
        if contains seen name then err (inspection_error "duplicate_sse_index") else ok name
  ]
]
own_index number_text _ seen = err (inspection_error "invalid_sse_index")

unfoldable pub element_name : (ℤ → String) → Bool → Json → ℕ → List String → Result Raised String
element_name number_text true j i seen = own_index number_text j seen
element_name number_text false j i seen = ok (number_text (pos i))

module _ {File : Type 0} (parts : Parts) (config : InspectionConfig) (str_of : Json → String) where
  -- A text whose findings refuse the stream.
  unfoldable pub refuse_found : String → String → I File (Unit {0})
  refuse_found reason text = do
    found ← find parts config text
    extend (types found)
    refuse_if (not (is_empty found)) reason

  unfoldable pub collect_number : Source → List String → Json → String → I File (List Leaf)
  collect_number s path j text =
      if response_timestamp j s.whole path s.provider
      then pure []
      else (do refuse_found "pii_in_numeric_field" text; pure [])

  unfoldable pub collect_text : Source → List Step → List String → String → I File (List Leaf)
  collect_text s place path t = do
    chosen ← lift (select_lane parts.number_text str_of s.family s.whole s.ordinal path)
    pure (
        record { lane = chosen.0; kind = chosen.1; ordinal = s.ordinal; place = place; value = t }
        ∷ [])

  unfoldable pub check_dict : Fields → I File (Unit {0})
  check_dict fs = do
    kind ← lift (as_type (member "type" fs))
    refuse_if
        (is_one_of ("image" ∷ "audio" ∷ "redacted_thinking" ∷ []) kind
          || has_any
              ("encrypted_content" ∷ "inlineData" ∷ "fileData" ∷ "thoughtSignature" ∷ "partialArgs"
                ∷ [])
              fs)
        "unsupported_sse_encoded_payload"

  unfoldable mutual
    -- `collect`
    pub collect : Source → List Step → List String → Json → I File (List Leaf)
    collect s place path (obj fs) = do check_dict fs; collect_fields s place path fs
    collect s place path (arr js) = collect_items s place path [] 0 js
    collect s place path (str t) = collect_text s place path t
    collect s place path (int i) = collect_number s path (int i) (parts.number_text i)
    collect s place path (float f) = collect_number s path (float f) f
    collect s place path (bool b) = pure []
    collect s place path null = pure []

    pub collect_items :
        Source → List Step → List String → List String → ℕ → Items → I File (List Leaf)
    collect_items s place path seen i nil = pure []
    collect_items s place path seen i (cons j js) = do
      name ← lift (element_name parts.number_text (is_indexed s.family path) j i seen)
      leaves ← collect s (place ++ at i ∷ []) (path ++ name ∷ []) j
      more ← collect_items s place path (name ∷ seen) (suc i) js
      pure (leaves ++ more)

    pub collect_fields : Source → List Step → List String → Fields → I File (List Leaf)
    collect_fields s place path end = pure []
    collect_fields s place path (field k j fs) = do
      refuse_if (str_eq k "logprobs" && not (is_null j)) "unsupported_sse_encoded_payload"
      refuse_found "pii_in_structural_field" k
      leaves ← collect s (place ++ key k ∷ []) (path ++ k ∷ []) j
      more ← collect_fields s place path fs
      pure (leaves ++ more)
