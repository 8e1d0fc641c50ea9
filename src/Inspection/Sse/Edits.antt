-- ===== src/Inspection/Sse/Edits.antt =====
-- inspection/engine.py: the lanes of a stream as `_redact_sse` goes through them, the new texts that it
-- gives them, and the events with these in their places.

use ai_security_gateway.Base.{
  drop_text, take_text, ℕ, zero, suc, ◌+◌, String, Bool, true, false, ◌&&◌, not, none, List, [],
  ◌∷◌, ◌++◌, str_eq, if◌then◌else◌,
}
use ai_security_gateway.Base.Exec.{pure, lift, ◌>>=◌, ◌>>◌}
use ai_security_gateway.Inspection.Json.{Json, str, arr, obj, Items, nil, cons, Fields, end, field}
use ai_security_gateway.Inspection.Contracts.{InspectionConfig, PiiAction}
use ai_security_gateway.Inspection.Session.{
  Parts, Finding, I, find, extend, refuse_if, signatures, types, is_empty,
}
use ai_security_gateway.Inspection.Redact.{json_eq, is_block, redact_json}
use ai_security_gateway.Inspection.Sse.Lanes.{
  Kind, text, json, structural, Lane, same_kind, same_lane,
}
use ai_security_gateway.Inspection.Sse.Collect.{Step, key, at, Leaf}
use ai_security_gateway.Inspection.Sse.Mask.{size, join, spans_in, hidden_from, has_spans}

-- The texts of one lane and kind, in the order of the stream.
pub record Group : Type 0 where
  pub lane : Lane
  pub kind : Kind
  pub leaves : List Leaf

-- `lanes.setdefault((lane, kind), []).append(...)`
unfoldable pub add_leaf : Leaf → List Group → List Group
add_leaf l [] = record { lane = l.lane; kind = l.kind; leaves = l ∷ [] } ∷ []
add_leaf l (g ∷ gs) =
    let rest = add_leaf l gs in
    if same_kind g.kind l.kind && same_lane g.lane l.lane
    then record g { leaves = g.leaves ++ l ∷ [] } ∷ gs
    else g ∷ rest

unfoldable pub groups_from : List Group → List Leaf → List Group
groups_from gs [] = gs
groups_from gs (l ∷ ls) = groups_from (add_leaf l gs) ls

-- A text with its new value.
pub record Edit : Type 0 where
  pub leaf : Leaf
  pub replacement : String

abbrev pub values_of : List Leaf → List String
values_of [] = []
values_of (l ∷ ls) = l.value ∷ values_of ls

-- The new JSON text, cut into pieces of the old sizes; the last piece has the rest.
unfoldable pub cut_edits : String → List Leaf → List Edit
cut_edits replacement [] = []
cut_edits replacement (l ∷ []) = record { leaf = l; replacement = replacement } ∷ []
cut_edits replacement (l ∷ k ∷ ls) =
    let n = size l.value in
    record { leaf = l; replacement = take_text n replacement }
    ∷ cut_edits (drop_text n replacement) (k ∷ ls)

-- The masks over the parts of a text; a part without a span is left.
unfoldable pub mask_edits : List Finding → ℕ → List Leaf → List Edit
mask_edits fs offset [] = []
mask_edits fs offset (l ∷ ls) =
    let spans = spans_in offset (size l.value) fs in
    let rest = mask_edits fs (offset + size l.value) ls in
    if has_spans spans
    then record { leaf = l; replacement = hidden_from spans 0 l.value } ∷ rest
    else rest

abbrev pub is_structural : Kind → Bool
is_structural structural = true
is_structural _ = false

module _ {File : Type 0} (parts : Parts) (config : InspectionConfig) where
  unfoldable pub encode_edits : Json → Json → List Leaf → I File (List Edit)
  encode_edits value modified leaves = if json_eq modified value then pure [] else (do
    bytes ← lift (parts.encode_json modified)
    replacement ← lift (parts.decode_utf8 bytes)
    pure (cut_edits replacement leaves))

  -- A lane of JSON text.
  unfoldable pub edit_json : PiiAction → List Leaf → I File (List Edit)
  edit_json action leaves = do
    bytes ← lift (parts.encode_utf8 (join (values_of leaves)))
    value ← lift (parts.strict_json bytes)
    signatures parts config value
    modified ← redact_json parts config none action value
    encode_edits value modified leaves

  -- A lane of another kind.
  unfoldable pub edit_text : PiiAction → Kind → List Leaf → I File (List Edit)
  edit_text action kind leaves = do
    found ← find parts config (join (values_of leaves))
    extend (types found)
    refuse_if (not (is_empty found) && is_block action) "pii_block_policy"
    refuse_if (not (is_empty found) && is_structural kind) "pii_in_sse_structural_field"
    pure (mask_edits found 0 leaves)

  unfoldable pub edit_kind : PiiAction → Kind → List Leaf → I File (List Edit)
  edit_kind action json leaves = edit_json action leaves
  edit_kind action text leaves = edit_text action text leaves
  edit_kind action structural leaves = edit_text action structural leaves

  unfoldable pub edit_group : PiiAction → Group → I File (List Edit)
  edit_group action g = do
    signatures parts config (str (join (values_of g.leaves)))
    edit_kind action g.kind g.leaves

  -- The loop over the lanes.
  unfoldable pub edit_groups : PiiAction → List Group → I File (List Edit)
  edit_groups action [] = pure []
  edit_groups action (g ∷ gs) = do
    edits ← edit_group action g
    more ← edit_groups action gs
    pure (edits ++ more)

-- `parent[key] = text`, at a place of a value.
unfoldable mutual
  pub set_at : List Step → String → Json → Json
  set_at [] t j = str t
  set_at (key k ∷ ss) t (obj fs) = obj (set_field k ss t fs)
  set_at (at i ∷ ss) t (arr js) = arr (set_item i ss t js)
  set_at (key k ∷ ss) t j = j
  set_at (at i ∷ ss) t j = j

  pub set_field : String → List Step → String → Fields → Fields
  set_field k ss t end = end
  set_field k ss t (field j v fs) =
      if str_eq j k then field j (set_at ss t v) fs else field j v (set_field k ss t fs)

  pub set_item : ℕ → List Step → String → Items → Items
  set_item i ss t nil = nil
  set_item zero ss t (cons v js) = cons (set_at ss t v) js
  set_item (suc i) ss t (cons v js) = cons v (set_item i ss t js)
