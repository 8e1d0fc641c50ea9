-- ===== src/Inspection/Redact.antt =====
-- inspection/engine.py: the masks over personal data, and the values that are redacted (`_mask`,
-- `_redact_json`).
pub mod Clean
pub mod Blocking
use Prim.Native.String.{◌++◌ as str_append}
use Prim.Native.Char.{code}
use ai_security_gateway.Base.{
  drop_text, split, take_text, ℕ, zero, suc, String, Bool, true, false, ◌&&◌, ◌||◌, not, Option,
  none, some, List, [], ◌∷◌, ◌++◌, ltb, leb, ◌==◌, str_eq, if◌then◌else◌,
}
use ai_security_gateway.Base.Result.{Result, ok, err}
use ai_security_gateway.Base.Exec.{Exec, pure, raise, lift, gets, ◌>>=◌, ◌>>◌}
use ai_security_gateway.Inspection.Json.{
  Json, null, bool, int, float, str, arr, obj, ℤ, pos, lebℤ, Items, nil, cons, Fields, end, field,
}
use ai_security_gateway.Inspection.Contracts.{
  Raised, inspection_error, Bytes, InspectionConfig, PiiAction, redact, block,
}
use ai_security_gateway.Inspection.Session.{
  Finding, Parts, I, find, extend, refuse_if, signatures, types, is_empty,
}

abbrev pub Span : Type 0
Span = ℕ × ℕ

-- `sorted(findings, key=lambda f: (f.start, f.end))`, which is stable.
abbrev comes_before : Finding → Finding → Bool
comes_before f g = ltb f.start g.start || (f.start == g.start && leb f.stop g.stop)

unfoldable pub insert : Finding → List Finding → List Finding
insert f [] = f ∷ []
insert f (g ∷ gs) = if comes_before f g then f ∷ g ∷ gs else g ∷ insert f gs

unfoldable pub sorted : List Finding → List Finding
sorted [] = []
sorted (f ∷ fs) = insert f (sorted fs)

-- The spans, the last one first: a finding that touches the last span extends it.
unfoldable pub merge : List Span → List Finding → List Span
merge spans [] = spans
merge [] (f ∷ fs) = merge ((f.start, f.stop) ∷ []) fs
merge ((a, b) ∷ spans) (f ∷ fs) =
    if leb f.start b
    then merge ((a, if ltb b f.stop then f.stop else b) ∷ spans) fs
    else merge ((f.start, f.stop) ∷ (a, b) ∷ spans) fs

-- The replacements, from the last span to the first.
unfoldable pub replace_spans : List Span → String → String
replace_spans [] text = text
replace_spans ((a, b) ∷ spans) text =
    replace_spans spans (str_append (take_text a text) (str_append "[REDACTED]" (drop_text b text)))

-- `_mask`
unfoldable pub mask : String → List Finding → String
mask text findings = replace_spans (merge [] (sorted findings)) text

-- `p.replace("~1", "/").replace("~0", "~")`
unfoldable pub replace_slash : String → String
replace_slash String.[] = ""
replace_slash (String.◌∷◌ c String.[]) = String.◌∷◌ c String.[]
replace_slash (String.◌∷◌ c (String.◌∷◌ d s)) =
    let rest = replace_slash s in
    let next = replace_slash (String.◌∷◌ d s) in
    if code c == b'~' && code d == b'1' then str_append "/" rest else String.◌∷◌ c next

unfoldable pub replace_tilde : String → String
replace_tilde String.[] = ""
replace_tilde (String.◌∷◌ c String.[]) = String.◌∷◌ c String.[]
replace_tilde (String.◌∷◌ c (String.◌∷◌ d s)) =
    let rest = replace_tilde s in
    let next = replace_tilde (String.◌∷◌ d s) in
    if code c == b'~' && code d == b'0' then str_append "~" rest else String.◌∷◌ c next

-- `pattern.split("/")[1:]`, each part unescaped.
abbrev pub unescaped : List String → List String
unescaped [] = []
unescaped (p ∷ ps) = replace_tilde (replace_slash p) ∷ unescaped ps

abbrev pub parts_of : List String → List String
parts_of [] = []
parts_of (p ∷ ps) = unescaped ps

unfoldable pub path_matches : List String → List String → Bool
path_matches [] [] = true
path_matches (r ∷ rs) (v ∷ vs) = (str_eq r "*" || str_eq r v) && path_matches rs vs
path_matches [] (v ∷ vs) = false
path_matches (r ∷ rs) [] = false

unfoldable pub field_allowed : List String → List String → Bool
field_allowed path [] = false
field_allowed path (p ∷ ps) = path_matches (parts_of (split b'/' p)) path || field_allowed path ps

-- `fields is not None and not field_allowed(path, fields)`
unfoldable pub is_protected : Option (List String) → List String → Bool
is_protected none path = false
is_protected (some fields) path = not (field_allowed path fields)

abbrev pub is_block : PiiAction → Bool
is_block block = true
is_block redact = false

-- Python's `!=` on a value and its redaction, which differ in texts alone.
unfoldable mutual
  pub json_eq : Json → Json → Bool
  json_eq null null = true
  json_eq (bool a) (bool b) = if a then b else not b
  json_eq (int a) (int b) = lebℤ a b && lebℤ b a
  json_eq (float a) (float b) = str_eq a b
  json_eq (str a) (str b) = str_eq a b
  json_eq (arr xs) (arr ys) = items_eq xs ys
  json_eq (obj xs) (obj ys) = fields_eq xs ys
  json_eq _ _ = false

  pub items_eq : Items → Items → Bool
  items_eq nil nil = true
  items_eq (cons x xs) (cons y ys) = json_eq x y && items_eq xs ys
  items_eq _ _ = false

  pub fields_eq : Fields → Fields → Bool
  fields_eq end end = true
  fields_eq (field j x xs) (field k y ys) = str_eq j k && json_eq x y && fields_eq xs ys
  fields_eq _ _ = false

-- `path and path[-1] == "arguments"`
unfoldable pub ends_in_arguments : List String → Bool
ends_in_arguments [] = false
ends_in_arguments (k ∷ []) = str_eq k "arguments"
ends_in_arguments (k ∷ l ∷ ks) = ends_in_arguments (l ∷ ks)

module _ {File : Type 0} (parts : Parts) (config : InspectionConfig) where
  -- A text in which something is found is masked, or refused.
  unfoldable pub redact_found :
      Option (List String) → PiiAction → List String → String → List Finding → I File Json
  redact_found fields action path text found =
      if is_empty found
      then pure (str text)
      else if is_block action
      then raise (inspection_error "pii_block_policy")
      else if is_protected fields path
      then raise (inspection_error "pii_in_nonredactable_field")
      else pure (str (mask text found))

  unfoldable pub redact_text : Option (List String) → PiiAction → List String → String → I File Json
  redact_text fields action path text = do
    found ← find parts config text
    extend (types found)
    redact_found fields action path text found

  -- A number in which something is found is refused.
  unfoldable pub check_number : Json → String → I File Json
  check_number value text = do
    found ← find parts config text
    refuse_if (not (is_empty found)) "pii_in_numeric_field"
    pure value

  unfoldable pub check_key : String → I File (Unit {0})
  check_key k = do
    found ← find parts config k
    refuse_if (not (is_empty found)) "pii_in_structural_field"

  -- The walk through a value, with the redaction of a text at its path.
  module _ (leaf : List String → String → I File Json) where
    unfoldable mutual
      pub walk : List String → Json → I File Json
      walk path (obj fs) = do fs' ← walk_fields path fs; pure (obj fs')
      walk path (arr xs) = do xs' ← walk_items path 0 xs; pure (arr xs')
      walk path (str t) = leaf path t
      walk path (int i) = check_number (int i) (parts.number_text i)
      walk path (float f) = check_number (float f) f
      walk path (bool b) = pure (bool b)
      walk path null = pure null

      pub walk_items : List String → ℕ → Items → I File Items
      walk_items path i nil = pure nil
      walk_items path i (cons x xs) = do
        x' ← walk (path ++ parts.number_text (pos i) ∷ []) x
        xs' ← walk_items path (suc i) xs
        pure (cons x' xs')

      pub walk_fields : List String → Fields → I File Fields
      walk_fields path end = pure end
      walk_fields path (field k v fs) = do
        check_key k
        v' ← walk (path ++ k ∷ []) v
        fs' ← walk_fields path fs
        pure (field k v' fs')

  -- `_redact_json` without `json_arguments`.
  unfoldable pub redact_json : Option (List String) → PiiAction → Json → I File Json
  redact_json fields action value = walk (redact_text fields action) [] value

  -- The JSON text of a tool call's arguments is decoded, redacted and encoded again.
  unfoldable pub encode_arguments :
      Option (List String) → List String → String → Json → Json → I File Json
  encode_arguments fields path text decoded modified =
      if json_eq modified decoded
      then pure (str text)
      else if is_protected fields path
      then raise (inspection_error "pii_in_nonredactable_field")
      else (do
        bytes ← lift (parts.encode_json modified)
        encoded ← lift (parts.decode_utf8 bytes)
        pure (str encoded))

  unfoldable pub redact_decoded :
      Option (List String) → PiiAction → List String → String → Json → I File Json
  redact_decoded fields action path text decoded = do
    signatures parts config decoded
    modified ← redact_json none action decoded
    encode_arguments fields path text decoded modified

  unfoldable pub redact_arguments :
      Option (List String) → PiiAction → List String → String → I File Json
  redact_arguments fields action path text = do
    bytes ← lift (parts.encode_utf8 text)
    decoded ← lift (parts.strict_json bytes)
    redact_decoded fields action path text decoded

  unfoldable pub redact_leaf :
      Bool → Option (List String) → PiiAction → List String → String → I File Json
  redact_leaf json_arguments fields action path text =
      if json_arguments && ends_in_arguments path
      then redact_arguments fields action path text
      else redact_text fields action path text

  -- `_redact_json`
  unfoldable pub redact_value : Bool → Option (List String) → PiiAction → Json → I File Json
  redact_value json_arguments fields action value =
      walk (redact_leaf json_arguments fields action) [] value
