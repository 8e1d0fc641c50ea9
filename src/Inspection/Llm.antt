-- ===== src/Inspection/Llm.antt =====
-- inspection/llm.py: the requests and responses of model providers that can be inspected
-- (`validate_llm`), and the timestamps of their protocols (`response_timestamp`).
pub mod Content
use ai_security_gateway.Base.{
  ℕ, String, Bool, true, false, ◌&&◌, ◌||◌, not, Option, none, some, List, [], ◌∷◌, leb, str_eq,
  is_set, contains, opt_eq, if◌then◌else◌,
}
use ai_security_gateway.Base.Result.{Result, ok, err, ◌>>=◌, ◌>>◌, require}
use ai_security_gateway.Inspection.Json.{
  Json, null, bool, int, float, str, arr, obj, Items, nil, cons, Fields, end, field, member, ℤ, pos,
  negsuc,
}
use ai_security_gateway.Inspection.Contracts.{
  Raised, inspection_error, other_exception, RouteRule, ToolRule,
}

abbrev pub blocked_keys : List String
blocked_keys =
    "inlineData" ∷ "inline_data" ∷ "fileData" ∷ "file_data" ∷ "image_url" ∷ "input_audio" ∷ "audio"
    ∷ "video" ∷ "encrypted_content" ∷ "thoughtSignature" ∷ "thought_signature" ∷ "redacted_thinking"
    ∷ "cachedContent" ∷ "cached_content" ∷ "previous_response_id" ∷ "conversation" ∷ "background"
    ∷ []

abbrev pub blocked_types : List String
blocked_types =
    "image" ∷ "input_image" ∷ "input_file" ∷ "file" ∷ "computer" ∷ "computer_use" ∷ "web_search"
    ∷ "web_search_preview" ∷ "code_interpreter" ∷ "mcp" ∷ "server_tool_use" ∷ "redacted_thinking"
    ∷ []

-- `value in (None, False, [])`: zero equals `False`.
unfoldable pub is_void : Json → Bool
is_void null = true
is_void (bool b) = not b
is_void (int (pos ℕ.zero)) = true
is_void (int (pos (ℕ.suc n))) = false
is_void (int (negsuc n)) = false
is_void (float f) = str_eq f "0.0" || str_eq f "-0.0"
is_void (str t) = false
is_void (arr nil) = true
is_void (arr (cons x xs)) = false
is_void (obj fs) = false

-- `k in node and node[k] not in (None, False, [])`
unfoldable pub is_filled : Option Json → Bool
is_filled none = false
is_filled (some v) = not (is_void v)

unfoldable pub any_filled : List String → Fields → Bool
any_filled [] fs = false
any_filled (k ∷ ks) fs = is_filled (member k fs) || any_filled ks fs

abbrev pub unsupported : String → Raised
unsupported reason = inspection_error reason

-- `node.get('type') in {...}`: a list or a dict cannot be looked up in a set.
unfoldable pub check_type : Option Json → Result Raised (Unit {0})
check_type (some (str t)) =
    require (not (contains blocked_types t)) (unsupported "unsupported_llm_content")
check_type (some (arr xs)) = err other_exception
check_type (some (obj fs)) = err other_exception
check_type _ = ok tt

unfoldable pub check_node : Fields → Result Raised (Unit {0})
check_node fs = do
  require (not (any_filled blocked_keys fs)) (unsupported "unsupported_llm_content")
  check_type (member "type" fs)

-- `walk`
unfoldable mutual
  pub walk : Json → Result Raised (Unit {0})
  walk (obj fs) = check_node fs >> walk_fields fs
  walk (arr xs) = walk_items xs
  walk null = ok tt
  walk (bool b) = ok tt
  walk (int i) = ok tt
  walk (float f) = ok tt
  walk (str t) = ok tt

  pub walk_items : Items → Result Raised (Unit {0})
  walk_items nil = ok tt
  walk_items (cons x xs) = walk x >> walk_items xs

  pub walk_fields : Fields → Result Raised (Unit {0})
  walk_fields end = ok tt
  walk_fields (field k x fs) = walk x >> walk_fields fs

abbrev pub is_type : String → Option Json → Bool
is_type t (some (str s)) = str_eq s t
is_type t _ = false

abbrev pub is_string : Option Json → Bool
is_string (some (str s)) = true
is_string _ = false

abbrev pub has : String → Fields → Bool
has k end = false
has k (field j v fs) = str_eq j k || has k fs

-- `set(tool) == {'functionDeclarations'}` of a dict that has the key.
unfoldable pub only_declarations : Fields → Bool
only_declarations end = true
only_declarations (field k v fs) = str_eq k "functionDeclarations" && only_declarations fs

-- `tool.get('type', 'custom') == 'custom'`
unfoldable pub is_custom : Option Json → Bool
is_custom none = true
is_custom (some v) = is_type "custom" (some v)

-- A tool that the gateway's client runs, in the form of the provider.
unfoldable pub is_supported : Option String → Fields → Bool
is_supported provider fs =
    if opt_eq provider (some "google") && has "functionDeclarations" fs
    then only_declarations fs
    else if opt_eq provider (some "anthropic")
    then is_custom (member "type" fs) && is_string (member "name" fs)
    else is_type "function" (member "type" fs)

unfoldable pub check_tool : Option String → Json → Result Raised (Unit {0})
check_tool provider (obj fs) =
    require (is_supported provider fs) (unsupported "unsupported_llm_tools")
check_tool provider _ = err (unsupported "unsupported_llm_tools")

unfoldable pub check_tools : Option String → Items → Result Raised (Unit {0})
check_tools provider nil = ok tt
check_tools provider (cons x xs) = check_tool provider x >> check_tools provider xs

unfoldable pub check_tool_list : Option String → Option Json → Result Raised (Unit {0})
check_tool_list provider none = ok tt
check_tool_list provider (some (arr xs)) = check_tools provider xs
check_tool_list provider (some _) = err (unsupported "unsupported_llm_tools")

abbrev pub is_pointed : Option String → Bool
is_pointed none = false
is_pointed (some p) = is_set p

abbrev pub is_listed : List String → Option Json → Bool
is_listed models (some (str t)) = contains models t
is_listed models _ = false

-- `route.rule.resource_pointer`, where a route without a rule raises `AttributeError`.
unfoldable pub check_model : RouteRule → Fields → Option ToolRule → Result Raised (Unit {0})
check_model r fs none = err other_exception
check_model r fs (some rule) =
    require
      (not (is_pointed rule.resource_pointer) || is_listed r.allowed_models (member "model" fs))
      (unsupported "model_not_allowed")

unfoldable pub check_envelope : Fields → RouteRule → Bool → Result Raised (Unit {0})
check_envelope fs r response = do
  if response then ok tt else check_model r fs r.rule
  walk (obj fs)
  if response then ok tt else check_tool_list r.llm_provider (member "tools" fs)

-- `validate_llm`
unfoldable pub validate_llm : Json → RouteRule → Bool → Result Raised (Unit {0})
validate_llm (obj fs) r response = check_envelope fs r response
validate_llm _ r response = err (unsupported "unsupported_llm_envelope")

-- `946684800 <= value <= 4102444800` of an integer.
unfoldable pub is_instant : Json → Bool
is_instant (int (pos n)) = leb 946684800 n && leb n 4102444800
is_instant _ = false

abbrev pub is_provider : List String → Option String → Bool
is_provider ps none = false
is_provider ps (some p) = contains ps p

unfoldable pub text_among : List String → Option Json → Bool
text_among ts (some (str t)) = contains ts t
text_among ts _ = false

-- `isinstance(envelope.get("response"), dict) and ...`
unfoldable pub is_response : Option Json → Bool
is_response (some (obj fs)) = text_among ("response" ∷ []) (member "object" fs)
is_response _ = false

abbrev pub path_eq : List String → List String → Bool
path_eq [] [] = true
path_eq (k ∷ ks) (l ∷ ls) = str_eq k l && path_eq ks ls
path_eq [] (l ∷ ls) = false
path_eq (k ∷ ks) [] = false

abbrev pub response_events : List String
response_events =
    "response.created" ∷ "response.in_progress" ∷ "response.completed" ∷ "response.failed" ∷ []

-- `response_timestamp`
unfoldable pub response_timestamp : Json → Fields → List String → Option String → Bool
response_timestamp value envelope path provider =
    if not (is_provider ("openai" ∷ "openrouter" ∷ "google" ∷ []) provider && is_instant value)
    then false
    else if path_eq path ("created" ∷ [])
    then text_among ("chat.completion" ∷ "chat.completion.chunk" ∷ []) (member "object" envelope)
    else if is_provider ("openai" ∷ []) provider && path_eq path ("created_at" ∷ [])
    then text_among ("response" ∷ []) (member "object" envelope)
    else is_provider ("openai" ∷ []) provider
      && path_eq path ("response" ∷ "created_at" ∷ [])
      && text_among response_events (member "type" envelope)
      && is_response (member "response" envelope)
