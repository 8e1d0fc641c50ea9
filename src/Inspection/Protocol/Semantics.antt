-- ===== src/Inspection/Protocol/Semantics.antt =====
-- inspection/protocol.py: what a request does (`semantics`): its tool, its action and its resource.
pub mod Agreement
use ai_security_gateway.Base.{
  ℕ, String, Bool, true, false, ◌&&◌, ◌||◌, not, Option, none, some, List, [], ◌∷◌, leb, str_eq,
  is_set, codes, length, contains, if◌then◌else◌,
}
use ai_security_gateway.Base.Dict
use ai_security_gateway.Base.Result.{Result, ok, err, ◌>>=◌, ◌>>◌, require}
use ai_security_gateway.Inspection.Json.{
  Json, null, bool, int, float, str, arr, obj, Fields, end, member, ℤ,
}
use ai_security_gateway.Inspection.Contracts.{
  Raised, inspection_error, HttpMessage, RouteRule, ToolRule, http, mcp,
}
use ai_security_gateway.Inspection.Protocol.Pointer.{pointer}
use ai_security_gateway.Inspection.Protocol.Headers.{
  Readings, mismatch, nullable, decode_mcp_header, header_parameters,
}

abbrev pub stateless : String
stateless = "2026-07-28"

-- `value.get(key, default)` and `headers.get(key, default)`
abbrev pub or_else {ℓ} : {A : Type ℓ} → Option A → A → A
or_else none a = a
or_else (some b) a = b

abbrev pub is_text : Option Json → String → Bool
is_text (some (str s)) t = str_eq s t
is_text _ t = false

-- `if not isinstance(value, dict): raise`
unfoldable pub fields_of : Raised → Json → Result Raised Fields
fields_of e (obj fs) = ok fs
fields_of e _ = err e

unfoldable pub text_of : Raised → Option Json → Result Raised String
text_of e (some (str t)) = ok t
text_of e _ = err e

abbrev pub is_missing : Option Json → Bool
is_missing none = true
is_missing (some v) = false

-- The version in the header and the one in the body's metadata.
unfoldable pub check_version : String → Option Json → Result Raised (Unit {0})
check_version version body =
    require ((not (str_eq version stateless) && is_missing body) || is_text body version) mismatch

-- `headers.get("mcp-method", None if version == "2026-07-28" else method) != method`
unfoldable pub agrees : String → String → Option String → Bool
agrees version method none = not (str_eq version stateless)
agrees version method (some h) = str_eq h method

abbrev pub named_methods : List String
named_methods = "tools/call" ∷ "resources/read" ∷ "prompts/get" ∷ []

-- The name in the header and the one in the body.
unfoldable pub check_name_header :
    Readings → String → String → Option String → Result Raised (Unit {0})
check_name_header rd version expected none = require (not (str_eq version stateless)) mismatch
check_name_header rd version expected (some header) = do
  name ← decode_mcp_header rd header
  require (str_eq name expected) mismatch

unfoldable pub check_name :
    Readings → HttpMessage → String → String → Fields → Result Raised (Unit {0})
check_name rd m version method params =
    if contains named_methods method
    then (do
      expected ←
          text_of mismatch
            (member (if str_eq method "resources/read" then "uri" else "name") params)
      require (is_set expected) mismatch
      check_name_header rd version expected (Dict.get "mcp-name" m.headers))
    else ok tt

-- The tool of a call, or the method itself.
unfoldable pub tool_of : String → Fields → Result Raised String
tool_of method params =
    if str_eq method "tools/call"
    then (do
      arguments ←
          fields_of (inspection_error "invalid_mcp_arguments")
            (or_else (member "arguments" params) (obj end))
      text_of mismatch (member "name" params))
    else ok method

unfoldable pub found_rule : Raised → Option ToolRule → Result Raised ToolRule
found_rule e none = err e
found_rule e (some r) = ok r

unfoldable pub check_mapped :
    Readings → HttpMessage → String → ToolRule → Json → Result Raised (Unit {0})
check_mapped rd m method rule value =
    if str_eq method "tools/call" then header_parameters rd m rule value else ok tt

-- The branch for MCP, where the method and the parameters are known.
unfoldable pub mcp_method :
    Readings
    → HttpMessage
    → RouteRule
    → Json
    → String
    → Fields
    → String
    → Result Raised (String × ToolRule)
mcp_method rd m r value version params method = do
  require (agrees version method (Dict.get "mcp-method" m.headers)) mismatch
  tool ← tool_of method params
  check_name rd m version method params
  rule ← found_rule (inspection_error "unmapped_tool") (Dict.get tool r.tools)
  check_mapped rd m method rule value
  ok (tool, rule)

unfoldable pub mcp_params :
    Readings
    → HttpMessage
    → RouteRule
    → Json
    → String
    → Fields
    → Fields
    → Result Raised (String × ToolRule)
mcp_params rd m r value version envelope params = do
  metadata ←
      fields_of (inspection_error "invalid_mcp_metadata")
        (or_else (member "_meta" params) (obj end))
  check_version version (nullable (member "io.modelcontextprotocol/protocolVersion" metadata))
  method ← text_of (inspection_error "invalid_mcp_method") (member "method" envelope)
  mcp_method rd m r value version params method

-- The branch for MCP, after the envelope.
unfoldable pub mcp_call :
    Readings → HttpMessage → RouteRule → Json → Fields → Result Raised (String × ToolRule)
mcp_call rd m r value envelope = do
  let version = or_else (Dict.get "mcp-protocol-version" m.headers) "2025-03-26"
  require (contains r.mcp_versions version) (inspection_error "unsupported_mcp_version")
  params ←
      fields_of (inspection_error "invalid_mcp_arguments")
        (or_else (member "params" envelope) (obj end))
  mcp_params rd m r value version envelope params

unfoldable pub mcp_envelope : Json → Result Raised Fields
mcp_envelope value = do
  fs ← fields_of (inspection_error "unsupported_mcp_envelope") value
  require (is_text (member "jsonrpc" fs) "2.0") (inspection_error "unsupported_mcp_envelope")
  ok fs

unfoldable pub tool_rule :
    Readings → HttpMessage → RouteRule → Json → Result Raised (String × ToolRule)
tool_rule rd m r value = elim r.protocol [
  | mcp ↦ (do envelope ← mcp_envelope value; mcp_call rd m r value envelope)
  | http ↦ (do
    rule ← found_rule (inspection_error "unmapped_http_action") r.rule
    ok (r.tool_name, rule))
]

abbrev pub given_text : Option String → Option Json
given_text none = none
given_text (some t) = some (str t)

-- `pointer(value, rule.resource_pointer) if rule.resource_pointer else rule.resource`
unfoldable pub resource_value : (String → Option ℤ) → ToolRule → Json → Result Raised (Option Json)
resource_value int_of rule value =
    if is_set (or_else rule.resource_pointer "")
    then (do v ← pointer int_of value (or_else rule.resource_pointer ""); ok (some v))
    else ok (given_text rule.resource)

unfoldable pub resource_of : (String → Option ℤ) → ToolRule → Json → Result Raised String
resource_of int_of rule value = do
  v ← resource_value int_of rule value
  t ← text_of (inspection_error "invalid_resource") v
  require (is_set t && leb (length (codes t)) 2048) (inspection_error "invalid_resource")
  ok t

-- `semantics`
unfoldable pub semantics :
    Readings
    → (String → Option ℤ)
    → HttpMessage
    → RouteRule
    → Json
    → Result Raised (String × String × String)
semantics rd int_of m r value = do
  found ← tool_rule rd m r value
  resource ← resource_of int_of found.1 value
  ok (found.0, found.1.action, resource)
