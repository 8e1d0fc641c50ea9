-- ===== src/Inspection/Protocol/Semantics/Agreement.antt =====
-- inspection/protocol.py: what `semantics` returns agrees with the route, the body and the headers.
use ai_security_gateway.Base.{
  ◌≤◌, String, ◌≡◌, ap, ◌∙◌, subst, true, Option, none, some, arith, eq_iff, str_eq, is_set, codes,
  length, contains,
}
use ai_security_gateway.Base.Dict
use ai_security_gateway.Base.Result.{ok, require, bind-ok, require-ok}
use ai_security_gateway.Inspection.Json.{Json, str, obj, Fields, end, member, ℤ}
use ai_security_gateway.Inspection.Contracts.{
  Raised, inspection_error, HttpMessage, RouteRule, ToolRule, mcp,
}
use ai_security_gateway.Inspection.Protocol.Headers.{
  Readings, mismatch, nullable, decode_mcp_header,
}
use ai_security_gateway.Inspection.Protocol.Semantics.{
  or_else, fields_of, text_of, check_version, agrees, check_name_header, check_name, tool_of,
  found_rule, check_mapped, mcp_call, mcp_method, mcp_params, mcp_envelope, tool_rule,
  resource_value, resource_of, semantics,
}

text_of-ok : (e : Raised) (v : Option Json) {t : String} → text_of e v ≡ ok t → v ≡ some (str t)
unfolding text_of
text_of-ok e v h = ground arith

fields_of-ok : (e : Raised) (v : Json) {fs : Fields} → fields_of e v ≡ ok fs → v ≡ obj fs
unfolding fields_of
fields_of-ok e v h = ground arith

found_rule-ok :
    (e : Raised) (v : Option ToolRule) {r : ToolRule} → found_rule e v ≡ ok r → v ≡ some r
unfolding found_rule
found_rule-ok e v h = ground arith

module _ (rd : Readings) (int_of : String → Option ℤ) where
  -- A resource is a text that is not empty and not too long.
  resource_of-bounds :
      (rule : ToolRule) (value : Json) {t : String}
      → resource_of int_of rule value ≡ ok t
      → (is_set t ≡ true) × (length (codes t) ≤ 2048)
  unfolding resource_of
  resource_of-bounds rule value h =
      let (v, _, k) = bind-ok (resource_value int_of rule value) _ h in
      let (t, _, l) = bind-ok (text_of (inspection_error "invalid_resource") v) _ k in ground arith

  -- The name that the header has, where it has one, decodes to this.
  abbrev pub NameAgrees : Option String → String → Type 0
  NameAgrees none t = Unit
  NameAgrees (some h) t = decode_mcp_header rd h ≡ ok t

  check_name_header-NameAgrees :
      (version expected : String) (o : Option String) {u : Unit {0}}
      → check_name_header rd version expected o ≡ ok u
      → NameAgrees o expected
  unfolding check_name_header
  check_name_header-NameAgrees version expected none h = tt
  check_name_header-NameAgrees version expected (some t) h =
      let (name, e, k) = bind-ok (decode_mcp_header rd t) _ h in
      let same = require-ok (str_eq name expected) mismatch k in
      e ∙ ap ok ((eq_iff name expected).0 same)

  -- What a call of a tool says, in the body and in the headers.
  pub record Call (m : HttpMessage) (r : RouteRule) (body : Fields) (tool : String) : Type 0 where
    pub params : Fields
    pub rule : ToolRule
    pub has_params : or_else (member "params" body) (obj end) ≡ obj params
    pub has_name : member "name" params ≡ some (str tool)
    pub is_mapped : Dict.get tool r.tools ≡ some rule
    pub header_agrees : NameAgrees (Dict.get "mcp-name" m.headers) tool

  named_call :
      (m : HttpMessage) (version tool : String) (params : Fields) {u : Unit {0}}
      → check_name rd m version "tools/call" params ≡ ok u
      → member "name" params ≡ some (str tool)
      → NameAgrees (Dict.get "mcp-name" m.headers) tool
  unfolding check_name contains text_of
  named_call m version tool params h n =
      let (expected, e, k) = bind-ok (text_of mismatch (member "name" params)) _ h in
      let same : expected ≡ tool = ground arith in
      let (_, _, l) = bind-ok (require (is_set expected) mismatch) _ k in
      subst (NameAgrees (Dict.get "mcp-name" m.headers)) same
        (check_name_header-NameAgrees version expected (Dict.get "mcp-name" m.headers) l)

  tool_of-name :
      (params : Fields) {t : String}
      → tool_of "tools/call" params ≡ ok t
      → member "name" params ≡ some (str t)
  unfolding tool_of
  tool_of-name params h =
      let (_, _, k) =
        bind-ok
          (fields_of (inspection_error "invalid_mcp_arguments")
            (or_else (member "arguments" params) (obj end)))
          _ h in
      text_of-ok mismatch (member "name" params) k

  mcp_method-Call :
      (m : HttpMessage) (r : RouteRule) (value : Json) (version : String) (body params : Fields)
      (tool : String) (rule : ToolRule)
      → mcp_method rd m r value version params "tools/call" ≡ ok (tool, rule)
      → or_else (member "params" body) (obj end) ≡ obj params
      → (c : Call m r body tool) × (c.rule ≡ rule)
  unfolding mcp_method
  mcp_method-Call m r value version body params tool rule h p =
      let (_, _, h1) =
        bind-ok (require (agrees version "tools/call" (Dict.get "mcp-method" m.headers)) mismatch) _
          h in
      let (t, e, h2) = bind-ok (tool_of "tools/call" params) _ h1 in
      let (_, c, h3) = bind-ok (check_name rd m version "tools/call" params) _ h2 in
      let (found, g, h4) =
        bind-ok (found_rule (inspection_error "unmapped_tool") (Dict.get t r.tools)) _ h3 in
      let (_, _, h5) = bind-ok (check_mapped rd m "tools/call" found value) _ h4 in
      let same : t ≡ tool = ground arith in
      let named = subst (λ x. member "name" params ≡ some (str x)) same (tool_of-name params e) in
      let mapped = found_rule-ok (inspection_error "unmapped_tool") (Dict.get t r.tools) g in
      (
        record {
          params = params;
          rule = found;
          has_params = p;
          has_name = named;
          is_mapped = subst (λ x. Dict.get x r.tools ≡ some found) same mapped;
          header_agrees = named_call m version tool params c named;
        },
        ground arith,
      )

  mcp_params-Call :
      (m : HttpMessage) (r : RouteRule) (value : Json) (version : String) (body params : Fields)
      (tool : String) (rule : ToolRule)
      → mcp_params rd m r value version body params ≡ ok (tool, rule)
      → member "method" body ≡ some (str "tools/call")
      → or_else (member "params" body) (obj end) ≡ obj params
      → (c : Call m r body tool) × (c.rule ≡ rule)
  unfolding mcp_params
  mcp_params-Call m r value version body params tool rule h n p =
      let (metadata, _, h1) =
        bind-ok
          (fields_of (inspection_error "invalid_mcp_metadata")
            (or_else (member "_meta" params) (obj end)))
          _ h in
      let (_, _, h2) =
        bind-ok
          (check_version version
            (nullable (member "io.modelcontextprotocol/protocolVersion" metadata)))
          _ h1 in
      let (method, e, h3) =
        bind-ok (text_of (inspection_error "invalid_mcp_method") (member "method" body)) _ h2 in
      let f = text_of-ok (inspection_error "invalid_mcp_method") (member "method" body) e in
      let same : method ≡ "tools/call" = ground arith in
      mcp_method-Call m r value version body params tool rule
        (subst (λ x. mcp_method rd m r value version params x ≡ ok (tool, rule)) same h3) p

  mcp_call-Call :
      (m : HttpMessage) (r : RouteRule) (value : Json) (body : Fields) (tool : String)
      (rule : ToolRule)
      → mcp_call rd m r value body ≡ ok (tool, rule)
      → member "method" body ≡ some (str "tools/call")
      → (c : Call m r body tool) × (c.rule ≡ rule)
  unfolding mcp_call
  mcp_call-Call m r value body tool rule h n =
      let version = or_else (Dict.get "mcp-protocol-version" m.headers) "2025-03-26" in
      let (_, _, h1) =
        bind-ok
          (require (contains r.mcp_versions version) (inspection_error "unsupported_mcp_version")) _
          h in
      let (params, e, h2) =
        bind-ok
          (fields_of (inspection_error "invalid_mcp_arguments")
            (or_else (member "params" body) (obj end)))
          _ h1 in
      mcp_params-Call m r value version body params tool rule h2 n (
        fields_of-ok (inspection_error "invalid_mcp_arguments")
          (or_else (member "params" body) (obj end)) e)

  -- What `semantics` returns for a call of a tool on an MCP route is what the body and the headers
  -- say: the tool is the one that the body names and the route maps, a name in the headers decodes to
  -- it, the action is its rule's, and the resource is a text that is not empty and has at most 2048
  -- characters.
  pub semantics-Call :
      (m : HttpMessage) (r : RouteRule) (body : Fields) (tool action resource : String)
      → semantics rd int_of m r (obj body) ≡ ok (tool, action, resource)
      → r.protocol ≡ mcp
      → member "method" body ≡ some (str "tools/call")
      → (c : Call m r body tool) × (c.rule.action ≡ action)
        × (is_set resource ≡ true)
        × (length (codes resource) ≤ 2048)
  unfolding semantics tool_rule mcp_envelope fields_of
  semantics-Call m r body tool action resource h p n =
      let ((t, rule), e, h1) = bind-ok (tool_rule rd m r (obj body)) _ h in
      let (res, f, h2) = bind-ok (resource_of int_of rule (obj body)) _ h1 in
      let (set, short) = resource_of-bounds rule (obj body) f in
      let called : mcp_call rd m r (obj body) body ≡ ok (tool, rule) = ground arith in
      let (c, same) = mcp_call-Call m r (obj body) body tool rule called n in
      (c, ground arith, ground arith, ground arith)
