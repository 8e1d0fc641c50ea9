-- ===== src/Tests/ProtocolData.antt =====
-- An MCP route with one tool, a call of it, and functions for Python's.
use ai_security_gateway.Base.{true, false, none, some, [], ◌∷◌}
use ai_security_gateway.Base.Result.{ok}
use ai_security_gateway.Inspection.Json.{str, obj, Fields, end, field}
use ai_security_gateway.Inspection.Contracts.{HttpMessage, RouteRule, InspectionConfig, mcp}
use ai_security_gateway.Inspection.Protocol.Headers.{Readings}
use ai_security_gateway.Inspection.Protocol.Egress.{Url, Urls}
use ai_security_gateway.Inspection.Wiring.{Externals}
use ai_security_gateway.Tests.InspectionData.{route_rule, rule, config, message}

abbrev pub readings : Readings
readings = record { decode_base64 = λ t. some t; lower = λ t. t; is_decimal = λ t n. false }

abbrev pub url : Url
url = record {
  scheme = "https";
  hostname = some "api.example";
  username = none;
  password = none;
  fragment = "";
  port = some none;
}

abbrev pub urls : Urls
urls = record {
  strip = λ t. t;
  unquote = λ t. t;
  lower = λ t. t;
  urlsplit = λ t. some url;
  idna = λ t. some t;
  digits_of = λ n. "443";
}

abbrev pub mcp_route : RouteRule
mcp_route = record route_rule {
  protocol = mcp;
  mcp_versions = "2025-06-18" ∷ [];
  tools = ("send", rule) ∷ [];
}

abbrev pub mcp_message : HttpMessage
mcp_message = record message {
  headers = ("mcp-protocol-version", "2025-06-18") ∷ ("mcp-name", "send") ∷ [];
}

abbrev pub params : Fields
params = field "name" (str "send") (field "arguments" (obj end) end)

abbrev pub body : Fields
body =
    field "jsonrpc" (str "2.0")
      (field "method" (str "tools/call") (field "params" (obj params) end))

abbrev pub open_config : InspectionConfig
open_config = record config { allowed_egress_origins = "https://api.example:443" ∷ [] }

abbrev pub externals : Externals
externals = record {
  analyze = λ t. ok [];
  contains_secret = λ v. ok false;
  is_suspicious = λ t. some false;
  deadline_passed = λ n. false;
  seconds = λ n. n;
  loads = λ b. ok (str "h");
  is_finite = λ t. true;
  encode_json = λ v. ok [];
  encode_utf8 = λ t. ok [];
  decode_utf8 = λ b. ok "h";
  number_text = λ n. "0";
  int_of = λ t. none;
  path_texts = λ t. ok [];
  query_texts = λ t. some [];
  target_path = λ t. ok t;
  readings = readings;
  urls = urls;
}
