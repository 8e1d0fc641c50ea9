-- ===== src/Inspection/Wiring.antt =====
-- The inspection over its own protocol: the functions that engine.py imports from protocol.py and
-- llm.py take their places in it, `strict_json` and `response_timestamp` included.
pub mod Released
pub mod Streamed
use ai_security_gateway.Base.{
  ℕ, String, Bool, true, false, Option, none, some, List, [], ◌∷◌, if◌then◌else◌,
}
use ai_security_gateway.Base.Result.{Result, ok, err, ◌>>=◌}
use ai_security_gateway.Inspection.Json.{Json, obj, Fields, ℤ}
use ai_security_gateway.Inspection.Contracts.{
  Raised, Bytes, InspectionConfig, HttpMessage, RouteRule,
}
use ai_security_gateway.Inspection.Session.{Finding, Parts}
use ai_security_gateway.Inspection.Protocol
use ai_security_gateway.Inspection.Protocol.{check}
use ai_security_gateway.Inspection.Protocol.Headers.{Readings}
use ai_security_gateway.Inspection.Protocol.Semantics
use ai_security_gateway.Inspection.Protocol.Egress.{Urls, check_egress}
use ai_security_gateway.Inspection.Llm.{validate_llm, response_timestamp}

-- The scanners, and Python's text, JSON and URL functions. `loads` decodes UTF-8 and JSON, with the
-- errors that `strict_json` gives them; `target_path` is the path of a request's target, or the
-- `ValueError` of `urlsplit`.
pub record Externals : Type 0 where
  pub analyze : String → Result Raised (List Finding)
  pub contains_secret : Json → Result Raised Bool
  pub is_suspicious : String → Option Bool
  pub deadline_passed : ℕ → Bool
  pub seconds : ℕ → ℕ
  pub loads : Bytes → Result Raised Json
  pub is_finite : String → Bool
  pub encode_json : Json → Result Raised Bytes
  pub encode_utf8 : String → Result Raised Bytes
  pub decode_utf8 : Bytes → Result Raised String
  pub number_text : ℤ → String
  pub int_of : String → Option ℤ
  pub path_texts : String → Result Raised (List String)
  pub query_texts : String → Option (List String)
  pub target_path : String → Result Raised String
  pub readings : Readings
  pub urls : Urls

-- `strict_json(raw, max_depth)`, with its default for the nodes.
unfoldable pub strict_json : Externals → ℕ → Bytes → Result Raised Json
strict_json x max_depth raw = do
  value ← x.loads raw
  nodes ← check x.is_finite max_depth 8192 value 0 0
  ok value

-- `route_for`, of a message alone.
unfoldable pub route_of : Externals → InspectionConfig → HttpMessage → Result Raised RouteRule
route_of x config m = do
  path ← x.target_path m.path
  Protocol.route_for x.urls.lower config m path (x.urls.unquote path)

unfoldable pub parts : Externals → InspectionConfig → Parts
parts x config = record {
  analyze = x.analyze;
  contains_secret = x.contains_secret;
  is_suspicious = x.is_suspicious;
  deadline_passed = x.deadline_passed;
  seconds = x.seconds;
  strict_json = strict_json x config.max_json_depth;
  encode_json = x.encode_json;
  encode_utf8 = x.encode_utf8;
  decode_utf8 = x.decode_utf8;
  number_text = x.number_text;
  strip = x.urls.strip;
  path_texts = x.path_texts;
  query_texts = x.query_texts;
  validate_message = Protocol.validate_message x.urls.lower config;
  route_for = route_of x config;
  validate_llm = validate_llm;
  semantics = Semantics.semantics x.readings x.int_of;
  check_egress = check_egress x.urls config;
}

-- `response_timestamp(child, value, (key,), provider)` of a field of a dict.
unfoldable pub is_timestamp : Json → Json → String → Option String → Bool
is_timestamp v (obj envelope) key provider = response_timestamp v envelope (key ∷ []) provider
is_timestamp v _ key provider = false
