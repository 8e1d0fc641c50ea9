-- ===== src/Inspection/Protocol.antt =====
-- inspection/protocol.py: the limits of a decoded value (`strict_json`), the checks of a message
-- (`validate_message`) and its route (`route_for`). Python's `lower`, `urlsplit` and `unquote`, and the
-- test for finite floats, are parameters.
pub mod Limits
pub mod Pointer
pub mod Headers
pub mod Semantics
pub mod Egress
use Prim.Native.Char.{code}
use ai_security_gateway.Base.{
  has_char, split, starts_with, ℕ, suc, String, Bool, true, false, ◌&&◌, ◌||◌, not, Option, none,
  some, List, [], ◌∷◌, ltb, ◌==◌, str_eq, opt_eq, contains, length, if◌then◌else◌,
}
use ai_security_gateway.Base.Dict
use ai_security_gateway.Base.Dict.{Dict}
use ai_security_gateway.Base.Result.{Result, ok, err, ◌>>=◌, ◌>>◌, require}
use ai_security_gateway.Inspection.Json.{
  Json, null, bool, int, float, str, arr, obj, Items, nil, cons, Fields, end, field,
}
use ai_security_gateway.Inspection.Contracts.{
  Raised, inspection_error, HttpMessage, RouteRule, InspectionConfig,
}

-- The nodes seen, with this one.
unfoldable pub enter : ℕ → ℕ → ℕ → ℕ → Result Raised ℕ
enter max_depth max_nodes depth nodes =
    if ltb max_nodes (suc nodes)
    then err (inspection_error "json_node_limit_exceeded")
    else if ltb max_depth depth
    then err (inspection_error "json_depth_exceeded")
    else ok (suc nodes)

module _ (is_finite : String → Bool) (max_depth max_nodes : ℕ) where
  unfoldable pub check_float : String → ℕ → Result Raised ℕ
  check_float f nodes =
      if is_finite f then ok nodes else err (inspection_error "nonfinite_json_number")

  -- `check`, with the number of the nodes seen before; the children of a value at a depth stand one
  -- deeper.
  unfoldable mutual
    pub check : Json → ℕ → ℕ → Result Raised ℕ
    check (obj fs) depth nodes =
        enter max_depth max_nodes depth nodes >>= λ n. check_fields fs depth n
    check (arr xs) depth nodes =
        enter max_depth max_nodes depth nodes >>= λ n. check_items xs depth n
    check (float f) depth nodes = enter max_depth max_nodes depth nodes >>= λ n. check_float f n
    check (str t) depth nodes = enter max_depth max_nodes depth nodes
    check (int i) depth nodes = enter max_depth max_nodes depth nodes
    check (bool b) depth nodes = enter max_depth max_nodes depth nodes
    check null depth nodes = enter max_depth max_nodes depth nodes

    pub check_items : Items → ℕ → ℕ → Result Raised ℕ
    check_items nil depth nodes = ok nodes
    check_items (cons x xs) depth nodes = check x (suc depth) nodes >>= λ n. check_items xs depth n

    pub check_fields : Fields → ℕ → ℕ → Result Raised ℕ
    check_fields end depth nodes = ok nodes
    check_fields (field k x fs) depth nodes =
        check x (suc depth) nodes >>= λ n. check_fields fs depth n

-- `key in headers`
abbrev pub has_header : String → Dict String → Bool
has_header k [] = false
has_header k ((j, v) ∷ hs) = str_eq j k || has_header k hs

-- `any(c in text for c in "\\r\\n\\x00")`
unfoldable pub has_control : String → Bool
has_control String.[] = false
has_control (String.◌∷◌ c s) = (code c == 13 || code c == 10 || code c == 0) || has_control s

abbrev pub encoding : Option String → String
encoding none = "identity"
encoding (some e) = e

-- `validate_message`
unfoldable pub validate_message :
    (String → String) → InspectionConfig → HttpMessage → Result Raised (Unit {0})
validate_message lower config m = do
  require m.complete (inspection_error "incomplete_capture")
  require (not (ltb config.max_body_bytes (length m.body))) (inspection_error "body_limit_exceeded")
  require (str_eq (lower (encoding (Dict.get "content-encoding" m.headers))) "identity")
      (inspection_error "unsupported_content_encoding")
  require (not (has_header "upgrade" m.headers) && not (str_eq m.method "CONNECT"))
      (inspection_error "unsupported_upgrade")
  require (starts_with "/" m.path && not (starts_with "//" m.path))
      (inspection_error "invalid_target")
  require (not (has_control m.path) && not (has_control m.authority))
      (inspection_error "invalid_target")

unfoldable pub has_headers : (String → String) → Dict String → Dict String → Bool
has_headers lower headers [] = true
has_headers lower headers ((k, v) ∷ ks) =
    opt_eq (Dict.get (lower k) headers) (some v) && has_headers lower headers ks

-- The route is the message's, at the path of its target.
unfoldable pub is_route : (String → String) → HttpMessage → String → RouteRule → Bool
is_route lower m path r =
    str_eq m.authority r.authority
    && str_eq path r.path
    && str_eq m.method r.method
    && has_headers lower m.headers r.required_headers

unfoldable pub matching : (String → String) → HttpMessage → String → List RouteRule → List RouteRule
matching lower m path [] = []
matching lower m path (r ∷ rs) =
    if is_route lower m path r then r ∷ matching lower m path rs else matching lower m path rs

abbrev pub overrides : List String
overrides =
    "x-http-method-override" ∷ "x-http-method" ∷ "x-method-override" ∷ "x-original-url"
    ∷ "x-rewrite-url" ∷ "x-amz-target" ∷ []

abbrev lowered : (String → String) → Dict String → List String
lowered lower [] = []
lowered lower ((k, v) ∷ ks) = lower k ∷ lowered lower ks

-- A header overrides the action, and the route does not require it.
unfoldable pub is_overridden : List String → Dict String → Bool
is_overridden required [] = false
is_overridden required ((k, v) ∷ hs) =
    (contains overrides k && not (contains required k)) || is_overridden required hs

unfoldable pub only_route :
    (String → String) → HttpMessage → List RouteRule → Result Raised RouteRule
only_route lower m (r ∷ []) = do
  require (not (is_overridden (lowered lower r.required_headers) m.headers))
      (inspection_error "unmapped_action_override_header")
  ok r
only_route lower m _ = err (inspection_error "unmapped_route")

-- `"//" in text`
unfoldable pub has_double_slash : String → Bool
has_double_slash String.[] = false
has_double_slash (String.◌∷◌ c s) = starts_with "//" (String.◌∷◌ c s) || has_double_slash s

-- `route_for`, of the path of the message's target and the path unquoted.
unfoldable pub route_for :
    (String → String) → InspectionConfig → HttpMessage → String → String → Result Raised RouteRule
route_for lower config m path decoded = do
  require
      (not (contains (split b'/' decoded) "..")
        && not (has_double_slash decoded)
        && not (has_char b'\\' decoded))
      (inspection_error "ambiguous_path")
  only_route lower m (matching lower m path config.routes)
