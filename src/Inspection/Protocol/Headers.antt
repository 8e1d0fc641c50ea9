-- ===== src/Inspection/Protocol/Headers.antt =====
-- inspection/protocol.py: the headers of MCP and the parameters that they repeat (`decode_mcp_header`,
-- `_header_parameters`). The decoding of base64, Python's `lower` and the comparison of a decimal text
-- with an integer are parameters.

use ai_security_gateway.Base.{
  drop_text, ends_with, split, starts_with, ℕ, suc, String, Bool, true, false, ◌&&◌, ◌||◌, not,
  Option, none, some, List, [], ◌∷◌, leb, ◌==◌, all, str_eq, is_set, codes, contains, if◌then◌else◌,
}
use ai_security_gateway.Base.Dict
use ai_security_gateway.Base.Dict.{Dict}
use ai_security_gateway.Base.Result.{Result, ok, err, ◌>>=◌, ◌>>◌, require}
use ai_security_gateway.Inspection.Json.{
  Json, null, bool, int, float, str, arr, obj, member, ℤ, pos, negsuc,
}
use ai_security_gateway.Inspection.Contracts.{Raised, inspection_error, HttpMessage, ToolRule}
use ai_security_gateway.Inspection.Redact.{parts_of}

-- What the headers are compared with Python's help: `b64decode(text, validate=True).decode("utf-8")`
-- where it decodes, `str.lower`, and `Decimal(text) == n`, false on `InvalidOperation`.
pub record Readings : Type 0 where
  pub decode_base64 : String → Option String
  pub lower : String → String
  pub is_decimal : String → ℤ → Bool

abbrev pub mismatch : Raised
mismatch = inspection_error "mcp_header_body_mismatch"

abbrev pub invalid_mapping : Raised
invalid_mapping = inspection_error "invalid_mcp_header_mapping"

-- `text[:-2]`
unfoldable pub drop_last_two : String → String
drop_last_two String.[] = ""
drop_last_two (String.◌∷◌ c String.[]) = ""
drop_last_two (String.◌∷◌ c (String.◌∷◌ d String.[])) = ""
drop_last_two (String.◌∷◌ c (String.◌∷◌ d (String.◌∷◌ e s))) =
    String.◌∷◌ c (drop_last_two (String.◌∷◌ d (String.◌∷◌ e s)))

abbrev pub is_blank_char : ℕ → Bool
is_blank_char c = c == 32 || c == 9

unfoldable pub ends_blank : List ℕ → Bool
ends_blank [] = false
ends_blank (c ∷ []) = is_blank_char c
ends_blank (c ∷ d ∷ cs) = ends_blank (d ∷ cs)

abbrev pub starts_blank : List ℕ → Bool
starts_blank [] = false
starts_blank (c ∷ cs) = is_blank_char c

-- `value != value.strip(" \t")`
unfoldable pub is_padded : List ℕ → Bool
is_padded cs = starts_blank cs || ends_blank cs

abbrev pub is_plain : ℕ → Bool
is_plain c = leb c 126 && (leb 32 c || c == 9)

-- `decode_mcp_header`
unfoldable pub decode_mcp_header : Readings → String → Result Raised String
decode_mcp_header rd value =
    if starts_with "=?base64?" value && ends_with "?=" value
    then elim (rd.decode_base64 (drop_last_two (drop_text 9 value))) [
      | none ↦ err mismatch
      | some t ↦ ok t
    ]
    else if is_padded (codes value) || not (all is_plain (codes value))
    then err mismatch
    else ok value

-- A character of the regular expression's class for a parameter's name.
abbrev pub is_param_char : ℕ → Bool
is_param_char c =
    (leb b'0' c && leb c b'9')
    || (leb b'a' c && leb c b'z')
    || c == b'!'
    || c == b'#'
    || c == b'$'
    || c == b'%'
    || c == b'&'
    || c == 39
    || c == b'*'
    || c == b'+'
    || c == b'.'
    || c == b'^'
    || c == b'_'
    || c == b'`'
    || c == b'|'
    || c == b'~'
    || c == b'-'

-- `re.fullmatch(r"mcp-param-[...]+", name)`
unfoldable pub is_param_name : String → Bool
is_param_name name =
    starts_with "mcp-param-" name
    && is_set (drop_text 10 name)
    && all is_param_char (codes (drop_text 10 name))

-- `not re.search(r"~(?![01])", path)`
unfoldable pub is_escaped : List ℕ → Bool
is_escaped [] = true
is_escaped (c ∷ []) = not (c == b'~')
is_escaped (c ∷ d ∷ cs) = (not (c == b'~') || d == b'0' || d == b'1') && is_escaped (d ∷ cs)

-- A value that is `None` where it is missing or null.
unfoldable pub nullable : Option Json → Option Json
nullable none = none
nullable (some null) = none
nullable (some v) = some v

-- The loop over the parts of a path: it stops at `None`, and only a dict has parts.
unfoldable pub expected_at : List String → Option Json → Result Raised (Option Json)
expected_at [] e = ok e
expected_at (k ∷ ks) none = ok none
expected_at (k ∷ ks) (some (obj fs)) = expected_at ks (nullable (member k fs))
expected_at (k ∷ ks) (some _) = err invalid_mapping

abbrev pub is_digit : ℕ → Bool
is_digit c = leb b'0' c && leb c b'9'

unfoldable pub skip_digits : List ℕ → List ℕ
skip_digits [] = []
skip_digits (c ∷ cs) = let rest = skip_digits cs in if is_digit c then rest else c ∷ cs

-- `[0-9]+` at the front: what follows it.
unfoldable pub digits : List ℕ → Option (List ℕ)
digits [] = none
digits (c ∷ cs) = if is_digit c then some (skip_digits cs) else none

abbrev pub skip_sign : List ℕ → List ℕ
skip_sign [] = []
skip_sign (c ∷ cs) = if c == b'+' || c == b'-' then cs else c ∷ cs

-- `(?:[eE][+-]?[0-9]+)?` up to the end.
unfoldable pub is_exponent : List ℕ → Bool
is_exponent [] = true
is_exponent (c ∷ cs) =
    (c == b'e' || c == b'E') && elim (digits (skip_sign cs)) [ some [] ↦ true | _ ↦ false ]

-- `(?:\.[0-9]+)?` and the exponent.
unfoldable pub is_fraction : List ℕ → Bool
is_fraction [] = true
is_fraction (c ∷ cs) =
    if c == b'.'
    then elim (digits cs) [ none ↦ false | some rest ↦ is_exponent rest ]
    else is_exponent (c ∷ cs)

-- `(?:0|[1-9][0-9]*)` and what follows.
unfoldable pub is_unsigned : List ℕ → Bool
is_unsigned [] = false
is_unsigned (c ∷ cs) =
    if c == b'0' then is_fraction cs else is_digit c && is_fraction (skip_digits cs)

-- The regular expression of a number.
unfoldable pub is_numeral : List ℕ → Bool
is_numeral [] = false
is_numeral (c ∷ cs) = if c == b'-' then is_unsigned cs else is_unsigned (c ∷ cs)

-- `abs(n) <= 2**53 - 1`
unfoldable pub is_safe : ℤ → Bool
is_safe (pos n) = leb n 9007199254740991
is_safe (negsuc n) = leb (suc n) 9007199254740991

-- Whether a header's text is the body's value.
unfoldable pub matches_value : Readings → String → Json → Result Raised Bool
matches_value rd t (int n) = ok (is_numeral (codes t) && is_safe n && rd.is_decimal t n)
matches_value rd t (bool b) = ok (str_eq t (if b then "true" else "false"))
matches_value rd t (str s) = ok (str_eq t s)
matches_value rd t null = err (inspection_error "invalid_mcp_header_parameter")
matches_value rd t (float f) = err (inspection_error "invalid_mcp_header_parameter")
matches_value rd t (arr xs) = err (inspection_error "invalid_mcp_header_parameter")
matches_value rd t (obj fs) = err (inspection_error "invalid_mcp_header_parameter")

-- A header and the value that it repeats are both there or both not, and agree.
unfoldable pub check_parameter : Readings → Option String → Option Json → Result Raised (Unit {0})
check_parameter rd none none = ok tt
check_parameter rd (some t) none = err mismatch
check_parameter rd none (some v) = err mismatch
check_parameter rd (some t) (some v) = do
  decoded ← decode_mcp_header rd t
  matched ← matches_value rd decoded v
  require matched mismatch

-- The loop over the mapped headers, with the names seen before.
unfoldable pub check_parameters :
    Readings → HttpMessage → Json → List String → Dict String → Result Raised (Unit {0})
check_parameters rd m value seen [] = ok tt
check_parameters rd m value seen ((key, path) ∷ more) = do
  let name = rd.lower key
  require (not (contains seen name) && is_param_name name) invalid_mapping
  require (starts_with "/params/arguments/" path && is_escaped (codes path)) invalid_mapping
  expected ← expected_at (parts_of (split b'/' path)) (nullable (some value))
  check_parameter rd (Dict.get name m.headers) expected
  check_parameters rd m value (name ∷ seen) more

-- `_header_parameters`
unfoldable pub header_parameters :
    Readings → HttpMessage → ToolRule → Json → Result Raised (Unit {0})
header_parameters rd m rule value = check_parameters rd m value [] rule.header_parameters
