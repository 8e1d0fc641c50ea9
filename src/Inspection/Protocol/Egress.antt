-- ===== src/Inspection/Protocol/Egress.antt =====
-- inspection/protocol.py: the addresses that a value may name (`check_egress`). Python's text and URL
-- functions are parameters.
pub mod Allowed
use Prim.Native.Char.{code}
use Prim.Native.String.{◌++◌ as str_append}
use ai_security_gateway.Base.{
  has_char, starts_with, ℕ, zero, suc, String, Bool, true, false, ◌&&◌, ◌||◌, not, Option, none,
  some, List, [], ◌∷◌, leb, ltb, ◌==◌, str_eq, is_set, codes, contains, if◌then◌else◌,
}
use ai_security_gateway.Base.Result.{Result, ok, err, ◌>>=◌, ◌>>◌, require}
use ai_security_gateway.Inspection.Json.{Json}
use ai_security_gateway.Inspection.Contracts.{Raised, inspection_error, InspectionConfig}
use ai_security_gateway.Inspection.Session.{iter_strings}

-- What `urlsplit` gives. Reading the port may raise `ValueError`.
pub record Url : Type 0 where
  pub scheme : String
  pub hostname : Option String
  pub username : Option String
  pub password : Option String
  pub fragment : String
  pub port : Option (Option ℕ)

-- `str.strip`, `unquote`, `str.lower`, `urlsplit` and the IDNA form of a host, where they return, and
-- the digits of a number.
pub record Urls : Type 0 where
  pub strip : String → String
  pub unquote : String → String
  pub lower : String → String
  pub urlsplit : String → Option Url
  pub idna : String → Option String
  pub digits_of : ℕ → String

-- `_ASCII_CONTROLS.sub("", text)`
unfoldable pub without_controls : String → String
without_controls String.[] = ""
without_controls (String.◌∷◌ c s) =
    let rest = without_controls s in
    if ltb (code c) 32 || code c == 127 then rest else String.◌∷◌ c rest

abbrev pub is_letter : ℕ → Bool
is_letter c = (leb b'A' c && leb c b'Z') || (leb b'a' c && leb c b'z')

abbrev pub is_scheme_char : ℕ → Bool
is_scheme_char c = is_letter c || (leb b'0' c && leb c b'9') || c == b'+' || c == b'.' || c == b'-'

-- `[A-Za-z0-9+.-]*://` at the front.
unfoldable pub scheme_follows : String → Bool
scheme_follows String.[] = false
scheme_follows (String.◌∷◌ c s) =
    starts_with "://" (String.◌∷◌ c s) || (is_scheme_char (code c) && scheme_follows s)

-- `re.match(r"^[A-Za-z][A-Za-z0-9+.-]*://", text)`
unfoldable pub has_scheme : String → Bool
has_scheme String.[] = false
has_scheme (String.◌∷◌ c s) = is_letter (code c) && scheme_follows s

abbrev pub is_given_text : Option String → Bool
is_given_text none = false
is_given_text (some t) = is_set t

abbrev pub or_blank : Option String → String
or_blank none = ""
or_blank (some t) = t

-- `url.port or (443 if url.scheme == "https" else 80)`
abbrev pub port_or : Option ℕ → String → ℕ
port_or none scheme = if str_eq scheme "https" then 443 else 80
port_or (some zero) scheme = if str_eq scheme "https" then 443 else 80
port_or (some (suc n)) scheme = suc n

unfoldable pub bracketed : String → String
bracketed h = if has_char b':' h then str_append "[" (str_append h "]") else h

module _ (urls : Urls) where
  unfoldable pub origin_with : Url → String → Option ℕ → String
  origin_with u host port = str_append (urls.lower u.scheme) (
      str_append "://" (
        str_append (bracketed (urls.lower host))
          (str_append ":" (urls.digits_of (port_or port u.scheme)))))

  -- The origin of a URL: it has a host, and neither a user nor a fragment.
  unfoldable pub origin_of : Url → Option String
  origin_of u =
      if not (is_given_text u.hostname)
        || is_given_text u.username
        || is_given_text u.password
        || is_set u.fragment
      then none
      else elim (urls.idna (or_blank u.hostname)) [
        | none ↦ none
        | some host ↦ elim u.port [ none ↦ none | some port ↦ some (origin_with u host port) ]
      ]

  unfoldable pub origin : String → Option String
  origin text = elim (urls.urlsplit text) [ none ↦ none | some u ↦ origin_of u ]

  abbrev pub is_web : String → Bool
  is_web t = starts_with "http:" t || starts_with "https:" t

  abbrev pub is_web_url : String → Bool
  is_web_url t = starts_with "http://" t || starts_with "https://" t

  unfoldable pub check_origin : InspectionConfig → Option String → Result Raised (Unit {0})
  check_origin config none = err (inspection_error "invalid_nested_url")
  check_origin config (some o) =
      require (contains config.allowed_egress_origins o) (inspection_error "egress_not_allowed")

  abbrev pub is_ambiguous : String → Bool
  is_ambiguous candidate =
      let normalized = without_controls candidate in
      let decoded = urls.unquote normalized in
      (is_web (urls.lower decoded) || starts_with "//" (urls.lower decoded))
      && (not (str_eq candidate normalized) || not (str_eq decoded normalized))

  -- The body of the loop, of the stripped text.
  unfoldable pub check_candidate : InspectionConfig → String → Result Raised (Unit {0})
  check_candidate config candidate = do
    require (not (is_ambiguous candidate)) (inspection_error "ambiguous_nested_url")
    require
        (not (
          starts_with "//" candidate
          || (has_scheme candidate && not (is_web_url (urls.lower candidate)))))
        (inspection_error "unsupported_nested_url_scheme")
    if is_web (urls.lower candidate) then check_origin config (origin candidate) else ok tt

  unfoldable pub check_all : InspectionConfig → List String → Result Raised (Unit {0})
  check_all config [] = ok tt
  check_all config (t ∷ ts) = check_candidate config (urls.strip t) >> check_all config ts

  -- `check_egress`
  unfoldable pub check_egress : InspectionConfig → Json → Result Raised (Unit {0})
  check_egress config value = check_all config (iter_strings value)
