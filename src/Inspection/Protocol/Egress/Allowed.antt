-- ===== src/Inspection/Protocol/Egress/Allowed.antt =====
-- inspection/protocol.py: the addresses in a value that `check_egress` lets pass.
use ai_security_gateway.Base.{starts_with, String, ◌≡◌, true, false, some, Listed}
use ai_security_gateway.Inspection.Json.{Json}
use ai_security_gateway.Inspection.Contracts.{InspectionConfig}
use ai_security_gateway.Inspection.Protocol.Egress.{
  Urls, has_scheme, is_web, is_web_url, is_ambiguous, origin,
}

module _ (urls : Urls) (config : InspectionConfig) where
  -- What a text may be: no web address that its unquoted form, without control characters, shows and
  -- the text itself does not; no network path; no address with "://" of a scheme but HTTP's; and, with
  -- a scheme of HTTP, an address of an allowed origin. Other schemes without "//" are not looked at.
  pub record IsAllowed (t : String) : Type 0 where
    pub unambiguous : is_ambiguous urls t ≡ false
    pub no_network_path : starts_with "//" t ≡ false
    pub web_scheme : has_scheme t ≡ true → is_web_url urls (urls.lower t) ≡ true
    pub web_origin :
        is_web urls (urls.lower t) ≡ true
        → (o : String) × (origin urls t ≡ some o) × Listed o config.allowed_egress_origins
