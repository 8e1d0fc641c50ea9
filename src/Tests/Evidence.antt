-- ===== src/Tests/Evidence.antt =====
-- The evidence of a concrete verdict.
use ai_security_gateway.Base.{◌≡◌, refl, true, [], ◌∷◌}
use ai_security_gateway.Inspection.Contracts.{Verdict, verdict, Action, inline}
use ai_security_gateway.Inspection.Contracts.Evidence.{evidence, sorted_set, insert_new}

abbrev found : Verdict
found = record (verdict Action.redact "pii_redacted" inline) {
  entities = "PHONE" ∷ "EMAIL" ∷ "PHONE" ∷ [];
}

named : (evidence "request" true found).entities ≡ "EMAIL" ∷ "PHONE" ∷ []
unfolding evidence sorted_set insert_new
named = refl
