-- ===== src/Inspection/Session.antt =====
-- What an inspection runs in: the verdict that it builds, the table of nonces, the broker's world and
-- the readings of the clock; and what inspection/engine.py calls elsewhere.
use ai_security_gateway.Base.{
  ℕ, suc, String, Bool, true, false, Option, none, some, List, [], ◌∷◌, ◌++◌, leb, if◌then◌else◌,
}
use ai_security_gateway.Base.Result.{Result, ok, err}
use ai_security_gateway.Base.Exec.{Exec, pure, raise, lift, ◌>>=◌, ◌>>◌}
use ai_security_gateway.Broker.World.{World}
use ai_security_gateway.Inspection.Json.{Json, str, ℤ, Items, nil, cons, Fields, end, field}
use ai_security_gateway.Inspection.Contracts.{
  Raised, inspection_error, Bytes, HttpMessage, RouteRule, InspectionConfig, Verdict,
}
use ai_security_gateway.Inspection.Identity.{Nonces}

-- What the scanner of personal data reports (pii.py).
pub record Finding : Type 0 where
  pub entity_type : String
  pub start : ℕ
  pub stop : ℕ
  pub score : ℕ

-- The functions that the engine calls: the scanner (pii.py), the secrets (secret_detection.py), the
-- signatures of instructions, where `none` is their `TimeoutError` (signatures.py), the deadline
-- (budget.py), the protocols (protocol.py, llm.py), and Python's text, JSON and URL functions.
-- A float's score is a number of steps of a fixed size.
pub record Parts : Type 0 where
  pub analyze : String → Result Raised (List Finding)
  pub contains_secret : Json → Result Raised Bool
  pub is_suspicious : String → Option Bool
  pub deadline_passed : ℕ → Bool
  pub seconds : ℕ → ℕ
  pub strict_json : Bytes → Result Raised Json
  pub encode_json : Json → Result Raised Bytes
  pub encode_utf8 : String → Result Raised Bytes
  pub decode_utf8 : Bytes → Result Raised String
  pub number_text : ℤ → String
  pub strip : String → String
  pub path_texts : String → Result Raised (List String)
  pub query_texts : String → Option (List String)
  pub validate_message : HttpMessage → Result Raised (Unit {0})
  pub route_for : HttpMessage → Result Raised RouteRule
  pub validate_llm : Json → RouteRule → Bool → Result Raised (Unit {0})
  pub semantics : HttpMessage → RouteRule → Json → Result Raised (String × String × String)
  pub check_egress : Json → Result Raised (Unit {0})

pub record Session (File : Type 0) : Type 0 where
  pub verdict : Verdict
  pub nonces : Nonces
  pub world : World File
  pub readings : ℕ

abbrev pub I : Type 0 → Type 0 → Type 0
I File A = Exec Raised (Session File) A

-- protocol.py: the texts of a value, keys included.
unfoldable mutual
  pub iter_strings : Json → List String
  iter_strings (str t) = t ∷ []
  iter_strings (Json.arr xs) = items_strings xs
  iter_strings (Json.obj fs) = fields_strings fs
  iter_strings Json.null = []
  iter_strings (Json.bool b) = []
  iter_strings (Json.int i) = []
  iter_strings (Json.float f) = []

  pub items_strings : Items → List String
  items_strings nil = []
  items_strings (cons x xs) = iter_strings x ++ items_strings xs

  pub fields_strings : Fields → List String
  fields_strings end = []
  fields_strings (field k v fs) = k ∷ iter_strings v ++ fields_strings fs

-- The findings whose score is high enough.
unfoldable pub scored : ℕ → List Finding → List Finding
scored least [] = []
scored least (f ∷ fs) = if leb least f.score then f ∷ scored least fs else scored least fs

abbrev pub types : List Finding → List String
types [] = []
types (f ∷ fs) = f.entity_type ∷ types fs

abbrev pub is_empty {ℓ} : {A : Type ℓ} → List A → Bool
is_empty [] = true
is_empty (x ∷ xs) = false

module _ {File : Type 0} where
  -- An assignment to fields of the verdict.
  unfoldable pub update : (Verdict → Verdict) → I File (Unit {0})
  update f s = (ok tt, record s { verdict = f s.verdict })

  -- `entities.extend(...)`
  unfoldable pub extend : List String → I File (Unit {0})
  unfolding update
  extend es = update (λ v. record v { entities = v.entities ++ es })

  -- `if found: raise InspectionError(reason)`
  unfoldable pub refuse_if : Bool → String → I File (Unit {0})
  refuse_if true reason = raise (inspection_error reason)
  refuse_if false reason = pure tt

module _ {File : Type 0} (parts : Parts) (config : InspectionConfig) where
  -- budget.py: `check_deadline`, which reads the clock.
  unfoldable pub check_deadline : I File (Unit {0})
  check_deadline s = (
    if parts.deadline_passed s.readings
        then err (inspection_error "inspection_deadline")
        else ok tt,
    record s { readings = suc s.readings },
  )

  -- `_find`
  unfoldable pub find : String → I File (List Finding)
  find text = do
    check_deadline
    found ← lift (parts.analyze text)
    pure (scored config.pii_min_score found)

  unfoldable pub check_suspicious : Option Bool → I File (Unit {0})
  check_suspicious none = raise (inspection_error "signature_timeout")
  check_suspicious (some b) = refuse_if b "suspicious_instruction"

  unfoldable pub check_texts : List String → I File (Unit {0})
  check_texts [] = pure tt
  check_texts (t ∷ ts) = do check_deadline; check_suspicious (parts.is_suspicious t); check_texts ts

  -- `_signatures`
  unfoldable pub signatures : Json → I File (Unit {0})
  signatures value = do
    secret ← lift (parts.contains_secret value)
    refuse_if secret "secret_detected"
    check_texts (iter_strings value)
