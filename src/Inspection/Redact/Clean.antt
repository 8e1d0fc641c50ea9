-- ===== src/Inspection/Redact/Clean.antt =====
-- inspection/engine.py: texts and values in which the scanner finds nothing.
use ai_security_gateway.Base.{
  ℕ, suc, ◌&&◌, String, ◌≡◌, if◌then◌else◌, Bool, true, false, not, List, [], ◌∷◌, ◌++◌, arith,
}
use ai_security_gateway.Base.Result.{Result, ok}
use ai_security_gateway.Base.Exec.{lift}
use ai_security_gateway.Base.Exec.Runs.{bind-returns}
use ai_security_gateway.Inspection.Json.{
  Json, ℤ, null, bool, int, float, str, arr, obj, pos, Items, nil, cons, Fields, end, field,
}
use ai_security_gateway.Inspection.Contracts.{Raised, Bytes, InspectionConfig}
use ai_security_gateway.Inspection.Session.{
  Parts, Session, Finding, check_deadline, scored, find, refuse_if, is_empty,
}
use ai_security_gateway.Inspection.Redact.{ends_in_arguments}

-- What holds of every text, key and number of a value, the texts at their paths.
abbrev mutual
  pub Everywhere :
      (ℤ → String)
      → (List String → String → Type 0)
      → (String → Type 0)
      → List String
      → Json
      → Type 0
  Everywhere name leaf plain path null = Unit
  Everywhere name leaf plain path (bool b) = Unit
  Everywhere name leaf plain path (int i) = plain (name i)
  Everywhere name leaf plain path (float f) = plain f
  Everywhere name leaf plain path (str t) = leaf path t
  Everywhere name leaf plain path (arr xs) = InItems name leaf plain path 0 xs
  Everywhere name leaf plain path (obj fs) = InFields name leaf plain path fs

  pub InItems :
      (ℤ → String)
      → (List String → String → Type 0)
      → (String → Type 0)
      → List String
      → ℕ
      → Items
      → Type 0
  InItems name leaf plain path i nil = Unit
  InItems name leaf plain path i (cons x xs) =
      Everywhere name leaf plain (path ++ name (pos i) ∷ []) x
      × InItems name leaf plain path (suc i) xs

  pub InFields :
      (ℤ → String)
      → (List String → String → Type 0)
      → (String → Type 0)
      → List String
      → Fields
      → Type 0
  InFields name leaf plain path end = Unit
  InFields name leaf plain path (field k x fs) =
      plain k × Everywhere name leaf plain (path ++ k ∷ []) x × InFields name leaf plain path fs

-- The scanner finds nothing in a text whose score is high enough.
abbrev pub IsClean : Parts → InspectionConfig → String → Type 0
IsClean parts config t =
    (found : List Finding) × (parts.analyze t ≡ ok found)
    × (is_empty (scored config.pii_min_score found) ≡ true)

-- Every text, key and number of a value is clean.
abbrev pub IsCleanValue : Parts → InspectionConfig → Json → Type 0
IsCleanValue parts config value =
    Everywhere parts.number_text (λ _ t. IsClean parts config t) (IsClean parts config) [] value

-- The JSON text of a tool's arguments is one of a clean value.
abbrev pub IsCleanText : Parts → InspectionConfig → String → Type 0
IsCleanText parts config t =
    (bytes : Bytes) × (decoded : Json) × (parts.encode_utf8 t ≡ ok bytes)
    × (parts.strict_json bytes ≡ ok decoded)
    × IsCleanValue parts config decoded

-- A text at a path: the arguments of a tool, where they are JSON texts, or another one.
abbrev pub CleanLeaf : Parts → InspectionConfig → Bool → List String → String → Type 0
CleanLeaf parts config json_arguments path t =
    if json_arguments && ends_in_arguments path
    then IsCleanText parts config t
    else IsClean parts config t

pub not-false : (b : Bool) → not b ≡ false → b ≡ true
not-false b h = ground arith

module _ {File : Type 0} (parts : Parts) (config : InspectionConfig) where
  pub lift-ok :
      {A : Type 0} (r : Result Raised A) (s t : Session File) {a : A}
      → lift r s ≡ (ok a, t)
      → r ≡ ok a
  lift-ok r s t h = ground arith

  pub find-found :
      (text : String) (s u : Session File) (found : List Finding)
      → find parts config text s ≡ (ok found, u)
      → is_empty found ≡ true
      → IsClean parts config text
  unfolding find
  find-found text s u found h e =
      let (_, s1, _, k) = bind-returns (check_deadline parts config) _ s found u h in
      let (all, s2, f, l) = bind-returns (lift (parts.analyze text)) _ s1 found u k in
      (all, lift-ok (parts.analyze text) s1 s2 f, ground arith)

  pub refuse_if-not :
      (b : Bool) (reason : String) (s u : Session File) {v : Unit {0}}
      → refuse_if b reason s ≡ (ok v, u)
      → b ≡ false
  unfolding refuse_if
  refuse_if-not b reason s u h = ground arith
