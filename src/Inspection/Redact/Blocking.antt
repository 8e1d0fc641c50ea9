-- ===== src/Inspection/Redact/Blocking.antt =====
-- inspection/engine.py: what `_redact_json` returns under the action "block".
use ai_security_gateway.Base.{
  ℕ, suc, ◌&&◌, String, ◌≡◌, refl, if◌then◌else◌, Bool, true, false, not, Option, none, List, [],
  ◌∷◌, ◌++◌, arith,
}
use text.Mathlib.TextPositions.{eq_refl}
use ai_security_gateway.Base.Result.{ok}
use ai_security_gateway.Base.Exec.{lift, pure, ◌>>=◌, ◌>>◌}
use ai_security_gateway.Base.Exec.Runs.{bind-returns}
use ai_security_gateway.Inspection.Json.{
  Json, null, bool, int, float, str, arr, obj, pos, negsuc, lebℤ, Items, nil, cons, Fields, end,
  field,
}
use ai_security_gateway.Inspection.Contracts.{InspectionConfig, block}
use ai_security_gateway.Inspection.Session.{
  Parts, Session, I, find, extend, update, refuse_if, signatures, types, is_empty,
}
use ai_security_gateway.Inspection.Redact.{
  json_eq, items_eq, fields_eq, redact_found, redact_text, check_number, check_key, walk,
  walk_items, walk_fields, redact_json, encode_arguments, redact_decoded, redact_arguments,
  redact_leaf, redact_value, ends_in_arguments,
}
use ai_security_gateway.Inspection.Redact.Clean.{
  Everywhere, InItems, InFields, IsClean, IsCleanValue, IsCleanText, CleanLeaf, lift-ok, find-found,
  refuse_if-not, not-false,
}

mutual
  unfolding json_eq items_eq fields_eq lebℤ

  pub json_eq_refl : (v : Json) → json_eq v v ≡ true
  json_eq_refl null = refl
  json_eq_refl (bool true) = refl
  json_eq_refl (bool false) = refl
  json_eq_refl (int (pos n)) = ground arith
  json_eq_refl (int (negsuc n)) = ground arith
  json_eq_refl (float t) = eq_refl t
  json_eq_refl (str t) = eq_refl t
  json_eq_refl (arr xs) = items_eq_refl xs
  json_eq_refl (obj fs) = fields_eq_refl fs

  items_eq_refl : (xs : Items) → items_eq xs xs ≡ true
  items_eq_refl nil = refl
  items_eq_refl (cons x xs) = ground (arith, json_eq_refl x, items_eq_refl xs)

  fields_eq_refl : (fs : Fields) → fields_eq fs fs ≡ true
  fields_eq_refl end = refl
  fields_eq_refl (field k v fs) = ground (arith, eq_refl k, json_eq_refl v, fields_eq_refl fs)

module _ {File : Type 0} (parts : Parts) (config : InspectionConfig) where
  -- A redaction of texts that changes none, and returns only for those of which this holds.
  abbrev Keeps : (List String → String → Type 0) → (List String → String → I File Json) → Type 0
  Keeps holds leaf =
      (path : List String) (t : String) (s u : Session File) (v : Json)
      → leaf path t s ≡ (ok v, u)
      → (v ≡ str t) × holds path t

  check_number_kept :
      (n : Json) (text : String) (s u : Session File) (v : Json)
      → check_number parts config n text s ≡ (ok v, u)
      → (v ≡ n) × IsClean parts config text
  unfolding check_number
  check_number_kept n text s u v h =
      let (found, s', e, k) = bind-returns (find parts config text) _ s v u h in
      let (_, s'', f, l) =
        bind-returns (refuse_if (not (is_empty found)) "pii_in_numeric_field") _ s' v u k in
      let none_found =
        not-false (is_empty found)
          (refuse_if-not parts config (not (is_empty found)) "pii_in_numeric_field" s' s'' f) in
      (ground arith, find-found parts config text s s' found e none_found)

  check_key_kept :
      (key : String) (s u : Session File) {v : Unit {0}}
      → check_key parts config key s ≡ (ok v, u)
      → IsClean parts config key
  unfolding check_key
  check_key_kept key s u {v} h =
      let (found, s', e, k) = bind-returns (find parts config key) _ s v u h in
      find-found parts config key s s' found e (
        not-false (is_empty found)
          (refuse_if-not parts config (not (is_empty found)) "pii_in_structural_field" s' u k))

  module _ (holds : List String → String → Type 0) (leaf : List String → String → I File Json)
      (keeps : Keeps holds leaf) where
    abbrev All : List String → Json → Type 0
    All path x = Everywhere parts.number_text holds (IsClean parts config) path x

    abbrev AllItems : List String → ℕ → Items → Type 0
    AllItems path i xs = InItems parts.number_text holds (IsClean parts config) path i xs

    abbrev AllFields : List String → Fields → Type 0
    AllFields path fs = InFields parts.number_text holds (IsClean parts config) path fs

    mutual
      unfolding walk walk_items walk_fields

      walk_kept :
          (path : List String) (x : Json) (s u : Session File) (v : Json)
          → walk parts config leaf path x s ≡ (ok v, u)
          → (v ≡ x) × All path x
      walk_kept path null s u v h = (ground arith, tt)
      walk_kept path (bool b) s u v h = (ground arith, tt)
      walk_kept path (int i) s u v h = check_number_kept (int i) (parts.number_text i) s u v h
      walk_kept path (float f) s u v h = check_number_kept (float f) f s u v h
      walk_kept path (str t) s u v h = keeps path t s u v h
      walk_kept path (arr xs) s u v h =
          let (ys, s', e, k) =
            bind-returns (walk_items parts config leaf path 0 xs) (λ ys. pure (arr ys)) s v u h in
          let (same, all) = walk_items_kept path 0 xs s s' ys e in (ground arith, all)
      walk_kept path (obj fs) s u v h =
          let (gs, s', e, k) =
            bind-returns (walk_fields parts config leaf path fs) (λ gs. pure (obj gs)) s v u h in
          let (same, all) = walk_fields_kept path fs s s' gs e in (ground arith, all)

      walk_items_kept :
          (path : List String) (i : ℕ) (xs : Items) (s u : Session File) (ys : Items)
          → walk_items parts config leaf path i xs s ≡ (ok ys, u)
          → (ys ≡ xs) × AllItems path i xs
      walk_items_kept path i nil s u ys h = (ground arith, tt)
      walk_items_kept path i (cons x xs) s u ys h =
          let (y, s', e, k) =
            bind-returns (walk parts config leaf (path ++ parts.number_text (pos i) ∷ []) x)
              (λ y. walk_items parts config leaf path (suc i) xs >>= λ zs. pure (cons y zs)) s ys u
              h in
          let (zs, s'', f, l) =
            bind-returns (walk_items parts config leaf path (suc i) xs) (λ zs. pure (cons y zs)) s'
              ys u k in
          let (same, all) = walk_kept (path ++ parts.number_text (pos i) ∷ []) x s s' y e in
          let (same', all') = walk_items_kept path (suc i) xs s' s'' zs f in
          (ground arith, (all, all'))

      walk_fields_kept :
          (path : List String) (fs : Fields) (s u : Session File) (gs : Fields)
          → walk_fields parts config leaf path fs s ≡ (ok gs, u)
          → (gs ≡ fs) × AllFields path fs
      walk_fields_kept path end s u gs h = (ground arith, tt)
      walk_fields_kept path (field key x fs) s u gs h =
          let (_, s0, d, j) =
            bind-returns (check_key parts config key)
              (λ _. walk parts config leaf (path ++ key ∷ []) x >>= λ y.
                walk_fields parts config leaf path fs >>= λ zs. pure (field key y zs))
              s gs u h in
          let (y, s', e, k) =
            bind-returns (walk parts config leaf (path ++ key ∷ []) x)
              (λ y. walk_fields parts config leaf path fs >>= λ zs. pure (field key y zs)) s0 gs u
              j in
          let (zs, s'', f, l) =
            bind-returns (walk_fields parts config leaf path fs) (λ zs. pure (field key y zs)) s' gs
              u k in
          let (same, all) = walk_kept (path ++ key ∷ []) x s0 s' y e in
          let (same', all') = walk_fields_kept path fs s' s'' zs f in
          (ground arith, (check_key_kept key s s0 d, all, all'))

  redact_text_kept :
      (fields : Option (List String))
      → Keeps (λ _ t. IsClean parts config t) (redact_text parts config fields block)
  unfolding redact_text redact_found extend update
  redact_text_kept fields path t s u v h =
      let (found, s', e, k) =
        bind-returns (find parts config t)
          (λ found. extend (types found) >> redact_found parts config fields block path t found) s v
          u h in
      (ground arith, find-found parts config t s s' found e (ground arith))

  pub redact_json-block :
      (fields : Option (List String)) (value v : Json) (s u : Session File)
      → redact_json parts config fields block value s ≡ (ok v, u)
      → (v ≡ value) × IsCleanValue parts config value
  unfolding redact_json
  redact_json-block fields value v s u h =
      walk_kept (λ _ t. IsClean parts config t) (redact_text parts config fields block)
        (redact_text_kept fields) [] value s u v h

  redact_decoded_kept :
      (fields : Option (List String)) (path : List String) (t : String) (decoded : Json)
      (s u : Session File) (v : Json)
      → redact_decoded parts config fields block path t decoded s ≡ (ok v, u)
      → (v ≡ str t) × IsCleanValue parts config decoded
  unfolding redact_decoded encode_arguments
  redact_decoded_kept fields path t decoded s u v h =
      let (_, s', _, k) =
        bind-returns (signatures parts config decoded)
          (λ _.
            redact_json parts config none block decoded
            >>= encode_arguments parts config fields path t decoded)
          s v u h in
      let (m, s'', e, l) =
        bind-returns (redact_json parts config none block decoded)
          (encode_arguments parts config fields path t decoded) s' v u k in
      let (same, clean) = redact_json-block none decoded m s' s'' e in
      (ground (arith, same, json_eq_refl decoded, l), clean)

  redact_arguments_kept :
      (fields : Option (List String))
      → Keeps (λ _ t. IsCleanText parts config t) (redact_arguments parts config fields block)
  unfolding redact_arguments
  redact_arguments_kept fields path t s u v h =
      let (bytes, s', f, k) =
        bind-returns (lift (parts.encode_utf8 t))
          (λ bytes.
            lift (parts.strict_json bytes) >>= redact_decoded parts config fields block path t)
          s v u h in
      let (decoded, s'', g, l) =
        bind-returns (lift (parts.strict_json bytes))
          (redact_decoded parts config fields block path t) s' v u k in
      let (same, clean) = redact_decoded_kept fields path t decoded s'' u v l in
      (
        same,
        (
          bytes,
          decoded,
          lift-ok parts config (parts.encode_utf8 t) s s' f,
          lift-ok parts config (parts.strict_json bytes) s' s'' g,
          clean,
        ),
      )

  redact_leaf_kept :
      (json_arguments : Bool) (fields : Option (List String))
      → Keeps
          (CleanLeaf parts config json_arguments)
          (redact_leaf parts config json_arguments fields block)
  unfolding redact_leaf
  redact_leaf_kept a fields path t s u v h = choice (a && ends_in_arguments path) refl h
    where
      choice :
          (b : Bool)
          → (a && ends_in_arguments path) ≡ b
          → (if b
                then redact_arguments parts config fields block path t
                else redact_text parts config fields block path t)
              s
            ≡ (ok v, u)
          → (v ≡ str t) × (if b then IsCleanText parts config t else IsClean parts config t)
      choice true e g = redact_arguments_kept fields path t s u v g
      choice false e g = redact_text_kept fields path t s u v g

  -- Under the action "block", a value whose redaction returns is returned unchanged, and the scanner
  -- found nothing that counts in it: no text, key or number, and no text, key or number of the JSON
  -- text of tool arguments, where these are looked into.
  pub redact_value-block :
      (json_arguments : Bool) (fields : Option (List String)) (value v : Json) (s u : Session File)
      → redact_value parts config json_arguments fields block value s ≡ (ok v, u)
      → (v ≡ value)
        × Everywhere parts.number_text
            (CleanLeaf parts config json_arguments)
            (IsClean parts config)
            []
            value
  unfolding redact_value
  redact_value-block a fields value v s u h =
      walk_kept (CleanLeaf parts config a) (redact_leaf parts config a fields block)
        (redact_leaf_kept a fields) [] value s u v h
