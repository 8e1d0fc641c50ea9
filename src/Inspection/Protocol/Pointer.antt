-- ===== src/Inspection/Protocol/Pointer.antt =====
-- inspection/protocol.py: JSON pointers into a value (`pointer`). Python's `int` of a text is a
-- parameter.
use ai_security_gateway.Base.{
  split, starts_with, ℕ, zero, suc, ◌-◌, String, Option, none, some, List, [], ◌∷◌, ltb,
  if◌then◌else◌,
}
use ai_security_gateway.Base.Result.{Result, ok, err, ◌>>◌, require}
use ai_security_gateway.Inspection.Json.{Json, arr, obj, Items, nil, cons, member, ℤ, pos, negsuc}
use ai_security_gateway.Inspection.Contracts.{Raised, inspection_error}
use ai_security_gateway.Inspection.Redact.{parts_of}

unfoldable pub length_items : Items → ℕ
length_items nil = zero
length_items (cons x xs) = suc (length_items xs)

unfoldable pub get_elem? : Items → ℕ → Option Json
get_elem? nil i = none
get_elem? (cons x xs) zero = some x
get_elem? (cons x xs) (suc i) = get_elem? xs i

-- `xs[i]`, which counts from the end below zero; `none` is an `IndexError`.
unfoldable pub item : Items → ℤ → Option Json
item xs (pos i) = get_elem? xs i
item xs (negsuc i) =
    if ltb i (length_items xs) then get_elem? xs (length_items xs - suc i) else none

abbrev pub item_at : Items → Option ℤ → Option Json
item_at xs none = none
item_at xs (some i) = item xs i

-- `value[key]`, of a list or a dict; any other value raises `TypeError`.
unfoldable pub child : (String → Option ℤ) → Json → String → Option Json
child int_of (arr xs) key = item_at xs (int_of key)
child int_of (obj fs) key = member key fs
child int_of _ key = none

unfoldable pub descend : (String → Option ℤ) → List String → Json → Option Json
descend int_of [] value = some value
descend int_of (key ∷ keys) value = elim (child int_of value key) [
  | none ↦ none
  | some v ↦ descend int_of keys v
]

-- `pointer`
unfoldable pub pointer : (String → Option ℤ) → Json → String → Result Raised Json
pointer int_of value path = do
  require (starts_with "/" path) (inspection_error "invalid_resource_mapping")
  elim (descend int_of (parts_of (split b'/' path)) value) [
    | none ↦ err (inspection_error "missing_resource")
    | some v ↦ ok v
  ]
