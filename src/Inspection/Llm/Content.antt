-- ===== src/Inspection/Llm/Content.antt =====
-- inspection/llm.py: the content of a value that `validate_llm` accepts.
use ai_security_gateway.Base.{
  String, ◌≡◌, inl, inr, Bool, true, false, not, Option, some, List, [], ◌∷◌, arith, contains,
  Listed, Listed→contains,
}
use ai_security_gateway.Base.Result.{ok, ◌>>◌, require, bind-ok, require-ok}
use ai_security_gateway.Inspection.Json.{
  Json, null, bool, int, float, str, arr, obj, Items, cons, Fields, field, member,
}
use ai_security_gateway.Inspection.Contracts.{RouteRule}
use ai_security_gateway.Inspection.Llm.{
  blocked_keys, blocked_types, is_void, is_filled, any_filled, check_type, check_node, walk,
  walk_items, walk_fields, check_model, check_tool_list, check_envelope, validate_llm, unsupported,
}

-- A dict that stands somewhere in a value: at the top, in a list or under a key.
mutual
  pub data Inside (fs : Fields) : Json → Type 0 where
    here : Inside fs (obj fs)
    in_list : {xs : Items} → InsideItems fs xs → Inside fs (arr xs)
    in_dict : {gs : Fields} → InsideFields fs gs → Inside fs (obj gs)

  pub data InsideItems (fs : Fields) : Items → Type 0 where
    first : {x : Json} {xs : Items} → Inside fs x → InsideItems fs (cons x xs)
    later : {x : Json} {xs : Items} → InsideItems fs xs → InsideItems fs (cons x xs)

  pub data InsideFields (fs : Fields) : Fields → Type 0 where
    value : {k : String} {x : Json} {gs : Fields} → Inside fs x → InsideFields fs (field k x gs)
    more :
        {k : String} {x : Json} {gs : Fields} → InsideFields fs gs → InsideFields fs (field k x gs)

mutual
  unfolding walk walk_items walk_fields

  Inside-checked :
      (fs : Fields) {v : Json} {u : Unit {0}} → Inside fs v → walk v ≡ ok u → check_node fs ≡ ok tt
  Inside-checked fs here h = ground (arith, bind-ok (check_node fs) _ h)
  Inside-checked fs (in_list i) h = items-checked fs i h
  Inside-checked fs (in_dict {gs} i) h =
      let (_, _, k) = bind-ok (check_node gs) _ h in fields-checked fs i k

  items-checked :
      (fs : Fields) {xs : Items} {u : Unit {0}}
      → InsideItems fs xs
      → walk_items xs ≡ ok u
      → check_node fs ≡ ok tt
  items-checked fs (first {x} i) h = let (_, e, k) = bind-ok (walk x) _ h in Inside-checked fs i e
  items-checked fs (later {x} i) h = let (_, e, k) = bind-ok (walk x) _ h in items-checked fs i k

  fields-checked :
      (fs : Fields) {gs : Fields} {u : Unit {0}}
      → InsideFields fs gs
      → walk_fields gs ≡ ok u
      → check_node fs ≡ ok tt
  fields-checked fs (value {k} {x} i) h =
      let (_, e, l) = bind-ok (walk x) _ h in Inside-checked fs i e
  fields-checked fs (more {k} {x} i) h =
      let (_, e, l) = bind-ok (walk x) _ h in fields-checked fs i l

-- What a dict may hold: no blocked key with a value, and no blocked type.
pub record IsPlain (fs : Fields) : Type 0 where
  pub no_content :
      (k : String) (v : Json) → Listed k blocked_keys → member k fs ≡ some v → is_void v ≡ true
  pub no_type : (t : String) → Listed t blocked_types → member "type" fs ≡ some (str t) → ⊥

none_filled :
    (ks : List String) (fs : Fields) (k : String) (v : Json)
    → any_filled ks fs ≡ false
    → Listed k ks
    → member k fs ≡ some v
    → is_void v ≡ true
unfolding any_filled is_filled
none_filled [] fs k v h l e = elim l [ ]
none_filled (j ∷ ks) fs k v h (inl same) e = ground arith
none_filled (j ∷ ks) fs k v h (inr l) e = ground (arith, none_filled ks fs k v)

type_allowed :
    (o : Option Json) (t : String) {u : Unit {0}}
    → check_type o ≡ ok u
    → o ≡ some (str t)
    → contains blocked_types t ≡ false
unfolding check_type
type_allowed o t h e = ground arith

check_node-IsPlain : (fs : Fields) {u : Unit {0}} → check_node fs ≡ ok u → IsPlain fs
unfolding check_node
check_node-IsPlain fs h =
    let content = unsupported "unsupported_llm_content" in
    let (_, e, k) =
      bind-ok (require (not (any_filled blocked_keys fs)) content)
        (λ _. check_type (member "type" fs)) h in
    let free = require-ok (not (any_filled blocked_keys fs)) content e in
    record {
      no_content = λ key v l m. none_filled blocked_keys fs key v (ground arith) l m;
      no_type = λ t l m.
          let allowed = type_allowed (member "type" fs) t k m in
          let blocked = Listed→contains t blocked_types l in ground arith;
    }

walks :
    (gs : Fields) (r : RouteRule) (response : Bool) {u : Unit {0}}
    → check_envelope gs r response ≡ ok u
    → walk (obj gs) ≡ ok tt
unfolding check_envelope
walks gs r true h = ground (arith, bind-ok (walk (obj gs)) (λ _. ok tt) h)
walks gs r false h =
    let (_, _, k) =
      bind-ok (check_model r gs r.rule)
        (λ _. walk (obj gs) >> check_tool_list r.llm_provider (member "tools" gs)) h in
    ground
      (arith, bind-ok (walk (obj gs)) (λ _. check_tool_list r.llm_provider (member "tools" gs)) k)

-- In a value that `validate_llm` accepts, no dict at any depth has one of the listed keys with a value,
-- or one of the listed types: those of content and tools that the gateway does not support.
pub validate_llm-IsPlain :
    (v : Json) (r : RouteRule) (response : Bool) (fs : Fields)
    → validate_llm v r response ≡ ok tt
    → Inside fs v
    → IsPlain fs
unfolding validate_llm
validate_llm-IsPlain (obj gs) r response fs h i =
    check_node-IsPlain fs (Inside-checked fs i (walks gs r response h))
validate_llm-IsPlain null r response fs h i = cc
validate_llm-IsPlain (bool b) r response fs h i = cc
validate_llm-IsPlain (int n) r response fs h i = cc
validate_llm-IsPlain (float f) r response fs h i = cc
validate_llm-IsPlain (str t) r response fs h i = cc
validate_llm-IsPlain (arr xs) r response fs h i = cc
