-- ===== src/Inspection/Sse.antt =====
-- inspection/engine.py: the event streams that `_redact_sse` accepts, their protocols and the state that
-- it keeps over the events.
pub mod Chat
pub mod Responses
pub mod Anthropic
pub mod Gemini
pub mod Stream
pub mod Lanes
pub mod Collect
pub mod Mask
pub mod Edits
pub mod Lines
pub mod Reader
pub mod Passes
pub mod Redacted
pub mod Blocking
pub mod Cut
pub mod Final
pub mod Complete
use ai_security_gateway.Base.{
  ℕ, String, Bool, true, false, ◌&&◌, ◌||◌, not, Option, none, some, List, [], ◌∷◌, leb, ◌==◌,
  str_eq, contains, if◌then◌else◌,
}
use ai_security_gateway.Base.Result.{Result, ok, err}
use ai_security_gateway.Inspection.Json.{
  Json, null, str, int, arr, obj, ℤ, pos, Items, nil, Fields, end, field, member,
}
use ai_security_gateway.Inspection.Contracts.{Raised, inspection_error, other_exception}

pub data Family : Type 0 where
  chat responses anthropic gemini mcp : Family

-- The local variables of the loop over the events; a set of indices is a list.
pub record StreamState : Type 0 where
  pub family : Option Family
  pub terminal : Bool
  pub anthropic_started : Bool
  pub anthropic_open : List ℕ
  pub anthropic_seen : List ℕ
  pub gemini_seen : List ℕ
  pub gemini_finished : List ℕ

abbrev pub initial : StreamState
initial = record {
  family = none;
  terminal = false;
  anthropic_started = false;
  anthropic_open = [];
  anthropic_seen = [];
  gemini_seen = [];
  gemini_finished = [];
}

-- `raise InspectionError(code)` where a condition holds.
abbrev pub refuse : Bool → String → Result Raised (Unit {0})
refuse false code = ok tt
refuse true code = err (inspection_error code)

-- `index`: an integer from 0 to 1,000,000.
unfoldable pub index : Option Json → Result Raised ℕ
index (some (int (pos n))) =
    if leb n 1000000 then ok n else err (inspection_error "invalid_sse_index")
index _ = err (inspection_error "invalid_sse_index")

-- A value that is looked up in a set of texts: a list or a dict cannot be.
unfoldable pub as_type : Option Json → Result Raised (Option String)
as_type (some (str t)) = ok (some t)
as_type (some (arr js)) = err other_exception
as_type (some (obj fs)) = err other_exception
as_type _ = ok none

abbrev pub is_one_of : List String → Option String → Bool
is_one_of ts none = false
is_one_of ts (some t) = contains ts t

-- `isinstance(value, str)`, and the same of a dict, whose members come back.
abbrev pub is_str : Option Json → Bool
is_str (some (str t)) = true
is_str _ = false

abbrev pub as_dict : String → Option Json → Result Raised Fields
as_dict code (some (obj fs)) = ok fs
as_dict code _ = err (inspection_error code)

-- `value is None or isinstance(value, str)`
abbrev pub is_optional_str : Option Json → Bool
is_optional_str none = true
is_optional_str (some null) = true
is_optional_str (some (str t)) = true
is_optional_str _ = false

-- `not set(fields) - keys`
unfoldable pub has_only : List String → Fields → Bool
has_only keys end = true
has_only keys (field k j fs) = contains keys k && has_only keys fs

unfoldable pub has_index : ℕ → List ℕ → Bool
has_index n [] = false
has_index n (m ∷ ms) = m == n || has_index n ms

-- `indices.add(n)` and `indices.remove(n)`
unfoldable pub add : ℕ → List ℕ → List ℕ
add n ms = if has_index n ms then ms else n ∷ ms

unfoldable pub remove : ℕ → List ℕ → List ℕ
remove n [] = []
remove n (m ∷ ms) = if m == n then remove n ms else m ∷ remove n ms

unfoldable pub all_in : List ℕ → List ℕ → Bool
all_in [] ms = true
all_in (n ∷ ns) ms = has_index n ms && all_in ns ms
