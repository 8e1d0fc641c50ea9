-- ===== src/Inspection/Sse/Lines.antt =====
-- inspection/engine.py: the text of an event stream, its events and their lines.
use Prim.Native.Char.{code}
use Prim.Native.String.{◌++◌ as str_append}
use ai_security_gateway.Base.{
  put_first, split, text_before, ℕ, String, Bool, true, false, ◌&&◌, not, none, some, List, [], ◌∷◌,
  ◌++◌, leb, ◌==◌, all, str_eq, is_set, codes, contains, if◌then◌else◌,
}
use ai_security_gateway.Base.Dict
use ai_security_gateway.Base.Dict.{Dict}
use ai_security_gateway.Base.Exec.{pure, ◌>>=◌, ◌>>◌}
use ai_security_gateway.Inspection.Json.{str}
use ai_security_gateway.Inspection.Contracts.{InspectionConfig}
use ai_security_gateway.Inspection.Session.{
  Parts, I, find, extend, refuse_if, signatures, types, is_empty,
}

-- `text.removeprefix("\ufeff")`
unfoldable pub without_mark : String → String
without_mark String.[] = ""
without_mark (String.◌∷◌ c s) = if code c == 0xfeff then s else String.◌∷◌ c s

-- `text.replace("\r\n", "\n").replace("\r", "\n")`
unfoldable pub with_newlines : String → String
with_newlines String.[] = ""
with_newlines (String.◌∷◌ c String.[]) = if code c == 13 then "\n" else String.◌∷◌ c String.[]
with_newlines (String.◌∷◌ c (String.◌∷◌ d s)) =
    let after_both = with_newlines s in
    let after_one = with_newlines (String.◌∷◌ d s) in
    if code c == 13
    then String.◌∷◌ "\n" (if code d == 10 then after_both else after_one)
    else String.◌∷◌ c after_one

-- `text.split("\n\n")`
unfoldable pub split_events : String → List String
split_events String.[] = "" ∷ []
split_events (String.◌∷◌ c String.[]) = String.◌∷◌ c String.[] ∷ []
split_events (String.◌∷◌ c (String.◌∷◌ d s)) =
    let after_both = split_events s in
    let after_one = split_events (String.◌∷◌ d s) in
    if code c == 10 && code d == 10 then "" ∷ after_both else put_first c after_one

-- `event.split("\n")`
abbrev pub split_lines : String → List String
split_lines event = split 10 event

-- `line.partition(":")`: what stands before the colon, and what after it, where there is one.
abbrev pub field_of : String → String
field_of line = text_before b':' line

unfoldable pub after_colon : String → String
after_colon String.[] = ""
after_colon (String.◌∷◌ c s) = let rest = after_colon s in if code c == b':' then s else rest

-- `contents.removeprefix(" ")`
unfoldable pub without_blank : String → String
without_blank String.[] = ""
without_blank (String.◌∷◌ c s) = if code c == 32 then s else String.◌∷◌ c s

abbrev is_digit : ℕ → Bool
is_digit c = leb b'0' c && leb c b'9'

abbrev has_key : String → Dict String → Bool
has_key k d = elim (Dict.get k d) [ none ↦ false | some v ↦ true ]

-- `"\n".join(lines)`
unfoldable pub join_lines : List String → String
join_lines [] = ""
join_lines (l ∷ []) = l
join_lines (l ∷ k ∷ ls) = str_append l (str_append "\n" (join_lines (k ∷ ls)))

-- What the lines of an event say: the lines of its data and its metadata.
pub record Lines : Type 0 where
  pub data_lines : List String
  pub metadata : Dict String

module _ {File : Type 0} (parts : Parts) (config : InspectionConfig) where
  -- A line that is no data: it is inspected, and its field is a known one, given once.
  unfoldable pub read_metadata : String → String → String → Lines → I File Lines
  read_metadata line name contents l = do
    signatures parts config (str line)
    found ← find parts config line
    extend (types found)
    refuse_if (not (is_empty found)) "pii_in_sse_metadata"
    refuse_if (not (contains ("" ∷ "event" ∷ "id" ∷ "retry" ∷ []) name)) "unsupported_sse_field"
    refuse_if (is_set name && has_key name l.metadata) "ambiguous_sse_metadata"
    refuse_if (str_eq name "retry" && not (is_set contents && all is_digit (codes contents)))
        "invalid_sse_retry"
    pure (if is_set name then record l { metadata = Dict.put name contents l.metadata } else l)

  unfoldable pub read_line : String → Lines → I File Lines
  read_line line l =
      let contents = without_blank (after_colon line) in
      if str_eq (field_of line) "data"
      then pure (record l { data_lines = l.data_lines ++ contents ∷ [] })
      else read_metadata line (field_of line) contents l

  -- The loop over the lines of an event.
  unfoldable pub read_lines : List String → Lines → I File Lines
  read_lines [] l = pure l
  read_lines (line ∷ more) l = do next ← read_line line l; read_lines more next
