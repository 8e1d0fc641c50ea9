-- ===== src/Inspection/Sse/Blocking.antt =====
-- inspection/engine.py: `_redact_sse` under the action "block".
use ai_security_gateway.Base.{
  ℕ, ◌+◌, String, ◌≡◌, refl, Bool, true, ◌&&◌, not, Option, none, List, [], ◌∷◌, arith,
}
use ai_security_gateway.Base.Result.{ok}
use ai_security_gateway.Base.Exec.{lift}
use ai_security_gateway.Base.Exec.Runs.{bind-returns}
use ai_security_gateway.Inspection.Json.{Json, str}
use ai_security_gateway.Inspection.Contracts.{Bytes, InspectionConfig, block}
use ai_security_gateway.Inspection.Session.{
  Parts, Session, Finding, find, extend, refuse_if, signatures, types, is_empty,
}
use ai_security_gateway.Inspection.Redact.{is_block, redact_json}
use ai_security_gateway.Inspection.Redact.Blocking.{json_eq_refl, redact_json-block}
use ai_security_gateway.Inspection.Redact.Clean.{
  IsClean, IsCleanText, find-found, refuse_if-not, lift-ok,
}
use ai_security_gateway.Inspection.Sse.Lanes.{Kind, text, json, structural}
use ai_security_gateway.Inspection.Sse.Collect.{Leaf}
use ai_security_gateway.Inspection.Sse.Mask.{size, join, spans_in}
use ai_security_gateway.Inspection.Sse.Edits.{
  Group, Edit, values_of, groups_from, mask_edits, is_structural, encode_edits, edit_json,
  edit_text, edit_kind, edit_group, edit_groups,
}
use ai_security_gateway.Inspection.Sse.Reader.{Turns, read_stream}
use ai_security_gateway.Inspection.Sse.{StreamState}
use ai_security_gateway.Inspection.Sse.Redacted.{leaves_of, sent_body, redact_turns, redact_sse}

mask_edits-none : (offset : ℕ) (leaves : List Leaf) → mask_edits [] offset leaves ≡ []
unfolding mask_edits spans_in
mask_edits-none offset [] = refl
mask_edits-none offset (l ∷ ls) = mask_edits-none (offset + size l.value) ls

is_empty-nil : (found : List Finding) → is_empty found ≡ true → found ≡ []
is_empty-nil [] h = refl
is_empty-nil (f ∷ fs) h = ground arith

-- The scanner finds nothing that counts in the texts of a lane, joined: in the joined text, or in the
-- value that it is the JSON text of.
abbrev pub IsCleanLane : Parts → InspectionConfig → Kind → String → Type 0
IsCleanLane parts config json t = IsCleanText parts config t
IsCleanLane parts config text t = IsClean parts config t
IsCleanLane parts config structural t = IsClean parts config t

abbrev pub AreClean : Parts → InspectionConfig → List Group → Type 0
AreClean parts config [] = Unit
AreClean parts config (g ∷ gs) =
    IsCleanLane parts config g.kind (join (values_of g.leaves)) × AreClean parts config gs

module _ {File : Type 0} (parts : Parts) (config : InspectionConfig) where
  edit_text-block :
      (kind : Kind) (leaves : List Leaf) (x y : Session File) (es : List Edit)
      → edit_text parts config block kind leaves x ≡ (ok es, y)
      → (es ≡ []) × IsClean parts config (join (values_of leaves))
  unfolding edit_text
  edit_text-block kind leaves x y es h =
      let (found, x1, h1, k1) =
        bind-returns (find parts config (join (values_of leaves))) _ x es y h in
      let (u2, x2, h2, k2) = bind-returns (extend (types found)) _ x1 es y k1 in
      let (u3, x3, h3, k3) =
        bind-returns (refuse_if (not (is_empty found) && is_block block) "pii_block_policy") _ x2 es
          y k2 in
      let (u4, x4, h4, k4) =
        bind-returns
          (refuse_if (not (is_empty found) && is_structural kind) "pii_in_sse_structural_field") _
          x3 es y k3 in
      let refused =
        refuse_if-not parts config (not (is_empty found) && is_block block) "pii_block_policy" x2 x3
          h3 in
      let empty : is_empty found ≡ true = ground (arith, refused) in
      let nothing = is_empty-nil found empty in
      (
        ground (arith, k4, nothing, mask_edits-none 0 leaves),
        find-found parts config (join (values_of leaves)) x x1 found h1 empty,
      )

  edit_json-block :
      (leaves : List Leaf) (x y : Session File) (es : List Edit)
      → edit_json parts config block leaves x ≡ (ok es, y)
      → (es ≡ []) × IsCleanText parts config (join (values_of leaves))
  unfolding edit_json encode_edits
  edit_json-block leaves x y es h =
      let (bytes, x1, h1, k1) =
        bind-returns (lift (parts.encode_utf8 (join (values_of leaves)))) _ x es y h in
      let (value, x2, h2, k2) = bind-returns (lift (parts.strict_json bytes)) _ x1 es y k1 in
      let (u, x3, h3, k3) = bind-returns (signatures parts config value) _ x2 es y k2 in
      let (modified, x4, h4, k4) =
        bind-returns (redact_json parts config none block value) _ x3 es y k3 in
      let (same, clean) = redact_json-block parts config none value modified x3 x4 h4 in
      (
        ground (arith, k4, same, json_eq_refl value),
        (
          bytes,
          value,
          lift-ok parts config (parts.encode_utf8 (join (values_of leaves))) x x1 h1,
          lift-ok parts config (parts.strict_json bytes) x1 x2 h2,
          clean,
        ),
      )

  edit_kind-block :
      (kind : Kind) (leaves : List Leaf) (x y : Session File) (es : List Edit)
      → edit_kind parts config block kind leaves x ≡ (ok es, y)
      → (es ≡ []) × IsCleanLane parts config kind (join (values_of leaves))
  unfolding edit_kind
  edit_kind-block json leaves x y es h = edit_json-block leaves x y es h
  edit_kind-block text leaves x y es h = edit_text-block text leaves x y es h
  edit_kind-block structural leaves x y es h = edit_text-block structural leaves x y es h

  edit_groups-block :
      (gs : List Group) (x y : Session File) (es : List Edit)
      → edit_groups parts config block gs x ≡ (ok es, y)
      → (es ≡ []) × AreClean parts config gs
  unfolding edit_groups edit_group
  edit_groups-block [] x y es h = (ground arith, tt)
  edit_groups-block (g ∷ gs) x y es h =
      let (first, x1, h1, k1) = bind-returns (edit_group parts config block g) _ x es y h in
      let (u, x3, h3, k3) =
        bind-returns (signatures parts config (str (join (values_of g.leaves)))) _ x first x1 h1 in
      let (more, x2, h2, k2) = bind-returns (edit_groups parts config block gs) _ x1 es y k1 in
      let (none_here, clean) = edit_kind-block g.kind g.leaves x3 x1 first k3 in
      let (none_later, others) = edit_groups-block gs x1 x2 more h2 in
      (ground (arith, k2, none_here, none_later), (clean, others))

  -- Under the action "block", a stream whose redaction returns is sent as it came, byte for byte, and
  -- the scanner found nothing that counts in the texts of its events: the texts of each lane, joined
  -- over the events, are clean, or are the JSON text of a clean value.
  pub redact_sse-block :
      (is_zero : String → Bool) (str_of : Json → String) (provider : Option String)
      (body out : Bytes) (x y : Session File)
      → redact_sse parts config is_zero str_of body block provider x ≡ (ok out, y)
      → (out ≡ body)
        × ((turns : Turns) × (t : StreamState) × (z : Session File) × (read_stream parts config
                is_zero str_of provider body x
              ≡ (ok (turns, t), z))
            × AreClean parts config (groups_from [] (leaves_of turns)))
  unfolding redact_sse redact_turns sent_body
  redact_sse-block is_zero str_of provider body out x y h =
      let ((turns, t), x1, h1, k1) =
        bind-returns (read_stream parts config is_zero str_of provider body) _ x out y h in
      let (es, x2, h2, k2) =
        bind-returns (edit_groups parts config block (groups_from [] (leaves_of turns))) _ x1 out y
          k1 in
      let (unchanged, clean) = edit_groups-block (groups_from [] (leaves_of turns)) x1 x2 es h2 in
      (ground (arith, k2, unchanged), (turns, t, x1, h1, clean))
