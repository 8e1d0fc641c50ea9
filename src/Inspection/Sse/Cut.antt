-- ===== src/Inspection/Sse/Cut.antt =====
-- inspection/engine.py: the pieces of a JSON text that several events carry.
use Prim.Native.String.{◌++◌ as str_append}
use Prim.Native.String.append
use ai_security_gateway.Base.{
  drop_text, take_text, ℕ, zero, suc, String, ◌≡◌, refl, ap, ◌∙◌, List, [], ◌∷◌,
}
use ai_security_gateway.Inspection.Sse.Collect.{Leaf}
use ai_security_gateway.Inspection.Sse.Mask.{size, join}
use ai_security_gateway.Inspection.Sse.Edits.{Edit, cut_edits}

-- The new texts of some edits, and the texts that they are of.
abbrev pub replacements : List Edit → List String
replacements [] = []
replacements (e ∷ es) = e.replacement ∷ replacements es

abbrev pub edited_leaves : List Edit → List Leaf
edited_leaves [] = []
edited_leaves (e ∷ es) = e.leaf ∷ edited_leaves es

take_text-drop_text : (n : ℕ) (t : String) → str_append (take_text n t) (drop_text n t) ≡ t
unfolding take_text drop_text
take_text-drop_text zero t = append.nil t
take_text-drop_text (suc n) String.[] = append.nil ""
take_text-drop_text (suc n) (String.◌∷◌ c t) =
    append.cons c (take_text n t) (drop_text n t) ∙ ap (String.◌∷◌ c) (take_text-drop_text n t)

append_nothing : (t : String) → str_append t "" ≡ t
append_nothing String.[] = append.nil ""
append_nothing (String.◌∷◌ c t) = append.cons c t "" ∙ ap (String.◌∷◌ c) (append_nothing t)

-- A new JSON text is given to the texts of its lane, each once and in their order, in pieces that join to
-- it again.
pub cut_edits-join :
    (new : String) (l : Leaf) (ls : List Leaf)
    → (join (replacements (cut_edits new (l ∷ ls))) ≡ new)
      × (edited_leaves (cut_edits new (l ∷ ls)) ≡ l ∷ ls)
unfolding cut_edits join
cut_edits-join new l [] = (append_nothing new, refl)
cut_edits-join new l (k ∷ ls) =
    let n = size l.value in
    let (joined, same) = cut_edits-join (drop_text n new) k ls in
    (ap (str_append (take_text n new)) joined ∙ take_text-drop_text n new, ap (λ xs. l ∷ xs) same)
