-- ===== src/Inspection/Sse/Mask.antt =====
-- inspection/engine.py: the masks of `_redact_sse` over the parts of a text that several events carry.
use Prim.Native.String.{◌++◌ as str_append}
use Prim.Native.String.append
use ai_security_gateway.Base.{
  ℕ, suc, ◌+◌, ◌-◌, ◌<◌, String, ◌≡◌, refl, sym, ap, ◌∙◌, Bool, true, false, ◌&&◌, ◌||◌, List, [],
  ◌∷◌, ltb, leb, length, codes, arith, if◌then◌else◌,
}
use ai_security_gateway.Inspection.Session.{Finding}

abbrev pub Span : Type 0
Span = ℕ × ℕ

abbrev pub size : String → ℕ
size s = length (codes s)

-- The spans of the findings in a part, of a size, that begins at an offset of the text.
unfoldable pub spans_in : ℕ → ℕ → List Finding → List Span
spans_in offset n [] = []
spans_in offset n (f ∷ fs) =
    let rest = spans_in offset n fs in
    if ltb f.start (offset + n) && ltb offset f.stop
    then (f.start - offset, if ltb n (f.stop - offset) then n else f.stop - offset) ∷ rest
    else rest

-- Whether the mask hides a position.
unfoldable pub hides : List Span → ℕ → Bool
hides [] i = false
hides ((a, b) ∷ spans) i = (leb a i && ltb i b) || hides spans i

-- `"".join("*" if hide else char ...)`, from a position on.
unfoldable pub hidden_from : List Span → ℕ → String → String
hidden_from spans i String.[] = ""
hidden_from spans i (String.◌∷◌ c s) =
    let rest = hidden_from spans (suc i) s in
    if hides spans i then String.◌∷◌ "*" rest else String.◌∷◌ c rest

abbrev pub has_spans : List Span → Bool
has_spans [] = false
has_spans (s ∷ ss) = true

-- The loop over the parts of a text.
unfoldable pub mask_parts : List Finding → ℕ → List String → List String
mask_parts fs offset [] = []
mask_parts fs offset (v ∷ vs) =
    let spans = spans_in offset (size v) fs in
    let rest = mask_parts fs (offset + size v) vs in
    (if has_spans spans then hidden_from spans 0 v else v) ∷ rest

-- `"".join(parts)`
unfoldable pub join : List String → String
join [] = ""
join (v ∷ vs) = str_append v (join vs)

-- The findings' own spans, in the whole text.
unfoldable pub spans_of : List Finding → List Span
spans_of [] = []
spans_of (f ∷ fs) = (f.start, f.stop) ∷ spans_of fs

hides-spans_in :
    (fs : List Finding) (offset n i : ℕ)
    → i < n
    → hides (spans_in offset n fs) i ≡ hides (spans_of fs) (offset + i)
unfolding hides spans_in spans_of
hides-spans_in [] offset n i h = refl
hides-spans_in (f ∷ fs) offset n i h = ground (arith, h, hides-spans_in fs offset n i h)

hidden_from-agree :
    (xs ys : List Span) (i j : ℕ) (s : String)
    → ((k : ℕ) → k < size s → hides xs (i + k) ≡ hides ys (j + k))
    → hidden_from xs i s ≡ hidden_from ys j s
unfolding hidden_from
hidden_from-agree xs ys i j String.[] h = refl
hidden_from-agree xs ys i j (String.◌∷◌ c s) h =
    let here = h 0 (omega arith) in
    let rest =
      hidden_from-agree xs ys (suc i) (suc j) s
        (λ k l. ground (arith, h (suc k) (omega (arith, l)))) in
    ground (arith, here, rest)

hidden_from-append :
    (xs : List Span) (i : ℕ) (s t : String)
    → hidden_from xs i (str_append s t)
      ≡ str_append (hidden_from xs i s) (hidden_from xs (i + size s) t)
unfolding hidden_from
hidden_from-append xs i String.[] t =
    let e : i ≡ i + 0 = omega arith in
    ap (hidden_from xs i) (append.nil t) ∙ ap (λ k. hidden_from xs k t) e ∙ sym (append.nil _)
hidden_from-append xs i (String.◌∷◌ c s) t = ground (
  arith,
  append.cons c s t,
  append.cons c (hidden_from xs (suc i) s) (hidden_from xs (suc i + size s) t),
  append.cons "*" (hidden_from xs (suc i) s) (hidden_from xs (suc i + size s) t),
  hidden_from-append xs (suc i) s t,
)

hidden_from-nil : (i : ℕ) (s : String) → hidden_from [] i s ≡ s
unfolding hidden_from hides
hidden_from-nil i String.[] = refl
hidden_from-nil i (String.◌∷◌ c s) = ground (arith, hidden_from-nil (suc i) s)

-- A part is masked as the whole text is at its place.
part-hidden :
    (fs : List Finding) (offset : ℕ) (v : String)
    → (let spans = spans_in offset (size v) fs in
        if has_spans spans then hidden_from spans 0 v else v)
      ≡ hidden_from (spans_of fs) offset v
part-hidden fs offset v =
    let spans = spans_in offset (size v) fs in
    let same =
      hidden_from-agree spans (spans_of fs) 0 offset v
        (λ k l. ground (arith, hides-spans_in fs offset (size v) k l)) in
    ground (arith, same, hidden_from-nil 0 v)

-- The masked parts, joined, are the joined text masked at the findings' spans: how a provider cuts a text
-- into events makes no difference to what is hidden.
pub mask_parts-join :
    (fs : List Finding) (offset : ℕ) (vs : List String)
    → join (mask_parts fs offset vs) ≡ hidden_from (spans_of fs) offset (join vs)
unfolding mask_parts join hidden_from
mask_parts-join fs offset [] = refl
mask_parts-join fs offset (v ∷ vs) = ground (
  arith,
  part-hidden fs offset v,
  mask_parts-join fs (offset + size v) vs,
  hidden_from-append (spans_of fs) offset v (join vs),
)
