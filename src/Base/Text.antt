-- ===== src/Base/Text.antt =====
-- Text as code points, and the tests on text that the source makes with Python's `str` and `re`.
use Prim.Native.Nat.{ℕ, zero, suc}
use Prim.Native.Char.{Char, code}
use Prim.Native.String.{String}
use mathlib.Core.Path.{◌≡◌, refl}
use mathlib.Core.Logic.{◌⊎◌, inl, inr}
use mathlib.Core.Bool.{Bool, true, false, ◌&&◌, ◌||◌}
use mathlib.Core.Option.{Option, none, some}
use mathlib.Core.List.{List, [], ◌∷◌}
use native.Mathlib.Omega.{arith}
use text.Mathlib.Text.{◌==◌ as str_eq}
use text.Mathlib.TextEquality.{eq_iff}
use text.Mathlib.TextPositions.{eq_refl}
use ai_security_gateway.Base.Tests.{leb, ◌==◌, if◌then◌else◌}
use ai_security_gateway.Base.Lists.{length, all}

abbrev pub codes : String → List ℕ
codes String.[] = []
codes (String.◌∷◌ c s) = code c ∷ codes s

-- The truth value of a `str`: false at the empty one.
abbrev pub is_set : String → Bool
is_set String.[] = false
is_set (String.◌∷◌ c s) = true

-- `str.isspace` of one character.
abbrev pub is_space : ℕ → Bool
is_space c =
    (leb 9 c && leb c 13)
    || (leb 28 c && leb c 32)
    || c == 0x85
    || c == 0xa0
    || c == 0x1680
    || (leb 0x2000 c && leb c 0x200a)
    || c == 0x2028
    || c == 0x2029
    || c == 0x202f
    || c == 0x205f
    || c == 0x3000

-- `not text.strip()`
unfoldable pub is_blank : String → Bool
is_blank s = all is_space (codes s)

abbrev pub is_hex : ℕ → Bool
is_hex c = (leb b'0' c && leb c b'9') || (leb b'a' c && leb c b'f')

-- `re.fullmatch(r"[0-9a-f]{n}", text)`
unfoldable pub is_hex_text : ℕ → String → Bool
is_hex_text n s = length (codes s) == n && all is_hex (codes s)

abbrev pub opt_eq : Option String → Option String → Bool
opt_eq none none = true
opt_eq (some a) (some b) = str_eq a b
opt_eq none (some b) = false
opt_eq (some a) none = false

-- `text in texts`
unfoldable pub contains : List String → String → Bool
contains [] s = false
contains (x ∷ xs) s = str_eq x s || contains xs s

-- `text.startswith(prefix)` and `text.endswith(suffix)`
unfoldable pub starts_with : String → String → Bool
starts_with String.[] s = true
starts_with (String.◌∷◌ c p) String.[] = false
starts_with (String.◌∷◌ c p) (String.◌∷◌ d s) =
    str_eq (String.◌∷◌ c String.[]) (String.◌∷◌ d String.[]) && starts_with p s

unfoldable pub ends_with : String → String → Bool
ends_with suffix String.[] = str_eq suffix ""
ends_with suffix (String.◌∷◌ c s) = str_eq suffix (String.◌∷◌ c s) || ends_with suffix s

-- `text[:n]` and `text[n:]`
unfoldable pub take_text : ℕ → String → String
take_text zero s = ""
take_text (suc n) String.[] = ""
take_text (suc n) (String.◌∷◌ c s) = String.◌∷◌ c (take_text n s)

unfoldable pub drop_text : ℕ → String → String
drop_text zero s = s
drop_text (suc n) String.[] = ""
drop_text (suc n) (String.◌∷◌ c s) = drop_text n s

-- Whether a text has the character of a code.
unfoldable pub has_char : ℕ → String → Bool
has_char n String.[] = false
has_char n (String.◌∷◌ c s) = code c == n || has_char n s

-- A character before the first of some texts.
abbrev pub put_first : Char → List String → List String
put_first c [] = String.◌∷◌ c String.[] ∷ []
put_first c (t ∷ ts) = String.◌∷◌ c t ∷ ts

-- `text.split(mark)`, for the mark with this code.
unfoldable pub split : ℕ → String → List String
split n String.[] = "" ∷ []
split n (String.◌∷◌ c s) =
    let rest = split n s in if code c == n then "" ∷ rest else put_first c rest

-- `text.partition(mark)[0]`: what stands before the first mark.
unfoldable pub text_before : ℕ → String → String
text_before n String.[] = ""
text_before n (String.◌∷◌ c s) =
    let rest = text_before n s in if code c == n then "" else String.◌∷◌ c rest

pub opt_eq→eq : (a b : Option String) → opt_eq a b ≡ true → a ≡ b
opt_eq→eq none none h = refl
opt_eq→eq (some a) (some b) h = ground (arith, (eq_iff a b).0 h)
opt_eq→eq none (some b) h = cc
opt_eq→eq (some a) none h = cc

pub opt_eq_refl : (a : Option String) → opt_eq a a ≡ true
opt_eq_refl none = refl
opt_eq_refl (some a) = eq_refl a

-- A text that is not blank is not empty.
pub is_blank→is_set : (s : String) → is_blank s ≡ false → is_set s ≡ true
unfolding is_blank
is_blank→is_set String.[] h = cc
is_blank→is_set (String.◌∷◌ c s) h = refl

abbrev pub Listed : String → List String → Type 0
Listed v [] = ⊥
Listed v (x ∷ xs) = (x ≡ v) ⊎ Listed v xs

pub contains→Listed : (v : String) (xs : List String) → contains xs v ≡ true → Listed v xs
unfolding contains
contains→Listed v [] h = cc
contains→Listed v (x ∷ xs) h = ground (arith, eq_iff x v, contains→Listed v xs)

pub Listed→contains : (v : String) (xs : List String) → Listed v xs → contains xs v ≡ true
unfolding contains
Listed→contains v [] m = elim m [ ]
Listed→contains v (x ∷ xs) (inl e) = ground (arith, eq_iff x v)
Listed→contains v (x ∷ xs) (inr m) = ground (arith, Listed→contains v xs m)
