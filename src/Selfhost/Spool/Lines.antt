-- ===== src/Selfhost/Spool/Lines.antt =====
-- selfhost/spool.py: whole lines, and the lines of two pieces.
use ai_security_gateway.Base.{
  ℕ, zero, suc, ◌≤◌, ◌≡◌, refl, Bool, true, false, Option, none, List, [], ◌∷◌, ◌++◌, arith, length,
  ltb, ◌==◌, if◌then◌else◌, Bool-cases, inl, inr,
}
use ai_security_gateway.Selfhost.Spool.{
  Bytes, take, end_of_lines, split_from, splitlines, decoded, begun, grown,
}

-- Bytes that are empty or end with a line's end.
unfoldable pub is_whole : Bytes → Bool
is_whole [] = true
is_whole (b ∷ []) = b == 10
is_whole (b ∷ c ∷ bs) = is_whole (c ∷ bs)

pub end_of_lines-le-length : (bs : Bytes) → end_of_lines bs ≤ length bs
unfolding end_of_lines
end_of_lines-le-length [] = omega arith
end_of_lines-le-length (b ∷ bs) = ground (arith, end_of_lines-le-length bs)

pub length-take : (n : ℕ) (bs : Bytes) → n ≤ length bs → length (take n bs) ≡ n
unfolding take
length-take zero bs h = refl
length-take (suc n) [] h = absurd (omega arith)
length-take (suc n) (b ∷ bs) h = omega (arith, length-take n bs (omega arith))

is_whole-cons : (b : ℕ) (xs : Bytes) → is_whole xs ≡ true → 1 ≤ length xs → is_whole (b ∷ xs) ≡ true
unfolding is_whole
is_whole-cons b [] h l = absurd (omega arith)
is_whole-cons b (x ∷ xs) h l = h

-- What is read ends with a line's end.
pub take-end_of_lines : (bs : Bytes) → is_whole (take (end_of_lines bs) bs) ≡ true
unfolding take end_of_lines is_whole
take-end_of_lines [] = refl
take-end_of_lines (b ∷ bs) = elim (Bool-cases (ltb 0 (end_of_lines bs))) [
  | inr f ↦ ground arith
  | inl t ↦
      let n = end_of_lines bs in
      let same = length-take n bs (end_of_lines-le-length bs) in
      let many : 1 ≤ length (take n bs) = ground arith in
      rw t (is_whole-cons b (take n bs) (take-end_of_lines bs) many)
]

-- Bytes that end with a line's end are read whole.
pub end_of_lines-IsWhole : (bs : Bytes) → is_whole bs ≡ true → end_of_lines bs ≡ length bs
unfolding end_of_lines is_whole
end_of_lines-IsWhole [] h = refl
end_of_lines-IsWhole (b ∷ []) h = ground arith
end_of_lines-IsWhole (b ∷ c ∷ bs) h = ground (arith, end_of_lines-IsWhole (c ∷ bs))

-- One byte.
split_from-cons :
    (cr : Bool) (l : Option Bytes) (b : ℕ) (bs : Bytes)
    → split_from cr l (b ∷ bs) ≡ (
        if b == 10
        then (if cr then split_from false none bs else begun l ∷ split_from false none bs)
        else if b == 13
        then begun l ∷ split_from true none bs
        else split_from false (grown l b) bs)
unfolding split_from
split_from-cons cr l b bs = refl

last_line :
    (cr : Bool) (l : Option Bytes) (b : ℕ) (bs : Bytes)
    → is_whole (b ∷ []) ≡ true
    → split_from cr l (b ∷ bs) ≡ split_from cr l (b ∷ []) ++ split_from false none bs
unfolding split_from is_whole
last_line cr l b bs h = ground arith

split_from-append :
    (cr : Bool) (l : Option Bytes) (b : ℕ) (xs bs : Bytes)
    → is_whole (b ∷ xs) ≡ true
    → split_from cr l (b ∷ xs ++ bs) ≡ split_from cr l (b ∷ xs) ++ split_from false none bs
unfolding is_whole
split_from-append cr l b [] bs h = last_line cr l b bs h
split_from-append cr l b (a ∷ xs) bs h = ground (
  arith,
  split_from-cons cr l b (a ∷ xs ++ bs),
  split_from-cons cr l b (a ∷ xs),
  split_from-append false none a xs bs h,
  split_from-append true none a xs bs h,
  split_from-append false (grown l b) a xs bs h,
)

split_from-nil :
    (bs : Bytes) → split_from false none bs ≡ split_from false none [] ++ split_from false none bs
unfolding split_from
split_from-nil bs = refl

-- The lines of whole lines and what follows them are the lines of the two.
pub splitlines-append :
    (xs bs : Bytes) → is_whole xs ≡ true → splitlines (xs ++ bs) ≡ splitlines xs ++ splitlines bs
unfolding splitlines
splitlines-append [] bs h = split_from-nil bs
splitlines-append (x ∷ xs) bs h = split_from-append false none x xs bs h

module _ {Event : Type 0} (decode : Bytes → Option Event) where
  pub decoded-append :
      (xs ys : List Bytes) → decoded decode (xs ++ ys) ≡ decoded decode xs ++ decoded decode ys
  unfolding decoded
  decoded-append [] ys = refl
  decoded-append (x ∷ xs) ys = ground (arith, decoded-append xs ys)
