-- ===== src/Selfhost/Latency/Sizes.antt =====
-- selfhost/latency.py: the sizes of what the operations on lists and dictionaries leave.
use ai_security_gateway.Base.{
  ℕ, zero, suc, ◌-◌, ◌≤◌, String, ◌≡◌, some, List, [], ◌∷◌, ◌++◌, arith, length, drop, length-drop,
  str_eq, Bool-cases, inl, inr,
}
use ai_security_gateway.Base.Dict
use ai_security_gateway.Base.Dict.{Dict}
use ai_security_gateway.Selfhost.Latency.{Pending, last_of, first_of}

-- Every list of a dictionary has a bounded length.
abbrev pub Short : {A : Type 0} → ℕ → Dict (List A) → Type 0
Short n [] = Unit {0}
Short n ((k, xs) ∷ d) = (length xs ≤ n) × Short n d

-- No pending request has more than eight checks of a phase.
abbrev pub FewChecks : Dict Pending → Type 0
FewChecks [] = Unit {0}
FewChecks ((k, p) ∷ d) = Short 8 p.checks × FewChecks d

pub length-last_of : {A : Type 0} (n : ℕ) (xs : List A) → length (last_of n xs) ≤ n
unfolding last_of
length-last_of n xs = omega (arith, length-drop (length xs - n) xs)

pub length-first_of : {A : Type 0} (n : ℕ) (xs : List A) → length (first_of n xs) ≤ n
unfolding first_of
length-first_of n [] = omega arith
length-first_of zero (x ∷ xs) = omega arith
length-first_of (suc n) (x ∷ xs) = omega (arith, length-first_of n xs)

pub put-Short :
    {A : Type 0} (n : ℕ) (k : String) (xs : List A) (d : Dict (List A))
    → length xs ≤ n
    → Short n d
    → Short n (Dict.put k xs d)
unfolding Dict.put
put-Short n k xs [] h b = (h, tt)
put-Short n k xs ((j, ys) ∷ d) h (c, b) = elim (Bool-cases (str_eq j k)) [
  | inl same ↦ rw same (h, b)
  | inr other ↦ rw other (c, put-Short n k xs d h b)
]

pub put-FewChecks :
    (k : String) (p : Pending) (d : Dict Pending)
    → Short 8 p.checks
    → FewChecks d
    → FewChecks (Dict.put k p d)
unfolding Dict.put
put-FewChecks k p [] h b = (h, tt)
put-FewChecks k p ((j, q) ∷ d) h (c, b) = elim (Bool-cases (str_eq j k)) [
  | inl same ↦ rw same (h, b)
  | inr other ↦ rw other (c, put-FewChecks k p d h b)
]

pub pop-FewChecks : (k : String) (d : Dict Pending) → FewChecks d → FewChecks (Dict.pop k d)
unfolding Dict.pop
pop-FewChecks k [] b = tt
pop-FewChecks k ((j, q) ∷ d) (c, b) = elim (Bool-cases (str_eq j k)) [
  | inl same ↦ rw same (pop-FewChecks k d b)
  | inr other ↦ rw other (c, pop-FewChecks k d b)
]

pub get-FewChecks :
    (k : String) (d : Dict Pending) (p : Pending)
    → FewChecks d
    → Dict.get k d ≡ some p
    → Short 8 p.checks
unfolding Dict.get
get-FewChecks k [] p b h = ground arith
get-FewChecks k ((j, q) ∷ d) p (c, b) h = ground (arith, c, get-FewChecks k d p b)

pub append-FewChecks :
    (k : String) (p : Pending) (d : Dict Pending)
    → Short 8 p.checks
    → FewChecks d
    → FewChecks (d ++ (k, p) ∷ [])
append-FewChecks k p [] h b = (h, tt)
append-FewChecks k p ((j, q) ∷ d) h (c, b) = (c, append-FewChecks k p d h b)

drop-FewChecks : (n : ℕ) (d : Dict Pending) → FewChecks d → FewChecks (drop n d)
drop-FewChecks zero d b = b
drop-FewChecks (suc n) [] b = tt
drop-FewChecks (suc n) ((j, q) ∷ d) (c, b) = drop-FewChecks n d b

pub last_of-FewChecks : (n : ℕ) (d : Dict Pending) → FewChecks d → FewChecks (last_of n d)
unfolding last_of
last_of-FewChecks n d b = drop-FewChecks (length d - n) d b

pub length-put :
    {V : Type 0} (k : String) (v w : V) (d : Dict V)
    → Dict.get k d ≡ some w
    → length (Dict.put k v d) ≡ length d
unfolding Dict.put Dict.get
length-put k v w [] h = ground arith
length-put k v w ((j, u) ∷ d) h = ground (arith, length-put k v w d)

pub length-pop : {V : Type 0} (k : String) (d : Dict V) → length (Dict.pop k d) ≤ length d
unfolding Dict.pop
length-pop k [] = omega arith
length-pop k ((j, u) ∷ d) = ground (arith, length-pop k d)
