-- ===== src/Selfhost/Spool/Resume.antt =====
-- selfhost/spool.py: reading a file in several reads.
use ai_security_gateway.Base.{
  ℕ, zero, suc, ◌+◌, ◌≤◌, String, ◌≡◌, refl, ap, ◌∙◌, sym, true, Option, none, some, [], ◌∷◌, ◌++◌,
  arith, length, drop,
}
use text.Mathlib.TextPositions.{eq_refl}
use ai_security_gateway.Base.Dict
use ai_security_gateway.Base.Dict.{Dict, get-put}
use ai_security_gateway.Selfhost.Spool.{
  Bytes, SpoolFile, active, take, end_of_lines, splitlines, decoded, Position, Pending, read_files,
  read_from, files_from,
}
use ai_security_gateway.Selfhost.Spool.Lines.{
  is_whole, end_of_lines-le-length, take-end_of_lines, end_of_lines-IsWhole, splitlines-append,
  decoded-append,
}

-- What a read from an offset consumes.
unfoldable pub consumed : ℕ → ℕ → Bytes → Bytes
consumed n o c = let chunk = take n (drop o c) in take (end_of_lines chunk) chunk

take-nil : (n : ℕ) → take n [] ≡ []
unfolding take
take-nil zero = refl
take-nil (suc n) = refl

take_more : (o k : ℕ) (c : Bytes) → take (o + k) c ≡ take o c ++ take k (drop o c)
unfolding take
take_more zero k c = ground arith
take_more (suc o) k [] = ground (arith, take-nil (suc o + k), take-nil k)
take_more (suc o) k (b ∷ c) =
    let e : suc o + k ≡ suc (o + k) = omega arith in rw e (ap (λ xs. b ∷ xs) (take_more o k c))

take-take : (k n : ℕ) (c : Bytes) → k ≤ n → take k (take n c) ≡ take k c
unfolding take
take-take zero n c h = refl
take-take (suc k) zero c h = absurd (omega arith)
take-take (suc k) (suc n) [] h = refl
take-take (suc k) (suc n) (b ∷ c) h = ap (λ xs. b ∷ xs) (take-take k n c (omega (arith, h)))

length-take-le : (n : ℕ) (c : Bytes) → length (take n c) ≤ n
unfolding take
length-take-le zero c = omega arith
length-take-le (suc n) [] = omega arith
length-take-le (suc n) (b ∷ c) = omega (arith, length-take-le n c)

length-take-le-length : (n : ℕ) (c : Bytes) → length (take n c) ≤ length c
unfolding take
length-take-le-length zero c = omega arith
length-take-le-length (suc n) [] = omega arith
length-take-le-length (suc n) (b ∷ c) = omega (arith, length-take-le-length n c)

take-all : (n : ℕ) (c : Bytes) → length c ≤ n → take n c ≡ c
unfolding take
take-all zero [] h = refl
take-all zero (b ∷ c) h = absurd (omega arith)
take-all (suc n) [] h = refl
take-all (suc n) (b ∷ c) h = ap (λ xs. b ∷ xs) (take-all n c (omega (arith, h)))

-- A read goes on where it began.
consumed-take :
    (n o : ℕ) (c : Bytes)
    → take (o + end_of_lines (take n (drop o c))) c ≡ take o c ++ consumed n o c
unfolding consumed
consumed-take n o c =
    let chunk = take n (drop o c) in
    let k = end_of_lines chunk in
    let small : k ≤ n = omega (arith, end_of_lines-le-length chunk, length-take-le n (drop o c)) in
    take_more o k c ∙ ap (λ xs. take o c ++ xs) (sym (take-take k n (drop o c) small))

take-append : (n : ℕ) (c extra : Bytes) → n ≤ length c → take n (c ++ extra) ≡ take n c
unfolding take
take-append zero c extra h = refl
take-append (suc n) [] extra h = absurd (omega arith)
take-append (suc n) (b ∷ c) extra h = ap (λ xs. b ∷ xs) (take-append n c extra (omega (arith, h)))

abbrev pub active_file : ℕ → Bytes → SpoolFile
active_file inode c = record { inode = inode; name = active; content = c }

module _ {Event : Type 0} (decode : Bytes → Option Event) (writer : String) where
  -- A read of a writer that has one file, the active one.
  unfoldable pub read_active : ℕ → Bytes → Option Position → ℕ → Pending Event
  read_active inode c at limit =
      read_from decode writer (active_file inode c ∷ []) at
        (record { events = []; cursor = []; drained = []; budget = limit })

  abbrev offset_of : Option Position → ℕ
  offset_of none = 0
  offset_of (some at) = at.offset

  -- The cursor is none, or in this file.
  abbrev pub IsAt : ℕ → Option Position → Type 0
  IsAt inode none = Unit
  IsAt inode (some at) = at.inode ≡ inode

  read_active-reads :
      (inode : ℕ) (c : Bytes) (at : Option Position) (limit : ℕ)
      → IsAt inode at
      → ((read_active inode c at limit).events
          ≡ decoded decode (splitlines (consumed limit (offset_of at) c)))
        × (Dict.get writer (read_active inode c at limit).cursor
            ≡ some (record {
              inode = inode;
              offset = offset_of at + end_of_lines (take limit (drop (offset_of at) c));
            }))
  unfolding read_active read_from read_files files_from consumed Dict.put Dict.get
  read_active-reads inode c none limit h = (refl, ground (arith, eq_refl writer))
  read_active-reads inode c (some at) limit h = (ground arith, ground (arith, eq_refl writer))

  -- Two reads, the second from the cursor of the first, with anything appended to the file between
  -- them and with any budgets, decode together exactly the lines before the second cursor, which does
  -- not go back: no event is lost or read twice.
  pub read_active-resume :
      (inode : ℕ) (c extra : Bytes) (limit more : ℕ) (at next : Position)
      → Dict.get writer (read_active inode c none limit).cursor ≡ some at
      → Dict.get writer (read_active inode (c ++ extra) (some at) more).cursor ≡ some next
      → ((read_active inode c none limit).events
            ++ (read_active inode (c ++ extra) (some at) more).events
          ≡ decoded decode (splitlines (take next.offset (c ++ extra))))
        × (at.offset ≤ next.offset)
  unfolding take consumed
  read_active-resume inode c extra limit more at next h k =
      let (events1, cursor1) = read_active-reads inode c none limit tt in
      let k1 = end_of_lines (take limit c) in
      let at_lem : at ≡ record { inode = inode; offset = 0 + k1 } = ground (arith, h, cursor1) in
      let (events2, cursor2) =
        read_active-reads inode (c ++ extra) (some at) more (ap (λ p. p.inode) at_lem) in
      let n1 = at.offset in
      let k2 = end_of_lines (take more (drop n1 (c ++ extra))) in
      let next_lem : next ≡ record { inode = inode; offset = n1 + k2 } =
        ground (arith, k, cursor2) in
      let first = consumed limit 0 c in
      let second = consumed more n1 (c ++ extra) in
      let within : 0 + k1 ≤ length c =
        omega (arith, end_of_lines-le-length (take limit c), length-take-le-length limit c) in
      let start : take n1 (c ++ extra) ≡ first =
        ap (λ p. take p.offset (c ++ extra)) at_lem
        ∙ (take-append (0 + k1) c extra within ∙ consumed-take limit 0 c) in
      let whole : is_whole first ≡ true = take-end_of_lines (take limit c) in
      let both : take next.offset (c ++ extra) ≡ first ++ second =
        ap (λ p. take p.offset (c ++ extra)) next_lem
        ∙ (consumed-take more n1 (c ++ extra) ∙ ap (λ xs. xs ++ second) start) in
      let lines =
        ap (λ xs. decoded decode (splitlines xs)) both
        ∙ (ap (decoded decode) (splitlines-append first second whole)
            ∙ decoded-append decode (splitlines first) (splitlines second)) in
      (
        ap (λ xs. xs ++ (read_active inode (c ++ extra) (some at) more).events) events1
            ∙ (ap (λ xs. decoded decode (splitlines first) ++ xs) events2 ∙ sym lines),
        omega (arith, ap (λ p. p.offset) next_lem),
      )

  -- A read from the start whose budget is the file's size or more reads all of a file of whole lines.
  pub read_active-all :
      (inode : ℕ) (c : Bytes) (limit : ℕ)
      → is_whole c ≡ true
      → length c ≤ limit
      → (read_active inode c none limit).events ≡ decoded decode (splitlines c)
  unfolding consumed
  read_active-all inode c limit w l =
      let (events, _) = read_active-reads inode c none limit tt in
      let chunk = take-all limit c l in
      let size : end_of_lines (take limit c) ≡ length c =
        ap end_of_lines chunk ∙ end_of_lines-IsWhole c w in
      let all : consumed limit 0 c ≡ c =
        ap (λ n. take n (take limit c)) size
        ∙ (ap (take (length c)) chunk ∙ take-all (length c) c (omega arith)) in
      events ∙ ap (λ xs. decoded decode (splitlines xs)) all
