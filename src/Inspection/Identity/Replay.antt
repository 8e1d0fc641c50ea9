-- ===== src/Inspection/Identity/Replay.antt =====
-- inspection/identity.py: an attestation that was consumed, over the later verifications of any messages.
use ai_security_gateway.Base.{
  ℕ, ◌≤◌, String, ◌≡◌, refl, ◌⊎◌, inl, inr, Bool, true, false, Option, none, some, [], ◌∷◌, arith,
  eq_iff, Bool-cases, ap, ◌∙◌,
}
use ai_security_gateway.Base.Dict
use ai_security_gateway.Base.Dict.{Dict}
use ai_security_gateway.Base.Result.{ok, err}
use ai_security_gateway.Inspection.Json.{Fields, ℤ, ◌+ℤ◌, pos, negsuc, lebℤ}
use ai_security_gateway.Inspection.Contracts.{Raised, inspection_error, HttpMessage}
use ai_security_gateway.Inspection.Identity.{
  Crypto, AttestationVerifier, Attested, attestation, Nonces, delete_expired, is_used, use_nonce,
  verify, settle_nonce,
}
use ai_security_gateway.Inspection.Identity.Shown.{signed_fields, Shows, attestation-Shows}

-- A row of the table.
abbrev Kept : String → ℤ → Nonces → Type 0
Kept n e [] = ⊥
Kept n e ((k, x) ∷ rows) = ((k ≡ n) × (x ≡ e)) ⊎ Kept n e rows

Kept-is_used : (n : String) (e : ℤ) (rows : Nonces) → Kept n e rows → is_used n rows ≡ true
unfolding is_used
Kept-is_used n e [] h = elim h [ ]
Kept-is_used n e ((k, x) ∷ rows) (inl h) = ground (arith, eq_iff k n)
Kept-is_used n e ((k, x) ∷ rows) (inr h) = ground (arith, Kept-is_used n e rows h)

Kept-delete_expired :
    (n : String) (e : ℤ) (now : ℕ) (rows : Nonces)
    → Kept n e rows
    → lebℤ (pos now) (e +ℤ 5) ≡ true
    → Kept n e (delete_expired now rows)
unfolding delete_expired
Kept-delete_expired n e now [] h l = elim h [ ]
Kept-delete_expired n e now ((k, x) ∷ rows) (inl h) l = ground arith
Kept-delete_expired n e now ((k, x) ∷ rows) (inr h) l =
    ground (arith, Kept-delete_expired n e now rows h l)

-- The nonce is in the table, or the time in which its attestation is accepted is over.
abbrev Barred : String → ℤ → ℕ → Nonces → Type 0
Barred n e now rows = Kept n e rows ⊎ (lebℤ (pos now) (e +ℤ 5) ≡ false)

later-over :
    (e : ℤ) (t now : ℕ) → t ≤ now → lebℤ (pos t) (e +ℤ 5) ≡ false → lebℤ (pos now) (e +ℤ 5) ≡ false
unfolding lebℤ ◌+ℤ◌
later-over (pos e) t now l h = ground arith
later-over (negsuc e) t now l h = ground arith

Barred-later :
    (n : String) (e : ℤ) (t now : ℕ) (rows : Nonces)
    → t ≤ now
    → Barred n e t rows
    → Barred n e now rows
Barred-later n e t now rows l (inl k) = inl k
Barred-later n e t now rows l (inr over) = inr (later-over e t now l over)

over-expired : (e : ℤ) (now : ℕ) → lebℤ (pos now) (e +ℤ 5) ≡ false → lebℤ e (pos now) ≡ true
unfolding lebℤ ◌+ℤ◌
over-expired (pos e) now h = ground arith
over-expired (negsuc e) now h = refl

-- Verifications of any messages, from a time and a table to a later time and table.
module _ (crypto : Crypto) (verifier : AttestationVerifier) where
  pub data Verifications : ℕ → Nonces → ℕ → Nonces → Type 0 where
    finished : {t : ℕ} {rows : Nonces} → Verifications t rows t rows
    verified :
        {t u : ℕ} {rows rest : Nonces} (now : ℕ) (consume : Bool) (m : HttpMessage)
        → t ≤ now
        → Verifications now (verify crypto verifier consume now m rows).1 u rest
        → Verifications t rows u rest

use_nonce-Barred :
    (n : String) (e : ℤ) (t now : ℕ) (a : Attested) (rows : Nonces)
    → t ≤ now
    → Barred n e t rows
    → Barred n e now (use_nonce now a rows).1
unfolding use_nonce
use_nonce-Barred n e t now a rows l b = elim (Bool-cases (lebℤ (pos now) (e +ℤ 5))) [
  | inr over ↦ inr over
  | inl open_still ↦ elim b [
    | inr over ↦ absurd (ground (arith, later-over e t now l over, open_still))
    | inl k ↦ elim (Bool-cases (is_used a.nonce (delete_expired now rows))) [
      | inl u ↦ inl (ground arith)
      | inr u ↦ inl (ground (arith, Kept-delete_expired n e now rows k open_still))
    ]
  ]
]

settle_nonce-Barred :
    (n : String) (e : ℤ) (t now : ℕ) (consume : Bool) (o : Option Attested) (rows : Nonces)
    → t ≤ now
    → Barred n e t rows
    → Barred n e now (settle_nonce consume now o rows).1
unfolding settle_nonce
settle_nonce-Barred n e t now true (some a) rows l b = use_nonce-Barred n e t now a rows l b
settle_nonce-Barred n e t now false (some a) rows l b = Barred-later n e t now rows l b
settle_nonce-Barred n e t now consume none rows l b = Barred-later n e t now rows l b

-- A consumed attestation bars its nonce.
settle_nonce-ok :
    (now : ℕ) (o : Option Attested) (rows rest : Nonces) (p : Fields)
    → settle_nonce true now o rows ≡ (ok p, rest)
    → (a : Attested) × ((o ≡ some a) × Barred a.nonce a.expires now rest)
unfolding settle_nonce use_nonce
settle_nonce-ok now none rows rest p h = cc
settle_nonce-ok now (some a) rows rest p h = (a, (refl, ground arith))

settle_nonce-refuses :
    (now : ℕ) (o : Option Attested) (n : String) (e : ℤ) (rows : Nonces)
    → ((a : Attested)
        → o ≡ some a
        → (a.nonce ≡ n) × ((a.expires ≡ e) × (lebℤ a.expires (pos now) ≡ false)))
    → Barred n e now rows
    → (r : Raised) × (settle_nonce true now o rows ≡ (err r, rows))
unfolding settle_nonce use_nonce
settle_nonce-refuses now none n e rows h b = (_, refl)
settle_nonce-refuses now (some a) n e rows h b = elim (Bool-cases (lebℤ (pos now) (e +ℤ 5))) [
  | inr over ↦ absurd (ground (arith, (h a refl).1, over-expired e now over))
  | inl still ↦ elim b [
    | inr over ↦ absurd (ground (arith, over, still))
    | inl k ↦ (
      inspection_error "attestation_replay",
      ground (
        arith,
        (h a refl).0,
        Kept-is_used n e (delete_expired now rows) (Kept-delete_expired n e now rows k still),
      ),
    )
  ]
]

same_attested :
    {o : Option Fields} {now now' : ℕ} (a b : Attested)
    → o ≡ some a.payload
    → Shows now a.payload a
    → o ≡ some b.payload
    → Shows now' b.payload b
    → (b.nonce ≡ a.nonce) × ((b.expires ≡ a.expires) × (lebℤ b.expires (pos now') ≡ false))
same_attested a b e s f t = ground (arith, s.nonce, s.expires, t.nonce, t.expires, t.alive)

module _ (crypto : Crypto) (verifier : AttestationVerifier) where
  verifications-Barred :
      (n : String) (e : ℤ) {t u : ℕ} {rows rest : Nonces}
      → Verifications crypto verifier t rows u rest
      → Barred n e t rows
      → Barred n e u rest
  unfolding verify
  verifications-Barred n e finished b = b
  verifications-Barred n e (verified now consume m l run) b =
      verifications-Barred n e run
        (settle_nonce-Barred n e _ now consume (attestation crypto verifier now m) _ l b)

  -- An attestation that was accepted and consumed is not accepted for consumption again: after any
  -- verifications of any messages, at times that do not go back, a message with the same attestation
  -- header is refused and the table is left as it was.
  pub verify-once :
      (t u : ℕ) (rows used rest : Nonces) (p : Fields) (m m' : HttpMessage)
      → verify crypto verifier true t m rows ≡ (ok p, used)
      → Verifications crypto verifier t used u rest
      → (now : ℕ) → u ≤ now
      → Dict.get "x-td-attestation" m'.headers ≡ Dict.get "x-td-attestation" m.headers
      → (r : Raised) × (verify crypto verifier true now m' rest ≡ (err r, rest))
  unfolding verify
  verify-once t u rows used rest p m m' h run now l same =
      let (a, (e, b)) = settle_nonce-ok t (attestation crypto verifier t m) rows used p h in
      let (f, s) = attestation-Shows crypto verifier t m a e in
      settle_nonce-refuses now (attestation crypto verifier now m') a.nonce a.expires rest
        (λ c g.
          let (f', s') = attestation-Shows crypto verifier now m' c g in
          same_attested a c (ap (signed_fields crypto) same ∙ f) s f' s')
        (Barred-later a.nonce a.expires u now rest l (verifications-Barred a.nonce a.expires run b))
