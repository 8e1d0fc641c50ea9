-- ===== src/Selfhost/SignIn/Mapped.antt =====
-- selfhost/auth.py: the identity that a mapping of claims gives has only mapped values, and all that the
-- mode requires.
use ai_security_gateway.Base.{
  String, ◌≡◌, refl, sym, subst, ◌⊎◌, inl, inr, Bool, true, false, ◌&&◌, Option, none, some, List,
  [], ◌∷◌, length, codes, str_eq, eq_iff, is_set, contains, arith, Bool-cases, ◌≤◌,
}
use text.Mathlib.TextPositions.{eq_refl}
use ai_security_gateway.Base.Dict
use ai_security_gateway.Base.Dict.{Dict, get-put}
use ai_security_gateway.Base.Result.{ok, bind-ok}
use ai_security_gateway.Inspection.Json.{Json, str, Fields, member}
use ai_security_gateway.Selfhost.SignIn.{
  dumped, IdentityMode, delegated, agent, AgentIdentityClaims,
}
use ai_security_gateway.Selfhost.SignIn.Claims.{
  required_fields, skipped_fields, claim_value, field_value, set_field, mapped_fields, with_mode,
  identity_of,
}

-- A value is the claim that the mapping gives the field: a text of 1 to 256 characters.
abbrev pub IsClaim : Fields → String → String → Type 0
IsClaim claims claim v =
    (member claim claims ≡ some (str v)) × (is_set v ≡ true) × (length (codes v) ≤ 256)

abbrev pub FromClaim : Fields → Dict (Option String) → String → String → Type 0
FromClaim claims [] name v = ⊥
FromClaim claims ((n, none) ∷ ms) name v = FromClaim claims ms name v
FromClaim claims ((n, some claim) ∷ ms) name v =
    ((n ≡ name) × IsClaim claims claim v) ⊎ FromClaim claims ms name v

-- Every entry of an identity comes from a mapped claim.
abbrev pub AllMapped : Fields → Dict (Option String) → Dict String → Type 0
AllMapped claims ms [] = Unit {0}
AllMapped claims ms ((name, v) ∷ d) = FromClaim claims ms name v × AllMapped claims ms d

abbrev pub has_key : String → Dict String → Bool
has_key k d = elim (Dict.get k d) [ none ↦ false | some v ↦ true ]

abbrev pub has_keys : List String → Dict String → Bool
has_keys [] d = true
has_keys (k ∷ ks) d = has_key k d && has_keys ks d

claim_value-IsClaim :
    (mode : IdentityMode) (claims : Fields) (name claim v : String)
    → claim_value mode name (member claim claims) ≡ ok (some v)
    → IsClaim claims claim v
unfolding claim_value
claim_value-IsClaim mode claims name claim v h = ground arith

field_value-IsClaim :
    (mode : IdentityMode) (claims : Fields) (name claim v : String)
    → field_value mode claims name (some claim) ≡ ok (some v)
    → IsClaim claims claim v
unfolding field_value
field_value-IsClaim mode claims name claim v h =
    ground (arith, claim_value-IsClaim mode claims name claim v)

put-AllMapped :
    (claims : Fields) (ms : Dict (Option String)) (k v : String) (d : Dict String)
    → FromClaim claims ms k v
    → AllMapped claims ms d
    → AllMapped claims ms (Dict.put k v d)
unfolding Dict.put
put-AllMapped claims ms k v [] m a = (m, tt)
put-AllMapped claims ms k v ((j, w) ∷ d) (m) (e, a) = elim (Bool-cases (str_eq j k)) [
  | inl same ↦
      let p : j ≡ k = (eq_iff j k).0 same in
      rw same (subst (λ x. FromClaim claims ms x v) (sym p) m, a)
  | inr other ↦ rw other (e, put-AllMapped claims ms k v d m a)
]

set_field-AllMapped :
    (mode : IdentityMode) (claims : Fields) (full ms : Dict (Option String)) (n : String)
    (claim v : Option String) (d : Dict String)
    → ((name v : String) → FromClaim claims ((n, claim) ∷ ms) name v → FromClaim claims full name v)
    → AllMapped claims full d
    → field_value mode claims n claim ≡ ok v
    → AllMapped claims full (set_field n v d)
unfolding field_value
set_field-AllMapped mode claims full ms n claim none d sub a h = a
set_field-AllMapped mode claims full ms n none (some v) d sub a h = ground arith
set_field-AllMapped mode claims full ms n (some claim) (some v) d sub a h =
    put-AllMapped claims full n v d
      (sub n v (inl (refl, field_value-IsClaim mode claims n claim v h))) a

set_field-has_key :
    (n key : String) (v : Option String) (d : Dict String)
    → has_key key d ≡ true
    → has_key key (set_field n v d) ≡ true
set_field-has_key n key none d h = h
set_field-has_key n key (some v) d h = ground (arith, get-put n key v d)

rest_of :
    (claims : Fields) (n : String) (claim : Option String) (ms : Dict (Option String))
    (name v : String)
    → FromClaim claims ms name v
    → FromClaim claims ((n, claim) ∷ ms) name v
rest_of claims n none ms name v m = m
rest_of claims n (some claim) ms name v m = inr m

-- The loop over the rest of a mapping adds values that the whole mapping gives.
mapped_fields-AllMapped :
    (mode : IdentityMode) (claims : Fields) (full ms : Dict (Option String)) (d r : Dict String)
    → ((name v : String) → FromClaim claims ms name v → FromClaim claims full name v)
    → AllMapped claims full d
    → mapped_fields mode claims ms d ≡ ok r
    → AllMapped claims full r
unfolding mapped_fields
mapped_fields-AllMapped mode claims full [] d r sub a h = ground (arith, a)
mapped_fields-AllMapped mode claims full ((n, claim) ∷ ms) d r sub a h =
    let (v, e, k) = bind-ok (field_value mode claims n claim) _ h in
    mapped_fields-AllMapped mode claims full ms (set_field n v d) r
      (λ name w m. sub name w (rest_of claims n claim ms name w m))
      (set_field-AllMapped mode claims full ms n claim v d sub a e) k

-- The loop keeps the fields that are there.
mapped_fields-has_key :
    (mode : IdentityMode) (claims : Fields) (ms : Dict (Option String)) (d r : Dict String)
    (key : String)
    → has_key key d ≡ true
    → mapped_fields mode claims ms d ≡ ok r
    → has_key key r ≡ true
unfolding mapped_fields
mapped_fields-has_key mode claims [] d r key has h = ground (arith, has)
mapped_fields-has_key mode claims ((n, claim) ∷ ms) d r key has h =
    let (v, e, k) = bind-ok (field_value mode claims n claim) _ h in
    mapped_fields-has_key mode claims ms (set_field n v d) r key (set_field-has_key n key v d has) k

-- A required field has a value after its turn.
claim_value-some :
    (mode : IdentityMode) (name : String) (j : Option Json) (v : Option String)
    → contains (required_fields mode) name ≡ true
    → claim_value mode name j ≡ ok v
    → (w : String) × (v ≡ some w)
unfolding claim_value
claim_value-some mode name j v required h = ground arith

-- The loop gives a value to a field that is required, mapped and not skipped.
mapped_fields-required :
    (mode : IdentityMode) (claims : Fields) (ms : Dict (Option String)) (d r : Dict String)
    (key claim : String)
    → contains (required_fields mode) key ≡ true
    → contains (skipped_fields mode) key ≡ false
    → Dict.get key ms ≡ some (some claim)
    → mapped_fields mode claims ms d ≡ ok r
    → has_key key r ≡ true
unfolding mapped_fields field_value Dict.get
mapped_fields-required mode claims [] d r key claim required kept at h = ground arith
mapped_fields-required mode claims ((n, c) ∷ ms) d r key claim required kept at h =
    let (v, e, k) = bind-ok (field_value mode claims n c) _ h in
    elim (Bool-cases (str_eq n key)) [
      | inr other ↦
          mapped_fields-required mode claims ms (set_field n v d) r key claim required kept
            (ground arith) k
      | inl same ↦
          let p : n ≡ key = (eq_iff n key).0 same in
          let q : claim_value mode key (member claim claims) ≡ ok v = ground (arith, p) in
          let (w, s) = claim_value-some mode key (member claim claims) v required q in
          mapped_fields-has_key mode claims ms (set_field n v d) r key
            (ground (arith, p, s, get-put n key w d, eq_refl key)) k
    ]

mapped_fields-has_keys :
    (mode : IdentityMode) (claims : Fields) (m : AgentIdentityClaims) (r : Dict String)
    → mapped_fields mode claims (dumped m) [] ≡ ok r
    → has_keys (required_fields mode) r ≡ true
unfolding Dict.get contains
mapped_fields-has_keys agent claims m r h = ground (
  arith,
  mapped_fields-required agent claims (dumped m) [] r "tenant_id" m.tenant_id refl refl refl h,
  mapped_fields-required agent claims (dumped m) [] r "agent_id" m.agent_id refl refl refl h,
)
mapped_fields-has_keys delegated claims m r h = ground (
  arith,
  mapped_fields-required delegated claims (dumped m) [] r "tenant_id" m.tenant_id refl refl refl h,
  mapped_fields-required delegated claims (dumped m) [] r "user_id" m.user_id refl refl refl h,
  mapped_fields-required delegated claims (dumped m) [] r "agent_id" m.agent_id refl refl refl h,
  mapped_fields-required delegated claims (dumped m) [] r "delegation_id" m.delegation_id refl refl
      refl h,
  mapped_fields-required delegated claims (dumped m) [] r "task_id" m.task_id refl refl refl h,
)

-- What the identity of a caller is: nothing without a mapping; otherwise mapped claims only, the
-- required ones among them, and the mode.
abbrev pub IsIdentity : Option AgentIdentityClaims → IdentityMode → Fields → Dict String → Type 0
IsIdentity none mode claims identity = identity ≡ []
IsIdentity (some m) mode claims identity =
    (d : Dict String) × (identity ≡ with_mode mode d)
    × AllMapped claims (dumped m) d
    × (has_keys (required_fields mode) d ≡ true)

pub identity_of-IsIdentity :
    (c : Option AgentIdentityClaims) (mode : IdentityMode) (claims : Fields)
    (identity : Dict String)
    → identity_of c mode claims ≡ ok identity
    → IsIdentity c mode claims identity
unfolding identity_of
identity_of-IsIdentity none mode claims identity h = ground arith
identity_of-IsIdentity (some m) mode claims identity h =
    let (d, e, k) = bind-ok (mapped_fields mode claims (dumped m) []) _ h in
    (
      d,
      ground arith,
      mapped_fields-AllMapped mode claims (dumped m) (dumped m) [] d (λ name v x. x) tt e,
      mapped_fields-has_keys mode claims m d e,
    )
