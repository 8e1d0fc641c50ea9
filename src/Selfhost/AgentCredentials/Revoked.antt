-- ===== src/Selfhost/AgentCredentials/Revoked.antt =====
-- selfhost/agent_credentials.py: a revoked credential, over the later calls of any callers.
use ai_security_gateway.Base.{
  ℕ, String, ◌≡◌, refl, Bool, true, false, ◌&&◌, ◌||◌, not, Option, none, some, List, [], ◌∷◌,
  arith, str_eq, eq_iff, ◌∙◌, subst,
}
use ai_security_gateway.Base.Result.{ok}
use ai_security_gateway.Selfhost.AgentCredentials.{
  AgentCredentials, Credential, Table, Issued, is_row, revoke_id, revoke_row, is_taken, insert,
  issue, issued, row, revoke, find_agent, authenticate,
}

-- Every row with the digest is revoked.
unfoldable pub all_revoked : String → Table → Bool
all_revoked d [] = true
all_revoked d (r ∷ rs) = (not (str_eq r.digest d) || r.revoked) && all_revoked d rs

unfoldable pub has_digest : String → Table → Bool
has_digest d [] = false
has_digest d (r ∷ rs) = str_eq r.digest d || has_digest d rs

-- Every row with the digest is the credential's.
unfoldable pub is_only_of : String → String → String → String → Table → Bool
is_only_of d id tenant agent [] = true
is_only_of d id tenant agent (r ∷ rs) =
    (not (str_eq r.digest d) || is_row id tenant agent r) && is_only_of d id tenant agent rs

abbrev Dead : String → Table → Type 0
Dead d rows = (all_revoked d rows ≡ true) × (has_digest d rows ≡ true)

-- The calls that change the table.
pub data Operation : Type 0 where
  issues : String → ℕ → Option String → ℕ → String → String → Operation
  revokes : String → String → Operation

unfoldable pub after : AgentCredentials → Operation → Table → Table
after c (issues agent ttl rotate_id now token id) rows =
    (issue c agent ttl rotate_id now token id rows).1
after c (revokes agent id) rows = (revoke c agent id rows).1

unfoldable pub run : AgentCredentials → List Operation → Table → Table
run c [] rows = rows
run c (o ∷ os) rows = run c os (after c o rows)

revoke_id-Dead :
    (d id : String) (rows : Table)
    → ((all_revoked d rows ≡ true) → (all_revoked d (revoke_id id rows) ≡ true))
      × (has_digest d (revoke_id id rows) ≡ has_digest d rows)
unfolding all_revoked has_digest revoke_id
revoke_id-Dead d id [] = (λ h. h, refl)
revoke_id-Dead d id (r ∷ rs) =
    (λ h. ground (arith, (revoke_id-Dead d id rs).0), ground (arith, (revoke_id-Dead d id rs).1))

revoke_row-Dead :
    (d id tenant agent : String) (rows : Table)
    → ((all_revoked d rows ≡ true) → (all_revoked d (revoke_row id tenant agent rows) ≡ true))
      × (has_digest d (revoke_row id tenant agent rows) ≡ has_digest d rows)
unfolding all_revoked has_digest revoke_row
revoke_row-Dead d id tenant agent [] = (λ h. h, refl)
revoke_row-Dead d id tenant agent (r ∷ rs) =
    let (k, e) = revoke_row-Dead d id tenant agent rs in (λ h. ground (arith, k), ground (arith, e))

revoke_row-only :
    (d id tenant agent : String) (rows : Table)
    → is_only_of d id tenant agent rows ≡ true
    → all_revoked d (revoke_row id tenant agent rows) ≡ true
unfolding all_revoked is_only_of revoke_row
revoke_row-only d id tenant agent [] h = refl
revoke_row-only d id tenant agent (r ∷ rs) h = ground (arith, revoke_row-only d id tenant agent rs)

taken_digest : (id d : String) (rows : Table) → has_digest d rows ≡ true → is_taken id d rows ≡ true
unfolding has_digest is_taken
taken_digest id d [] h = cc
taken_digest id d (r ∷ rs) h = ground (arith, taken_digest id d rs)

insert-Dead :
    (d : String) (i : Issued) (r : Credential) (before rows : Table)
    → Dead d before
    → Dead d rows
    → Dead d (insert i r before rows).1
unfolding insert all_revoked has_digest
insert-Dead d i r before rows b h = ground (arith, eq_iff r.digest d, taken_digest r.id d rows h.1)

issue-Dead :
    (c : AgentCredentials) (d agent : String) (ttl : ℕ) (rotate_id : Option String) (now : ℕ)
    (token id : String) (rows : Table)
    → Dead d rows
    → Dead d (issue c agent ttl rotate_id now token id rows).1
unfolding issue
issue-Dead c d agent ttl none now token id rows h =
    let i = issued agent ttl now token id in
    let r = row c agent ttl now token id in ground (arith, insert-Dead d i r rows rows h h)
issue-Dead c d agent ttl (some old) now token id rows h =
    let i = issued agent ttl now token id in
    let r = row c agent ttl now token id in
    let (k, e) = revoke_id-Dead d old rows in
    ground (
      arith,
      insert-Dead d i r rows rows h h,
      insert-Dead d i r rows (revoke_id old rows) h (k h.0, e ∙ h.1),
    )

revoke-Dead :
    (c : AgentCredentials) (d agent id : String) (rows : Table)
    → Dead d rows
    → Dead d (revoke c agent id rows).1
unfolding revoke
revoke-Dead c d agent id rows h =
    let (k, e) = revoke_row-Dead d id c.tenant_id agent rows in ground (arith, k h.0, e ∙ h.1)

run-Dead :
    (c : AgentCredentials) (d : String) (os : List Operation) (rows : Table)
    → Dead d rows
    → Dead d (run c os rows)
unfolding run after
run-Dead c d [] rows h = h
run-Dead c d (issues agent ttl rotate_id now token id ∷ os) rows h =
    run-Dead c d os _ (issue-Dead c d agent ttl rotate_id now token id rows h)
run-Dead c d (revokes agent id ∷ os) rows h = run-Dead c d os _ (revoke-Dead c d agent id rows h)

find_agent-none :
    (d tenant : String) (now : ℕ) (rows : Table)
    → all_revoked d rows ≡ true
    → find_agent d tenant now rows ≡ none
unfolding all_revoked find_agent
find_agent-none d tenant now [] h = refl
find_agent-none d tenant now (r ∷ rs) h = ground (arith, find_agent-none d tenant now rs)

authenticate-none :
    (c : AgentCredentials) (token : String) (now : ℕ) (rows : Table)
    → all_revoked (c.sha256_hex token) rows ≡ true
    → authenticate c token now rows ≡ none
unfolding authenticate
authenticate-none c token now rows h =
    ground (arith, find_agent-none (c.sha256_hex token) c.tenant_id now rows h)

-- Once `revoke` has revoked a credential whose digest, that of a token, no other credential has, the
-- token never authenticates again: not after any later issues, rotations and revocations, at any time.
pub revoke-forever :
    (c : AgentCredentials) (agent id token : String) (rows rest : Table)
    → revoke c agent id rows ≡ (ok tt, rest)
    → is_only_of (c.sha256_hex token) id c.tenant_id agent rows ≡ true
    → has_digest (c.sha256_hex token) rows ≡ true
    → (later : List Operation) (now : ℕ) → authenticate c token now (run c later rest) ≡ none
unfolding revoke
revoke-forever c agent id token rows rest h only present later now =
    let d = c.sha256_hex token in
    let dead : Dead d (revoke_row id c.tenant_id agent rows) = (
      revoke_row-only d id c.tenant_id agent rows only,
      (revoke_row-Dead d id c.tenant_id agent rows).1 ∙ present,
    ) in
    let revoked = subst (Dead d) (ground arith) dead in
    authenticate-none c token now (run c later rest) (run-Dead c d later rest revoked).0
