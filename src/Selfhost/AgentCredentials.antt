-- ===== src/Selfhost/AgentCredentials.antt =====
-- selfhost/agent_credentials.py: the credentials of agents, kept by the digests of their tokens. A
-- call is one transaction of the table. The hash is a parameter; the token, its identifier and the
-- time are what the call draws and reads, and the agent is the one that the broker's store has.
pub mod Revoked
use Prim.Native.String.{◌++◌ as str_append}
use ai_security_gateway.Base.{
  starts_with, ℕ, ◌+◌, String, Bool, true, false, ◌&&◌, ◌||◌, not, Option, none, some, List, [],
  ◌∷◌, leb, ltb, ◌==◌, is_set, str_eq, opt_eq, codes, length, if◌then◌else◌,
}
use ai_security_gateway.Base.Result.{Result, ok, err}
use ai_security_gateway.Broker.Models.{AgentRecord}
use ai_security_gateway.Broker.Store.{Store, get_agent}

-- `ValueError`, and the error of a transaction whose digest or identifier is there already.
pub data CredentialError : Type 0 where
  invalid_lifetime agent_not_found credential_not_found integrity_error : CredentialError

-- A row of the table `credentials`.
pub record Credential : Type 0 where
  pub id : String
  pub tenant : String
  pub agent : String
  pub digest : String
  pub created : ℕ
  pub expires : ℕ
  pub revoked : Bool

-- `AgentCredentials`: the tenant, the broker's store where there is a broker, and the hash.
pub record AgentCredentials : Type 0 where
  pub tenant_id : String
  pub broker_store : Option Store
  pub sha256_hex : String → String

-- What a credential's bearer is taken for.
pub record Principal : Type 0 where
  pub tenant_id : String
  pub agent_id : String

pub record Issued : Type 0 where
  pub credential_id : String
  pub agent_id : String
  pub credential : String
  pub expires_at : ℕ

pub data Status : Type 0 where
  revoked expired active : Status

pub record Listing : Type 0 where
  pub credential_id : String
  pub agent_id : String
  pub created_at : ℕ
  pub expires_at : ℕ
  pub status : Status

abbrev pub Table : Type 0
Table = List Credential

-- `_agent`
abbrev enabled_in : String → Option AgentRecord → Bool
enabled_in tenant none = false
enabled_in tenant (some a) = opt_eq a.tenant_id (some tenant) && a.enabled

unfoldable pub has_agent : AgentCredentials → String → Bool
has_agent c agent_id = elim c.broker_store [
  | none ↦ false
  | some s ↦ enabled_in c.tenant_id (get_agent s agent_id)
]

unfoldable pub is_row : String → String → String → Credential → Bool
is_row id tenant agent r = str_eq r.id id && str_eq r.tenant tenant && str_eq r.agent agent

-- `SELECT * ... WHERE id=? AND tenant=? AND agent=? AND revoked=0` finds a row.
unfoldable pub has_active : String → String → String → Table → Bool
has_active id tenant agent [] = false
has_active id tenant agent (r ∷ rs) =
    (is_row id tenant agent r && not r.revoked) || has_active id tenant agent rs

-- `UPDATE credentials SET revoked=1 WHERE id=?`
unfoldable pub revoke_id : String → Table → Table
revoke_id id [] = []
revoke_id id (r ∷ rs) =
    (if str_eq r.id id then record r { revoked = true } else r) ∷ revoke_id id rs

-- `UPDATE credentials SET revoked=1 WHERE id=? AND tenant=? AND agent=?`
unfoldable pub revoke_row : String → String → String → Table → Table
revoke_row id tenant agent [] = []
revoke_row id tenant agent (r ∷ rs) =
    (if is_row id tenant agent r then record r { revoked = true } else r)
    ∷ revoke_row id tenant agent rs

unfoldable pub has_row : String → String → String → Table → Bool
has_row id tenant agent [] = false
has_row id tenant agent (r ∷ rs) = is_row id tenant agent r || has_row id tenant agent rs

-- The row breaks the primary key or the uniqueness of the digest.
unfoldable pub is_taken : String → String → Table → Bool
is_taken id digest [] = false
is_taken id digest (r ∷ rs) = (str_eq r.id id || str_eq r.digest digest) || is_taken id digest rs

-- `INSERT INTO credentials`; a failure rolls the whole transaction back to the first table.
unfoldable pub insert : Issued → Credential → Table → Table → Result CredentialError Issued × Table
insert issued r before rows =
    if is_taken r.id r.digest rows then (err integrity_error, before) else (ok issued, r ∷ rows)

abbrev pub row : AgentCredentials → String → ℕ → ℕ → String → String → Credential
row c agent_id ttl now token id = record {
  id = id;
  tenant = c.tenant_id;
  agent = agent_id;
  digest = c.sha256_hex token;
  created = now;
  expires = now + ttl;
  revoked = false;
}

abbrev pub issued : String → ℕ → ℕ → String → String → Issued
issued agent_id ttl now token id = record {
  credential_id = id;
  agent_id = agent_id;
  credential = token;
  expires_at = now + ttl;
}

-- `issue`, with the time, the drawn token and the drawn identifier; `rotate_id` is the credential that
-- the new one replaces.
unfoldable pub issue :
    AgentCredentials
    → String
    → ℕ
    → Option String
    → ℕ
    → String
    → String
    → Table
    → Result CredentialError Issued × Table
issue c agent_id ttl rotate_id now token id rows =
    if not (leb 60 ttl && leb ttl 2592000)
    then (err invalid_lifetime, rows)
    else if not (has_agent c agent_id)
    then (err agent_not_found, rows)
    else elim rotate_id [
      | none ↦ insert (issued agent_id ttl now token id) (row c agent_id ttl now token id) rows rows
      | some old ↦
          if not (is_set old)
          then insert (issued agent_id ttl now token id) (row c agent_id ttl now token id) rows rows
          else if has_active old c.tenant_id agent_id rows
          then insert (issued agent_id ttl now token id) (row c agent_id ttl now token id) rows
              (revoke_id old rows)
          else (err credential_not_found, rows)
    ]

-- `revoke`
unfoldable pub revoke :
    AgentCredentials → String → String → Table → Result CredentialError (Unit {0}) × Table
revoke c agent_id id rows =
    if has_row id c.tenant_id agent_id rows
    then (ok tt, revoke_row id c.tenant_id agent_id rows)
    else (err credential_not_found, rows)

-- `SELECT agent ... WHERE digest=? AND tenant=? AND revoked=0 AND expires>?`
unfoldable pub find_agent : String → String → ℕ → Table → Option String
find_agent digest tenant now [] = none
find_agent digest tenant now (r ∷ rs) =
    if str_eq r.digest digest && str_eq r.tenant tenant && not r.revoked && ltb now r.expires
    then some r.agent
    else find_agent digest tenant now rs

unfoldable pub is_token : String → Bool
is_token token = starts_with "td_agent_" token && length (codes token) == 52

-- `authenticate`
unfoldable pub authenticate : AgentCredentials → String → ℕ → Table → Option Principal
authenticate c token now rows =
    if not (is_token token)
    then none
    else elim (find_agent (c.sha256_hex token) c.tenant_id now rows) [
      | none ↦ none
      | some agent_id ↦
          if has_agent c agent_id
          then some (record { tenant_id = c.tenant_id; agent_id = agent_id })
          else none
    ]

-- `ORDER BY created DESC`
unfoldable pub insert_newest : Credential → Table → Table
insert_newest r [] = r ∷ []
insert_newest r (q ∷ qs) = if leb q.created r.created then r ∷ q ∷ qs else q ∷ insert_newest r qs

unfoldable pub newest_first : Table → Table
newest_first [] = []
newest_first (r ∷ rs) = insert_newest r (newest_first rs)

abbrev pub status : ℕ → Credential → Status
status now r = if r.revoked then revoked else if leb r.expires now then expired else active

unfoldable pub listings : AgentCredentials → String → ℕ → Table → List Listing
listings c agent_id now [] = []
listings c agent_id now (r ∷ rs) =
    let rest = listings c agent_id now rs in
    if str_eq r.tenant c.tenant_id && str_eq r.agent agent_id
    then record {
      credential_id = r.id;
      agent_id = r.agent;
      created_at = r.created;
      expires_at = r.expires;
      status = status now r;
    }
      ∷ rest
    else rest

-- `list`
unfoldable pub list : AgentCredentials → String → ℕ → Table → List Listing
list c agent_id now rows = listings c agent_id now (newest_first rows)
