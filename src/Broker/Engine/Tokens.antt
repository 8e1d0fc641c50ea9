-- ===== src/Broker/Engine/Tokens.antt =====
-- The token of an allowed request: what it names and how long it holds.
use ai_security_gateway.Base.{
  ℕ, suc, ◌≤◌, String, ◌≡◌, refl, sym, true, Option, none, some, [], ◌∷◌, ltb, is_set, arith,
  if◌then◌else◌,
}
use ai_security_gateway.Base.Dict
use ai_security_gateway.Base.Result.{ok}
use ai_security_gateway.Broker.Models.{
  Stamp, add_seconds, is_after, earliest, AccessRequest, DelegationRecord, BrokerToken, digest_text,
  Metadata,
}
use ai_security_gateway.Broker.World.{Env, World, utc_now, urlsafe_token}
use ai_security_gateway.Broker.Evaluate.Evidence.{IsZoned}
use ai_security_gateway.Broker.Issue.{Broker, text_field, digest_item, token_expiry, issue_token}
use ai_security_gateway.Broker.Engine.Held.{moment}
use Prim.Native.String.{◌++◌ as str_append}

-- A moment is not after the end of the delegation, if there is one.
abbrev pub EndsWith : Option DelegationRecord → Stamp → Type 0
EndsWith none t = Unit {0}
EndsWith (some d) t = t.micros ≤ d.expires_at.micros

pub record IsTokenFor (r : AccessRequest) (d : Option DelegationRecord) (latest : Stamp)
    (t : BrokerToken) : Type 0 where
  pub tenant : t.tenant_id ≡ r.tenant_id
  pub digest : t.request_digest ≡ digest_text r.metadata
  pub scope : t.scopes ≡ str_append r.resource_id (str_append ":" r.requested_action) ∷ []
  pub zoned : t.expires_at.aware ≡ true
  pub short : t.expires_at.micros ≤ latest.micros
  pub within_delegation : EndsWith d t.expires_at

pub text_field-digest :
    (m : Metadata) (x : String)
    → digest_text m ≡ some x
    → text_field (Dict.get "request_digest" m) ≡ ok (some x)
unfolding digest_text text_field
text_field-digest m x h = ground arith

pub digest_item-digest :
    (m : Metadata) (x : String) → digest_text m ≡ some x → digest_item m ≡ ok (some x)
unfolding digest_text digest_item text_field
digest_item-digest m x h = ground arith

pub earliest-zoned :
    (a b : Stamp)
    → a.aware ≡ true
    → b.aware ≡ true
    → (t : Stamp) × (earliest a b ≡ ok t)
      × (t.aware ≡ true)
      × (t.micros ≤ a.micros)
      × (t.micros ≤ b.micros)
unfolding earliest is_after
earliest-zoned a b h k =
    (if ltb b.micros a.micros then b else a, ground arith, ground arith, ground arith, ground arith)

module _ {File : Type 0} (env : Env File) (broker : Broker) where
  abbrev pub expiry_from : ℕ → Stamp
  expiry_from n = add_seconds (moment env n) broker.token_ttl_seconds

  token_expiry-returns :
      (d : Option DelegationRecord) (w : World File)
      → IsZoned d
      → (t : Stamp) × (n : ℕ) × (token_expiry env broker d w ≡ (ok t, record w { readings = n }))
        × (w.readings ≤ n)
        × (t.aware ≡ true)
        × (t.micros ≤ (expiry_from w.readings).micros)
        × EndsWith d t
  unfolding token_expiry utc_now
  token_expiry-returns none w z =
      let (t, e, a, p, q) =
        earliest-zoned (expiry_from w.readings) (expiry_from (suc w.readings)) refl refl in
      (t, suc (suc w.readings), ground arith, omega arith, a, p, tt)
  token_expiry-returns (some d) w z =
      let (t, e, a, p, q) = earliest-zoned (expiry_from w.readings) d.expires_at refl z in
      (t, suc w.readings, ground arith, omega arith, a, p, q)

  -- Under a digest and a zoned delegation a token is issued; only the clock moves.
  pub issue_token-returns :
      (r : AccessRequest) (d : Option DelegationRecord) (x : String) (w : World File)
      → digest_text r.metadata ≡ some x
      → IsZoned d
      → (t : BrokerToken) × (n : ℕ) × (issue_token env broker r d w
          ≡ (ok t, record w { readings = n }))
        × (w.readings ≤ n)
        × IsTokenFor r d (expiry_from w.readings) t
  unfolding issue_token urlsafe_token
  issue_token-returns r d x w h z =
      let (e, n, run, later, a, p, q) = token_expiry-returns d w z in
      (
        record {
          token_id = str_append "td_jit_" (env.token_text n);
          subject =
              if is_set r.user_id
              then str_append r.user_id (str_append "/" r.agent_id)
              else r.agent_id;
          scopes = str_append r.resource_id (str_append ":" r.requested_action) ∷ [];
          expires_at = e;
          tenant_id = r.tenant_id;
          request_digest = some x;
        },
        suc n,
        rw (run, text_field-digest r.metadata x h),
        omega arith,
        record {
          tenant = refl;
          digest = sym h;
          scope = refl;
          zoned = a;
          short = p;
          within_delegation = q;
        },
      )
