-- ===== src/Broker/Issue.antt =====
-- access_broker/broker.py: the broker's lifetimes, the tokens that it issues and the decisions of the
-- strict operations.
use Prim.Native.String.{◌++◌ as str_append}
use ai_security_gateway.Base.{
  ℕ, String, Bool, Option, none, some, [], ◌∷◌, leb, is_set, if◌then◌else◌,
}
use ai_security_gateway.Base.Dict
use ai_security_gateway.Base.Dict.{Dict}
use ai_security_gateway.Base.Result.{Result, ok, err}
use ai_security_gateway.Base.Exec.{◌>>=◌, pure, lift}
use ai_security_gateway.Broker.Models.{
  Error, value_error, key_error, Stamp, add_seconds, earliest, Metadata, Value, null, text, other,
  DelegationRecord, AccessRequest, BrokerToken, ApprovalRecord, AccessDecision, strict_metadata,
}
use ai_security_gateway.Broker.Registry.{new_id}
use ai_security_gateway.Broker.World.{Env, M, utc_now, urlsafe_token}
use ai_security_gateway.Broker.Evaluate.{Evaluation, valid_digest}

pub record Broker : Type 0 where
  pub token_ttl_seconds : ℕ
  pub approval_ttl_seconds : ℕ

-- `AccessBroker.__init__`: a lifetime of zero is refused.
unfoldable pub new_broker : ℕ → ℕ → Result Error Broker
new_broker token_ttl approval_ttl =
    if leb 1 token_ttl
    then if leb 1 approval_ttl
      then ok (record { token_ttl_seconds = token_ttl; approval_ttl_seconds = approval_ttl })
      else err value_error
    else err value_error

-- The value that a model's field `str | None` takes: a value of another type does not validate.
unfoldable pub text_field : Option Value → Result Error (Option String)
text_field none = ok none
text_field (some null) = ok none
text_field (some (text t)) = ok (some t)
text_field (some (other n)) = err value_error

-- `request.metadata["request_digest"]`
unfoldable pub digest_item : Metadata → Result Error (Option String)
digest_item m = elim (Dict.get "request_digest" m) [
  | none ↦ err key_error
  | some v ↦ text_field (some v)
]

abbrev pub with_ttl : Stamp → ℕ → Option DelegationRecord → Result Error Stamp
with_ttl now ttl none = ok (add_seconds now ttl)
with_ttl now ttl (some d) = earliest (add_seconds now ttl) d.expires_at

module _ {File : Type 0} (env : Env File) (broker : Broker) where
  -- `_issue_token`; without a delegation the clock is read twice.
  unfoldable pub token_expiry : Option DelegationRecord → M File Stamp
  token_expiry d = do
    now ← utc_now env
    limit ← elim d [
      | none ↦ (do later ← utc_now env; pure (add_seconds later broker.token_ttl_seconds))
      | some d' ↦ pure d'.expires_at
    ]
    lift (earliest (add_seconds now broker.token_ttl_seconds) limit)

  unfoldable pub issue_token : AccessRequest → Option DelegationRecord → M File BrokerToken
  issue_token r d = do
    expires_at ← token_expiry d
    secret ← urlsafe_token env
    digest ← lift (text_field (Dict.get "request_digest" r.metadata))
    pure (record {
      token_id = str_append "td_jit_" secret;
      subject =
          if is_set r.user_id then str_append r.user_id (str_append "/" r.agent_id) else r.agent_id;
      scopes = str_append r.resource_id (str_append ":" r.requested_action) ∷ [];
      expires_at = expires_at;
      tenant_id = r.tenant_id;
      request_digest = digest;
    })

module _ {File : Type 0} (env : Env File) where
  unfoldable pub strict_decision :
      AccessRequest
      → Evaluation
      → Bool
      → Option BrokerToken
      → Option ApprovalRecord
      → M File AccessDecision
  strict_decision r e evaluation_only token approval = do
    id ← new_id env "dec"
    now ← utc_now env
    pure (record {
      decision_id = id;
      action = e.action;
      reason_code = e.reason_code;
      reason = e.reason;
      tenant_id = r.tenant_id;
      user_id = r.user_id;
      agent_id = r.agent_id;
      delegation_id = r.delegation_id;
      task_id = r.task_id;
      tool_name = r.tool_name;
      resource_id = r.resource_id;
      requested_action = r.requested_action;
      token = token;
      approval = approval;
      metadata =
          strict_metadata r.agent_instance_id (valid_digest r) evaluation_only r.authorization_mode;
      created_at = now;
    })
