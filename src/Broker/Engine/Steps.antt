-- ===== src/Broker/Engine/Steps.antt =====
-- The steps of `authorize` in a held world: opening an approval, using one up, reporting.
use ai_security_gateway.Base.{
  ℕ, suc, ◌≤◌, String, ◌≡◌, refl, sym, true, false, Option, none, some, arith,
}
use ai_security_gateway.Base.Result.{ok}
use ai_security_gateway.Broker.Models.{
  Stamp, add_seconds, AccessRequest, AccessDecision, DelegationRecord, ApprovalRecord, BrokerToken,
  strict_metadata, digest_text, decision_payload,
}
use ai_security_gateway.Broker.World.{Env, World, utc_now, uuid}
use ai_security_gateway.Broker.Evaluate.{Evaluation, valid_digest}
use ai_security_gateway.Broker.Evaluate.Evidence.{IsZoned}
use ai_security_gateway.Broker.Registry.{new_id}
use ai_security_gateway.Broker.Issue.{Broker, strict_decision, with_ttl}
use ai_security_gateway.Broker.Engine.{report, new_approval, open_approval, consume_approval}
use ai_security_gateway.Broker.Engine.Held.{
  approval_written, save_approval-held, held, moment, id_at, recorded, audit-held,
}
use ai_security_gateway.Broker.Engine.Tokens.{EndsWith, digest_item-digest, earliest-zoned}
use ai_security_gateway.Broker.Engine.Answers.{IsOpened}

module _ {File : Type 0} (env : Env File) (broker : Broker) where
  with_ttl-returns :
      (now : Stamp) (d : Option DelegationRecord)
      → now.aware ≡ true
      → IsZoned d
      → (t : Stamp) × (with_ttl now broker.approval_ttl_seconds d ≡ ok t)
        × (t.aware ≡ true)
        × (t.micros ≤ (add_seconds now broker.approval_ttl_seconds).micros)
        × EndsWith d t
  with_ttl-returns now none h z =
      (add_seconds now broker.approval_ttl_seconds, refl, h, omega arith, tt)
  with_ttl-returns now (some d) h z =
      earliest-zoned (add_seconds now broker.approval_ttl_seconds) d.expires_at h z

  pub open_approval-returns :
      (r : AccessRequest) (d : Option DelegationRecord) (now : Stamp) (x : String) (w : World File)
      → held w ≡ true
      → digest_text r.metadata ≡ some x
      → now.aware ≡ true
      → IsZoned d
      → (p : ApprovalRecord) × (open_approval env broker r d now w ≡ (
        ok p,
        approval_written env "access.approval_created" p (record w { readings = suc w.readings }),
      ))
        × (p.approval_id ≡ id_at env "apv" w.readings)
        × IsOpened env broker r now d p
  unfolding open_approval new_id uuid
  open_approval-returns r d now x w h e z k =
      let (t, run, a, p, q) = with_ttl-returns now d z k in
      (
        new_approval r (id_at env "apv" w.readings) (some x) t now,
        rw (digest_item-digest r.metadata x e, run) (save_approval-held env _ _ _ h),
        refl,
        record {
          status = refl;
          unused = refl;
          mode = refl;
          tenant = refl;
          user = refl;
          agent_named = refl;
          delegation = refl;
          task = refl;
          tool = refl;
          resource = refl;
          action = refl;
          instance_named = refl;
          bound = λ n. ground arith;
          digest = sym e;
          expiry = (t, refl, a, p, q);
        },
      )

  pub consume_approval-returns :
      (p : ApprovalRecord) (now : Stamp) (w : World File)
      → held w ≡ true
      → consume_approval env broker p now w ≡ (
        ok (record p { consumed_at = some now }),
        approval_written env "access.approval_consumed" (record p { consumed_at = some now }) w,
      )
  unfolding consume_approval
  consume_approval-returns p now w h = save_approval-held env _ _ w h

  -- The decision that is made of an evaluation.
  abbrev pub decision_of :
      AccessRequest → Evaluation → Option BrokerToken → Option ApprovalRecord → ℕ → AccessDecision
  decision_of r e token approval n = record {
    decision_id = id_at env "dec" n;
    action = e.action;
    reason_code = e.reason_code;
    reason = e.reason;
    tenant_id = r.tenant_id;
    user_id = r.user_id;
    agent_id = r.agent_id;
    delegation_id = r.delegation_id;
    task_id = r.task_id;
    tool_name = r.tool_name;
    resource_id = r.resource_id;
    requested_action = r.requested_action;
    token = token;
    approval = approval;
    metadata = strict_metadata r.agent_instance_id (valid_digest r) false r.authorization_mode;
    created_at = moment env (suc n);
  }

  pub report-returns :
      (r : AccessRequest) (e : Evaluation) (token : Option BrokerToken)
      (approval : Option ApprovalRecord) (w : World File)
      → held w ≡ true
      → report env broker r e token approval w ≡ (
          let dec = decision_of r e token approval w.readings in
          (
            ok dec,
            recorded env "access.decision"
                (decision_payload dec)
                (record w { readings = suc (suc w.readings) }),
          ))
  unfolding report strict_decision new_id uuid utc_now
  report-returns r e token approval w h = ground (
    arith,
    audit-held env "access.decision" (decision_payload (decision_of r e token approval w.readings))
        (record w { readings = suc (suc w.readings) }) h,
  )
