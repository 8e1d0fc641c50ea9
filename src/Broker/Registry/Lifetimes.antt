-- ===== src/Broker/Registry/Lifetimes.antt =====
-- A delegation's lifetime, and the trail of the registration.
use ai_security_gateway.Base.{suc, ◌+◌, ◌≤◌, String, ◌≡◌, refl, true, Option, some, arith}
use ai_security_gateway.Base.Dict.{Dict, get-put}
use ai_security_gateway.Base.Result.{ok}
use ai_security_gateway.Broker.Models.{
  is_valid_request, active, add_seconds, DelegationCreateRequest, DelegationRecord,
  delegation_payload,
}
use ai_security_gateway.Broker.Store.{get_delegation, with_delegation, with_event}
use ai_security_gateway.Broker.World.{Env, World, utc_now, create_delegation}
use ai_security_gateway.Broker.Registry.{create_delegation_for}
use ai_security_gateway.Broker.Engine.Held.{held, moment, recorded, audit-held, transaction-held}
use text.Mathlib.TextPositions.{eq_refl}

module _ {File : Type 0} (env : Env File) where
  -- A delegation that is created in a transaction, or on a store in memory, from a request within
  -- its declared bounds is stored under its identifier, active, and lives from the moment of its creation for at least a
  -- second and at most a day.
  pub create_delegation_for-lives :
      (p : DelegationCreateRequest) (actor : Option (Dict String)) (w : World File)
      → held w ≡ true
      → is_valid_request p ≡ true
      → (d : DelegationRecord) × (w' : World File) × (create_delegation_for env p actor w
          ≡ (ok d, w'))
        × (get_delegation w'.memory p.delegation_id ≡ some d)
        × (d.status ≡ active)
        × (d.created_at ≡ moment env w.readings)
        × (d.created_at.micros + 1000000 ≤ d.expires_at.micros)
        × (d.expires_at.micros ≤ d.created_at.micros + 86400000000)
        × (d.expires_at.aware ≡ true)
  unfolding create_delegation_for utc_now create_delegation
  create_delegation_for-lives p actor w h v =
      let now = moment env w.readings in
      let d : DelegationRecord = record {
        delegation_id = p.delegation_id;
        tenant_id = p.tenant_id;
        user_id = p.user_id;
        agent_id = p.agent_id;
        task_id = p.task_id;
        purpose = p.purpose;
        allowed_resources = p.allowed_resources;
        allowed_actions = p.allowed_actions;
        status = active;
        created_at = now;
        expires_at = add_seconds now p.ttl_seconds;
        metadata = p.metadata;
      } in
      let stored : World File = record w {
        memory = with_delegation d w.memory;
        dirty = true;
        readings = suc w.readings;
      } in
      (
        d,
        recorded env "access.delegation_created" (delegation_payload d actor) stored,
        ground (
          arith,
          transaction-held env _ (record w { readings = suc w.readings }) h,
          audit-held env "access.delegation_created" (delegation_payload d actor) stored h,
        ),
        unfold get_delegation with_delegation with_event in
            rw (
              get-put p.delegation_id p.delegation_id d w.memory.delegations,
              eq_refl p.delegation_id,
            ),
        refl,
        refl,
        ground arith,
        ground arith,
        refl,
      )
